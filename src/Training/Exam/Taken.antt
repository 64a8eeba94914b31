-- ===== src/Training/Exam/Taken.antt =====
-- What an exam that is taken finds and writes.
use noidear.Base.{
  ℕ, ◌+◌, String, Bool, true, false, some, [], ◌∷◌, ◌++◌, find_first, ◌≡◌, refl, arith, update_many,
  inl, inr, Bool-cases, ap, sym, ◌∙◌, leb, ◌<◌, subst, if◌then◌else◌, ==→eq, find_first-holds,
}
use noidear.Base.Action.{ok, err, Error, Result-cases}
use noidear.Training.{
  Db, TrainingProject, LearningRecord, Answers, includes, record_of, project_is, completed,
  get_project_by_id,
}
use noidear.Training.Exam.{
  submit_exam, check_exam, record_exam, get_learning_record, graded, learning_record_is,
  calculate_score, questions_of, all_done, ExamResult, complete_todo_task,
  check_and_generate_archive, grade_record,
}

-- The project as it is after an exam: completed, if the last trainee is done.
abbrev pub completed_at_once : ℕ → TrainingProject → TrainingProject
completed_at_once now p = record p { status = completed; completed_at = some now }

-- The exam of a user in a project, as the database is before and after it.
pub record Taken (to_lower : String → String) (now k : ℕ) (answers : Answers) (u : ℕ) (s t : Db)
    (result : ExamResult) : Type 0 where
  pub project : TrainingProject
  pub row : LearningRecord
  pub project_found : find_first (project_is k) s.projects ≡ some project
  pub trainee : includes u project.trainees ≡ true
  pub row_found : find_first (record_of k u) s.learning_records ≡ some row
  pub attempt_left : row.attempts < project.max_attempts
  pub not_passed : row.passed ≡ false
  pub score_eq : result.score ≡ (calculate_score to_lower (questions_of k s) answers).0
  pub passed_eq : result.passed ≡ leb project.passing_score result.score
  pub attempts_eq : result.attempts ≡ row.attempts + 1
  pub records_eq :
      t.learning_records
      ≡ update_many
          (learning_record_is row.id)
          (graded now result.score result.passed row)
          s.learning_records
  pub projects_eq : t.projects ≡ (
      if all_done project t.learning_records
      then update_many (project_is project.id) (completed_at_once now) s.projects
      else s.projects)
  pub next_eq : t.next_id ≡ s.next_id + 1

module _ (to_lower : String → String) where
  check_exam_run :
      (a b : String) (k u : ℕ) (s : Db) (p : TrainingProject) (r : LearningRecord)
      → (check_exam a b k u s).0 ≡ ok (p, r)
      → (find_first (project_is k) s.projects ≡ some p)
        × (includes u p.trainees ≡ true)
        × (find_first (record_of k u) s.learning_records ≡ some r)
        × (r.attempts < p.max_attempts)
        × (r.passed ≡ false)
  unfolding check_exam get_project_by_id get_learning_record
  check_exam_run a b k u s p r h =
      (ground arith, ground arith, ground arith, ground arith, ground arith)

  found_id :
      (k : ℕ) (s : Db) (p : TrainingProject)
      → find_first (project_is k) s.projects ≡ some p
      → p.id ≡ k
  found_id k s p h = ==→eq p.id k (find_first-holds (project_is k) s.projects p h)

  check_exam-state : (a b : String) (k u : ℕ) (s : Db) → (check_exam a b k u s).1 ≡ s
  unfolding check_exam get_project_by_id get_learning_record
  check_exam-state a b k u s = ground arith

  -- The to-do of a trainee who has passed is completed; the rest stays.
  todo_step :
      (now k u : ℕ) (passed : Bool) (s : Db)
      → let m = if passed then complete_todo_task now k u s else s in
        (m.projects ≡ s.projects)
        × (m.learning_records ≡ s.learning_records)
        × (m.next_id ≡ s.next_id)
  unfolding complete_todo_task
  todo_step now k u true s = (refl, refl, refl)
  todo_step now k u false s = (refl, refl, refl)

  archive_step :
      (now k : ℕ) (p : TrainingProject) (s : Db)
      → find_first (project_is k) s.projects ≡ some p
      → let t = check_and_generate_archive now k s in
        (t.projects ≡ (
          if all_done p t.learning_records
          then update_many (project_is p.id) (completed_at_once now) s.projects
          else s.projects))
        × (t.learning_records ≡ s.learning_records)
        × (t.next_id ≡ s.next_id)
  unfolding check_and_generate_archive
  archive_step now k p s found = rw found (elim (Bool-cases (all_done p s.learning_records)) [
    | inl e ↦ (ground arith, ground arith, ground arith)
    | inr e ↦ (ground arith, ground arith, ground arith)
  ])

  -- The statements after the checks cannot fail.
  record_exam-Taken :
      (now k : ℕ) (answers : Answers) (u : ℕ) (p : TrainingProject) (r : LearningRecord) (s : Db)
      (result : ExamResult)
      → find_first (project_is k) s.projects ≡ some p
      → includes u p.trainees ≡ true
      → find_first (record_of k u) s.learning_records ≡ some r
      → r.attempts < p.max_attempts
      → r.passed ≡ false
      → (record_exam to_lower now k answers u p r s).0 ≡ ok result
      → Taken to_lower now k answers u s (record_exam to_lower now k answers u p r s).1 result
  unfolding record_exam
  record_exam-Taken now k answers u p r s result found trainee row left fresh h =
      let marks = calculate_score to_lower (questions_of k s) answers in
      let same : result ≡ record {
        score = marks.0;
        total_points = marks.1;
        passed = leb p.passing_score marks.0;
        attempts = r.attempts + 1;
      } =
        ground arith in
      let x : Db = grade_record now marks.0 (leb p.passing_score marks.0) r (record s {
        exam_records =
            s.exam_records
            ++ record {
              id = s.next_id;
              learning_record_id = r.id;
              answers = answers;
              score = marks.0;
              submitted_at = now;
            }
              ∷ [];
        next_id = s.next_id + 1;
      }) in
      let m : Db = if leb p.passing_score marks.0 then complete_todo_task now k u x else x in
      let (m_projects, m_records, m_next) = todo_step now k u (leb p.passing_score marks.0) x in
      let (t_projects, t_records, t_next) =
        archive_step now k p m (ap (find_first (project_is k)) m_projects ∙ found) in
      record {
        project = p;
        row = r;
        project_found = found;
        trainee = trainee;
        row_found = row;
        attempt_left = left;
        not_passed = fresh;
        score_eq = ap (λ (x : ExamResult). x.score) same;
        passed_eq = ground (arith, same);
        attempts_eq = ap (λ (x : ExamResult). x.attempts) same;
        records_eq =
            t_records
            ∙ m_records
            ∙ ap
                (λ (y : ExamResult).
                  update_many (learning_record_is r.id) (graded now y.score y.passed r)
                    s.learning_records)
                (sym same);
        projects_eq =
            t_projects
            ∙ ap
                (λ ps.
                  if all_done p (check_and_generate_archive now k m).learning_records
                  then update_many (project_is p.id) (completed_at_once now) ps
                  else ps)
                m_projects;
        next_eq = t_next ∙ m_next;
      }

  record_exam_ok :
      (now k : ℕ) (answers : Answers) (u : ℕ) (p : TrainingProject) (r : LearningRecord) (s : Db)
      → (result : ExamResult) × ((record_exam to_lower now k answers u p r s).0 ≡ ok result)
  unfolding record_exam
  record_exam_ok now k answers u p r s = (_, refl)

  pub submit_exam-Taken :
      (now k : ℕ) (answers : Answers) (u : ℕ) (s : Db) (result : ExamResult)
      → (submit_exam to_lower now k answers u s).0 ≡ ok result
      → Taken to_lower now k answers u s (submit_exam to_lower now k answers u s).1 result
  unfolding submit_exam
  submit_exam-Taken now k answers u s result h =
      let a : String = "只有学员可以提交考试" in
      let b : String = "您已通过考试，无需重新提交" in
      elim (Result-cases (check_exam a b k u s).0) [
        | inl ((p, r), e) ↦
            let (found, trainee, row, left, fresh) = check_exam_run a b k u s p r e in
            let same : submit_exam to_lower now k answers u s
                ≡ record_exam to_lower now k answers u p r s =
              ground (arith, check_exam-state a b k u s) in
            subst (λ t. Taken to_lower now k answers u s t.1 result) (sym same)
              (record_exam-Taken now k answers u p r s result found trainee row left fresh
                (ap (λ t. t.0) (sym same) ∙ h))
        | inr (x, e) ↦ absurd (ground arith)
      ]

  -- An exam that is refused changes nothing.
  pub submit_exam_refused :
      (now k : ℕ) (answers : Answers) (u : ℕ) (s : Db) (x : Error)
      → (submit_exam to_lower now k answers u s).0 ≡ err x
      → (submit_exam to_lower now k answers u s).1 ≡ s
  unfolding submit_exam
  submit_exam_refused now k answers u s x h =
      let a : String = "只有学员可以提交考试" in
      let b : String = "您已通过考试，无需重新提交" in
      elim (Result-cases (check_exam a b k u s).0) [
        | inl ((p, r), e) ↦
            absurd (ground (arith, record_exam_ok now k answers u p r (check_exam a b k u s).1))
        | inr (y, e) ↦ ground (arith, check_exam-state a b k u s)
      ]
