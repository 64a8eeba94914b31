-- ===== src/Training/Exam/Attempts.antt =====
-- How often a trainee can take an exam.
use noidear.Base.{
  ℕ, ◌+◌, String, Bool, true, false, ◌&&◌, some, List, [], ◌∷◌, ◌==◌, find_first, count, ◌≡◌, refl,
  arith, update_many, inl, inr, Bool-cases, ap, sym, ◌∙◌, ◌≤◌, ◌<◌, subst, if◌then◌else◌,
  find_first-update_many, find_first-holds, found_only, find_first-count, if-false,
  count-update_many, if-true, ==_refl,
}
use noidear.Base.Action.{Result, ok, err, Result-cases}
use noidear.Training.{Db, TrainingProject, LearningRecord, Answers, record_of, project_is}
use noidear.Training.Exam.{submit_exam, graded, learning_record_is, ExamResult}
use noidear.Training.Exam.Taken.{Taken, submit_exam-Taken, submit_exam_refused, completed_at_once}

-- A trainee's place in a project: the project with its number of attempts, and his record.
pub record Place (k u max : ℕ) (s : Db) : Type 0 where
  pub project : TrainingProject
  pub row : LearningRecord
  pub project_found : find_first (project_is k) s.projects ≡ some project
  pub row_found : find_first (record_of k u) s.learning_records ≡ some row
  pub max_eq : project.max_attempts ≡ max
  pub row_key : (j : ℕ) → count (learning_record_is j) s.learning_records ≤ 1

-- One exam of one trainee
pub record Submission : Type 0 where
  pub now : ℕ
  pub project_id : ℕ
  pub answers : Answers
  pub user_id : ℕ

abbrev pub returned : {A : Type 0} → Result A → Bool
returned (ok _) = true
returned (err _) = false

project_step :
    (done : Bool) (now k j : ℕ) (ps qs : List TrainingProject) (p : TrainingProject)
    → find_first (project_is k) ps ≡ some p
    → qs ≡ (if done then update_many (project_is j) (completed_at_once now) ps else ps)
    → (q : TrainingProject) × (find_first (project_is k) qs ≡ some q)
      × (q.max_attempts ≡ p.max_attempts)
project_step true now k j ps qs p found eq = (
  if p.id == j then completed_at_once now p else p,
  ap (find_first (project_is k)) eq
      ∙ find_first-update_many (project_is k) (project_is j) (completed_at_once now) ps p
          (λ x. refl) found,
  ground arith,
)
project_step false now k j ps qs p found eq = (p, ap (find_first (project_is k)) eq ∙ found, refl)

-- Two records with one id, of which one is of another place than the other, cannot be.
other_row :
    (k u k' u' : ℕ) (rs : List LearningRecord) (r r' : LearningRecord)
    → find_first (record_of k u) rs ≡ some r
    → find_first (record_of k' u') rs ≡ some r'
    → count (learning_record_is r'.id) rs ≤ 1
    → (k' == k && u' == u) ≡ false
    → (r.id == r'.id) ≡ false
other_row k u k' u' rs r r' found found' once differ = elim (Bool-cases (r.id == r'.id)) [
  | inl e ↦
      let has : LearningRecord → Bool = λ x. record_of k' u' x && x.id == r'.id in
      let mine = find_first-holds (record_of k u) rs r found in
      let his = find_first-holds (record_of k' u') rs r' found' in
      let zero =
        found_only (record_of k u) (learning_record_is r'.id) has rs r found e once
          (λ x hx. ground arith) (ground (arith, mine)) in
      let one = find_first-count (record_of k' u') has rs r' found' (ground (arith, his)) in
      absurd (omega (arith, zero, one))
  | inr e ↦ e
]

module _ (to_lower : String → String) where
  -- The exams of a list, one after the other, and how many of them a trainee took in a project.
  pub run_exams : ℕ → ℕ → List Submission → Db → ℕ × Db
  run_exams k u [] s = (0, s)
  run_exams k u (x ∷ xs) s =
      let r = submit_exam to_lower x.now x.project_id x.answers x.user_id s in
      let rest = run_exams k u xs r.1 in
      (if returned r.0 && (x.project_id == k && x.user_id == u) then rest.0 + 1 else rest.0, rest.1)

  row_after :
      (now k u k' u' max : ℕ) (answers : Answers) (s t : Db) (result : ExamResult)
      → Taken to_lower now k' answers u' s t result
      → (place : Place k u max s)
      → find_first (record_of k u) t.learning_records
        ≡ some (
            if k' == k && u' == u
            then graded now result.score result.passed place.row place.row
            else place.row)
  row_after now k u k' u' max answers s t result taken place =
      let mark = graded now result.score result.passed taken.row in
      let found =
        ap (find_first (record_of k u)) taken.records_eq
        ∙ find_first-update_many (record_of k u) (learning_record_is taken.row.id) mark
            s.learning_records place.row (λ x. refl) place.row_found in
      elim (Bool-cases (k' == k && u' == u)) [
        | inl e ↦
            let k_eq : k' ≡ k = ground arith in
            let u_eq : u' ≡ u = ground arith in
            let his =
              subst (λ j. find_first (record_of j u') s.learning_records ≡ some taken.row) k_eq
                taken.row_found in
            let same : some taken.row ≡ some place.row =
              sym (
                subst (λ v. find_first (record_of k v) s.learning_records ≡ some taken.row) u_eq
                  his)
              ∙ place.row_found in
            let row_eq : taken.row ≡ place.row = cc same in
            found
            ∙ ap
                (λ (x : LearningRecord). some (
                  if learning_record_is x.id place.row
                  then graded now result.score result.passed x place.row
                  else place.row))
                row_eq
            ∙ ap some (
                if-true (learning_record_is place.row.id place.row) _ _ (==_refl _)
                ∙ sym (if-true _ _ _ e))
        | inr e ↦
            let differs =
              other_row k u k' u' s.learning_records place.row taken.row place.row_found
                taken.row_found (place.row_key taken.row.id) e in
            found ∙ ap some (if-false _ _ _ differs ∙ sym (if-false _ _ _ e))
      ]

  Place-after :
      (now k u k' u' max : ℕ) (answers : Answers) (s t : Db) (result : ExamResult)
      → Taken to_lower now k' answers u' s t result
      → (place : Place k u max s)
      → (place' : Place k u max t) × (place'.row ≡ (
          if k' == k && u' == u
          then graded now result.score result.passed place.row place.row
          else place.row))
  Place-after now k u k' u' max answers s t result taken place =
      let (q, q_found, q_max) =
        project_step _ now k taken.project.id s.projects t.projects place.project
          place.project_found taken.projects_eq in
      (
        record {
          project = q;
          row =
              if k' == k && u' == u
              then graded now result.score result.passed place.row place.row
              else place.row;
          project_found = q_found;
          row_found = row_after now k u k' u' max answers s t result taken place;
          max_eq = q_max ∙ place.max_eq;
          row_key = λ j.
              subst (λ rs. count (learning_record_is j) rs ≤ 1) (sym taken.records_eq)
                (rw
                  (count-update_many (learning_record_is j) (learning_record_is taken.row.id)
                    (graded now result.score result.passed taken.row) s.learning_records
                    (λ x. refl))
                  (place.row_key j));
        },
        refl,
      )

  -- An own exam had an attempt left, and had not been passed.
  own_exam :
      (now k u k' u' max : ℕ) (answers : Answers) (s t : Db) (result : ExamResult)
      → Taken to_lower now k' answers u' s t result
      → (place : Place k u max s) → (k' == k && u' == u) ≡ true
      → (place.row.attempts < max) × (place.row.passed ≡ false)
  own_exam now k u k' u' max answers s t result taken place e =
      let k_eq : k' ≡ k = ground arith in
      let u_eq : u' ≡ u = ground arith in
      let his =
        subst (λ j. find_first (record_of j u') s.learning_records ≡ some taken.row) k_eq
          taken.row_found in
      let row : some taken.row ≡ some place.row =
        sym (subst (λ v. find_first (record_of k v) s.learning_records ≡ some taken.row) u_eq his)
        ∙ place.row_found in
      let project : some taken.project ≡ some place.project =
        sym (
          subst (λ j. find_first (project_is j) s.projects ≡ some taken.project) k_eq
            taken.project_found)
        ∙ place.project_found in
      let row_eq : taken.row ≡ place.row = cc row in
      let project_eq : taken.project ≡ place.project = cc project in
      (
        omega (
          arith,
          ap (λ (x : LearningRecord). x.attempts) row_eq,
          ap (λ (x : TrainingProject). x.max_attempts) project_eq,
          taken.attempt_left,
          place.max_eq,
        ),
        ap (λ (x : LearningRecord). x.passed) (sym row_eq) ∙ taken.not_passed,
      )

  Place-same :
      (k u max : ℕ) (s t : Db)
      → t ≡ s
      → (place : Place k u max s) → (place' : Place k u max t) × (place'.row ≡ place.row)
  Place-same k u max s t eq place = (
    record {
      project = place.project;
      row = place.row;
      project_found =
          ap (λ (d : Db). find_first (project_is k) d.projects) eq ∙ place.project_found;
      row_found =
          ap (λ (d : Db). find_first (record_of k u) d.learning_records) eq ∙ place.row_found;
      max_eq = place.max_eq;
      row_key = λ j.
          subst (λ (d : Db). count (learning_record_is j) d.learning_records ≤ 1) (sym eq)
            (place.row_key j);
    },
    refl,
  )

  -- What one exam of anybody does to a trainee's place, whether it returns or not.
  exam_step :
      (k u max : ℕ) (x : Submission) (s : Db)
      → (place : Place k u max s)
      → let r = submit_exam to_lower x.now x.project_id x.answers x.user_id s in
        let own = returned r.0 && (x.project_id == k && x.user_id == u) in
        (place' : Place k u max r.1) × (place'.row.attempts
          ≡ (if own then place.row.attempts + 1 else place.row.attempts))
        × (own ≡ true → (place.row.attempts < max) × (place.row.passed ≡ false))
        × (own ≡ false → place'.row ≡ place.row)
  exam_step k u max x s place =
      elim (Result-cases (submit_exam to_lower x.now x.project_id x.answers x.user_id s).0) [
        | inl (result, e) ↦
            let taken =
              submit_exam-Taken to_lower x.now x.project_id x.answers x.user_id s result e in
            let (place', row_eq) =
              Place-after x.now k u x.project_id x.user_id max x.answers s _ result taken place in
            (
              place',
              ground (arith, row_eq, e),
              λ o.
                  own_exam x.now k u x.project_id x.user_id max x.answers s _ result taken place
                    (ground (arith, e, o)),
              λ o. ground (arith, row_eq, e, o),
            )
        | inr (y, e) ↦
            let same = submit_exam_refused to_lower x.now x.project_id x.answers x.user_id s y e in
            let (place', row_eq) = Place-same k u max s _ same place in
            (place', ground (arith, row_eq, e), λ o. absurd (ground (arith, e, o)), λ o. row_eq)
      ]

  run-Place :
      (k u max : ℕ) (xs : List Submission) (s : Db)
      → (place : Place k u max s)
      → let run = run_exams k u xs s in
        (place' : Place k u max run.1) × (place'.row.attempts ≡ place.row.attempts + run.0)
        × (place.row.attempts ≤ max → place'.row.attempts ≤ max)
        × (place.row.passed ≡ true → run.0 ≡ 0)
  unfolding run_exams
  run-Place k u max [] s place = (place, omega arith, λ h. h, λ h. refl)
  run-Place k u max (x ∷ xs) s place =
      let (next, next_eq, own, other) = exam_step k u max x s place in
      let (last, last_eq, last_le, none_left) = run-Place k u max xs _ next in
      elim (Bool-cases (
        returned (submit_exam to_lower x.now x.project_id x.answers x.user_id s).0
        && (x.project_id == k && x.user_id == u))) [
          | inl e ↦ (
            last,
            ground (arith, e, next_eq, last_eq),
            λ h. last_le (ground (arith, e, next_eq, own e)),
            λ h. absurd (ground (arith, h, own e)),
          )
          | inr e ↦ (
            last,
            ground (arith, e, next_eq, last_eq),
            λ h. last_le (ground (arith, e, next_eq)),
            λ h. ground (arith, e, none_left (ap (λ (r : LearningRecord). r.passed) (other e) ∙ h)),
          )
        ]

  -- If a project and a trainee's record in it are found, the ids of the records are unique, and he
  -- has not used more attempts than the project allows, then after any list of submissions, by
  -- whomever, to whatever projects, with whatever answers, whether they return or throw: his record
  -- has as many attempts more as his own submissions to the project returned; they are still no
  -- more than the project allows; and if he had passed, none of them returned.
  pub run_exams-IsBounded :
      (k u : ℕ) (xs : List Submission) (p : TrainingProject) (r : LearningRecord) (s : Db)
      → find_first (project_is k) s.projects ≡ some p
      → find_first (record_of k u) s.learning_records ≡ some r
      → ((j : ℕ) → count (learning_record_is j) s.learning_records ≤ 1)
      → r.attempts ≤ p.max_attempts
      → let run = run_exams k u xs s in
        (r' : LearningRecord) × (find_first (record_of k u) run.1.learning_records ≡ some r')
        × (r'.attempts ≡ r.attempts + run.0)
        × (r'.attempts ≤ p.max_attempts)
        × (r.passed ≡ true → run.0 ≡ 0)
  run_exams-IsBounded k u xs p r s found row key le =
      let place : Place k u p.max_attempts s = record {
        project = p;
        row = r;
        project_found = found;
        row_found = row;
        max_eq = refl;
        row_key = key;
      } in
      let (last, last_eq, last_le, none_left) = run-Place k u p.max_attempts xs s place in
      (last.row, last.row_found, last_eq, last_le le, none_left)
