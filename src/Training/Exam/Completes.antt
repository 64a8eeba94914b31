-- ===== src/Training/Exam/Completes.antt =====
-- An exam and the status of its project.
use noidear.Base.{
  ℕ, String, Bool, true, false, not, ◌&&◌, some, List, [], ◌∷◌, ◌==◌, any, find_first, count, ◌≡◌,
  refl, arith, update_many, inl, inr, Bool-cases, ap, sym, ◌∙◌, leb, ◌≤◌, subst, if◌then◌else◌,
  count-update_many, ==→eq, find_first-holds, if-true, if-false, find_first-update_many, ==_refl,
}
use noidear.Base.Action.{ok}
use noidear.Training.{
  Db, TrainingProject, LearningRecord, Answers, includes, record_of, in_project, project_is,
  completed,
}
use noidear.Training.Members.{any-update_many, fresh_mono}
use noidear.Training.Enrolled.{IsEnrolled, enroll_same, records_changed}
use noidear.Training.Exam.{submit_exam, graded, learning_record_is, all_done, is_done, ExamResult}
use noidear.Training.Exam.Taken.{Taken, submit_exam-Taken, completed_at_once}

Taken-IsEnrolled :
    (to_lower : String → String) (now k : ℕ) (answers : Answers) (u : ℕ) (s t : Db)
    (result : ExamResult)
    → Taken to_lower now k answers u s t result
    → IsEnrolled s
    → IsEnrolled t
Taken-IsEnrolled to_lower now k answers u s t result taken h =
    let mark = graded now result.score result.passed taken.row in
    let members : (j v : ℕ)
        → any (record_of j v) t.learning_records ≡ any (record_of j v) s.learning_records =
      λ j v.
        ap (any (record_of j v)) taken.records_eq
        ∙ any-update_many (record_of j v) (learning_record_is taken.row.id) mark s.learning_records
            (λ x. refl) in
    let fresh : count (λ r. leb t.next_id r.project_id) t.learning_records ≡ 0 =
      ap (count (λ (r : LearningRecord). leb t.next_id r.project_id)) taken.records_eq
      ∙ count-update_many (λ r. leb t.next_id r.project_id) (learning_record_is taken.row.id) mark
          s.learning_records (λ x. refl)
      ∙ fresh_mono (λ (r : LearningRecord). r.project_id) s.next_id t.next_id s.learning_records
          (omega (arith, taken.next_eq)) h.fresh_records in
    let le : s.next_id ≤ t.next_id = omega (arith, taken.next_eq) in
    let id_eq : taken.project.id ≡ k =
      ==→eq _ _ (find_first-holds (project_is k) s.projects taken.project taken.project_found) in
    elim (Bool-cases (all_done taken.project t.learning_records)) [
      | inl e ↦
          enroll_same taken.project.id taken.project (completed_at_once now) s t h
            (subst (λ j. find_first (project_is j) s.projects ≡ some taken.project) (sym id_eq)
              taken.project_found)
            (λ x. (refl, refl)) (taken.projects_eq ∙ if-true _ _ _ e) le members fresh
      | inr e ↦ records_changed s t h (taken.projects_eq ∙ if-false _ _ _ e) le members fresh
    ]

pub submit_exam-IsEnrolled :
    (to_lower : String → String) (now k : ℕ) (answers : Answers) (u : ℕ) (s : Db)
    (result : ExamResult)
    → IsEnrolled s
    → (submit_exam to_lower now k answers u s).0 ≡ ok result
    → IsEnrolled (submit_exam to_lower now k answers u s).1
submit_exam-IsEnrolled to_lower now k answers u s result h e =
    Taken-IsEnrolled to_lower now k answers u s _ result
      (submit_exam-Taken to_lower now k answers u s result e) h

-- A record of the project that is not done belongs to somebody.
someone :
    (k : ℕ) (open_row : LearningRecord → Bool) (rs : List LearningRecord)
    → any (λ r. in_project k r && open_row r) rs ≡ true
    → (v : ℕ) × (any (λ r. record_of k v r && open_row r) rs ≡ true)
      × (any (record_of k v) rs ≡ true)
unfolding any
someone k open_row [] h = absurd (cc h)
someone k open_row (r ∷ rs) h = elim (Bool-cases (in_project k r && open_row r)) [
  | inl e ↦ (r.user_id, ground (arith, e), ground (arith, e))
  | inr e ↦
      let rest : any (λ r. in_project k r && open_row r) rs ≡ true = ground arith in
      let (v, row, member) = someone k open_row rs rest in
      (v, ground (arith, row), ground (arith, member))
]

-- If one trainee is not done, the project is not.
one_open :
    (k v : ℕ) (open_row : LearningRecord → Bool) (rs : List LearningRecord)
    → any (λ r. record_of k v r && open_row r) rs ≡ true
    → any (λ r. in_project k r && open_row r) rs ≡ true
unfolding any
one_open k v open_row [] h = h
one_open k v open_row (r ∷ rs) h = ground (arith, one_open k v open_row rs)

any-includes :
    (v : ℕ) (f : ℕ → Bool) (xs : List ℕ) → includes v xs ≡ true → f v ≡ true → any f xs ≡ true
unfolding any
any-includes v f [] h e = h
any-includes v f (x ∷ xs) h e = elim (Bool-cases (x == v)) [
  | inl same ↦ if-true (f x) _ _ (subst (λ y. f y ≡ true) (sym (==→eq x v same)) e)
  | inr other ↦ ground (arith, any-includes v f xs, other)
]

any-nowhere : (f : ℕ → Bool) (xs : List ℕ) → ((x : ℕ) → f x ≡ false) → any f xs ≡ false
unfolding any
any-nowhere f [] h = refl
any-nowhere f (x ∷ xs) h = ground (arith, h x, any-nowhere f xs h)

-- Has every trainee of the project passed, or no attempt left?
pub everyone_done : ℕ → TrainingProject → List LearningRecord → Bool
everyone_done k p rs =
    not (any (λ v. any (λ r. record_of k v r && not (is_done p r)) rs) p.trainees)

-- What the code asks of the records is what the rule asks of the trainees.
all_done-eq :
    (k : ℕ) (p : TrainingProject) (rs : List LearningRecord)
    → p.id ≡ k
    → ((v : ℕ) → any (record_of k v) rs ≡ includes v p.trainees)
    → all_done p rs ≡ everyone_done k p rs
unfolding everyone_done
all_done-eq k p rs id_eq enrolled =
    let is_open : LearningRecord → Bool = λ r. not (is_done p r) in
    let of_trainee : ℕ → Bool = λ v. any (λ r. record_of k v r && is_open r) rs in
    ap (λ j. not (any (λ r. in_project j r && is_open r) rs)) id_eq
    ∙ elim (Bool-cases (any (λ r. in_project k r && is_open r) rs)) [
      | inl e ↦
          let (v, row, member) = someone k is_open rs e in
          ap not (e ∙ sym (any-includes v of_trainee p.trainees (sym (enrolled v) ∙ member) row))
      | inr e ↦ ap not (
          e
          ∙ sym (any-nowhere of_trainee p.trainees (λ v. ground (arith, one_open k v is_open rs))))
    ]

project_after :
    (now k : ℕ) (done : Bool) (ps qs : List TrainingProject) (p : TrainingProject)
    → find_first (project_is k) ps ≡ some p
    → qs ≡ (if done then update_many (project_is p.id) (completed_at_once now) ps else ps)
    → find_first (project_is k) qs ≡ some (if done then completed_at_once now p else p)
project_after now k true ps qs p found eq =
    ap (find_first (project_is k)) eq
    ∙ find_first-update_many (project_is k) (project_is p.id) (completed_at_once now) ps p
        (λ x. refl) found
    ∙ ap some (if-true _ _ _ (==_refl p.id))
project_after now k false ps qs p found eq = ap (find_first (project_is k)) eq ∙ found

same_trainees :
    (now : ℕ) (done : Bool) (p : TrainingProject)
    → (if done then completed_at_once now p else p).trainees ≡ p.trainees
same_trainees now true p = refl
same_trainees now false p = refl

-- If users have learning records exactly in the projects whose trainees they are, the project is
-- found, and an exam in it returns, then the project is completed, whatever its status was, when
-- every trainee has passed or has no attempt left; otherwise its row is as it was.
pub submit_exam-completes :
    (to_lower : String → String) (now k : ℕ) (answers : Answers) (u : ℕ) (s : Db)
    (p : TrainingProject) (result : ExamResult)
    → IsEnrolled s
    → find_first (project_is k) s.projects ≡ some p
    → (submit_exam to_lower now k answers u s).0 ≡ ok result
    → let t = (submit_exam to_lower now k answers u s).1 in
      find_first (project_is k) t.projects
      ≡ some (
          if everyone_done k p t.learning_records
          then record p { status = completed; completed_at = some now }
          else p)
submit_exam-completes to_lower now k answers u s p result h found e =
    let taken = submit_exam-Taken to_lower now k answers u s result e in
    let t = (submit_exam to_lower now k answers u s).1 in
    let kept = submit_exam-IsEnrolled to_lower now k answers u s result h e in
    let project : some taken.project ≡ some p = sym taken.project_found ∙ found in
    let p_eq : taken.project ≡ p = cc project in
    let moved =
      subst
        (λ (x : TrainingProject). t.projects ≡ (
          if all_done x t.learning_records
          then update_many (project_is x.id) (completed_at_once now) s.projects
          else s.projects))
        p_eq taken.projects_eq in
    let after =
      project_after now k (all_done p t.learning_records) s.projects t.projects p found moved in
    let id_eq = ==→eq _ _ (find_first-holds (project_is k) s.projects p found) in
    let members = λ (v : ℕ).
      kept.enrolled k v _ after
      ∙ ap (includes v) (same_trainees now (all_done p t.learning_records) p) in
    after
    ∙ ap (λ done. some (if done then completed_at_once now p else p))
        (all_done-eq k p t.learning_records id_eq members)
