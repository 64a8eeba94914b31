-- ===== src/Training/Lifecycle.antt =====
-- The training database under the operations that return, one after the other.
use noidear.Base.{ℕ, String, List, ◌≡◌, subst, ap}
use noidear.Base.Action.{ok}
use noidear.Training.{Db, Answers, TrainingProject, ProjectStatus}
use noidear.Training.Projects.{
  create_project, change_project, delete_project, add_trainees, remove_trainee,
  update_project_status, CreateProjectDto, UpdateProjectDto,
}
use noidear.Training.Exam.{submit_exam, ExamResult}
use noidear.Training.Exam.Completes.{submit_exam-IsEnrolled}
use noidear.Training.Enrolled.{IsEnrolled}
use noidear.Training.Enrolled.Trainees.{
  add_trainees-IsEnrolled, remove_trainee-IsEnrolled, update_project_status-IsEnrolled,
}
use noidear.Training.Enrolled.Changes.{
  create_project-IsEnrolled, change_project-IsEnrolled, delete_project-IsEnrolled,
}

pub data Step (to_lower : String → String) : Db → Db → Type 0 where
  creates :
      (dto : CreateProjectDto) (s t : Db) (p : TrainingProject)
      → create_project dto s ≡ (ok p, t)
      → Step to_lower s t
  changes :
      (id : ℕ) (dto : UpdateProjectDto) (s t : Db)
      → change_project id dto s ≡ (ok tt, t)
      → Step to_lower s t
  deletes : (id : ℕ) (s t : Db) → delete_project id s ≡ (ok tt, t) → Step to_lower s t
  adds :
      (id : ℕ) (users : List ℕ) (s t : Db)
      → add_trainees id users s ≡ (ok tt, t)
      → Step to_lower s t
  removes :
      (id user_id : ℕ) (s t : Db) → remove_trainee id user_id s ≡ (ok tt, t) → Step to_lower s t
  moves :
      (now id : ℕ) (status : ProjectStatus) (s t : Db)
      → update_project_status now id status s ≡ (ok tt, t)
      → Step to_lower s t
  submits :
      (now id : ℕ) (answers : Answers) (user_id : ℕ) (s t : Db) (result : ExamResult)
      → submit_exam to_lower now id answers user_id s ≡ (ok result, t)
      → Step to_lower s t

pub data Steps (to_lower : String → String) (s : Db) : Db → Type 0 where
  here : Steps to_lower s s
  next : (t u : Db) → Steps to_lower s t → Step to_lower t u → Steps to_lower s u

module _ (to_lower : String → String) where
  Step-IsEnrolled : (s t : Db) → Step to_lower s t → IsEnrolled s → IsEnrolled t
  Step-IsEnrolled s t (creates dto _ _ p e) h =
      subst IsEnrolled (ap (λ r. r.1) e) (create_project-IsEnrolled dto s p h (ap (λ r. r.0) e))
  Step-IsEnrolled s t (changes id dto _ _ e) h =
      subst IsEnrolled (ap (λ r. r.1) e) (change_project-IsEnrolled id dto s h (ap (λ r. r.0) e))
  Step-IsEnrolled s t (deletes id _ _ e) h =
      subst IsEnrolled (ap (λ r. r.1) e) (delete_project-IsEnrolled id s h (ap (λ r. r.0) e))
  Step-IsEnrolled s t (adds id us _ _ e) h =
      subst IsEnrolled (ap (λ r. r.1) e) (add_trainees-IsEnrolled id us s h (ap (λ r. r.0) e))
  Step-IsEnrolled s t (removes id u _ _ e) h =
      subst IsEnrolled (ap (λ r. r.1) e) (remove_trainee-IsEnrolled id u s h (ap (λ r. r.0) e))
  Step-IsEnrolled s t (moves now id status _ _ e) h =
      subst IsEnrolled (ap (λ r. r.1) e)
        (update_project_status-IsEnrolled now id status s h (ap (λ r. r.0) e))
  Step-IsEnrolled s t (submits now id answers u _ _ result e) h =
      subst IsEnrolled (ap (λ r. r.1) e)
        (submit_exam-IsEnrolled to_lower now id answers u s result h (ap (λ r. r.0) e))

  -- If users have learning records exactly in the projects whose trainees they are (and keys are
  -- unique and new ids fresh), this is still so after any sequence of calls that return: projects
  -- created, changed, deleted or moved to another status, trainees added or removed, exams
  -- submitted.
  pub Steps-IsEnrolled : (s t : Db) → IsEnrolled s → Steps to_lower s t → IsEnrolled t
  Steps-IsEnrolled s _ h here = h
  Steps-IsEnrolled s _ h (next t u before step) =
      Step-IsEnrolled t u step (Steps-IsEnrolled s t h before)
