-- ===== src/Training.antt =====
-- The training tables of server/src/prisma/schema.prisma, and the statements on them that
-- server/src/modules/training/training.service.ts and exam.service.ts share. Descriptions,
-- departments, quarters and the texts of to-dos are left out: no code reads them.
unfoldable pub use noidear.Base.{includes, has_repeat}
pub mod Plans
pub mod Projects
pub mod Exam
pub mod Members
pub mod Enrolled
pub mod Lifecycle
mod Examples
use noidear.Base.{
  ℕ, ◌+◌, String, Bool, true, false, not, ◌&&◌, ◌||◌, Option, none, some, List, [], ◌∷◌, ◌++◌, ◌==◌,
  if◌then◌else◌, map, any, find_first, find_many, update_many, count, suc, length,
}
use noidear.Base.Action.{Action, ok, err, not_found, internal, pure, gets, or_throw, ◌>>=◌}

pub data PlanStatus : Type 0 where
  draft pending_approval approved rejected : PlanStatus

pub record TrainingPlan : Type 0 where
  pub id : ℕ
  pub year : ℕ
  pub title : String
  pub status : PlanStatus
  pub approval_instance_id : Option ℕ
  pub created_by : ℕ

pub data ProjectStatus : Type 0 where
  planned ongoing completed cancelled : ProjectStatus

pub record TrainingProject : Type 0 where
  pub id : ℕ
  pub plan_id : ℕ
  pub title : String
  pub trainer_id : ℕ
  pub trainees : List ℕ
  pub scheduled_date : Option ℕ
  pub document_ids : List ℕ
  pub passing_score : ℕ
  pub max_attempts : ℕ
  pub status : ProjectStatus
  pub completed_at : Option ℕ

pub record LearningRecord : Type 0 where
  pub id : ℕ
  pub project_id : ℕ
  pub user_id : ℕ
  pub exam_score : ℕ
  pub attempts : ℕ
  pub passed : Bool
  pub completed_at : Option ℕ

pub record TrainingQuestion : Type 0 where
  pub id : ℕ
  pub project_id : ℕ
  pub correct_answer : String
  pub points : ℕ

-- The answers of an exam: `Record<string, string>`
abbrev pub Answers : Type 0
Answers = List (ℕ × String)

pub record ExamRecord : Type 0 where
  pub id : ℕ
  pub learning_record_id : ℕ
  pub answers : Answers
  pub score : ℕ
  pub submitted_at : ℕ

pub data TodoType : Type 0 where
  training_organize training_attend approval other : TodoType

pub record TodoTask : Type 0 where
  pub user_id : ℕ
  pub kind : TodoType
  pub related_id : ℕ
  pub is_pending : Bool
  pub due_date : Option ℕ
  pub completed_at : Option ℕ

pub record Document : Type 0 where
  pub id : ℕ
  pub is_published : Bool

pub record Db : Type 0 where
  pub plans : List TrainingPlan
  pub projects : List TrainingProject
  pub learning_records : List LearningRecord
  pub questions : List TrainingQuestion
  pub exam_records : List ExamRecord
  pub todos : List TodoTask
  pub documents : List Document
  pub next_id : ℕ

abbrev pub plan_is : ℕ → TrainingPlan → Bool
plan_is k p = p.id == k

abbrev pub project_is : ℕ → TrainingProject → Bool
project_is k p = p.id == k

abbrev pub record_of : ℕ → ℕ → LearningRecord → Bool
record_of project_id user_id r = r.project_id == project_id && r.user_id == user_id

abbrev pub in_project : ℕ → LearningRecord → Bool
in_project project_id r = r.project_id == project_id

abbrev pub is_kind : TodoType → TodoType → Bool
is_kind training_organize training_organize = true
is_kind training_attend training_attend = true
is_kind approval approval = true
is_kind other other = true
is_kind _ _ = false

abbrev pub todo_of : TodoType → ℕ → TodoTask → Bool
todo_of kind related_id t = is_kind t.kind kind && t.related_id == related_id

unfoldable pub get_plan_by_id : ℕ → Action Db TrainingPlan
get_plan_by_id id = do
  found ← gets (λ s. find_first (plan_is id) s.plans)
  or_throw found (not_found "培训计划不存在")

unfoldable pub get_project_by_id : ℕ → Action Db TrainingProject
get_project_by_id id = do
  found ← gets (λ s. find_first (project_is id) s.projects)
  or_throw found (not_found "培训项目不存在")

-- `trainingProject.update({ where: { id }, data })`
abbrev pub update_project : ℕ → (TrainingProject → TrainingProject) → Db → Db
update_project id f s = record s { projects = update_many (project_is id) f s.projects }

abbrev pub update_plan : ℕ → (TrainingPlan → TrainingPlan) → Db → Db
update_plan id f s = record s { plans = update_many (plan_is id) f s.plans }

-- `learningRecord.createMany` for users of a project: the rows, from an id on
unfoldable pub new_records : ℕ → ℕ → List ℕ → List LearningRecord
new_records next project_id [] = []
new_records next project_id (user_id ∷ rest) =
    record {
      id = next;
      project_id = project_id;
      user_id = user_id;
      exam_score = 0;
      attempts = 0;
      passed = false;
      completed_at = none;
    }
    ∷ new_records (suc next) project_id rest

unfoldable pub missing_users : ℕ → List LearningRecord → List ℕ → List ℕ
missing_users project_id rs users = find_many (λ u. not (any (record_of project_id u) rs)) users

-- `createLearningRecordsForTrainees`; the unique index on project and user refuses all rows if a
-- user is named twice.
unfoldable pub create_learning_records_for_trainees : ℕ → List ℕ → Action Db (Unit {0})
create_learning_records_for_trainees project_id trainees s =
    let new_trainees = missing_users project_id s.learning_records trainees in
    if has_repeat new_trainees then (err (internal "P2002"), s) else (
      ok tt,
      record s {
        learning_records = s.learning_records ++ new_records s.next_id project_id new_trainees;
        next_id = s.next_id + length new_trainees;
      },
    )

abbrev pub new_todo : TodoType → TrainingProject → ℕ → TodoTask
new_todo kind project user_id = record {
  user_id = user_id;
  kind = kind;
  related_id = project.id;
  is_pending = true;
  due_date = project.scheduled_date;
  completed_at = none;
}

abbrev pub same_todo : TodoTask → TodoTask → Bool
same_todo t u = u.user_id == t.user_id && todo_of t.kind t.related_id u

-- `todoTask.createMany`, refused as a whole by the unique index on user, type and related id
unfoldable pub repeats_todo : List TodoTask → List TodoTask → Bool
repeats_todo old [] = false
repeats_todo old (t ∷ ts) = any (same_todo t) (old ++ ts) || repeats_todo old ts

unfoldable pub create_todos : List TodoTask → Action Db (Unit {0})
create_todos tasks s =
    if repeats_todo s.todos tasks
    then (err (internal "P2002"), s)
    else (ok tt, record s { todos = s.todos ++ tasks })

abbrev pub delete_todos : (TodoTask → Bool) → Db → Db
delete_todos p s = record s { todos = find_many (λ t. not (p t)) s.todos }
