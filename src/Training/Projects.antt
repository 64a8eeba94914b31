-- ===== src/Training/Projects.antt =====
-- Training projects and their trainees: server/src/modules/training/training.service.ts. `now` is
-- `new Date()`.
use noidear.Base.{
  ℕ, ◌+◌, String, Bool, true, false, not, ◌&&◌, ◌||◌, Option, none, some, List, [], ◌∷◌, ◌++◌, ◌==◌,
  is_some, any, find_many, get_or, length, ltb, dedup, map, if◌then◌else◌,
}
use noidear.Base.Action.{
  Action, ok, bad_request, forbidden, pure, gets, throw_if, modify, ◌>>=◌, ◌>>◌,
}
use noidear.Access.{OwnershipContext, RoleCode}
use noidear.Training.{
  Db, TrainingProject, ProjectStatus, planned, ongoing, completed, cancelled, LearningRecord,
  get_plan_by_id, get_project_by_id, update_project, create_learning_records_for_trainees,
  create_todos, new_todo, training_organize, training_attend, todo_of, delete_todos, in_project,
  record_of, includes, project_is,
}

pub record CreateProjectDto : Type 0 where
  pub plan_id : ℕ
  pub title : String
  pub trainer_id : ℕ
  pub trainees : List ℕ
  pub scheduled_date : Option ℕ
  pub document_ids : List ℕ
  pub passing_score : Option ℕ
  pub max_attempts : Option ℕ

-- `value || d` on a number
abbrev pub or_else : Option ℕ → ℕ → ℕ
or_else none d = d
or_else (some n) d = if n == 0 then d else n

abbrev pub is_empty {ℓ} : {A : Type ℓ} → List A → Bool
is_empty [] = true
is_empty (_ ∷ _) = false

-- Only published documents may be referred to, each once.
unfoldable pub validate_documents : List ℕ → Action Db (Unit {0})
validate_documents ids = do
  documents ← gets (λ s. find_many (λ d. includes d.id ids) s.documents)
  throw_if (not (length documents == length ids)) (bad_request "部分培训资料不存在")
  throw_if (any (λ d. not d.is_published) documents) (bad_request "只能引用已发布的文档作为培训资料")

abbrev pub new_project : CreateProjectDto → ℕ → TrainingProject
new_project dto id = record {
  id = id;
  plan_id = dto.plan_id;
  title = dto.title;
  trainer_id = dto.trainer_id;
  trainees = dto.trainees;
  scheduled_date = dto.scheduled_date;
  document_ids = dto.document_ids;
  passing_score = or_else dto.passing_score 60;
  max_attempts = or_else dto.max_attempts 3;
  status = planned;
  completed_at = none;
}

abbrev pub add_project : (ℕ → TrainingProject) → Action Db TrainingProject
add_project fresh s = (
  ok (fresh s.next_id),
  record s { projects = s.projects ++ fresh s.next_id ∷ []; next_id = s.next_id + 1 },
)

abbrev pub create_todo_tasks_for_project : TrainingProject → Action Db (Unit {0})
create_todo_tasks_for_project project = create_todos (
    new_todo training_organize project project.trainer_id
    ∷ map (new_todo training_attend project) project.trainees)

-- No transaction: what is written before a statement fails stays.
unfoldable pub create_project : CreateProjectDto → Action Db TrainingProject
create_project dto = do
  get_plan_by_id dto.plan_id
  if is_empty dto.document_ids then pure tt else validate_documents dto.document_ids
  project ← add_project (new_project dto)
  create_learning_records_for_trainees project.id dto.trainees
  create_todo_tasks_for_project project
  pure project

abbrev is_user : RoleCode → Bool
is_user RoleCode.user = true
is_user _ = false

unfoldable pub create_project_for_ownership :
    CreateProjectDto → OwnershipContext → Action Db TrainingProject
create_project_for_ownership dto ownership = do
  throw_if (is_user ownership.role_code) (forbidden "仅管理员和负责人可管理培训项目")
  create_project dto

pub record UpdateProjectDto : Type 0 where
  pub title : Option String
  pub trainees : Option (List ℕ)
  pub scheduled_date : Option ℕ
  pub document_ids : Option (List ℕ)
  pub passing_score : Option ℕ
  pub max_attempts : Option ℕ

-- `Object.keys(dto).some((key) => key !== 'trainees')`
abbrev pub has_other_keys : UpdateProjectDto → Bool
has_other_keys dto =
    is_some dto.title
    || is_some dto.scheduled_date
    || is_some dto.document_ids
    || is_some dto.passing_score
    || is_some dto.max_attempts

abbrev pub is_over : ProjectStatus → Bool
is_over completed = true
is_over cancelled = true
is_over _ = false

abbrev pub is_ongoing : ProjectStatus → Bool
is_ongoing ongoing = true
is_ongoing _ = false

abbrev pub is_planned : ProjectStatus → Bool
is_planned planned = true
is_planned _ = false

abbrev pub changed : UpdateProjectDto → TrainingProject → TrainingProject
changed dto p = record p {
  title = get_or dto.title p.title;
  trainees = get_or dto.trainees p.trainees;
  scheduled_date = elim dto.scheduled_date [ none ↦ p.scheduled_date | some d ↦ some d ];
  document_ids = get_or dto.document_ids p.document_ids;
  passing_score = get_or dto.passing_score p.passing_score;
  max_attempts = get_or dto.max_attempts p.max_attempts;
}

-- A record of the project whose user is no trainee any more.
abbrev pub is_stale : ℕ → List ℕ → LearningRecord → Bool
is_stale project_id trainees r = in_project project_id r && not (includes r.user_id trainees)

-- `syncLearningRecords`; the stale rows are deleted by their primary keys.
unfoldable pub sync_learning_records : ℕ → List ℕ → Action Db (Unit {0})
sync_learning_records project_id new_trainees = do
  modify (λ s. record s {
    learning_records = find_many (λ r. not (is_stale project_id new_trainees r)) s.learning_records;
  })
  create_learning_records_for_trainees project_id new_trainees

abbrev pub sync_if_given : ℕ → Option (List ℕ) → Action Db (Unit {0})
sync_if_given id none = pure tt
sync_if_given id (some trainees) = sync_learning_records id trainees

abbrev pub check_documents : Option (List ℕ) → Action Db (Unit {0})
check_documents none = pure tt
check_documents (some ids) = if is_empty ids then pure tt else validate_documents ids

-- `updateProject`
unfoldable pub change_project : ℕ → UpdateProjectDto → Action Db (Unit {0})
change_project id dto = do
  project ← get_project_by_id id
  throw_if (is_over project.status) (bad_request "已完成或已取消的培训项目无法修改")
  throw_if (is_ongoing project.status && has_other_keys dto) (bad_request "进行中的培训项目只能修改学员名单")
  check_documents dto.document_ids
  modify (update_project id (changed dto))
  sync_if_given id dto.trainees

unfoldable pub delete_project : ℕ → Action Db (Unit {0})
delete_project id = do
  project ← get_project_by_id id
  throw_if (not (is_planned project.status)) (bad_request "只有计划中的培训项目可以删除，其他状态请使用取消功能")
  modify (λ s. record s {
    todos =
        find_many (λ t. not (todo_of training_organize id t || todo_of training_attend id t))
          s.todos;
    learning_records = find_many (λ r. not (in_project id r)) s.learning_records;
    projects = find_many (λ p. not (project_is id p)) s.projects;
  })

abbrev pub create_todo_tasks_for_new_trainees : TrainingProject → List ℕ → Action Db (Unit {0})
create_todo_tasks_for_new_trainees project user_ids =
    create_todos (map (new_todo training_attend project) user_ids)

unfoldable pub add_trainees : ℕ → List ℕ → Action Db (Unit {0})
add_trainees id user_ids = do
  project ← get_project_by_id id
  let new_trainees = dedup [] (project.trainees ++ user_ids)
  throw_if (ltb 100 (length new_trainees)) (bad_request "学员数量不能超过100人")
  modify (update_project id (λ p. record p { trainees = new_trainees }))
  create_learning_records_for_trainees id user_ids
  create_todo_tasks_for_new_trainees project user_ids

unfoldable pub remove_trainee : ℕ → ℕ → Action Db (Unit {0})
remove_trainee id user_id = do
  project ← get_project_by_id id
  throw_if (not (includes user_id project.trainees)) (bad_request "该用户不在学员列表中")
  modify (
      update_project id
        (λ p. record p { trainees = find_many (λ t. not (t == user_id)) project.trainees }))
  modify (λ s. record s {
    learning_records = find_many (λ r. not (record_of id user_id r)) s.learning_records;
  })
  modify (delete_todos (λ t. todo_of training_attend id t && t.user_id == user_id))

-- The table of `validateProjectStatusTransition`
abbrev pub may_become : ProjectStatus → ProjectStatus → Bool
may_become planned ongoing = true
may_become planned cancelled = true
may_become ongoing completed = true
may_become ongoing cancelled = true
may_become _ _ = false

abbrev pub finished_at : ProjectStatus → ℕ → Option ℕ → Option ℕ
finished_at completed now old = some now
finished_at _ now old = old

unfoldable pub update_project_status : ℕ → ℕ → ProjectStatus → Action Db (Unit {0})
update_project_status now id status = do
  project ← get_project_by_id id
  throw_if (not (may_become project.status status)) (bad_request "无法转换到该状态")
  modify (
      update_project id
        (λ p. record p { status = status; completed_at = finished_at status now p.completed_at }))
