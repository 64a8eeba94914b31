-- ===== src/Approval/Engine.antt =====
-- server/src/modules/unified-approval/approval-engine.service.ts. The foreign keys of a task and of
-- an instance hold in the database, so a row that they name and that is missing is an `internal`
-- error. `Env.now` stands for the times that the code reads from the clock.
pub mod Advance
pub mod Service
pub mod Decided
pub mod Decisions
pub mod Complete
pub mod Open
use noidear.Base.{
  ℕ, suc, String, Bool, true, false, not, ◌&&◌, ◌||◌, ◌==◌, Option, none, some, List, [], ◌∷◌, ◌++◌,
  find_first, update_many, count, str_eq, if◌then◌else◌,
}
use noidear.Base.Action.{
  Action, Error, Result, ok, err, not_found, bad_request, internal, pure, throw, throw_if, or_throw,
  gets, modify, for_each, ◌>>=◌, ◌>>◌,
}
use noidear.Approval.Types.{
  ApprovalStatus, ApprovalMode, single, countersign_any, ApprovalAssignment, ApprovalStep,
  StartApprovalInput,
}
use noidear.Approval.Db.{
  Db, Definition, Instance, Task, ActionRow, ActionType, decided, Metadata, transaction,
  roll_back_with, on_business, instance_is, task_is, task_of, is_pending,
}
use noidear.Approval.Metadata.{Decision, to_approve, to_reject, validate}
use noidear.Approval.Callbacks.{Registry, CallbackContext, invoke}
use noidear.Approval.Resolver.{ResolvedAssignment, resolve_assignment, assert_can_act}
use noidear.Approval.Todos.{
  create_task_todos, close_task_todos, cancel_instance_todos, notify_task_created, notify_requester,
}
use noidear.Approval.Steps.{
  latest_definition, first_step, next_step, step_is, direct_user_ids, new_instance, new_task,
  start_row,
}
use noidear.Approval.Cases.{
  Env, Case, context_of, callback_of, decide_task, decision_row, pending_of, pending_in,
  cancel_task, end_instance, enter_step, is_complete, is_any, add_task, add_instance, add_action,
  update_tasks, update_instance,
}

module _ {B : Type 0} (env : Env B) where
  unfoldable pub create_task :
      Instance
      → ApprovalStep
      → ApprovalAssignment
      → ResolvedAssignment
      → Option ℕ
      → Action (Db B) (Unit {0})
  create_task instance step assignment r user_id = do
    id ← gets (λ s. s.next_id)
    let task = new_task env.now instance step assignment r user_id id
    modify (add_task (new_task env.now instance step assignment r user_id))
    modify (create_task_todos task instance.title r.assignee_user_ids)
    modify (notify_task_created r.assignee_user_ids instance.title task.id)

  unfoldable pub create_assignment :
      Instance → ApprovalStep → ApprovalAssignment → Action (Db B) (Unit {0})
  create_assignment instance step assignment = do
    r ← resolve_assignment assignment
    for_each (create_task instance step assignment r) (direct_user_ids r)

  unfoldable pub create_tasks_for_step : Instance → ApprovalStep → Action (Db B) (Unit {0})
  create_tasks_for_step instance step = for_each (create_assignment instance step) step.assignments

  -- The body of `startApproval`, which a caller's transaction runs as it is.
  unfoldable pub start_in : StartApprovalInput → Action (Db B) ℕ
  start_in input = do
    found ← gets (λ s. latest_definition input s.definitions)
    definition ← or_throw found (not_found "审批定义不存在")
    step ← or_throw (first_step definition.steps) (bad_request "审批定义缺少步骤")
    id ← gets (λ s. s.next_id)
    let instance = new_instance definition input step id
    modify (add_instance (new_instance definition input step))
    create_tasks_for_step instance step
    modify (add_action (start_row instance input))
    pure id

  unfoldable pub start_approval : StartApprovalInput → Action (Db B) ℕ
  start_approval input = transaction (start_in input)

  unfoldable pub invoke_optional : Option String → CallbackContext → Action (Db B) (Unit {0})
  invoke_optional none context = pure tt
  invoke_optional (some key) context = on_business (invoke env.callbacks key context)

  unfoldable pub reject_instance : Case → Action (Db B) (Unit {0})
  reject_instance c = do
    modify (update_tasks (pending_of c.task.instance_id) cancel_task)
    modify (update_instance c.task.instance_id (end_instance env.now ApprovalStatus.rejected))
    modify (cancel_instance_todos env.now c.task.instance_id c.actor_id)
    invoke_optional (callback_of c.task.step_key c.steps) (context_of c)
    modify (notify_requester c.instance.created_by_id false c.instance.title)

  unfoldable pub approve_instance : Case → Action (Db B) (Unit {0})
  approve_instance c = do
    step ←
        or_throw (find_first (step_is c.task.step_key) c.steps)
          (internal "currentStep is undefined")
    on_business (invoke env.callbacks step.on_approved (context_of c))
    modify (update_instance c.task.instance_id (end_instance env.now ApprovalStatus.approved))
    modify (notify_requester c.instance.created_by_id true c.instance.title)

  unfoldable pub enter_or_approve : Case → Option ApprovalStep → Action (Db B) (Unit {0})
  enter_or_approve c none = approve_instance c
  enter_or_approve c (some step) = do
    modify (update_instance c.task.instance_id (enter_step step.step_key))
    create_tasks_for_step c.instance step

  unfoldable pub cancel_others : Case → Db B → Db B
  cancel_others c s =
      if is_any c.task.approval_mode
      then cancel_instance_todos env.now c.task.instance_id c.actor_id
          (update_tasks (pending_in c.task.instance_id c.task.step_key) cancel_task s)
      else s

  unfoldable pub advance : Bool → Case → Action (Db B) (Unit {0})
  advance false c = pure tt
  advance true c = do
    modify (cancel_others c)
    enter_or_approve c (next_step c.task.step_key c.steps)

  unfoldable pub advance_if_step_complete : Case → Action (Db B) (Unit {0})
  advance_if_step_complete c = do
    pending ← gets (λ s. count (pending_in c.task.instance_id c.task.step_key) s.tasks)
    advance (is_complete c.task.approval_mode pending) c

  unfoldable pub follow_up : Decision → Case → Action (Db B) (Unit {0})
  follow_up to_reject c = reject_instance c
  follow_up to_approve c = advance_if_step_complete c

  abbrev of_result : {X : Type 0} → Result X → Action (Db B) X
  of_result r s = (r, s)

  unfoldable pub record_decision : Decision → Case → Action (Db B) (Unit {0})
  record_decision decision c = do
    modify (update_tasks (task_is c.task.id) (decide_task env.now decision c))
    modify (add_action (decision_row decision c))
    modify (close_task_todos env.now c.task.id c.actor_id)

  -- `findUnique` with the instance and the definition of the task.
  unfoldable pub open_case : ℕ → ℕ → Decision → String → Metadata → Action (Db B) Case
  open_case task_id actor_id decision comment metadata = do
    found ← gets (λ s. find_first (task_is task_id) s.tasks)
    task ← or_throw found (not_found "审批任务不存在")
    throw_if (not (is_pending task.status)) (bad_request "审批任务已经处理")
    found_instance ← gets (λ s. find_first (instance_is task.instance_id) s.instances)
    instance ← or_throw found_instance (internal "missing instance")
    found_definition ←
        gets (λ s. find_first (λ (d : Definition). d.id == instance.definition_id) s.definitions)
    definition ← or_throw found_definition (internal "missing definition")
    assert_can_act actor_id task
    values ← of_result (
        validate (record {
          resource_type = instance.resource_type;
          trigger_key = instance.trigger_key;
          step_key = task.step_key;
          decision = decision;
          comment = comment;
          metadata = metadata;
        }))
    pure (record {
      task = task;
      instance = instance;
      steps = definition.steps;
      actor_id = actor_id;
      comment = comment;
      metadata = values;
    })

  unfoldable pub complete_in : ℕ → ℕ → Decision → String → Metadata → Action (Db B) Task
  complete_in task_id actor_id decision comment metadata = do
    c ← open_case task_id actor_id decision comment metadata
    record_decision decision c
    follow_up decision c
    pure (decide_task env.now decision c c.task)

  unfoldable pub complete_task : ℕ → ℕ → Decision → String → Metadata → Action (Db B) Task
  complete_task task_id actor_id decision comment metadata s =
      roll_back_with env.undo s (complete_in task_id actor_id decision comment metadata s)

  -- `act`: the oldest task of the instance that is pending.
  unfoldable pub act : ℕ → Decision → ℕ → String → Metadata → Action (Db B) (Unit {0})
  act instance_id decision actor_id comment metadata = do
    found ← gets (λ s. find_first (pending_of instance_id) s.tasks)
    task ← or_throw found (not_found "审批实例没有待处理任务")
    complete_task task.id actor_id decision comment metadata
    pure tt
