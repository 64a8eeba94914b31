-- ===== src/Approval/Examples.antt =====
-- The approval engine on concrete databases: an instance with two tasks under decision.
use noidear.Base.{ℕ, ◌≡◌, refl, true, none, some, [], ◌∷◌, find_first, update_many, count, any}
use noidear.Base.Action.{Action, ok, err, bad_request, forbidden, modify}
use noidear.Approval.Types.{ApprovalStatus, countersign_all, role, claimable, ApprovalStep, to_role}
use noidear.Approval.Db.{Db, Definition, Instance, Task, User, is_pending, task_is}
use noidear.Approval.Resolver.{assert_can_act, is_for}
use noidear.Approval.Todos.{close_task_todos, cancel_instance_todos, notify_requester}
use noidear.Approval.Steps.{next_step, after_step}
use noidear.Approval.Metadata.{to_approve, to_reject, validate}
use noidear.Approval.Callbacks.{CallbackContext, invoke}
use noidear.Approval.Cases.{Env}
use noidear.Approval.Engine.{
  complete_task, complete_in, open_case, record_decision, follow_up, reject_instance,
  advance_if_step_complete, advance, cancel_others, enter_or_approve, approve_instance,
  invoke_optional,
}
use noidear.Approval.Engine.Open.{MayDecide}
use noidear.Approval.Engine.Decisions.{
  Closed, complete_task-once, complete_task-MayDecide, reject-Closed,
}

-- The business tables are one number, which the callbacks set.
abbrev set_to : ℕ → CallbackContext → Action ℕ (Unit {0})
set_to n context = modify (λ _. n)

abbrev env : Env ℕ
env = record {
  callbacks = ("approved", set_to 1) ∷ ("rejected", set_to 2) ∷ [];
  undo = λ before after. before;
  undo_nothing = λ b. refl;
  now = 50;
}

abbrev step_one : ApprovalStep
step_one = record {
  step_key = "review";
  step_name = "审核";
  mode = countersign_all;
  assignments = to_role (some "leader") ∷ [];
  on_approved = "approved";
  on_rejected = some "rejected";
  due_hours = none;
}

abbrev definition_one : Definition
definition_one = record {
  id = 1;
  version = 1;
  resource_type = "document";
  trigger_key = "submit";
  is_active = true;
  steps = step_one ∷ [];
}

abbrev instance_one : Instance
instance_one = record {
  id = 2;
  definition_id = 1;
  definition_version = 1;
  resource_type = "document";
  resource_id = 77;
  resource_step = none;
  trigger_key = "submit";
  title = "文件";
  status = ApprovalStatus.pending;
  current_step_key = some "review";
  created_by_id = 9;
  completed_at = none;
}

abbrev task_one : Task
task_one = record {
  id = 3;
  instance_id = 2;
  step_key = "review";
  step_name = "审核";
  approval_mode = countersign_all;
  assignment_type = role;
  assignee_user_id = none;
  assignee_role_code = some "leader";
  assignee_department_id = none;
  claim_mode = claimable;
  status = ApprovalStatus.pending;
  claimed_by_id = none;
  acted_by_id = none;
  comment = none;
  acted_at = none;
  due_at = none;
}

abbrev task_two : Task
task_two = record task_one { id = 4 }

abbrev leader_eight : User
leader_eight = record { id = 8; is_active = true; role_code = some "leader"; department_id = none }

abbrev db : Db ℕ
db = record {
  definitions = definition_one ∷ [];
  instances = instance_one ∷ [];
  tasks = task_one ∷ task_two ∷ [];
  actions = [];
  todos = [];
  users = leader_eight ∷ [];
  notifications = [];
  business = 0;
  next_id = 5;
}

abbrev approved_once : Db ℕ
approved_once = (complete_task env 3 8 to_approve "" [] db).1

abbrev decided_three : Task
decided_three = record task_one {
  status = ApprovalStatus.approved;
  acted_by_id = some 8;
  claimed_by_id = some 8;
  comment = some "";
  acted_at = some 50;
}

abbrev rejected_three : Task
rejected_three = record decided_three { status = ApprovalStatus.rejected }

approve_runs :
    ((complete_task env 3 8 to_approve "" [] db).0 ≡ ok decided_three)
    × (approved_once.business ≡ 0)
    × ((complete_task env 4 8 to_approve "" [] approved_once).1.business ≡ 1)
unfolding complete_task complete_in open_case record_decision follow_up advance_if_step_complete
    advance cancel_others enter_or_approve approve_instance find_first assert_can_act is_for
    validate count close_task_todos update_many next_step any after_step invoke notify_requester
approve_runs = (refl, refl, refl)

abbrev rejected_once : Db ℕ
rejected_once = (complete_task env 3 8 to_reject "否" [] db).1

reject_runs :
    ((complete_task env 3 8 to_reject "否" [] db).0
      ≡ ok (record rejected_three { comment = some "否" }))
    × (rejected_once.business ≡ 2)
unfolding complete_task complete_in open_case record_decision follow_up reject_instance
    invoke_optional find_first assert_can_act is_for validate count close_task_todos
    cancel_instance_todos update_many any invoke notify_requester
reject_runs = (refl, refl)

stranger_runs : (complete_task env 3 7 to_approve "" [] db).0 ≡ err (forbidden "用户不存在")
unfolding complete_task complete_in open_case find_first assert_can_act
stranger_runs = refl

complete_task-once_example :
    complete_task env 3 1 to_reject "晚" [] approved_once
    ≡ (err (bad_request "审批任务已经处理"), approved_once)
complete_task-once_example =
    complete_task-once env 3 8 to_approve "" [] db decided_three approve_runs.0 1 to_reject "晚" []

complete_task-MayDecide_example :
    (task : Task) × (find_first (task_is 3) db.tasks ≡ some task)
    × (is_pending task.status ≡ true)
    × MayDecide 8 task db
complete_task-MayDecide_example =
    complete_task-MayDecide env 3 8 to_approve "" [] db decided_three approve_runs.0

found_three : find_first (task_is 3) db.tasks ≡ some task_one
unfolding find_first
found_three = refl

reject-Closed_example : Closed 2 rejected_once
reject-Closed_example =
    reject-Closed env 3 8 "否" [] db (record rejected_three { comment = some "否" }) task_one
      found_three reject_runs.0
