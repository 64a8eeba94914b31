-- ===== src/Approval/Steps.antt =====
-- The steps of a definition and the rows that approval-engine.service.ts (in
-- server/src/modules/unified-approval) creates. `now` stands for the time read from the clock.
use noidear.Base.{
  ℕ, String, Bool, true, false, ◌&&◌, ltb, ◌==◌, ◌*◌, Option, none, some, List, [], ◌∷◌, any,
  str_eq, if◌then◌else◌, ◌+◌,
}
use noidear.Approval.Types.{
  ApprovalStatus, ApprovalAssignment, ApprovalStep, ClaimMode, StartApprovalInput,
}
use noidear.Approval.Db.{Definition, Instance, Task, ActionRow, ActionType, started}
use noidear.Approval.Resolver.{ResolvedAssignment, assignment_type}

-- The last active definition for the trigger.
abbrev is_for_trigger : StartApprovalInput → Definition → Bool
is_for_trigger input d =
    str_eq d.resource_type input.resource_type
    && str_eq d.trigger_key input.trigger_key
    && d.is_active

abbrev later : Definition → Option Definition → Option Definition
later d none = some d
later d (some e) = if ltb d.version e.version then some e else some d

unfoldable pub latest_definition : StartApprovalInput → List Definition → Option Definition
latest_definition input [] = none
latest_definition input (d ∷ ds) =
    let rest = latest_definition input ds in if is_for_trigger input d then later d rest else rest

abbrev pub first_step : List ApprovalStep → Option ApprovalStep
first_step [] = none
first_step (x ∷ xs) = some x

abbrev pub step_is : String → ApprovalStep → Bool
step_is key x = str_eq x.step_key key

unfoldable pub after_step : String → List ApprovalStep → Option ApprovalStep
after_step key [] = none
after_step key (x ∷ xs) = elim (step_is key x) [ true ↦ first_step xs | false ↦ after_step key xs ]

-- `steps[findIndex(…) + 1]`, where the index of a missing step is -1.
unfoldable pub next_step : String → List ApprovalStep → Option ApprovalStep
next_step key steps = elim (any (step_is key) steps) [
  | true ↦ after_step key steps
  | false ↦ first_step steps
]

abbrev due_at : ℕ → Option ℕ → Option ℕ
due_at now none = none
due_at now (some hours) = if hours == 0 then none else some (now + hours * 3600000)

-- `[null]` unless the assignment is direct.
abbrev pub direct_user_ids : ResolvedAssignment → List (Option ℕ)
direct_user_ids r = elim r.claim_mode [
  | ClaimMode.direct ↦ some_all r.assignee_user_ids
  | ClaimMode.claimable ↦ none ∷ []
]
  where
    some_all : List ℕ → List (Option ℕ)
    some_all [] = []
    some_all (x ∷ xs) = some x ∷ some_all xs

abbrev pub new_instance : Definition → StartApprovalInput → ApprovalStep → ℕ → Instance
new_instance d input step id = record {
  id = id;
  definition_id = d.id;
  definition_version = d.version;
  resource_type = input.resource_type;
  resource_id = input.resource_id;
  resource_step = input.resource_step;
  trigger_key = input.trigger_key;
  title = input.title;
  status = ApprovalStatus.pending;
  current_step_key = some step.step_key;
  created_by_id = input.created_by_id;
  completed_at = none;
}

abbrev pub new_task :
    ℕ → Instance → ApprovalStep → ApprovalAssignment → ResolvedAssignment → Option ℕ → ℕ → Task
new_task now instance step assignment r user_id id = record {
  id = id;
  instance_id = instance.id;
  step_key = step.step_key;
  step_name = step.step_name;
  approval_mode = step.mode;
  assignment_type = assignment_type assignment;
  assignee_user_id = user_id;
  assignee_role_code = r.assignee_role_code;
  assignee_department_id = r.assignee_department_id;
  claim_mode = r.claim_mode;
  status = ApprovalStatus.pending;
  claimed_by_id = none;
  acted_by_id = none;
  comment = none;
  acted_at = none;
  due_at = due_at now step.due_hours;
}

abbrev pub start_row : Instance → StartApprovalInput → ActionRow
start_row instance input = record {
  instance_id = instance.id;
  task_id = none;
  actor_id = input.created_by_id;
  action = ActionType.remark;
  comment = "审批流程已发起";
  snapshot = started input.resource_type input.resource_id input.trigger_key;
}
