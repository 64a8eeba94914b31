-- ===== src/Approval/Cases.antt =====
-- The case that an approver decides, and the single writes of approval-engine.service.ts (in
-- server/src/modules/unified-approval).
use noidear.Base.{
  ℕ, suc, ◌≡◌, String, Bool, true, false, ◌&&◌, ◌==◌, Option, none, some, List, [], ◌∷◌, ◌++◌,
  find_first, update_many, str_eq,
}
use noidear.Approval.Types.{ApprovalStatus, ApprovalMode, single, countersign_any, ApprovalStep}
use noidear.Approval.Db.{
  Db, Instance, Task, ActionRow, ActionType, decided, Metadata, instance_is, is_pending,
}
use noidear.Approval.Metadata.{Decision, to_approve, to_reject}
use noidear.Approval.Callbacks.{Registry, CallbackContext}
use noidear.Approval.Steps.{step_is}

-- The registered callbacks, what of their writes stays when the engine's transaction is rolled back
-- (a callback may write through a connection of its own, as that of a change event does), and the
-- time.
pub record Env (B : Type 0) : Type 0 where
  pub callbacks : Registry B
  pub undo : B → B → B
  pub undo_nothing : (b : B) → undo b b ≡ b
  pub now : ℕ

-- A task that is under decision, with its instance, the steps of the definition and the request.
pub record Case : Type 0 where
  pub task : Task
  pub instance : Instance
  pub steps : List ApprovalStep
  pub actor_id : ℕ
  pub comment : String
  pub metadata : Metadata

abbrev pub context_of : Case → CallbackContext
context_of c = record {
  instance_id = c.task.instance_id;
  resource_type = c.instance.resource_type;
  resource_id = c.instance.resource_id;
  resource_step = c.instance.resource_step;
  trigger_key = c.instance.trigger_key;
  actor_id = c.actor_id;
  task_id = c.task.id;
  comment = c.comment;
  metadata = c.metadata;
}

abbrev pub decision_status : Decision → ApprovalStatus
decision_status to_approve = ApprovalStatus.approved
decision_status to_reject = ApprovalStatus.rejected

abbrev pub decision_action : Decision → ActionType
decision_action to_approve = ActionType.approve
decision_action to_reject = ActionType.reject

abbrev pub decide_task : ℕ → Decision → Case → Task → Task
decide_task now decision c t = record t {
  status = decision_status decision;
  acted_by_id = some c.actor_id;
  claimed_by_id = some c.actor_id;
  comment = some c.comment;
  acted_at = some now;
}

abbrev pub decision_row : Decision → Case → ActionRow
decision_row decision c = record {
  instance_id = c.task.instance_id;
  task_id = some c.task.id;
  actor_id = c.actor_id;
  action = decision_action decision;
  comment = c.comment;
  snapshot = decided c.task c.metadata;
}

abbrev pub pending_of : ℕ → Task → Bool
pending_of instance_id t = t.instance_id == instance_id && is_pending t.status

abbrev pub pending_in : ℕ → String → Task → Bool
pending_in instance_id key t =
    t.instance_id == instance_id && str_eq t.step_key key && is_pending t.status

abbrev pub cancel_task : Task → Task
cancel_task t = record t { status = ApprovalStatus.cancelled }

abbrev pub end_instance : ℕ → ApprovalStatus → Instance → Instance
end_instance now status r = record r { status = status; completed_at = some now }

abbrev pub enter_step : String → Instance → Instance
enter_step key r = record r { current_step_key = some key }

abbrev pub is_complete : ApprovalMode → ℕ → Bool
is_complete single pending = true
is_complete countersign_any pending = true
is_complete _ pending = pending == 0

abbrev pub is_any : ApprovalMode → Bool
is_any countersign_any = true
is_any _ = false

abbrev rejected_of : Option ApprovalStep → Option String
rejected_of none = none
rejected_of (some x) = x.on_rejected

-- `steps.find(…)?.onRejected`
abbrev pub callback_of : String → List ApprovalStep → Option String
callback_of key steps = rejected_of (find_first (step_is key) steps)

module _ {B : Type 0} where
  abbrev pub add_task : (ℕ → Task) → Db B → Db B
  add_task make s = record s { tasks = s.tasks ++ make s.next_id ∷ []; next_id = suc s.next_id }

  abbrev pub add_instance : (ℕ → Instance) → Db B → Db B
  add_instance make s = record s {
    instances = s.instances ++ make s.next_id ∷ [];
    next_id = suc s.next_id;
  }

  abbrev pub add_action : ActionRow → Db B → Db B
  add_action row s = record s { actions = s.actions ++ row ∷ [] }

  abbrev pub update_tasks : (Task → Bool) → (Task → Task) → Db B → Db B
  update_tasks p f s = record s { tasks = update_many p f s.tasks }

  abbrev pub update_instance : ℕ → (Instance → Instance) → Db B → Db B
  update_instance id f s = record s { instances = update_many (instance_is id) f s.instances }
