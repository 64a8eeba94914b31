-- ===== src/Approval/Engine/Advance.antt =====
-- `advanceIfStepComplete` of approval-engine.service.ts: what an approval leads to.
use noidear.Base.{
  ℕ, Bool, true, false, not, ◌&&◌, ◌==◌, ◌≡◌, some, none, find_first, update_many, count,
}
use noidear.Base.Action.{ok}
use noidear.Approval.Types.{ApprovalStep, ApprovalMode, single, countersign_any, approved}
use noidear.Approval.Db.{Db, Instance, Metadata, instance_is, task_is}
use noidear.Approval.Cases.{Env, Case, context_of, pending_in, decide_task, enter_step}
use noidear.Approval.Metadata.{to_approve}
use noidear.Approval.Callbacks.{invoke}
use noidear.Approval.Steps.{step_is, next_step}
use noidear.Approval.Engine.{List}

-- The instances and the business tables are the given ones.
record Same {B : Type 0} (rows : List Instance) (b : B) (s : Db B) : Type 0 where
  pub instances : s.instances ≡ rows
  pub business : s.business ≡ b

-- The instance is approved, and the callback of the step has run on the business tables `b`.
pub record IsApproved {B : Type 0} (env : Env B) (c : Case) (b : B) (s : Db B) : Type 0 where
  pub step : ApprovalStep
  pub step_found : find_first (step_is c.task.step_key) c.steps ≡ some step
  pub called : invoke env.callbacks step.on_approved (context_of c) b ≡ (ok tt, s.business)
  pub instance : Instance
  pub found : find_first (instance_is c.task.instance_id) s.instances ≡ some instance
  pub is_approved : instance.status ≡ approved

-- How many tasks of the step are pending besides the one that is decided
abbrev pub others_pending : {B : Type 0} → Case → Db B → ℕ
others_pending c s =
    count (λ t. pending_in c.task.instance_id c.task.step_key t && not (task_is c.task.id t))
      s.tasks

-- Of a step with one approver, or in which any of them will do, one approval is enough; any other
-- step waits for all of its tasks.
abbrev pub must_wait : ApprovalMode → ℕ → Bool
must_wait single n = false
must_wait countersign_any n = false
must_wait _ n = not (n == 0)

-- What an approval leads from `s` to `t`. It waits while others have to approve; otherwise it enters
-- the next step, or, after the last, the instance is approved.
pub data Outcome {B : Type 0} (env : Env B) (c : Case) (s t : Db B) : Type 0 where
  waits :
      must_wait c.task.approval_mode (others_pending c s) ≡ true
      → t.tasks ≡ update_many (task_is c.task.id) (decide_task env.now to_approve c) s.tasks
      → t.instances ≡ s.instances
      → t.business ≡ s.business
      → Outcome env c s t
  enters :
      (step : ApprovalStep)
      → must_wait c.task.approval_mode (others_pending c s) ≡ false
      → next_step c.task.step_key c.steps ≡ some step
      → find_first (instance_is c.task.instance_id) t.instances
        ≡ some (enter_step step.step_key c.instance)
      → t.business ≡ s.business
      → Outcome env c s t
  approves :
      must_wait c.task.approval_mode (others_pending c s) ≡ false
      → next_step c.task.step_key c.steps ≡ none
      → IsApproved env c s.business t
      → Outcome env c s t
