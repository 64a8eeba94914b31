-- ===== src/ProcessChange/Lifecycle.antt =====
-- The calls of the service and the decisions on its changes, in any order.
use noidear.Base.{ℕ, ◌≡◌, ◌≤◌}
use noidear.Approval.Types.{Approvals}
use noidear.ProcessChange.Service.{
  Store, on_db, create_draft, CreateDraftDto, submit_for_approval, retry_failed, approval_approved,
  approval_rejected,
}

-- Each step is a call with what it leaves, whether it returns or throws.
pub data Step {A : Type 0} (engine : Approvals A) : Store A → Store A → Type 0 where
  drafts :
      (year : ℕ) (dto : CreateDraftDto) (actor_id : ℕ) (s t : Store A)
      → (on_db (create_draft year dto actor_id) s).1 ≡ t
      → Step engine s t
  submits :
      (now plan_id actor_id : ℕ) (s t : Store A)
      → (submit_for_approval engine now plan_id actor_id s).1 ≡ t
      → Step engine s t
  retries :
      (plan_id actor_id : ℕ) (s t : Store A)
      → (on_db (retry_failed plan_id actor_id) s).1 ≡ t
      → Step engine s t
  approves :
      (now event_id actor_id : ℕ) (s t : Store A)
      → (on_db (approval_approved now event_id actor_id) s).1 ≡ t
      → Step engine s t
  rejects :
      (event_id actor_id : ℕ) (s t : Store A)
      → (on_db (approval_rejected event_id actor_id) s).1 ≡ t
      → Step engine s t
  -- The other modules write neither executions nor plans.
  others :
      (s t : Store A)
      → t.db.executions ≡ s.db.executions
      → t.db.plans ≡ s.db.plans
      → s.db.next_id ≤ t.db.next_id
      → Step engine s t

pub data Steps {A : Type 0} (engine : Approvals A) (s : Store A) : Store A → Type 0 where
  here : Steps engine s s
  next : (t u : Store A) → Steps engine s t → Step engine t u → Steps engine s u
