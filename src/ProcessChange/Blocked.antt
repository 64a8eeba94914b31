-- ===== src/ProcessChange/Blocked.antt =====
-- A plan whose approval is rejected.
use noidear.Base.{
  ℕ, Bool, true, some, List, [], ◌∷◌, ◌≡◌, refl, sym, subst, arith, find_first, is_some, ==_refl,
  update_many,
}
use noidear.Base.Action.{err, ok, bad_request}
use noidear.Approval.Types.{Approvals}
use noidear.ProcessChange.{Plan, pending_approval, plan_is, ChangeEvent, rejected}
use noidear.ProcessChange.Service.{
  Store, on_db, CreateDraftDto, event_is, approval_rejected, decide, decide_event,
  submit_for_approval, lock_plan, retry_failed, create_draft, blocks,
}

find_first-exists :
    {A : Type 0} (p q : A → Bool) (xs : List A) (r : A)
    → find_first p xs ≡ some r
    → q r ≡ true
    → is_some (find_first q xs) ≡ true
unfolding find_first
find_first-exists p q [] r h k = absurd (ground arith)
find_first-exists p q (x ∷ xs) r h k = ground (arith, h, k, find_first-exists p q xs r)

-- While a plan waits for the approval, its product has no other plan, and no call takes it further.
waiting_blocks :
    {A : Type 0} (engine : Approvals A) (now year actor_id : ℕ) (dto : CreateDraftDto) (plan : Plan)
    (s : Store A)
    → find_first (plan_is plan.id) s.db.plans ≡ some plan
    → plan.status ≡ pending_approval
    → dto.product_id ≡ plan.product_id
    → (submit_for_approval engine now plan.id actor_id s ≡ (err (bad_request "当前状态不能提交审批"), s))
      × (retry_failed plan.id actor_id s.db ≡ (err (bad_request "仅失败状态的变更可重试"), s.db))
      × (create_draft year dto actor_id s.db ≡ (err (bad_request "该产品已有未完成的产品工艺变更"), s.db))
unfolding submit_for_approval lock_plan retry_failed create_draft
waiting_blocks engine now year actor_id dto plan s found waits own =
    let other : is_some (find_first (blocks dto.product_id) s.db.plans) ≡ true =
      find_first-exists (plan_is plan.id) (blocks dto.product_id) s.db.plans plan found
        (ground (arith, waits, own, ==_refl plan.product_id)) in
    (ground (arith, found, waits), ground (arith, found, waits), ground (arith, other))

-- The rejection marks the event.
abbrev decided : {A : Type 0} → ℕ → ℕ → Store A → Store A
decided event_id actor_id s = record s {
  db = record s.db {
    events = update_many (event_is event_id) (decide rejected actor_id) s.db.events;
  };
}

rejected_run :
    {A : Type 0} (event_id actor_id : ℕ) (event : ChangeEvent) (s : Store A)
    → find_first (event_is event_id) s.db.events ≡ some event
    → on_db (approval_rejected event_id actor_id) s ≡ (ok tt, decided event_id actor_id s)
unfolding approval_rejected decide_event
rejected_run event_id actor_id event s known = rw known refl

-- If an event is found and a plan that is found by its id waits for its approval, then the
-- rejection of the event returns, and after it the plan can neither be submitted nor retried, and
-- no draft can be created for its product: each call throws and changes nothing; for any approval
-- engine.
pub rejected_blocks :
    {A : Type 0} (engine : Approvals A) (now year event_id actor_id : ℕ) (dto : CreateDraftDto)
    (plan : Plan) (event : ChangeEvent) (s : Store A)
    → find_first (event_is event_id) s.db.events ≡ some event
    → find_first (plan_is plan.id) s.db.plans ≡ some plan
    → plan.status ≡ pending_approval
    → dto.product_id ≡ plan.product_id
    → let t = (on_db (approval_rejected event_id actor_id) s).1 in
      ((on_db (approval_rejected event_id actor_id) s).0 ≡ ok tt)
      × (submit_for_approval engine now plan.id actor_id t ≡ (err (bad_request "当前状态不能提交审批"), t))
      × (retry_failed plan.id actor_id t.db ≡ (err (bad_request "仅失败状态的变更可重试"), t.db))
      × (create_draft year dto actor_id t.db ≡ (err (bad_request "该产品已有未完成的产品工艺变更"), t.db))
rejected_blocks engine now year event_id actor_id dto plan event s known found waits own =
    let w =
      waiting_blocks engine now year actor_id dto plan (decided event_id actor_id s) found waits
        own in
    subst
      (λ r.
        (r.0 ≡ ok tt)
        × (submit_for_approval engine now plan.id actor_id r.1
            ≡ (err (bad_request "当前状态不能提交审批"), r.1))
        × (retry_failed plan.id actor_id r.1.db ≡ (err (bad_request "仅失败状态的变更可重试"), r.1.db))
        × (create_draft year dto actor_id r.1.db ≡ (err (bad_request "该产品已有未完成的产品工艺变更"), r.1.db)))
      (sym (rejected_run event_id actor_id event s known)) (refl, w.0, w.1, w.2)
