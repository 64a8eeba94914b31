-- ===== src/ProcessChange/Service.antt =====
-- The life of a change: `createDraft`, `submitForApproval` and `retryFailed` of
-- product-process-change.service.ts, with `createDraftEvent` and `submitForApproval` of
-- change-event/change-event.service.ts, `closeFailureTodo` of the to-do bridge and the callbacks of
-- change-event.module.ts. A change event's relations are left out: no code here reads them.
use noidear.Base.{
  ℕ, ◌+◌, Bool, true, false, not, ◌&&◌, none, some, List, [], ◌∷◌, ◌++◌, ◌==◌, any, find_first,
  is_some, length, if◌then◌else◌, update_many,
}
use noidear.Base.Action.{
  Action, Result, ok, err, bad_request, not_found, internal, pure, gets, or_throw, throw_if, modify,
  transaction, ◌>>=◌, ◌>>◌,
}
use noidear.Approval.Types.{Approvals, StartApprovalInput}
use noidear.ProcessChange.{
  Db, Plan, PlanStatus, draft, pending_approval, execution_failed, Payload, Scope, ChangeEvent,
  EventStatus, pending, approved, rejected, Product, is_unfinished, product_is, plan_is,
  update_plan, FailureTodo,
}
use noidear.ProcessChange.Validate.{validate_payload, validate_compliance_gates}
use noidear.ProcessChange.Apply.{apply_approved_change}

-- The tables with the approvals of the engine beside them
pub record Store (A : Type 0) : Type 0 where
  pub db : Db
  pub approvals : A

module _ {A X : Type 0} where
  abbrev pub put_db : Store A → Result X × Db → Result X × Store A
  put_db s (r, t) = (r, record s { db = t })

  abbrev pub on_db : Action Db X → Action (Store A) X
  on_db m s = put_db s (m s.db)

  abbrev pub put_approvals : Store A → Result X × A → Result X × Store A
  put_approvals s (r, t) = (r, record s { approvals = t })

  abbrev pub on_approvals : Action A X → Action (Store A) X
  on_approvals m s = put_approvals s (m s.approvals)

pub record CreateDraftDto : Type 0 where
  pub product_id : ℕ
  pub scopes : List Scope
  pub payload : Payload

abbrev pub blocks : ℕ → Plan → Bool
blocks product_id p = p.product_id == product_id && is_unfinished p.status

abbrev pub has_number : ℕ → ℕ → ChangeEvent → Bool
has_number year n e = e.year == year && e.change_no == n

abbrev pub event_is : ℕ → ChangeEvent → Bool
event_is k e = e.id == k

-- The number is the count of all events plus one, under the year; the unique index may refuse it.
abbrev pub new_event : ℕ → ℕ → ℕ → ℕ → ChangeEvent
new_event year n user_id id = record {
  id = id;
  year = year;
  change_no = n;
  applied_by = user_id;
  status = pending;
  approved_by = none;
}

unfoldable pub create_draft_event : ℕ → ℕ → Action Db ℕ
create_draft_event year user_id s =
    let n = length s.events + 1 in
    if any (has_number year n) s.events then (err (internal "P2002"), s) else (
      ok s.next_id,
      record s {
        events = s.events ++ new_event year n user_id s.next_id ∷ [];
        next_id = s.next_id + 1;
      },
    )

abbrev pub new_plan : CreateDraftDto → ℕ → Product → ℕ → ℕ → Plan
new_plan dto actor_id product change_event_id id = record {
  id = id;
  company_id = product.company_id;
  change_event_id = change_event_id;
  product_id = product.id;
  scopes = dto.scopes;
  payload = dto.payload;
  status = draft;
  execution_error = none;
  locked_at = none;
  executed_at = none;
  created_by_id = some actor_id;
}

abbrev pub add_plan : (ℕ → Plan) → Action Db Plan
add_plan fresh s = (
  ok (fresh s.next_id),
  record s { plans = s.plans ++ fresh s.next_id ∷ []; next_id = s.next_id + 1 },
)

unfoldable pub write_draft : ℕ → CreateDraftDto → ℕ → Product → Action Db Plan
write_draft year dto actor_id product = do
  change_event_id ← create_draft_event year actor_id
  add_plan (new_plan dto actor_id product change_event_id)

unfoldable pub create_draft : ℕ → CreateDraftDto → ℕ → Action Db Plan
create_draft year dto actor_id = do
  existing ← gets (λ s. find_first (blocks dto.product_id) s.plans)
  throw_if (is_some existing) (bad_request "该产品已有未完成的产品工艺变更")
  found ← gets (λ s. find_first (product_is dto.product_id) s.products)
  product ← or_throw found (bad_request "产品不存在或已删除")
  transaction (write_draft year dto actor_id product)

abbrev pub is_draft : PlanStatus → Bool
is_draft draft = true
is_draft _ = false

abbrev pub is_failed : PlanStatus → Bool
is_failed execution_failed = true
is_failed _ = false

-- `submitForApproval` of the plan, up to the change event
unfoldable pub lock_plan : ℕ → ℕ → Action Db Plan
lock_plan now plan_id = do
  found ← gets (λ s. find_first (plan_is plan_id) s.plans)
  plan ← or_throw found (not_found "产品工艺变更不存在")
  throw_if (not (is_draft plan.status)) (bad_request "当前状态不能提交审批")
  validate_payload plan
  validate_compliance_gates plan
  modify (update_plan plan.id (λ p. record p { status = pending_approval; locked_at = some now }))
  pure plan

unfoldable pub find_event : ℕ → Action Db ChangeEvent
find_event id = do
  found ← gets (λ s. find_first (event_is id) s.events)
  or_throw found (internal "ChangeEvent not found")

abbrev pub submit_input : ChangeEvent → ℕ → StartApprovalInput
submit_input event actor_id = record {
  resource_type = "change_event";
  resource_id = event.id;
  resource_step = some "submit";
  trigger_key = "approve_change";
  title = "变更事件审批";
  created_by_id = actor_id;
}

module _ {A : Type 0} (engine : Approvals A) where
  unfoldable pub submit_for_approval : ℕ → ℕ → ℕ → Action (Store A) Plan
  submit_for_approval now plan_id actor_id = transaction do
    plan ← on_db (lock_plan now plan_id)
    event ← on_db (find_event plan.change_event_id)
    on_approvals (engine.start (submit_input event actor_id))
    pure plan

abbrev pub todo_open : ℕ → FailureTodo → Bool
todo_open plan_id t = t.related_id == plan_id && t.is_pending

abbrev pub close_failure_todo : ℕ → ℕ → Db → Db
close_failure_todo plan_id completed_by s = record s {
  todos =
      update_many (todo_open plan_id)
        (λ t. record t { is_pending = false; completed_by = some completed_by }) s.todos;
}

abbrev pub reopen : Plan → Plan
reopen p = record p { status = draft; execution_error = none; locked_at = none }

unfoldable pub retry_failed : ℕ → ℕ → Action Db (Unit {0})
retry_failed plan_id actor_id = do
  found ← gets (λ s. find_first (plan_is plan_id) s.plans)
  plan ← or_throw found (not_found "产品工艺变更不存在")
  throw_if (not (is_failed plan.status)) (bad_request "仅失败状态的变更可重试")
  modify (update_plan plan_id reopen)
  modify (close_failure_todo plan_id actor_id)

abbrev pub decide : EventStatus → ℕ → ChangeEvent → ChangeEvent
decide status actor_id e = record e { status = status; approved_by = some actor_id }

-- `changeEvent.update` in a callback
unfoldable pub decide_event : EventStatus → ℕ → ℕ → Action Db (Unit {0})
decide_event status id actor_id = do
  found ← gets (λ s. find_first (event_is id) s.events)
  or_throw found (internal "P2025")
  modify (λ s. record s { events = update_many (event_is id) (decide status actor_id) s.events })

-- The event is written through the engine's transaction, which is rolled back if the application throws;
-- what the application writes stays.
abbrev pub undo_event : Db → Result (Unit {0}) × Db → Result (Unit {0}) × Db
undo_event s (ok u, t) = (ok u, t)
undo_event s (err e, t) = (err e, record t { events = s.events })

-- `changeEvent.approvalApproved`
unfoldable pub approval_approved : ℕ → ℕ → ℕ → Action Db (Unit {0})
approval_approved now id actor_id s =
    undo_event s ((decide_event approved id actor_id >> apply_approved_change now id actor_id) s)

-- `changeEvent.approvalRejected`: the plan is not touched.
unfoldable pub approval_rejected : ℕ → ℕ → Action Db (Unit {0})
approval_rejected id actor_id = decide_event rejected id actor_id
