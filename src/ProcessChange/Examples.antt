-- ===== src/ProcessChange/Examples.antt =====
-- The change of a recipe on a concrete database: applied, refused by a check, and rejected.
use noidear.Base.{
  ◌==◌, has_repeat, false, none, some, [], ◌∷◌, ◌≡◌, ◌&&◌, refl, arith, count, find_first,
  find_many, any, update_many, dedup,
}
use noidear.Base.Action.{for_each, ok, err, bad_request}
use noidear.Approval.Types.{Approvals}
use noidear.ProcessChange.{
  Db, Plan, pending_approval, ChangeEvent, pending, Scope, active, Payload, is_executed,
}
use noidear.ProcessChange.Validate.{validate_payload, validate_recipe, check_line, given}
use noidear.ProcessChange.Apply.{
  apply_approved_change, apply_in_transaction, apply_scopes, apply_recipe_change, insert_recipe,
  latest_version, create_execution, event_plan,
}
use noidear.ProcessChange.Service.{
  Store, on_db, CreateDraftDto, approval_approved, approval_rejected, submit_for_approval,
  retry_failed, create_draft, decide_event,
}
use noidear.ProcessChange.Outcome.{Failed, apply_approved_change-Failed}
use noidear.ProcessChange.Stuck.{IsUnapplied}
use noidear.ProcessChange.Versions.{IsRenewed, apply_approved_change-IsRenewed}
use noidear.ProcessChange.Blocked.{rejected_blocks}
use noidear.ProcessChange.Forever.{failed_forever}
use noidear.ProcessChange.Lifecycle.{Steps, here, next, retries, others, submits, approves}

abbrev payload : Payload
payload = record {
  recipe_lines =
      record {
        material_id = some 7;
        qty_per_batch = some 5;
        unit = some "kg";
        area_id = some 8;
        is_critical = false;
      }
      ∷ [];
  process_steps = [];
  ccp_points = [];
  base_recipe_id = none;
  base_recipe_version = none;
}

abbrev change : Plan
change = record {
  id = 3;
  company_id = 1;
  change_event_id = 2;
  product_id = 1;
  scopes = Scope.recipe ∷ [];
  payload = payload;
  status = pending_approval;
  execution_error = none;
  locked_at = some 8;
  executed_at = none;
  created_by_id = some 6;
}

abbrev event : ChangeEvent
event = record {
  id = 2;
  year = 2026;
  change_no = 1;
  applied_by = 6;
  status = pending;
  approved_by = none;
}

abbrev kitchen : Db
kitchen = record {
  products = record { id = 1; company_id = 1; is_deleted = false } ∷ [];
  plans = change ∷ [];
  events = event ∷ [];
  recipes =
      record {
        id = 4;
        company_id = 1;
        product_id = 1;
        version = 3;
        status = active;
        change_event_id = none;
        lines = [];
      }
      ∷ [];
  steps = [];
  ccps = [];
  materials = 7 ∷ [];
  areas = 8 ∷ [];
  compliance_records = [];
  verification_records = 2 ∷ [];
  executions = [];
  artifacts = [];
  todos = [];
  next_id = 20;
}

-- The material is deleted before the approval.
abbrev short : Db
short = record kitchen { materials = [] }

known :
    (find_first (event_plan 2) kitchen.plans ≡ some change)
    × (find_first (λ (e : ChangeEvent). e.id == 2) kitchen.events ≡ some event)
    × (find_first (λ (p : Plan). p.id == 3) kitchen.plans ≡ some change)
unfolding find_first
known = (refl, refl, refl)

runs : (apply_approved_change 9 2 6 kitchen).0 ≡ ok tt
unfolding apply_approved_change apply_in_transaction apply_scopes validate_payload validate_recipe
    check_line given apply_recipe_change insert_recipe latest_version create_execution find_first
    find_many any update_many dedup for_each has_repeat
runs = refl

throws : (apply_approved_change 9 2 6 short).0 ≡ err (bad_request "配方行物料不存在")
unfolding apply_approved_change apply_in_transaction apply_scopes validate_payload validate_recipe
    check_line given find_first find_many any update_many dedup for_each
throws = refl

approval_throws : (approval_approved 9 2 6 short).0 ≡ err (bad_request "配方行物料不存在")
unfolding approval_approved decide_event apply_approved_change apply_in_transaction apply_scopes
    validate_payload validate_recipe check_line given find_first find_many any update_many dedup
    for_each
approval_throws = refl

apply_approved_change-IsRenewed_example :
    IsRenewed change kitchen.recipes (apply_approved_change 9 2 6 kitchen).1.recipes
unfolding any
apply_approved_change-IsRenewed_example =
    apply_approved_change-IsRenewed 9 2 6 change kitchen known.0 refl refl runs

apply_approved_change-Failed_example :
    Failed change 6 "配方行物料不存在" short (apply_approved_change 9 2 6 short).1
apply_approved_change-Failed_example =
    apply_approved_change-Failed 9 2 6 change short (bad_request "配方行物料不存在") known.0 throws

abbrev engine : Approvals (Unit {0})
engine = record {
  start = λ input s. (ok 30, s);
  same = λ s t. s ≡ t;
  start_atomic = λ input s e h. refl;
}

abbrev store : Store (Unit {0})
store = record { db = short; approvals = tt }

-- The plan is opened again, the material is back, the plan is submitted, and the approval is given a second time.
abbrev failed : Store (Unit {0})
failed = record store { db = (approval_approved 9 2 6 short).1 }

abbrev reopened : Store (Unit {0})
reopened = (on_db (retry_failed 3 6) failed).1

abbrev restocked : Store (Unit {0})
restocked = record reopened { db = record reopened.db { materials = 7 ∷ [] } }

abbrev submitted : Store (Unit {0})
submitted = (submit_for_approval engine 10 3 6 restocked).1

abbrev approved_again : Store (Unit {0})
approved_again = (on_db (approval_approved 11 2 6) submitted).1

second_try : Steps engine failed approved_again
second_try =
    next submitted approved_again
      (next restocked submitted
        (next reopened restocked (next failed reopened here (retries 3 6 failed reopened refl))
          (others reopened restocked refl refl (omega arith)))
        (submits 10 3 6 restocked submitted refl))
      (approves 11 2 6 submitted approved_again refl)

short-IsUnapplied : IsUnapplied 2 short
unfolding count
short-IsUnapplied = record { none_executed = refl; plan_key = λ k. ground arith; fresh = refl }

failed_forever_example :
    count (λ p. event_plan 2 p && is_executed p.status) approved_again.db.plans ≡ 0
failed_forever_example =
    failed_forever engine 9 2 6 event change store approved_again (bad_request "配方行物料不存在") known.1
      known.0 short-IsUnapplied approval_throws second_try

abbrev dto : CreateDraftDto
dto = record { product_id = 1; scopes = Scope.recipe ∷ []; payload = payload }

rejected_blocks_example :
    let t = (on_db (approval_rejected 2 6) (record store { db = kitchen })).1 in
    ((on_db (approval_rejected 2 6) (record store { db = kitchen })).0 ≡ ok tt)
    × (submit_for_approval engine 9 3 6 t ≡ (err (bad_request "当前状态不能提交审批"), t))
    × (retry_failed 3 6 t.db ≡ (err (bad_request "仅失败状态的变更可重试"), t.db))
    × (create_draft 2026 dto 6 t.db ≡ (err (bad_request "该产品已有未完成的产品工艺变更"), t.db))
rejected_blocks_example =
    rejected_blocks engine 9 2026 2 6 dto change event (record store { db = kitchen }) known.1
      known.2 refl refl
