-- ===== src/Training/Plans.antt =====
-- Yearly training plans: server/src/modules/training/training.service.ts, and the callbacks of
-- training.module.ts.
use noidear.Base.{
  ℕ, ◌+◌, String, Bool, true, false, not, ◌&&◌, Option, none, some, [], ◌∷◌, ◌++◌, ◌==◌, is_some,
  any, find_first, find_many, get_or,
}
use noidear.Base.Action.{
  Action, Result, ok, err, bad_request, not_found, conflict, gets, throw_if, or_throw, modify,
  ◌>>=◌, ◌>>◌, internal,
}
use noidear.Approval.Types.{Approvals, StartApprovalInput}
use noidear.Training.{
  Db, TrainingPlan, PlanStatus, draft, pending_approval, approved, rejected, plan_is,
  get_plan_by_id, update_plan, delete_todos, todo_of, approval,
}
use Prim.Native.String.{◌++◌ as concat}

abbrev pub is_draft : PlanStatus → Bool
is_draft draft = true
is_draft _ = false

abbrev pub year_is : ℕ → TrainingPlan → Bool
year_is y p = p.year == y

abbrev new_plan : ℕ → String → ℕ → ℕ → TrainingPlan
new_plan year title user_id id = record {
  id = id;
  year = year;
  title = title;
  status = draft;
  approval_instance_id = none;
  created_by = user_id;
}

abbrev add_plan : (ℕ → TrainingPlan) → Action Db TrainingPlan
add_plan fresh s = (
  ok (fresh s.next_id),
  record s { plans = s.plans ++ fresh s.next_id ∷ []; next_id = s.next_id + 1 },
)

unfoldable pub create_plan : ℕ → String → ℕ → Action Db TrainingPlan
create_plan year title user_id = do
  existing ← gets (λ s. find_first (year_is year) s.plans)
  throw_if (is_some existing) (conflict "年度培训计划已存在")
  add_plan (new_plan year title user_id)

pub record UpdatePlanDto : Type 0 where
  pub title : Option String

-- `updatePlan`; `year` is no field of the request
unfoldable pub change_plan : ℕ → UpdatePlanDto → Action Db (Unit {0})
change_plan id dto = do
  plan ← get_plan_by_id id
  throw_if (not (is_draft plan.status)) (bad_request "只有草稿状态的培训计划可以修改")
  modify (update_plan id (λ p. record p { title = get_or dto.title p.title }))

unfoldable pub delete_plan : ℕ → Action Db (Unit {0})
delete_plan id = do
  found ← gets (λ s. find_first (plan_is id) s.plans)
  plan ← or_throw found (not_found "培训计划不存在")
  throw_if (not (is_draft plan.status)) (bad_request "只有草稿状态的培训计划可以删除")
  used ← gets (λ s. any (λ p. p.plan_id == id) s.projects)
  throw_if used (bad_request "该培训计划下有培训项目，无法删除")
  modify (λ s. record s { plans = find_many (λ p. not (plan_is id p)) s.plans })

abbrev set_plan : ℕ → PlanStatus → Action Db (Unit {0})
set_plan id status = modify (update_plan id (λ p. record p { status = status }))

-- The tables with the approvals of the engine beside them.
pub record Office (A : Type 0) : Type 0 where
  pub db : Db
  pub approvals : A

module _ {A X : Type 0} where
  abbrev pub put_db : Office A → Result X × Db → Result X × Office A
  put_db s (r, t) = (r, record s { db = t })

  abbrev pub on_db : Action Db X → Action (Office A) X
  on_db m s = put_db s (m s.db)

  abbrev pub put_approvals : Office A → Result X × A → Result X × Office A
  put_approvals s (r, t) = (r, record s { approvals = t })

  abbrev pub swallow : Result X × Office A → Result (Unit {0}) × Office A
  swallow (_, s) = (ok tt, s)

module _ {A : Type 0} where
  abbrev pub link_approval : ℕ → Result ℕ × Office A → Result ℕ × Office A
  link_approval id (ok instance_id, s) = (
    ok instance_id,
    record s {
      db = update_plan id (λ p. record p { approval_instance_id = some instance_id }) s.db;
    },
  )
  link_approval id (err e, s) = (err e, s)

  -- `try { … } catch {}` round the start of the approval
  unfoldable pub track_plan : Option (Approvals A) → TrainingPlan → Action (Office A) (Unit {0})
  track_plan none plan s = (ok tt, s)
  track_plan (some engine) plan s =
      let input : StartApprovalInput = record {
        resource_type = "training_plan";
        resource_id = plan.id;
        resource_step = some "submit";
        trigger_key = "submit";
        title = concat "培训计划审批：" plan.title;
        created_by_id = plan.created_by;
      } in
      swallow (link_approval plan.id (put_approvals s (engine.start input s.approvals)))

  unfoldable pub submit_plan_for_approval : Option (Approvals A) → ℕ → Action (Office A) (Unit {0})
  submit_plan_for_approval engine id = do
    plan ← on_db (get_plan_by_id id)
    throw_if (not (is_draft plan.status)) (bad_request "只有草稿状态的培训计划可以提交审批")
    track_plan engine plan
    on_db (set_plan id pending_approval)

  -- The status is not looked at.
  unfoldable pub resubmit_plan_for_approval :
      Option (Approvals A) → ℕ → Action (Office A) (Unit {0})
  resubmit_plan_for_approval engine id = do
    plan ← on_db (get_plan_by_id id)
    on_db (modify (delete_todos (λ t. todo_of approval id t && t.is_pending)))
    track_plan engine plan
    on_db (set_plan id pending_approval)

unfoldable pub handle_approval_completed : ℕ → Action Db (Unit {0})
handle_approval_completed id = do
  plan ← get_plan_by_id id
  modify (update_plan id (λ p. record p { status = approved }))

unfoldable pub handle_approval_rejected : ℕ → Action Db (Unit {0})
handle_approval_rejected id = do
  plan ← get_plan_by_id id
  modify (delete_todos (λ t. todo_of approval id t && t.is_pending))
  modify (update_plan id (λ p. record p { status = draft }))

-- `update({ where: { id } })` in a callback; Prisma rejects when there is no row.
unfoldable pub plan_callback : PlanStatus → ℕ → Action Db (Unit {0})
plan_callback status id = do
  found ← gets (λ s. find_first (plan_is id) s.plans)
  or_throw found (internal "P2025")
  modify (update_plan id (λ p. record p { status = status }))

-- `training.planApproved` and `training.planRejected`
abbrev pub plan_approved : ℕ → Action Db (Unit {0})
plan_approved = plan_callback approved

abbrev pub plan_rejected : ℕ → Action Db (Unit {0})
plan_rejected = plan_callback rejected
