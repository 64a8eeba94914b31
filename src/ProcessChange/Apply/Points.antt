-- ===== src/ProcessChange/Apply/Points.antt =====
-- `applyHaccpChange` of product-process-change.service.ts, with `resolveStepIdForCcp`
use noidear.Base.{
  ℕ, ◌+◌, String, Bool, true, false, not, ◌&&◌, Option, none, some, List, [], ◌∷◌, ◌++◌, ◌==◌,
  str_eq, any, find_first, find_many, is_some_of, if◌then◌else◌, includes, map, update_many, get_or,
}
use noidear.Base.Action.{
  Action, ok, err, bad_request, internal, pure, gets, or_throw, modify, ◌>>=◌, ◌>>◌,
}
use noidear.ProcessChange.{
  Db, Plan, CcpPointInput, CcpPoint, ProcessStep, Artifact, archive, create, update, ResourceType,
  live_step_of,
}
use noidear.ProcessChange.Validate.{has_number}
use noidear.ProcessChange.Apply.Recipes.{collect, artifact}

-- A control point of the company that is linked to a step of the product, both not deleted
abbrev pub is_current : Plan → List ProcessStep → CcpPoint → Bool
is_current plan steps c =
    c.company_id == plan.company_id
    && not c.is_deleted
    && any (λ t. t.id == c.process_step_id && live_step_of plan.product_id t) steps

-- `new Map(…).get(n)`: the last entry counts.
unfoldable pub proposed_for : String → List CcpPointInput → Option CcpPointInput
proposed_for n [] = none
proposed_for n (c ∷ cs) = elim (proposed_for n cs) [
  | none ↦ if has_number n c then some c else none
  | some d ↦ some d
]

abbrev pub step_here : Plan → ℕ → ProcessStep → Bool
step_here plan number t =
    live_step_of plan.product_id t
    && t.step_no == number
    && is_some_of plan.change_event_id t.change_event_id

abbrev pub step_live : Plan → ℕ → ProcessStep → Bool
step_live plan number t = live_step_of plan.product_id t && t.step_no == number

abbrev pub or_found : Option ProcessStep → Option ProcessStep → Option ProcessStep
or_found none o = o
or_found (some t) o = some t

unfoldable pub resolve_step_id_for_ccp : Plan → ℕ → Action Db ProcessStep
resolve_step_id_for_ccp plan number = do
  from_this_change ← gets (λ s. find_first (step_here plan number) s.steps)
  live ← gets (λ s. find_first (step_live plan number) s.steps)
  or_throw (or_found from_this_change live) (bad_request "CCP 找不到对应工序步骤")

abbrev pub ccp_is : ℕ → CcpPoint → Bool
ccp_is k c = c.id == k

abbrev pub put_point : ℕ → CcpPointInput → CcpPoint → CcpPoint
put_point step_id next c = record c {
  process_step_id = step_id;
  hazard_type = next.hazard_type;
  control_measure = next.control_measure;
  critical_limit = next.critical_limit;
  cl_min = next.cl_min;
  cl_max = next.cl_max;
}

unfoldable pub update_point : Plan → CcpPoint → Action Db Artifact
update_point plan old = do
  next ← or_throw (proposed_for old.ccp_no plan.payload.ccp_points) (internal "undefined")
  step ← resolve_step_id_for_ccp plan next.step_no
  modify (λ s. record s { ccps = update_many (ccp_is old.id) (put_point step.id next) s.ccps })
  pure (artifact ResourceType.ccp_point update old.id)

abbrev pub new_point : Plan → ℕ → CcpPointInput → ℕ → CcpPoint
new_point plan step_id fresh id = record {
  id = id;
  company_id = plan.company_id;
  process_step_id = step_id;
  ccp_no = get_or fresh.ccp_no "";
  hazard_type = fresh.hazard_type;
  control_measure = fresh.control_measure;
  critical_limit = fresh.critical_limit;
  cl_min = fresh.cl_min;
  cl_max = fresh.cl_max;
  is_deleted = false;
}

-- A row of the company with the number, also a deleted one, makes the unique index refuse a new row.
abbrev pub takes_number : ℕ → String → CcpPoint → Bool
takes_number company_id n c = c.company_id == company_id && str_eq c.ccp_no n

unfoldable pub insert_point : Plan → CcpPointInput → ℕ → Action Db Artifact
insert_point plan fresh step_id s =
    if any (takes_number plan.company_id (get_or fresh.ccp_no "")) s.ccps
    then (err (internal "P2002"), s)
    else (
      ok (artifact ResourceType.ccp_point create s.next_id),
      record s {
        ccps = s.ccps ++ new_point plan step_id fresh s.next_id ∷ [];
        next_id = s.next_id + 1;
      },
    )

unfoldable pub create_point : Plan → CcpPointInput → Action Db Artifact
create_point plan fresh = do
  step ← resolve_step_id_for_ccp plan fresh.step_no
  insert_point plan fresh step.id

abbrev pub is_proposed : Plan → CcpPoint → Bool
is_proposed plan c = any (has_number c.ccp_no) plan.payload.ccp_points

abbrev pub is_new : List CcpPoint → CcpPointInput → Bool
is_new current c = not (any (λ old. has_number old.ccp_no c) current)

abbrev pub delete_point : CcpPoint → CcpPoint
delete_point c = record c { is_deleted = true }

-- The proposed points become the whole set. The points to be deleted are taken by their ids.
unfoldable pub apply_haccp_change : Plan → Action Db (List Artifact)
apply_haccp_change plan = do
  current ← gets (λ s. find_many (is_current plan s.steps) s.ccps)
  let to_delete = find_many (λ c. not (is_proposed plan c)) current
  let to_update = find_many (is_proposed plan) current
  let to_create = find_many (is_new current) plan.payload.ccp_points
  modify (λ s. record s {
    ccps = update_many (λ c. includes c.id (map (λ d. d.id) to_delete)) delete_point s.ccps;
  })
  updated ← collect (update_point plan) to_update
  created ← collect (create_point plan) to_create
  pure (map (λ c. artifact ResourceType.ccp_point archive c.id) to_delete ++ (updated ++ created))
