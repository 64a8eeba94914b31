-- ===== src/ProcessChange/Validate.antt =====
-- `validatePayload` and `validateComplianceGates` of product-process-change.service.ts; they write
-- nothing.
use noidear.Base.{
  ℕ, String, Bool, true, false, not, ◌&&◌, Option, none, some, List, [], ◌∷◌, ◌==◌, str_eq, any,
  find_first, find_many, is_some, dedup, length, if◌then◌else◌, includes, ltb,
}
use noidear.Base.Action.{Action, ok, err, bad_request, pure, gets, throw_if, for_each, ◌>>=◌, ◌>>◌}
use noidear.ProcessChange.{
  Db, Plan, Scope, RecipeLineInput, ProcessStepInput, CcpPointInput, CcpPoint, has_scope, process,
  haccp, trial, label, allergen, nutrition, origin, shelf_life, regulatory, product_is, active_of,
}

abbrev pub is_none {ℓ} : {A : Type ℓ} → Option A → Bool
is_none o = not (is_some o)

abbrev pub is_empty {ℓ} : {A : Type ℓ} → List A → Bool
is_empty [] = true
is_empty (_ ∷ _) = false

-- `!value` on a number that may be missing
abbrev pub is_falsy : Option ℕ → Bool
is_falsy none = true
is_falsy (some n) = n == 0

module _ {X : Type 0} where
  -- The fields that are there: `xs.map(f).filter(Boolean)`
  unfoldable pub given : (X → Option ℕ) → List X → List ℕ
  given f [] = []
  given f (x ∷ xs) = elim (f x) [ none ↦ given f xs | some k ↦ k ∷ given f xs ]

unfoldable pub check_line : RecipeLineInput → Action Db (Unit {0})
check_line line = do
  throw_if (is_none line.material_id) (bad_request "配方行物料不能为空")
  throw_if (is_falsy line.qty_per_batch) (bad_request "配方行用量不能为空")
  throw_if (is_none line.unit) (bad_request "配方行单位不能为空")
  throw_if (is_none line.area_id) (bad_request "配方行配料区不能为空")

-- How many of the ids, each taken once, are in the table?
abbrev pub all_known : List ℕ → List ℕ → Bool
all_known ids table =
    let once = dedup [] ids in length (find_many (λ k. includes k once) table) == length once

abbrev pub material_of : RecipeLineInput → Option ℕ
material_of l = l.material_id

abbrev area_of : RecipeLineInput → Option ℕ
area_of l = l.area_id

unfoldable pub validate_recipe : Plan → Action Db (Unit {0})
validate_recipe plan = do
  let lines = plan.payload.recipe_lines
  throw_if (is_empty lines) (bad_request "配方行不能为空")
  for_each check_line lines
  materials ← gets (λ s. s.materials)
  throw_if (not (all_known (given material_of lines) materials)) (bad_request "配方行物料不存在")
  areas ← gets (λ s. s.areas)
  throw_if (not (all_known (given area_of lines) areas)) (bad_request "配方行配料区不存在")
  active_recipe ← gets (λ s. find_first (active_of plan.product_id) s.recipes)
  throw_if (is_falsy plan.payload.base_recipe_version && is_none active_recipe)
      (bad_request "当前产品无生效配方，请先指定基线版本")

-- The loop over the steps, with the numbers seen so far
unfoldable pub check_steps : List ℕ → List ProcessStepInput → Action Db (Unit {0})
check_steps seen [] s = (ok tt, s)
check_steps seen (step ∷ steps) s =
    let rest = λ (n : ℕ). check_steps (n ∷ seen) steps s in
    elim step.step_no [
      | none ↦ (err (bad_request "工艺步骤序号不能为空"), s)
      | some n ↦ if includes n seen then (err (bad_request "工艺步骤序号重复"), s) else rest n
    ]

unfoldable pub validate_process : Plan → Action Db (Unit {0})
validate_process plan = do
  throw_if (is_empty plan.payload.process_steps) (bad_request "工艺步骤不能为空")
  check_steps [] plan.payload.process_steps

abbrev pub has_number : String → CcpPointInput → Bool
has_number n c = elim c.ccp_no [ none ↦ false | some m ↦ str_eq m n ]

unfoldable pub check_ccp : CcpPointInput → Action Db (Unit {0})
check_ccp ccp = do
  throw_if (ltb ccp.step_no 1) (bad_request "CCP 编号不能为空")
  throw_if (is_none ccp.ccp_no) (bad_request "CCP 编号不能为空")
  throw_if (is_none ccp.hazard_type) (bad_request "CCP 危害类型不合法")
  throw_if (is_none ccp.control_measure) (bad_request "CCP 控制措施不能为空")
  throw_if (is_none ccp.critical_limit) (bad_request "CCP 临界值不能为空")

abbrev pub is_repeated : CcpPointInput → List CcpPointInput → Bool
is_repeated ccp seen = any (λ c. elim ccp.ccp_no [ none ↦ false | some n ↦ has_number n c ]) seen

-- The loop over the control points, with those seen so far
unfoldable pub check_ccps : List CcpPointInput → List CcpPointInput → Action Db (Unit {0})
check_ccps seen [] = pure tt
check_ccps seen (ccp ∷ ccps) =
    (check_ccp ccp >> throw_if (is_repeated ccp seen) (bad_request "CCP 编号重复"))
    >> check_ccps (ccp ∷ seen) ccps

-- A row that has been archived under one of the proposed numbers
abbrev pub archived_hit : ℕ → List CcpPointInput → CcpPoint → Bool
archived_hit company_id proposed c =
    c.company_id == company_id && any (has_number c.ccp_no) proposed && c.is_deleted

unfoldable pub validate_haccp : Plan → Action Db (Unit {0})
validate_haccp plan = do
  let points = plan.payload.ccp_points
  throw_if (is_empty points) (bad_request "CCP 控制点不能为空")
  check_ccps [] points
  hit ← gets (λ s. any (archived_hit plan.company_id points) s.ccps)
  throw_if hit (bad_request "CCP 编号已被归档不可复用，请先在归档区改名后重试")

abbrev pub when : Bool → Action Db (Unit {0}) → Action Db (Unit {0})
when true m = m
when false m = pure tt

unfoldable pub validate_payload : Plan → Action Db (Unit {0})
validate_payload plan = do
  product ← gets (λ s. find_first (product_is plan.product_id) s.products)
  throw_if (is_none product) (bad_request "产品不存在或已删除")
  when (has_scope Scope.recipe plan.scopes) (validate_recipe plan)
  when (has_scope process plan.scopes) (validate_process plan)
  when (has_scope haccp plan.scopes) (validate_haccp plan)

abbrev pub is_label_scope : Scope → Bool
is_label_scope label = true
is_label_scope allergen = true
is_label_scope nutrition = true
is_label_scope origin = true
is_label_scope shelf_life = true
is_label_scope regulatory = true
is_label_scope _ = false

abbrev pub is_verified_scope : Scope → Bool
is_verified_scope Scope.recipe = true
is_verified_scope process = true
is_verified_scope trial = true
is_verified_scope _ = false

unfoldable pub validate_compliance_gates : Plan → Action Db (Unit {0})
validate_compliance_gates plan = do
  reviewed ← gets (λ s. includes plan.change_event_id s.compliance_records)
  throw_if (any is_label_scope plan.scopes && not reviewed) (bad_request "标签/过敏原/法规合规审查记录不能为空")
  verified ← gets (λ s. includes plan.change_event_id s.verification_records)
  throw_if (any is_verified_scope plan.scopes && not verified) (bad_request "配方/工艺/试产验证记录不能为空")
