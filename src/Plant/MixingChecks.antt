-- ===== src/Plant/MixingChecks.antt =====
-- What server/src/modules/mixing/mixing.service.ts checks before it writes an execution.
use noidear.Base.{
  ℕ, String, Bool, true, false, not, ◌&&◌, Option, none, some, List, [], ◌==◌, is_some, is_some_of,
  map, dedup, find_first,
}
use noidear.Base.Int.{ℤ}
use noidear.Base.Action.{
  Action, bad_request, not_found, pure, gets, throw_if, or_throw, for_each, ◌>>=◌, ◌>>◌,
}
use noidear.Access.{BatchState, completed, cancelled}
use noidear.Plant.{Plant, Recipe, PlanItem, ShiftType, Stocktake, shift_start, production_batch_is}
use noidear.Plant.Counting.{is_kind, is_settled}

pub record MixingLineInput : Type 0 where
  pub recipe_line_id : ℕ
  pub material_batch_id : ℕ
  pub actual_quantity : ℤ
  pub manual_override : Bool
  pub override_reason : Option String

pub record CreateExecutionDto : Type 0 where
  pub recipe_id : ℕ
  pub product_id : ℕ
  pub area_id : ℕ
  pub shift_type_id : Option ℕ
  pub work_date : ℕ
  pub actual_weight : ℤ
  pub production_batch_id : Option ℕ
  pub lines : List MixingLineInput

abbrev pub recipe_of : CreateExecutionDto → Recipe → Bool
recipe_of dto r = r.id == dto.recipe_id && r.product_id == dto.product_id && r.is_active

abbrev pub shift_is : ℕ → ShiftType → Bool
shift_is id x = x.id == id && x.active

-- The settled count of the batch at the start of the shift.
abbrev is_shift_start : CreateExecutionDto → ℕ → ℕ → Stocktake → Bool
is_shift_start dto shift batch_id t =
    t.area_id == dto.area_id
    && t.batch_id == batch_id
    && is_kind shift_start t.kind
    && t.work_date == dto.work_date
    && t.shift_type_id == shift
    && is_settled t.status

unfoldable pub check_counted : CreateExecutionDto → ℕ → ℕ → Action Plant (Unit {0})
check_counted dto shift batch_id = do
  found ← gets (λ s. find_first (is_shift_start dto shift batch_id) s.stocktakes)
  throw_if (not (is_some found)) (bad_request "物料批次缺少班前盘点，请先完成班前盘点再执行配料")

abbrev pub batch_ids : CreateExecutionDto → List ℕ
batch_ids dto = dedup [] (map (λ (l : MixingLineInput). l.material_batch_id) dto.lines)

unfoldable pub check_shift : CreateExecutionDto → Option ℕ → Action Plant (Unit {0})
check_shift dto none = pure tt
check_shift dto (some shift) = do
  found ← gets (λ s. find_first (shift_is shift) s.shift_types)
  throw_if (not (is_some found)) (bad_request "班次类型不存在或已停用")
  for_each (check_counted dto shift) (batch_ids dto)

abbrev differs : Option ℕ → ℕ → Bool
differs none k = false
differs (some j) k = not (j == k)

abbrev check_item : CreateExecutionDto → Option PlanItem → Action Plant (Unit {0})
check_item dto none = pure tt
check_item dto (some item) = do
  throw_if (not (item.product_id == dto.product_id)) (bad_request "生产计划项产品与配料执行产品不一致")
  throw_if (differs item.recipe_id dto.recipe_id) (bad_request "生产计划项配方与配料执行配方不一致")

unfoldable pub check_plan_item : CreateExecutionDto → Option ℕ → Action Plant (Unit {0})
check_plan_item dto none = pure tt
check_plan_item dto (some id) = do
  found ← gets (λ s. find_first (λ (x : PlanItem). x.id == id) s.plan_items)
  check_item dto found

abbrev is_over : BatchState → Bool
is_over completed = true
is_over cancelled = true
is_over _ = false

-- The production batch that the execution is linked to must be of the same product and recipe.
unfoldable pub check_link : CreateExecutionDto → Option ℕ → Action Plant (Unit {0})
check_link dto none = pure tt
check_link dto (some id) = do
  found ← gets (λ s. find_first (production_batch_is id) s.production_batches)
  batch ← or_throw found (not_found "生产批次不存在")
  throw_if (not (batch.product_id == dto.product_id)) (bad_request "生产批次产品与配料执行产品不一致")
  throw_if (not (is_some_of dto.recipe_id batch.recipe_id)) (bad_request "生产批次配方与配料执行配方不一致")
  throw_if (is_over batch.status) (bad_request "生产批次已完成或已取消，无法关联配料执行")
  check_plan_item dto batch.plan_item_id
