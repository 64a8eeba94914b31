-- ===== src/Plant/Mixing.antt =====
-- server/src/modules/mixing/mixing.service.ts, and `createFromMixingLine` of
-- server/src/modules/batch-trace/services/batch-material-usage.service.ts. `now` is `new Date()`.
pub mod Traced
pub mod Conserves
use noidear.Base.{
  ℕ, zero, suc, ◌+◌, String, Bool, true, false, not, ◌&&◌, ◌||◌, Option, none, some, List, [], ◌∷◌,
  ◌++◌, ◌==◌, is_some, is_some_of, any, map, length, dedup, count, find_first, find_many,
  update_many, if◌then◌else◌, str_eq,
}
use noidear.Base.Int.{ℤ, pos, ◌+ℤ◌, ◌-ℤ◌, leb_ℤ}
use noidear.Base.Action.{
  Action, Error, Result, ok, err, bad_request, not_found, conflict, internal, pure, gets, throw,
  throw_if, or_throw, modify, transaction, for_each, ◌>>=◌, ◌>>◌,
}
use noidear.Access.{ProductionBatch, BatchState}
use noidear.Warehouse.Model.{Db, Batch, Stock, Usage, batch_is, stock_is}
use noidear.Plant.{
  Plant, Recipe, RecipeLine, PlanItem, ShiftType, Stocktake, StocktakeKind, shift_start, Execution,
  ExecutionLine, production_batch_is, day_of, on_stock,
}
use noidear.Plant.Counting.{is_kind, is_settled}
use noidear.Plant.MixingChecks.{
  MixingLineInput, CreateExecutionDto, recipe_of, check_shift, check_link,
}
use noidear.Plant.Usage.{line_of}
use noidear.Plant.Staging.{in_area}

-- The number is the day and one more than the number of that day's executions.
unfoldable pub generate_execution_no : ℕ → Plant → ℕ × ℕ
generate_execution_no work_date s = (
  day_of work_date,
  count (λ (e : Execution). day_of e.work_date == day_of work_date) s.executions + 1,
)

abbrev same_no : ℕ × ℕ → Execution → Bool
same_no n e = e.execution_no.0 == n.0 && e.execution_no.1 == n.1

abbrev new_execution : ℕ → CreateExecutionDto → Option ℕ → ℕ × ℕ → ℕ → Execution
new_execution now dto operator_id number id = record {
  id = id;
  execution_no = number;
  recipe_id = dto.recipe_id;
  product_id = dto.product_id;
  area_id = dto.area_id;
  shift_type_id = dto.shift_type_id;
  work_date = dto.work_date;
  actual_weight = some dto.actual_weight;
  confirmed_at = now;
  operator_id = operator_id;
  production_batch_id = dto.production_batch_id;
}

abbrev number_taken : Error
number_taken = internal "P2002"

-- The column `executionNo` is unique.
unfoldable pub add_execution : ℕ → CreateExecutionDto → Option ℕ → Action Plant ℕ
add_execution now dto operator_id = do
  number ← gets (generate_execution_no dto.work_date)
  taken ← gets (λ s. any (same_no number) s.executions)
  throw_if taken number_taken
  id ← gets (λ s. s.next_id)
  modify (λ s. record s {
    executions = s.executions ++ new_execution now dto operator_id number id ∷ [];
    next_id = suc s.next_id;
  })
  pure id

-- `updateMany({ where: { id, quantity: { gte: q } }, data: { quantity: { decrement: q } } })`
abbrev pub has_stock : ℕ → ℤ → Stock → Bool
has_stock id q r = stock_is id r && leb_ℤ q r.quantity

abbrev pub take_stock : ℤ → Stock → Stock
take_stock q r = record r { quantity = r.quantity -ℤ q }

unfoldable pub consume_stock : Stock → ℤ → Action Db (Unit {0})
consume_stock stock q = do
  changed ← gets (λ s. count (has_stock stock.id q) s.staging)
  modify (λ s. record s { staging = update_many (has_stock stock.id q) (take_stock q) s.staging })
  throw_if (not (changed == 1)) (bad_request "配料区库存不足或已被并发占用")

abbrev pub new_line : MixingLineInput → RecipeLine → ℕ → Stock → ℕ → ExecutionLine
new_line input recipe_line execution_id stock id = record {
  id = id;
  execution_id = execution_id;
  recipe_line_id = input.recipe_line_id;
  material_id = recipe_line.material_id;
  material_batch_id = input.material_batch_id;
  staging_area_stock_id = stock.id;
  planned_quantity = recipe_line.qty_per_batch;
  actual_quantity = input.actual_quantity;
  fifo_suggested = not input.manual_override;
  manual_override = input.manual_override;
  override_reason = input.override_reason;
}

unfoldable pub add_line : MixingLineInput → RecipeLine → ℕ → Stock → Action Plant ℕ
add_line input recipe_line execution_id stock = do
  id ← gets (λ s. s.next_id)
  modify (λ s. record s {
    execution_lines = s.execution_lines ++ new_line input recipe_line execution_id stock id ∷ [];
    next_id = suc s.next_id;
  })
  pure id

abbrev pub mixing_usage : CreateExecutionDto → MixingLineInput → ℕ → ℕ → ℕ → Usage
mixing_usage dto input production_batch_id line_id id = record {
  id = id;
  production_batch_id = production_batch_id;
  material_batch_id = input.material_batch_id;
  recipe_line_id = some input.recipe_line_id;
  area_id = some dto.area_id;
  area_name_snapshot = none;
  quantity = input.actual_quantity;
  execution_line_id = some line_id;
}

-- `createFromMixingLine`, when a production batch is linked.
unfoldable pub create_from_mixing_line :
    CreateExecutionDto → MixingLineInput → Option ℕ → ℕ → Plant → Plant
create_from_mixing_line dto input none line_id s = s
create_from_mixing_line dto input (some production_batch_id) line_id s = record s {
  stock = record s.stock {
    usages = s.stock.usages ++ mixing_usage dto input production_batch_id line_id s.next_id ∷ [];
  };
  next_id = suc s.next_id;
}

-- One line of the execution: the row of the area is found, checked and decremented.
unfoldable pub execute_line : CreateExecutionDto → ℕ → MixingLineInput → Action Plant (Unit {0})
execute_line dto execution_id input = do
  found_line ← gets (λ s. find_first (line_of input.recipe_line_id dto.recipe_id) s.recipe_lines)
  recipe_line ← or_throw found_line (bad_request "配方明细不存在")
  found_stock ← gets (λ s. find_first (in_area input.material_batch_id dto.area_id) s.stock.staging)
  stock ← or_throw found_stock (bad_request "配料区无该原辅料批次")
  found_batch ← gets (λ s. find_first (batch_is stock.batch_id) s.stock.batches)
  batch ← or_throw found_batch (internal "missing batch")
  throw_if (not (batch.material_id == recipe_line.material_id)) (bad_request "原辅料批次与配方物料不一致")
  on_stock (consume_stock stock input.actual_quantity)
  line_id ← add_line input recipe_line execution_id stock
  modify (create_from_mixing_line dto input dto.production_batch_id line_id)

-- `_doCreateExecution`
unfoldable pub do_create_execution : ℕ → CreateExecutionDto → Option ℕ → Action Plant ℕ
do_create_execution now dto operator_id = do
  found ← gets (λ s. find_first (recipe_of dto) s.recipes)
  throw_if (not (is_some found)) (bad_request "配方与产品不匹配或配方未启用")
  check_shift dto dto.shift_type_id
  check_link dto dto.production_batch_id
  execution_id ← add_execution now dto operator_id
  for_each (execute_line dto execution_id) dto.lines
  pure execution_id

abbrev is_taken : Error → Bool
is_taken (internal m) = str_eq m "P2002"
is_taken _ = false

-- The loop of three attempts, of which `left` are left after the first one fails.
unfoldable pub create_attempts : ℕ → ℕ → CreateExecutionDto → Option ℕ → Action Plant ℕ
create_attempts zero now dto operator_id s = (err (conflict "执行号生成冲突，请重试"), s)
create_attempts (suc left) now dto operator_id s =
    retry (transaction (do_create_execution now dto operator_id) s)
      (create_attempts left now dto operator_id)
  where
    retry : Result ℕ × Plant → Action Plant ℕ → Result ℕ × Plant
    retry (ok id, t) again = (ok id, t)
    retry (err e, t) again = if is_taken e then again t else (err e, t)

abbrev line_ids : CreateExecutionDto → List ℕ
line_ids dto = map (λ (l : MixingLineInput). l.recipe_line_id) dto.lines

-- `new Set(ids).size !== ids.length`
abbrev pub has_repeats : CreateExecutionDto → Bool
has_repeats dto = not (length (dedup [] (line_ids dto)) == length (line_ids dto))

unfoldable pub create_execution : ℕ → CreateExecutionDto → Option ℕ → Action Plant ℕ
create_execution now dto operator_id = do
  throw_if (has_repeats dto) (bad_request "配方明细存在重复项")
  create_attempts 3 now dto operator_id
