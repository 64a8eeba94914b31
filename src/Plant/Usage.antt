-- ===== src/Plant/Usage.antt =====
-- Material used by a production batch: server/src/modules/batch-trace/services/
-- material-usage.service.ts and the writer of batch-material-usage.service.ts for mixing.
pub mod Books
pub mod Undo
pub mod BatchMaterialUsage
use noidear.Base.{
  ℕ, ◌+◌, String, Bool, true, false, not, ◌&&◌, Option, none, some, List, [], ◌∷◌, ◌++◌, ◌==◌,
  is_some, find_first, find_many, is_some_of,
}
use noidear.Base.Int.{ℤ, ltb_ℤ}
use noidear.Base.Action.{
  Action, ok, bad_request, not_found, forbidden, pure, gets, throw, throw_if, or_throw, modify,
  transaction, ◌>>=◌, ◌>>◌,
}
use noidear.Access.{
  OwnershipContext, RoleCode, admin, ProductionBatch, includes, visible_production_batch_ids,
}
use noidear.Warehouse.Model.{Db, Batch, BatchStatus, normal, Usage, batch_is}
use noidear.Warehouse.Stocks.{take_batch}
use noidear.Warehouse.Slips.{update_batch, add_batch}
use noidear.Plant.{Plant, RecipeLine, on_stock, production_batch_is}

pub record CreateUsageDto : Type 0 where
  pub production_batch_id : ℕ
  pub material_batch_id : ℕ
  pub recipe_line_id : ℕ
  pub quantity : ℤ

abbrev pub is_admin : RoleCode → Bool
is_admin admin = true
is_admin _ = false

abbrev pub hidden_from : Option (List ℕ) → ℕ → Bool
hidden_from none k = false
hidden_from (some ids) k = not (includes k ids)

-- May the caller use the production batch?
unfoldable pub check_ownership : Option OwnershipContext → ℕ → Action Plant (Unit {0})
check_ownership none production_batch_id = pure tt
check_ownership (some o) production_batch_id = do
  visible_ids ← gets (λ s. visible_production_batch_ids s.users s.production_batches o)
  throw_if (not (is_admin o.role_code) && hidden_from visible_ids production_batch_id)
      (forbidden "Production batch not accessible")

abbrev pub line_of : ℕ → ℕ → RecipeLine → Bool
line_of id recipe_id line = line.id == id && line.recipe_id == recipe_id

abbrev pub is_normal : BatchStatus → Bool
is_normal normal = true
is_normal _ = false

-- The rows that `create` may go on with.
unfoldable pub check_usage : CreateUsageDto → Action Plant RecipeLine
check_usage dto = do
  found ← gets (λ s. find_first (production_batch_is dto.production_batch_id) s.production_batches)
  production_batch ← or_throw found (not_found "生产批次不存在")
  recipe_id ← or_throw production_batch.recipe_id (bad_request "生产批次未关联配方")
  found_line ← gets (λ s. find_first (line_of dto.recipe_line_id recipe_id) s.recipe_lines)
  recipe_line ← or_throw found_line (bad_request "配方明细不存在或不属于该生产批次配方")
  found_batch ← gets (λ s. find_first (batch_is dto.material_batch_id) s.stock.batches)
  material_batch ← or_throw found_batch (not_found "原料批次不存在")
  throw_if (not (material_batch.material_id == recipe_line.material_id))
      (bad_request "物料批次对应物料与配方明细不一致")
  throw_if (not (is_normal material_batch.status)) (bad_request "原料批次状态不可用，仅允许投料 normal 状态批次")
  throw_if (ltb_ℤ material_batch.quantity dto.quantity) (bad_request "原料批次库存不足")
  pure recipe_line

abbrev pub new_usage : CreateUsageDto → RecipeLine → ℕ → Usage
new_usage dto recipe_line id = record {
  id = id;
  production_batch_id = dto.production_batch_id;
  material_batch_id = dto.material_batch_id;
  recipe_line_id = some dto.recipe_line_id;
  area_id = recipe_line.area_id;
  area_name_snapshot = recipe_line.area_name_snapshot;
  quantity = dto.quantity;
  execution_line_id = none;
}

abbrev pub add_usage : (ℕ → Usage) → Action Plant Usage
add_usage fresh s = (
  ok (fresh s.next_id),
  record s {
    stock = record s.stock { usages = s.stock.usages ++ fresh s.next_id ∷ [] };
    next_id = s.next_id + 1;
  },
)

-- The transaction of `create`.
unfoldable pub write_usage : CreateUsageDto → RecipeLine → Action Plant Usage
write_usage dto recipe_line = do
  usage ← add_usage (new_usage dto recipe_line)
  on_stock (update_batch dto.material_batch_id (take_batch dto.quantity))
  pure usage

unfoldable pub create : CreateUsageDto → Option OwnershipContext → Action Plant Usage
create dto ownership = do
  check_ownership ownership dto.production_batch_id
  recipe_line ← check_usage dto
  transaction (write_usage dto recipe_line)

abbrev pub usage_is : ℕ → Usage → Bool
usage_is k u = u.id == k

abbrev pub delete_usage : ℕ → Db → Db
delete_usage id s = record s { usages = find_many (λ u. not (usage_is id u)) s.usages }

-- A usage that mixing wrote is a fact of the trace and stays.
unfoldable pub remove : ℕ → Action Plant (Unit {0})
remove id = do
  found ← gets (λ s. find_first (usage_is id) s.stock.usages)
  usage ← or_throw found (not_found "关联记录不存在")
  throw_if (is_some usage.execution_line_id) (
      forbidden
        "Auto-generated trace-bridge material usage cannot be deleted; reversals must go through a dedicated correction flow")
  transaction (
      on_stock do
        update_batch usage.material_batch_id (add_batch usage.quantity)
        modify (delete_usage id))
