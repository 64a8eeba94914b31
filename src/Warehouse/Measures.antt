-- ===== src/Warehouse/Measures.antt =====
-- Sums over the stock tables for one batch, and how the statements on the tables change them.
use noidear.Base.{ℕ, Bool, true, false, ◌==◌, if◌then◌else◌, sum_by}
use noidear.Base.Int.{ℤ, pos, ◌-ℤ◌}
use noidear.Warehouse.Model.{
  Db, Batch, Stock, StockRecord, RecordType, stock_in, stock_out, stock_return, stock_scrap, Usage,
  Movement, MovementType, receive, issue_to_production, return_to_warehouse, scrap, transfer,
  adjustment,
}

abbrev pub part : ℕ → ℕ → ℤ → ℤ
part k j q = if j == k then q else pos 0

abbrev pub batch_part : ℕ → Batch → ℤ
batch_part k b = part k b.id b.quantity

abbrev pub stock_part : ℕ → Stock → ℤ
stock_part k r = part k r.batch_id r.quantity

abbrev pub usage_part : ℕ → Usage → ℤ
usage_part k u = part k u.material_batch_id u.quantity

abbrev pub is_type : RecordType → RecordType → Bool
is_type stock_in stock_in = true
is_type stock_out stock_out = true
is_type stock_return stock_return = true
is_type stock_scrap stock_scrap = true
is_type _ _ = false

abbrev pub record_part : RecordType → ℕ → StockRecord → ℤ
record_part t k r = if is_type t r.record_type then part k r.batch_id r.quantity else pos 0

-- What the warehouse holds of a batch.
unfoldable pub hand : ℕ → Db → ℤ
hand k s = sum_by (batch_part k) s.batches

-- What the staging areas hold of it.
unfoldable pub staged : ℕ → Db → ℤ
staged k s = sum_by (stock_part k) s.staging

-- What the stock records of one type say of it, and the usage rows.
unfoldable pub recorded : RecordType → ℕ → Db → ℤ
recorded t k s = sum_by (record_part t k) s.stock_records

unfoldable pub used : ℕ → Db → ℤ
used k s = sum_by (usage_part k) s.usages

-- The change that a ledger row stands for: what comes in, less what goes out.
abbrev pub signed : MovementType → ℤ → ℤ
signed receive q = q
signed return_to_warehouse q = q
signed issue_to_production q = pos 0 -ℤ q
signed scrap q = pos 0 -ℤ q
signed transfer q = pos 0
signed adjustment q = q

abbrev pub movement_part : ℕ → Movement → ℤ
movement_part k m = part k m.object_id (signed m.movement_type m.qty)

-- What the movement ledger says that the warehouse holds, up to where it began.
unfoldable pub ledger : ℕ → Db → ℤ
ledger k s = sum_by (movement_part k) s.movements
