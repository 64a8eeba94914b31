-- ===== src/Warehouse/Stocks.antt =====
-- The statements on the stock tables that the warehouse services share.
use noidear.Base.{
  ℕ, ◌+◌, String, Bool, not, ◌&&◌, Option, none, some, [], ◌∷◌, ◌++◌, ◌==◌, if◌then◌else◌, is_some,
  update_many, find_first, count,
}
use noidear.Base.Int.{ℤ, ◌+ℤ◌, ◌-ℤ◌, leb_ℤ}
use noidear.Base.Action.{Action, ok, err, bad_request}
use noidear.Warehouse.Model.{Db, Batch, Stock, StockRecord, batch_is, stock_is, is_text}

-- `updateMany({ where: { id, quantity: { gte: q } }, data: { quantity: { decrement: q } } })`
abbrev pub has_quantity : ℕ → ℤ → Batch → Bool
has_quantity batch_id q b = batch_is batch_id b && leb_ℤ q b.quantity

abbrev pub take_batch : ℤ → Batch → Batch
take_batch q b = record b { quantity = b.quantity -ℤ q }

unfoldable pub debit_batch : ℕ → ℤ → Action Db (Unit {0})
debit_batch batch_id q s =
    if count (has_quantity batch_id q) s.batches == 0
    then (
      if is_some (find_first (batch_is batch_id) s.batches)
          then err (bad_request "物料批次库存不足")
          else err (bad_request "物料批次不存在"),
      s,
    )
    else (
      ok tt,
      record s { batches = update_many (has_quantity batch_id q) (take_batch q) s.batches },
    )

-- The staging row of a batch in a zone that belongs to no mixing area.
abbrev pub zone_row : ℕ → String → Stock → Bool
zone_row batch_id zone r =
    r.batch_id == batch_id && is_text zone r.location && not (is_some r.area_id)

abbrev pub add_stock : ℤ → Stock → Stock
add_stock q r = record r { quantity = r.quantity +ℤ q }

abbrev pub new_stock : ℕ → ℕ → ℕ → Option ℕ → String → ℤ → Stock
new_stock now id batch_id area_id location q = record {
  id = id;
  batch_id = batch_id;
  area_id = area_id;
  location = some location;
  quantity = q;
  created_at = now;
}

-- Add to the row that was found, or create one.
unfoldable pub upsert_stock : Option Stock → ℤ → (ℕ → Stock) → Db → Db
upsert_stock (some r) q fresh s = record s {
  staging = update_many (stock_is r.id) (add_stock q) s.staging;
}
upsert_stock none q fresh s = record s {
  staging = s.staging ++ fresh s.next_id ∷ [];
  next_id = s.next_id + 1;
}

unfoldable pub credit_zone : ℕ → ℕ → String → ℤ → Db → Db
unfolding upsert_stock
credit_zone now batch_id zone q s =
    upsert_stock (find_first (zone_row batch_id zone) s.staging) q
      (λ id. new_stock now id batch_id none zone q) s

abbrev pub add_record : StockRecord → Db → Db
add_record r s = record s { stock_records = s.stock_records ++ r ∷ [] }
