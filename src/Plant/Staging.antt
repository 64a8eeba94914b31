-- ===== src/Plant/Staging.antt =====
-- The staging areas of the workshop: server/src/modules/warehouse/staging-area.service.ts. `now` is
-- the time that the code reads from the clock. A quantity is a number of millionths.
pub mod Places
pub mod Moves
use noidear.Base.{
  ℕ, suc, String, Bool, true, false, not, ◌&&◌, ◌||◌, ltb, leb, Option, none, some, List, [], ◌∷◌,
  ◌++◌, ◌==◌, is_some, is_some_of, any, find_first, update_many, str_eq, if◌then◌else◌,
}
use noidear.Base.Int.{ℤ, pos, ◌+ℤ◌, ◌-ℤ◌, leb_ℤ, ltb_ℤ}
use noidear.Base.Action.{
  Action, bad_request, not_found, pure, gets, throw, throw_if, or_throw, modify, transaction, ◌>>=◌,
  ◌>>◌, ok,
}
use noidear.Warehouse.Model.{Db, Stock, batch_is, stock_is, is_text}
use noidear.Warehouse.Stocks.{add_stock, new_stock, upsert_stock}
use noidear.Plant.{
  Plant, WorkshopArea, StagingRecord, StagingRecordType, opening, staging, Transfer, on_stock,
}

abbrev pub workshop_zones : List String
workshop_zones = "筛粉间" ∷ "称油间" ∷ "小料房" ∷ []

abbrev pub is_zone : String → Bool
is_zone zone = any (str_eq zone) workshop_zones

-- `findFirst({ where: { batchId, location } })`, in whatever area
abbrev pub at_location : ℕ → String → Stock → Bool
at_location batch_id zone r = r.batch_id == batch_id && is_text zone r.location

-- The row with the unique key (batchId, area_id).
abbrev pub in_area : ℕ → ℕ → Stock → Bool
in_area batch_id area_id r = r.batch_id == batch_id && is_some_of area_id r.area_id

abbrev pub set_quantity : ℤ → Stock → Stock
set_quantity q r = record r { quantity = q }

abbrev pub set_row : ℕ → (Stock → Stock) → Db → Db
set_row id f s = record s { staging = update_many (stock_is id) f s.staging }

pub record StageToZoneDto : Type 0 where
  pub batch_id : ℕ
  pub quantity : ℤ
  pub zone : String

unfoldable pub stage_to_zone : ℕ → StageToZoneDto → Action Db (Unit {0})
stage_to_zone now dto = do
  throw_if (not (is_zone dto.zone)) (bad_request "无效区域")
  found ← gets (λ s. find_first (batch_is dto.batch_id) s.batches)
  batch ← or_throw found (not_found "批次不存在")
  throw_if (leb_ℤ dto.quantity (pos 0)) (bad_request "数量必须大于 0")
  existing ← gets (λ s. find_first (at_location dto.batch_id dto.zone) s.staging)
  modify (
      upsert_stock existing dto.quantity
        (λ id. new_stock now id dto.batch_id none dto.zone dto.quantity))

pub record TransferDto : Type 0 where
  pub stock_id : ℕ
  pub to_zone : String
  pub quantity : ℤ
  pub operator_id : ℕ
  pub note : Option String

-- `quantity <= 0 || quantity > available`
abbrev pub is_bad_quantity : ℤ → ℤ → Bool
is_bad_quantity q available = leb_ℤ q (pos 0) || ltb_ℤ available q

-- The transfer's transaction: take from the source, add to the target, which may be a new row.
unfoldable pub move_stock : ℕ → TransferDto → Stock → Action Db (Unit {0})
move_stock now dto stock = do
  modify (set_row dto.stock_id (set_quantity (stock.quantity -ℤ dto.quantity)))
  target ← gets (λ s. find_first (at_location stock.batch_id dto.to_zone) s.staging)
  modify (
      upsert_stock target dto.quantity
        (λ id. new_stock now id stock.batch_id none dto.to_zone dto.quantity))

abbrev transfer_row : TransferDto → Stock → Transfer
transfer_row dto stock = record {
  stock_id = dto.stock_id;
  batch_id = stock.batch_id;
  from_zone = stock.location;
  to_zone = dto.to_zone;
  quantity = dto.quantity;
  operator_id = dto.operator_id;
  note = dto.note;
}

unfoldable pub write_transfer : ℕ → TransferDto → Stock → Action Plant Transfer
write_transfer now dto stock = do
  on_stock (move_stock now dto stock)
  modify (λ s. record s { transfers = s.transfers ++ transfer_row dto stock ∷ [] })
  pure (transfer_row dto stock)

unfoldable pub transfer_zone : ℕ → TransferDto → Action Plant Transfer
transfer_zone now dto = do
  throw_if (not (is_zone dto.to_zone)) (bad_request "无效目标区域")
  found ← gets (λ s. find_first (stock_is dto.stock_id) s.stock.staging)
  stock ← or_throw found (not_found "暂存记录不存在")
  throw_if (is_text dto.to_zone stock.location) (bad_request "来源区域与目标区域相同")
  throw_if (is_bad_quantity dto.quantity stock.quantity) (bad_request "迁移数量无效")
  transaction (write_transfer now dto stock)

unfoldable pub dispense_from_zone : ℕ → ℤ → Action Db Stock
dispense_from_zone stock_id quantity = do
  found ← gets (λ s. find_first (stock_is stock_id) s.staging)
  stock ← or_throw found (not_found "暂存记录不存在")
  throw_if (is_bad_quantity quantity stock.quantity) (bad_request "发放数量无效")
  modify (set_row stock_id (set_quantity (stock.quantity -ℤ quantity)))
  pure (set_quantity (stock.quantity -ℤ quantity) stock)

abbrev pub is_opening : StagingRecordType → Bool
is_opening opening = true
is_opening _ = false

abbrev pub set_found : Option Stock → ℤ → Db → Db
set_found none q s = s
set_found (some r) q s = set_row r.id (set_quantity q) s

abbrev add_staging_record : StagingRecord → Plant → Plant
add_staging_record r s = record s { staging_records = s.staging_records ++ r ∷ [] }

-- A count of the stock: an opening count is only recorded, any other count sets the quantity of
-- the first staging row of the batch.
unfoldable pub record_inventory : StagingRecord → Action Plant StagingRecord
record_inventory r s =
    let found =
      if is_opening r.record_type
      then none
      else find_first (λ (x : Stock). x.batch_id == r.batch_id) s.stock.staging in
    (ok r, record (add_staging_record r s) { stock = set_found found r.quantity s.stock })

abbrev pub area_is : ℕ → WorkshopArea → Bool
area_is id a = a.id == id && a.is_active

pub record StageToAreaDto : Type 0 where
  pub batch_id : ℕ
  pub area_id : ℕ
  pub quantity : ℤ
  pub operator_id : Option ℕ

abbrev pub add_named : String → ℤ → Stock → Stock
add_named name q r = record (add_stock q r) { location = some name }

-- `upsert` by the unique key; the row takes the area's name again.
unfoldable pub upsert_area : ℕ → StageToAreaDto → String → Option Stock → Db → Db
upsert_area now dto name (some r) s = set_row r.id (add_named name dto.quantity) s
upsert_area now dto name none s = record s {
  staging =
      s.staging ++ new_stock now s.next_id dto.batch_id (some dto.area_id) name dto.quantity ∷ [];
  next_id = suc s.next_id;
}

abbrev area_record : ℕ → StageToAreaDto → StagingRecord
area_record now dto = record {
  batch_id = dto.batch_id;
  record_type = staging;
  quantity = dto.quantity;
  operator_id = dto.operator_id;
  shift_date = now;
}

unfoldable pub stage_to_area : ℕ → StageToAreaDto → Action Plant (Unit {0})
stage_to_area now dto = do
  found ← gets (λ s. find_first (area_is dto.area_id) s.areas)
  area ← or_throw found (bad_request "配料区不存在或已停用")
  row ← gets (λ s. find_first (in_area dto.batch_id dto.area_id) s.stock.staging)
  modify (λ s. record s { stock = upsert_area now dto area.name row s.stock })
  modify (add_staging_record (area_record now dto))
