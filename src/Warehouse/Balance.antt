-- ===== src/Warehouse/Balance.antt =====
-- server/src/modules/warehouse/material-balance.service.ts: does the stock of a batch agree with
-- its records? A quantity is a number of millionths, so the tolerance 0.01 is 10000.
pub mod Exact
use noidear.Base.{
  ℕ, String, Bool, Option, none, some, List, [], ◌∷◌, ◌==◌, find_many, ltb, is_some, not, map,
  length, suc,
}
use noidear.Base.Int.{ℤ, pos, ◌+ℤ◌, ◌-ℤ◌, abs}
use noidear.Warehouse.Model.{
  Db, Batch, StockRecord, Usage, RecordType, batch_is, stock_in, stock_out, stock_return,
  stock_scrap,
}
use noidear.Warehouse.Measures.{is_type}

-- `reduce((sum, r) => sum + r.quantity, 0)`
unfoldable pub reduce : {X : Type 0} → (X → ℤ) → ℤ → List X → ℤ
reduce f sum [] = sum
reduce f sum (x ∷ xs) = reduce f (sum +ℤ f x) xs

abbrev pub of_batch : ℕ → StockRecord → Bool
of_batch k r = r.batch_id == k

abbrev pub usage_of : ℕ → Usage → Bool
usage_of k u = u.material_batch_id == k

-- One of the four sums over the records of a batch.
unfoldable pub sum_of : RecordType → List StockRecord → ℤ
unfolding reduce
sum_of t stock_records =
    reduce (λ (r : StockRecord). r.quantity) (pos 0)
      (find_many (λ r. is_type t r.record_type) stock_records)

abbrev pub first_quantity : List Batch → ℤ
first_quantity [] = pos 0
first_quantity (b ∷ bs) = b.quantity

pub record Report : Type 0 where
  pub batch_id : ℕ
  pub total_in : ℤ
  pub total_out : ℤ
  pub used_in_production : ℤ
  pub calculated : ℤ
  pub current_stock : ℤ
  pub difference : ℕ
  pub is_balanced : Bool
  pub received : ℤ
  pub returned_to_warehouse : ℤ
  pub issued_to_production : ℤ
  pub scrapped : ℤ

abbrev pub tolerance : ℕ
tolerance = 10_000

unfoldable pub check_balance : ℕ → Db → Report
check_balance batch_id s =
    let stock_records = find_many (of_batch batch_id) s.stock_records in
    let usages = find_many (usage_of batch_id) s.usages in
    let batches = find_many (batch_is batch_id) s.batches in
    let received = sum_of stock_in stock_records in
    let returned_to_warehouse = sum_of stock_return stock_records in
    let issued_to_production = sum_of stock_out stock_records in
    let scrapped = sum_of stock_scrap stock_records in
    let total_in = received +ℤ returned_to_warehouse in
    let total_out = issued_to_production +ℤ scrapped in
    let used_in_production = reduce (λ (u : Usage). u.quantity) (pos 0) usages in
    let current_stock = first_quantity batches in
    let calculated = total_in -ℤ total_out -ℤ used_in_production in
    let difference = abs (calculated -ℤ current_stock) in
    record {
      batch_id = batch_id;
      total_in = total_in;
      total_out = total_out;
      used_in_production = used_in_production;
      calculated = calculated;
      current_stock = current_stock;
      difference = difference;
      is_balanced = ltb difference tolerance;
      received = received;
      returned_to_warehouse = returned_to_warehouse;
      issued_to_production = issued_to_production;
      scrapped = scrapped;
    }

pub record Summary : Type 0 where
  pub total : ℕ
  pub balanced : ℕ
  pub imbalanced : ℕ
  pub batches : List Report

unfoldable pub check_all_batches : Db → Summary
unfolding check_balance
check_all_batches s =
    let results =
      map (λ (b : Batch). check_balance b.id s)
        (find_many (λ b. not (is_some b.deleted_at)) s.batches) in
    record {
      total = length results;
      balanced = length (find_many (λ (r : Report). r.is_balanced) results);
      imbalanced = length (find_many (λ (r : Report). not r.is_balanced) results);
      batches = results;
    }
