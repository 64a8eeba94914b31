-- ===== src/Plant/Staging/Moves.antt =====
-- What the operations of staging-area.service.ts do to the sums of a batch.
use noidear.Base.{
  ℕ, ◌≡◌, refl, false, none, some, ◌==◌, find_first, find_first-holds, update_many,
  count-update_many, leb, arith, inl, inr, Option-cases, Bool-cases, sym, subst, ap, ◌∙◌, ==→eq,
  and-left,
}
use noidear.Base.Int.{ℤ, pos, ◌+ℤ◌, ◌-ℤ◌, ◌≤ℤ◌, int_laws}
use noidear.Base.Action.{ok}
use noidear.Warehouse.Model.{Db, Stock, IsKeyed, stock_is, is_text}
use noidear.Warehouse.Stocks.{new_stock}
use noidear.Warehouse.Measures.{part, staged}
use noidear.Warehouse.Flow.{staged-update_found}
use noidear.Warehouse.Effect.{no_change, plus, SameDelta, Changes, Changes-trans, Changes-eq}
use noidear.Warehouse.Statements.{by_staged, Changes-staging, Changes-upsert_stock}
use noidear.Plant.{Plant, Transfer}
use noidear.Plant.Staging.Places.{Place, counted, held, held-set_row, held-upsert_stock}
use noidear.Plant.Staging.{
  TransferDto, at_location, set_quantity, set_row, is_bad_quantity, move_stock, write_transfer,
  transfer_zone,
}

module _ (k : ℕ) (s : Db) (keyed : IsKeyed s) where
  -- Setting the row that was read to less takes the difference from its batch.
  Changes-set_row :
      (id : ℕ) (r : Stock) (q : ℤ)
      → find_first (stock_is id) s.staging ≡ some r
      → Changes k
          (by_staged (pos 0 -ℤ part k r.batch_id q))
          s
          (set_row id (set_quantity (r.quantity -ℤ q)) s)
  Changes-set_row id r q found =
      let set = set_quantity (r.quantity -ℤ q) in
      Changes-staging k s keyed (update_many (stock_is id) set s.staging) s.next_id _
        (λ j.
          rw (count-update_many (stock_is j) (stock_is id) set s.staging (λ x. refl))
            (keyed.stock_key j))
        (rw (count-update_many (λ x. leb s.next_id x.id) (stock_is id) set s.staging (λ x. refl))
          keyed.fresh)
        (subst
          (λ i.
            staged k (record s { staging = update_many (stock_is i) set s.staging })
            ≡ staged k s +ℤ (pos 0 -ℤ part k r.batch_id q))
          (==→eq r.id id (find_first-holds (stock_is id) s.staging r found))
          (staged-update_found k s keyed (stock_is id) r set (pos 0 -ℤ part k r.batch_id q) found
            (less k r.batch_id r.quantity q)))
    where
      less : (k j : ℕ) (a q : ℤ) → part k j (a -ℤ q) ≡ part k j a +ℤ (pos 0 -ℤ part k j q)
      less k j a q = elim (Bool-cases (j == k)) [
        | inl e ↦ rw e (omega int_laws)
        | inr e ↦ rw e (omega int_laws)
      ]

moved :
    (k b : ℕ) (q : ℤ)
    → SameDelta (plus (by_staged (pos 0 -ℤ part k b q)) (by_staged (part k b q))) no_change
moved k b q = elim (Bool-cases (b == k)) [
  | inl e ↦ rw e (omega int_laws)
  | inr e ↦ rw e (omega int_laws)
]

move_stock-Changes :
    (k now : ℕ) (dto : TransferDto) (r : Stock) (s : Db)
    → IsKeyed s
    → find_first (stock_is dto.stock_id) s.staging ≡ some r
    → Changes k no_change s (move_stock now dto r s).1
unfolding move_stock
move_stock-Changes k now dto r s keyed found =
    let first = Changes-set_row k s keyed dto.stock_id r dto.quantity found in
    Changes-eq
      (Changes-trans first (
        Changes-upsert_stock k (set_row dto.stock_id (set_quantity (r.quantity -ℤ dto.quantity)) s)
          first.keyed (at_location r.batch_id dto.to_zone) r.batch_id dto.quantity
          (λ id. new_stock now id r.batch_id none dto.to_zone dto.quantity)
          (λ x e.
            ==→eq x.batch_id r.batch_id
              (and-left (x.batch_id == r.batch_id) (is_text dto.to_zone x.location) e))
          (λ id. (refl, refl)) (λ id. refl)))
      (moved k r.batch_id dto.quantity)

-- What a place held of the source's location leaves it, what it holds of the target zone comes.
move_stock-held :
    (place : Place) (now : ℕ) (dto : TransferDto) (r : Stock) (s : Db)
    → IsKeyed s
    → find_first (stock_is dto.stock_id) s.staging ≡ some r
    → held place (move_stock now dto r s).1
      ≡ held place s
        +ℤ (pos 0 -ℤ counted place r.batch_id r.location dto.quantity)
        +ℤ counted place r.batch_id (some dto.to_zone) dto.quantity
unfolding move_stock
move_stock-held place now dto r s keyed found =
    held-upsert_stock place (set_row dto.stock_id (set_quantity (r.quantity -ℤ dto.quantity)) s)
      (Changes-set_row 0 s keyed dto.stock_id r dto.quantity found).keyed r.batch_id dto.to_zone now
      dto.quantity
    ∙ ap (λ n. n +ℤ counted place r.batch_id (some dto.to_zone) dto.quantity)
        (held-set_row place s keyed r dto.stock_id dto.quantity found)

-- The row that a transfer which returned has read, and what it has checked.
record Transferred (now : ℕ) (dto : TransferDto) (s t : Plant) : Type 0 where
  pub source : Stock
  pub found : find_first (stock_is dto.stock_id) s.stock.staging ≡ some source
  pub elsewhere : is_text dto.to_zone source.location ≡ false
  pub good : is_bad_quantity dto.quantity source.quantity ≡ false
  pub after : t.stock ≡ (move_stock now dto source s.stock).1

transfer_zone-Transferred :
    (now : ℕ) (dto : TransferDto) (s : Plant) (x : Transfer)
    → (transfer_zone now dto s).0 ≡ ok x
    → Transferred now dto s (transfer_zone now dto s).1
unfolding transfer_zone write_transfer
transfer_zone-Transferred now dto s x h =
    elim (Option-cases (find_first (stock_is dto.stock_id) s.stock.staging)) [
      | inl missing ↦ absurd (ground arith)
      | inr row ↦
          let found = row.1 in
          record {
            source = row.0;
            found = found;
            elsewhere = ground (arith, found);
            good = ground (arith, found);
            after = ground (arith, found);
          }
    ]

-- If the keys of the stock tables are in order and a transfer between zones returns, then its
-- quantity is more than nothing and no more than its source row held, the source is not at the
-- target zone, and for any choice of batches and locations, what the staging rows there hold
-- together falls by the quantity if the source's batch and location are chosen and rises by it if
-- its batch and the target zone are; and every sum of every batch stays as it was: what the staging
-- areas hold of it, what the warehouse holds, and what the records, the usages and the ledger say.
pub transfer_zone-Changes :
    (now : ℕ) (dto : TransferDto) (s : Plant) (x : Transfer)
    → IsKeyed s.stock
    → (transfer_zone now dto s).0 ≡ ok x
    → let t = (transfer_zone now dto s).1 in
      (source : Stock) × (find_first (stock_is dto.stock_id) s.stock.staging ≡ some source)
      × (pos 1 ≤ℤ dto.quantity)
      × (dto.quantity ≤ℤ source.quantity)
      × (is_text dto.to_zone source.location ≡ false)
      × ((place : Place)
          → held place t.stock
            ≡ held place s.stock
              +ℤ (pos 0 -ℤ counted place source.batch_id source.location dto.quantity)
              +ℤ counted place source.batch_id (some dto.to_zone) dto.quantity)
      × ((k : ℕ) → Changes k no_change s.stock t.stock)
transfer_zone-Changes now dto s x keyed h =
    let t = transfer_zone-Transferred now dto s x h in
    let good = t.good in
    (
      t.source,
      t.found,
      ground (arith, good),
      ground (arith, good),
      t.elsewhere,
      λ place.
          ap (held place) t.after ∙ move_stock-held place now dto t.source s.stock keyed t.found,
      λ k.
          subst (Changes k no_change s.stock) (sym t.after)
            (move_stock-Changes k now dto t.source s.stock keyed t.found),
    )
