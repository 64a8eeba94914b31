-- ===== src/Warehouse/Slips/Effect.antt =====
-- What completing a return or a scrap slip does to the sums of every batch.
use noidear.Base.{
  ℕ, ◌≡◌, refl, true, arith, find_first, ◌==◌, count, Option-cases, Bool-cases, update_many,
  count-update_many, find_first-holds, sum_by-update_found, ==→eq, count_pos-find_first, inl, ◌<◌,
  inr, subst, leb,
}
use noidear.Base.Int.{ℤ, pos, ◌+ℤ◌, ◌-ℤ◌, int_laws}
use noidear.Base.Action.{Action, ok, modify}
use noidear.Warehouse.Model.{Db, Batch, Stock, IsKeyed, batch_is, stock_is}
use noidear.Warehouse.Stocks.{add_record}
use noidear.Warehouse.Ledger.{record_material_batch_movement, movement_row}
use noidear.Warehouse.Measures.{part, batch_part, stock_part, hand, movement_part}
use noidear.Warehouse.Flow.{cancel_add, staged-update_found}
use noidear.Warehouse.Effect.{
  Delta, no_change, Changes, Effects, SameDelta, Effects-eq, then-Effects, plus,
}
use noidear.Warehouse.Statements.{
  by_hand, by_staged, Changes-batches, Changes-staging, add_record-Effects, movement-Effects,
  by_record, by_ledger,
}
use noidear.Warehouse.Store.{Item, Slip}
use noidear.Warehouse.Slips.{
  SlipKind, return_slip, scrap_slip, move_batch, take_stock, update_batch, debit_stock, staged_row,
  complete_item, slip_record, slip_movement,
}

-- By how much the warehouse batch of an item changes.
abbrev pub batch_change : SlipKind → ℤ → ℤ
batch_change return_slip q = q
batch_change scrap_slip q = pos 0 -ℤ q

moved_part :
    (kind : SlipKind) (k : ℕ) (q : ℤ) (b : Batch)
    → batch_part k (move_batch kind q b)
      ≡ part k b.id b.quantity +ℤ part k b.id (batch_change kind q)
moved_part return_slip k q b = elim (Bool-cases (b.id == k)) [
  | inl e ↦ rw e (omega int_laws)
  | inr e ↦ rw e (omega int_laws)
]
moved_part scrap_slip k q b = elim (Bool-cases (b.id == k)) [
  | inl e ↦ rw e (omega int_laws)
  | inr e ↦ rw e (omega int_laws)
]

moved_id : (kind : SlipKind) (q : ℤ) (b : Batch) → (move_batch kind q b).id ≡ b.id
moved_id return_slip q b = refl
moved_id scrap_slip q b = refl

taken_part :
    (k j : ℕ) (q : ℤ) (r : Stock)
    → staged_row j r ≡ true
    → stock_part k (take_stock q r) ≡ stock_part k r +ℤ (pos 0 -ℤ part k j q)
taken_part k j q r same = rw (← ==→eq r.batch_id j same) (elim (Bool-cases (r.batch_id == k)) [
  | inl e ↦ rw e (omega int_laws)
  | inr e ↦ rw e (omega int_laws)
])

module _ (k : ℕ) (kind : SlipKind) (j : ℕ) (q : ℤ) (s : Db) (keyed : IsKeyed s) where
  moved_hand :
      0 < count (batch_is j) s.batches
      → hand k (record s { batches = update_many (batch_is j) (move_batch kind q) s.batches })
        ≡ hand k s +ℤ part k j (batch_change kind q)
  unfolding hand
  moved_hand some_row =
      let (r, found) = count_pos-find_first (batch_is j) s.batches some_row in
      let holds = find_first-holds (batch_is j) s.batches r found in
      cancel_add (hand k s) _ (batch_part k r) (batch_part k (move_batch kind q r)) _
        (sum_by-update_found (batch_part k) (batch_is j) (batch_is j) (move_batch kind q) s.batches
          r found holds (keyed.batch_key j))
        (subst
          (λ i.
            batch_part k (move_batch kind q r)
            ≡ part k r.id r.quantity +ℤ part k i (batch_change kind q))
          (==→eq r.id j holds) (moved_part kind k q r))

  update_batch-Changes :
      (a : Unit {0})
      → (update_batch j (move_batch kind q) s).0 ≡ ok a
      → Changes k
          (by_hand (part k j (batch_change kind q)))
          s
          (update_batch j (move_batch kind q) s).1
  unfolding update_batch
  update_batch-Changes a h = elim (Bool-cases (count (batch_is j) s.batches == 0)) [
    | inl e ↦ absurd (ground arith)
    | inr e ↦ rw e (
        Changes-batches k s keyed (update_many (batch_is j) (move_batch kind q) s.batches) _
          (λ i.
            rw
              (count-update_many (batch_is i) (batch_is j) (move_batch kind q) s.batches
                (λ x. rw (moved_id kind q x)))
              (keyed.batch_key i))
          (moved_hand (ground arith)))
  ]

  debit_stock-Changes :
      (a : Unit {0})
      → (debit_stock (find_first (staged_row j) s.staging) q s).0 ≡ ok a
      → Changes k
          (by_staged (pos 0 -ℤ part k j q))
          s
          (debit_stock (find_first (staged_row j) s.staging) q s).1
  unfolding debit_stock
  debit_stock-Changes a h = elim (Option-cases (find_first (staged_row j) s.staging)) [
    | inl e ↦ absurd (ground arith)
    | inr (r, e) ↦ rw e (
        Changes-staging k s keyed (update_many (stock_is r.id) (take_stock q) s.staging) s.next_id _
          (λ i.
            rw (count-update_many (stock_is i) (stock_is r.id) (take_stock q) s.staging (λ x. refl))
              (keyed.stock_key i))
          (rw
            (count-update_many (λ x. leb s.next_id x.id) (stock_is r.id) (take_stock q) s.staging
              (λ x. refl))
            keyed.fresh)
          (staged-update_found k s keyed (staged_row j) r (take_stock q) (pos 0 -ℤ part k j q) e
            (taken_part k j q r (find_first-holds (staged_row j) s.staging r e))))
  ]

pub update_batch-Effects :
    (k : ℕ) (kind : SlipKind) (j : ℕ) (q : ℤ)
    → Effects k (by_hand (part k j (batch_change kind q))) (update_batch j (move_batch kind q))
update_batch-Effects k kind j q = record {
  on_ok = λ s a keyed h. update_batch-Changes k kind j q s keyed a h;
}

-- Find the staging row of the batch, and decrement it.
abbrev take_staged : ℕ → ℤ → Action Db (Unit {0})
take_staged j q s = debit_stock (find_first (staged_row j) s.staging) q s

take_staged-Effects :
    (k j : ℕ) (q : ℤ) → Effects k (by_staged (pos 0 -ℤ part k j q)) (take_staged j q)
take_staged-Effects k j q = record {
  on_ok = λ s a keyed h. debit_stock-Changes k return_slip j q s keyed a h;
}

-- A return moves the quantity of an item from the staging area to the warehouse. A scrap takes it
-- off both.
abbrev pub settle : SlipKind → ℕ → Item → Delta
settle return_slip k item =
    let q = part k item.batch_id item.quantity in
    record no_change { hand_by = q; staged_by = pos 0 -ℤ q; return_by = q; ledger_by = q }
settle scrap_slip k item =
    let q = part k item.batch_id item.quantity in
    record no_change {
      hand_by = pos 0 -ℤ q;
      staged_by = pos 0 -ℤ q;
      scrap_by = q;
      ledger_by = pos 0 -ℤ q;
    }

settle_parts :
    (kind : SlipKind) (k : ℕ) (slip : Slip) (now : ℕ) (item : Item)
    → SameDelta
        (plus (by_staged (pos 0 -ℤ part k item.batch_id item.quantity)) (
          plus (by_hand (part k item.batch_id (batch_change kind item.quantity))) (
            plus
              (by_record k (slip_record kind slip item))
              (by_ledger (movement_part k (movement_row now (slip_movement kind slip now item)))))))
        (settle kind k item)
settle_parts return_slip k slip now item = elim (Bool-cases (item.batch_id == k)) [
  | inl e ↦ rw e (omega int_laws)
  | inr e ↦ rw e (omega int_laws)
]
settle_parts scrap_slip k slip now item = elim (Bool-cases (item.batch_id == k)) [
  | inl e ↦ rw e (omega int_laws)
  | inr e ↦ rw e (omega int_laws)
]

pub complete_item-Effects :
    (k : ℕ) (kind : SlipKind) (slip : Slip) (now : ℕ) (item : Item)
    → Effects k (settle kind k item) (complete_item kind slip now item)
unfolding complete_item
complete_item-Effects k kind slip now item =
    Effects-eq
      (then-Effects k (take_staged item.batch_id item.quantity) _
        (take_staged-Effects k item.batch_id item.quantity)
        (then-Effects k (update_batch item.batch_id (move_batch kind item.quantity)) _
          (update_batch-Effects k kind item.batch_id item.quantity)
          (then-Effects k (modify (add_record _))
            (record_material_batch_movement now (slip_movement kind slip now item))
            (add_record-Effects k (slip_record kind slip item))
            (movement-Effects k now (slip_movement kind slip now item)))))
      (settle_parts kind k slip now item)
