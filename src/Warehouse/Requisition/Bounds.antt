-- ===== src/Warehouse/Requisition/Bounds.antt =====
-- Completing a requisition overdraws nothing.
use noidear.Base.{
  get_or, ℕ, ◌≡◌, refl, String, Bool, true, false, Option, none, some, List, [], ◌∷◌, ◌==◌,
  find_first, count, count-append, count-update_kept, and-right, arith, inl, inr, Bool-cases, subst,
  sym,
}
use noidear.Base.Int.{ℤ, pos, ◌+ℤ◌, ◌-ℤ◌, leb_ℤ, ltb_ℤ, -ℤ_parts, +ℤ_parts}
use noidear.Base.Action.{
  Action, ◌>>◌, for_each, Keeps, bind-Keeps, modify, Result-cases, continue-Keeps,
}
use noidear.Warehouse.Model.{Db, Stock, batch_is, stock_is}
use noidear.Warehouse.Stocks.{
  debit_batch, has_quantity, take_batch, credit_zone, upsert_stock, add_stock, new_stock, zone_row,
  add_record,
}
use noidear.Warehouse.Suppliers.{assert_batch_supplier_usable}
use noidear.Warehouse.Ledger.{record_material_batch_movement}
use noidear.Warehouse.Store.{Store, Item, Requisition, requisition_is}
use noidear.Warehouse.Requisition.{complete_item, complete, issue_record, issue_movement}
use noidear.Warehouse.Requisition.Effect.{assert_batch_supplier_usable-state}
use noidear.Warehouse.Requisition.Complete.{complete-ok, complete_atomic}

abbrev pub is_negative : ℤ → Bool
is_negative q = ltb_ℤ q (pos 0)

-- No batch and no staging row is below zero.
pub record IsCovered (s : Db) : Type 0 where
  pub batches : count (λ b. is_negative b.quantity) s.batches ≡ 0
  pub staging : count (λ r. is_negative r.quantity) s.staging ≡ 0

sub_covered : (a q : ℤ) → leb_ℤ q a ≡ true → is_negative (a -ℤ q) ≡ false
sub_covered a q h = ground (arith, -ℤ_parts a q)

add_covered :
    (a q : ℤ) → is_negative a ≡ false → is_negative q ≡ false → is_negative (a +ℤ q) ≡ false
add_covered a q h k = ground (arith, +ℤ_parts a q)

debit_batch-IsCovered : (b : ℕ) (q : ℤ) → Keeps IsCovered (debit_batch b q)
unfolding debit_batch
debit_batch-IsCovered b q s a h e = elim (Bool-cases (count (has_quantity b q) s.batches == 0)) [
  | inl none_held ↦ absurd (ground arith)
  | inr held ↦ rw held (record {
    batches =
        count-update_kept (λ x. is_negative x.quantity) (has_quantity b q) (take_batch q) s.batches
          (λ x p c. sub_covered x.quantity q (and-right (batch_is b x) (leb_ℤ q x.quantity) p))
          h.batches;
    staging = h.staging;
  })
]

upsert-IsCovered :
    (o : Option Stock) (q : ℤ) (fresh : ℕ → Stock) (s : Db)
    → is_negative q ≡ false
    → ((id : ℕ) → (fresh id).quantity ≡ q)
    → IsCovered s
    → IsCovered (upsert_stock o q fresh s)
unfolding upsert_stock count
upsert-IsCovered (some r) q fresh s good made h = record {
  batches = h.batches;
  staging =
      count-update_kept (λ x. is_negative x.quantity) (stock_is r.id) (add_stock q) s.staging
        (λ x p c. add_covered x.quantity q c good) h.staging;
}
upsert-IsCovered none q fresh s good made h = record {
  batches = h.batches;
  staging = rw (count-append, made s.next_id, good) (omega (arith, h.staging));
}

complete_item-IsCovered :
    (requisition : Requisition) (operator_id now : ℕ) (item : Item)
    → is_negative item.quantity ≡ false
    → Keeps IsCovered (complete_item requisition operator_id now item)
unfolding complete_item credit_zone
complete_item-IsCovered requisition operator_id now item good s a h e =
    bind-Keeps IsCovered (assert_batch_supplier_usable item.batch_id)
      (λ _. debit_batch item.batch_id item.quantity >> write)
      (λ t x g q. subst IsCovered (sym (assert_batch_supplier_usable-state item.batch_id t)) g)
      (λ _.
        bind-Keeps IsCovered (debit_batch item.batch_id item.quantity) (λ _. write)
          (debit_batch-IsCovered item.batch_id item.quantity)
          (λ _ t x g q.
            let c =
              upsert-IsCovered (find_first (zone_row item.batch_id zone) t.staging) item.quantity
                (λ id. new_stock now id item.batch_id none zone item.quantity) t good (λ id. refl)
                g in
            record { batches = c.batches; staging = c.staging }))
      s a h e
  where
    zone : String
    zone = get_or requisition.target_zone "未指定"

    write : Action Db (Unit {0})
    write =
        modify (credit_zone now item.batch_id zone item.quantity)
        >> (modify (add_record (issue_record requisition operator_id item))
            >> record_material_batch_movement now (issue_movement requisition operator_id now item))

-- The quantities of the items are not negative.
abbrev pub is_refund : Item → Bool
is_refund item = is_negative item.quantity

items-IsCovered :
    (requisition : Requisition) (operator_id now : ℕ) (items : List Item)
    → count is_refund items ≡ 0
    → Keeps IsCovered (for_each (complete_item requisition operator_id now) items)
unfolding for_each count
items-IsCovered requisition operator_id now [] good s a h e = h
items-IsCovered requisition operator_id now (item ∷ items) good s a h e =
    continue-Keeps IsCovered (λ _. for_each (complete_item requisition operator_id now) items)
      (complete_item requisition operator_id now item s) a
      (λ u q. complete_item-IsCovered requisition operator_id now item (ground arith) s u h q)
      (λ _. items-IsCovered requisition operator_id now items (ground arith)) e

module _ {A : Type 0} (now id operator_id : ℕ) (s : Store A) where
  -- If no item of the requisition asks for a negative quantity, and no batch and no staging row is
  -- below zero, then none is after `complete`, whether it returns or throws: nothing is overdrawn.
  pub complete-IsCovered :
      ((r : Requisition)
        → find_first (requisition_is id) s.requisitions ≡ some r
        → count is_refund r.items ≡ 0)
      → IsCovered s.stock
      → IsCovered (complete now id operator_id s).1.stock
  complete-IsCovered good h = elim (Result-cases (complete now id operator_id s).0) [
    | inl done ↦
        let c = complete-ok now id operator_id s done.0 done.1 in
        subst (λ (t : Store A). IsCovered t.stock) (sym c.after)
          (items-IsCovered c.row operator_id now c.row.items (good c.row c.found) s.stock tt h
            c.stock_ok)
    | inr failed ↦
        subst (λ (t : Store A). IsCovered t.stock)
          (sym (complete_atomic now id operator_id s failed.0 failed.1)) h
  ]
