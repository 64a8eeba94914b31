-- ===== src/Warehouse/Requisition/Effect.antt =====
-- What completing a requisition does to the sums of every batch.
use noidear.Base.{◌==◌, ℕ, ◌≡◌, refl, none, arith, ==→eq, String, Bool-cases, inl, inr}
use noidear.Base.Int.{ℤ, pos, ◌-ℤ◌, int_laws}
use noidear.Base.Action.{modify}
use noidear.Warehouse.Model.{Db}
use noidear.Warehouse.Suppliers.{assert_batch_supplier_usable}
use noidear.Warehouse.Stocks.{zone_row, credit_zone, debit_batch, new_stock}
use noidear.Warehouse.Measures.{part}
use noidear.Warehouse.Effect.{Delta, no_change, Changes-refl, Effects, Effects-eq, then-Effects}
use noidear.Warehouse.Statements.{
  by_staged, debit_batch-Effects, Changes-upsert_stock, add_record-Effects, movement-Effects,
}
use noidear.Warehouse.Store.{Item, Requisition}
use noidear.Warehouse.Requisition.{
  complete_item, add_record, record_material_batch_movement, issue_record, issue_movement,
}

-- Asking whether the supplier may be used changes nothing.
pub assert_batch_supplier_usable-state : (b : ℕ) (s : Db) → (assert_batch_supplier_usable b s).1 ≡ s
unfolding assert_batch_supplier_usable
assert_batch_supplier_usable-state b s = ground arith

pub assert_batch_supplier_usable-Effects :
    (k b : ℕ) → Effects k no_change (assert_batch_supplier_usable b)
assert_batch_supplier_usable-Effects k b = record {
  on_ok = λ s a keyed h. rw (assert_batch_supplier_usable-state b s) (Changes-refl k s keyed);
}

pub credit_zone-Effects :
    (k now b : ℕ) (zone : String) (q : ℤ)
    → Effects k (by_staged (part k b q)) (modify (credit_zone now b zone q))
unfolding credit_zone
credit_zone-Effects k now b zone q = record {
  on_ok = λ s a keyed h.
      Changes-upsert_stock k s keyed (zone_row b zone) b q (λ id. new_stock now id b none zone q)
        (λ r e. ==→eq r.batch_id b (ground arith)) (λ id. (refl, refl)) (λ id. refl);
}

-- One item moves its quantity from the warehouse to the staging area, and is written down.
abbrev pub issue : ℕ → Item → Delta
issue k item =
    let q = part k item.batch_id item.quantity in
    record no_change { hand_by = pos 0 -ℤ q; staged_by = q; out_by = q; ledger_by = pos 0 -ℤ q }

pub complete_item-Effects :
    (k : ℕ) (requisition : Requisition) (operator_id now : ℕ) (item : Item)
    → Effects k (issue k item) (complete_item requisition operator_id now item)
unfolding complete_item
complete_item-Effects k requisition operator_id now item =
    Effects-eq
      (then-Effects k (assert_batch_supplier_usable item.batch_id) _
        (assert_batch_supplier_usable-Effects k item.batch_id)
        (then-Effects k (debit_batch item.batch_id item.quantity) _
          (debit_batch-Effects k item.batch_id item.quantity)
          (then-Effects k (modify (credit_zone now item.batch_id _ item.quantity)) _
            (credit_zone-Effects k now item.batch_id _ item.quantity)
            (then-Effects k (modify (add_record _))
              (record_material_batch_movement now (issue_movement requisition operator_id now item))
              (add_record-Effects k (issue_record requisition operator_id item))
              (movement-Effects k now (issue_movement requisition operator_id now item))))))
      (elim (Bool-cases (item.batch_id == k)) [
        | inl e ↦ rw e (omega int_laws)
        | inr e ↦ rw e (omega int_laws)
      ])
