-- ===== src/Plant/Usage/Undo.antt =====
-- Removing a direct usage undoes what `create` of material-usage.service.ts did to the sums.
use noidear.Base.{
  ℕ, ◌≤◌, ◌≡◌, none, some, ◌==◌, count, find_first, sum_by-removed, arith, inl, inr, Bool-cases, ap,
  subst, sym, ◌∙◌,
}
use noidear.Base.Int.{ℤ, pos, ◌+ℤ◌, ◌-ℤ◌, int_laws, pos_part, neg_part}
use noidear.Base.Action.{ok, Result-cases}
use noidear.Warehouse.Model.{Db, Batch, IsKeyed, Usage}
use noidear.Warehouse.Measures.{part, hand, staged, recorded, used, ledger, usage_part}
use noidear.Warehouse.Effect.{
  Delta, no_change, plus, SameDelta, Changes, Changes-trans, Changes-eq, +ℤ_zero,
}
use noidear.Warehouse.Statements.{by_hand, by_used}
use noidear.Warehouse.Slips.{return_slip, update_batch, add_batch}
use noidear.Warehouse.Slips.Effect.{update_batch-Effects, batch_change}
use noidear.Plant.{Plant}
use noidear.Plant.Usage.{remove, usage_is, delete_usage}

-- What the removal does to the sums of a batch.
abbrev pub undo_use : ℕ → ℕ → ℤ → Delta
undo_use k b q = record no_change { hand_by = part k b q; used_by = pos 0 -ℤ part k b q }

less : (a b q : ℤ) → a +ℤ q ≡ b → a ≡ b +ℤ (pos 0 -ℤ q)
less a b q h = omega (int_laws, ap pos_part h, ap neg_part h)

delete_usage-Changes :
    (k id : ℕ) (s : Db) (u : Usage)
    → IsKeyed s
    → find_first (usage_is id) s.usages ≡ some u
    → count (usage_is id) s.usages ≤ 1
    → Changes k (by_used (pos 0 -ℤ usage_part k u)) s (delete_usage id s)
unfolding hand staged recorded used ledger
delete_usage-Changes k id s u keyed found one = record {
  keyed = record { batch_key = keyed.batch_key; stock_key = keyed.stock_key; fresh = keyed.fresh };
  hand_eq = +ℤ_zero _;
  staged_eq = +ℤ_zero _;
  in_eq = +ℤ_zero _;
  out_eq = +ℤ_zero _;
  return_eq = +ℤ_zero _;
  scrap_eq = +ℤ_zero _;
  used_eq = less _ _ _ (sum_by-removed (usage_part k) (usage_is id) s.usages u found one);
  ledger_eq = +ℤ_zero _;
}

-- A change of batches leaves the usages.
update_batch-usages :
    (b : ℕ) (f : Batch → Batch) (s : Db) → (update_batch b f s).1.usages ≡ s.usages
unfolding update_batch
update_batch-usages b f s = ground arith

undone :
    (k b : ℕ) (q : ℤ)
    → SameDelta
        (plus (by_hand (part k b (batch_change return_slip q))) (by_used (pos 0 -ℤ part k b q)))
        (undo_use k b q)
undone k b q = elim (Bool-cases (b == k)) [
  | inl e ↦ rw e (omega int_laws)
  | inr e ↦ rw e (omega int_laws)
]

-- If the keys of the stock tables are in order, at most one usage has the id, the usage is found,
-- and `remove` of it returns, then mixing did not write the usage, its batch has got its quantity
-- back in the warehouse and lost it among the usages, and no other sum of any batch has changed.
pub remove-Changes :
    (k id : ℕ) (s : Plant) (u : Usage)
    → IsKeyed s.stock
    → count (usage_is id) s.stock.usages ≤ 1
    → find_first (usage_is id) s.stock.usages ≡ some u
    → (remove id s).0 ≡ ok tt
    → (u.execution_line_id ≡ none)
      × Changes k (undo_use k u.material_batch_id u.quantity) s.stock (remove id s).1.stock
unfolding remove
remove-Changes k id s u keyed one found h =
    let m = update_batch u.material_batch_id (add_batch u.quantity) s.stock in
    let same = update_batch-usages u.material_batch_id (add_batch u.quantity) s.stock in
    elim (Result-cases m.0) [
      | inl done ↦
          let ran = done.1 in
          let after : (remove id s).1.stock ≡ delete_usage id m.1 = ground (arith, found, ran) in
          let first =
            (update_batch-Effects k return_slip u.material_batch_id u.quantity).on_ok s.stock tt
              keyed ran in
          let second =
            delete_usage-Changes k id m.1 u first.keyed (ap (find_first (usage_is id)) same ∙ found)
              (subst (λ us. count (usage_is id) us ≤ 1) (sym same) one) in
          (
            ground (arith, found),
            subst (Changes k _ s.stock) (sym after)
                (Changes-eq (Changes-trans first second) (undone k u.material_batch_id u.quantity)),
          )
      | inr failed ↦ let ran = failed.1 in absurd (ground (arith, found, ran))
    ]
