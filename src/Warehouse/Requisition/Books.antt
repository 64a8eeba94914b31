-- ===== src/Warehouse/Requisition/Books.antt =====
-- Completing a requisition moves material from the warehouse to the staging areas, and accounts
-- for it.
use noidear.Base.{ℕ, ◌≡◌, ap, inl, inr}
use noidear.Base.Int.{ℤ, ◌+ℤ◌, int_laws}
use noidear.Base.Action.{ok, Result-cases}
use noidear.Warehouse.Model.{IsKeyed}
use noidear.Warehouse.Measures.{hand, staged}
use noidear.Warehouse.Effect.{Changes, total, for_each-Effects}
use noidear.Warehouse.Books.{
  IsSound, IsAccounted, IsMove, Changes-IsSound, Changes-IsMove, total-IsAccounted, total-IsMove,
}
use noidear.Warehouse.Store.{Store, Item, Requisition}
use noidear.Warehouse.Requisition.{complete, complete_item}
use noidear.Warehouse.Requisition.Effect.{issue, complete_item-Effects}
use noidear.Warehouse.Requisition.Complete.{complete-ok, complete_atomic}

issue-IsAccounted : (k : ℕ) (item : Item) → IsAccounted (issue k item)
issue-IsAccounted k item = omega int_laws

issue-IsMove : (k : ℕ) (item : Item) → IsMove (issue k item)
issue-IsMove k item = omega int_laws

module _ {A : Type 0} (now id operator_id : ℕ) (s : Store A) where
  -- If the keys of the stock tables are in order and `complete` of a requisition returns, then for
  -- every batch the warehouse has lost, and the staging areas and the records of type `out` have
  -- gained, the sum of the quantities of the requisition's items of that batch, the movement ledger
  -- says the same as the warehouse, and no other sum has changed.
  pub complete-Changes :
      (r : Requisition)
      → IsKeyed s.stock
      → (complete now id operator_id s).0 ≡ ok r
      → (k : ℕ)
      → Changes k (total (issue k) r.items) s.stock (complete now id operator_id s).1.stock
  complete-Changes r keyed h k =
      let c = complete-ok now id operator_id s r h in
      let row = c.row in
      let step =
        for_each-Effects k (issue k) (complete_item row operator_id now)
          (complete_item-Effects k row operator_id now) row.items in
      rw (c.after, c.returned) (step.on_ok s.stock tt keyed c.stock_ok)

  -- If the keys of the stock tables are in order, the sum of what the warehouse and the staging
  -- areas hold of a batch is the same after `complete` of a requisition, whether it returns or
  -- throws.
  pub complete_conserves :
      (k : ℕ)
      → IsKeyed s.stock
      → let s' = (complete now id operator_id s).1 in
        hand k s'.stock +ℤ staged k s'.stock ≡ hand k s.stock +ℤ staged k s.stock
  complete_conserves k keyed = elim (Result-cases (complete now id operator_id s).0) [
    | inl (r, e) ↦
        Changes-IsMove (total-IsMove (issue k) (issue-IsMove k) r.items)
          (complete-Changes r keyed e k)
    | inr (x, e) ↦
        ap (λ t. hand k t.stock +ℤ staged k t.stock) (complete_atomic now id operator_id s x e)
  ]

  -- Whether `complete` of a requisition returns or throws, it keeps the invariant of the stock
  -- tables, when that held before: the keys are in order, the books of every batch balance, and the
  -- movement ledger explains what the warehouse holds of every batch.
  pub complete-IsSound :
      {base : ℕ → ℤ} → IsSound base s.stock → IsSound base (complete now id operator_id s).1.stock
  complete-IsSound h = elim (Result-cases (complete now id operator_id s).0) [
    | inl (r, e) ↦
        let c = complete-Changes r h.keyed e in
        Changes-IsSound (λ k. total (issue k) r.items) (c 0).keyed
          (λ k. total-IsAccounted (issue k) (issue-IsAccounted k) r.items) c h
    | inr (x, e) ↦ rw (complete_atomic now id operator_id s x e) h
  ]
