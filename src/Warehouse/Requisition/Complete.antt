-- ===== src/Warehouse/Requisition/Complete.antt =====
-- `RequisitionService.complete` as a whole: what it returns, and when it changes nothing.
use noidear.Base.{ℕ, ◌≡◌, some, arith, find_first, Option-cases, update_many, inl, inr}
use noidear.Base.Action.{Error, Result, ok, err, for_each}
use noidear.Warehouse.Model.{Db}
use noidear.Warehouse.Store.{Store, Requisition, approved, completed, requisition_is}
use noidear.Warehouse.Requisition.{find_one, complete, complete_item}

module _ {A : Type 0} (now id operator_id : ℕ) (s : Store A) where
  -- The loop over the items of a requisition.
  abbrev issued : Requisition → Result (Unit {0}) × Db
  issued row = for_each (complete_item row operator_id now) row.items s.stock

  abbrev finished : Requisition → Requisition
  finished row = record row { status = completed; completed_at = some now }

  -- What a successful call has done.
  pub record IsCompleted (r : Requisition) (s' : Store A) : Type 0 where
    pub row : Requisition
    pub found : find_first (requisition_is id) s.requisitions ≡ some row
    pub was_approved : row.status ≡ approved
    pub returned : r ≡ finished row
    pub stock_ok : (issued row).0 ≡ ok tt
    pub after : s' ≡ record s {
      stock = (issued row).1;
      requisitions =
          update_many
            (requisition_is row.id)
            (λ x. record x { status = completed; completed_at = some now })
            s.requisitions;
    }

  pub complete-ok :
      (r : Requisition)
      → (complete now id operator_id s).0 ≡ ok r
      → IsCompleted r (complete now id operator_id s).1
  unfolding complete find_one
  complete-ok r h = elim (Option-cases (find_first (requisition_is id) s.requisitions)) [
    | inl e ↦ absurd (ground arith)
    | inr (row, e) ↦ record {
      row = row;
      found = e;
      was_approved = ground arith;
      returned = ground arith;
      stock_ok = ground arith;
      after = ground arith;
    }
  ]

  -- A call that throws leaves every table as it was.
  pub complete_atomic :
      (e : Error)
      → (complete now id operator_id s).0 ≡ err e
      → (complete now id operator_id s).1 ≡ s
  unfolding complete find_one
  complete_atomic e h = ground arith
