-- ===== src/Warehouse/Slips/Complete.antt =====
-- Completing a return or a scrap slip as a whole, and what it does to the books.
use noidear.Base.{
  ℕ, ◌≡◌, refl, some, List, [], ◌∷◌, arith, find_first, Option-cases, update_many, inl, inr,
}
use noidear.Base.Action.{Error, Result, ok, err, for_each}
use noidear.Warehouse.Model.{Db}
use noidear.Warehouse.Store.{Store, Item, Slip, approved, completed, slip_is}
use noidear.Warehouse.Slips.{
  SlipKind, return_slip, scrap_slip, slips, validate_item, complete, complete_item,
}

-- The check before the transaction writes nothing.
validate_item-state : (item : Item) (s : Db) → (validate_item item s).1 ≡ s
unfolding validate_item
validate_item-state item s = refl

validate_items-state : (items : List Item) (s : Db) → (for_each validate_item items s).1 ≡ s
unfolding for_each
validate_items-state [] s = refl
validate_items-state (item ∷ items) s =
    ground (arith, validate_item-state item s, validate_items-state items s)

-- The store that a successful call leaves.
after_complete :
    {A : Type 0} (kind : SlipKind) (now id : ℕ) (s : Store A) (r row : Slip)
    → find_first (slip_is id) (slips kind s) ≡ some row
    → (complete kind now id s).0 ≡ ok r
    → let s' = (complete kind now id s).1 in
      (s'.stock ≡ (for_each (complete_item kind row now) row.items s.stock).1)
      × (slips kind s'
          ≡ update_many
              (slip_is row.id)
              (λ x. record x { status = completed; completed_at = some now })
              (slips kind s))
unfolding complete
after_complete return_slip now id s r row e h =
    ground (arith, validate_items-state row.items s.stock)
after_complete scrap_slip now id s r row e h =
    ground (arith, validate_items-state row.items s.stock)

module _ {A : Type 0} (kind : SlipKind) (now id : ℕ) (s : Store A) where
  abbrev settled : Slip → Result (Unit {0}) × Db
  settled row = for_each (complete_item kind row now) row.items s.stock

  -- What a successful call has done.
  pub record IsCompleted (r : Slip) (s' : Store A) : Type 0 where
    pub row : Slip
    pub found : find_first (slip_is id) (slips kind s) ≡ some row
    pub was_approved : row.status ≡ approved
    pub returned : r ≡ record row { status = completed; completed_at = some now }
    pub checked : (for_each validate_item row.items s.stock).0 ≡ ok tt
    pub stock_ok : (settled row).0 ≡ ok tt
    pub after : s'.stock ≡ (settled row).1
    pub marked :
        slips kind s'
        ≡ update_many
            (slip_is row.id)
            (λ x. record x { status = completed; completed_at = some now })
            (slips kind s)

  pub complete-ok :
      (r : Slip) → (complete kind now id s).0 ≡ ok r → IsCompleted r (complete kind now id s).1
  unfolding complete
  complete-ok r h = elim (Option-cases (find_first (slip_is id) (slips kind s))) [
    | inl e ↦ absurd (ground arith)
    | inr (row, e) ↦
        let same = validate_items-state row.items s.stock in
        record {
          row = row;
          found = e;
          was_approved = ground arith;
          returned = ground (arith, same);
          checked = ground (arith, same);
          stock_ok = ground (arith, same);
          after = (after_complete kind now id s r row e h).0;
          marked = (after_complete kind now id s r row e h).1;
        }
  ]

  -- A call that throws leaves every table as it was.
  pub complete_atomic :
      (e : Error) → (complete kind now id s).0 ≡ err e → (complete kind now id s).1 ≡ s
  unfolding complete
  complete_atomic e h = elim (Option-cases (find_first (slip_is id) (slips kind s))) [
    | inl x ↦ ground arith
    | inr (row, x) ↦ ground (arith, validate_items-state row.items s.stock)
  ]
