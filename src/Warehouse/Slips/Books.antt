-- ===== src/Warehouse/Slips/Books.antt =====
-- Returns and scraps keep the books. A return conserves the material; a scrap takes its quantity
-- off twice, since `RequisitionService.complete` has taken staged material off the warehouse batch.
use noidear.Base.{ℕ, ◌≡◌, ap, inl, inr, List, [], ◌∷◌}
use noidear.Base.Int.{ℤ, pos, ◌+ℤ◌, ◌-ℤ◌, int_laws, pos_part, neg_part}
use noidear.Base.Action.{ok, Result-cases}
use noidear.Warehouse.Model.{IsKeyed}
use noidear.Warehouse.Measures.{part, hand, staged}
use noidear.Warehouse.Effect.{Changes, total, for_each-Effects}
use noidear.Warehouse.Books.{
  IsSound, IsAccounted, IsMove, Changes-IsSound, Changes-IsMove, total-IsAccounted, total-IsMove,
}
use noidear.Warehouse.Store.{Store, Item, Slip}
use noidear.Warehouse.Slips.{SlipKind, return_slip, scrap_slip, complete, complete_item}
use noidear.Warehouse.Slips.Effect.{settle, complete_item-Effects}
use noidear.Warehouse.Slips.Complete.{complete-ok, complete_atomic}

settle-IsAccounted : (kind : SlipKind) (k : ℕ) (item : Item) → IsAccounted (settle kind k item)
settle-IsAccounted return_slip k item = omega int_laws
settle-IsAccounted scrap_slip k item = omega int_laws

settle-IsMove : (k : ℕ) (item : Item) → IsMove (settle return_slip k item)
settle-IsMove k item = omega int_laws

-- The sum of the quantities of the items of one batch.
unfoldable pub quantity_of : ℕ → List Item → ℤ
quantity_of k [] = pos 0
quantity_of k (item ∷ items) = part k item.batch_id item.quantity +ℤ quantity_of k items

double_step :
    (dh dt q r : ℤ)
    → dh +ℤ dt ≡ pos 0 -ℤ (r +ℤ r)
    → pos 0 -ℤ q +ℤ dh +ℤ (pos 0 -ℤ q +ℤ dt) ≡ pos 0 -ℤ (q +ℤ r +ℤ (q +ℤ r))
double_step dh dt q r e = omega (int_laws, ap pos_part e, ap neg_part e)

lost :
    (h t h' t' dh dt q : ℤ)
    → h' ≡ h +ℤ dh
    → t' ≡ t +ℤ dt
    → dh +ℤ dt ≡ pos 0 -ℤ q
    → h' +ℤ t' ≡ h +ℤ t -ℤ q
lost h t h' t' dh dt q eh et d = rw (eh, et) (omega (int_laws, ap pos_part d, ap neg_part d))

scrap_total :
    (k : ℕ) (items : List Item)
    → let d = total (settle scrap_slip k) items in
      d.hand_by +ℤ d.staged_by ≡ pos 0 -ℤ (quantity_of k items +ℤ quantity_of k items)
unfolding total quantity_of
scrap_total k [] = omega int_laws
scrap_total k (item ∷ items) = double_step _ _ _ _ (scrap_total k items)

module _ {A : Type 0} (kind : SlipKind) (now id : ℕ) (s : Store A) where
  -- If `complete` returns, each sum of each batch has changed by what the slip's items say.
  pub complete-Changes :
      (r : Slip)
      → IsKeyed s.stock
      → (complete kind now id s).0 ≡ ok r
      → (k : ℕ) → Changes k (total (settle kind k) r.items) s.stock (complete kind now id s).1.stock
  complete-Changes r keyed h k =
      let c = complete-ok kind now id s r h in
      let step =
        for_each-Effects k (settle kind k) (complete_item kind c.row now)
          (complete_item-Effects k kind c.row now) c.row.items in
      rw (c.after, c.returned) (step.on_ok s.stock tt keyed c.stock_ok)

  -- Whether `complete` of a return or of a scrap returns or throws, it keeps the invariant of the
  -- stock tables, when that held before: the keys are in order, the books of every batch balance,
  -- and the movement ledger explains what the warehouse holds of every batch.
  pub complete_slip-IsSound :
      {base : ℕ → ℤ} → IsSound base s.stock → IsSound base (complete kind now id s).1.stock
  complete_slip-IsSound h = elim (Result-cases (complete kind now id s).0) [
    | inl (r, e) ↦
        let c = complete-Changes r h.keyed e in
        Changes-IsSound (λ k. total (settle kind k) r.items) (c 0).keyed
          (λ k. total-IsAccounted (settle kind k) (settle-IsAccounted kind k) r.items) c h
    | inr (x, e) ↦ rw (complete_atomic kind now id s x e) h
  ]

module _ {A : Type 0} (now id : ℕ) (s : Store A) (k : ℕ) (keyed : IsKeyed s.stock) where
  -- If the keys of the stock tables are in order, the sum of what the warehouse and the staging
  -- areas hold of a batch is the same after `complete` of a return, whether it returns or throws.
  pub return_conserves :
      let s' = (complete return_slip now id s).1 in
      hand k s'.stock +ℤ staged k s'.stock ≡ hand k s.stock +ℤ staged k s.stock
  return_conserves = elim (Result-cases (complete return_slip now id s).0) [
    | inl (r, e) ↦
        Changes-IsMove (total-IsMove (settle return_slip k) (settle-IsMove k) r.items)
          (complete-Changes return_slip now id s r keyed e k)
    | inr (x, e) ↦
        ap (λ t. hand k t.stock +ℤ staged k t.stock) (complete_atomic return_slip now id s x e)
  ]

  -- If the keys of the stock tables are in order and `complete` of a scrap returns, the sum of what
  -- the warehouse and the staging areas hold of a batch has fallen by twice what the scrap's items
  -- say of it: the staging row and the warehouse batch are both decremented.
  pub scrap_loses_double :
      (r : Slip)
      → (complete scrap_slip now id s).0 ≡ ok r
      → let s' = (complete scrap_slip now id s).1 in
        hand k s'.stock +ℤ staged k s'.stock
        ≡ hand k s.stock +ℤ staged k s.stock -ℤ (quantity_of k r.items +ℤ quantity_of k r.items)
  scrap_loses_double r e =
      let c = complete-Changes scrap_slip now id s r keyed e k in
      let d = scrap_total k r.items in lost _ _ _ _ _ _ _ c.hand_eq c.staged_eq d
