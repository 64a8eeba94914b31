-- ===== src/Warehouse/Flow.antt =====
-- How each statement on the stock tables changes the sums of a batch.
use noidear.Base.{
  subst, ℕ, ◌<◌, ◌≡◌, refl, Bool, true, none, some, [], ◌∷◌, ◌==◌, count, find_first,
  sum_by-update_found, sum_by-append, count_pos-find_first, find_first-holds, count-le, Bool-cases,
  update_many, ap, inl, inr, and-left, sum_by_one, Option-cases, ==_refl, ==→eq,
}
use native.Mathlib.Nat.{le_trans}
use noidear.Base.Int.{ℤ, pos, ◌+ℤ◌, ◌-ℤ◌, int_laws, leb_ℤ, pos_part, neg_part}
use noidear.Warehouse.Model.{Db, Stock, IsKeyed, batch_is, stock_is}
use noidear.Warehouse.Stocks.{has_quantity, take_batch, upsert_stock, add_stock}
use noidear.Warehouse.Measures.{part, batch_part, stock_part, hand, staged}

pub sub_part : (k j : ℕ) (a q : ℤ) → part k j (a -ℤ q) +ℤ part k j q ≡ part k j a
sub_part k j a q = elim (Bool-cases (j == k)) [
  | inl e ↦ rw e (omega int_laws)
  | inr e ↦ rw e (omega int_laws)
]

pub add_part : (k j : ℕ) (a q : ℤ) → part k j (a +ℤ q) ≡ part k j a +ℤ part k j q
add_part k j a q = elim (Bool-cases (j == k)) [
  | inl e ↦ rw e (omega int_laws)
  | inr e ↦ rw e (omega int_laws)
]

-- From what `sum_by-update_found` says to the change of the sum.
pub cancel_sub : (h h' f f' q : ℤ) → h' +ℤ f ≡ h +ℤ f' → f' +ℤ q ≡ f → h' ≡ h +ℤ (pos 0 -ℤ q)
cancel_sub h h' f f' q e d =
    omega (int_laws, ap pos_part e, ap neg_part e, ap pos_part d, ap neg_part d)

pub cancel_add : (h h' f f' q : ℤ) → h' +ℤ f ≡ h +ℤ f' → f' ≡ f +ℤ q → h' ≡ h +ℤ q
cancel_add h h' f f' q e d =
    omega (int_laws, ap pos_part e, ap neg_part e, ap pos_part d, ap neg_part d)

module _ (k : ℕ) (s : Db) (keyed : IsKeyed s) where
  pub hand-update_many :
      (b : ℕ) (q : ℤ)
      → 0 < count (has_quantity b q) s.batches
      → hand k (record s { batches = update_many (has_quantity b q) (take_batch q) s.batches })
        ≡ hand k s +ℤ (pos 0 -ℤ part k b q)
  unfolding hand
  hand-update_many b q some_row =
      let (r, found) = count_pos-find_first (has_quantity b q) s.batches some_row in
      let holds = find_first-holds (has_quantity b q) s.batches r found in
      let one =
        le_trans
          (count-le (has_quantity b q) (batch_is b) s.batches
            (λ x. and-left (batch_is b x) (leb_ℤ q x.quantity)))
          (keyed.batch_key b) in
      let sum =
        sum_by-update_found (batch_part k) (has_quantity b q) (has_quantity b q) (take_batch q)
          s.batches r found holds one in
      let same : r.id ≡ b = ==→eq r.id b (and-left (batch_is b r) (leb_ℤ q r.quantity) holds) in
      cancel_sub (hand k s) _ (batch_part k r) (batch_part k (take_batch q r)) (part k b q) sum (
        subst (λ j. part k r.id (r.quantity -ℤ q) +ℤ part k j q ≡ part k r.id r.quantity) same
          (sub_part k r.id r.quantity q))

  -- An update, by its id, of a staging row that was found.
  pub staged-update_found :
      (p : Stock → Bool) (r : Stock) (g : Stock → Stock) (d : ℤ)
      → find_first p s.staging ≡ some r
      → stock_part k (g r) ≡ stock_part k r +ℤ d
      → staged k (record s { staging = update_many (stock_is r.id) g s.staging }) ≡ staged k s +ℤ d
  unfolding staged
  staged-update_found p r g d found h =
      cancel_add (staged k s) _ (stock_part k r) (stock_part k (g r)) d
        (sum_by-update_found (stock_part k) p (stock_is r.id) g s.staging r found (==_refl r.id)
          (keyed.stock_key r.id))
        h

  added :
      (p : Stock → Bool) (b : ℕ) (q : ℤ) (fresh : ℕ → Stock) (r : Stock)
      → find_first p s.staging ≡ some r
      → r.batch_id ≡ b
      → staged k (upsert_stock (some r) q fresh s) ≡ staged k s +ℤ part k b q
  unfolding upsert_stock
  added p b q fresh r found same =
      staged-update_found p r (add_stock q) (part k b q) found
        (rw (← same) (add_part k r.batch_id r.quantity q))

  created :
      (b : ℕ) (q : ℤ) (fresh : ℕ → Stock)
      → ((id : ℕ) → ((fresh id).batch_id ≡ b) × ((fresh id).quantity ≡ q))
      → staged k (upsert_stock none q fresh s) ≡ staged k s +ℤ part k b q
  unfolding upsert_stock staged
  created b q fresh made =
      rw
        (
          sum_by-append (stock_part k) s.staging (fresh s.next_id ∷ []),
          sum_by_one,
          (made s.next_id).0,
          (made s.next_id).1,
        )
        refl

  -- The row that an upsert adds to belongs to the batch, or it creates one.
  pub staged-upsert_stock :
      (p : Stock → Bool) (b : ℕ) (q : ℤ) (fresh : ℕ → Stock)
      → ((r : Stock) → p r ≡ true → r.batch_id ≡ b)
      → ((id : ℕ) → ((fresh id).batch_id ≡ b) × ((fresh id).quantity ≡ q))
      → staged k (upsert_stock (find_first p s.staging) q fresh s) ≡ staged k s +ℤ part k b q
  staged-upsert_stock p b q fresh same made = elim (Option-cases (find_first p s.staging)) [
    | inl e ↦ rw e (created b q fresh made)
    | inr (r, e) ↦ rw e (added p b q fresh r e (same r (find_first-holds p s.staging r e)))
  ]
