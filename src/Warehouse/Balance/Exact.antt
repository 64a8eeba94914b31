-- ===== src/Warehouse/Balance/Exact.antt =====
-- The report of a batch in terms of the sums over its rows.
use mathlib.Core.Path.{ap₂}
use noidear.Base.{
  ℕ, ◌≡◌, ◌≤◌, refl, Bool, List, [], ◌∷◌, find_many, count, sum_by, arith, Bool-cases,
  if◌then◌else◌, ◌∙◌, inl, ◌↔◌, inr, ap,
}
use noidear.Base.Int.{ℤ, pos, ◌+ℤ◌, ◌-ℤ◌, abs, abs_zero, int_laws, pos_part, neg_part}
use noidear.Warehouse.Model.{
  Db, Batch, StockRecord, Usage, RecordType, batch_is, IsKeyed, stock_in, stock_out, stock_return,
  stock_scrap,
}
use noidear.Warehouse.Measures.{is_type, record_part, batch_part, hand, recorded, used}
use noidear.Warehouse.Balance.{reduce, of_batch, usage_of, sum_of, first_quantity, check_balance}

reduce-find_many :
    {X : Type 0} (f : X → ℤ) (p : X → Bool) (sum : ℤ) (xs : List X)
    → reduce f sum (find_many p xs) ≡ sum +ℤ sum_by (λ x. if p x then f x else pos 0) xs
unfolding reduce find_many sum_by
reduce-find_many f p sum [] = omega int_laws
reduce-find_many f p sum (x ∷ xs) = elim (Bool-cases (p x)) [
  | inl e ↦ rw (e, reduce-find_many f p (sum +ℤ f x) xs) (omega int_laws)
  | inr e ↦ rw (e, reduce-find_many f p sum xs) (omega int_laws)
]

sum_by-find_many :
    {X : Type 0} (f : X → ℤ) (p : X → Bool) (xs : List X)
    → sum_by f (find_many p xs) ≡ sum_by (λ x. if p x then f x else pos 0) xs
unfolding find_many sum_by
sum_by-find_many f p [] = refl
sum_by-find_many f p (x ∷ xs) = elim (Bool-cases (p x)) [
  | inl e ↦ rw (e, sum_by-find_many f p xs)
  | inr e ↦ rw (e, sum_by-find_many f p xs) (omega int_laws)
]

sum_by-ext :
    {X : Type 0} (f g : X → ℤ) (xs : List X) → ((x : X) → f x ≡ g x) → sum_by f xs ≡ sum_by g xs
unfolding sum_by
sum_by-ext f g [] h = refl
sum_by-ext f g (x ∷ xs) h = ap₂ (λ a b. a +ℤ b) (h x) (sum_by-ext f g xs h)

typed_part :
    (t : RecordType) (k : ℕ) (r : StockRecord)
    → (if of_batch k r then (if is_type t r.record_type then r.quantity else pos 0) else pos 0)
      ≡ record_part t k r
typed_part t k r = ground arith

pub sum_of-eq-recorded :
    (t : RecordType) (k : ℕ) (s : Db)
    → sum_of t (find_many (of_batch k) s.stock_records) ≡ recorded t k s
unfolding sum_of recorded
sum_of-eq-recorded t k s =
    reduce-find_many (λ (r : StockRecord). r.quantity) (λ r. is_type t r.record_type) (pos 0)
      (find_many (of_batch k) s.stock_records)
    ∙ zero_+ℤ _
    ∙ sum_by-find_many (λ (r : StockRecord). if is_type t r.record_type then r.quantity else pos 0)
        (of_batch k) s.stock_records
    ∙ sum_by-ext _ _ s.stock_records (typed_part t k)
  where
    zero_+ℤ : (a : ℤ) → pos 0 +ℤ a ≡ a
    zero_+ℤ a = omega int_laws

pub reduce-eq-used :
    (k : ℕ) (s : Db)
    → reduce (λ (u : Usage). u.quantity) (pos 0) (find_many (usage_of k) s.usages) ≡ used k s
unfolding used
reduce-eq-used k s =
    reduce-find_many (λ (u : Usage). u.quantity) (usage_of k) (pos 0) s.usages ∙ zero_+ℤ _
  where
    zero_+ℤ : (a : ℤ) → pos 0 +ℤ a ≡ a
    zero_+ℤ a = omega int_laws

sum_by_absent :
    (k : ℕ) (bs : List Batch) → count (batch_is k) bs ≡ 0 → sum_by (batch_part k) bs ≡ pos 0
unfolding sum_by count
sum_by_absent k [] h = refl
sum_by_absent k (b ∷ bs) h = elim (Bool-cases (batch_is k b)) [
  | inl e ↦ absurd (ground arith)
  | inr e ↦ rw (e, sum_by_absent k bs (ground arith)) (omega int_laws)
]

first_quantity-eq-sum_by :
    (k : ℕ) (bs : List Batch)
    → count (batch_is k) bs ≤ 1
    → first_quantity (find_many (batch_is k) bs) ≡ sum_by (batch_part k) bs
unfolding sum_by count find_many
first_quantity-eq-sum_by k [] h = refl
first_quantity-eq-sum_by k (b ∷ bs) h = elim (Bool-cases (batch_is k b)) [
  | inl e ↦ rw (e, sum_by_absent k bs (ground arith)) (omega int_laws)
  | inr e ↦ rw (e, first_quantity-eq-sum_by k bs (ground arith)) (omega int_laws)
]

-- The books of a batch balance: what came in is what is there and what went out.
pub record IsBalanced (k : ℕ) (s : Db) : Type 0 where
  pub balanced :
      recorded stock_in k s +ℤ recorded stock_return k s
      ≡ hand k s +ℤ recorded stock_out k s +ℤ recorded stock_scrap k s +ℤ used k s

diff_iff :
    (i r o c u h : ℤ) → (abs (i +ℤ r -ℤ (o +ℤ c) -ℤ u -ℤ h) ≡ 0) ↔ (i +ℤ r ≡ h +ℤ o +ℤ c +ℤ u)
diff_iff i r o c u h = (
  λ e. omega int_laws,
  λ e. abs_zero (i +ℤ r -ℤ (o +ℤ c) -ℤ u -ℤ h) (omega (int_laws, ap pos_part e, ap neg_part e)),
)

-- If the keys of the stock tables are in order, the report of a batch gives as current stock what
-- the warehouse holds of it, and its difference is zero exactly if the books of the batch balance.
pub check_balance-difference :
    (k : ℕ) (s : Db)
    → IsKeyed s
    → ((check_balance k s).current_stock ≡ hand k s)
      × (((check_balance k s).difference ≡ 0) ↔ IsBalanced k s)
unfolding check_balance hand
check_balance-difference k s keyed =
    let first = first_quantity-eq-sum_by k s.batches (keyed.batch_key k) in
    let sums =
      diff_iff (recorded stock_in k s) (recorded stock_return k s) (recorded stock_out k s)
        (recorded stock_scrap k s) (used k s) (hand k s) in
    (
      first,
      rw
          (
            first, sum_of-eq-recorded, sum_of-eq-recorded, sum_of-eq-recorded, sum_of-eq-recorded,
            reduce-eq-used,
          )
          (λ e. record { balanced = sums.0 e }, λ b. sums.1 b.balanced),
    )
