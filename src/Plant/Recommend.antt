-- ===== src/Plant/Recommend.antt =====
-- `recommendMaterialBatches` of server/src/modules/mixing/mixing.service.ts: which staging rows to
-- take a required quantity from, the oldest first. The rows come sorted from the database.
use noidear.Base.{
  ℕ, ◌≡◌, ◌⊎◌, Bool, count, refl, true, List, [], ◌∷◌, if◌then◌else◌, Bool-cases, arith, ap, ◌∙◌,
  false, inl, inr, sum_by,
}
use noidear.Base.Int.{ℤ, pos, ◌≤ℤ◌, ◌+ℤ◌, ◌-ℤ◌, leb_ℤ, ltb_ℤ, int_laws, pos_part, neg_part}
use noidear.Warehouse.Model.{Stock}

pub record Recommendation : Type 0 where
  pub staging_area_stock_id : ℕ
  pub material_batch_id : ℕ
  pub quantity : ℤ
  pub available_quantity : ℤ

pub record Recommended : Type 0 where
  pub recommendations : List Recommendation
  pub shortage : ℤ

-- `Math.min`
abbrev pub min_ℤ : ℤ → ℤ → ℤ
min_ℤ a b = if leb_ℤ a b then a else b

abbrev pub recommend_row : Stock → ℤ → Recommendation
recommend_row stock remaining = record {
  staging_area_stock_id = stock.id;
  material_batch_id = stock.batch_id;
  quantity = min_ℤ stock.quantity remaining;
  available_quantity = stock.quantity;
}

abbrev pub add_recommendation : Recommendation → Recommended → Recommended
add_recommendation r rest = record rest { recommendations = r ∷ rest.recommendations }

-- The loop over the rows, which breaks when nothing remains.
unfoldable pub recommend : ℤ → List Stock → Recommended
recommend remaining [] = record { recommendations = []; shortage = remaining }
recommend remaining (stock ∷ stocks) =
    let rest = recommend (remaining -ℤ min_ℤ stock.quantity remaining) stocks in
    if leb_ℤ remaining (pos 0)
    then record { recommendations = []; shortage = remaining }
    else add_recommendation (recommend_row stock remaining) rest

-- What the recommendations add up to.
abbrev pub recommended_total : Recommended → ℤ
recommended_total r = sum_by (λ (x : Recommendation). x.quantity) r.recommendations

add_sub : (q r s t : ℤ) → s +ℤ t ≡ r -ℤ q → q +ℤ s +ℤ t ≡ r
add_sub q r s t h = omega (int_laws, ap pos_part h, ap neg_part h)

-- The recommended quantities and the shortage add up to the required quantity.
total_and_shortage :
    (required : ℤ) (stocks : List Stock)
    → recommended_total (recommend required stocks) +ℤ (recommend required stocks).shortage
      ≡ required
unfolding recommend sum_by
total_and_shortage required [] = omega int_laws
total_and_shortage required (stock ∷ stocks) = elim (Bool-cases (leb_ℤ required (pos 0))) [
  | inl e ↦ rw e (omega int_laws)
  | inr e ↦ rw e (
      add_sub (min_ℤ stock.quantity required) required _ _
        (total_and_shortage (required -ℤ min_ℤ stock.quantity required) stocks))
]

-- The recommendations name the rows in their order, from the first on, each with more than nothing
-- and no more than it has.
pub data Within : List Stock → List Recommendation → Type 0 where
  enough : (stocks : List Stock) → Within stocks []
  from_row :
      (stock : Stock) (stocks : List Stock) (r : Recommendation) (rs : List Recommendation)
      → r.staging_area_stock_id ≡ stock.id
      → r.material_batch_id ≡ stock.batch_id
      → r.available_quantity ≡ stock.quantity
      → pos 1 ≤ℤ r.quantity
      → r.quantity ≤ℤ stock.quantity
      → Within stocks rs
      → Within (stock ∷ stocks) (r ∷ rs)

abbrev pub is_used_up : Stock → Bool
is_used_up stock = leb_ℤ stock.quantity (pos 0)

abbrev pub stock_total : List Stock → ℤ
stock_total stocks = sum_by (λ (x : Stock). x.quantity) stocks

recommend_stops :
    (required : ℤ) (stocks : List Stock)
    → leb_ℤ required (pos 0) ≡ true
    → (recommend required stocks).shortage ≡ required
unfolding recommend
recommend_stops required [] h = refl
recommend_stops required (stock ∷ stocks) h = rw h refl

-- The recommendation takes the required quantity from the rows, or all that they hold.
pub record Covers (required : ℤ) (stocks : List Stock) (r : Recommended) : Type 0 where
  pub adds_up : recommended_total r +ℤ r.shortage ≡ required
  pub not_over : pos 0 ≤ℤ r.shortage
  pub within : Within stocks r.recommendations
  pub exact : (r.shortage ≡ pos 0) ⊎ (recommended_total r ≡ stock_total stocks)

-- What is taken from a row that holds something, of a quantity that is more than nothing
min_within :
    (q r : ℤ)
    → leb_ℤ q (pos 0) ≡ false
    → leb_ℤ r (pos 0) ≡ false
    → (pos 1 ≤ℤ min_ℤ q r) × (min_ℤ q r ≤ℤ q) × (pos 0 ≤ℤ (r -ℤ min_ℤ q r))
min_within q r hq hr = elim (Bool-cases (leb_ℤ q r)) [
  | inl a ↦
      let le : q ≤ℤ r = ground (arith, a) in
      rw a (ground (arith, hq), omega arith, omega (int_laws, le))
  | inr a ↦ rw a (ground (arith, hr), ground (arith, a), omega int_laws)
]

sub_self : (r : ℤ) → r -ℤ r ≡ pos 0
sub_self r = omega int_laws

zero_of : (r : ℤ) → pos 0 ≤ℤ r → leb_ℤ r (pos 0) ≡ true → r ≡ pos 0
zero_of r h e = let le : r ≤ℤ pos 0 = ground (arith, e) in omega (int_laws, h, le)

none_left : (q r : ℤ) → leb_ℤ q r ≡ false → r -ℤ min_ℤ q r ≡ pos 0
none_left q r a = rw a (sub_self r)

row_exact :
    (q r total shortage all : ℤ)
    → leb_ℤ q r ≡ true
    → (shortage ≡ pos 0) ⊎ (total ≡ all)
    → (shortage ≡ pos 0) ⊎ (min_ℤ q r +ℤ total ≡ q +ℤ all)
row_exact q r total shortage all a (inl none_left) = inl none_left
row_exact q r total shortage all a (inr same) = inr (rw a (ap (λ t. q +ℤ t) same))

-- If the required quantity is not negative and every row holds more than nothing, as the query
-- asks, then the recommended quantities and the shortage add up to the required quantity, the
-- shortage is not negative, the recommendations name the rows in their order from the first on,
-- each with more than nothing and no more than it has, and either there is no shortage or all that
-- the rows hold is recommended.
pub recommend-Covers :
    (required : ℤ) (stocks : List Stock)
    → pos 0 ≤ℤ required
    → count is_used_up stocks ≡ 0
    → Covers required stocks (recommend required stocks)
unfolding recommend sum_by count
recommend-Covers required [] h full = record {
  adds_up = total_and_shortage required [];
  not_over = h;
  within = enough [];
  exact = inr refl;
}
recommend-Covers required (stock ∷ stocks) h full = elim (Bool-cases (leb_ℤ required (pos 0))) [
  | inl e ↦ record {
    adds_up = total_and_shortage required (stock ∷ stocks);
    not_over = rw e h;
    within = rw e (enough (stock ∷ stocks));
    exact = inl (rw e (zero_of required h e));
  }
  | inr e ↦
      let holds : leb_ℤ stock.quantity (pos 0) ≡ false = ground (arith, full) in
      let taken = min_within stock.quantity required holds e in
      let less = required -ℤ min_ℤ stock.quantity required in
      let rest = recommend-Covers less stocks taken.2 (ground (arith, full)) in
      record {
        adds_up = total_and_shortage required (stock ∷ stocks);
        not_over = rw e rest.not_over;
        within = rw e (from_row stock stocks _ _ refl refl refl taken.0 taken.1 rest.within);
        exact = rw e (elim (Bool-cases (leb_ℤ stock.quantity required)) [
          | inl a ↦ row_exact stock.quantity required _ _ _ a rest.exact
          | inr a ↦ inl (
              let empty : less ≡ pos 0 = none_left stock.quantity required a in
              recommend_stops less stocks (rw empty refl) ∙ empty)
        ]);
      }
]

-- A list of rows that is taken in full: the recommendations name every row, each with all it has.
pub data AllTaken : List Stock → List Recommendation → Type 0 where
  no_rows : AllTaken [] []
  next_row :
      (stock : Stock) (stocks : List Stock) (r : Recommendation) (rs : List Recommendation)
      → r.staging_area_stock_id ≡ stock.id
      → r.quantity ≡ stock.quantity
      → AllTaken stocks rs
      → AllTaken (stock ∷ stocks) (r ∷ rs)

min_all : (q r : ℤ) → ltb_ℤ (pos 0) (r -ℤ min_ℤ q r) ≡ true → min_ℤ q r ≡ q
min_all q r e = elim (Bool-cases (leb_ℤ q r)) [
  | inl a ↦ rw a refl
  | inr a ↦ absurd (ground (arith, sub_self r))
]

-- A shortage is left only of a quantity.
recommend_falls :
    (required : ℤ) (stocks : List Stock)
    → ltb_ℤ (pos 0) (recommend required stocks).shortage ≡ true
    → ltb_ℤ (pos 0) required ≡ true
unfolding recommend
recommend_falls required [] h = h
recommend_falls required (stock ∷ stocks) h = elim (Bool-cases (leb_ℤ required (pos 0))) [
  | inl e ↦ absurd (ground arith)
  | inr e ↦ ground arith
]

-- If the recommendation leaves a shortage, it takes every staging row in full, each in its turn,
-- the first in the given order first.
pub recommend-short :
    (required : ℤ) (stocks : List Stock)
    → ltb_ℤ (pos 0) (recommend required stocks).shortage ≡ true
    → AllTaken stocks (recommend required stocks).recommendations
unfolding recommend
recommend-short required [] h = no_rows
recommend-short required (stock ∷ stocks) h = elim (Bool-cases (leb_ℤ required (pos 0))) [
  | inl e ↦ absurd (ground arith)
  | inr e ↦
      let less = required -ℤ min_ℤ stock.quantity required in
      let short : ltb_ℤ (pos 0) (recommend less stocks).shortage ≡ true = ground arith in
      rw e (
        next_row stock stocks _ _ refl
          (min_all stock.quantity required (recommend_falls less stocks short))
          (recommend-short less stocks short))
]
