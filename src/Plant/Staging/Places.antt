-- ===== src/Plant/Staging/Places.antt =====
-- What staging-area.service.ts leaves where: the staging rows by batch and location.
use noidear.Base.{
  ℕ, String, Bool, true, ◌==◌, ==_refl, ◌≡◌, refl, Option, some, none, [], ◌∷◌, find_first,
  find_first-holds, sum_by, sum_by-update_found, sum_by-append, sum_by_one, arith, ap, inl, inr,
  Option-cases, Bool-cases, eq_iff, if◌then◌else◌, ==→eq, and-left,
}
use noidear.Base.Int.{ℤ, pos, ◌+ℤ◌, ◌-ℤ◌, int_laws}
use noidear.Warehouse.Model.{Db, Stock, IsKeyed, stock_is, is_text}
use noidear.Warehouse.Stocks.{upsert_stock, add_stock, new_stock}
use noidear.Warehouse.Flow.{cancel_add, cancel_sub}
use noidear.Plant.Staging.{at_location, set_quantity, set_row}

-- A choice of batches and locations
abbrev pub Place : Type 0
Place = ℕ → Option String → Bool

-- A quantity of a batch at a location, as far as the place takes it in
abbrev pub counted : Place → ℕ → Option String → ℤ → ℤ
counted place batch_id location q = if place batch_id location then q else pos 0

-- What the rows of a place hold together
unfoldable pub held : Place → Db → ℤ
held place s = sum_by (λ (x : Stock). counted place x.batch_id x.location x.quantity) s.staging

counted_sub :
    (place : Place) (b : ℕ) (l : Option String) (a q : ℤ)
    → counted place b l (a -ℤ q) +ℤ counted place b l q ≡ counted place b l a
counted_sub place b l a q = elim (Bool-cases (place b l)) [
  | inl e ↦ rw e (omega int_laws)
  | inr e ↦ rw e (omega int_laws)
]

counted_add :
    (place : Place) (b : ℕ) (l : Option String) (a q : ℤ)
    → counted place b l (a +ℤ q) ≡ counted place b l a +ℤ counted place b l q
counted_add place b l a q = elim (Bool-cases (place b l)) [
  | inl e ↦ rw e (omega int_laws)
  | inr e ↦ rw e (omega int_laws)
]

text_of : (t : String) (o : Option String) → is_text t o ≡ true → o ≡ some t
text_of t none e = absurd (cc e)
text_of t (some u) e = ap some ((eq_iff u t).0 e)

module _ (place : Place) (s : Db) (keyed : IsKeyed s) where
  pub held-set_row :
      (r : Stock) (id : ℕ) (q : ℤ)
      → find_first (stock_is id) s.staging ≡ some r
      → held place (set_row id (set_quantity (r.quantity -ℤ q)) s)
        ≡ held place s +ℤ (pos 0 -ℤ counted place r.batch_id r.location q)
  unfolding held
  held-set_row r id q found =
      cancel_sub (held place s) _ (counted place r.batch_id r.location r.quantity)
        (counted place r.batch_id r.location (r.quantity -ℤ q))
        (counted place r.batch_id r.location q)
        (sum_by-update_found (λ x. counted place x.batch_id x.location x.quantity) (stock_is id)
          (stock_is id) (set_quantity (r.quantity -ℤ q)) s.staging r found
          (find_first-holds (stock_is id) s.staging r found) (keyed.stock_key id))
        (counted_sub place r.batch_id r.location r.quantity q)

  pub held-upsert_stock :
      (b : ℕ) (zone : String) (now : ℕ) (q : ℤ)
      → held place (
          upsert_stock
            (find_first (at_location b zone) s.staging)
            q
            (λ id. new_stock now id b none zone q)
            s)
        ≡ held place s +ℤ counted place b (some zone) q
  unfolding held upsert_stock
  held-upsert_stock b zone now q = elim (Option-cases (find_first (at_location b zone) s.staging)) [
    | inl e ↦
        rw
          (
            e,
            sum_by-append (λ (x : Stock). counted place x.batch_id x.location x.quantity) s.staging
                (new_stock now s.next_id b none zone q ∷ []),
            sum_by_one,
          )
          refl
    | inr (r, e) ↦
        let holds = find_first-holds (at_location b zone) s.staging r e in
        let batch : r.batch_id ≡ b =
          ==→eq r.batch_id b (and-left (r.batch_id == b) (is_text zone r.location) holds) in
        let location : r.location ≡ some zone = text_of zone r.location (ground (arith, holds)) in
        rw e (
          cancel_add (held place s) _ (counted place r.batch_id r.location r.quantity)
            (counted place r.batch_id r.location (r.quantity +ℤ q)) (counted place b (some zone) q)
            (sum_by-update_found (λ (x : Stock). counted place x.batch_id x.location x.quantity)
              (at_location b zone) (stock_is r.id) (add_stock q) s.staging r e (==_refl r.id)
              (keyed.stock_key r.id))
            (rw (← batch, ← location) (counted_add place r.batch_id r.location r.quantity q)))
  ]
