-- ===== src/Base/Rows.antt =====
-- The rows of a database table as a list: queries, updates and sums over them, with their laws.
use Prim.Native.Nat.{ℕ, suc, ◌+◌, ◌≤◌, ◌<◌}
use mathlib.Core.Path.{◌≡◌, refl, ap, sym, ◌∙◌}
use mathlib.Core.Logic.{inl, inr}
use mathlib.Core.Bool.{Bool, true, false, not, ◌||◌}
use mathlib.Core.Option.{Option, none, some}
use mathlib.Core.List.{List, [], ◌∷◌, ◌++◌}
use native.Mathlib.Omega.{arith}
use noidear.Base.Tests.{if◌then◌else◌, Bool-cases, Option-cases, if-true, ◌==◌, leb}
use noidear.Base.Int.{+ℤ_comm, ℤ, pos, ◌+ℤ◌, +ℤ_swap, +ℤ_assoc, int_laws}

module _ {ℓ} {A : Type ℓ} where
  abbrev pub length : List A → ℕ
  length [] = 0
  length (x ∷ xs) = suc (length xs)

  -- `findFirst({ where })`: the first row in the table's order
  unfoldable pub find_first : (A → Bool) → List A → Option A
  find_first p [] = none
  find_first p (x ∷ xs) = if p x then some x else find_first p xs

  -- `findMany({ where })`
  unfoldable pub find_many : (A → Bool) → List A → List A
  find_many p [] = []
  find_many p (x ∷ xs) = let rest = find_many p xs in if p x then x ∷ rest else rest

  -- `updateMany({ where, data })`
  unfoldable pub update_many : (A → Bool) → (A → A) → List A → List A
  update_many p f [] = []
  update_many p f (x ∷ xs) = (if p x then f x else x) ∷ update_many p f xs

  -- `count({ where })`
  unfoldable pub count : (A → Bool) → List A → ℕ
  count p [] = 0
  count p (x ∷ xs) = (if p x then 1 else 0) + count p xs

  unfoldable pub any : (A → Bool) → List A → Bool
  any p [] = false
  any p (x ∷ xs) = if p x then true else any p xs

  unfoldable pub sum_by : (A → ℤ) → List A → ℤ
  sum_by f [] = pos 0
  sum_by f (x ∷ xs) = f x +ℤ sum_by f xs

  pub find_first-holds :
      (p : A → Bool) (xs : List A) (r : A) → find_first p xs ≡ some r → p r ≡ true
  unfolding find_first
  find_first-holds p [] r h = ground arith
  find_first-holds p (x ∷ xs) r h = ground (arith, find_first-holds p xs r)

  -- What is found by one test is counted by any other that it passes.
  pub find_first-count :
      (p q : A → Bool) (xs : List A) (r : A)
      → find_first p xs ≡ some r
      → q r ≡ true
      → 0 < count q xs
  unfolding find_first count
  find_first-count p q [] r h k = ground arith
  find_first-count p q (x ∷ xs) r h k = ground (arith, find_first-count p q xs r)

  pub find_first-none : (p : A → Bool) (xs : List A) → find_first p xs ≡ none → count p xs ≡ 0
  unfolding find_first count
  find_first-none p [] h = refl
  find_first-none p (x ∷ xs) h = ground (arith, find_first-none p xs)

  pub update_many-none :
      (p : A → Bool) (f : A → A) (xs : List A) → count p xs ≡ 0 → update_many p f xs ≡ xs
  unfolding update_many count
  update_many-none p f [] h = refl
  update_many-none p f (x ∷ xs) h = ground (arith, update_many-none p f xs)

  -- A test that an update does not disturb counts as before.
  pub count-update_many :
      (q p : A → Bool) (f : A → A) (xs : List A)
      → ((x : A) → q (f x) ≡ q x)
      → count q (update_many p f xs) ≡ count q xs
  unfolding update_many count
  count-update_many q p f [] h = refl
  count-update_many q p f (x ∷ xs) h = ground (arith, h x, count-update_many q p f xs h)

  pub count-append : (q : A → Bool) (xs ys : List A) → count q (xs ++ ys) ≡ count q xs + count q ys
  unfolding count
  count-append q [] ys = omega arith
  count-append q (x ∷ xs) ys = omega (arith, count-append q xs ys)

  pub count-le :
      (p q : A → Bool) (xs : List A) → ((x : A) → p x ≡ true → q x ≡ true) → count p xs ≤ count q xs
  unfolding count
  count-le p q [] h = omega arith
  count-le p q (x ∷ xs) h = ground (arith, h x, count-le p q xs h)

  pub sum_by-append :
      (f : A → ℤ) (xs ys : List A) → sum_by f (xs ++ ys) ≡ sum_by f xs +ℤ sum_by f ys
  unfolding sum_by
  sum_by-append f [] ys = omega int_laws
  sum_by-append f (x ∷ xs) ys = rw (sum_by-append f xs ys) (omega int_laws)

  pub sum_by-update_same :
      (f : A → ℤ) (p : A → Bool) (g : A → A) (xs : List A)
      → ((x : A) → f (g x) ≡ f x)
      → sum_by f (update_many p g xs) ≡ sum_by f xs
  unfolding sum_by update_many
  sum_by-update_same f p g [] h = refl
  sum_by-update_same f p g (x ∷ xs) h = ground (arith, h x, sum_by-update_same f p g xs h)

  -- The update, by its primary key, of a row that was found changes a sum by that row's part.
  pub sum_by-update_found :
      (f : A → ℤ) (p q : A → Bool) (g : A → A) (xs : List A) (r : A)
      → find_first p xs ≡ some r
      → q r ≡ true
      → count q xs ≤ 1
      → sum_by f (update_many q g xs) +ℤ f r ≡ sum_by f xs +ℤ f (g r)
  unfolding sum_by update_many find_first count
  sum_by-update_found f p q g [] r h k u = absurd (ground arith)
  sum_by-update_found f p q g (x ∷ xs) r h k u = elim (Bool-cases (p x)) [
    | inl e ↦
        let same : x ≡ r = ground arith in
        let rest : update_many q g xs ≡ xs = update_many-none q g xs (ground arith) in
        rw rest (ground (arith, +ℤ_swap (f (g r)) (sum_by f xs) (f r)))
    | inr e ↦
        let found : find_first p xs ≡ some r = ground arith in
        let counted : 0 < count q xs = find_first-count p q xs r found k in
        let ih = sum_by-update_found f p q g xs r found k (ground arith) in
        let other : q x ≡ false = ground arith in
        rw other (+ℤ_assoc _ _ _ ∙ ap (λ t. f x +ℤ t) ih ∙ sym (+ℤ_assoc _ _ _))
  ]

  pub count_pos-find_first :
      (p : A → Bool) (xs : List A) → 0 < count p xs → (r : A) × (find_first p xs ≡ some r)
  count_pos-find_first p xs h = elim (Option-cases (find_first p xs)) [
    | inl e ↦ absurd (omega (arith, find_first-none p xs e))
    | inr e ↦ e
  ]

  pub sum_by_one : (f : A → ℤ) (x : A) → sum_by f (x ∷ []) ≡ f x
  unfolding sum_by
  sum_by_one f x = omega int_laws

module _ {ℓ} {A : Type ℓ} where
  pub find_first-append :
      (p : A → Bool) (xs ys : List A) (r : A)
      → find_first p xs ≡ some r
      → find_first p (xs ++ ys) ≡ some r
  unfolding find_first
  find_first-append p [] ys r h = absurd (ground arith)
  find_first-append p (x ∷ xs) ys r h = ground (arith, find_first-append p xs ys r)

  -- A row is found after an update that does not disturb the test, updated if it is meant.
  pub find_first-update_many :
      (p q : A → Bool) (f : A → A) (xs : List A) (r : A)
      → ((x : A) → p (f x) ≡ p x)
      → find_first p xs ≡ some r
      → find_first p (update_many q f xs) ≡ some (if q r then f r else r)
  unfolding find_first update_many
  find_first-update_many p q f [] r h k = absurd (ground arith)
  find_first-update_many p q f (x ∷ xs) r h k =
      ground (arith, h x, find_first-update_many p q f xs r h)

  -- An update after which the rows no longer pass the test by which they were chosen.
  pub count-update_all :
      (p : A → Bool) (f : A → A) (xs : List A)
      → ((x : A) → p (f x) ≡ false)
      → count p (update_many p f xs) ≡ 0
  unfolding count update_many
  count-update_all p f [] h = refl
  count-update_all p f (x ∷ xs) h = ground (arith, h x, count-update_all p f xs h)

  -- The row that a test finds is found, updated, after the update of what passes the test.
  pub find_first-updated :
      (p : A → Bool) (f : A → A) (xs : List A) (r : A)
      → ((x : A) → p (f x) ≡ p x)
      → find_first p xs ≡ some r
      → find_first p (update_many p f xs) ≡ some (f r)
  find_first-updated p f xs r h e =
      find_first-update_many p p f xs r h e
      ∙ ap some (if-true (p r) (f r) r (find_first-holds p xs r e))

  -- The row that was found is the only one with its key, so if it fails a test on the key, none passes it.
  pub found_only :
      (p q has : A → Bool) (xs : List A) (r : A)
      → find_first p xs ≡ some r
      → q r ≡ true
      → count q xs ≤ 1
      → ((x : A) → has x ≡ true → q x ≡ true)
      → has r ≡ false
      → count has xs ≡ 0
  unfolding find_first count
  found_only p q has [] r h k u sub fails = refl
  found_only p q has (x ∷ xs) r h k u sub fails = elim (Bool-cases (p x)) [
    | inl e ↦ let same : x ≡ r = ground arith in ground (arith, count-le has q xs sub)
    | inr e ↦
        let found : find_first p xs ≡ some r = ground arith in
        let counted : 0 < count q xs = find_first-count p q xs r found k in
        ground (arith, sub x, found_only p q has xs r found k (ground arith) sub fails)
  ]

-- `[...new Set(xs)]`, with the elements seen so far
unfoldable pub dedup : List ℕ → List ℕ → List ℕ
dedup seen [] = []
dedup seen (x ∷ xs) = elim (any (λ y. y == x) seen) [
  | true ↦ dedup seen xs
  | false ↦ x ∷ dedup (x ∷ seen) xs
]

module _ {ℓ} {A : Type ℓ} where
  -- After the update, by its primary key, of a row that was found, all rows pass a test if all did and the new
  -- row does.
  pub count-update_found :
      (bad p q : A → Bool) (g : A → A) (xs : List A) (r : A)
      → find_first p xs ≡ some r
      → q r ≡ true
      → count q xs ≤ 1
      → bad (g r) ≡ false
      → count bad xs ≡ 0
      → count bad (update_many q g xs) ≡ 0
  unfolding update_many find_first count
  count-update_found bad p q g [] r h k u good all = refl
  count-update_found bad p q g (x ∷ xs) r h k u good all = elim (Bool-cases (p x)) [
    | inl e ↦
        let same : x ≡ r = ground arith in
        let rest : update_many q g xs ≡ xs = update_many-none q g xs (ground arith) in
        rw rest (ground arith)
    | inr e ↦
        let found : find_first p xs ≡ some r = ground arith in
        let counted : 0 < count q xs = find_first-count p q xs r found k in
        ground (arith, count-update_found bad p q g xs r found k (ground arith) good (ground arith))
  ]

module _ {ℓ} {A : Type ℓ} (id : A → ℕ) where
  -- A row with the next id keeps the keys unique, and the id after it is fresh.
  pub key_added :
      (n j : ℕ) (r : A) (rs : List A)
      → id r ≡ n
      → count (λ x. leb n (id x)) rs ≡ 0
      → count (λ x. id x == j) rs ≤ 1
      → count (λ x. id x == j) (rs ++ r ∷ []) ≤ 1
  unfolding count
  key_added n j r rs same fresh key =
      let below = count-le (λ x. id x == n) (λ x. leb n (id x)) rs (λ x e. ground arith) in
      rw count-append (ground (arith, below))

  pub fresh_added :
      (n : ℕ) (r : A) (rs : List A)
      → id r ≡ n
      → count (λ x. leb n (id x)) rs ≡ 0
      → count (λ x. leb (n + 1) (id x)) (rs ++ r ∷ []) ≡ 0
  unfolding count
  fresh_added n r rs same fresh =
      let below = count-le (λ x. leb (n + 1) (id x)) (λ x. leb n (id x)) rs (λ x e. ground arith) in
      rw count-append (ground (arith, below))

module _ {ℓ} {A : Type ℓ} where
  -- An update that breaks no row that it changes keeps all rows unbroken.
  pub count-update_kept :
      (bad p : A → Bool) (f : A → A) (xs : List A)
      → ((x : A) → p x ≡ true → bad x ≡ false → bad (f x) ≡ false)
      → count bad xs ≡ 0
      → count bad (update_many p f xs) ≡ 0
  unfolding update_many count
  count-update_kept bad p f [] h e = refl
  count-update_kept bad p f (x ∷ xs) h e = ground (arith, h x, count-update_kept bad p f xs h)

module _ {ℓ} {A : Type ℓ} where
  find_many-all : (p : A → Bool) (xs : List A) → count p xs ≡ 0 → find_many (λ x. not (p x)) xs ≡ xs
  unfolding find_many count
  find_many-all p [] h = refl
  find_many-all p (x ∷ xs) h = ground (arith, find_many-all p xs)

  -- The removal of a row by its key takes that row's part from a sum.
  pub sum_by-removed :
      (f : A → ℤ) (p : A → Bool) (xs : List A) (r : A)
      → find_first p xs ≡ some r
      → count p xs ≤ 1
      → sum_by f (find_many (λ x. not (p x)) xs) +ℤ f r ≡ sum_by f xs
  unfolding find_many find_first count sum_by
  sum_by-removed f p [] r h u = absurd (ground arith)
  sum_by-removed f p (x ∷ xs) r h u = elim (Bool-cases (p x)) [
    | inl e ↦
        let same : x ≡ r = ground arith in
        let rest = find_many-all p xs (ground arith) in
        rw (e, rest, same) (+ℤ_comm (sum_by f xs) (f r))
    | inr e ↦
        let found : find_first p xs ≡ some r = ground arith in
        rw e (+ℤ_assoc _ _ _ ∙ ap (λ t. f x +ℤ t) (sum_by-removed f p xs r found (ground arith)))
  ]

abbrev pub includes : ℕ → List ℕ → Bool
includes k xs = any (λ x. x == k) xs

-- Is some element twice in the list? A unique index then refuses the rows.
unfoldable pub has_repeat : List ℕ → Bool
has_repeat [] = false
has_repeat (x ∷ xs) = includes x xs || has_repeat xs
