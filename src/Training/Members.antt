-- ===== src/Training/Members.antt =====
-- Who is in a list of ids or of learning records: what the statements of the training services do
-- to it.
use noidear.Base.{
  ℕ, Bool, true, false, not, ◌&&◌, ◌||◌, none, List, [], ◌∷◌, ◌++◌, ◌==◌, any, find_first,
  find_many, dedup, count, ◌≡◌, refl, arith, update_many, inl, inr, Bool-cases, ==→eq, leb, suc,
  ◌≤◌, count-le,
}
use noidear.Training.{LearningRecord, includes, record_of, new_records, missing_users}

module _ {A : Type 0} where
  pub any-append : (p : A → Bool) (xs ys : List A) → any p (xs ++ ys) ≡ any p xs || any p ys
  unfolding any
  any-append p [] ys = refl
  any-append p (x ∷ xs) ys = ground (arith, any-append p xs ys)

  -- A selection that drops a row only where the other test fails.
  pub any-find_many :
      (p q : A → Bool) (b : Bool) (xs : List A)
      → ((x : A) → (q x && p x) ≡ (b && p x))
      → any p (find_many q xs) ≡ (b && any p xs)
  unfolding any find_many
  any-find_many p q b [] h = ground arith
  any-find_many p q b (x ∷ xs) h = ground (arith, h x, any-find_many p q b xs h)

  pub any-update_many :
      (p q : A → Bool) (f : A → A) (xs : List A)
      → ((x : A) → p (f x) ≡ p x)
      → any p (update_many q f xs) ≡ any p xs
  unfolding any update_many
  any-update_many p q f [] h = refl
  any-update_many p q f (x ∷ xs) h = ground (arith, h x, any-update_many p q f xs h)

  pub any-none :
      (p q : A → Bool) (xs : List A)
      → ((x : A) → p x ≡ true → q x ≡ true)
      → count q xs ≡ 0
      → any p xs ≡ false
  unfolding any count
  any-none p q [] h e = refl
  any-none p q (x ∷ xs) h e = ground (arith, h x, any-none p q xs h)

  -- An update of other rows.
  pub find_first-update_other :
      (p q : A → Bool) (f : A → A) (xs : List A)
      → ((x : A) → p (f x) ≡ p x)
      → ((x : A) → q x ≡ true → p x ≡ false)
      → find_first p (update_many q f xs) ≡ find_first p xs
  unfolding find_first update_many
  find_first-update_other p q f [] same other = refl
  find_first-update_other p q f (x ∷ xs) same other =
      ground (arith, same x, other x, find_first-update_other p q f xs same other)

  pub find_first-kept :
      (p q : A → Bool) (xs : List A)
      → ((x : A) → p x ≡ true → q x ≡ true)
      → find_first p (find_many q xs) ≡ find_first p xs
  unfolding find_first find_many
  find_first-kept p q [] h = refl
  find_first-kept p q (x ∷ xs) h = ground (arith, h x, find_first-kept p q xs h)

  pub find_first-removed :
      (p : A → Bool) (xs : List A) → find_first p (find_many (λ x. not (p x)) xs) ≡ none
  unfolding find_first find_many
  find_first-removed p [] = refl
  find_first-removed p (x ∷ xs) = ground (arith, find_first-removed p xs)

  pub find_first-append_none :
      (p : A → Bool) (xs ys : List A)
      → find_first p xs ≡ none
      → find_first p (xs ++ ys) ≡ find_first p ys
  unfolding find_first
  find_first-append_none p [] ys h = refl
  find_first-append_none p (x ∷ xs) ys h = ground (arith, find_first-append_none p xs ys)

  pub count-find_many-le : (p q : A → Bool) (xs : List A) → count p (find_many q xs) ≤ count p xs
  unfolding count find_many
  count-find_many-le p q [] = omega arith
  count-find_many-le p q (x ∷ xs) = ground (arith, count-find_many-le p q xs)

  -- No row has a key from an id on, so none has one from a later id on.
  pub fresh_mono :
      (key : A → ℕ) (n m : ℕ) (xs : List A)
      → n ≤ m
      → count (λ x. leb n (key x)) xs ≡ 0
      → count (λ x. leb m (key x)) xs ≡ 0
  fresh_mono key n m xs le h =
      omega (arith, count-le (λ x. leb m (key x)) (λ x. leb n (key x)) xs (λ x e. ground arith))

pub includes-dedup :
    (u : ℕ) (seen xs : List ℕ)
    → (includes u (dedup seen xs) || includes u seen) ≡ (includes u xs || includes u seen)
unfolding dedup any
includes-dedup u seen [] = refl
includes-dedup u seen (x ∷ xs) = elim (Bool-cases (x == u)) [
  | inl e ↦
      let same : x ≡ u = ==→eq x u e in
      rw same (ground (arith, includes-dedup u seen xs, includes-dedup u (u ∷ seen) xs))
  | inr e ↦ ground (arith, includes-dedup u seen xs, includes-dedup u (x ∷ seen) xs)
]

pub includes-missing_users :
    (u k : ℕ) (rs : List LearningRecord) (us : List ℕ)
    → includes u (missing_users k rs us) ≡ (includes u us && not (any (record_of k u) rs))
unfolding missing_users any find_many
includes-missing_users u k rs [] = refl
includes-missing_users u k rs (x ∷ us) = elim (Bool-cases (x == u)) [
  | inl e ↦
      let same : x ≡ u = ==→eq x u e in rw same (ground (arith, includes-missing_users u k rs us))
  | inr e ↦ ground (arith, includes-missing_users u k rs us)
]

pub any-new_records :
    (u k n j : ℕ) (us : List ℕ)
    → any (record_of k u) (new_records n j us) ≡ ((j == k) && includes u us)
unfolding new_records any
any-new_records u k n j [] = ground arith
any-new_records u k n j (x ∷ us) = ground (arith, any-new_records u k (suc n) j us)
