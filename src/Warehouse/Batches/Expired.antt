-- ===== src/Warehouse/Batches/Expired.antt =====
-- The daily job of batch.service.ts leaves no expired batch in use.
use noidear.Base.{
  ℕ, ◌≡◌, refl, Bool, true, not, ◌&&◌, List, [], ◌∷◌, ◌==◌, any, count, find_many, update_many,
  arith, inl, inr, Bool-cases, count-le, ◌∙◌,
}
use noidear.Warehouse.Model.{Db, Batch, batch_is}
use noidear.Warehouse.Batches.{is_due, expire, expire_all, set_batch, lock_expired_batches}

-- The batch is due and is none of the given ones.
abbrev left_out : ℕ → List Batch → Batch → Bool
left_out now bs b = is_due now b && not (any (λ (x : Batch). x.id == b.id) bs)

expire_step :
    (now : ℕ) (b : Batch) (bs xs : List Batch)
    → count (left_out now (b ∷ bs)) xs ≡ 0
    → count (left_out now bs) (update_many (batch_is b.id) expire xs) ≡ 0
unfolding count update_many any
expire_step now b bs [] h = refl
expire_step now b bs (x ∷ xs) h = ground (arith, expire_step now b bs xs)

expire_all-clears :
    (now : ℕ) (bs : List Batch) (s : Db)
    → count (left_out now bs) s.batches ≡ 0
    → count (is_due now) (expire_all bs s).batches ≡ 0
unfolding expire_all any count
expire_all-clears now [] s h =
    omega (arith, h, count-le (is_due now) (left_out now []) s.batches (λ x e. ground arith))
expire_all-clears now (b ∷ bs) s h =
    expire_all-clears now bs (set_batch b.id expire s) (expire_step now b bs s.batches h)

any-find_many :
    (p q : Batch → Bool) (xs : List Batch) → any p (find_many q xs) ≡ any (λ x. q x && p x) xs
unfolding any find_many
any-find_many p q [] = refl
any-find_many p q (x ∷ xs) = ground (arith, any-find_many p q xs)

any_first : (f : Batch → Bool) (x : Batch) (xs : List Batch) → f x ≡ true → any f (x ∷ xs) ≡ true
unfolding any
any_first f x xs h = ground arith

any_later :
    (f : Batch → Bool) (x : Batch) (xs : List Batch) → any f xs ≡ true → any f (x ∷ xs) ≡ true
unfolding any
any_later f x xs h = ground arith

-- A row that is due is in the list of those.
named :
    (now : ℕ) (x : Batch) (xs ys : List Batch)
    → ((f : Batch → Bool) → any f (x ∷ xs) ≡ true → any f ys ≡ true)
    → is_due now x ≡ true
    → any (λ (z : Batch). z.id == x.id) (find_many (is_due now) ys) ≡ true
named now x xs ys sub due =
    any-find_many (λ (z : Batch). z.id == x.id) (is_due now) ys
    ∙ sub (λ z. is_due now z && z.id == x.id)
        (any_first (λ z. is_due now z && z.id == x.id) x xs (ground arith))

none_left_out :
    (now : ℕ) (xs ys : List Batch)
    → ((f : Batch → Bool) → any f xs ≡ true → any f ys ≡ true)
    → count
        (λ b. is_due now b && not (any (λ (x : Batch). x.id == b.id) (find_many (is_due now) ys)))
        xs
      ≡ 0
unfolding count
none_left_out now [] ys sub = refl
none_left_out now (x ∷ xs) ys sub = elim (Bool-cases (is_due now x)) [
  | inl due ↦
      let found = named now x xs ys sub due in
      rw (due, found) (omega (arith, none_left_out now xs ys (λ f h. sub f (any_later f x xs h))))
  | inr free ↦ rw free (omega (arith, none_left_out now xs ys (λ f h. sub f (any_later f x xs h))))
]

-- After the daily job no batch is due: none that is normal and not deleted has expired before the
-- job's time, whichever rows the table has, also when several rows share an id.
pub lock_expired_batches-clears :
    (now : ℕ) (s : Db) → count (is_due now) (lock_expired_batches now s).1.batches ≡ 0
unfolding lock_expired_batches
lock_expired_batches-clears now s =
    expire_all-clears now (find_many (is_due now) s.batches) s
      (none_left_out now s.batches s.batches (λ f h. h))
