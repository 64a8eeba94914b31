-- ===== src/ProcessChange/Frame.antt =====
-- How the parts of an application can move the database, whether they return or throw: as every
-- write of theirs can. A view that does not see the tables that a part writes is as before.
use noidear.Base.{List, [], ◌∷◌, ◌≡◌, refl, ◌∙◌}
use noidear.Base.Action.{Action, Result, ok, err, continue, for_each, ◌>>=◌, pure}
use noidear.ProcessChange.{Db}
use noidear.ProcessChange.Apply.{collect}

-- The action leads from every database to one that is related to it.
abbrev pub Moves : {A : Type 0} → (Db → Db → Type 0) → Action Db A → Type 0
Moves R m = (s : Db) → R s (m s).1

pub record IsPreorder (R : Db → Db → Type 0) : Type 0 where
  pub same : (s : Db) → R s s
  pub trans : (s t u : Db) → R s t → R t u → R s u

-- The view `f` is the same.
abbrev pub Same : {X : Type 0} → (Db → X) → Db → Db → Type 0
Same f s t = f t ≡ f s

pub Same-IsPreorder : {X : Type 0} (f : Db → X) → IsPreorder (Same f)
Same-IsPreorder f = record { same = λ s. refl; trans = λ s t u h k. k ∙ h }

module _ (R : Db → Db → Type 0) (order : IsPreorder R) where
  continue-Moves :
      {A B : Type 0} (k : A → Action Db B) (s : Db) (r : Result A × Db)
      → R s r.1
      → ((a : A) → Moves R (k a))
      → R s (continue k r).1
  continue-Moves k s (ok a, t) first rest = order.trans s t _ first (rest a t)
  continue-Moves k s (err e, t) first rest = first

  pub bind-Moves :
      {A B : Type 0} (m : Action Db A) (k : A → Action Db B)
      → Moves R m
      → ((a : A) → Moves R (k a))
      → Moves R (m >>= k)
  bind-Moves m k first rest s = continue-Moves k s (m s) (first s) rest

  pub for_each-Moves :
      {Y : Type 0} (g : Y → Action Db (Unit {0}))
      → ((y : Y) → Moves R (g y))
      → (ys : List Y) → Moves R (for_each g ys)
  unfolding for_each
  for_each-Moves g step [] s = order.same s
  for_each-Moves g step (y ∷ ys) s =
      continue-Moves (λ _. for_each g ys) s (g y s) (step y s) (λ _. for_each-Moves g step ys)

  pub collect-Moves :
      {Y Z : Type 0} (g : Y → Action Db Z)
      → ((y : Y) → Moves R (g y))
      → (ys : List Y) → Moves R (collect g ys)
  unfolding collect
  collect-Moves g step [] s = order.same s
  collect-Moves g step (y ∷ ys) s =
      bind-Moves (g y) (λ z. collect g ys >>= (λ zs. pure (z ∷ zs))) (step y)
        (λ z.
          bind-Moves (collect g ys) (λ zs. pure (z ∷ zs)) (collect-Moves g step ys)
            (λ zs t. order.same t))
        s
