-- ===== src/Base/Action.antt =====
-- A service method as an action on the database: it returns or throws, and what it wrote before it
-- threw stays written unless a `$transaction` rolls it back. An exception carries its message
-- without the values that the source interpolates into it.
use Prim.Native.String.{String}
use mathlib.Core.Path.{◌≡◌, refl}
use mathlib.Core.Logic.{◌⊎◌, inl, inr}
use mathlib.Core.Bool.{Bool}
use mathlib.Core.Option.{Option, none, some}
use mathlib.Core.List.{List, [], ◌∷◌}
use noidear.Base.Tests.{if◌then◌else◌}

-- The HTTP exceptions of NestJS; `internal` is a plain `Error`, or a rejection by Prisma.
pub data Error : Type 0 where
  bad_request not_found forbidden gone conflict internal : String → Error

pub data Result (A : Type 0) : Type 0 where
  ok : A → Result A
  err : Error → Result A

abbrev pub Action : Type 0 → Type 0 → Type 0
Action S A = S → Result A × S

module _ {S A : Type 0} where
  abbrev pub pure : A → Action S A
  pure a s = (ok a, s)

  abbrev pub throw : Error → Action S A
  throw e s = (err e, s)

  abbrev pub gets : (S → A) → Action S A
  gets f s = (ok (f s), s)

  -- `if (!value) throw e`
  abbrev pub or_throw : Option A → Error → Action S A
  or_throw none e s = (err e, s)
  or_throw (some a) e s = (ok a, s)

  abbrev pub rolled_back : S → Result A × S → Result A × S
  rolled_back s (ok a, s') = (ok a, s')
  rolled_back s (err e, s') = (err e, s)

  -- `prisma.$transaction(body)`
  abbrev pub transaction : Action S A → Action S A
  transaction m s = rolled_back s (m s)

module _ {S : Type 0} where
  abbrev pub throw_if : Bool → Error → Action S (Unit {0})
  throw_if c e s = (if c then err e else ok tt, s)

  abbrev pub modify : (S → S) → Action S (Unit {0})
  modify f s = (ok tt, f s)

module _ {S A B : Type 0} where
  abbrev pub continue : (A → Action S B) → Result A × S → Result B × S
  continue f (ok a, s) = f a s
  continue f (err e, s) = (err e, s)

  infixl 5 ◌>>=◌ ◌>>◌
  abbrev pub ◌>>=◌ : Action S A → (A → Action S B) → Action S B
  ◌>>=◌ m f s = continue f (m s)

  abbrev pub ◌>>◌ : Action S A → Action S B → Action S B
  ◌>>◌ m k s = continue (λ _. k) (m s)

module _ {S X : Type 0} where
  -- `for (const x of xs) { … }`
  unfoldable pub for_each : (X → Action S (Unit {0})) → List X → Action S (Unit {0})
  for_each f [] s = (ok tt, s)
  for_each f (x ∷ xs) s = continue (λ _. for_each f xs) (f x s)

-- `P` holds after the action whenever it held before and the action returned.
abbrev pub Keeps : {S A : Type 0} → (S → Type 0) → Action S A → Type 0
Keeps {S} {A} P m = (s : S) (a : A) → P s → (m s).0 ≡ ok a → P (m s).1

module _ {S A B : Type 0} (P : S → Type 0) where
  pub continue-Keeps :
      (f : A → Action S B) (r : Result A × S) (b : B)
      → ((a : A) → r.0 ≡ ok a → P r.1)
      → ((a : A) → Keeps P (f a))
      → (continue f r).0 ≡ ok b
      → P (continue f r).1
  continue-Keeps f (ok a, t) b first rest e = rest a t b (first a refl) e
  continue-Keeps f (err x, t) b first rest e = absurd (cc e)

  -- The rule for a sequence of two actions.
  pub bind-Keeps :
      (m : Action S A) (f : A → Action S B)
      → Keeps P m
      → ((a : A) → Keeps P (f a))
      → Keeps P (m >>= f)
  bind-Keeps m f first rest s b h e = continue-Keeps f (m s) b (λ a. first s a h) rest e

module _ {S X : Type 0} (P : S → Type 0) (f : X → Action S (Unit {0})) where
  -- The rule for a loop: its body keeps the invariant.
  pub for_each-Keeps : ((x : X) → Keeps P (f x)) → (xs : List X) → Keeps P (for_each f xs)
  unfolding for_each
  for_each-Keeps step [] s a h e = h
  for_each-Keeps step (x ∷ xs) s a h e =
      continue-Keeps P (λ _. for_each f xs) (f x s) a (λ u. step x s u h)
        (λ _. for_each-Keeps step xs) e

module _ {S A : Type 0} (P : S → Type 0) where
  rolled_back-Keeps :
      (s : S) (r : Result A × S) → P s → ((a : A) → r.0 ≡ ok a → P r.1) → P (rolled_back s r).1
  rolled_back-Keeps s (ok a, t) h k = k a refl
  rolled_back-Keeps s (err e, t) h k = h

  -- A transaction keeps what its body keeps, also when it throws.
  pub transaction-Keeps : (m : Action S A) → Keeps P m → (s : S) → P s → P (transaction m s).1
  transaction-Keeps m keep s h = rolled_back-Keeps s (m s) h (λ a. keep s a h)

pub Result-cases :
    {A : Type 0} (r : Result A) → ((a : A) × (r ≡ ok a)) ⊎ ((e : Error) × (r ≡ err e))
Result-cases (ok a) = inl (a, refl)
Result-cases (err e) = inr (e, refl)
