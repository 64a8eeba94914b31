-- ===== src/Warehouse/Effect.antt =====
-- The effect of an action on the sums of one batch, and the rules that put effects together.
use noidear.Base.{ℕ, ◌≡◌, refl, List, [], ◌∷◌, ap, subst}
use noidear.Base.Int.{ℤ, pos, ◌+ℤ◌, int_laws, pos_part, neg_part}
use noidear.Base.Action.{Action, Result, ok, err, continue, for_each, ◌>>=◌, ◌>>◌}
use noidear.Warehouse.Model.{Db, IsKeyed, stock_in, stock_out, stock_return, stock_scrap}
use noidear.Warehouse.Measures.{hand, staged, recorded, used, ledger}

-- How much each sum of a batch changes.
pub record Delta : Type 0 where
  pub hand_by : ℤ
  pub staged_by : ℤ
  pub in_by : ℤ
  pub out_by : ℤ
  pub return_by : ℤ
  pub scrap_by : ℤ
  pub used_by : ℤ
  pub ledger_by : ℤ

abbrev pub no_change : Delta
no_change = record {
  hand_by = pos 0;
  staged_by = pos 0;
  in_by = pos 0;
  out_by = pos 0;
  return_by = pos 0;
  scrap_by = pos 0;
  used_by = pos 0;
  ledger_by = pos 0;
}

abbrev pub plus : Delta → Delta → Delta
plus d e = record {
  hand_by = d.hand_by +ℤ e.hand_by;
  staged_by = d.staged_by +ℤ e.staged_by;
  in_by = d.in_by +ℤ e.in_by;
  out_by = d.out_by +ℤ e.out_by;
  return_by = d.return_by +ℤ e.return_by;
  scrap_by = d.scrap_by +ℤ e.scrap_by;
  used_by = d.used_by +ℤ e.used_by;
  ledger_by = d.ledger_by +ℤ e.ledger_by;
}

-- From `s` to `s'` the sums of batch `k` change by `d`, and the keys are in order.
pub record Changes (k : ℕ) (d : Delta) (s s' : Db) : Type 0 where
  pub keyed : IsKeyed s'
  pub hand_eq : hand k s' ≡ hand k s +ℤ d.hand_by
  pub staged_eq : staged k s' ≡ staged k s +ℤ d.staged_by
  pub in_eq : recorded stock_in k s' ≡ recorded stock_in k s +ℤ d.in_by
  pub out_eq : recorded stock_out k s' ≡ recorded stock_out k s +ℤ d.out_by
  pub return_eq : recorded stock_return k s' ≡ recorded stock_return k s +ℤ d.return_by
  pub scrap_eq : recorded stock_scrap k s' ≡ recorded stock_scrap k s +ℤ d.scrap_by
  pub used_eq : used k s' ≡ used k s +ℤ d.used_by
  pub ledger_eq : ledger k s' ≡ ledger k s +ℤ d.ledger_by

-- If the action returns, the sums of batch `k` have changed by `d`.
pub record Effects {A : Type 0} (k : ℕ) (d : Delta) (m : Action Db A) : Type 0 where
  pub on_ok : (s : Db) (a : A) → IsKeyed s → (m s).0 ≡ ok a → Changes k d s (m s).1

pub +ℤ_zero : (a : ℤ) → a ≡ a +ℤ pos 0
+ℤ_zero a = omega int_laws

+ℤ_step : (x y z d e : ℤ) → y ≡ x +ℤ d → z ≡ y +ℤ e → z ≡ x +ℤ (d +ℤ e)
+ℤ_step x y z d e h k = omega (int_laws, ap pos_part h, ap neg_part h, ap pos_part k, ap neg_part k)

pub Changes-refl : (k : ℕ) (s : Db) → IsKeyed s → Changes k no_change s s
Changes-refl k s keyed = record {
  keyed = keyed;
  hand_eq = +ℤ_zero _;
  staged_eq = +ℤ_zero _;
  in_eq = +ℤ_zero _;
  out_eq = +ℤ_zero _;
  return_eq = +ℤ_zero _;
  scrap_eq = +ℤ_zero _;
  used_eq = +ℤ_zero _;
  ledger_eq = +ℤ_zero _;
}

pub Changes-trans :
    {k : ℕ} {d e : Delta} {s t u : Db}
    → Changes k d s t
    → Changes k e t u
    → Changes k (plus d e) s u
Changes-trans a b = record {
  keyed = b.keyed;
  hand_eq = +ℤ_step _ _ _ _ _ a.hand_eq b.hand_eq;
  staged_eq = +ℤ_step _ _ _ _ _ a.staged_eq b.staged_eq;
  in_eq = +ℤ_step _ _ _ _ _ a.in_eq b.in_eq;
  out_eq = +ℤ_step _ _ _ _ _ a.out_eq b.out_eq;
  return_eq = +ℤ_step _ _ _ _ _ a.return_eq b.return_eq;
  scrap_eq = +ℤ_step _ _ _ _ _ a.scrap_eq b.scrap_eq;
  used_eq = +ℤ_step _ _ _ _ _ a.used_eq b.used_eq;
  ledger_eq = +ℤ_step _ _ _ _ _ a.ledger_eq b.ledger_eq;
}

module _ {A B : Type 0} (k : ℕ) (d e : Delta) (f : A → Action Db B) where
  continue-Effects :
      (s : Db) (r : Result A × Db) (b : B)
      → ((a : A) → Effects k e (f a))
      → ((a : A) → r.0 ≡ ok a → Changes k d s r.1)
      → (continue f r).0 ≡ ok b
      → Changes k (plus d e) s (continue f r).1
  continue-Effects s (ok a, t) b rest first h =
      let c = first a refl in Changes-trans c ((rest a).on_ok t b c.keyed h)
  continue-Effects s (err x, t) b rest first h = absurd (cc h)

module _ {A B : Type 0} (k : ℕ) {d e : Delta} where
  -- The effect of a sequence is the sum of the effects.
  pub bind-Effects :
      (m : Action Db A) (f : A → Action Db B)
      → Effects k d m
      → ((a : A) → Effects k e (f a))
      → Effects k (plus d e) (m >>= f)
  bind-Effects m f first rest = record {
    on_ok = λ s b keyed h. continue-Effects k d e f s (m s) b rest (λ a. first.on_ok s a keyed) h;
  }

  pub then-Effects :
      (m : Action Db A) (n : Action Db B)
      → Effects k d m
      → Effects k e n
      → Effects k (plus d e) (m >> n)
  then-Effects m n first rest = bind-Effects m (λ _. n) first (λ _. rest)

pub record SameDelta (d e : Delta) : Type 0 where
  pub hand_same : d.hand_by ≡ e.hand_by
  pub staged_same : d.staged_by ≡ e.staged_by
  pub in_same : d.in_by ≡ e.in_by
  pub out_same : d.out_by ≡ e.out_by
  pub return_same : d.return_by ≡ e.return_by
  pub scrap_same : d.scrap_by ≡ e.scrap_by
  pub used_same : d.used_by ≡ e.used_by
  pub ledger_same : d.ledger_by ≡ e.ledger_by

SameDelta→eq : {d e : Delta} → SameDelta d e → d ≡ e
SameDelta→eq h = λ i. record {
  hand_by = h.hand_same i;
  staged_by = h.staged_same i;
  in_by = h.in_same i;
  out_by = h.out_same i;
  return_by = h.return_same i;
  scrap_by = h.scrap_same i;
  used_by = h.used_same i;
  ledger_by = h.ledger_same i;
}

-- An effect may be stated by equal amounts.
pub Effects-eq :
    {A : Type 0} {k : ℕ} {d e : Delta} {m : Action Db A}
    → Effects k d m
    → SameDelta d e
    → Effects k e m
Effects-eq {k = k} {m = m} h p = subst (λ x. Effects k x m) (SameDelta→eq p) h

pub Changes-eq :
    {k : ℕ} {d e : Delta} {s s' : Db} → Changes k d s s' → SameDelta d e → Changes k e s s'
Changes-eq {k = k} {s = s} {s' = s'} h p = subst (λ x. Changes k x s s') (SameDelta→eq p) h

module _ {X : Type 0} (delta : X → Delta) where
  -- The sum of the effects of the rounds of a loop.
  unfoldable pub total : List X → Delta
  total [] = no_change
  total (x ∷ xs) = plus (delta x) (total xs)

module _ {X : Type 0} (k : ℕ) (delta : X → Delta) (f : X → Action Db (Unit {0})) where
  -- The effect of a loop is the sum of the effects of its rounds.
  pub for_each-Effects :
      ((x : X) → Effects k (delta x) (f x))
      → (xs : List X) → Effects k (total delta xs) (for_each f xs)
  unfolding for_each total
  for_each-Effects step [] = record { on_ok = λ s a keyed h. Changes-refl k s keyed }
  for_each-Effects step (x ∷ xs) =
      bind-Effects k (f x) (λ _. for_each f xs) (step x) (λ _. for_each-Effects step xs)
