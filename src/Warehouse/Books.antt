-- ===== src/Warehouse/Books.antt =====
-- The invariant of the stock tables, and the effects that keep it.
use mathlib.Core.Path.{ap₂}
use noidear.Base.{ℕ, ◌≡◌, List, [], ◌∷◌, ap}
use noidear.Base.Int.{ℤ, pos, ◌+ℤ◌, int_laws, pos_part, neg_part}
use noidear.Warehouse.Model.{Db, IsKeyed}
use noidear.Warehouse.Measures.{hand, staged, ledger}
use noidear.Warehouse.Balance.Exact.{IsBalanced}
use noidear.Warehouse.Effect.{Delta, plus, Changes, total}

-- The keys are in order; the books of every batch balance; and the movement ledger explains what
-- the warehouse holds of it beyond `base`, what it held when the ledger began.
pub record IsSound (base : ℕ → ℤ) (s : Db) : Type 0 where
  pub keyed : IsKeyed s
  pub books : (k : ℕ) → IsBalanced k s
  pub explained : (k : ℕ) → hand k s ≡ base k +ℤ ledger k s

-- An effect that the records and the ledger account for.
pub record IsAccounted (d : Delta) : Type 0 where
  pub books_by : d.in_by +ℤ d.return_by ≡ d.hand_by +ℤ d.out_by +ℤ d.scrap_by +ℤ d.used_by
  pub ledger_same : d.ledger_by ≡ d.hand_by

-- An effect that moves material between the warehouse and the staging areas.
abbrev pub IsMove : Delta → Type 0
IsMove d = d.hand_by +ℤ d.staged_by ≡ pos 0

books_step :
    (i r h o c u i' r' h' o' c' u' di dr dh do' dc du : ℤ)
    → i' ≡ i +ℤ di
    → r' ≡ r +ℤ dr
    → h' ≡ h +ℤ dh
    → o' ≡ o +ℤ do'
    → c' ≡ c +ℤ dc
    → u' ≡ u +ℤ du
    → di +ℤ dr ≡ dh +ℤ do' +ℤ dc +ℤ du
    → i +ℤ r ≡ h +ℤ o +ℤ c +ℤ u
    → i' +ℤ r' ≡ h' +ℤ o' +ℤ c' +ℤ u'
books_step i r h o c u i' r' h' o' c' u' di dr dh do' dc du ei er eh eo ec eu d e =
    rw (ei, er, eh, eo, ec, eu)
      (omega (int_laws, ap pos_part d, ap neg_part d, ap pos_part e, ap neg_part e))

pub Changes-IsBalanced :
    {k : ℕ} {d : Delta} {s s' : Db}
    → IsAccounted d
    → Changes k d s s'
    → IsBalanced k s
    → IsBalanced k s'
Changes-IsBalanced a c b = record {
  balanced =
      books_step _ _ _ _ _ _ _ _ _ _ _ _ _ _ _ _ _ _ c.in_eq c.return_eq c.hand_eq c.out_eq
        c.scrap_eq c.used_eq a.books_by b.balanced;
}

explained_step :
    (b h l h' l' dh dl : ℤ) → h' ≡ h +ℤ dh → l' ≡ l +ℤ dl → dl ≡ dh → h ≡ b +ℤ l → h' ≡ b +ℤ l'
explained_step b h l h' l' dh dl eh el d e = rw (eh, el, d, e) (omega int_laws)

pub Changes-IsSound :
    {base : ℕ → ℤ} (delta : ℕ → Delta) {s s' : Db}
    → IsKeyed s'
    → ((k : ℕ) → IsAccounted (delta k))
    → ((k : ℕ) → Changes k (delta k) s s')
    → IsSound base s
    → IsSound base s'
Changes-IsSound delta keyed a c h = record {
  keyed = keyed;
  books = λ k. Changes-IsBalanced (a k) (c k) (h.books k);
  explained = λ k.
      explained_step _ _ _ _ _ _ _ (c k).hand_eq (c k).ledger_eq (a k).ledger_same (h.explained k);
}

move_step :
    (h t h' t' dh dt : ℤ) → h' ≡ h +ℤ dh → t' ≡ t +ℤ dt → dh +ℤ dt ≡ pos 0 → h' +ℤ t' ≡ h +ℤ t
move_step h t h' t' dh dt eh et d = rw (eh, et) (omega (int_laws, ap pos_part d, ap neg_part d))

-- A move leaves the sum of what the warehouse and the staging areas hold.
pub Changes-IsMove :
    {k : ℕ} {d : Delta} {s s' : Db}
    → IsMove d
    → Changes k d s s'
    → hand k s' +ℤ staged k s' ≡ hand k s +ℤ staged k s
Changes-IsMove m c = move_step _ _ _ _ _ _ c.hand_eq c.staged_eq m

pub plus-IsAccounted : (d e : Delta) → IsAccounted d → IsAccounted e → IsAccounted (plus d e)
plus-IsAccounted d e a b = record {
  books_by = omega (
    int_laws,
    ap pos_part a.books_by,
    ap neg_part a.books_by,
    ap pos_part b.books_by,
    ap neg_part b.books_by,
  );
  ledger_same = ap₂ (λ x y. x +ℤ y) a.ledger_same b.ledger_same;
}

plus-IsMove : (a b c d : ℤ) → a +ℤ b ≡ pos 0 → c +ℤ d ≡ pos 0 → a +ℤ c +ℤ (b +ℤ d) ≡ pos 0
plus-IsMove a b c d h k =
    omega (int_laws, ap pos_part h, ap neg_part h, ap pos_part k, ap neg_part k)

module _ {X : Type 0} (delta : X → Delta) where
  pub total-IsAccounted :
      ((x : X) → IsAccounted (delta x)) → (xs : List X) → IsAccounted (total delta xs)
  unfolding total
  total-IsAccounted h [] = omega int_laws
  total-IsAccounted h (x ∷ xs) =
      plus-IsAccounted (delta x) (total delta xs) (h x) (total-IsAccounted h xs)

  pub total-IsMove : ((x : X) → IsMove (delta x)) → (xs : List X) → IsMove (total delta xs)
  unfolding total
  total-IsMove h [] = omega int_laws
  total-IsMove h (x ∷ xs) = plus-IsMove (delta x).hand_by _ _ _ (h x) (total-IsMove h xs)
