-- ===== src/Document/Acyclic.antt =====
-- Chains of references between documents, and what it is to have no circle.
use noidear.Base.{
  ℕ, Bool, true, ◌&&◌, ◌||◌, List, [], ◌∷◌, ◌++◌, ◌≡◌, arith, subst, any, includes, find_many,
  Bool-cases, Option-cases, inl, inr, ==→eq, is_some_of,
}
use noidear.Document.{Reference, targets, unvisited, starts_at}

abbrev pub is_edge : ℕ → ℕ → Reference → Bool
is_edge a b r = starts_at a r && is_some_of b r.target_doc_id

-- A document refers to another.
abbrev pub has_edge : List Reference → ℕ → ℕ → Bool
has_edge refs a b = any (is_edge a b) refs

-- A chain of references leads from one document to another, or to itself with none.
pub data Reaches (refs : List Reference) : ℕ → ℕ → Type 0 where
  stop : (a : ℕ) → Reaches refs a a
  step : (a b c : ℕ) → has_edge refs a b ≡ true → Reaches refs b c → Reaches refs a c

unfoldable pub IsAcyclic : List Reference → Type 0
IsAcyclic refs = (a b : ℕ) → has_edge refs a b ≡ true → ¬ Reaches refs b a

pub includes-append :
    (k : ℕ) (xs ys : List ℕ) → includes k (xs ++ ys) ≡ (includes k xs || includes k ys)
unfolding any
includes-append k [] ys = ground arith
includes-append k (x ∷ xs) ys = ground (arith, includes-append k xs ys)

-- The documents that `k` refers to are visited or queued.
pub covered :
    (k b : ℕ) (visited : List ℕ) (refs : List Reference)
    → has_edge refs k b ≡ true
    → (includes b visited || includes b (unvisited visited (targets k refs))) ≡ true
unfolding targets any find_many
covered k b visited [] e = absurd (ground (arith, e))
covered k b visited (r ∷ rs) e = elim (Bool-cases (is_edge k b r)) [
  | inr f ↦
      let before = covered k b visited rs (ground (arith, f, e)) in
      elim (Option-cases r.target_doc_id) [
        | inl g ↦ ground (arith, g, before)
        | inr (t, g) ↦ ground (arith, g, before)
      ]
  | inl f ↦ elim (Option-cases r.target_doc_id) [
    | inl g ↦ absurd (ground (arith, f, g))
    | inr (t, g) ↦
        let same : t ≡ b = ==→eq _ _ (ground (arith, f, g)) in
        elim (Bool-cases (includes t visited)) [
          | inl old ↦
              let known : includes b visited ≡ true =
                subst (λ j. includes j visited ≡ true) same old in
              ground (arith, known)
          | inr new ↦ ground (arith, f, g, new)
        ]
  ]
]
