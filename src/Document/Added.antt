-- ===== src/Document/Added.antt =====
-- The chains after a reference is added.
use noidear.Document.Acyclic.{is_edge, has_edge, Reaches, stop, step, IsAcyclic}
use noidear.Base.{
  ℕ, true, none, some, List, [], ◌∷◌, ◌++◌, ◌≡◌, arith, ◌∙◌, ap, sym, subst, any, Bool-cases,
  Option-cases, inl, inr, ◌⊎◌, ==→eq,
}
use noidear.Document.{Reference}

has_edge-append :
    (refs : List Reference) (r : Reference) (a b : ℕ)
    → has_edge (refs ++ r ∷ []) a b ≡ true
    → (has_edge refs a b ≡ true) ⊎ (is_edge a b r ≡ true)
unfolding any
has_edge-append [] r a b e = inr (ground (arith, e))
has_edge-append (x ∷ refs) r a b e = elim (Bool-cases (is_edge a b x)) [
  | inl f ↦ inl (ground (arith, f))
  | inr f ↦ elim (has_edge-append refs r a b (ground (arith, f, e))) [
    | inl g ↦ inl (ground (arith, f, g))
    | inr g ↦ inr g
  ]
]

edge_ends :
    (r : Reference) (a b : ℕ)
    → is_edge a b r ≡ true
    → (r.source_doc_id ≡ a) × (r.target_doc_id ≡ some b)
edge_ends r a b e = elim (Option-cases r.target_doc_id) [
  | inl f ↦ absurd (ground (arith, e, f))
  | inr (t, f) ↦ (==→eq _ _ (ground (arith, e, f)), f ∙ ap some (==→eq _ _ (ground (arith, e, f))))
]

-- A chain with the new reference, or without
Reaches-append :
    (refs : List Reference) (r : Reference) (t a b : ℕ)
    → r.target_doc_id ≡ some t
    → Reaches (refs ++ r ∷ []) a b
    → Reaches refs a b ⊎ Reaches refs a r.source_doc_id × Reaches refs t b
Reaches-append refs r t a b to (stop _) = inl (stop a)
Reaches-append refs r t a b to (step _ c _ e rest) = elim (has_edge-append refs r a c e) [
  | inl old ↦ elim (Reaches-append refs r t c b to rest) [
    | inl p ↦ inl (step a c b old p)
    | inr (p, q) ↦ inr (step a c r.source_doc_id old p, q)
  ]
  | inr new ↦
      let (from, into) = edge_ends r a c new in
      let same : t ≡ c = cc (to, into) in
      let start : Reaches refs a r.source_doc_id =
        subst (λ j. Reaches refs a j) (sym from) (stop a) in
      elim (Reaches-append refs r t c b to rest) [
        | inl p ↦ inr (start, subst (λ j. Reaches refs j b) (sym same) p)
        | inr (p, q) ↦ inr (start, q)
      ]
]

pub Reaches-trans :
    (refs : List Reference) (a b c : ℕ) → Reaches refs a b → Reaches refs b c → Reaches refs a c
Reaches-trans refs a b c (stop _) q = q
Reaches-trans refs a b c (step _ d _ e p) q = step a d c e (Reaches-trans refs d b c p q)

pub added-IsAcyclic :
    (refs : List Reference) (r : Reference) (t : ℕ)
    → r.target_doc_id ≡ some t
    → ¬ Reaches refs t r.source_doc_id
    → IsAcyclic refs
    → IsAcyclic (refs ++ r ∷ [])
unfolding IsAcyclic
added-IsAcyclic refs r t to apart old a b e p = elim (Reaches-append refs r t b a to p) [
  | inr (back, q) ↦ elim (has_edge-append refs r a b e) [
    | inl f ↦ apart (Reaches-trans refs t a r.source_doc_id q (step a b r.source_doc_id f back))
    | inr new ↦
        let (from, into) = edge_ends r a b new in
        apart (subst (λ j. Reaches refs j r.source_doc_id) (cc (into, to)) back)
  ]
  | inl q ↦ elim (has_edge-append refs r a b e) [
    | inl f ↦ old a b f q
    | inr new ↦
        let (from, into) = edge_ends r a b new in
        apart (
          subst (λ j. Reaches refs j r.source_doc_id) (cc (into, to))
            (subst (λ j. Reaches refs b j) (sym from) q))
  ]
]

has_edge-unlinked :
    (refs : List Reference) (r : Reference) (a b : ℕ)
    → r.target_doc_id ≡ none
    → has_edge (refs ++ r ∷ []) a b ≡ true
    → has_edge refs a b ≡ true
has_edge-unlinked refs r a b off e = elim (has_edge-append refs r a b e) [
  | inl old ↦ old
  | inr new ↦ absurd (ground (arith, off, new))
]

Reaches-unlinked :
    (refs : List Reference) (r : Reference) (a b : ℕ)
    → r.target_doc_id ≡ none
    → Reaches (refs ++ r ∷ []) a b
    → Reaches refs a b
Reaches-unlinked refs r a b off (stop _) = stop a
Reaches-unlinked refs r a b off (step _ c _ e p) =
    step a c b (has_edge-unlinked refs r a c off e) (Reaches-unlinked refs r c b off p)

-- A reference to something else than a document adds no edge.
pub unlinked-IsAcyclic :
    (refs : List Reference) (r : Reference)
    → r.target_doc_id ≡ none
    → IsAcyclic refs
    → IsAcyclic (refs ++ r ∷ [])
unfolding IsAcyclic
unlinked-IsAcyclic refs r off old a b e p =
    old a b (has_edge-unlinked refs r a b off e) (Reaches-unlinked refs r b a off p)
