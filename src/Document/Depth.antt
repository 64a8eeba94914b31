-- ===== src/Document/Depth.antt =====
-- `calculateDepth` against the chains of references.
use noidear.Base.{
  ℕ, true, List, [], ◌∷◌, ◌==◌, ◌≡◌, ◌↔◌, ◌≤◌, ◌<◌, refl, arith, ◌∙◌, sym, subst, any, includes,
  leb, Bool-cases, Option-cases, inl, inr, ==→eq, ==_refl,
}
use noidear.Document.{Reference, targets, calculate_depth, deepest, max_depth}
use noidear.Document.Acyclic.{has_edge}

targets-has_edge :
    (k b : ℕ) (refs : List Reference) → includes b (targets k refs) ≡ has_edge refs k b
unfolding targets any
targets-has_edge k b [] = refl
targets-has_edge k b (r ∷ rs) = elim (Option-cases r.target_doc_id) [
  | inl e ↦ ground (arith, e, targets-has_edge k b rs)
  | inr (t, e) ↦ ground (arith, e, targets-has_edge k b rs)
]

deepest-found :
    (f : ℕ → ℕ) (d n : ℕ) (ts : List ℕ)
    → d < n
    → n ≤ deepest f d ts
    → (t : ℕ) × (includes t ts ≡ true) × (n ≤ f t)
unfolding deepest any
deepest-found f d n [] low h = absurd (omega (arith, low, h))
deepest-found f d n (t ∷ ts) low h = elim (Bool-cases (leb (f t) (deepest f d ts))) [
  | inl e ↦
      let (u, m, k) = deepest-found f d n ts low (ground (arith, e, h)) in (u, ground (arith, m), k)
  | inr e ↦ (t, ground (arith, ==_refl t), ground (arith, e, h))
]

deepest-above : (f : ℕ → ℕ) (d t : ℕ) (ts : List ℕ) → includes t ts ≡ true → f t ≤ deepest f d ts
unfolding deepest any
deepest-above f d t [] m = absurd (cc m)
deepest-above f d t (u ∷ ts) m = elim (Bool-cases (u == t)) [
  | inl e ↦ subst (λ j. f j ≤ deepest f d (u ∷ ts)) (==→eq _ _ e) (ground arith)
  | inr e ↦ ground (arith, deepest-above f d t ts (ground (arith, e, m)))
]

-- The last two levels of the recursion
last_level :
    (refs : List Reference) (t : ℕ)
    → calculate_depth refs 1 t 1 ≡ deepest (λ u. 2) 1 (targets t refs)
unfolding calculate_depth
last_level refs t = refl

-- The depth that is calculated for a document reaches the limit exactly when it refers to a
-- document that refers to another.
pub calculate_depth-chains :
    (refs : List Reference) (id : ℕ)
    → (max_depth ≤ calculate_depth refs max_depth id 0)
      ↔ ((a b : ℕ) × (has_edge refs id a ≡ true) × (has_edge refs a b ≡ true))
unfolding calculate_depth
calculate_depth-chains refs id = (
  λ h.
      let (a, m, k) =
        deepest-found (λ t. calculate_depth refs 1 t 1) 0 2 (targets id refs) (omega arith) h in
      let (b, n, low) =
        deepest-found (λ u. 2) 1 2 (targets a refs) (omega arith)
          (subst (λ j. 2 ≤ j) (last_level refs a) k) in
      (a, b, sym (targets-has_edge id a refs) ∙ m, sym (targets-has_edge a b refs) ∙ n),
  λ (a, b, e, f).
      let near : calculate_depth refs 1 a 1 ≤ calculate_depth refs max_depth id 0 =
        deepest-above (λ t. calculate_depth refs 1 t 1) 0 a (targets id refs)
          (targets-has_edge id a refs ∙ e) in
      let far = deepest-above (λ u. 2) 1 b (targets a refs) (targets-has_edge a b refs ∙ f) in
      let up : 2 ≤ calculate_depth refs 1 a 1 = subst (λ j. 2 ≤ j) (sym (last_level refs a)) far in
      omega (arith, near, up),
)
