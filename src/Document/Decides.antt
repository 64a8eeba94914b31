-- ===== src/Document/Decides.antt =====
-- `validateNoCircularReference` against the chains of references.
use noidear.Base.{
  ℕ, zero, suc, ◌+◌, true, List, [], ◌∷◌, ◌++◌, ◌==◌, ◌≡◌, ◌↔◌, arith, subst, any, includes, length,
  find_many, Bool-cases, Option-cases, inl, inr, ==→eq, ==_refl,
}
use noidear.Document.{Reference, search, circular, targets, unvisited, find_circle}
use noidear.Document.Search.{Verdict-cases, find_circle-ends}
use noidear.Document.Acyclic.{Reaches, stop, step, has_edge, includes-append}
use noidear.Document.Added.{Reaches-trans}
use noidear.Document.Separates.{find_circle-clear}

-- What is queued is referred to.
queued :
    (k b : ℕ) (visited : List ℕ) (refs : List Reference)
    → includes b (unvisited visited (targets k refs)) ≡ true
    → has_edge refs k b ≡ true
unfolding targets any find_many
queued k b visited [] e = absurd (ground (arith, e))
queued k b visited (r ∷ rs) e = elim (Option-cases r.target_doc_id) [
  | inl g ↦ ground (arith, g, e, queued k b visited rs)
  | inr (t, g) ↦ ground (arith, g, e, queued k b visited rs)
]

search-Reaches :
    (refs : List Reference) (source target fuel : ℕ) (visited queue : List ℕ)
    → search refs source fuel visited queue ≡ circular
    → ((a : ℕ) → includes a queue ≡ true → Reaches refs target a)
    → Reaches refs target source
unfolding search any
search-Reaches refs source target fuel visited [] h all = absurd (cc h)
search-Reaches refs source target zero visited (c ∷ queue) h all = absurd (cc h)
search-Reaches refs source target (suc fuel) visited (c ∷ queue) h all =
    let first : Reaches refs target c = all c (ground (arith, ==_refl c)) in
    let later = λ (a : ℕ) (m : includes a queue ≡ true). all a (ground (arith, m)) in
    elim (Bool-cases (includes c visited)) [
      | inl old ↦
          search-Reaches refs source target fuel visited queue (ground (arith, old, h)) later
      | inr new ↦ elim (Bool-cases (c == source)) [
        | inl found ↦ subst (λ j. Reaches refs target j) (==→eq _ _ found) first
        | inr other ↦
            let added = unvisited (c ∷ visited) (targets c refs) in
            search-Reaches refs source target fuel (c ∷ visited) (queue ++ added)
              (ground (arith, new, other, h))
              (λ a m. elim (Bool-cases (includes a queue)) [
                | inl waits ↦ later a waits
                | inr fresh ↦
                    let edge =
                      queued c a (c ∷ visited) refs
                        (ground (arith, includes-append a queue added, m, fresh)) in
                    Reaches-trans refs target c a first (step c a a edge (stop a))
              ])
      ]
    ]

-- The breadth-first search for a circle reports one exactly when a chain of references, or none,
-- leads from the target to the source; also among references that have circles.
pub find_circle-Reaches :
    (refs : List Reference) (source target : ℕ)
    → (find_circle refs source target ≡ circular) ↔ Reaches refs target source
unfolding any
find_circle-Reaches refs source target = (
  λ h.
      search-Reaches refs source target (length refs + 1) [] (target ∷ []) h
        (λ a m. subst (λ j. Reaches refs target j) (==→eq _ _ (ground (arith, m))) (stop target)),
  λ p. elim (Verdict-cases (find_circle refs source target)) [
    | inl e ↦ absurd (find_circle-clear refs source target e p)
    | inr (inl e) ↦ e
    | inr (inr e) ↦ absurd (find_circle-ends refs source target e)
  ],
)
