-- ===== src/Document/Separates.antt =====
-- What `validateNoCircularReference` has visited when it finds no circle.
use noidear.Document.Acyclic.{has_edge, Reaches, stop, step, covered, includes-append}
use noidear.Base.{
  ℕ, zero, suc, ◌+◌, true, false, ◌||◌, List, [], ◌∷◌, ◌++◌, ◌==◌, ◌≡◌, refl, arith, sym, subst,
  any, includes, Bool-cases, inl, inr, ==→eq, ==_refl, length,
}
use noidear.Document.{Reference, search, clear, targets, unvisited, find_circle}

-- A set with the target, closed under references, and without the source
record Separates (refs : List Reference) (source : ℕ) (visited queue : List ℕ) : Type 0 where
  within : List ℕ
  more : (a : ℕ) → (includes a visited || includes a queue) ≡ true → includes a within ≡ true
  without : includes source within ≡ false
  closed :
      (a b : ℕ) → includes a within ≡ true → has_edge refs a b ≡ true → includes b within ≡ true

absorb :
    (b c : ℕ) (visited queue : List ℕ)
    → includes c visited ≡ true
    → (includes b visited || includes b (c ∷ queue)) ≡ true
    → (includes b visited || includes b queue) ≡ true
unfolding any
absorb b c visited queue old m = elim (Bool-cases (c == b)) [
  | inl e ↦
      let known : includes b visited ≡ true =
        subst (λ j. includes j visited ≡ true) (==→eq _ _ e) old in
      ground (arith, known)
  | inr e ↦ ground (arith, e, m)
]

search-Separates :
    (refs : List Reference) (source fuel : ℕ) (visited queue : List ℕ)
    → search refs source fuel visited queue ≡ clear
    → includes source visited ≡ false
    → ((a b : ℕ)
        → includes a visited ≡ true
        → has_edge refs a b ≡ true
        → (includes b visited || includes b queue) ≡ true)
    → Separates refs source visited queue
unfolding search any
search-Separates refs source fuel visited [] h out covers = record {
  within = visited;
  more = λ a m. ground (arith, m);
  without = out;
  closed = λ a b m e. ground (arith, covers a b m e);
}
search-Separates refs source zero visited (c ∷ queue) h out covers = absurd (cc h)
search-Separates refs source (suc fuel) visited (c ∷ queue) h out covers =
    elim (Bool-cases (includes c visited)) [
      | inl old ↦
          let rest =
            search-Separates refs source fuel visited queue (ground (arith, old, h)) out
              (λ a b m e. absorb b c visited queue old (covers a b m e)) in
          record {
            within = rest.within;
            more = λ a m. rest.more a (absorb a c visited queue old m);
            without = rest.without;
            closed = rest.closed;
          }
      | inr new ↦ elim (Bool-cases (c == source)) [
        | inl found ↦ absurd (ground (arith, new, found, h))
        | inr other ↦
            let added = unvisited (c ∷ visited) (targets c refs) in
            let rest =
              search-Separates refs source fuel (c ∷ visited) (queue ++ added)
                (ground (arith, new, other, h)) (ground (arith, other, out))
                (λ a b m e. elim (Bool-cases (c == a)) [
                  | inl f ↦
                      let found =
                        covered c b (c ∷ visited) refs
                          (subst (λ j. has_edge refs j b ≡ true) (sym (==→eq _ _ f)) e) in
                      ground (arith, includes-append b queue added, found)
                  | inr f ↦ ground (
                    arith,
                    f,
                    m,
                    includes-append b queue added,
                    covers a b (ground (arith, f, m)) e,
                  )
                ]) in
            record {
              within = rest.within;
              more = λ a m. rest.more a (ground (arith, includes-append a queue added, m));
              without = rest.without;
              closed = rest.closed;
            }
      ]
    ]

-- Nothing that is visited or queued leads to the source.
Separates-clear :
    (refs : List Reference) (source : ℕ) (within : List ℕ)
    → ((a b : ℕ) → includes a within ≡ true → has_edge refs a b ≡ true → includes b within ≡ true)
    → includes source within ≡ false
    → (a : ℕ) → includes a within ≡ true
    → ¬ Reaches refs a source
Separates-clear refs source within closed out a h (stop _) = absurd (cc (h, out))
Separates-clear refs source within closed out a h (step _ b _ e rest) =
    Separates-clear refs source within closed out b (closed a b h e) rest

-- A target that the search passes does not lead to the source.
pub find_circle-clear :
    (refs : List Reference) (source target : ℕ)
    → find_circle refs source target ≡ clear
    → ¬ Reaches refs target source
unfolding any
find_circle-clear refs source target h =
    let kept =
      search-Separates refs source (length refs + 1) [] (target ∷ []) h refl
        (λ a b m e. absurd (cc m)) in
    Separates-clear refs source kept.within kept.closed kept.without target
      (kept.more target (ground (arith, ==_refl target)))
