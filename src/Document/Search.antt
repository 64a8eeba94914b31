-- ===== src/Document/Search.antt =====
-- The rounds of `validateNoCircularReference`.
use noidear.Base.{
  ℕ, zero, suc, ◌+◌, Bool, true, false, not, List, [], ◌∷◌, ◌++◌, ◌==◌, ◌≡◌, ◌≤◌, refl, arith, sym,
  subst, any, includes, length, count, find_many, Bool-cases, Option-cases, inl, inr, ◌⊎◌, ==→eq,
  ==_refl,
}
use noidear.Document.{
  Reference, search, Verdict, clear, circular, spent, targets, unvisited, find_circle,
}

-- The references whose source is not yet visited
abbrev pending : List ℕ → Reference → Bool
pending visited r = not (includes r.source_doc_id visited)

targets-bound :
    (k : ℕ) (visited : List ℕ) (refs : List Reference)
    → includes k visited ≡ false
    → length (unvisited (k ∷ visited) (targets k refs)) + count (pending (k ∷ visited)) refs
      ≤ count (pending visited) refs
unfolding targets any count find_many
targets-bound k visited [] h = omega arith
targets-bound k visited (r ∷ rs) h = elim (Bool-cases (r.source_doc_id == k)) [
  | inl e ↦
      let same : r.source_doc_id ≡ k = ==→eq _ _ e in
      let before : includes r.source_doc_id visited ≡ false =
        subst (λ j. includes j visited ≡ false) (sym same) h in
      let after : includes r.source_doc_id (k ∷ visited) ≡ true =
        subst (λ j. includes j (k ∷ visited) ≡ true) (sym same) (ground (arith, ==_refl k)) in
      elim (Option-cases r.target_doc_id) [
        | inl f ↦ ground (arith, e, f, before, after, targets-bound k visited rs h)
        | inr (t, f) ↦ ground (arith, e, f, before, after, targets-bound k visited rs h)
      ]
  | inr e ↦ ground (arith, e, targets-bound k visited rs h)
]

length-append : (xs ys : List ℕ) → length (xs ++ ys) ≡ length xs + length ys
length-append [] ys = omega arith
length-append (x ∷ xs) ys = omega (arith, length-append xs ys)

-- Each round lessens the queue and the pending references together.
search-ends :
    (refs : List Reference) (source fuel : ℕ) (visited queue : List ℕ)
    → length queue + count (pending visited) refs ≤ fuel
    → ¬ (search refs source fuel visited queue ≡ spent)
unfolding search
search-ends refs source fuel visited [] h e = absurd (cc e)
search-ends refs source zero visited (c ∷ queue) h e = absurd (omega (arith, h))
search-ends refs source (suc fuel) visited (c ∷ queue) h e =
    elim (Bool-cases (includes c visited)) [
      | inl old ↦
          search-ends refs source fuel visited queue (omega (arith, h)) (ground (arith, old, e))
      | inr new ↦ elim (Bool-cases (c == source)) [
        | inl found ↦ absurd (ground (arith, new, found, e))
        | inr other ↦
            let added = unvisited (c ∷ visited) (targets c refs) in
            search-ends refs source fuel (c ∷ visited) (queue ++ added)
              (omega (arith, h, length-append queue added, targets-bound c visited refs new))
              (ground (arith, new, other, e))
      ]
    ]

count-length :
    (visited : List ℕ) (refs : List Reference) → count (pending visited) refs ≤ length refs
unfolding count
count-length visited [] = omega arith
count-length visited (r ∷ rs) = ground (arith, count-length visited rs)

-- The search ends within one round for each reference and one for the target, whatever the
-- references are.
pub find_circle-ends :
    (refs : List Reference) (source target : ℕ) → ¬ (find_circle refs source target ≡ spent)
find_circle-ends refs source target =
    search-ends refs source (length refs + 1) [] (target ∷ []) (omega (arith, count-length [] refs))

pub Verdict-cases : (v : Verdict) → (v ≡ clear) ⊎ (v ≡ circular) ⊎ (v ≡ spent)
Verdict-cases clear = inl refl
Verdict-cases circular = inr (inl refl)
Verdict-cases spent = inr (inr refl)
