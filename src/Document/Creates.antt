-- ===== src/Document/Creates.antt =====
-- `createReference` and the circles.
use noidear.Base.{
  ℕ, Option, some, [], ◌∷◌, ◌++◌, ◌≡◌, arith, ◌∙◌, ap, sym, subst, any, Bool-cases, Option-cases,
  inl, inr, find_first, ◌==◌, ◌⊎◌,
}
use noidear.Base.Action.{ok, Result-cases}
use noidear.Document.{
  Db, ReferenceDto, clear, find_circle, create_reference, check_reference, check_target,
  insert_reference, new_reference, validate_no_circular_reference, validate_depth_limit, is_live,
  is_document, lacks_target, repeats,
}
use noidear.Document.Search.{Verdict-cases}
use noidear.Document.Acyclic.{IsAcyclic}
use noidear.Document.Added.{added-IsAcyclic, unlinked-IsAcyclic}
use noidear.Document.Separates.{find_circle-clear}

-- What the checks of a target let pass
check_target-clear :
    (source target : ℕ) (s : Db)
    → ((check_target source target s).1 ≡ s)
      × ((check_target source target s).0 ≡ ok tt → find_circle s.references source target ≡ clear)
unfolding check_target validate_no_circular_reference validate_depth_limit
check_target-clear source target s = elim (Option-cases (find_first (is_live target) s.documents)) [
  | inl e ↦ (ground (arith, e), λ h. absurd (ground (arith, e, h)))
  | inr (d, e) ↦ elim (Bool-cases (source == target)) [
    | inl f ↦ (ground (arith, e, f), λ h. absurd (ground (arith, e, f, h)))
    | inr f ↦ elim (Verdict-cases (find_circle s.references source target)) [
      | inl g ↦ (ground (arith, e, f, g), λ h. g)
      | inr (inl g) ↦ (ground (arith, e, f, g), λ h. absurd (ground (arith, e, f, g, h)))
      | inr (inr g) ↦ (ground (arith, e, f, g), λ h. absurd (ground (arith, e, f, g, h)))
    ]
  ]
]

check_reference-clear :
    (source : ℕ) (dto : ReferenceDto) (s : Db)
    → ((check_reference source dto s).1 ≡ s)
      × ((t : ℕ)
          → (check_reference source dto s).0 ≡ ok (some t)
          → find_circle s.references source t ≡ clear)
unfolding check_reference
check_reference-clear source dto s = elim (Bool-cases (is_document dto.target_type)) [
  | inr e ↦ elim (Bool-cases (lacks_target dto)) [
    | inl f ↦ (ground (arith, e, f), λ t h. absurd (ground (arith, e, f, h)))
    | inr f ↦ (ground (arith, e, f), λ t h. absurd (ground (arith, e, f, h)))
  ]
  | inl e ↦ elim (Option-cases dto.target_doc_id) [
    | inl f ↦ (ground (arith, e, f), λ t h. absurd (ground (arith, e, f, h)))
    | inr (t, f) ↦
        let (same, passes) = check_target-clear source t s in
        elim (Result-cases (check_target source t s).0) [
          | inl (u, g) ↦ (
            ground (arith, e, f, g, same),
            λ k h.
                let own : t ≡ k = ground (arith, e, f, g, h) in
                subst (λ j. find_circle s.references source j ≡ clear) own (passes g),
          )
          | inr (x, g) ↦ (ground (arith, e, f, g, same), λ k h. absurd (ground (arith, e, f, g, h)))
        ]
  ]
]

-- A call writes one reference, whose target has passed the checks, or nothing.
create_reference_shape :
    (source : ℕ) (dto : ReferenceDto) (s : Db)
    → ((create_reference source dto s).1 ≡ s)
      ⊎ (target : Option ℕ) × ((check_reference source dto s).0 ≡ ok target)
        × ((create_reference source dto s).1.references
            ≡ s.references ++ new_reference source dto target ∷ [])
unfolding create_reference insert_reference
create_reference_shape source dto s =
    let (same, passes) = check_reference-clear source dto s in
    elim (Option-cases (find_first (is_live source) s.documents)) [
      | inl e ↦ inl (ground (arith, e))
      | inr (d, e) ↦ elim (Result-cases (check_reference source dto s).0) [
        | inr (x, f) ↦ inl (ground (arith, e, f, same))
        | inl (target, f) ↦
            elim (Bool-cases (any (repeats (new_reference source dto target)) s.references)) [
              | inl g ↦ inl (ground (arith, e, f, g, same))
              | inr g ↦ inr (target, f, ground (arith, e, f, g, same))
            ]
      ]
    ]

-- If no chain of references leads from a document back to itself, this is still so after a call of
-- createReference, whether it returns or throws.
pub create_reference-IsAcyclic :
    (source : ℕ) (dto : ReferenceDto) (s : Db)
    → IsAcyclic s.references
    → IsAcyclic (create_reference source dto s).1.references
create_reference-IsAcyclic source dto s h = elim (create_reference_shape source dto s) [
  | inl same ↦ subst IsAcyclic (sym (ap (λ d. d.references) same)) h
  | inr (target, passed, after) ↦ subst IsAcyclic (sym after) (elim (Option-cases target) [
    | inl e ↦ unlinked-IsAcyclic s.references (new_reference source dto target) e h
    | inr (t, e) ↦
        added-IsAcyclic s.references (new_reference source dto target) t e
          (find_circle-clear s.references source t
            ((check_reference-clear source dto s).1 t (passed ∙ ap ok e)))
          h
  ])
]
