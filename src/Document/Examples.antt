-- ===== src/Document/Examples.antt =====
-- Three documents, the first of which refers to the second and the second to the third.
use noidear.Base.{
  ℕ, true, false, none, some, List, [], ◌∷◌, ◌≡◌, ◌↔◌, refl, arith, any, find_first, find_many, ◌≤◌,
}
use noidear.Base.Action.{ok, err, bad_request}
use noidear.Document.{
  Db, Reference, ReferenceDto, document, create_reference, find_circle, search, circular, spent,
  targets, calculate_depth, deepest, max_depth, new_reference, check_reference, check_target,
  validate_no_circular_reference, validate_depth_limit, insert_reference,
}
use noidear.Document.Search.{find_circle-ends}
use noidear.Document.Decides.{find_circle-Reaches}
use noidear.Document.Depth.{calculate_depth-chains}
use noidear.Document.Acyclic.{IsAcyclic, Reaches, has_edge}
use noidear.Document.Creates.{create_reference-IsAcyclic}

abbrev to : ℕ → ReferenceDto
to k = record {
  target_type = document;
  target_doc_id = some k;
  target_id = none;
  target_route = none;
  section_id = none;
}

abbrev shelf : Db
shelf = record {
  documents =
      record { id = 1; is_deleted = false }
      ∷ record { id = 2; is_deleted = false }
      ∷ record { id = 3; is_deleted = false }
      ∷ record { id = 4; is_deleted = false }
      ∷ [];
  references = [];
}

abbrev linked : Db
linked = (create_reference 2 (to 3) (create_reference 1 (to 2) shelf).1).1

shelf-IsAcyclic : IsAcyclic shelf.references
unfolding IsAcyclic any
shelf-IsAcyclic a b e p = absurd (ground (arith, e))

create_reference-IsAcyclic_example : IsAcyclic linked.references
create_reference-IsAcyclic_example =
    create_reference-IsAcyclic 2 (to 3) (create_reference 1 (to 2) shelf).1
      (create_reference-IsAcyclic 1 (to 2) shelf shelf-IsAcyclic)

abbrev chain : List Reference
chain = new_reference 1 (to 2) (some 2) ∷ new_reference 2 (to 3) (some 3) ∷ []

-- The first two references are accepted, one back to the start is refused, and one on from the end is
-- accepted, although the chain then has three.
links :
    (linked.references ≡ chain)
    × ((create_reference 3 (to 1) linked).0 ≡ err (bad_request "检测到循环引用"))
    × ((create_reference 3 (to 4) linked).0 ≡ ok (new_reference 3 (to 4) (some 4)))
unfolding create_reference check_reference check_target validate_no_circular_reference
    validate_depth_limit insert_reference search targets calculate_depth deepest find_first
    find_many any
links = (refl, refl, refl)

find_circle-ends_example : ¬ (find_circle chain 3 1 ≡ spent)
find_circle-ends_example = find_circle-ends chain 3 1

find_circle-Reaches_example : (find_circle chain 3 1 ≡ circular) ↔ Reaches chain 1 3
find_circle-Reaches_example = find_circle-Reaches chain 3 1

calculate_depth-chains_example :
    (max_depth ≤ calculate_depth chain max_depth 1 0)
    ↔ ((a b : ℕ) × (has_edge chain 1 a ≡ true) × (has_edge chain a b ≡ true))
calculate_depth-chains_example = calculate_depth-chains chain 1
