-- ===== src/Access/Examples.antt =====
-- The visible batches of a leader on concrete tables.
use noidear.Base.{◌≡◌, none, some, [], ◌∷◌}
use noidear.Access.{
  OwnershipContext, leader, User, ProductionBatch, planned, visible_production_batch_ids, List,
}
use noidear.Access.Visible.{admits, in_scope, visible-admits}

abbrev leader_five : OwnershipContext
leader_five = record {
  user_id = 5;
  role_code = leader;
  department_id = some 1;
  managed_department_ids = some (1 ∷ []);
}

abbrev users : List User
users = record { id = 8; department_id = some 1 } ∷ record { id = 9; department_id = some 2 } ∷ []

abbrev batches : List ProductionBatch
batches =
    record {
      id = 11;
      product_id = 21;
      recipe_id = none;
      status = planned;
      plan_item_id = none;
      leader_id = some 8;
    }
    ∷ record {
      id = 12;
      product_id = 21;
      recipe_id = none;
      status = planned;
      plan_item_id = none;
      leader_id = some 9;
    }
    ∷ []

visible-admits_example :
    admits (visible_production_batch_ids users batches leader_five) 11
    ≡ in_scope leader leader_five users batches 11
visible-admits_example = visible-admits users batches leader_five 11
