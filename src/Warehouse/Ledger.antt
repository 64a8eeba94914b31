-- ===== src/Warehouse/Ledger.antt =====
-- server/src/modules/warehouse/services/inventory-movement-ledger.service.ts: the movement ledger.
use noidear.Base.{ℕ, String, Option, [], ◌∷◌, ◌++◌, get_or}
use noidear.Base.Int.{ℤ}
use noidear.Base.Action.{Action, modify}
use noidear.Warehouse.Model.{Db, Movement, MovementType}

pub record MovementInput : Type 0 where
  pub company_id : Option ℕ
  pub movement_type : MovementType
  pub batch_id : ℕ
  pub quantity : ℤ
  pub unit : Option String
  pub ref_type : Option String
  pub ref_id : Option ℕ
  pub operator_id : Option ℕ
  pub moved_at : Option ℕ
  pub from_location : Option String
  pub to_location : Option String
  pub notes : Option String

-- The row that is written; `now` is `new Date()`.
abbrev pub movement_row : ℕ → MovementInput → Movement
movement_row now input = record {
  company_id = get_or input.company_id 1;
  movement_type = input.movement_type;
  object_type = "material_batch";
  object_id = input.batch_id;
  from_location = input.from_location;
  to_location = input.to_location;
  qty = input.quantity;
  unit = get_or input.unit "kg";
  ref_type = input.ref_type;
  ref_id = input.ref_id;
  operator_id = input.operator_id;
  moved_at = get_or input.moved_at now;
  notes = input.notes;
}

abbrev pub record_material_batch_movement : ℕ → MovementInput → Action Db (Unit {0})
record_material_batch_movement now input =
    modify (λ s. record s { movements = s.movements ++ movement_row now input ∷ [] })
