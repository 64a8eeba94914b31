-- ===== src/Plant.antt =====
-- The tables of production that the material flow reads and writes: server/src/modules/batch-trace,
-- mixing and warehouse/staging-area.service.ts, from server/src/prisma/schema.prisma.
-- A time is a number of milliseconds.
pub mod Usage
pub mod Staging
pub mod Counting
pub mod Recommend
pub mod MixingChecks
pub mod Mixing
pub mod Examples
use noidear.Base.{ℕ, ◌/◌, String, Bool, Option, List, ◌==◌}
use noidear.Base.Int.{ℤ}
use noidear.Base.Action.{Action, Result}
use noidear.Access.{User, ProductionBatch}
use noidear.Warehouse.Model.{Db}

pub record Recipe : Type 0 where
  pub id : ℕ
  pub product_id : ℕ
  pub is_active : Bool

pub record RecipeLine : Type 0 where
  pub id : ℕ
  pub recipe_id : ℕ
  pub material_id : ℕ
  pub area_id : Option ℕ
  pub area_name_snapshot : Option String
  pub qty_per_batch : ℤ

pub record PlanItem : Type 0 where
  pub id : ℕ
  pub product_id : ℕ
  pub recipe_id : Option ℕ

pub record ShiftType : Type 0 where
  pub id : ℕ
  pub active : Bool

pub record WorkshopArea : Type 0 where
  pub id : ℕ
  pub name : String
  pub is_active : Bool

pub data StocktakeKind : Type 0 where
  shift_start shift_end handover : StocktakeKind

pub data StocktakeStatus : Type 0 where
  draft confirmed exception : StocktakeStatus

pub record Stocktake : Type 0 where
  pub id : ℕ
  pub area_id : ℕ
  pub batch_id : ℕ
  pub kind : StocktakeKind
  pub status : StocktakeStatus
  pub book_quantity : ℤ
  pub actual_quantity : ℤ
  pub difference : ℤ
  pub work_date : ℕ
  pub shift_type_id : ℕ
  pub team_id : Option ℕ
  pub operator_id : Option ℕ
  pub confirmed_at : ℕ
  pub created_at : ℕ
  pub note : Option String

-- The execution number `MIX-<day>-<sequence>` as the pair of the day and the sequence.
pub record Execution : Type 0 where
  pub id : ℕ
  pub execution_no : ℕ × ℕ
  pub recipe_id : ℕ
  pub product_id : ℕ
  pub area_id : ℕ
  pub shift_type_id : Option ℕ
  pub work_date : ℕ
  pub actual_weight : Option ℤ
  pub confirmed_at : ℕ
  pub operator_id : Option ℕ
  pub production_batch_id : Option ℕ

pub record ExecutionLine : Type 0 where
  pub id : ℕ
  pub execution_id : ℕ
  pub recipe_line_id : ℕ
  pub material_id : ℕ
  pub material_batch_id : ℕ
  pub staging_area_stock_id : ℕ
  pub planned_quantity : ℤ
  pub actual_quantity : ℤ
  pub fifo_suggested : Bool
  pub manual_override : Bool
  pub override_reason : Option String

pub record Transfer : Type 0 where
  pub stock_id : ℕ
  pub batch_id : ℕ
  pub from_zone : Option String
  pub to_zone : String
  pub quantity : ℤ
  pub operator_id : ℕ
  pub note : Option String

pub data StagingRecordType : Type 0 where
  opening staging closing : StagingRecordType

pub record StagingRecord : Type 0 where
  pub batch_id : ℕ
  pub record_type : StagingRecordType
  pub quantity : ℤ
  pub operator_id : Option ℕ
  pub shift_date : ℕ

pub record Plant : Type 0 where
  pub stock : Db
  pub users : List User
  pub production_batches : List ProductionBatch
  pub recipes : List Recipe
  pub recipe_lines : List RecipeLine
  pub plan_items : List PlanItem
  pub shift_types : List ShiftType
  pub areas : List WorkshopArea
  pub stocktakes : List Stocktake
  pub executions : List Execution
  pub execution_lines : List ExecutionLine
  pub transfers : List Transfer
  pub staging_records : List StagingRecord
  pub next_id : ℕ

module _ {X : Type 0} where
  abbrev pub put_stock : Plant → Result X × Db → Result X × Plant
  put_stock s (r, t) = (r, record s { stock = t })

  abbrev pub on_stock : Action Db X → Action Plant X
  on_stock m s = put_stock s (m s.stock)

abbrev pub production_batch_is : ℕ → ProductionBatch → Bool
production_batch_is k b = b.id == k

-- The day of a time, of 86 400 000 milliseconds.
abbrev pub day_of : ℕ → ℕ
day_of t = t / 86_400_000
