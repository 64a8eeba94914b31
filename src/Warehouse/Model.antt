-- ===== src/Warehouse/Model.antt =====
-- The tables that the warehouse services read and write, from server/src/prisma/schema.prisma
-- (models MaterialBatch, StagingAreaStock, StockRecord, InventoryMovement, BatchMaterialUsage,
-- Supplier). An id is a number; `next_id` is the next one that the database hands out. A time is a
-- number, and the current one is an argument.
use noidear.Base.{
  ℕ, ◌≤◌, ◌≡◌, String, Bool, Option, List, str_eq, ◌==◌, false, none, some, leb, count,
}
use noidear.Base.Int.{ℤ}

pub data BatchStatus : Type 0 where
  normal expired locked : BatchStatus

pub record Batch : Type 0 where
  pub id : ℕ
  pub batch_number : String
  pub material_id : ℕ
  pub supplier_id : Option ℕ
  pub quantity : ℤ
  pub status : BatchStatus
  pub expiry_date : Option ℕ
  pub created_at : ℕ
  pub deleted_at : Option ℕ

pub record Stock : Type 0 where
  pub id : ℕ
  pub batch_id : ℕ
  pub area_id : Option ℕ
  pub location : Option String
  pub quantity : ℤ
  pub created_at : ℕ

pub data RecordType : Type 0 where
  stock_in stock_out stock_return stock_scrap : RecordType

pub record StockRecord : Type 0 where
  pub batch_id : ℕ
  pub record_type : RecordType
  pub quantity : ℤ
  pub related_id : Option ℕ
  pub related_type : String
  pub operator_id : ℕ
  pub remark : Option String

pub data MovementType : Type 0 where
  receive issue_to_production return_to_warehouse scrap transfer adjustment : MovementType

pub record Movement : Type 0 where
  pub company_id : ℕ
  pub movement_type : MovementType
  pub object_type : String
  pub object_id : ℕ
  pub from_location : Option String
  pub to_location : Option String
  pub qty : ℤ
  pub unit : String
  pub ref_type : Option String
  pub ref_id : Option ℕ
  pub operator_id : Option ℕ
  pub moved_at : ℕ
  pub notes : Option String

pub record Usage : Type 0 where
  pub id : ℕ
  pub production_batch_id : ℕ
  pub material_batch_id : ℕ
  pub recipe_line_id : Option ℕ
  pub area_id : Option ℕ
  pub area_name_snapshot : Option String
  pub quantity : ℤ
  pub execution_line_id : Option ℕ

pub record Supplier : Type 0 where
  pub id : ℕ
  pub name : Option String
  pub status : Option String
  pub evaluation_status : Option String
  pub deleted_at : Option ℕ

pub record Db : Type 0 where
  pub batches : List Batch
  pub staging : List Stock
  pub stock_records : List StockRecord
  pub movements : List Movement
  pub usages : List Usage
  pub suppliers : List Supplier
  pub next_id : ℕ

-- `column === text` on an optional column
abbrev pub is_text : String → Option String → Bool
is_text t none = false
is_text t (some s) = str_eq s t

abbrev pub batch_is : ℕ → Batch → Bool
batch_is k b = b.id == k

abbrev pub stock_is : ℕ → Stock → Bool
stock_is k r = r.id == k

-- The primary keys of the two stock tables are unique, and new ids are fresh for the second, which
-- the services add rows to.
pub record IsKeyed (s : Db) : Type 0 where
  pub batch_key : (k : ℕ) → count (batch_is k) s.batches ≤ 1
  pub stock_key : (k : ℕ) → count (stock_is k) s.staging ≤ 1
  pub fresh : count (λ r. leb s.next_id r.id) s.staging ≡ 0
