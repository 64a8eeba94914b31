-- ===== src/Warehouse/Requisition.antt =====
-- server/src/modules/warehouse/requisition.service.ts. `now` is `new Date()`; the number of a new
-- requisition, drawn from the date and `Math.random()`, is an argument.
pub mod Effect
pub mod Complete
pub mod Books
pub mod Bounds
pub mod Lifecycle
use Prim.Native.String.{◌++◌ as concat}
use noidear.Base.{
  ℕ, suc, ◌+◌, String, Bool, true, false, not, ◌&&◌, Option, none, some, List, [], ◌∷◌, ◌++◌, ◌==◌,
  if◌then◌else◌, is_some, get_or, update_many, find_first, count, str_eq, any,
}
use noidear.Base.Int.{ℤ, ◌+ℤ◌, ◌-ℤ◌, leb_ℤ}
use noidear.Base.Action.{
  Action, Result, ok, err, bad_request, not_found, internal, pure, gets, throw, throw_if, or_throw,
  modify, transaction, for_each, ◌>>=◌, ◌>>◌,
}
use noidear.Approval.Types.{Approvals}
use noidear.Warehouse.Model.{
  Db, Batch, Stock, StockRecord, batch_is, stock_is, is_text, stock_out, issue_to_production,
}
use noidear.Warehouse.Suppliers.{assert_batch_supplier_usable}
use noidear.Warehouse.Stocks.{debit_batch, credit_zone, add_record}
use noidear.Warehouse.Ledger.{MovementInput, record_material_batch_movement}
use noidear.Warehouse.Store.{
  Store, Item, is_status, Requisition, RequisitionType, production, maintenance, DocumentStatus,
  draft, pending, approved, rejected, completed, Equipment, requisition_is, on_stock,
  track_approval,
}

abbrev pub issue_record : Requisition → ℕ → Item → StockRecord
issue_record requisition operator_id item = record {
  batch_id = item.batch_id;
  record_type = stock_out;
  quantity = item.quantity;
  related_id = some requisition.id;
  related_type = "requisition";
  operator_id = operator_id;
  remark = none;
}

abbrev pub issue_movement : Requisition → ℕ → ℕ → Item → MovementInput
issue_movement requisition operator_id now item = record {
  company_id = none;
  movement_type = issue_to_production;
  batch_id = item.batch_id;
  quantity = item.quantity;
  unit = some "kg";
  ref_type = some "requisition";
  ref_id = some requisition.id;
  operator_id = some operator_id;
  moved_at = some now;
  from_location = none;
  to_location = requisition.target_zone;
  notes = some "生产领料";
}

-- The body of the loop in `complete`.
unfoldable pub complete_item : Requisition → ℕ → ℕ → Item → Action Db (Unit {0})
complete_item requisition operator_id now item = do
  assert_batch_supplier_usable item.batch_id
  debit_batch item.batch_id item.quantity
  modify (credit_zone now item.batch_id (get_or requisition.target_zone "未指定") item.quantity)
  modify (add_record (issue_record requisition operator_id item))
  record_material_batch_movement now (issue_movement requisition operator_id now item)

abbrev usable_equipment : ℕ → Equipment → Bool
usable_equipment id e = e.id == id && not (is_some e.deleted_at) && e.is_active

abbrev is_maintenance : RequisitionType → Bool
is_maintenance maintenance = true
is_maintenance _ = false

module _ {A : Type 0} where
  unfoldable pub find_one : ℕ → Action (Store A) Requisition
  find_one id = do
    found ← gets (λ s. find_first (requisition_is id) s.requisitions)
    row ← or_throw found (not_found "Requisition not found")
    throw_if (is_some row.deleted_at) (not_found "Requisition not found")
    pure row

  -- `update({ where: { id }, data })`, of a row that `find_one` has found.
  abbrev pub update_requisition :
      Requisition → (Requisition → Requisition) → Action (Store A) Requisition
  update_requisition row f s =
      (ok (f row), record s { requisitions = update_many (requisition_is row.id) f s.requisitions })

  -- The equipment that a requisition names must exist, be in use and not be deleted.
  abbrev check_equipment : Option ℕ → Action (Store A) (Unit {0})
  check_equipment none = pure tt
  check_equipment (some id) = do
    found ← gets (λ s. find_first (usable_equipment id) s.equipment)
    or_throw found (bad_request "设备不存在、已删除或非在用状态")
    pure tt

  unfoldable pub validate_equipment_link : RequisitionType → Option ℕ → Action (Store A) (Unit {0})
  validate_equipment_link requisition_type equipment_id = do
    throw_if (is_maintenance requisition_type && not (is_some equipment_id))
        (bad_request "维修领料必须关联设备")
    throw_if (not (is_maintenance requisition_type) && is_some equipment_id)
        (bad_request "只有维修领料可以关联设备")
    check_equipment equipment_id

-- `CreateRequisitionDto`; the controller has put the caller's id into `applicant_id`.
pub record CreateRequisitionDto : Type 0 where
  pub requisition_type : Option RequisitionType
  pub applicant_id : ℕ
  pub department_id : Option ℕ
  pub remark : Option String
  pub target_zone : Option String
  pub equipment_id : Option ℕ
  pub items : List Item

abbrev new_requisition : ℕ → String → CreateRequisitionDto → Requisition
new_requisition id requisition_no dto = record {
  id = id;
  requisition_no = requisition_no;
  requisition_type = get_or dto.requisition_type production;
  status = draft;
  applicant_id = dto.applicant_id;
  department_id = dto.department_id;
  remark = dto.remark;
  target_zone = dto.target_zone;
  equipment_id = dto.equipment_id;
  submitted_at = none;
  approved_at = none;
  approved_by = none;
  completed_at = none;
  approval_instance_id = none;
  deleted_at = none;
  items = dto.items;
}

-- The decision that `approve` takes.
pub data Decision : Type 0 where
  accept refuse : Decision

abbrev pub decided : Decision → DocumentStatus
decided accept = approved
decided refuse = rejected

abbrev has_no : String → Requisition → Bool
has_no requisition_no r = str_eq r.requisition_no requisition_no

abbrev lacks_batch : List Batch → Item → Bool
lacks_batch batches item = not (is_some (find_first (batch_is item.batch_id) batches))

module _ {A : Type 0} where
  -- The unique number and the foreign keys of the items may refuse the rows.
  abbrev insert_requisition : (ℕ → Requisition) → Action (Store A) Requisition
  insert_requisition fresh s =
      let r = fresh s.next_id in
      if any (has_no r.requisition_no) s.requisitions
      then (err (internal "P2002"), s)
      else if any (lacks_batch s.stock.batches) r.items
      then (err (internal "P2003"), s)
      else (ok r, record s { requisitions = s.requisitions ++ r ∷ []; next_id = s.next_id + 1 })

  unfoldable pub create : String → CreateRequisitionDto → Action (Store A) Requisition
  create requisition_no dto = transaction do
    validate_equipment_link (get_or dto.requisition_type production) dto.equipment_id
    insert_requisition (λ id. new_requisition id requisition_no dto)

  abbrev pub link_approval : Requisition → ℕ → Action (Store A) (Unit {0})
  link_approval req approval = do
    update_requisition req (λ r. record r { approval_instance_id = some approval })
    pure tt

  -- The approval that `submit` starts, and links if it could be started.
  unfoldable pub track_requisition :
      Option (Approvals A) → ℕ → Requisition → Action (Store A) (Unit {0})
  track_requisition engine id req =
      track_approval engine
        (record {
          resource_type = "material_requisition";
          resource_id = id;
          resource_step = some "submit";
          trigger_key = "submit";
          title = concat "领料单审批：" req.requisition_no;
          created_by_id = req.applicant_id;
        })
        (link_approval req)

  unfoldable pub submit : Option (Approvals A) → ℕ → ℕ → Action (Store A) Requisition
  submit engine now id = do
    req ← find_one id
    throw_if (not (is_status req.status draft)) (bad_request "只有草稿状态可提交")
    updated ← update_requisition req (λ r. record r { status = pending; submitted_at = some now })
    track_requisition engine id req
    pure updated

  unfoldable pub approve : ℕ → ℕ → ℕ → Decision → Action (Store A) Requisition
  approve now id approver_id action = do
    req ← find_one id
    throw_if (not (is_status req.status pending)) (bad_request "只有待审批状态可审批")
    update_requisition req (λ r. record r {
      status = decided action;
      approved_at = some now;
      approved_by = some approver_id;
    })

  unfoldable pub complete : ℕ → ℕ → ℕ → Action (Store A) Requisition
  complete now id operator_id = do
    requisition ← find_one id
    throw_if (not (is_status requisition.status approved))
        (bad_request "Only approved requisition can be completed")
    transaction do
      on_stock (for_each (complete_item requisition operator_id now) requisition.items)
      update_requisition requisition (λ r. record r { status = completed; completed_at = some now })
