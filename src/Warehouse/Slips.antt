-- ===== src/Warehouse/Slips.antt =====
-- Return slips and scrap slips: server/src/modules/warehouse/services/return.service.ts and
-- scrap.service.ts. The two services are the same program over two tables; they differ in what
-- happens to the warehouse batch and in texts, which a `SlipKind` gives. `now` is `new Date()`.
pub mod Effect
pub mod Complete
pub mod Books
use Prim.Native.String.{◌++◌ as concat}
use noidear.Base.{
  ℕ, ◌+◌, String, Bool, not, Option, none, some, List, [], ◌∷◌, ◌++◌, ◌==◌, if◌then◌else◌, is_some,
  get_or, update_many, find_first, count, ◌≡◌, refl, true, str_eq, any, ◌||◌, has_repeat, map,
}
use noidear.Base.Int.{ℤ, ◌+ℤ◌, ◌-ℤ◌, ltb_ℤ}
use noidear.Base.Action.{
  Action, Result, ok, err, bad_request, not_found, internal, pure, gets, throw, throw_if, or_throw,
  modify, transaction, for_each, ◌>>=◌, ◌>>◌,
}
use noidear.Approval.Types.{Approvals}
use noidear.Warehouse.Model.{
  Db, Batch, Stock, StockRecord, RecordType, MovementType, return_to_warehouse, scrap, batch_is,
  stock_is, stock_return, stock_scrap,
}
use noidear.Warehouse.Stocks.{add_record, add_stock, take_batch}
use noidear.Warehouse.Ledger.{MovementInput, record_material_batch_movement}
use noidear.Warehouse.Store.{
  Store, Item, Slip, DocumentStatus, draft, approved, completed, is_status, slip_is, on_stock,
  track_approval,
}

-- `stagingAreaStock.findFirst({ where: { batchId } })`
abbrev pub staged_row : ℕ → Stock → Bool
staged_row batch_id r = r.batch_id == batch_id

abbrev pub take_stock : ℤ → Stock → Stock
take_stock q r = record r { quantity = r.quantity -ℤ q }

abbrev pub add_batch : ℤ → Batch → Batch
add_batch q b = record b { quantity = b.quantity +ℤ q }

-- `update({ where: { id }, data })` of a warehouse batch; Prisma rejects when there is no row.
unfoldable pub update_batch : ℕ → (Batch → Batch) → Action Db (Unit {0})
update_batch batch_id f s =
    if count (batch_is batch_id) s.batches == 0
    then (err (internal "P2025"), s)
    else (ok tt, record s { batches = update_many (batch_is batch_id) f s.batches })

-- The decrement of the staging row; a missing row is a null dereference.
unfoldable pub debit_stock : Option Stock → ℤ → Action Db (Unit {0})
debit_stock none q s = (err (internal "stagingStock is null"), s)
debit_stock (some r) q s =
    (ok tt, record s { staging = update_many (stock_is r.id) (take_stock q) s.staging })

pub data SlipKind : Type 0 where
  return_slip scrap_slip : SlipKind

abbrev pub missing : SlipKind → String
missing return_slip = "退料单不存在"
missing scrap_slip = "报废单不存在"

abbrev pub not_draft : SlipKind → String
not_draft return_slip = "只能审批草稿状态的退料单"
not_draft scrap_slip = "只能审批草稿状态的报废单"

abbrev pub not_approved : SlipKind → String
not_approved return_slip = "只能完成已审批的退料单"
not_approved scrap_slip = "只能完成已审批的报废单"

-- What happens to the warehouse batch: a return puts the material back, a scrap takes it off.
abbrev pub move_batch : SlipKind → ℤ → Batch → Batch
move_batch return_slip q = add_batch q
move_batch scrap_slip q = take_batch q

abbrev pub slip_record : SlipKind → Slip → Item → StockRecord
slip_record return_slip slip item = record {
  batch_id = item.batch_id;
  record_type = stock_return;
  quantity = item.quantity;
  related_id = some slip.id;
  related_type = "MaterialReturn";
  operator_id = slip.requester_id;
  remark = some (concat "退料单: " slip.slip_no);
}
slip_record scrap_slip slip item = record {
  batch_id = item.batch_id;
  record_type = stock_scrap;
  quantity = item.quantity;
  related_id = some slip.id;
  related_type = "MaterialScrap";
  operator_id = slip.requester_id;
  remark = some (concat "报废单: " slip.slip_no);
}

abbrev pub slip_movement : SlipKind → Slip → ℕ → Item → MovementInput
slip_movement return_slip slip now item = record {
  company_id = none;
  movement_type = return_to_warehouse;
  batch_id = item.batch_id;
  quantity = item.quantity;
  unit = some "kg";
  ref_type = some "return";
  ref_id = some slip.id;
  operator_id = some slip.requester_id;
  moved_at = some now;
  from_location = none;
  to_location = none;
  notes = some "退料回仓";
}
slip_movement scrap_slip slip now item = record {
  company_id = none;
  movement_type = scrap;
  batch_id = item.batch_id;
  quantity = item.quantity;
  unit = some "kg";
  ref_type = some "scrap";
  ref_id = some slip.id;
  operator_id = some slip.requester_id;
  moved_at = some now;
  from_location = none;
  to_location = none;
  notes = some "物料报废";
}

-- The check before the transaction: a staging row holds at least the quantity of the item.
abbrev pub is_short : ℤ → Option Stock → Bool
is_short q none = true
is_short q (some r) = ltb_ℤ r.quantity q

unfoldable pub validate_item : Item → Action Db (Unit {0})
validate_item item = do
  staging_stock ← gets (λ s. find_first (staged_row item.batch_id) s.staging)
  throw_if (is_short item.quantity staging_stock) (bad_request "暂存间批次库存不足")

-- The body of the loop in the transaction.
unfoldable pub complete_item : SlipKind → Slip → ℕ → Item → Action Db (Unit {0})
complete_item kind slip now item = do
  staging_stock ← gets (λ s. find_first (staged_row item.batch_id) s.staging)
  debit_stock staging_stock item.quantity
  update_batch item.batch_id (move_batch kind item.quantity)
  modify (add_record (slip_record kind slip item))
  record_material_batch_movement now (slip_movement kind slip now item)

module _ {A : Type 0} where
  abbrev pub slips : SlipKind → Store A → List Slip
  slips return_slip s = s.returns
  slips scrap_slip s = s.scraps

  abbrev pub put_slips : SlipKind → List Slip → Store A → Store A
  put_slips return_slip xs s = record s { returns = xs }
  put_slips scrap_slip xs s = record s { scraps = xs }

  abbrev pub find_slip : SlipKind → ℕ → Action (Store A) Slip
  find_slip kind id = do
    found ← gets (λ s. find_first (slip_is id) (slips kind s))
    or_throw found (not_found (missing kind))

  abbrev pub update_slip : SlipKind → Slip → (Slip → Slip) → Action (Store A) Slip
  update_slip kind row f s =
      (ok (f row), put_slips kind (update_many (slip_is row.id) f (slips kind s)) s)

  unfoldable pub approve : SlipKind → ℕ → ℕ → ℕ → Action (Store A) Slip
  approve kind now id approved_by = do
    slip ← find_slip kind id
    throw_if (not (is_status slip.status draft)) (bad_request (not_draft kind))
    update_slip kind slip (λ r. record r {
      status = approved;
      approved_by = some approved_by;
      approved_at = some now;
    })

  unfoldable pub complete : SlipKind → ℕ → ℕ → Action (Store A) Slip
  complete kind now id = do
    slip ← find_slip kind id
    throw_if (not (is_status slip.status approved)) (bad_request (not_approved kind))
    on_stock (for_each validate_item slip.items)
    transaction do
      on_stock (for_each (complete_item kind slip now) slip.items)
      update_slip kind slip (λ r. record r { status = completed; completed_at = some now })

pub record CreateSlipDto : Type 0 where
  pub items : List Item
  pub reason : Option String
  pub requester_id : ℕ

abbrev pub new_slip : ℕ → String → ℕ → CreateSlipDto → Slip
new_slip id slip_no requester dto = record {
  id = id;
  slip_no = slip_no;
  requester_id = requester;
  reason = dto.reason;
  status = draft;
  approved_by = none;
  approved_at = none;
  completed_at = none;
  approval_instance_id = none;
  items = dto.items;
}

-- Every item of a new slip names a batch that exists.
unfoldable pub check_batch : Item → Action Db (Unit {0})
check_batch item = do
  batch ← gets (λ s. find_first (batch_is item.batch_id) s.batches)
  throw_if (not (is_some batch)) (not_found "批次不存在")

abbrev pub approval_type : SlipKind → String
approval_type return_slip = "material_return"
approval_type scrap_slip = "material_scrap"

abbrev pub approval_title : SlipKind → String
approval_title return_slip = "退料单审批："
approval_title scrap_slip = "报废单审批："

abbrev has_no : String → Slip → Bool
has_no slip_no r = str_eq r.slip_no slip_no

module _ {A : Type 0} where
  -- The unique number of a slip and the unique batch of an item in its slip may refuse the rows.
  abbrev insert_slip : SlipKind → (ℕ → Slip) → Action (Store A) Slip
  insert_slip kind fresh s =
      let slip = fresh s.next_id in
      if any (has_no slip.slip_no) (slips kind s)
        || has_repeat (map (λ (i : Item). i.batch_id) slip.items)
      then (err (internal "P2002"), s)
      else (
        ok slip,
        put_slips kind (slips kind s ++ slip ∷ []) (record s { next_id = s.next_id + 1 }),
      )

  -- The new slip's number is an argument. The caller's id, where there is one, wins over the
  -- requester that the client names.
  unfoldable pub create :
      SlipKind → Option (Approvals A) → String → CreateSlipDto → Option ℕ → Action (Store A) Slip
  create kind engine slip_no dto creator_id = do
    on_stock (for_each check_batch dto.items)
    let requester = get_or creator_id dto.requester_id
    slip ← insert_slip kind (λ id. new_slip id slip_no requester dto)
    track_approval engine
        (record {
          resource_type = approval_type kind;
          resource_id = slip.id;
          resource_step = some "submit";
          trigger_key = "submit";
          title = concat (approval_title kind) slip.slip_no;
          created_by_id = requester;
        })
        (λ approval. do
          update_slip kind slip (λ r. record r { approval_instance_id = some approval })
          pure tt)
    pure slip
