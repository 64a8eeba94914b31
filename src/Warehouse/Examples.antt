-- ===== src/Warehouse/Examples.antt =====
-- The warehouse on a concrete store: one batch, of which a part has been staged, and one document of
-- each kind.
use noidear.Base.{
  ℕ, ◌≡◌, refl, ◌↔◌, none, some, List, [], ◌∷◌, ◌==◌, Bool-cases, arith, inl, inr, count,
  find_first, update_many, sum_by, subst, find_many, any,
}
use noidear.Base.Int.{pos, ◌+ℤ◌, ◌-ℤ◌, int_laws}
use noidear.Base.Action.{ok, for_each}
use noidear.Warehouse.Model.{
  Db, Batch, normal, Stock, StockRecord, stock_in, stock_out, Movement, receive,
  issue_to_production, IsKeyed,
}
use noidear.Warehouse.Measures.{hand, staged, recorded, used, ledger}
use noidear.Warehouse.Store.{
  completed, Store, Item, Requisition, production, approved, Slip, requisition_is,
}
use noidear.Warehouse.Stocks.{debit_batch, credit_zone, upsert_stock}
use noidear.Warehouse.Suppliers.{assert_batch_supplier_usable}
use noidear.Warehouse.Requisition.{complete_item, find_one}
use noidear.Warehouse.Requisition.Books.{complete_conserves, complete-IsSound, complete-Changes}
use noidear.Warehouse.Effect.{Changes, total}
use noidear.Warehouse.Requisition.Effect.{issue}
use noidear.Warehouse.Slips.{return_slip, scrap_slip, update_batch, debit_stock, validate_item}
use noidear.Warehouse.Slips.Books.{
  quantity_of, complete_slip-IsSound, return_conserves, scrap_loses_double,
}
use noidear.Warehouse.Balance.{check_balance}
use noidear.Warehouse.Balance.Exact.{IsBalanced, check_balance-difference}
use noidear.Warehouse.Books.{IsSound}
use noidear.Approval.Types.{Approvals}
use noidear.Warehouse.Requisition.{CreateRequisitionDto, accept, submit, track_requisition}
use noidear.Warehouse.Requisition.Lifecycle.{
  Steps, stay, next, creates, submits, approves, completes, IsLively, Steps-IsLively,
}
use noidear.Warehouse.Requisition.Bounds.{IsCovered, is_refund, complete-IsCovered}
use noidear.Warehouse.Batches.{is_due, lock_expired_batches}
use noidear.Warehouse.Batches.Expired.{lock_expired_batches-clears}
use noidear.Warehouse.Requisition as requisition
use noidear.Warehouse.Slips as slip

abbrev batch_one : Batch
batch_one = record {
  id = 1;
  batch_number = "B-1";
  material_id = 4;
  supplier_id = none;
  quantity = pos 70;
  status = normal;
  expiry_date = none;
  created_at = 0;
  deleted_at = none;
}

abbrev staged_one : Stock
staged_one = record {
  id = 1;
  batch_id = 1;
  area_id = none;
  location = some "筛粉间";
  quantity = pos 30;
  created_at = 1;
}

abbrev received : StockRecord
received = record {
  batch_id = 1;
  record_type = stock_in;
  quantity = pos 100;
  related_id = none;
  related_type = "inbound";
  operator_id = 9;
  remark = none;
}

abbrev issued : StockRecord
issued = record received {
  record_type = stock_out;
  quantity = pos 30;
  related_type = "requisition";
}

abbrev receipt : Movement
receipt = record {
  company_id = 1;
  movement_type = receive;
  object_type = "material_batch";
  object_id = 1;
  from_location = none;
  to_location = none;
  qty = pos 100;
  unit = "kg";
  ref_type = none;
  ref_id = none;
  operator_id = some 9;
  moved_at = 0;
  notes = none;
}

abbrev issue_row : Movement
issue_row = record receipt { movement_type = issue_to_production; qty = pos 30 }

abbrev stock : Db
stock = record {
  batches = batch_one ∷ [];
  staging = staged_one ∷ [];
  stock_records = received ∷ issued ∷ [];
  movements = receipt ∷ issue_row ∷ [];
  usages = [];
  suppliers = [];
  next_id = 2;
}

abbrev items : List Item
items = record { batch_id = 1; quantity = pos 20 } ∷ []

abbrev requisition_one : Requisition
requisition_one = record {
  id = 5;
  requisition_no = "REQ-1";
  requisition_type = production;
  status = approved;
  applicant_id = 9;
  department_id = none;
  remark = none;
  target_zone = some "称油间";
  equipment_id = none;
  submitted_at = some 2;
  approved_at = some 3;
  approved_by = some 8;
  completed_at = none;
  approval_instance_id = none;
  deleted_at = none;
  items = items;
}

abbrev slip_one : Slip
slip_one = record {
  id = 6;
  slip_no = "S-1";
  requester_id = 9;
  reason = none;
  status = approved;
  approved_by = some 8;
  approved_at = some 3;
  completed_at = none;
  approval_instance_id = none;
  items = items;
}

abbrev store : Store (Unit {0})
store = record {
  stock = stock;
  requisitions = requisition_one ∷ [];
  returns = slip_one ∷ [];
  scraps = slip_one ∷ [];
  inbounds = [];
  equipment = [];
  approvals = tt;
  next_id = 7;
}

stock-IsKeyed : IsKeyed stock
unfolding count
stock-IsKeyed = record {
  batch_key = λ k. ground arith;
  stock_key = λ k. ground arith;
  fresh = refl;
}

stock-IsBalanced : (k : ℕ) → IsBalanced k stock
unfolding hand recorded used sum_by
stock-IsBalanced k = record {
  balanced = elim (Bool-cases (1 == k)) [
    | inl e ↦ rw e (omega int_laws)
    | inr e ↦ rw e (omega int_laws)
  ];
}

stock-IsSound : IsSound (λ _. pos 0) stock
unfolding hand ledger sum_by
stock-IsSound = record {
  keyed = stock-IsKeyed;
  books = stock-IsBalanced;
  explained = λ k. elim (Bool-cases (1 == k)) [
    | inl e ↦ rw e (omega int_laws)
    | inr e ↦ rw e (omega int_laws)
  ];
}

abbrev requisition_done : Store (Unit {0})
requisition_done = (requisition.complete 5 5 9 store).1

abbrev return_done : Store (Unit {0})
return_done = (slip.complete return_slip 5 6 store).1

abbrev scrap_done : Store (Unit {0})
scrap_done = (slip.complete scrap_slip 5 6 store).1

-- Each run returns, and moves the twenty units of its item.
requisition_runs :
    ((requisition.complete 5 5 9 store).0
      ≡ ok (record requisition_one { status = completed; completed_at = some 5 }))
    × (hand 1 requisition_done.stock ≡ pos 50)
    × (staged 1 requisition_done.stock ≡ pos 50)
unfolding requisition.complete find_one complete_item for_each find_first
    assert_batch_supplier_usable debit_batch credit_zone upsert_stock update_many count hand staged
    sum_by ◌+ℤ◌ ◌-ℤ◌
requisition_runs = (refl, refl, refl)

return_runs : (hand 1 return_done.stock ≡ pos 90) × (staged 1 return_done.stock ≡ pos 10)
unfolding slip.complete validate_item slip.complete_item for_each find_first update_batch
    debit_stock update_many count hand staged sum_by ◌+ℤ◌ ◌-ℤ◌
return_runs = (refl, refl)

scrap_runs :
    ((slip.complete scrap_slip 5 6 store).0
      ≡ ok (record slip_one { status = completed; completed_at = some 5 }))
    × (hand 1 scrap_done.stock ≡ pos 50)
    × (staged 1 scrap_done.stock ≡ pos 10)
unfolding slip.complete validate_item slip.complete_item for_each find_first update_batch
    debit_stock update_many count hand staged sum_by ◌+ℤ◌ ◌-ℤ◌
scrap_runs = (refl, refl, refl)

complete_conserves_example :
    hand 1 requisition_done.stock +ℤ staged 1 requisition_done.stock
    ≡ hand 1 stock +ℤ staged 1 stock
complete_conserves_example = complete_conserves 5 5 9 store 1 stock-IsKeyed

complete-IsSound_example : IsSound (λ _. pos 0) requisition_done.stock
complete-IsSound_example = complete-IsSound 5 5 9 store stock-IsSound

return_conserves_example :
    hand 1 return_done.stock +ℤ staged 1 return_done.stock ≡ hand 1 stock +ℤ staged 1 stock
return_conserves_example = return_conserves 5 6 store 1 stock-IsKeyed

complete_slip-IsSound_example : IsSound (λ _. pos 0) return_done.stock
complete_slip-IsSound_example = complete_slip-IsSound return_slip 5 6 store stock-IsSound

scrap_loses_double_example :
    hand 1 scrap_done.stock +ℤ staged 1 scrap_done.stock
    ≡ hand 1 stock +ℤ staged 1 stock -ℤ (quantity_of 1 items +ℤ quantity_of 1 items)
scrap_loses_double_example =
    scrap_loses_double 5 6 store 1 stock-IsKeyed
      (record slip_one { status = completed; completed_at = some 5 }) scrap_runs.0

check_balance-difference_example :
    ((check_balance 1 stock).current_stock ≡ hand 1 stock)
    × (((check_balance 1 stock).difference ≡ 0) ↔ IsBalanced 1 stock)
check_balance-difference_example = check_balance-difference 1 stock stock-IsKeyed

complete-Changes_example : Changes 1 (total (issue 1) items) stock requisition_done.stock
complete-Changes_example =
    complete-Changes 5 5 9 store
      (record requisition_one { status = completed; completed_at = some 5 }) stock-IsKeyed
      requisition_runs.0 1

-- An engine that starts the approval 3.
abbrev engine : Approvals (Unit {0})
engine = record {
  start = λ input s. (ok 3, s);
  same = λ s t. s ≡ t;
  start_atomic = λ input s e h. refl;
}

abbrev at_first : Store (Unit {0})
at_first = record store { requisitions = [] }

abbrev wanted : CreateRequisitionDto
wanted = record {
  requisition_type = none;
  applicant_id = 9;
  department_id = none;
  remark = none;
  target_zone = some "称油间";
  equipment_id = none;
  items = items;
}

abbrev after_create : Store (Unit {0})
after_create = (requisition.create "REQ-2" wanted at_first).1

abbrev after_submit : Store (Unit {0})
after_submit = (submit (some engine) 2 7 after_create).1

abbrev after_approve : Store (Unit {0})
after_approve = (requisition.approve 3 7 8 accept after_submit).1

abbrev after_complete : Store (Unit {0})
after_complete = (requisition.complete 4 7 9 after_approve).1

four_calls : Steps (some engine) at_first after_complete
four_calls = next at_first after_create after_complete (creates "REQ-2" wanted at_first) (
    next after_create after_submit after_complete (submits 2 7 after_create) (
      next after_submit after_approve after_complete (approves 3 7 8 accept after_submit) (
        next after_approve after_complete after_complete (completes 4 7 9 after_approve)
          (stay after_complete))))

at_first-IsLively : IsLively at_first
unfolding count
at_first-IsLively = record { key = λ k. omega arith; fresh = refl; agree = refl }

-- The four calls return, and the requisition is completed and linked to its approval.
four_runs :
    after_complete.requisitions
    ≡ record requisition_one {
      id = 7;
      requisition_no = "REQ-2";
      status = completed;
      completed_at = some 4;
      approval_instance_id = some 3;
    }
      ∷ []
unfolding any requisition.create requisition.validate_equipment_link submit track_requisition
    requisition.approve requisition.complete find_one complete_item for_each find_first
    assert_batch_supplier_usable debit_batch credit_zone upsert_stock update_many count
four_runs = refl

Steps-IsLively_example : IsLively after_complete
Steps-IsLively_example =
    Steps-IsLively (some engine) at_first after_complete four_calls at_first-IsLively

stock-IsCovered : IsCovered stock
unfolding count
stock-IsCovered = record { batches = refl; staging = refl }

asked_for :
    (r : Requisition)
    → find_first (requisition_is 5) store.requisitions ≡ some r
    → count is_refund r.items ≡ 0
unfolding find_first count
asked_for r h =
    let same : requisition_one ≡ r = cc h in subst (λ x. count is_refund x.items ≡ 0) same refl

complete-IsCovered_example : IsCovered requisition_done.stock
complete-IsCovered_example = complete-IsCovered 5 5 9 store asked_for stock-IsCovered

abbrev aging : Db
aging = record stock { batches = record batch_one { expiry_date = some 5 } ∷ [] }

-- The batch has expired on day six.
lock_runs : (lock_expired_batches 6 aging).0 ≡ ok 1
unfolding lock_expired_batches find_many
lock_runs = refl

lock_expired_batches-clears_example : count (is_due 6) (lock_expired_batches 6 aging).1.batches ≡ 0
lock_expired_batches-clears_example = lock_expired_batches-clears 6 aging
