-- ===== src/Warehouse/Suppliers.antt =====
-- server/src/modules/warehouse/services/supplier-access.service.ts: may a supplier be used?
use noidear.Base.{ℕ, Bool, Option, none, some, ◌==◌, is_some, find_first}
use noidear.Base.Action.{
  Action, bad_request, not_found, pure, throw, or_throw, throw_if, gets, ◌>>=◌, ◌>>◌,
}
use noidear.Warehouse.Model.{Db, Supplier, batch_is, is_text}

-- The `where: { id }` of the supplier table.
abbrev pub supplier_is : ℕ → Supplier → Bool
supplier_is k r = r.id == k

abbrev pub assert_usable_supplier : Option Supplier → Action Db (Unit {0})
assert_usable_supplier none = throw (not_found "供应商不存在")
assert_usable_supplier (some r) = do
  throw_if (is_some r.deleted_at) (not_found "供应商不存在")
  throw_if (is_text "disabled" r.status) (bad_request "供应商已停用")
  throw_if (is_text "eliminated" r.evaluation_status) (bad_request "供应商已淘汰")

unfoldable pub assert_supplier_usable : ℕ → Action Db (Unit {0})
assert_supplier_usable supplier_id = do
  supplier ← gets (λ s. find_first (supplier_is supplier_id) s.suppliers)
  assert_usable_supplier supplier

-- A batch without a supplier may be used.
abbrev pub assert_supplier_of : Option ℕ → Action Db (Unit {0})
assert_supplier_of none = pure tt
assert_supplier_of (some supplier_id) = do
  supplier ← gets (λ s. find_first (supplier_is supplier_id) s.suppliers)
  assert_usable_supplier supplier

unfoldable pub assert_batch_supplier_usable : ℕ → Action Db (Unit {0})
assert_batch_supplier_usable batch_id = do
  found ← gets (λ s. find_first (batch_is batch_id) s.batches)
  batch ← or_throw found (not_found "物料批次不存在")
  throw_if (is_some batch.deleted_at) (not_found "物料批次不存在")
  assert_supplier_of batch.supplier_id
