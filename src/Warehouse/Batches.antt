-- ===== src/Warehouse/Batches.antt =====
-- server/src/modules/warehouse/batch.service.ts: the status of a batch. The fields that `update`
-- may set are given by a function on the row; `has_number` says that they name the batch number.
pub mod Expired
use noidear.Base.{
  ℕ, Bool, not, ◌&&◌, ltb, Option, none, some, List, [], ◌∷◌, length, is_some, find_first,
  find_many, update_many, false, true,
}
use noidear.Base.Action.{
  Action, bad_request, not_found, pure, gets, throw_if, or_throw, modify, for_each, ◌>>=◌, ◌>>◌,
}
use noidear.Warehouse.Model.{Db, Batch, BatchStatus, normal, expired, locked, batch_is}

abbrev pub set_batch : ℕ → (Batch → Batch) → Db → Db
set_batch id f s = record s { batches = update_many (batch_is id) f s.batches }

unfoldable pub find_batch : ℕ → Action Db Batch
find_batch id = do
  found ← gets (λ s. find_first (batch_is id) s.batches)
  batch ← or_throw found (not_found "Batch not found")
  throw_if (is_some batch.deleted_at) (not_found "Batch not found")
  pure batch

unfoldable pub update : ℕ → Bool → (Batch → Batch) → Action Db (Unit {0})
update id has_number f = do
  find_batch id
  throw_if has_number (bad_request "Batch number cannot be modified (BR-242)")
  modify (set_batch id f)

unfoldable pub lock : ℕ → Action Db (Unit {0})
lock id = do find_batch id; modify (set_batch id (λ b. record b { status = locked }))

abbrev is_normal : BatchStatus → Bool
is_normal normal = true
is_normal _ = false

abbrev is_before : ℕ → Option ℕ → Bool
is_before now none = false
is_before now (some t) = ltb t now

-- The `where` of `findExpiredBatches`.
abbrev pub is_due : ℕ → Batch → Bool
is_due now b = is_before now b.expiry_date && is_normal b.status && not (is_some b.deleted_at)

abbrev pub expire : Batch → Batch
expire b = record b { status = expired }

-- `updateBatchesToExpired`
unfoldable pub expire_all : List Batch → Db → Db
expire_all [] s = s
expire_all (b ∷ bs) s = expire_all bs (set_batch b.id expire s)

unfoldable pub lock_expired_batches : ℕ → Action Db ℕ
lock_expired_batches now = do
  batches ← gets (λ s. find_many (is_due now) s.batches)
  modify (expire_all batches)
  pure (length batches)
