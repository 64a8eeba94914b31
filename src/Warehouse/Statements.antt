-- ===== src/Warehouse/Statements.antt =====
-- The effects of the statements on the stock tables.
use noidear.Base.{
  key_added, fresh_added, ℕ, ◌+◌, ◌≤◌, ◌≡◌, refl, Bool, true, Option, none, some, List, [], ◌∷◌,
  ◌++◌, ◌==◌, count, leb, arith, count-update_many, find_first, update_many, sum_by-append,
  sum_by_one, Bool-cases, inl, inr,
}
use noidear.Base.Int.{ℤ, pos, ◌+ℤ◌, ◌-ℤ◌}
use noidear.Base.Action.{ok, modify}
use noidear.Warehouse.Model.{
  Db, Batch, Stock, StockRecord, Movement, IsKeyed, batch_is, stock_is, stock_in, stock_out,
  stock_return, stock_scrap, Usage,
}
use noidear.Warehouse.Stocks.{
  debit_batch, has_quantity, take_batch, upsert_stock, add_stock, add_record,
}
use noidear.Warehouse.Ledger.{MovementInput, movement_row, record_material_batch_movement}
use noidear.Warehouse.Measures.{
  part, hand, staged, recorded, used, ledger, record_part, movement_part, usage_part,
}
use noidear.Warehouse.Effect.{Delta, no_change, Changes, Effects, +ℤ_zero}
use noidear.Warehouse.Flow.{hand-update_many, staged-upsert_stock}

abbrev pub by_hand : ℤ → Delta
by_hand q = record no_change { hand_by = q }

abbrev pub by_staged : ℤ → Delta
by_staged q = record no_change { staged_by = q }

abbrev pub by_ledger : ℤ → Delta
by_ledger q = record no_change { ledger_by = q }

abbrev pub by_used : ℤ → Delta
by_used q = record no_change { used_by = q }

abbrev pub by_record : ℕ → StockRecord → Delta
by_record k r = record no_change {
  in_by = record_part stock_in k r;
  out_by = record_part stock_out k r;
  return_by = record_part stock_return k r;
  scrap_by = record_part stock_scrap k r;
}

module _ (k : ℕ) (s : Db) (keyed : IsKeyed s) where
  pub Changes-batches :
      (bs : List Batch) (d : ℤ)
      → ((j : ℕ) → count (batch_is j) bs ≤ 1)
      → hand k (record s { batches = bs }) ≡ hand k s +ℤ d
      → Changes k (by_hand d) s (record s { batches = bs })
  unfolding staged recorded used ledger
  Changes-batches bs d key h = record {
    keyed = record { batch_key = key; stock_key = keyed.stock_key; fresh = keyed.fresh };
    hand_eq = h;
    staged_eq = +ℤ_zero _;
    in_eq = +ℤ_zero _;
    out_eq = +ℤ_zero _;
    return_eq = +ℤ_zero _;
    scrap_eq = +ℤ_zero _;
    used_eq = +ℤ_zero _;
    ledger_eq = +ℤ_zero _;
  }

  pub Changes-staging :
      (rs : List Stock) (n : ℕ) (d : ℤ)
      → ((j : ℕ) → count (stock_is j) rs ≤ 1)
      → count (λ r. leb n r.id) rs ≡ 0
      → staged k (record s { staging = rs; next_id = n }) ≡ staged k s +ℤ d
      → Changes k (by_staged d) s (record s { staging = rs; next_id = n })
  unfolding hand recorded used ledger
  Changes-staging rs n d key fresh h = record {
    keyed = record { batch_key = keyed.batch_key; stock_key = key; fresh = fresh };
    hand_eq = +ℤ_zero _;
    staged_eq = h;
    in_eq = +ℤ_zero _;
    out_eq = +ℤ_zero _;
    return_eq = +ℤ_zero _;
    scrap_eq = +ℤ_zero _;
    used_eq = +ℤ_zero _;
    ledger_eq = +ℤ_zero _;
  }

  pub Changes-add_record : (r : StockRecord) → Changes k (by_record k r) s (add_record r s)
  unfolding hand staged recorded used ledger
  Changes-add_record r = record {
    keyed = record {
      batch_key = keyed.batch_key;
      stock_key = keyed.stock_key;
      fresh = keyed.fresh;
    };
    hand_eq = +ℤ_zero _;
    staged_eq = +ℤ_zero _;
    in_eq = rw (sum_by-append, sum_by_one);
    out_eq = rw (sum_by-append, sum_by_one);
    return_eq = rw (sum_by-append, sum_by_one);
    scrap_eq = rw (sum_by-append, sum_by_one);
    used_eq = +ℤ_zero _;
    ledger_eq = +ℤ_zero _;
  }

  pub Changes-movement :
      (m : Movement)
      → Changes k (by_ledger (movement_part k m)) s (record s { movements = s.movements ++ m ∷ [] })
  unfolding hand staged recorded used ledger
  Changes-movement m = record {
    keyed = record {
      batch_key = keyed.batch_key;
      stock_key = keyed.stock_key;
      fresh = keyed.fresh;
    };
    hand_eq = +ℤ_zero _;
    staged_eq = +ℤ_zero _;
    in_eq = +ℤ_zero _;
    out_eq = +ℤ_zero _;
    return_eq = +ℤ_zero _;
    scrap_eq = +ℤ_zero _;
    used_eq = +ℤ_zero _;
    ledger_eq = rw (sum_by-append, sum_by_one);
  }

debit_batch-Changes :
    (k b : ℕ) (q : ℤ) (s : Db) (a : Unit {0})
    → IsKeyed s
    → (debit_batch b q s).0 ≡ ok a
    → Changes k (by_hand (pos 0 -ℤ part k b q)) s (debit_batch b q s).1
unfolding debit_batch
debit_batch-Changes k b q s a keyed h =
    elim (Bool-cases (count (has_quantity b q) s.batches == 0)) [
      | inl e ↦ absurd (ground arith)
      | inr e ↦ rw e (
          Changes-batches k s keyed (update_many (has_quantity b q) (take_batch q) s.batches) _
            (λ j.
              rw
                (count-update_many (batch_is j) (has_quantity b q) (take_batch q) s.batches
                  (λ x. refl))
                (keyed.batch_key j))
            (hand-update_many k s keyed b q (ground arith)))
    ]

module _ (k : ℕ) (s : Db) (keyed : IsKeyed s) where
  pub Changes-usage :
      (u : Usage)
      → Changes k (by_used (usage_part k u)) s (record s { usages = s.usages ++ u ∷ [] })
  unfolding hand staged recorded used ledger
  Changes-usage u = record {
    keyed = record {
      batch_key = keyed.batch_key;
      stock_key = keyed.stock_key;
      fresh = keyed.fresh;
    };
    hand_eq = +ℤ_zero _;
    staged_eq = +ℤ_zero _;
    in_eq = +ℤ_zero _;
    out_eq = +ℤ_zero _;
    return_eq = +ℤ_zero _;
    scrap_eq = +ℤ_zero _;
    used_eq = rw (sum_by-append, sum_by_one);
    ledger_eq = +ℤ_zero _;
  }

-- A debit takes the quantity from the batch.
pub debit_batch-Effects :
    (k b : ℕ) (q : ℤ) → Effects k (by_hand (pos 0 -ℤ part k b q)) (debit_batch b q)
debit_batch-Effects k b q = record { on_ok = debit_batch-Changes k b q }

pub add_record-Effects :
    (k : ℕ) (r : StockRecord) → Effects k (by_record k r) (modify (add_record r))
add_record-Effects k r = record { on_ok = λ s a keyed h. Changes-add_record k s keyed r }

pub movement-Effects :
    (k now : ℕ) (input : MovementInput)
    → Effects k
        (by_ledger (movement_part k (movement_row now input)))
        (record_material_batch_movement now input)
movement-Effects k now input = record {
  on_ok = λ s a keyed h. Changes-movement k s keyed (movement_row now input);
}

module _ (k : ℕ) (s : Db) (keyed : IsKeyed s) (p : Stock → Bool) (b : ℕ) (q : ℤ)
    (fresh : ℕ → Stock) where
  -- An upsert of a staging row adds the quantity to the batch that the row is of.
  pub Changes-upsert_stock :
      ((r : Stock) → p r ≡ true → r.batch_id ≡ b)
      → ((id : ℕ) → ((fresh id).batch_id ≡ b) × ((fresh id).quantity ≡ q))
      → ((id : ℕ) → (fresh id).id ≡ id)
      → Changes k (by_staged (part k b q)) s (upsert_stock (find_first p s.staging) q fresh s)
  unfolding upsert_stock
  Changes-upsert_stock same made named =
      go (find_first p s.staging) (staged-upsert_stock k s keyed p b q fresh same made)
    where
      go :
          (o : Option Stock)
          → staged k (upsert_stock o q fresh s) ≡ staged k s +ℤ part k b q
          → Changes k (by_staged (part k b q)) s (upsert_stock o q fresh s)
      go (some r) e =
          Changes-staging k s keyed (update_many (stock_is r.id) (add_stock q) s.staging) s.next_id
            _
            (λ j.
              rw
                (count-update_many (stock_is j) (stock_is r.id) (add_stock q) s.staging (λ x. refl))
                (keyed.stock_key j))
            (rw
              (count-update_many (λ x. leb s.next_id x.id) (stock_is r.id) (add_stock q) s.staging
                (λ x. refl))
              keyed.fresh)
            e
      go none e =
          Changes-staging k s keyed (s.staging ++ fresh s.next_id ∷ []) (s.next_id + 1) _
            (λ j.
              key_added (λ (x : Stock). x.id) s.next_id j (fresh s.next_id) s.staging
                (named s.next_id) keyed.fresh (keyed.stock_key j))
            (fresh_added (λ (x : Stock). x.id) s.next_id (fresh s.next_id) s.staging
              (named s.next_id) keyed.fresh)
            e
