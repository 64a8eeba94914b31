-- ===== src/Plant/Mixing/Traced.antt =====
-- What a mixing execution takes from the staging areas is what its lines say, and, when it is
-- linked to a production batch, what the usages say: mixing.service.ts.
use noidear.Base.{
  ℕ, suc, ◌≤◌, ◌≡◌, refl, Bool, true, some, [], ◌∷◌, ◌++◌, ◌==◌, ==_refl, count, count-le,
  count-update_many, find_first, found_only, update_many, sum_by-update_found, and-left, leb, arith,
  inl, inr, Option-cases, Bool-cases,
}
use native.Mathlib.Nat.{le_trans}
use noidear.Base.Int.{ℤ, pos, ◌+ℤ◌, ◌-ℤ◌, leb_ℤ}
use noidear.Base.Action.{ok, Result-cases}
use noidear.Warehouse.Model.{Db, Stock, IsKeyed, stock_is}
use noidear.Warehouse.Measures.{part, staged, stock_part}
use noidear.Warehouse.Flow.{sub_part, cancel_sub}
use noidear.Warehouse.Effect.{Changes}
use noidear.Warehouse.Statements.{by_staged, Changes-staging}
use noidear.Plant.{Plant, RecipeLine}
use noidear.Plant.Usage.{line_of}
use noidear.Plant.Staging.{in_area}
use noidear.Plant.MixingChecks.{MixingLineInput, CreateExecutionDto}
use noidear.Plant.Mixing.{
  has_stock, take_stock, consume_stock, new_line, add_line, create_from_mixing_line, execute_line,
}

module _ (k : ℕ) (s : Db) (keyed : IsKeyed s) (p : Stock → Bool) (r : Stock) (q : ℤ)
    (found : find_first p s.staging ≡ some r) where
  one : count (has_stock r.id q) s.staging ≤ 1
  one =
      le_trans
        (count-le (has_stock r.id q) (stock_is r.id) s.staging
          (λ x. and-left (stock_is r.id x) (leb_ℤ q x.quantity)))
        (keyed.stock_key r.id)

  -- The conditional decrement changes a row only if the row that was read holds enough.
  holds_enough : (count (has_stock r.id q) s.staging == 1) ≡ true → has_stock r.id q r ≡ true
  holds_enough h = elim (Bool-cases (has_stock r.id q r)) [
    | inl e ↦ e
    | inr e ↦ absurd (
        let nothing =
          found_only p (stock_is r.id) (has_stock r.id q) s.staging r found (==_refl r.id)
            (keyed.stock_key r.id) (λ x. and-left (stock_is r.id x) (leb_ℤ q x.quantity)) e in
        ground (arith, nothing))
  ]

  taken :
      has_stock r.id q r ≡ true
      → staged k (record s { staging = update_many (has_stock r.id q) (take_stock q) s.staging })
        ≡ staged k s +ℤ (pos 0 -ℤ part k r.batch_id q)
  unfolding staged
  taken h =
      cancel_sub (staged k s) _ (stock_part k r) (stock_part k (take_stock q r))
        (part k r.batch_id q)
        (sum_by-update_found (stock_part k) p (has_stock r.id q) (take_stock q) s.staging r found h
          one)
        (sub_part k r.batch_id r.quantity q)

  pub consume_stock-Changes :
      (consume_stock r q s).0 ≡ ok tt
      → Changes k (by_staged (pos 0 -ℤ part k r.batch_id q)) s (consume_stock r q s).1
  unfolding consume_stock
  consume_stock-Changes h =
      let rows = update_many (has_stock r.id q) (take_stock q) s.staging in
      Changes-staging k s keyed rows s.next_id _
        (λ j.
          rw
            (count-update_many (stock_is j) (has_stock r.id q) (take_stock q) s.staging (λ x. refl))
            (keyed.stock_key j))
        (rw
          (count-update_many (λ x. leb s.next_id x.id) (has_stock r.id q) (take_stock q) s.staging
            (λ x. refl))
          keyed.fresh)
        (taken (holds_enough (ground arith)))

-- The state after the decrement and the execution line.
abbrev pub written : MixingLineInput → RecipeLine → ℕ → Stock → Plant → Plant
written input recipe_line execution_id stock s = record s {
  stock = (consume_stock stock input.actual_quantity s.stock).1;
  execution_lines =
      s.execution_lines ++ new_line input recipe_line execution_id stock s.next_id ∷ [];
  next_id = suc s.next_id;
}

-- The row that a line has read, and the state after it.
pub record Executed (dto : CreateExecutionDto) (execution_id : ℕ) (input : MixingLineInput)
    (s t : Plant) : Type 0 where
  pub recipe_line : RecipeLine
  pub stock : Stock
  pub found : find_first (in_area input.material_batch_id dto.area_id) s.stock.staging ≡ some stock
  pub consumed : (consume_stock stock input.actual_quantity s.stock).0 ≡ ok tt
  pub after :
      t
      ≡ create_from_mixing_line dto input dto.production_batch_id s.next_id
          (written input recipe_line execution_id stock s)

pub execute_line-Executed :
    (dto : CreateExecutionDto) (execution_id : ℕ) (input : MixingLineInput) (s : Plant)
    → (execute_line dto execution_id input s).0 ≡ ok tt
    → Executed dto execution_id input s (execute_line dto execution_id input s).1
unfolding execute_line add_line
execute_line-Executed dto execution_id input s h =
    elim (Option-cases (find_first (line_of input.recipe_line_id dto.recipe_id) s.recipe_lines)) [
      | inl no_line ↦ absurd (ground arith)
      | inr line ↦
          elim (Option-cases
            (find_first (in_area input.material_batch_id dto.area_id) s.stock.staging)) [
              | inl no_stock ↦
                  let line_found = line.1 in absurd (ground (arith, line_found, no_stock))
              | inr row ↦
                  let line_found = line.1 in
                  let found = row.1 in
                  elim (Result-cases (consume_stock row.0 input.actual_quantity s.stock).0) [
                    | inl done ↦
                        let ran = done.1 in
                        record {
                          recipe_line = line.0;
                          stock = row.0;
                          found = found;
                          consumed = ran;
                          after = ground (arith, line_found, found, ran);
                        }
                    | inr failed ↦
                        let ran = failed.1 in absurd (ground (arith, line_found, found, ran))
                  ]
            ]
    ]
