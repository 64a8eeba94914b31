-- ===== src/Plant/Usage/BatchMaterialUsage.antt =====
-- `create` of batch-trace/services/batch-material-usage.service.ts, which writes a usage and leaves
-- the warehouse alone, and its removal by material-usage.service.ts.
use noidear.Base.{
  ℕ, ◌≡◌, ◌≤◌, refl, true, not, Option, none, some, List, [], ◌∷◌, ◌++◌, ◌==◌, arith, count,
  count-append, find_first, ap, subst, sym, ◌∙◌, inl, inr, Bool-cases, ==_refl,
}
use noidear.Base.Int.{ℤ, int_laws}
use noidear.Base.Action.{
  Action, ok, bad_request, not_found, gets, throw_if, or_throw, Result-cases, ◌>>=◌, ◌>>◌, pure,
}
use noidear.Access.{OwnershipContext}
use noidear.Warehouse.Model.{Db, IsKeyed, Usage, batch_is}
use noidear.Warehouse.Measures.{part, usage_part}
use noidear.Warehouse.Effect.{plus, Changes, Changes-trans, Changes-eq, SameDelta}
use noidear.Warehouse.Statements.{Changes-usage, by_used, by_hand}
use noidear.Plant.{Plant, RecipeLine, production_batch_is}
use noidear.Plant.Usage.{
  CreateUsageDto, check_ownership, line_of, new_usage, add_usage, usage_is, remove,
}
use noidear.Plant.Usage.Undo.{undo_use, remove-Changes}

-- The rows that `create` may go on with: neither the status of the batch nor what is left of it is
-- asked for.
unfoldable pub check_rows : CreateUsageDto → Action Plant RecipeLine
check_rows dto = do
  found ← gets (λ s. find_first (production_batch_is dto.production_batch_id) s.production_batches)
  batch ← or_throw found (not_found "生产批次不存在")
  recipe_id ← or_throw batch.recipe_id (bad_request "生产批次未关联配方")
  found_line ← gets (λ s. find_first (line_of dto.recipe_line_id recipe_id) s.recipe_lines)
  recipe_line ← or_throw found_line (bad_request "配方明细不存在或不属于该生产批次配方")
  found_batch ← gets (λ s. find_first (batch_is dto.material_batch_id) s.stock.batches)
  material_batch ← or_throw found_batch (not_found "物料批次不存在")
  throw_if (not (material_batch.material_id == recipe_line.material_id))
      (bad_request "物料批次对应物料与配方明细不一致")
  pure recipe_line

unfoldable pub create : CreateUsageDto → Option OwnershipContext → Action Plant Usage
create dto ownership = do
  check_ownership ownership dto.production_batch_id
  recipe_line ← check_rows dto
  add_usage (new_usage dto recipe_line)

check_rows-state : (dto : CreateUsageDto) (s : Plant) → (check_rows dto s).1 ≡ s
unfolding check_rows
check_rows-state dto s = ground arith

check_ownership-state :
    (o : Option OwnershipContext) (b : ℕ) (s : Plant) → (check_ownership o b s).1 ≡ s
unfolding check_ownership
check_ownership-state none b s = refl
check_ownership-state (some o) b s = refl

-- A call that returns has added one row to the usages.
create_adds :
    (dto : CreateUsageDto) (o : Option OwnershipContext) (s : Plant) (u : Usage)
    → (create dto o s).0 ≡ ok u
    → (line : RecipeLine) × (new_usage dto line s.next_id ≡ u)
      × ((create dto o s).1.stock ≡ record s.stock { usages = s.stock.usages ++ u ∷ [] })
unfolding create
create_adds dto o s u h = elim (Result-cases (check_rows dto s).0) [
  | inl (line, e) ↦ (
    line,
    ground (arith, check_ownership-state o dto.production_batch_id s, check_rows-state dto s),
    ground (arith, check_ownership-state o dto.production_batch_id s, check_rows-state dto s),
  )
  | inr (x, e) ↦ absurd (ground (arith, check_ownership-state o dto.production_batch_id s))
]

count-last :
    (k : ℕ) (us : List Usage) (u : Usage)
    → count (usage_is k) us ≡ 0
    → count (usage_is k) (us ++ u ∷ []) ≤ 1
unfolding count
count-last k us u h = rw count-append (ground (arith, h))

find_first-last :
    (k : ℕ) (us : List Usage) (u : Usage)
    → count (usage_is k) us ≡ 0
    → (u.id == k) ≡ true
    → find_first (usage_is k) (us ++ u ∷ []) ≡ some u
unfolding find_first count
find_first-last k [] u h e = ground arith
find_first-last k (x ∷ xs) u h e = ground (arith, find_first-last k xs u)

returned :
    (k b : ℕ) (q : ℤ)
    → SameDelta (plus (by_used (part k b q)) (undo_use k b q)) (by_hand (part k b q))
returned k b q = elim (Bool-cases (b == k)) [
  | inl e ↦ rw e (omega int_laws)
  | inr e ↦ rw e (omega int_laws)
]

abbrev usages_of : Db → List Usage
usages_of d = d.usages

abbrev id_of : Usage → ℕ
id_of x = x.id

-- If the keys of the stock tables are in order, no usage has the next id, `create` of
-- BatchMaterialUsageService returns, and MaterialUsageService then removes the usage, the batch has
-- the quantity more in the warehouse than before both calls, and no other sum of any batch has
-- changed.
pub remove-create-Changes :
    (k : ℕ) (dto : CreateUsageDto) (o : Option OwnershipContext) (s : Plant) (u : Usage)
    → IsKeyed s.stock
    → count (usage_is s.next_id) s.stock.usages ≡ 0
    → (create dto o s).0 ≡ ok u
    → let t = (create dto o s).1 in
      (remove u.id t).0 ≡ ok tt
      → Changes k
          (by_hand (part k dto.material_batch_id dto.quantity))
          s.stock
          (remove u.id t).1.stock
remove-create-Changes k dto o s u keyed fresh h removed =
    let (line, new, after) = create_adds dto o s u h in
    let us = s.stock.usages in
    let t = (create dto o s).1 in
    let same : t.stock.usages ≡ us ++ u ∷ [] = ap usages_of after in
    let none_yet : count (usage_is u.id) us ≡ 0 =
      subst (λ n. count (usage_is n) us ≡ 0) (ap id_of new) fresh in
    let once : count (usage_is u.id) t.stock.usages ≤ 1 = rw same (count-last u.id us u none_yet) in
    let found : find_first (usage_is u.id) t.stock.usages ≡ some u =
      ap (find_first (usage_is u.id)) same ∙ find_first-last u.id us u none_yet (==_refl u.id) in
    let first : Changes k (by_used (usage_part k u)) s.stock t.stock =
      subst (Changes k (by_used (usage_part k u)) s.stock) (sym after)
        (Changes-usage k s.stock keyed u) in
    let second = (remove-Changes k u.id t u first.keyed once found removed).1 in
    let both =
      Changes-eq (Changes-trans first second) (returned k u.material_batch_id u.quantity) in
    subst (λ x. Changes k (by_hand (usage_part k x)) s.stock (remove u.id t).1.stock) (sym new) both
