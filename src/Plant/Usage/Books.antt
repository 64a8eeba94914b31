-- ===== src/Plant/Usage/Books.antt =====
-- A direct usage takes its quantity off the warehouse batch and keeps the books; removing it undoes
-- both.
use noidear.Base.{
  ℕ, ◌≡◌, refl, Option, none, some, [], ◌∷◌, ◌++◌, ◌==◌, arith, inl, inr, Bool-cases,
}
use noidear.Base.Int.{ℤ, pos, ◌-ℤ◌, int_laws}
use noidear.Base.Action.{ok, Result-cases}
use noidear.Access.{OwnershipContext}
use noidear.Warehouse.Model.{Db, IsKeyed, Usage}
use noidear.Warehouse.Measures.{part}
use noidear.Warehouse.Effect.{Delta, no_change, plus, Changes, Changes-trans, Changes-eq, SameDelta}
use noidear.Warehouse.Statements.{Changes-usage, by_used, by_hand}
use noidear.Warehouse.Slips.{scrap_slip, update_batch}
use noidear.Warehouse.Slips.Effect.{update_batch-Effects, batch_change}
use noidear.Plant.{Plant, RecipeLine}
use noidear.Plant.Usage.{
  CreateUsageDto, check_ownership, check_usage, write_usage, create, new_usage, take_batch,
}

check_ownership-state :
    (o : Option OwnershipContext) (b : ℕ) (s : Plant) → (check_ownership o b s).1 ≡ s
unfolding check_ownership
check_ownership-state none b s = refl
check_ownership-state (some o) b s = refl

check_usage-state : (dto : CreateUsageDto) (s : Plant) → (check_usage dto s).1 ≡ s
unfolding check_usage
check_usage-state dto s = ground arith

-- What a direct usage does to the sums of a batch.
abbrev pub direct_use : ℕ → ℕ → ℤ → Delta
direct_use k b q = record no_change { hand_by = pos 0 -ℤ part k b q; used_by = part k b q }

used_up :
    (k b : ℕ) (q : ℤ)
    → SameDelta
        (plus (by_used (part k b q)) (by_hand (part k b (batch_change scrap_slip q))))
        (direct_use k b q)
used_up k b q = elim (Bool-cases (b == k)) [
  | inl e ↦ rw e (omega int_laws)
  | inr e ↦ rw e (omega int_laws)
]

-- The transaction writes the usage and then takes the batch.
write_usage_stock :
    (dto : CreateUsageDto) (line : RecipeLine) (s : Plant) (u : Usage)
    → (write_usage dto line s).0 ≡ ok u
    → let t : Db = record s.stock {
      usages = s.stock.usages ++ new_usage dto line s.next_id ∷ [];
    } in
      let m = update_batch dto.material_batch_id (take_batch dto.quantity) t in
      ((write_usage dto line s).1.stock ≡ m.1) × (m.0 ≡ ok tt)
unfolding write_usage
write_usage_stock dto line s u h = (ground arith, ground arith)

-- A call that returns has run the transaction on the state that it began with.
create_runs :
    (dto : CreateUsageDto) (o : Option OwnershipContext) (s : Plant) (u : Usage)
    → (create dto o s).0 ≡ ok u
    → (line : RecipeLine) × ((write_usage dto line s).0 ≡ ok u)
      × ((create dto o s).1 ≡ (write_usage dto line s).1)
unfolding create
create_runs dto o s u h = elim (Result-cases (check_usage dto s).0) [
  | inl (line, e) ↦ (
    line,
    ground (arith, check_ownership-state o dto.production_batch_id s, check_usage-state dto s),
    ground (arith, check_ownership-state o dto.production_batch_id s, check_usage-state dto s),
  )
  | inr (x, e) ↦ absurd (ground (arith, check_ownership-state o dto.production_batch_id s))
]

write_usage-Changes :
    (k : ℕ) (dto : CreateUsageDto) (line : RecipeLine) (s : Plant) (u : Usage)
    → IsKeyed s.stock
    → (write_usage dto line s).0 ≡ ok u
    → Changes k
        (direct_use k dto.material_batch_id dto.quantity)
        s.stock
        (write_usage dto line s).1.stock
write_usage-Changes k dto line s u keyed h =
    let t : Db = record s.stock { usages = s.stock.usages ++ new_usage dto line s.next_id ∷ [] } in
    let (after, done) = write_usage_stock dto line s u h in
    let first = Changes-usage k s.stock keyed (new_usage dto line s.next_id) in
    let second =
      (update_batch-Effects k scrap_slip dto.material_batch_id dto.quantity).on_ok t tt first.keyed
        done in
    rw after
      (Changes-eq (Changes-trans first second) (used_up k dto.material_batch_id dto.quantity))

-- If the keys of the stock tables are in order and `create` of a direct usage returns, the
-- warehouse has lost and the usages of the batch have gained the quantity, and no other sum of any
-- batch has changed.
pub create-Changes :
    (k : ℕ) (dto : CreateUsageDto) (o : Option OwnershipContext) (s : Plant) (u : Usage)
    → IsKeyed s.stock
    → (create dto o s).0 ≡ ok u
    → Changes k (direct_use k dto.material_batch_id dto.quantity) s.stock (create dto o s).1.stock
create-Changes k dto o s u keyed h =
    let (line, written, after) = create_runs dto o s u h in
    rw after (write_usage-Changes k dto line s u keyed written)
