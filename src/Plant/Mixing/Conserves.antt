-- ===== src/Plant/Mixing/Conserves.antt =====
-- A mixing execution of mixing.service.ts takes from the staging areas what its lines say.
use noidear.Base.{
  ℕ, zero, suc, ◌≡◌, refl, Option, none, some, ◌==◌, ==→eq, find_first, find_first-holds, is_some,
  is_some_of, sum_by, sum_by-append, sum_by_one, and-left, arith, ap, sym, subst, ◌∙◌, not, inl,
  inr,
}
use noidear.Base.Int.{ℤ, pos, ◌+ℤ◌, ◌-ℤ◌, int_laws, pos_part, neg_part}
use noidear.Base.Action.{
  Action, ok, Keeps, bind-Keeps, for_each, for_each-Keeps, throw_if, bad_request, Result-cases,
  pure, ◌>>=◌, ◌>>◌,
}
use noidear.Warehouse.Model.{IsKeyed}
use noidear.Warehouse.Measures.{part, staged, hand, used}
use noidear.Warehouse.Effect.{plus, Changes, Changes-trans, Changes-refl}
use noidear.Warehouse.Statements.{by_staged, by_used, Changes-usage}
use noidear.Plant.{Plant, ExecutionLine}
use noidear.Plant.Staging.{in_area}
use noidear.Plant.MixingChecks.{
  MixingLineInput, CreateExecutionDto, check_shift, check_link, check_counted, check_plan_item,
  shift_is, batch_ids,
}
use noidear.Plant.Mixing.{
  create_from_mixing_line, execute_line, add_execution, do_create_execution, create_attempts,
  create_execution, recipe_of, has_repeats,
}
use noidear.Plant.Mixing.Traced.{Executed, execute_line-Executed, consume_stock-Changes, written}

abbrev line_part : ℕ → ExecutionLine → ℤ
line_part k l = part k l.material_batch_id l.actual_quantity

-- What the lines of all executions say has been taken of a batch.
unfoldable pub mixed : ℕ → Plant → ℤ
mixed k s = sum_by (line_part k) s.execution_lines

-- The amount that the trace bridge writes as usages.
abbrev pub bridged : Option ℕ → ℤ → ℤ
bridged none q = pos 0
bridged (some _) q = q

-- For the batch `k`: what is staged and what is mixed add up to `c`; the usages are `u` and what the bridge
-- has written; and the warehouse holds `h`.
pub record Tracks (k : ℕ) (linked : Option ℕ) (c u h : ℤ) (s : Plant) : Type 0 where
  pub keyed : IsKeyed s.stock
  pub conserved : staged k s.stock +ℤ mixed k s ≡ c
  pub traced : used k s.stock ≡ u +ℤ bridged linked (mixed k s)
  pub held : hand k s.stock ≡ h

bridge-Changes :
    (k : ℕ) (dto : CreateExecutionDto) (input : MixingLineInput) (linked : Option ℕ) (line_id : ℕ)
    (s : Plant)
    → IsKeyed s.stock
    → Changes k
        (by_used (bridged linked (part k input.material_batch_id input.actual_quantity)))
        s.stock
        (create_from_mixing_line dto input linked line_id s).stock
unfolding create_from_mixing_line
bridge-Changes k dto input none line_id s keyed = Changes-refl k s.stock keyed
bridge-Changes k dto input (some b) line_id s keyed = Changes-usage k s.stock keyed _

bridge-lines :
    (dto : CreateExecutionDto) (input : MixingLineInput) (linked : Option ℕ) (line_id : ℕ)
    (s : Plant)
    → (create_from_mixing_line dto input linked line_id s).execution_lines ≡ s.execution_lines
unfolding create_from_mixing_line
bridge-lines dto input none line_id s = refl
bridge-lines dto input (some b) line_id s = refl

conserved_step :
    (t m c t' m' q : ℤ) → t' ≡ t +ℤ (pos 0 -ℤ q +ℤ pos 0) → m' ≡ m +ℤ q → t +ℤ m ≡ c → t' +ℤ m' ≡ c
conserved_step t m c t' m' q a b e = rw (a, b) (omega (int_laws, ap pos_part e, ap neg_part e))

traced_step :
    (linked : Option ℕ) (v m u v' m' q : ℤ)
    → v' ≡ v +ℤ (pos 0 +ℤ bridged linked q)
    → m' ≡ m +ℤ q
    → v ≡ u +ℤ bridged linked m
    → v' ≡ u +ℤ bridged linked m'
traced_step none v m u v' m' q a b e = rw (a, e) (omega int_laws)
traced_step (some _) v m u v' m' q a b e = rw (a, b, e) (omega int_laws)

held_step : (h h' c : ℤ) → h' ≡ h +ℤ (pos 0 +ℤ pos 0) → h ≡ c → h' ≡ c
held_step h h' c a e = rw (a, e) (omega int_laws)

module _ (k : ℕ) {c u h : ℤ} (dto : CreateExecutionDto) (execution_id : ℕ)
    (input : MixingLineInput) where
  Executed-Tracks :
      (s t : Plant)
      → Executed dto execution_id input s t
      → Tracks k dto.production_batch_id c u h s
      → Tracks k dto.production_batch_id c u h t
  unfolding mixed
  Executed-Tracks s t e g =
      let same : e.stock.batch_id ≡ input.material_batch_id =
        ==→eq e.stock.batch_id input.material_batch_id (
          and-left (e.stock.batch_id == input.material_batch_id)
            (is_some_of dto.area_id e.stock.area_id)
            (find_first-holds (in_area input.material_batch_id dto.area_id) s.stock.staging e.stock
              e.found)) in
      let first =
        consume_stock-Changes k s.stock g.keyed (in_area input.material_batch_id dto.area_id)
          e.stock input.actual_quantity e.found e.consumed in
      let mid = written input e.recipe_line execution_id e.stock s in
      let final = create_from_mixing_line dto input dto.production_batch_id s.next_id mid in
      let second = bridge-Changes k dto input dto.production_batch_id s.next_id mid first.keyed in
      let all =
        subst
          (λ b.
            Changes k
              (plus (by_staged (pos 0 -ℤ part k b input.actual_quantity)) (
                by_used (
                  bridged dto.production_batch_id
                    (part k input.material_batch_id input.actual_quantity))))
              s.stock final.stock)
          same (Changes-trans first second) in
      let lines : mixed k final
          ≡ mixed k s +ℤ part k input.material_batch_id input.actual_quantity =
        ap (sum_by (line_part k)) (bridge-lines dto input dto.production_batch_id s.next_id mid)
        ∙ rw (sum_by-append, sum_by_one) refl in
      subst (Tracks k dto.production_batch_id c u h) (sym e.after) record {
        keyed = all.keyed;
        conserved =
            conserved_step _ (mixed k s) _ _ (mixed k final) _ all.staged_eq lines g.conserved;
        traced =
            traced_step dto.production_batch_id _ (mixed k s) _ _ (mixed k final) _ all.used_eq
              lines g.traced;
        held = held_step _ _ _ all.hand_eq g.held;
      }

  execute_line-Tracks :
      Keeps (Tracks k dto.production_batch_id c u h) (execute_line dto execution_id input)
  execute_line-Tracks s a g e =
      Executed-Tracks s (execute_line dto execution_id input s).1
        (execute_line-Executed dto execution_id input s e) g

Tracks-same :
    (k : ℕ) (linked : Option ℕ) (c u h : ℤ) (s t : Plant)
    → t.stock ≡ s.stock
    → t.execution_lines ≡ s.execution_lines
    → Tracks k linked c u h s
    → Tracks k linked c u h t
unfolding mixed
Tracks-same k linked c u h s t p q g = record {
  keyed = subst IsKeyed (sym p) g.keyed;
  conserved = rw (p, q) g.conserved;
  traced = rw (p, q) g.traced;
  held = rw p g.held;
}

check_counted-reads :
    (dto : CreateExecutionDto) (shift batch_id : ℕ) (s : Plant)
    → (check_counted dto shift batch_id s).1 ≡ s
unfolding check_counted
check_counted-reads dto shift batch_id s = refl

check_link-reads :
    (dto : CreateExecutionDto) (o : Option ℕ) (s : Plant) → (check_link dto o s).1 ≡ s
unfolding check_link check_plan_item
check_link-reads dto o s = ground arith

module _ (k : ℕ) (linked : Option ℕ) {c u h : ℤ} where
  check_shift-Tracks :
      (dto : CreateExecutionDto) (o : Option ℕ) → Keeps (Tracks k linked c u h) (check_shift dto o)
  unfolding check_shift
  check_shift-Tracks dto none s a g e = g
  check_shift-Tracks dto (some shift) s a g e =
      bind-Keeps (Tracks k linked c u h)
        (throw_if (not (is_some (find_first (shift_is shift) s.shift_types)))
          (bad_request "班次类型不存在或已停用"))
        (λ _. for_each (check_counted dto shift) (batch_ids dto)) (λ t x r q. r)
        (λ _.
          for_each-Keeps (Tracks k linked c u h) (check_counted dto shift)
            (λ b t x r q. subst (Tracks k linked c u h) (sym (check_counted-reads dto shift b t)) r)
            (batch_ids dto))
        s a g e

  add_execution-Tracks :
      (now : ℕ) (dto : CreateExecutionDto) (by : Option ℕ)
      → Keeps (Tracks k linked c u h) (add_execution now dto by)
  unfolding add_execution
  add_execution-Tracks now dto by s a g e =
      Tracks-same k linked c u h s (add_execution now dto by s).1 (ground arith) (ground arith) g

module _ (k : ℕ) {c u h : ℤ} (now : ℕ) (dto : CreateExecutionDto) (by : Option ℕ) where
  do_create-Tracks : Keeps (Tracks k dto.production_batch_id c u h) (do_create_execution now dto by)
  unfolding do_create_execution
  do_create-Tracks s a g e =
      bind-Keeps P
        (throw_if (not (is_some (find_first (recipe_of dto) s.recipes)))
          (bad_request "配方与产品不匹配或配方未启用"))
        (λ _.
          check_shift dto dto.shift_type_id >> (check_link dto dto.production_batch_id >> write))
        (λ t x r q. r)
        (λ _.
          bind-Keeps P (check_shift dto dto.shift_type_id)
            (λ _. check_link dto dto.production_batch_id >> write)
            (check_shift-Tracks k dto.production_batch_id dto dto.shift_type_id)
            (λ _.
              bind-Keeps P (check_link dto dto.production_batch_id) (λ _. write)
                (λ t x r q. subst P (sym (check_link-reads dto dto.production_batch_id t)) r)
                (λ _.
                  bind-Keeps P (add_execution now dto by) lines
                    (add_execution-Tracks k dto.production_batch_id now dto by)
                    (λ id.
                      bind-Keeps P (for_each (execute_line dto id) dto.lines) (λ _. pure id)
                        (for_each-Keeps P (execute_line dto id)
                          (λ l. execute_line-Tracks k dto id l) dto.lines)
                        (λ _ t x r q. r)))))
        s a g e
    where
      P : Plant → Type 0
      P = Tracks k dto.production_batch_id c u h

      lines : ℕ → Action Plant ℕ
      lines id = for_each (execute_line dto id) dto.lines >> pure id

      write : Action Plant ℕ
      write = add_execution now dto by >>= lines

  create_attempts-Tracks :
      (n : ℕ) → Keeps (Tracks k dto.production_batch_id c u h) (create_attempts n now dto by)
  unfolding create_attempts
  create_attempts-Tracks zero s a g e = g
  create_attempts-Tracks (suc n) s a g e =
      elim (Result-cases (do_create_execution now dto by s).0) [
        | inl done ↦
            let ran = done.1 in
            let after : (create_attempts (suc n) now dto by s).1
                ≡ (do_create_execution now dto by s).1 =
              ground (arith, ran) in
            subst (Tracks k dto.production_batch_id c u h) (sym after)
              (do_create-Tracks s done.0 g ran)
        | inr failed ↦
            let ran = failed.1 in
            let again : create_attempts (suc n) now dto by s ≡ create_attempts n now dto by s =
              ground (arith, ran) in
            subst (λ r. Tracks k dto.production_batch_id c u h r.1) (sym again)
              (create_attempts-Tracks n s a g (subst (λ r. r.0 ≡ ok a) again e))
      ]

  create_execution-Tracks :
      Keeps (Tracks k dto.production_batch_id c u h) (create_execution now dto by)
  unfolding create_execution
  create_execution-Tracks s a g e =
      bind-Keeps (Tracks k dto.production_batch_id c u h)
        (throw_if (has_repeats dto) (bad_request "配方明细存在重复项")) (λ _. create_attempts 3 now dto by)
        (λ t x r q. r) (λ _. create_attempts-Tracks 3) s a g e

used_start : (v b : ℤ) → v ≡ v -ℤ b +ℤ b
used_start v b = omega int_laws

used_end : (v' v b b' : ℤ) → v' ≡ v -ℤ b +ℤ b' → v' +ℤ b ≡ v +ℤ b'
used_end v' v b b' e = rw e (omega int_laws)

-- If the keys of the stock tables are in order and a mixing execution returns, it has taken from
-- the staging areas, of every batch, exactly what its lines say, and nothing from the warehouse:
-- what is staged and what the execution lines say add up as before, and what the warehouse holds is
-- the same. If the execution is linked to a production batch, the usages have grown by what the
-- lines say; if not, they stay.
pub create_execution-conserves :
    (k now : ℕ) (dto : CreateExecutionDto) (by : Option ℕ) (s : Plant) (id : ℕ)
    → IsKeyed s.stock
    → (create_execution now dto by s).0 ≡ ok id
    → let t = (create_execution now dto by s).1 in
      (staged k t.stock +ℤ mixed k t ≡ staged k s.stock +ℤ mixed k s)
      × (hand k t.stock ≡ hand k s.stock)
      × (used k t.stock +ℤ bridged dto.production_batch_id (mixed k s)
          ≡ used k s.stock +ℤ bridged dto.production_batch_id (mixed k t))
create_execution-conserves k now dto by s id keyed e =
    let t =
      create_execution-Tracks k {u = used k s.stock -ℤ bridged dto.production_batch_id (mixed k s)}
        now dto by s id
        (record { keyed = keyed; conserved = refl; traced = used_start _ _; held = refl }) e in
    (t.conserved, t.held, used_end _ _ _ _ t.traced)
