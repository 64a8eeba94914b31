-- ===== src/ProcessChange/Unwritten.antt =====
-- `validatePayload` of product-process-change.service.ts and the database.
use noidear.ProcessChange.Frame.{Moves, IsPreorder, bind-Moves, for_each-Moves}
use noidear.Base.{
  ℕ, Bool, true, false, List, [], ◌∷◌, ◌≡◌, refl, arith, ◌∙◌, inl, inr, Bool-cases, Option-cases,
  find_first,
}
use noidear.Base.Action.{Action, ◌>>◌}
use noidear.ProcessChange.{
  Db, Plan, Scope, has_scope, CcpPointInput, ProcessStepInput, RecipeLineInput, haccp, process,
  product_is,
}
use noidear.ProcessChange.Validate.{
  validate_payload, validate_recipe, validate_process, validate_haccp, check_line, check_steps,
  check_ccp, check_ccps, when, is_none,
}

-- Nothing changes.
abbrev pub Unchanged : Db → Db → Type 0
Unchanged s t = t ≡ s

pub Unchanged-IsPreorder : IsPreorder Unchanged
Unchanged-IsPreorder = record { same = λ s. refl; trans = λ s t u h k. k ∙ h }

check_line-state : (line : RecipeLineInput) → Moves Unchanged (check_line line)
unfolding check_line
check_line-state line s = ground arith

validate_recipe-state : (plan : Plan) → Moves Unchanged (validate_recipe plan)
unfolding validate_recipe
validate_recipe-state plan s = ground (
  arith,
  for_each-Moves Unchanged Unchanged-IsPreorder check_line check_line-state
      plan.payload.recipe_lines s,
)

check_steps-state :
    (seen : List ℕ) (steps : List ProcessStepInput) → Moves Unchanged (check_steps seen steps)
unfolding check_steps
check_steps-state seen [] s = refl
check_steps-state seen (step ∷ steps) s = elim (Option-cases step.step_no) [
  | inl e ↦ ground (arith, e)
  | inr (n, e) ↦ ground (arith, e, check_steps-state (n ∷ seen) steps s)
]

validate_process-state : (plan : Plan) → Moves Unchanged (validate_process plan)
unfolding validate_process
validate_process-state plan s = ground (arith, check_steps-state [] plan.payload.process_steps s)

check_ccp-state : (ccp : CcpPointInput) → Moves Unchanged (check_ccp ccp)
unfolding check_ccp
check_ccp-state ccp s = ground arith

check_ccps-state : (seen ccps : List CcpPointInput) → Moves Unchanged (check_ccps seen ccps)
unfolding check_ccps
check_ccps-state seen [] s = refl
check_ccps-state seen (ccp ∷ ccps) s =
    ground (arith, check_ccp-state ccp s, check_ccps-state (ccp ∷ seen) ccps s)

validate_haccp-state : (plan : Plan) → Moves Unchanged (validate_haccp plan)
unfolding validate_haccp
validate_haccp-state plan s = ground (arith, check_ccps-state [] plan.payload.ccp_points s)

when-state : (b : Bool) (m : Action Db (Unit {0})) → Moves Unchanged m → Moves Unchanged (when b m)
when-state true m h s = h s
when-state false m h s = refl

pub validate_payload-state : (plan : Plan) → Moves Unchanged (validate_payload plan)
unfolding validate_payload
validate_payload-state plan s =
    let last = when (has_scope haccp plan.scopes) (validate_haccp plan) in
    let steps = when (has_scope process plan.scopes) (validate_process plan) in
    let lines = when (has_scope Scope.recipe plan.scopes) (validate_recipe plan) in
    let last_same : Moves Unchanged last =
      when-state _ (validate_haccp plan) (validate_haccp-state plan) in
    let steps_same : Moves Unchanged steps =
      when-state _ (validate_process plan) (validate_process-state plan) in
    let lines_same : Moves Unchanged lines =
      when-state _ (validate_recipe plan) (validate_recipe-state plan) in
    let checks : Moves Unchanged (lines >> (steps >> last)) =
      bind-Moves Unchanged Unchanged-IsPreorder lines (λ u. steps >> last) lines_same
        (λ u.
          bind-Moves Unchanged Unchanged-IsPreorder steps (λ v. last) steps_same
            (λ v. last_same)) in
    elim (Bool-cases (is_none (find_first (product_is plan.product_id) s.products))) [
      | inl e ↦ rw e refl
      | inr e ↦ rw e (checks s)
    ]
