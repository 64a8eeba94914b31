-- ===== src/ProcessChange/Parts.antt =====
-- How `applyRecipeChange`, `applyProcessStepChange` and `applyHaccpChange` can move the database.
use noidear.ProcessChange.Frame.{Moves, IsPreorder, bind-Moves, collect-Moves}
use noidear.ProcessChange.Unwritten.{Unchanged, validate_payload-state}
use noidear.Base.{
  ◌++◌, subst, sym, ◌≤◌, ℕ, Bool, true, false, Option, none, some, List, [], ◌∷◌, ◌≡◌, refl, arith,
  any, inl, inr, Bool-cases, Option-cases, find_first, find_many, map, has_repeat, get_or, not,
  update_many, includes,
}
use noidear.Base.Action.{Action, ◌>>=◌, pure, ◌>>◌, Error, or_throw, modify}
use noidear.ProcessChange.{
  Db, Plan, Recipe, ProcessStep, CcpPoint, CcpPointInput, ProcessStepInput, Artifact, active_of,
  ResourceType, archive, live_step_of, update, create,
}
use noidear.ProcessChange.Validate.{validate_payload, is_empty, given}
use noidear.ProcessChange.Apply.{
  collect, apply_recipe_change, insert_recipe, apply_process_step_change, create_step,
  apply_haccp_change, update_point, create_point, insert_point, resolve_step_id_for_ccp,
  apply_scopes, archive_of, proposed_for, takes_number, artifact, is_current, material_of,
  is_proposed, ccp_is, put_point, is_new, delete_step, scoped, point_part, archive_recipe,
  delete_point, recipe_part, step_part,
}

pub or_throw-state : {A : Type 0} (o : Option A) (e : Error) (s : Db) → (or_throw o e s).1 ≡ s
or_throw-state none e s = refl
or_throw-state (some a) e s = refl

module _ (R : Db → Db → Type 0) (order : IsPreorder R) where
  pub Unchanged-Moves : {A : Type 0} (m : Action Db A) → Moves Unchanged m → Moves R m
  Unchanged-Moves m h s = subst (R s) (sym (h s)) (order.same s)

  module _
      (blind : (s : Db) (rs : List Recipe) (n : ℕ)
        → s.next_id ≤ n
        → R s (record s { recipes = rs; next_id = n })) where
    insert_recipe-Moves : (plan : Plan) (version : ℕ) → Moves R (insert_recipe plan version)
    unfolding insert_recipe
    insert_recipe-Moves plan version s =
        elim (Bool-cases (has_repeat (given material_of plan.payload.recipe_lines))) [
          | inl e ↦ rw e (order.same s)
          | inr e ↦ rw e (blind s _ _ (omega arith))
        ]

    apply_recipe-Moves : (plan : Plan) → Moves R (apply_recipe_change plan)
    unfolding apply_recipe_change
    apply_recipe-Moves plan s = order.trans s _ _ (blind s _ s.next_id (omega arith)) (
        bind-Moves R order (insert_recipe plan _)
          (λ id. pure (
            some id,
            archive_of (find_first (active_of plan.product_id) s.recipes)
                ++ artifact ResourceType.recipe create id ∷ [],
          ))
          (insert_recipe-Moves plan _) (λ id t. order.same t)
          (record s { recipes = update_many (active_of plan.product_id) archive_recipe s.recipes }))

  module _
      (blind : (s : Db) (ts : List ProcessStep) (n : ℕ)
        → s.next_id ≤ n
        → R s (record s { steps = ts; next_id = n })) where
    create_step-Moves :
        (plan : Plan) (recipe_id : Option ℕ) (step : ProcessStepInput)
        → Moves R (create_step plan recipe_id step)
    unfolding create_step
    create_step-Moves plan recipe_id step s = blind s _ _ (omega arith)

    pub apply_process-Moves :
        (plan : Plan) (recipe_id : Option ℕ) → Moves R (apply_process_step_change plan recipe_id)
    unfolding apply_process_step_change
    apply_process-Moves plan recipe_id s = elim (Bool-cases (is_empty plan.payload.process_steps)) [
      | inl e ↦ rw e (order.same s)
      | inr e ↦ rw e (
          order.trans s _ _ (blind s _ s.next_id (omega arith)) (
            bind-Moves R order (collect (create_step plan recipe_id) plan.payload.process_steps)
              (λ created. pure (
                map (λ t. artifact ResourceType.process_step archive t.id)
                  (find_many (live_step_of plan.product_id) s.steps)
                ++ created))
              (collect-Moves R order (create_step plan recipe_id) (create_step-Moves plan recipe_id)
                plan.payload.process_steps)
              (λ created t. order.same t)
              (record s {
                steps = update_many (live_step_of plan.product_id) delete_step s.steps;
              })))
    ]

  module _
      (blind : (s : Db) (cs : List CcpPoint) (n : ℕ)
        → s.next_id ≤ n
        → R s (record s { ccps = cs; next_id = n })) where
    resolve-Moves : (plan : Plan) (number : ℕ) → Moves R (resolve_step_id_for_ccp plan number)
    unfolding resolve_step_id_for_ccp
    resolve-Moves plan number s = subst (R s) (sym (or_throw-state _ _ s)) (order.same s)

    update_point-Moves : (plan : Plan) (old : CcpPoint) → Moves R (update_point plan old)
    unfolding update_point
    update_point-Moves plan old s =
        elim (Option-cases (proposed_for old.ccp_no plan.payload.ccp_points)) [
          | inl e ↦ rw e (order.same s)
          | inr (next, e) ↦ rw e (
              bind-Moves R order (resolve_step_id_for_ccp plan next.step_no)
                (λ step.
                  modify (λ d. record d {
                    ccps = update_many (ccp_is old.id) (put_point step.id next) d.ccps;
                  })
                  >> pure (artifact ResourceType.ccp_point update old.id))
                (resolve-Moves plan next.step_no) (λ step t. blind t _ t.next_id (omega arith)) s)
        ]

    insert_point-Moves :
        (plan : Plan) (fresh : CcpPointInput) (step_id : ℕ)
        → Moves R (insert_point plan fresh step_id)
    unfolding insert_point
    insert_point-Moves plan fresh step_id s =
        elim (Bool-cases (any (takes_number plan.company_id (get_or fresh.ccp_no "")) s.ccps)) [
          | inl e ↦ rw e (order.same s)
          | inr e ↦ rw e (blind s _ _ (omega arith))
        ]

    create_point-Moves : (plan : Plan) (fresh : CcpPointInput) → Moves R (create_point plan fresh)
    unfolding create_point
    create_point-Moves plan fresh s =
        bind-Moves R order (resolve_step_id_for_ccp plan fresh.step_no)
          (λ step. insert_point plan fresh step.id) (resolve-Moves plan fresh.step_no)
          (λ step. insert_point-Moves plan fresh step.id) s

    pub apply_haccp-Moves : (plan : Plan) → Moves R (apply_haccp_change plan)
    unfolding apply_haccp_change
    apply_haccp-Moves plan s =
        let current = find_many (is_current plan s.steps) s.ccps in
        let to_delete = find_many (λ c. not (is_proposed plan c)) current in
        let to_update = find_many (is_proposed plan) current in
        let to_create = find_many (is_new current) plan.payload.ccp_points in
        let archived_ones = map (λ c. artifact ResourceType.ccp_point archive c.id) to_delete in
        order.trans s _ _ (blind s _ s.next_id (omega arith)) (
          bind-Moves R order (collect (update_point plan) to_update)
            (λ updated.
              collect (create_point plan) to_create
              >>= (λ created. pure (archived_ones ++ (updated ++ created))))
            (collect-Moves R order (update_point plan) (update_point-Moves plan) to_update)
            (λ updated.
              bind-Moves R order (collect (create_point plan) to_create)
                (λ created. pure (archived_ones ++ (updated ++ created)))
                (collect-Moves R order (create_point plan) (create_point-Moves plan) to_create)
                (λ created t. order.same t))
            (record s {
              ccps =
                  update_many (λ c. includes c.id (map (λ d. d.id) to_delete)) delete_point s.ccps;
            }))

  pub scoped-Moves :
      {A : Type 0} (b : Bool) (m : Action Db A) (a : A) → Moves R m → Moves R (scoped b m a)
  scoped-Moves true m a h s = h s
  scoped-Moves false m a h s = order.same s

  -- Writes to recipes, steps and control points, and a next id that grows, are all that it does.
  pub apply_scopes-Moves :
      ((s : Db) (rs : List Recipe) (n : ℕ)
        → s.next_id ≤ n
        → R s (record s { recipes = rs; next_id = n }))
      → ((s : Db) (ts : List ProcessStep) (n : ℕ)
          → s.next_id ≤ n
          → R s (record s { steps = ts; next_id = n }))
      → ((s : Db) (cs : List CcpPoint) (n : ℕ)
          → s.next_id ≤ n
          → R s (record s { ccps = cs; next_id = n }))
      → (plan : Plan) → Moves R (apply_scopes plan)
  unfolding apply_scopes
  apply_scopes-Moves recipes steps ccps plan =
      let gather = λ (made : Option ℕ × List Artifact) (changed : List Artifact).
        bind-Moves R order (point_part plan) (λ points. pure (made.1 ++ (changed ++ points)))
          (scoped-Moves _ _ _ (apply_haccp-Moves ccps plan)) (λ points s. order.same s) in
      bind-Moves R order (validate_payload plan) _
        (Unchanged-Moves (validate_payload plan) (validate_payload-state plan))
        (λ u.
          bind-Moves R order (recipe_part plan)
            (λ made.
              step_part plan made.0
              >>= (λ changed. point_part plan >>= (λ points. pure (made.1 ++ (changed ++ points)))))
            (scoped-Moves _ _ _ (apply_recipe-Moves recipes plan))
            (λ made.
              bind-Moves R order (step_part plan made.0)
                (λ changed. point_part plan >>= (λ points. pure (made.1 ++ (changed ++ points))))
                (scoped-Moves _ _ _ (apply_process-Moves steps plan made.0))
                (λ changed. gather made changed)))
