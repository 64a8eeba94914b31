-- ===== src/ProcessChange/Apply/Recipes.antt =====
-- `applyRecipeChange` and `applyProcessStepChange` of product-process-change.service.ts
use noidear.Base.{
  ℕ, ◌+◌, Bool, true, false, ◌&&◌, Option, none, some, List, [], ◌∷◌, ◌++◌, ◌==◌, find_first,
  find_many, if◌then◌else◌, has_repeat, leb, map, update_many, get_or,
}
use noidear.Base.Action.{Action, ok, err, internal, pure, gets, modify, ◌>>=◌, ◌>>◌}
use noidear.ProcessChange.{
  Db, Plan, RecipeLineInput, ProcessStepInput, Recipe, RecipeLine, ProcessStep, Artifact,
  ArtifactAction, archive, create, ResourceType, active_of, active, archived, live_step_of,
}
use noidear.ProcessChange.Validate.{given, is_empty}

module _ {S X Y : Type 0} where
  -- A loop that pushes a value in each round
  unfoldable pub collect : (X → Action S Y) → List X → Action S (List Y)
  collect f [] = pure []
  collect f (x ∷ xs) = do y ← f x; ys ← collect f xs; pure (y ∷ ys)

-- The execution's id is filled in when the rows are written.
abbrev pub artifact : ResourceType → ArtifactAction → ℕ → Artifact
artifact type action id = record {
  execution_id = 0;
  resource_type = type;
  resource_id = id;
  action = action;
}

abbrev pub version_of : ℕ → ℕ → Recipe → Bool
version_of company_id product_id r = r.product_id == product_id && r.company_id == company_id

-- `findFirst({ where, orderBy: { version: 'desc' } })`, the version alone
unfoldable pub latest_version : (Recipe → Bool) → List Recipe → Option ℕ
latest_version p [] = none
latest_version p (r ∷ rs) =
    let rest = latest_version p rs in
    if p r
    then elim rest [
      | none ↦ some r.version
      | some v ↦ some (if leb v r.version then r.version else v)
    ]
    else rest

abbrev pub version_or_zero : Option Recipe → ℕ
version_or_zero none = 0
version_or_zero (some r) = r.version

abbrev pub new_line : RecipeLineInput → RecipeLine
new_line l = record {
  material_id = l.material_id;
  qty_per_batch = l.qty_per_batch;
  unit = l.unit;
  area_id = l.area_id;
  is_critical = l.is_critical;
}

abbrev pub archive_recipe : Recipe → Recipe
archive_recipe r = record r { status = archived }

abbrev pub archive_of : Option Recipe → List Artifact
archive_of none = []
archive_of (some r) = artifact ResourceType.recipe archive r.id ∷ []

abbrev pub new_recipe : Plan → ℕ → ℕ → Recipe
new_recipe plan version id = record {
  id = id;
  company_id = plan.company_id;
  product_id = plan.product_id;
  version = version;
  status = active;
  change_event_id = some plan.change_event_id;
  lines = map new_line plan.payload.recipe_lines;
}

abbrev pub material_of : RecipeLineInput → Option ℕ
material_of l = l.material_id

-- A material that stands in two lines is refused by the unique index of the lines.
unfoldable pub insert_recipe : Plan → ℕ → Action Db ℕ
insert_recipe plan version s =
    if has_repeat (given material_of plan.payload.recipe_lines)
    then (err (internal "P2002"), s)
    else (
      ok s.next_id,
      record s {
        recipes = s.recipes ++ new_recipe plan version s.next_id ∷ [];
        next_id = s.next_id + 1;
      },
    )

unfoldable pub apply_recipe_change : Plan → Action Db (Option ℕ × List Artifact)
apply_recipe_change plan = do
  previous_active ← gets (λ s. find_first (active_of plan.product_id) s.recipes)
  modify
      (λ s. record s { recipes = update_many (active_of plan.product_id) archive_recipe s.recipes })
  latest ← gets (λ s. latest_version (version_of plan.company_id plan.product_id) s.recipes)
  id ← insert_recipe plan (get_or latest (version_or_zero previous_active) + 1)
  pure (some id, archive_of previous_active ++ artifact ResourceType.recipe create id ∷ [])

abbrev pub delete_step : ProcessStep → ProcessStep
delete_step t = record t { is_deleted = true }

-- A step number that is missing gets the column's default.
abbrev pub new_step : Plan → Option ℕ → ProcessStepInput → ℕ → ProcessStep
new_step plan recipe_id step id = record {
  id = id;
  company_id = plan.company_id;
  product_id = some plan.product_id;
  recipe_id = recipe_id;
  step_no = get_or step.step_no 1;
  name = step.name;
  change_event_id = some plan.change_event_id;
  is_deleted = false;
}

unfoldable pub create_step : Plan → Option ℕ → ProcessStepInput → Action Db Artifact
create_step plan recipe_id step s = (
  ok (artifact ResourceType.process_step create s.next_id),
  record s {
    steps = s.steps ++ new_step plan recipe_id step s.next_id ∷ [];
    next_id = s.next_id + 1;
  },
)

unfoldable pub apply_process_step_change : Plan → Option ℕ → Action Db (List Artifact)
apply_process_step_change plan recipe_id =
    if is_empty plan.payload.process_steps then pure [] else do
      existing ← gets (λ s. find_many (live_step_of plan.product_id) s.steps)
      modify
          (λ s. record s { steps = update_many (live_step_of plan.product_id) delete_step s.steps })
      created ← collect (create_step plan recipe_id) plan.payload.process_steps
      pure (map (λ t. artifact ResourceType.process_step archive t.id) existing ++ created)
