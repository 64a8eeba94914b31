-- ===== src/ProcessChange/Versions.antt =====
-- The recipes of a product after an application with the scope `recipe`.
use noidear.Base.{
  ℕ, ◌+◌, Bool, true, false, ◌&&◌, Option, some, List, [], ◌∷◌, ◌++◌, ◌≡◌, arith, ◌∙◌, ap, sym,
  subst, inl, inr, any, Bool-cases, Option-cases, count, count-append, count-update_all,
  count-update_many, update_many, leb, get_or, find_first, has_repeat, refl, ==_refl, ◌<◌,
  if◌then◌else◌,
}
use noidear.Base.Action.{Action, pure, ◌>>=◌, continue, ok, Result-cases}
use noidear.ProcessChange.{
  update_plan, approved_executing, Db, Plan, Recipe, active_of, Scope, has_scope, is_executed,
  Artifact,
}
use noidear.ProcessChange.Apply.{
  latest_version, version_of, version_or_zero, apply_recipe_change, insert_recipe, archive_recipe,
  new_recipe, recipe_part, step_part, point_part, apply_scopes, material_of, apply_in_transaction,
  create_execution, execution_of, apply_approved_change, event_plan,
}
use noidear.ProcessChange.Validate.{given, validate_payload}
use noidear.ProcessChange.Frame.{Moves, bind-Moves, Same, Same-IsPreorder}
use noidear.ProcessChange.Parts.{apply_process-Moves, apply_haccp-Moves, scoped-Moves}
use noidear.ProcessChange.Unwritten.{validate_payload-state}
use noidear.ProcessChange.Outcome.{apply_run}

-- No row that passes the test has a version from `n` on, when the latest is below.
latest_version-bounds :
    (p : Recipe → Bool) (n : ℕ) (rs : List Recipe)
    → ((v : ℕ) → latest_version p rs ≡ some v → v < n)
    → count (λ r. p r && leb n r.version) rs ≡ 0
unfolding latest_version count
latest_version-bounds p n [] h = refl
latest_version-bounds p n (r ∷ rs) h = elim (Bool-cases (p r)) [
  | inr e ↦ ground (arith, e, latest_version-bounds p n rs (λ v f. h v (ground (arith, e, f))))
  | inl e ↦ elim (Option-cases (latest_version p rs)) [
    | inl f ↦
        let top : r.version < n = h r.version (ground (arith, e, f)) in
        ground (arith, e, top, latest_version-bounds p n rs (λ v g. absurd (cc (f, g))))
    | inr (w, f) ↦
        let top : (if leb w r.version then r.version else w) < n =
          h (if leb w r.version then r.version else w) (ground (arith, e, f)) in
        ground (
          arith,
          e,
          top,
          latest_version-bounds p n rs
              (λ v g. let same : v ≡ w = cc (f, g) in ground (arith, same, top)),
        )
  ]
]

-- One recipe of the product is active, it is of the plan's company and made for its change, and no recipe of the company and the product that was
-- there has as high a version.
pub record IsRenewed (plan : Plan) (old new : List Recipe) : Type 0 where
  pub version : ℕ
  pub id : ℕ
  pub kept :
      new
      ≡ update_many (active_of plan.product_id) archive_recipe old
        ++ new_recipe plan version id ∷ []
  pub one_active : count (active_of plan.product_id) new ≡ 1
  pub highest :
      count (λ r. version_of plan.company_id plan.product_id r && leb version r.version) old ≡ 0

new_one :
    (plan : Plan) (version id : ℕ)
    → count (active_of plan.product_id) (new_recipe plan version id ∷ []) ≡ 1
unfolding count
new_one plan version id = ground (arith, ==_refl plan.product_id)

apply_recipe-IsRenewed :
    (plan : Plan) (s : Db) (made : Option ℕ × List Artifact)
    → (apply_recipe_change plan s).0 ≡ ok made
    → IsRenewed plan s.recipes (apply_recipe_change plan s).1.recipes
unfolding apply_recipe_change insert_recipe
apply_recipe-IsRenewed plan s made done =
    elim (Bool-cases (has_repeat (given material_of plan.payload.recipe_lines))) [
      | inl e ↦ absurd (ground (arith, e))
      | inr e ↦
          let mine = version_of plan.company_id plan.product_id in
          let old = update_many (active_of plan.product_id) archive_recipe s.recipes in
          let v =
            get_or (latest_version mine old)
              (version_or_zero (find_first (active_of plan.product_id) s.recipes))
            + 1 in
          let kept : (apply_recipe_change plan s).1.recipes
              ≡ old ++ new_recipe plan v s.next_id ∷ [] =
            ground (arith, e) in
          let gone : count (active_of plan.product_id) old ≡ 0 =
            count-update_all (active_of plan.product_id) archive_recipe s.recipes
              (λ r. ground arith) in
          record {
            version = v;
            id = s.next_id;
            kept = kept;
            one_active =
                ap (count (active_of plan.product_id)) kept
                ∙ omega (
                  arith,
                  count-append (active_of plan.product_id) old (new_recipe plan v s.next_id ∷ []),
                  gone,
                  new_one plan v s.next_id,
                );
            highest =
                sym (
                  count-update_many (λ r. mine r && leb v r.version) (active_of plan.product_id)
                    archive_recipe s.recipes (λ r. refl))
                ∙ latest_version-bounds mine v old (λ w f. rw f (omega arith));
          }
    ]

-- What follows the recipe in a plan leaves the recipes alone.
abbrev after_recipe : Plan → Option ℕ × List Artifact → Action Db (List Artifact)
after_recipe plan made = do
  steps ← step_part plan made.0
  points ← point_part plan
  pure (made.1 ++ (steps ++ points))

after_recipe-Same :
    (plan : Plan) (made : Option ℕ × List Artifact)
    → Moves (Same (λ d. d.recipes)) (after_recipe plan made)
after_recipe-Same plan made =
    let order = Same-IsPreorder (λ d. d.recipes) in
    bind-Moves (Same (λ d. d.recipes)) order (step_part plan made.0)
      (λ steps. point_part plan >>= (λ points. pure (made.1 ++ (steps ++ points))))
      (scoped-Moves (Same (λ d. d.recipes)) order _ _ _
        (apply_process-Moves (Same (λ d. d.recipes)) order (λ s ts n le. refl) plan made.0))
      (λ steps.
        bind-Moves (Same (λ d. d.recipes)) order (point_part plan)
          (λ points. pure (made.1 ++ (steps ++ points)))
          (scoped-Moves (Same (λ d. d.recipes)) order _ _ _
            (apply_haccp-Moves (Same (λ d. d.recipes)) order (λ s cs n le. refl) plan))
          (λ points s. refl))

recipe_scoped :
    (plan : Plan)
    → has_scope Scope.recipe plan.scopes ≡ true
    → recipe_part plan ≡ apply_recipe_change plan
recipe_scoped plan scope = rw scope refl

apply_scopes-IsRenewed :
    (plan : Plan) (s : Db) (made : List Artifact)
    → has_scope Scope.recipe plan.scopes ≡ true
    → (apply_scopes plan s).0 ≡ ok made
    → IsRenewed plan s.recipes (apply_scopes plan s).1.recipes
unfolding apply_scopes
apply_scopes-IsRenewed plan s made scope done = elim (Result-cases (validate_payload plan s).0) [
  | inr (x, e) ↦ absurd (ground (arith, e))
  | inl (u, e) ↦
      let valid : validate_payload plan s ≡ (ok u, s) =
        λ i. (e i, validate_payload-state plan s i) in
      let begun : apply_scopes plan s ≡ continue (after_recipe plan) (apply_recipe_change plan s) =
        ap (continue (λ (v : Unit {0}). recipe_part plan >>= after_recipe plan)) valid
        ∙ ap (λ m. continue (after_recipe plan) (m s)) (recipe_scoped plan scope) in
      let t = (apply_recipe_change plan s).1 in
      elim (Result-cases (apply_recipe_change plan s).0) [
        | inr (x, f) ↦
            absurd
              (cc (done, ap (λ p. p.0) begun, ap (λ q. (continue (after_recipe plan) (q, t)).0) f))
        | inl (r, f) ↦
            let run : apply_scopes plan s ≡ after_recipe plan r t =
              begun ∙ ap (λ q. continue (after_recipe plan) (q, t)) f in
            subst (IsRenewed plan s.recipes)
              (sym (ap (λ p. p.1.recipes) run ∙ after_recipe-Same plan r t))
              (apply_recipe-IsRenewed plan s r f)
      ]
]

transaction-IsRenewed :
    (now : ℕ) (plan : Plan) (s : Db)
    → has_scope Scope.recipe plan.scopes ≡ true
    → (apply_in_transaction now plan s).0 ≡ ok tt
    → IsRenewed plan s.recipes (apply_in_transaction now plan s).1.recipes
unfolding apply_in_transaction create_execution
transaction-IsRenewed now plan s scope done =
    let s1 : Db = update_plan plan.id (λ p. record p { status = approved_executing }) s in
    let t = (apply_scopes plan s1).1 in
    elim (Result-cases (apply_scopes plan s1).0) [
      | inr (x, e) ↦ absurd (ground (arith, e))
      | inl (artifacts, e) ↦
          let h = apply_scopes-IsRenewed plan s1 artifacts scope e in
          elim (Bool-cases (any (execution_of plan.change_event_id) t.executions)) [
            | inl taken ↦ absurd (ground (arith, e, taken))
            | inr free ↦ subst (IsRenewed plan s.recipes) (ground (arith, e, free)) h
          ]
    ]

-- If the plan of an approved event is found and waits, has the scope `recipe`, and its application
-- returns, then the recipes are the old ones, those of the product that were active archived, and
-- one new recipe with the plan's lines; it is the only active one of the product, and no old recipe
-- of its company and product has a version as high.
pub apply_approved_change-IsRenewed :
    (now event_id actor_id : ℕ) (plan : Plan) (s : Db)
    → find_first (event_plan event_id) s.plans ≡ some plan
    → is_executed plan.status ≡ false
    → has_scope Scope.recipe plan.scopes ≡ true
    → (apply_approved_change now event_id actor_id s).0 ≡ ok tt
    → IsRenewed plan s.recipes (apply_approved_change now event_id actor_id s).1.recipes
apply_approved_change-IsRenewed now event_id actor_id plan s found waits scope done =
    elim (apply_run now event_id actor_id plan s found waits) [
      | inr (x, threw, after) ↦ absurd (cc (done, ap (λ r. r.0) after))
      | inl (ran, after) ↦
          subst (IsRenewed plan s.recipes) (sym (ap (λ r. r.1.recipes) after))
            (transaction-IsRenewed now plan s scope ran)
    ]
