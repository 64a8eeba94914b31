-- ===== src/ProcessChange/Stuck.antt =====
-- A change whose application has failed once.
use noidear.Base.{
  ℕ, ◌+◌, true, false, ◌&&◌, none, some, [], ◌∷◌, ◌++◌, ◌==◌, ◌≡◌, ◌≤◌, refl, arith, ◌∙◌, ap, sym,
  subst, any, inl, inr, Bool-cases, find_first, update_many, count, ◌⊎◌, leb, count-append,
  count-update_kept, Option-cases, count-update_many, key_added, fresh_added, length,
}
use noidear.Base.Action.{Error, ok, err, Result-cases, internal}
use noidear.ProcessChange.{
  Db, Plan, is_executed, plan_is, update_plan, Execution, approved_executing, Product, product_is,
}
use noidear.ProcessChange.Apply.{
  apply_in_transaction, apply_scopes, create_execution, mark_executed, event_plan, execution_of,
  new_execution,
}
use noidear.ProcessChange.Parts.{apply_scopes-Moves}
use noidear.ProcessChange.Frame.{Moves, IsPreorder}
use noidear.ProcessChange.Service.{
  create_draft, CreateDraftDto, retry_failed, is_failed, reopen, close_failure_todo, write_draft,
  new_plan, new_event, create_draft_event, blocks, has_number,
}
use noidear.Training.Members.{fresh_mono}

-- What an application has not yet changed when it comes to the execution's row.
abbrev Quiet : Db → Db → Type 0
Quiet s t = (t.executions ≡ s.executions) × (t.plans ≡ s.plans) × (s.next_id ≤ t.next_id)

Quiet-IsPreorder : IsPreorder Quiet
Quiet-IsPreorder = record {
  same = λ s. (refl, refl, omega arith);
  trans = λ s t u h k. (k.0 ∙ h.0, k.1 ∙ h.1, omega (arith, h.2, k.2));
}

apply_scopes-Quiet : (plan : Plan) → Moves Quiet (apply_scopes plan)
apply_scopes-Quiet plan =
    apply_scopes-Moves Quiet Quiet-IsPreorder (λ s rs n le. (refl, refl, le))
      (λ s ts n le. (refl, refl, le)) (λ s cs n le. (refl, refl, le)) plan

-- The unique index on the executions of a change refuses a second one.
pub never_applies :
    (now : ℕ) (plan : Plan) (s : Db)
    → any (execution_of plan.change_event_id) s.executions ≡ true
    → (e : Error) × ((apply_in_transaction now plan s).0 ≡ err e)
unfolding apply_in_transaction create_execution
never_applies now plan s there =
    let s1 : Db = update_plan plan.id (λ p. record p { status = approved_executing }) s in
    let quiet = apply_scopes-Quiet plan s1 in
    elim (Result-cases (apply_scopes plan s1).0) [
      | inl (artifacts, e) ↦
          let still : any (execution_of plan.change_event_id) (apply_scopes plan s1).1.executions
              ≡ true =
            ap (any (execution_of plan.change_event_id)) quiet.0 ∙ there in
          (internal "P2002", ground (arith, e, still))
      | inr (x, e) ↦ (x, ground (arith, e))
    ]

-- An application that is done has written one execution and marked its plan.
pub applied :
    (now : ℕ) (plan : Plan) (s : Db)
    → (apply_in_transaction now plan s).0 ≡ ok tt
    → let t = (apply_in_transaction now plan s).1 in
      (e : Execution) × (t.executions ≡ s.executions ++ e ∷ [])
      × (t.plans
          ≡ update_many (plan_is plan.id) (mark_executed now) (
              update_many
                (plan_is plan.id)
                (λ p. record p { status = approved_executing })
                s.plans))
      × (s.next_id ≤ t.next_id)
unfolding apply_in_transaction create_execution
applied now plan s done =
    let s1 : Db = update_plan plan.id (λ p. record p { status = approved_executing }) s in
    let (executions, plans, grows) = apply_scopes-Quiet plan s1 in
    let t = (apply_scopes plan s1).1 in
    elim (Result-cases (apply_scopes plan s1).0) [
      | inl (artifacts, e) ↦
          elim (Bool-cases (any (execution_of plan.change_event_id) t.executions)) [
            | inl taken ↦ absurd (ground (arith, e, taken))
            | inr free ↦ (
              new_execution plan t.next_id,
              ground (arith, e, free, executions),
              ground (arith, e, free, plans),
              ground (arith, e, free, grows),
            )
          ]
      | inr (x, e) ↦ absurd (ground (arith, e))
    ]

-- No plan of the change is executed, the ids of the plans are unique, and the next one is fresh.
pub record IsUnapplied (event_id : ℕ) (s : Db) : Type 0 where
  pub none_executed : count (λ p. event_plan event_id p && is_executed p.status) s.plans ≡ 0
  pub plan_key : (k : ℕ) → count (plan_is k) s.plans ≤ 1
  pub fresh : count (λ p. leb s.next_id p.id) s.plans ≡ 0

-- The change has an execution besides.
abbrev pub IsStuck : ℕ → Db → Type 0
IsStuck event_id s = (any (execution_of event_id) s.executions ≡ true) × IsUnapplied event_id s

one_waiting :
    (event_id : ℕ) (p : Plan)
    → is_executed p.status ≡ false
    → count (λ q. event_plan event_id q && is_executed q.status) (p ∷ []) ≡ 0
unfolding count
one_waiting event_id p h = ground (arith, h)

-- The state after a draft is written
abbrev pub drafted : ℕ → CreateDraftDto → ℕ → Product → Db → Db
drafted year dto actor_id p s = record s {
  events = s.events ++ new_event year (length s.events + 1) actor_id s.next_id ∷ [];
  plans = s.plans ++ new_plan dto actor_id p s.next_id (s.next_id + 1) ∷ [];
  next_id = s.next_id + 1 + 1;
}

pub create_draft_shape :
    (year : ℕ) (dto : CreateDraftDto) (actor_id : ℕ) (s : Db)
    → ((create_draft year dto actor_id s).1 ≡ s)
      ⊎ (p : Product) × ((create_draft year dto actor_id s).1 ≡ drafted year dto actor_id p s)
        × (find_first (blocks dto.product_id) s.plans ≡ none)
unfolding create_draft write_draft create_draft_event
create_draft_shape year dto actor_id s =
    elim (Option-cases (find_first (blocks dto.product_id) s.plans)) [
      | inr (b, e) ↦ inl (ground (arith, e))
      | inl e ↦ elim (Option-cases (find_first (product_is dto.product_id) s.products)) [
        | inl f ↦ inl (ground (arith, e, f))
        | inr (p, f) ↦ elim (Bool-cases (any (has_number year (length s.events + 1)) s.events)) [
          | inl taken ↦ inl (ground (arith, e, f, taken))
          | inr free ↦ inr (p, ground (arith, e, f, free), e)
        ]
      ]
    ]

pub retry_failed_shape :
    (plan_id actor_id : ℕ) (s : Db)
    → ((retry_failed plan_id actor_id s).1 ≡ s)
      ⊎ ((retry_failed plan_id actor_id s).1
          ≡ close_failure_todo plan_id actor_id (update_plan plan_id reopen s))
        × (p : Plan) × (find_first (plan_is plan_id) s.plans ≡ some p)
        × (is_failed p.status ≡ true)
unfolding retry_failed
retry_failed_shape plan_id actor_id s = elim (Option-cases (find_first (plan_is plan_id) s.plans)) [
  | inl e ↦ inl (ground (arith, e))
  | inr (p, e) ↦ elim (Bool-cases (is_failed p.status)) [
    | inl failed ↦ inr (ground (arith, e, failed), p, e, failed)
    | inr other ↦ inl (ground (arith, e, other))
  ]
]

module _ (event_id : ℕ) where
  -- A plan is marked in a way that does not make it executed.
  pub marked-IsUnapplied :
      (id : ℕ) (f : Plan → Plan) (s t : Db)
      → IsUnapplied event_id s
      → ((p : Plan)
          → ((f p).id ≡ p.id)
            × ((f p).change_event_id ≡ p.change_event_id)
            × (is_executed (f p).status ≡ false))
      → t.plans ≡ update_many (plan_is id) f s.plans
      → s.next_id ≤ t.next_id
      → IsUnapplied event_id t
  marked-IsUnapplied id f s t h keeps plans le = record {
    none_executed =
        ap (count (λ p. event_plan event_id p && is_executed p.status)) plans
        ∙ count-update_kept _ (plan_is id) f s.plans (λ p hp bad. ground (arith, (keeps p).2))
            h.none_executed;
    plan_key = λ k.
        subst (λ ps. count (plan_is k) ps ≤ 1) (sym plans)
          (rw
            (count-update_many (plan_is k) (plan_is id) f s.plans
              (λ p. ap (λ j. j == k) (keeps p).0))
            (h.plan_key k));
    fresh =
        ap (count (λ (p : Plan). leb t.next_id p.id)) plans
        ∙ count-update_many (λ p. leb t.next_id p.id) (plan_is id) f s.plans
            (λ p. ap (leb t.next_id) (keeps p).0)
        ∙ fresh_mono (λ (p : Plan). p.id) s.next_id t.next_id s.plans le h.fresh;
  }

  pub same-IsUnapplied :
      (s t : Db)
      → IsUnapplied event_id s
      → t.plans ≡ s.plans
      → s.next_id ≤ t.next_id
      → IsUnapplied event_id t
  same-IsUnapplied s t h plans le = record {
    none_executed =
        ap (count (λ p. event_plan event_id p && is_executed p.status)) plans ∙ h.none_executed;
    plan_key = λ k. subst (λ ps. count (plan_is k) ps ≤ 1) (sym plans) (h.plan_key k);
    fresh =
        ap (count (λ (p : Plan). leb t.next_id p.id)) plans
        ∙ fresh_mono (λ (p : Plan). p.id) s.next_id t.next_id s.plans le h.fresh;
  }

  pub added-IsUnapplied :
      (s t : Db) (p : Plan)
      → IsUnapplied event_id s
      → is_executed p.status ≡ false
      → s.next_id ≤ p.id
      → t.plans ≡ s.plans ++ p ∷ []
      → t.next_id ≡ p.id + 1
      → IsUnapplied event_id t
  added-IsUnapplied s t p h waiting above plans next =
      let fresh = fresh_mono (λ (q : Plan). q.id) s.next_id p.id s.plans above h.fresh in
      record {
        none_executed =
            ap (count (λ q. event_plan event_id q && is_executed q.status)) plans
            ∙ count-append _ s.plans (p ∷ [])
            ∙ omega (arith, h.none_executed, one_waiting event_id p waiting);
        plan_key = λ k.
            subst (λ ps. count (plan_is k) ps ≤ 1) (sym plans)
              (key_added (λ (q : Plan). q.id) p.id k p s.plans refl fresh (h.plan_key k));
        fresh =
            ap (count (λ (q : Plan). leb t.next_id q.id)) plans
            ∙ subst (λ n. count (λ (q : Plan). leb n q.id) (s.plans ++ p ∷ []) ≡ 0) (sym next)
                (fresh_added (λ (q : Plan). q.id) p.id p s.plans refl fresh);
      }

  pub create_draft-IsStuck :
      (year : ℕ) (dto : CreateDraftDto) (actor_id : ℕ) (s : Db)
      → IsStuck event_id s
      → IsStuck event_id (create_draft year dto actor_id s).1
  create_draft-IsStuck year dto actor_id s h = elim (create_draft_shape year dto actor_id s) [
    | inl same ↦ subst (IsStuck event_id) (sym same) h
    | inr (p, after, none_there) ↦ subst (IsStuck event_id) (sym after) (
      h.0,
      added-IsUnapplied s (drafted year dto actor_id p s)
          (new_plan dto actor_id p s.next_id (s.next_id + 1)) h.1 refl (omega arith) refl refl,
    )
  ]

  pub retry_failed-IsStuck :
      (plan_id actor_id : ℕ) (s : Db)
      → IsStuck event_id s
      → IsStuck event_id (retry_failed plan_id actor_id s).1
  retry_failed-IsStuck plan_id actor_id s h = elim (retry_failed_shape plan_id actor_id s) [
    | inl same ↦ subst (IsStuck event_id) (sym same) h
    | inr (after, p, found, failed) ↦ subst (IsStuck event_id) (sym after) (
      h.0,
      marked-IsUnapplied plan_id reopen s _ h.1 (λ q. (refl, refl, refl)) refl (omega arith),
    )
  ]
