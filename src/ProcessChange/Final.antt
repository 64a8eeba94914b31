-- ===== src/ProcessChange/Final.antt =====
-- The calls of product-process-change.service.ts on a change whose application has failed once.
use noidear.Base.{
  ℕ, Bool, true, false, ◌&&◌, some, ◌++◌, ◌∷◌, [], List, String, ==→eq, ◌==◌, ◌≡◌, ◌≤◌, refl, arith,
  ◌∙◌, ap, sym, subst, any, inl, inr, Bool-cases, find_first, update_many, find_first-update_many,
  if-true, ==_refl, count, leb, Option-cases, count-update_many, count-update_found, not, ◌⊎◌,
}
use noidear.Base.Action.{
  Action, Result, Error, ok, err, Result-cases, or_throw, throw_if, pure, modify, ◌>>=◌, ◌>>◌,
  not_found, bad_request,
}
use noidear.Approval.Types.{Approvals}
use noidear.ProcessChange.{
  Db, Plan, is_executed, plan_is, update_plan, pending_approval, approved_executing, EventStatus,
  approved, rejected,
}
use noidear.ProcessChange.Validate.{validate_payload, validate_compliance_gates}
use noidear.ProcessChange.Frame.{Moves, IsPreorder, bind-Moves}
use noidear.ProcessChange.Parts.{Unchanged-Moves, or_throw-state}
use noidear.ProcessChange.Unwritten.{Unchanged, validate_payload-state}
use noidear.ProcessChange.Apply.{
  event_plan, apply_in_transaction, mark_executed, mark_failed, on_failure, apply_approved_change,
  execution_of, record_failure, create_failure_todo, message_of,
}
use noidear.ProcessChange.Outcome.{apply_done, apply_run, failure-Frames, todo-Frames}
use noidear.ProcessChange.Service.{
  approval_approved, undo_event, approval_rejected, lock_plan, is_draft, find_event, event_is,
  decide_event, Store, submit_for_approval, submit_input,
}
use noidear.ProcessChange.Stuck.{
  IsStuck, IsUnapplied, marked-IsUnapplied, same-IsUnapplied, applied, never_applies,
  create_draft-IsStuck, retry_failed-IsStuck,
}
use noidear.ProcessChange.Lifecycle.{
  Step, Steps, drafts, submits, retries, approves, rejects, others, here, next,
}
use noidear.Training.Members.{fresh_mono}

gates-state : (plan : Plan) → Moves Unchanged (validate_compliance_gates plan)
unfolding validate_compliance_gates
gates-state plan s = ground arith

throw_if-state : (b : Bool) (e : Error) → Moves Unchanged (throw_if b e)
throw_if-state true e s = refl
throw_if-state false e s = refl

any-grows :
    {A : Type 0} (p : A → Bool) (xs : List A) (x : A)
    → any p xs ≡ true
    → any p (xs ++ x ∷ []) ≡ true
unfolding any
any-grows p [] x h = absurd (ground (arith, h))
any-grows p (y ∷ ys) x h = ground (arith, h, any-grows p ys x)

any-update_many :
    {A : Type 0} (p q : A → Bool) (f : A → A) (xs : List A)
    → ((x : A) → p (f x) ≡ p x)
    → any p (update_many q f xs) ≡ any p xs
unfolding any update_many
any-update_many p q f [] h = refl
any-update_many p q f (x ∷ xs) h = ground (arith, h x, any-update_many p q f xs h)

-- The ids only grow when a failure is recorded.
failure-grows :
    (plan : Plan) (actor_id : ℕ) (message : String) (s : Db)
    → s.next_id
      ≤ (create_failure_todo plan actor_id message (record_failure plan message s)).next_id
unfolding record_failure
failure-grows plan actor_id message s =
    let same =
      todo-Frames (λ d. d.next_id) plan actor_id message (record_failure plan message s)
        (λ d ts. refl) in
    elim (Bool-cases (any (execution_of plan.change_event_id) s.executions)) [
      | inl e ↦ ground (arith, e, same)
      | inr e ↦ ground (arith, e, same)
    ]

module _ (event_id : ℕ) where
  -- The change stays as it is.
  abbrev pub Stays : Db → Db → Type 0
  Stays s t = IsStuck event_id s → IsStuck event_id t

  pub Stays-IsPreorder : IsPreorder Stays
  Stays-IsPreorder = record { same = λ s h. h; trans = λ s t u f g h. g (f h) }

  -- After an action that changes nothing
  pub then-Stays :
      {A B : Type 0} (m : Action Db A) (k : A → Action Db B)
      → Moves Unchanged m
      → ((a : A) → Moves Stays (k a))
      → Moves Stays (m >>= k)
  then-Stays m k e rest =
      bind-Moves Stays Stays-IsPreorder m k (Unchanged-Moves Stays Stays-IsPreorder m e) rest

  lock-Stays :
      (now : ℕ) (plan : Plan)
      → Moves Stays (
          modify (
            update_plan plan.id (λ p. record p { status = pending_approval; locked_at = some now }))
          >> pure plan)
  lock-Stays now plan s h = (
    h.0,
    marked-IsUnapplied event_id plan.id _ s _ h.1 (λ q. (refl, refl, refl)) refl (omega arith),
  )

  lock_plan-Stays : (now plan_id : ℕ) → Moves Stays (lock_plan now plan_id)
  unfolding lock_plan
  lock_plan-Stays now plan_id s =
      let found = find_first (plan_is plan_id) s.plans in
      let absent = not_found "产品工艺变更不存在" in
      let closed = bad_request "当前状态不能提交审批" in
      then-Stays (or_throw found absent) _ (or_throw-state found absent)
        (λ plan.
          then-Stays (throw_if (not (is_draft plan.status)) closed) _
            (throw_if-state (not (is_draft plan.status)) closed)
            (λ u. then-Stays (validate_payload plan) _ (validate_payload-state plan) (λ v.
              then-Stays (validate_compliance_gates plan) _ (gates-state plan)
                (λ w. lock-Stays now plan))))
        s

  pub decide_event-Stays :
      (status : EventStatus) (id actor_id : ℕ) → Moves Stays (decide_event status id actor_id)
  unfolding decide_event
  decide_event-Stays status id actor_id s h =
      elim (Option-cases (find_first (event_is id) s.events)) [
        | inl e ↦ rw e h
        | inr (x, e) ↦ rw e (h.0, same-IsUnapplied event_id s _ h.1 refl (omega arith))
      ]

  module _ {A : Type 0} (engine : Approvals A) where
    -- The transaction ends as it began or after the plan is locked.
    submit_shape :
        (now plan_id actor_id : ℕ) (s : Store A)
        → ((submit_for_approval engine now plan_id actor_id s).1.db ≡ s.db)
          ⊎ ((submit_for_approval engine now plan_id actor_id s).1.db
              ≡ (lock_plan now plan_id s.db).1)
    unfolding submit_for_approval find_event
    submit_shape now plan_id actor_id s = elim (Result-cases (lock_plan now plan_id s.db).0) [
      | inr (x, e) ↦ inl (ground (arith, e))
      | inl (plan, e) ↦
          let t = (lock_plan now plan_id s.db).1 in
          elim (Option-cases (find_first (event_is plan.change_event_id) t.events)) [
            | inl f ↦ inl (ground (arith, e, f))
            | inr (ev, f) ↦
                elim (Result-cases (engine.start (submit_input ev actor_id) s.approvals).0) [
                  | inl (a, g) ↦ inr (ground (arith, e, f, g))
                  | inr (x, g) ↦ inl (ground (arith, e, f, g))
                ]
          ]
    ]

  pub submit-Stays :
      {A : Type 0} (engine : Approvals A) (now plan_id actor_id : ℕ) (s : Store A)
      → Stays s.db (submit_for_approval engine now plan_id actor_id s).1.db
  submit-Stays engine now plan_id actor_id s h = elim (submit_shape engine now plan_id actor_id s) [
    | inl same ↦ subst (IsStuck event_id) (sym same) h
    | inr after ↦ subst (IsStuck event_id) (sym after) (lock_plan-Stays now plan_id s.db h)
  ]

  module _ (now id actor_id : ℕ) (plan : Plan) (s : Db) (h : IsUnapplied event_id s) where
    -- The plan of another change is applied.
    other_applied :
        find_first (event_plan id) s.plans ≡ some plan
        → (plan.change_event_id == event_id) ≡ false
        → (apply_in_transaction now plan s).0 ≡ ok tt
        → IsUnapplied event_id (apply_in_transaction now plan s).1
    other_applied found other done =
        let (e, executions, plans, grows) = applied now plan s done in
        let begun = λ (p : Plan). record p { status = approved_executing } in
        let mid : Db = update_plan plan.id begun s in
        let h1 : IsUnapplied event_id mid =
          marked-IsUnapplied event_id plan.id begun s mid h (λ q. (refl, refl, refl)) refl
            (omega arith) in
        let key = λ (k : ℕ).
          count-update_many (plan_is k) (plan_is plan.id) (mark_executed now) mid.plans
            (λ p. refl) in
        let t = (apply_in_transaction now plan s).1 in
        record {
          none_executed =
              ap (count (λ p. event_plan event_id p && is_executed p.status)) plans
              ∙ count-update_found (λ p. event_plan event_id p && is_executed p.status)
                  (event_plan id) (plan_is plan.id) (mark_executed now) mid.plans (begun plan)
                  (find_first-update_many (event_plan id) (plan_is plan.id) begun s.plans plan
                      (λ x. refl) found
                    ∙ ap some (if-true _ _ _ (==_refl plan.id)))
                  (==_refl plan.id) (h1.plan_key plan.id) (ground (arith, other)) h1.none_executed;
          plan_key =
              λ k. subst (λ ps. count (plan_is k) ps ≤ 1) (sym plans) (rw (key k) (h1.plan_key k));
          fresh =
              ap (count (λ (p : Plan). leb t.next_id p.id)) plans
              ∙ count-update_many (λ p. leb t.next_id p.id) (plan_is plan.id) (mark_executed now)
                  mid.plans (λ p. refl)
              ∙ fresh_mono (λ (p : Plan). p.id) s.next_id t.next_id mid.plans grows h1.fresh;
        }

    pub on_failure-IsUnapplied : (e : Error) → IsUnapplied event_id (on_failure plan actor_id e s)
    on_failure-IsUnapplied e =
        let marked : Db = update_plan plan.id (mark_failed (message_of e)) s in
        marked-IsUnapplied event_id plan.id (mark_failed (message_of e)) s
          (on_failure plan actor_id e s) h (λ q. (refl, refl, refl))
          (failure-Frames (λ d. d.plans) plan actor_id (message_of e) marked (λ d es n. refl)
            (λ d ts. refl))
          (failure-grows plan actor_id (message_of e) marked)

    on_failure-keeps :
        (e : Error)
        → any (execution_of event_id) s.executions ≡ true
        → any (execution_of event_id) (on_failure plan actor_id e s).executions ≡ true
    unfolding record_failure
    on_failure-keeps e there =
        let marked : Db = update_plan plan.id (mark_failed (message_of e)) s in
        ap (any (execution_of event_id)) (
          todo-Frames (λ d. d.executions) plan actor_id (message_of e)
            (record_failure plan (message_of e) marked) (λ d ts. refl))
        ∙ elim (Bool-cases (any (execution_of plan.change_event_id) s.executions)) [
          | inl f ↦ rw f (
              any-update_many (execution_of event_id) (execution_of plan.change_event_id) _
                s.executions (λ x. refl)
              ∙ there)
          | inr f ↦ rw f (any-grows (execution_of event_id) s.executions _ there)
        ]

    -- A call of the application, whether it returns or throws
    pub apply_found-Stays :
        find_first (event_plan id) s.plans ≡ some plan
        → any (execution_of event_id) s.executions ≡ true
        → IsStuck event_id (apply_approved_change now id actor_id s).1
    apply_found-Stays found there = elim (Bool-cases (is_executed plan.status)) [
      | inl old ↦
          subst (IsStuck event_id)
            (sym (ap (λ r. r.1) (apply_done now id actor_id plan s found old))) (there, h)
      | inr waits ↦ elim (apply_run now id actor_id plan s found waits) [
        | inr (e, threw, after) ↦
            subst (IsStuck event_id) (sym (ap (λ r. r.1) after))
              (on_failure-keeps e there, on_failure-IsUnapplied e)
        | inl (done, after) ↦
            subst (IsStuck event_id) (sym (ap (λ r. r.1) after))
              (elim (Bool-cases (plan.change_event_id == event_id)) [
                | inl same ↦
                    let (e, threw) = never_applies now plan s (
                      subst (λ j. any (execution_of j) s.executions ≡ true) (sym (==→eq _ _ same))
                        there) in
                    absurd (cc (done, threw))
                | inr other ↦
                    let (e, executions, plans, grows) = applied now plan s done in
                    (
                      ap (any (execution_of event_id)) executions
                          ∙ any-grows (execution_of event_id) s.executions e there,
                      other_applied found other done,
                    )
              ])
      ]
    ]

  pub apply-Stays : (now id actor_id : ℕ) → Moves Stays (apply_approved_change now id actor_id)
  unfolding apply_approved_change
  apply-Stays now id actor_id s h = elim (Option-cases (find_first (event_plan id) s.plans)) [
    | inl none_there ↦ rw none_there h
    | inr (plan, found) ↦ apply_found-Stays now id actor_id plan s h.1 found h.0
  ]

  -- The event's row is put back, and it is all that is.
  pub undo-Stays :
      (s : Db) (r : Result (Unit {0}) × Db)
      → IsStuck event_id r.1
      → IsStuck event_id (undo_event s r).1
  undo-Stays s (ok u, t) h = h
  undo-Stays s (err e, t) h = (h.0, same-IsUnapplied event_id t _ h.1 refl (omega arith))

  pub approve-Stays : (now id actor_id : ℕ) → Moves Stays (approval_approved now id actor_id)
  unfolding approval_approved
  approve-Stays now id actor_id s h = undo-Stays s _ (
      bind-Moves Stays Stays-IsPreorder (decide_event approved id actor_id)
        (λ u. apply_approved_change now id actor_id) (decide_event-Stays approved id actor_id)
        (λ u. apply-Stays now id actor_id) s h)

  pub reject-Stays : (id actor_id : ℕ) → Moves Stays (approval_rejected id actor_id)
  unfolding approval_rejected
  reject-Stays id actor_id = decide_event-Stays rejected id actor_id

  module _ {A : Type 0} (engine : Approvals A) where
    Step-Stays : (s t : Store A) → Step engine s t → Stays s.db t.db
    Step-Stays s t (drafts year dto actor_id _ _ e) h =
        subst (λ u. IsStuck event_id u.db) e
          (create_draft-IsStuck event_id year dto actor_id s.db h)
    Step-Stays s t (submits now plan_id actor_id _ _ e) h =
        subst (λ u. IsStuck event_id u.db) e (submit-Stays engine now plan_id actor_id s h)
    Step-Stays s t (retries plan_id actor_id _ _ e) h =
        subst (λ u. IsStuck event_id u.db) e (retry_failed-IsStuck event_id plan_id actor_id s.db h)
    Step-Stays s t (approves now id actor_id _ _ e) h =
        subst (λ u. IsStuck event_id u.db) e (approve-Stays now id actor_id s.db h)
    Step-Stays s t (rejects id actor_id _ _ e) h =
        subst (λ u. IsStuck event_id u.db) e (reject-Stays id actor_id s.db h)
    Step-Stays s t (others _ _ executions plans grows) h = (
      ap (any (execution_of event_id)) executions ∙ h.0,
      same-IsUnapplied event_id s.db t.db h.1 plans grows,
    )

    pub Steps-Stays : (s t : Store A) → Steps engine s t → Stays s.db t.db
    Steps-Stays s t here h = h
    Steps-Stays s t (next u _ before last) h = Step-Stays u t last (Steps-Stays s u before h)
