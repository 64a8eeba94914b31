-- ===== src/ProcessChange/Forever.antt =====
-- `applyApprovedChange` throwing, and the calls after it.
use noidear.Base.{
  ℕ, Bool, true, ◌&&◌, some, List, [], ◌∷◌, update_many, refl, ◌≡◌, arith, ap, sym, subst, any, inl,
  inr, Bool-cases, find_first, count, ◌∙◌,
}
use noidear.Base.Action.{Result, Error, err, ok}
use noidear.Approval.Types.{Approvals}
use noidear.ProcessChange.{Db, Plan, is_executed, ChangeEvent, approved, Execution}
use noidear.ProcessChange.Apply.{event_plan, execution_of, apply_approved_change}
use noidear.ProcessChange.Service.{
  Store, event_is, approval_approved, decide_event, decide, undo_event,
}
use noidear.ProcessChange.Outcome.{apply_approved_change-Failed, apply_done, apply_run, found_event}
use noidear.ProcessChange.Stuck.{IsStuck, IsUnapplied, same-IsUnapplied}
use noidear.ProcessChange.Final.{on_failure-IsUnapplied, Steps-Stays, undo-Stays}
use noidear.ProcessChange.Lifecycle.{Steps}

any-weaken :
    {A : Type 0} (p q : A → Bool) (xs : List A) → any (λ x. p x && q x) xs ≡ true → any p xs ≡ true
unfolding any
any-weaken p q [] h = h
any-weaken p q (x ∷ xs) h = ground (arith, h, any-weaken p q xs)

-- The application that throws leaves the change stuck.
throws-IsStuck :
    (now event_id actor_id : ℕ) (plan : Plan) (s : Db) (e : Error)
    → find_first (event_plan event_id) s.plans ≡ some plan
    → IsUnapplied event_id s
    → (apply_approved_change now event_id actor_id s).0 ≡ err e
    → IsStuck event_id (apply_approved_change now event_id actor_id s).1
throws-IsStuck now event_id actor_id plan s e found h threw =
    let failed = apply_approved_change-Failed now event_id actor_id plan s e found threw in
    let there =
      any-weaken (execution_of plan.change_event_id) (λ (x : Execution). x.has_failed) _
        failed.execution in
    (
      subst
          (λ j.
            any (execution_of j) (apply_approved_change now event_id actor_id s).1.executions
            ≡ true)
          (found_event event_id plan s found) there,
      elim (Bool-cases (is_executed plan.status)) [
        | inl done ↦
            absurd (cc (threw, ap (λ r. r.0) (apply_done now event_id actor_id plan s found done)))
        | inr waits ↦ elim (apply_run now event_id actor_id plan s found waits) [
          | inl (ran, after) ↦ absurd (cc (threw, ap (λ r. r.0) after))
          | inr (x, ran, after) ↦
              subst (IsUnapplied event_id) (sym (ap (λ r. r.1) after))
                (on_failure-IsUnapplied event_id now event_id actor_id plan s h x)
        ]
      ],
    )

-- A known event is marked before the application runs.
abbrev approve_event : ℕ → ℕ → Db → Db
approve_event event_id actor_id s = record s {
  events = update_many (event_is event_id) (decide approved actor_id) s.events;
}

approve_run :
    (now event_id actor_id : ℕ) (event : ChangeEvent) (s : Db)
    → find_first (event_is event_id) s.events ≡ some event
    → approval_approved now event_id actor_id s
      ≡ undo_event s
          (apply_approved_change now event_id actor_id (approve_event event_id actor_id s))
unfolding approval_approved decide_event
approve_run now event_id actor_id event s known = rw known refl

undo_same : (s : Db) (r : Result (Unit {0}) × Db) → (undo_event s r).0 ≡ r.0
undo_same s (ok u, t) = refl
undo_same s (err e, t) = refl

-- The approval that throws leaves the change stuck.
approve-IsStuck :
    (now event_id actor_id : ℕ) (event : ChangeEvent) (plan : Plan) (s : Db) (e : Error)
    → find_first (event_is event_id) s.events ≡ some event
    → find_first (event_plan event_id) s.plans ≡ some plan
    → IsUnapplied event_id s
    → (approval_approved now event_id actor_id s).0 ≡ err e
    → IsStuck event_id (approval_approved now event_id actor_id s).1
approve-IsStuck now event_id actor_id event plan s e known found h threw =
    let run = approve_run now event_id actor_id event s known in
    let marked = approve_event event_id actor_id s in
    let inner = apply_approved_change now event_id actor_id marked in
    subst (IsStuck event_id) (sym (ap (λ r. r.1) run)) (
      undo-Stays event_id s inner (
        throws-IsStuck now event_id actor_id plan marked e found
          (same-IsUnapplied event_id s marked h refl (omega arith))
          (sym (undo_same s inner) ∙ (sym (ap (λ r. r.0) run) ∙ threw))))

-- If an event is found, its plan is found, no plan of it is executed, the ids of the plans are
-- unique and new ids are fresh, and the approval of the event throws, then after any sequence of
-- calls on plans and events, whether they return or throw, with whatever the other modules do in
-- between, no plan of the event is executed; for any approval engine.
pub failed_forever :
    {A : Type 0} (engine : Approvals A) (now event_id actor_id : ℕ) (event : ChangeEvent)
    (plan : Plan) (s t : Store A) (e : Error)
    → find_first (event_is event_id) s.db.events ≡ some event
    → find_first (event_plan event_id) s.db.plans ≡ some plan
    → IsUnapplied event_id s.db
    → (approval_approved now event_id actor_id s.db).0 ≡ err e
    → Steps engine (record s { db = (approval_approved now event_id actor_id s.db).1 }) t
    → count (λ p. event_plan event_id p && is_executed p.status) t.db.plans ≡ 0
failed_forever engine now event_id actor_id event plan s t e known found h threw steps =
    (Steps-Stays event_id engine _ t steps
      (approve-IsStuck now event_id actor_id event plan s.db e known found h threw)).1.none_executed
