-- ===== src/ProcessChange/Outcome.antt =====
-- How the application of an approved change ends.
use noidear.Base.{
  ℕ, String, Bool, true, false, ◌&&◌, some, List, [], ◌∷◌, ◌++◌, ◌≡◌, refl, arith, ◌∙◌, ap, sym,
  subst, any, inl, inr, Bool-cases, find_first, update_many, get_or, ==_refl,
  find_first-update_many, if-true, ◌⊎◌, ==→eq, find_first-holds, if-false,
}
use noidear.Base.Action.{Result, Error, ok, err, Result-cases, transaction, rolled_back}
use noidear.ProcessChange.{Db, Plan, is_executed, plan_is, update_plan, Execution, FailureTodo}
use noidear.ProcessChange.Apply.{
  apply_approved_change, apply_in_transaction, mark_failed, message_of, event_plan, execution_of,
  failure_todo_of, on_failure, record_failure, create_failure_todo, apply_found, caught,
}

-- What a failed application leaves: the business tables as they were, the plan marked with the
-- message, a failed execution of the change, and an open to-do for the plan's author.
pub record Failed (plan : Plan) (actor_id : ℕ) (message : String) (s t : Db) : Type 0 where
  pub recipes_eq : t.recipes ≡ s.recipes
  pub steps_eq : t.steps ≡ s.steps
  pub ccps_eq : t.ccps ≡ s.ccps
  pub artifacts_eq : t.artifacts ≡ s.artifacts
  pub plan_eq :
      find_first (event_plan plan.change_event_id) t.plans ≡ some (mark_failed message plan)
  pub execution : any (λ e. execution_of plan.change_event_id e && e.has_failed) t.executions ≡ true
  pub todo :
      any
        (λ x. failure_todo_of (get_or plan.created_by_id actor_id) plan.id x && x.is_pending)
        t.todos
      ≡ true

any-last :
    {A : Type 0} (p : A → Bool) (xs : List A) (x : A) → p x ≡ true → any p (xs ++ x ∷ []) ≡ true
unfolding any
any-last p [] x h = ground (arith, h)
any-last p (y ∷ ys) x h = ground (arith, any-last p ys x h)

any-marked :
    {A : Type 0} (p q : A → Bool) (f : A → A) (xs : List A)
    → ((x : A) → p x ≡ true → (p (f x) && q (f x)) ≡ true)
    → any p xs ≡ true
    → any (λ x. p x && q x) (update_many p f xs) ≡ true
unfolding any update_many
any-marked p q f [] h e = absurd (cc e)
any-marked p q f (x ∷ xs) h e = ground (arith, h x, any-marked p q f xs h)

record_failure-execution :
    (plan : Plan) (message : String) (s : Db)
    → any
        (λ e. execution_of plan.change_event_id e && e.has_failed)
        (record_failure plan message s).executions
      ≡ true
unfolding record_failure
record_failure-execution plan message s =
    elim (Bool-cases (any (execution_of plan.change_event_id) s.executions)) [
      | inl e ↦ rw e (
          any-marked (execution_of plan.change_event_id) (λ x. x.has_failed) _ s.executions
            (λ x h. ground (arith, h)) e)
      | inr e ↦ rw e (any-last _ s.executions _ (ground arith))
    ]

create_failure_todo-open :
    (plan : Plan) (actor_id : ℕ) (message : String) (s : Db)
    → any
        (λ x. failure_todo_of (get_or plan.created_by_id actor_id) plan.id x && x.is_pending)
        (create_failure_todo plan actor_id message s).todos
      ≡ true
unfolding create_failure_todo
create_failure_todo-open plan actor_id message s =
    elim (Bool-cases (any (failure_todo_of (get_or plan.created_by_id actor_id) plan.id) s.todos)) [
      | inl e ↦ rw e (
          any-marked (failure_todo_of _ plan.id) (λ x. x.is_pending) _ s.todos
            (λ x h. ground (arith, h)) e)
      | inr e ↦ rw e (any-last _ s.todos _ (ground arith))
    ]

-- The two records of a failure leave the other tables alone.
pub todo-Frames :
    {X : Type 0} (f : Db → X) (plan : Plan) (actor_id : ℕ) (message : String) (s : Db)
    → ((d : Db) (ts : List FailureTodo) → f (record d { todos = ts }) ≡ f d)
    → f (create_failure_todo plan actor_id message s) ≡ f s
unfolding create_failure_todo
todo-Frames f plan actor_id message s blind =
    elim (Bool-cases (any (failure_todo_of (get_or plan.created_by_id actor_id) plan.id) s.todos)) [
      | inl e ↦ rw e (blind s _)
      | inr e ↦ rw e (blind s _)
    ]

execution-Frames :
    {X : Type 0} (f : Db → X) (plan : Plan) (message : String) (s : Db)
    → ((d : Db) (es : List Execution) (n : ℕ) → f (record d { executions = es; next_id = n }) ≡ f d)
    → f (record_failure plan message s) ≡ f s
unfolding record_failure
execution-Frames f plan message s blind =
    elim (Bool-cases (any (execution_of plan.change_event_id) s.executions)) [
      | inl e ↦ rw e (blind s _ s.next_id)
      | inr e ↦ rw e (blind s _ _)
    ]

pub failure-Frames :
    {X : Type 0} (f : Db → X) (plan : Plan) (actor_id : ℕ) (message : String) (s : Db)
    → ((d : Db) (es : List Execution) (n : ℕ) → f (record d { executions = es; next_id = n }) ≡ f d)
    → ((d : Db) (ts : List FailureTodo) → f (record d { todos = ts }) ≡ f d)
    → f (create_failure_todo plan actor_id message (record_failure plan message s)) ≡ f s
failure-Frames f plan actor_id message s executions todos =
    todo-Frames f plan actor_id message (record_failure plan message s) todos
    ∙ execution-Frames f plan message s executions

-- The `catch` after a rollback
pub on_failure-Failed :
    (plan : Plan) (actor_id : ℕ) (e : Error) (s : Db)
    → find_first (event_plan plan.change_event_id) s.plans ≡ some plan
    → Failed plan actor_id (message_of e) s (on_failure plan actor_id e s)
on_failure-Failed plan actor_id e s found =
    let message = message_of e in
    let marked : Db = update_plan plan.id (mark_failed message) s in
    record {
      recipes_eq =
          failure-Frames (λ d. d.recipes) plan actor_id message marked (λ d es n. refl)
            (λ d ts. refl);
      steps_eq =
          failure-Frames (λ d. d.steps) plan actor_id message marked (λ d es n. refl)
            (λ d ts. refl);
      ccps_eq =
          failure-Frames (λ d. d.ccps) plan actor_id message marked (λ d es n. refl) (λ d ts. refl);
      artifacts_eq =
          failure-Frames (λ d. d.artifacts) plan actor_id message marked (λ d es n. refl)
            (λ d ts. refl);
      plan_eq =
          ap (find_first (event_plan plan.change_event_id)) (
            failure-Frames (λ d. d.plans) plan actor_id message marked (λ d es n. refl)
              (λ d ts. refl))
          ∙ find_first-update_many (event_plan plan.change_event_id) (plan_is plan.id)
              (mark_failed message) s.plans plan (λ x. refl) found
          ∙ ap some (if-true _ _ _ (==_refl plan.id));
      execution =
          ap (any (λ x. execution_of plan.change_event_id x && x.has_failed)) (
            todo-Frames (λ d. d.executions) plan actor_id message
              (record_failure plan message marked) (λ d ts. refl))
          ∙ record_failure-execution plan message marked;
      todo = create_failure_todo-open plan actor_id message (record_failure plan message marked);
    }

pub found_event :
    (event_id : ℕ) (plan : Plan) (s : Db)
    → find_first (event_plan event_id) s.plans ≡ some plan
    → plan.change_event_id ≡ event_id
found_event event_id plan s h = ==→eq _ _ (find_first-holds (event_plan event_id) s.plans plan h)

caught_ok :
    (plan : Plan) (actor_id : ℕ) (s : Db) (r : Result (Unit {0}) × Db) (u : Unit {0})
    → r.0 ≡ ok u
    → caught plan actor_id (rolled_back s r) ≡ (ok tt, r.1)
caught_ok plan actor_id s (ok v, t) u h = refl
caught_ok plan actor_id s (err e, t) u h = absurd (cc h)

caught_err :
    (plan : Plan) (actor_id : ℕ) (s : Db) (r : Result (Unit {0}) × Db) (e : Error)
    → r.0 ≡ err e
    → caught plan actor_id (rolled_back s r) ≡ (err e, on_failure plan actor_id e s)
caught_err plan actor_id s (ok v, t) e h = absurd (cc h)
caught_err plan actor_id s (err x, t) e h = let same : x ≡ e = cc h in rw same refl

apply_waiting :
    (now event_id actor_id : ℕ) (plan : Plan) (s : Db)
    → find_first (event_plan event_id) s.plans ≡ some plan
    → is_executed plan.status ≡ false
    → apply_approved_change now event_id actor_id s
      ≡ caught plan actor_id (transaction (apply_in_transaction now plan) s)
unfolding apply_approved_change
apply_waiting now event_id actor_id plan s found waiting =
    ap (λ o. apply_found now actor_id o s) found ∙ if-false (is_executed plan.status) _ _ waiting

-- A plan that is executed is not applied again.
pub apply_done :
    (now event_id actor_id : ℕ) (plan : Plan) (s : Db)
    → find_first (event_plan event_id) s.plans ≡ some plan
    → is_executed plan.status ≡ true
    → apply_approved_change now event_id actor_id s ≡ (ok tt, s)
unfolding apply_approved_change
apply_done now event_id actor_id plan s found done =
    ap (λ o. apply_found now actor_id o s) found ∙ if-true (is_executed plan.status) _ _ done

-- The application of a plan that waits ends as its transaction does.
pub apply_run :
    (now event_id actor_id : ℕ) (plan : Plan) (s : Db)
    → find_first (event_plan event_id) s.plans ≡ some plan
    → is_executed plan.status ≡ false
    → ((apply_in_transaction now plan s).0 ≡ ok tt)
        × (apply_approved_change now event_id actor_id s
            ≡ (ok tt, (apply_in_transaction now plan s).1))
      ⊎ (e : Error) × ((apply_in_transaction now plan s).0 ≡ err e)
        × (apply_approved_change now event_id actor_id s ≡ (err e, on_failure plan actor_id e s))
apply_run now event_id actor_id plan s found waiting =
    elim (Result-cases (apply_in_transaction now plan s).0) [
      | inl (u, e) ↦ inl (
        e,
        apply_waiting now event_id actor_id plan s found waiting ∙ caught_ok plan actor_id s _ u e,
      )
      | inr (x, e) ↦ inr (
        x,
        e,
        apply_waiting now event_id actor_id plan s found waiting ∙ caught_err plan actor_id s _ x e,
      )
    ]

-- If the plan of an approved event is found and its application throws, then recipes, steps,
-- control points and artifacts are as before, the plan is marked with the message, the event has a
-- failed execution, and the plan's author (or the caller, if it has none) has an open to-do for the
-- plan.
pub apply_approved_change-Failed :
    (now event_id actor_id : ℕ) (plan : Plan) (s : Db) (e : Error)
    → find_first (event_plan event_id) s.plans ≡ some plan
    → (apply_approved_change now event_id actor_id s).0 ≡ err e
    → Failed plan actor_id (message_of e) s (apply_approved_change now event_id actor_id s).1
apply_approved_change-Failed now event_id actor_id plan s e found threw =
    elim (Bool-cases (is_executed plan.status)) [
      | inl done ↦
          absurd
            (ground (arith, ap (λ r. r.0) (apply_done now event_id actor_id plan s found done)))
      | inr waiting ↦ elim (apply_run now event_id actor_id plan s found waiting) [
        | inl (ran, after) ↦ absurd (ground (arith, ap (λ r. r.0) after))
        | inr (x, ran, after) ↦
            let same : x ≡ e = ground (arith, ap (λ r. r.0) after) in
            let own =
              subst (λ j. find_first (event_plan j) s.plans ≡ some plan)
                (sym (found_event event_id plan s found)) found in
            subst (Failed plan actor_id (message_of e) s) (sym (ap (λ r. r.1) after)) (
              subst (λ y. Failed plan actor_id (message_of y) s (on_failure plan actor_id x s)) same
                (on_failure-Failed plan actor_id x s own))
      ]
    ]
