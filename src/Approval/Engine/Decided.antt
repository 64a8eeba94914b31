-- ===== src/Approval/Engine/Decided.antt =====
-- What approval-engine.service.ts does to a task that has been decided.
use noidear.Base.{
  ℕ, Bool, true, false, ◌≡◌, refl, [], ◌∷◌, Option, some, none, find_first, find_first-append,
  find_first-update_many, arith, ap, sym, subst, ◌∙◌, if-false, Bool-cases, inl, inr,
}
use noidear.Base.Action.{Action, Keeps, bind-Keeps, for_each-Keeps, ◌>>◌}
use noidear.Approval.Types.{ApprovalStep, ApprovalAssignment, approved, rejected}
use noidear.Approval.Db.{Db, Task, Instance, task_is, is_pending, on_business}
use noidear.Approval.Cases.{
  Env, Case, decision_status, add_task, update_tasks, cancel_task, pending_of, pending_in,
  update_instance, enter_step, end_instance, is_any, callback_of, context_of,
}
use noidear.Approval.Metadata.{Decision, to_approve, to_reject}
use noidear.Approval.Resolver.{ResolvedAssignment, resolve_assignment}
use noidear.Approval.Callbacks.{CallbackContext, invoke}
use noidear.Approval.Todos.{
  create_task_todos, cancel_instance_todos, notify_task_created, notify_requester,
}
use noidear.Approval.Steps.{new_task, direct_user_ids}
use noidear.Approval.Engine.{
  create_task, create_assignment, create_tasks_for_step, reject_instance, approve_instance, advance,
  advance_if_step_complete, follow_up, cancel_others, enter_or_approve, invoke_optional,
  create_task_todos, resolve_assignment, cancel_instance_todos, String, for_each,
  notify_task_created, CallbackContext, direct_user_ids, invoke, modify, next_step, Error, or_throw,
  step_is, internal,
}

-- The task is there, with the status of the decision.
pub record Decided {B : Type 0} (k : ℕ) (d : Decision) (s : Db B) : Type 0 where
  pub task : Task
  pub found : find_first (task_is k) s.tasks ≡ some task
  pub has_status : task.status ≡ decision_status d

pub not_pending : (d : Decision) → is_pending (decision_status d) ≡ false
not_pending d = ground arith

module _ {B : Type 0} where
  pub resolve_assignment-reads :
      (x : ApprovalAssignment) (s : Db B) → (resolve_assignment x s).1 ≡ s
  unfolding resolve_assignment
  resolve_assignment-reads x s = ground arith

  or_throw-reads : {X : Type 0} (o : Option X) (x : Error) (s : Db B) → s ≡ (or_throw o x s).1
  or_throw-reads none x s = refl
  or_throw-reads (some r) x s = refl

module _ {B : Type 0} {k : ℕ} {d : Decision} where
  add_task-Decided : (make : ℕ → Task) (s : Db B) → Decided k d s → Decided k d (add_task make s)
  add_task-Decided make s h = record {
    task = h.task;
    found = find_first-append (task_is k) s.tasks (make s.next_id ∷ []) h.task h.found;
    has_status = h.has_status;
  }

  cancel-Decided :
      (p : Task → Bool) (s : Db B)
      → ((t : Task) → is_pending t.status ≡ false → p t ≡ false)
      → Decided k d s
      → Decided k d (update_tasks p cancel_task s)
  cancel-Decided p s only h =
      let skip : p h.task ≡ false = only h.task (ap is_pending h.has_status ∙ not_pending d) in
      record {
        task = h.task;
        found =
            find_first-update_many (task_is k) p cancel_task s.tasks h.task (λ t. refl) h.found
            ∙ ap some (if-false (p h.task) (cancel_task h.task) h.task skip);
        has_status = h.has_status;
      }

  modify-Decided :
      (f : Db B → Db B)
      → ((s : Db B) → (f s).tasks ≡ s.tasks)
      → (s : Db B) → Decided k d s
      → Decided k d (f s)
  modify-Decided f same s h = record {
    task = h.task;
    found = ap (find_first (task_is k)) (same s) ∙ h.found;
    has_status = h.has_status;
  }

  on_business-Decided :
      (m : Action B (Unit {0})) → (s : Db B) → Decided k d s → Decided k d (on_business m s).1
  on_business-Decided m s h = record { task = h.task; found = h.found; has_status = h.has_status }

module _ {B : Type 0} (env : Env B) {k : ℕ} {d : Decision} where
  create_task-Decided :
      (instance : Instance) (step : ApprovalStep) (x : ApprovalAssignment) (r : ResolvedAssignment)
      (u : Option ℕ)
      → Keeps (Decided k d) (create_task env instance step x r u)
  unfolding create_task create_task_todos notify_task_created
  create_task-Decided instance step x r u s a h e =
      let make = new_task env.now instance step x r u in
      let added = add_task-Decided make s h in
      record { task = added.task; found = added.found; has_status = added.has_status }

  resolve-Decided : (x : ApprovalAssignment) → Keeps (Decided {B = B} k d) (resolve_assignment x)
  resolve-Decided x s a h e = subst (Decided k d) (sym (resolve_assignment-reads x s)) h

  create_assignment-Decided :
      (instance : Instance) (step : ApprovalStep) (x : ApprovalAssignment)
      → Keeps (Decided k d) (create_assignment env instance step x)
  unfolding create_assignment
  create_assignment-Decided instance step x =
      bind-Keeps (Decided k d) (resolve_assignment x)
        (λ r. for_each (create_task env instance step x r) (direct_user_ids r)) (resolve-Decided x)
        (λ r.
          for_each-Keeps (Decided k d) (create_task env instance step x r)
            (create_task-Decided instance step x r) (direct_user_ids r))

  create_tasks_for_step-Decided :
      (instance : Instance) (step : ApprovalStep)
      → Keeps (Decided k d) (create_tasks_for_step env instance step)
  unfolding create_tasks_for_step
  create_tasks_for_step-Decided instance step =
      for_each-Keeps (Decided k d) (create_assignment env instance step)
        (create_assignment-Decided instance step) step.assignments

  invoke_optional-Decided :
      (key : Option String) (x : CallbackContext) → Keeps (Decided k d) (invoke_optional env key x)
  unfolding invoke_optional
  invoke_optional-Decided none x s a h e = h
  invoke_optional-Decided (some key) x s a h e =
      on_business-Decided (invoke env.callbacks key x) s h

  reject_instance-Decided : (c : Case) → Keeps (Decided k d) (reject_instance env c)
  unfolding reject_instance cancel_instance_todos notify_requester
  reject_instance-Decided c s a h e =
      let s1 = update_tasks (pending_of c.task.instance_id) cancel_task s in
      let s2 = update_instance c.task.instance_id (end_instance env.now rejected) s1 in
      let s3 = cancel_instance_todos env.now c.task.instance_id c.actor_id s2 in
      let h1 = cancel-Decided (pending_of c.task.instance_id) s (λ t n. ground arith) h in
      let h2 =
        modify-Decided (update_instance c.task.instance_id (end_instance env.now rejected))
          (λ t. refl) s1 h1 in
      let h3 =
        modify-Decided (cancel_instance_todos env.now c.task.instance_id c.actor_id) (λ t. refl) s2
          h2 in
      bind-Keeps (Decided k d)
        (invoke_optional env (callback_of c.task.step_key c.steps) (context_of c))
        (λ _. modify (notify_requester c.instance.created_by_id false c.instance.title))
        (invoke_optional-Decided (callback_of c.task.step_key c.steps) (context_of c))
        (λ _ t b g q.
          modify-Decided (notify_requester c.instance.created_by_id false c.instance.title)
            (λ u. refl) t g)
        s3 a h3 e

  approve_instance-Decided : (c : Case) → Keeps (Decided k d) (approve_instance env c)
  unfolding approve_instance notify_requester
  approve_instance-Decided c s a h e =
      bind-Keeps (Decided k d)
        (or_throw (find_first (step_is c.task.step_key) c.steps)
          (internal "currentStep is undefined"))
        (λ step. on_business (invoke env.callbacks step.on_approved (context_of c)) >> finish)
        (λ t x g q. subst (Decided k d) (or_throw-reads _ _ t) g)
        (λ step.
          bind-Keeps (Decided k d)
            (on_business (invoke env.callbacks step.on_approved (context_of c))) (λ _. finish)
            (λ t x g q.
              on_business-Decided (invoke env.callbacks step.on_approved (context_of c)) t g)
            (λ _ t x g q. record { task = g.task; found = g.found; has_status = g.has_status }))
        s a h e
    where
      finish : Action (Db B) (Unit {0})
      finish =
          modify (update_instance c.task.instance_id (end_instance env.now approved))
          >> modify (notify_requester c.instance.created_by_id true c.instance.title)

  cancel_others-Decided :
      (c : Case) (s : Db B) → Decided k d s → Decided k d (cancel_others env c s)
  unfolding cancel_others cancel_instance_todos
  cancel_others-Decided c s h = elim (Bool-cases (is_any c.task.approval_mode)) [
    | inl e ↦ rw e (
        modify-Decided (cancel_instance_todos env.now c.task.instance_id c.actor_id) (λ t. refl)
          (update_tasks (pending_in c.task.instance_id c.task.step_key) cancel_task s)
          (cancel-Decided (pending_in c.task.instance_id c.task.step_key) s (λ t n. ground arith)
            h))
    | inr e ↦ rw e h
  ]

  enter_or_approve-Decided :
      (c : Case) (next : Option ApprovalStep) → Keeps (Decided k d) (enter_or_approve env c next)
  unfolding enter_or_approve
  enter_or_approve-Decided c none s a h e = approve_instance-Decided c s a h e
  enter_or_approve-Decided c (some step) s a h e =
      create_tasks_for_step-Decided c.instance step
        (update_instance c.task.instance_id (enter_step step.step_key) s) a
        (modify-Decided (update_instance c.task.instance_id (enter_step step.step_key)) (λ t. refl)
          s h)
        e

  advance-Decided : (b : Bool) (c : Case) → Keeps (Decided k d) (advance env b c)
  unfolding advance
  advance-Decided false c s a h e = h
  advance-Decided true c s a h e =
      enter_or_approve-Decided c (next_step c.task.step_key c.steps) (cancel_others env c s) a
        (cancel_others-Decided c s h) e

  pub follow_up-Decided : (x : Decision) (c : Case) → Keeps (Decided k d) (follow_up env x c)
  unfolding follow_up advance_if_step_complete
  follow_up-Decided to_reject c s a h e = reject_instance-Decided c s a h e
  follow_up-Decided to_approve c s a h e = advance-Decided _ c s a h e
