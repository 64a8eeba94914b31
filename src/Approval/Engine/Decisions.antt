-- ===== src/Approval/Engine/Decisions.antt =====
-- The properties of `completeTask` of approval-engine.service.ts.
use noidear.Base.{
  ℕ, String, true, false, ◌≡◌, ◌==◌, refl, Option, some, none, find_first, find_first-holds,
  find_first-update_many, count, count-update_all, if-true, arith, ap, sym, subst, ◌∙◌,
}
use noidear.Base.Action.{bad_request, ok, err, Keeps, modify, bind-Keeps, continue, pure, ◌>>◌}
use noidear.Approval.Types.{rejected}
use noidear.Approval.Db.{
  Db, Task, Instance, Metadata, task_is, instance_is, is_pending, roll_back_with,
}
use noidear.Approval.Cases.{
  Env, decide_task, Case, context_of, callback_of, pending_of, cancel_task, end_instance,
  update_tasks, update_instance,
}
use noidear.Approval.Metadata.{Decision, to_reject}
use noidear.Approval.Callbacks.{CallbackContext}
use noidear.Approval.Todos.{close_task_todos, cancel_instance_todos, notify_requester}
use noidear.Approval.Engine.{
  open_case, record_decision, follow_up, reject_instance, invoke_optional, complete_in,
  complete_task,
}
use noidear.Approval.Engine.Decided.{Decided}
use noidear.Approval.Engine.Open.{MayDecide, open_case-reads, assert_can_act-MayDecide}
use noidear.Approval.Engine.Complete.{Run, Run-Decided, complete_task-Run, open_case-refuses}

-- The instance has been rejected and no task of it is pending.
pub record Closed {B : Type 0} (instance_id : ℕ) (s : Db B) : Type 0 where
  pub no_pending : count (pending_of instance_id) s.tasks ≡ 0
  pub instance : Instance
  pub found : find_first (instance_is instance_id) s.instances ≡ some instance
  pub is_rejected : instance.status ≡ rejected

module _ {B : Type 0} (env : Env B) where
  invoke_optional-Closed :
      {i : ℕ} (key : Option String) (x : CallbackContext)
      → Keeps (Closed {B = B} i) (invoke_optional env key x)
  unfolding invoke_optional
  invoke_optional-Closed none x s a h e = h
  invoke_optional-Closed (some key) x s a h e = record {
    no_pending = h.no_pending;
    instance = h.instance;
    found = h.found;
    is_rejected = h.is_rejected;
  }

  cancelled-Closed :
      (i : ℕ) (s : Db B) (r : Instance)
      → find_first (instance_is i) s.instances ≡ some r
      → Closed i (
          update_instance i
            (end_instance env.now rejected)
            (update_tasks (pending_of i) cancel_task s))
  cancelled-Closed i s r h = record {
    no_pending = count-update_all (pending_of i) cancel_task s.tasks (λ t. ground arith);
    instance = end_instance env.now rejected r;
    found =
        find_first-update_many (instance_is i) (instance_is i) (end_instance env.now rejected)
          s.instances r (λ t. refl) h
        ∙ ap some (
            if-true (r.id == i) (end_instance env.now rejected r) r
              (find_first-holds (instance_is i) s.instances r h));
    is_rejected = refl;
  }

  reject_instance-Closed :
      (c : Case) (s : Db B)
      → find_first (instance_is c.task.instance_id) s.instances ≡ some c.instance
      → (reject_instance env c s).0 ≡ ok tt
      → Closed c.task.instance_id (reject_instance env c s).1
  unfolding reject_instance cancel_instance_todos notify_requester
  reject_instance-Closed c s h e =
      let i = c.task.instance_id in
      let closed = cancelled-Closed i s c.instance h in
      let key = callback_of c.task.step_key c.steps in
      bind-Keeps (Closed i) (invoke_optional env key (context_of c))
        (λ _. modify (notify_requester c.instance.created_by_id false c.instance.title))
        (invoke_optional-Closed key (context_of c))
        (λ _ t b g q. record {
          no_pending = g.no_pending;
          instance = g.instance;
          found = g.found;
          is_rejected = g.is_rejected;
        })
        (cancel_instance_todos env.now i c.actor_id (
          update_instance i (end_instance env.now rejected)
            (update_tasks (pending_of i) cancel_task s)))
        tt
        record {
          no_pending = closed.no_pending;
          instance = closed.instance;
          found = closed.found;
          is_rejected = closed.is_rejected;
        }
        e

  refused :
      (k b : ℕ) (d e : Decision) (comment : String) (metadata : Metadata) (t : Db B)
      → Decided k d t
      → complete_task env k b e comment metadata t ≡ (err (bad_request "审批任务已经处理"), t)
  unfolding complete_task complete_in
  refused k b d e comment metadata t g =
      let refuses = open_case-refuses env k b d e comment metadata t g in
      let reads = open_case-reads env k b e comment metadata t in
      let opens : open_case env k b e comment metadata t ≡ (err (bad_request "审批任务已经处理"), t) =
        λ i. (refuses i, reads i) in
      ap
        (λ r. roll_back_with env.undo t (
          continue
            (λ c.
              record_decision env e c
              >> (follow_up env e c >> pure (decide_task env.now e c c.task)))
            r))
        opens
      ∙ ap (λ b. (err (bad_request "审批任务已经处理"), record t { business = b }))
          (env.undo_nothing t.business)

  closes :
      (k a : ℕ) (comment : String) (metadata : Metadata) (s t : Db B) (u task : Task)
      → find_first (task_is k) s.tasks ≡ some task
      → Run env k a to_reject comment metadata s t u
      → Closed task.instance_id t
  unfolding follow_up record_decision close_task_todos
  closes k a comment metadata s t u task found run =
      let row = run.opened.task_found in
      let same_task : task ≡ run.case.task = ground (arith, row) in
      let same = ap (λ (o : Task). o.instance_id) same_task in
      subst (λ i. Closed i t) (sym same)
        (subst (Closed run.case.task.instance_id) (sym run.result) (
          reject_instance-Closed run.case (record_decision env to_reject run.case s).1
            run.opened.instance_found run.follows))

  module _ (k a : ℕ) (d : Decision) (comment : String) (metadata : Metadata) (s : Db B)
      (u : Task) where
    -- A task is decided once: when a decision on it has returned, a later decision on the same
    -- task, by whomever and whichever, throws "审批任务已经处理" and changes nothing.
    pub complete_task-once :
        (complete_task env k a d comment metadata s).0 ≡ ok u
        → (b : ℕ) (e : Decision) (comment' : String) (metadata' : Metadata)
        → complete_task env k b e comment' metadata' (complete_task env k a d comment metadata s).1
          ≡ (err (bad_request "审批任务已经处理"), (complete_task env k a d comment metadata s).1)
    complete_task-once h b e comment' metadata' =
        let t = (complete_task env k a d comment metadata s).1 in
        refused k b d e comment' metadata' t (
          Run-Decided env k a d comment metadata s t u
            (complete_task-Run env k a d comment metadata s u h))

    -- When a decision returns, the task was in the database and pending, and its actor exists, has
    -- a role, and is an administrator or one whom the task is for: the person it names, one with
    -- the role it names, who is in its department if it names one too, or, if it names no role, one
    -- of the department it names.
    pub complete_task-MayDecide :
        (complete_task env k a d comment metadata s).0 ≡ ok u
        → (task : Task) × (find_first (task_is k) s.tasks ≡ some task)
          × (is_pending task.status ≡ true)
          × MayDecide a task s
    complete_task-MayDecide h =
        let run = complete_task-Run env k a d comment metadata s u h in
        (
          run.case.task,
          run.opened.task_found,
          run.opened.was_pending,
          assert_can_act-MayDecide env a run.case.task s run.opened.can_act,
        )

  -- A rejection that returns closes the instance of the task: the instance is rejected and none of
  -- its tasks is pending any more, whatever the callback does to the business tables.
  pub reject-Closed :
      (k a : ℕ) (comment : String) (metadata : Metadata) (s : Db B) (u task : Task)
      → find_first (task_is k) s.tasks ≡ some task
      → (complete_task env k a to_reject comment metadata s).0 ≡ ok u
      → Closed task.instance_id (complete_task env k a to_reject comment metadata s).1
  reject-Closed k a comment metadata s u task found h =
      let t = (complete_task env k a to_reject comment metadata s).1 in
      closes k a comment metadata s t u task found
        (complete_task-Run env k a to_reject comment metadata s u h)
