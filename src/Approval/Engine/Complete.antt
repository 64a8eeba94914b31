-- ===== src/Approval/Engine/Complete.antt =====
-- `completeTask` of approval-engine.service.ts: a decision stands, and a rejection closes the
-- instance.
use noidear.Base.{
  ℕ, String, ◌≡◌, ◌==◌, ==_refl, ==→eq, refl, some, inl, inr, find_first-holds,
  find_first-update_many, if-true, arith, ap, sym, subst, ◌∙◌,
}
use noidear.Base.Action.{bad_request, Result, ok, err, Result-cases}
use noidear.Approval.Db.{Db, Task, Metadata, task_is, is_pending, roll_back_with}
use noidear.Approval.Cases.{Env, Case, decide_task}
use noidear.Approval.Todos.{close_task_todos}
use noidear.Approval.Metadata.{Decision}
use noidear.Approval.Engine.{
  open_case, record_decision, follow_up, complete_in, complete_task, close_task_todos,
}
use noidear.Approval.Engine.Decided.{Decided, follow_up-Decided, not_pending}
use noidear.Approval.Engine.Open.{Opened, open_case-reads, open_case-Opened}

module _ {B : Type 0} (env : Env B) where
  -- The parts of a run of `complete_in` that returned.
  pub record Run (task_id actor_id : ℕ) (d : Decision) (comment : String) (metadata : Metadata)
      (s t : Db B) (u : Task) : Type 0 where
    pub case : Case
    pub opened : Opened env task_id actor_id d comment metadata s case
    pub follows : (follow_up env d case (record_decision env d case s).1).0 ≡ ok tt
    pub result : t ≡ (follow_up env d case (record_decision env d case s).1).1
    pub returned : u ≡ decide_task env.now d case case.task

  module _ (task_id actor_id : ℕ) (d : Decision) (comment : String) (metadata : Metadata)
      (s : Db B) where
    complete_in-Run :
        (u : Task)
        → (complete_in env task_id actor_id d comment metadata s).0 ≡ ok u
        → Run task_id actor_id d comment metadata s
            (complete_in env task_id actor_id d comment metadata s).1
            u
    unfolding complete_in record_decision
    complete_in-Run u e =
        elim (Result-cases (open_case env task_id actor_id d comment metadata s).0) [
          | inl opens ↦
              let c = opens.0 in
              let reads = open_case-reads env task_id actor_id d comment metadata s in
              let row = opens.1 in
              record {
                case = c;
                opened = open_case-Opened env task_id actor_id d comment metadata s c row;
                follows = ground (arith, row, reads);
                result = ground (arith, row, reads);
                returned = ground (arith, row, reads);
              }
          | inr fails ↦ absurd (ground (arith, fails.1))
        ]

    -- The transaction returns what its body returns.
    roll_back-ok :
        {X : Type 0} (r : Result X × Db B) (u : X)
        → (roll_back_with env.undo s r).0 ≡ ok u
        → (r.0 ≡ ok u) × ((roll_back_with env.undo s r).1 ≡ r.1)
    roll_back-ok (ok a, t) u e = (e, refl)
    roll_back-ok (err x, t) u e = absurd (cc e)

    pub complete_task-Run :
        (u : Task)
        → (complete_task env task_id actor_id d comment metadata s).0 ≡ ok u
        → Run task_id actor_id d comment metadata s
            (complete_task env task_id actor_id d comment metadata s).1
            u
    unfolding complete_task
    complete_task-Run u e =
        let both = roll_back-ok (complete_in env task_id actor_id d comment metadata s) u e in
        subst (λ t. Run task_id actor_id d comment metadata s t u) (sym both.1)
          (complete_in-Run u both.0)

  recorded-Decided :
      (d : Decision) (comment : String) (metadata : Metadata) (c : Case) (s : Db B) (k a : ℕ)
      → Opened env k a d comment metadata s c
      → Decided k d (record_decision env d c s).1
  unfolding record_decision close_task_todos
  recorded-Decided d comment metadata c s k a h =
      let same : c.task.id ≡ k =
        ==→eq c.task.id k (find_first-holds (task_is k) s.tasks c.task h.task_found) in
      record {
        task = decide_task env.now d c c.task;
        found =
            find_first-update_many (task_is k) (task_is c.task.id) (decide_task env.now d c) s.tasks
              c.task (λ t. refl) h.task_found
            ∙ ap some (
                if-true (c.task.id == c.task.id) (decide_task env.now d c c.task) c.task
                  (==_refl c.task.id));
        has_status = refl;
      }

  -- The task that a run has decided has the decision's status afterwards.
  pub Run-Decided :
      (k a : ℕ) (d : Decision) (comment : String) (metadata : Metadata) (s t : Db B) (u : Task)
      → Run k a d comment metadata s t u
      → Decided k d t
  Run-Decided k a d comment metadata s t u h = subst (Decided k d) (sym h.result) (
      follow_up-Decided env d h.case (record_decision env d h.case s).1 tt
        (recorded-Decided d comment metadata h.case s k a h.opened) h.follows)

  pub open_case-refuses :
      (k a : ℕ) (d e : Decision) (comment : String) (metadata : Metadata) (s : Db B)
      → Decided k d s
      → (open_case env k a e comment metadata s).0 ≡ err (bad_request "审批任务已经处理")
  unfolding open_case
  open_case-refuses k a d e comment metadata s h =
      let row = h.found in
      let status = ap is_pending h.has_status ∙ not_pending d in ground (arith, row, status)
