-- ===== src/ProcessChange/Apply.antt =====
-- `applyApprovedChange` of product-process-change.service.ts and what it calls, with
-- `createFailureTodo` of product-process-change-todo.bridge.ts. `now` is `new Date()`. The
-- transaction is the method's own, so it is rolled back before a failure is recorded.
pub mod Recipes
pub mod Points
unfoldable pub use Recipes.*
unfoldable pub use Points.*
use noidear.Base.{
  ℕ, ◌+◌, String, Bool, true, false, not, ◌&&◌, ◌||◌, Option, none, some, List, [], ◌∷◌, ◌++◌, ◌==◌,
  str_eq, any, find_first, find_many, is_some_of, if◌then◌else◌, includes, has_repeat, leb, map,
  update_many, get_or,
}
use noidear.Base.Action.{
  Action, Result, Error, ok, err, bad_request, not_found, forbidden, gone, conflict, internal, pure,
  gets, or_throw, modify, transaction, ◌>>=◌, ◌>>◌,
}
use noidear.ProcessChange.{
  Db, Plan, Scope, RecipeLineInput, ProcessStepInput, CcpPointInput, CcpPoint, Recipe, RecipeLine,
  ProcessStep, Artifact, ArtifactAction, archive, create, update, ResourceType, Execution,
  FailureTodo, has_scope, process, haccp, active_of, active, archived, live_step_of, update_plan,
  is_executed, approved_executing, execution_failed, executed,
}
use noidear.ProcessChange.Validate.{validate_payload, given, has_number, is_empty}

abbrev pub execution_of : ℕ → Execution → Bool
execution_of change_event_id e = e.change_event_id == change_event_id

abbrev pub new_execution : Plan → ℕ → Execution
new_execution plan id = record {
  id = id;
  change_event_id = plan.change_event_id;
  has_failed = false;
  error_message = none;
}

-- `changeEventExecution.create`; the unique index allows one row for each change event.
unfoldable pub create_execution : Plan → Action Db ℕ
create_execution plan s =
    if any (execution_of plan.change_event_id) s.executions then (err (internal "P2002"), s) else (
      ok s.next_id,
      record s {
        executions = s.executions ++ new_execution plan s.next_id ∷ [];
        next_id = s.next_id + 1;
      },
    )

abbrev pub filled : ℕ → Artifact → Artifact
filled execution_id a = record a { execution_id = execution_id }

abbrev pub mark_executed : ℕ → Plan → Plan
mark_executed now p = record p { status = executed; executed_at = some now; execution_error = none }

-- `if (scopeSet.has(…))` round a part, with what stands for its result otherwise
abbrev pub scoped : {A : Type 0} → Bool → Action Db A → A → Action Db A
scoped true m a = m
scoped false m a = pure a

abbrev pub recipe_part : Plan → Action Db (Option ℕ × List Artifact)
recipe_part plan = scoped (has_scope Scope.recipe plan.scopes) (apply_recipe_change plan) (none, [])

abbrev pub step_part : Plan → Option ℕ → Action Db (List Artifact)
step_part plan recipe_id =
    scoped (has_scope process plan.scopes || has_scope Scope.process_step plan.scopes)
      (apply_process_step_change plan recipe_id) []

abbrev pub point_part : Plan → Action Db (List Artifact)
point_part plan = scoped (has_scope haccp plan.scopes) (apply_haccp_change plan) []

-- The body of the transaction up to the row of the execution: the checks and the business tables
unfoldable pub apply_scopes : Plan → Action Db (List Artifact)
apply_scopes plan = do
  validate_payload plan
  made ← recipe_part plan
  steps ← step_part plan made.0
  points ← point_part plan
  pure (made.1 ++ (steps ++ points))

-- The body of the transaction
unfoldable pub apply_in_transaction : ℕ → Plan → Action Db (Unit {0})
apply_in_transaction now plan = do
  modify (update_plan plan.id (λ p. record p { status = approved_executing }))
  artifacts ← apply_scopes plan
  execution_id ← create_execution plan
  modify (λ s. record s { artifacts = s.artifacts ++ map (filled execution_id) artifacts })
  modify (update_plan plan.id (mark_executed now))

abbrev pub message_of : Error → String
message_of (bad_request m) = m
message_of (not_found m) = m
message_of (forbidden m) = m
message_of (gone m) = m
message_of (conflict m) = m
message_of (internal m) = m

abbrev pub mark_failed : String → Plan → Plan
mark_failed message p = record p { status = execution_failed; execution_error = some message }

abbrev pub failed_execution : Plan → String → ℕ → Execution
failed_execution plan message id = record {
  id = id;
  change_event_id = plan.change_event_id;
  has_failed = true;
  error_message = some message;
}

-- `changeEventExecution.upsert`
unfoldable pub record_failure : Plan → String → Db → Db
record_failure plan message s =
    if any (execution_of plan.change_event_id) s.executions
    then record s {
      executions =
          update_many (execution_of plan.change_event_id)
            (λ e. record e { has_failed = true; error_message = some message }) s.executions;
    }
    else record s {
      executions = s.executions ++ failed_execution plan message s.next_id ∷ [];
      next_id = s.next_id + 1;
    }

abbrev pub failure_todo_of : ℕ → ℕ → FailureTodo → Bool
failure_todo_of user_id plan_id t = t.user_id == user_id && t.related_id == plan_id

unfoldable pub create_failure_todo : Plan → ℕ → String → Db → Db
create_failure_todo plan actor_id message s =
    let user_id = get_or plan.created_by_id actor_id in
    if any (failure_todo_of user_id plan.id) s.todos
    then record s {
      todos =
          update_many (failure_todo_of user_id plan.id)
            (λ t. record t { is_pending = true; description = message; completed_by = none })
            s.todos;
    }
    else record s {
      todos =
          s.todos
          ++ record {
            user_id = user_id;
            related_id = plan.id;
            is_pending = true;
            description = message;
            completed_by = none;
          }
            ∷ [];
    }

-- The `catch`: what is recorded, before the exception is thrown on. Each write stands in a `try`
-- that only logs; nothing in the tables makes one of them fail.
abbrev pub on_failure : Plan → ℕ → Error → Db → Db
on_failure plan actor_id e s =
    create_failure_todo plan actor_id (message_of e)
      (record_failure plan (message_of e) (update_plan plan.id (mark_failed (message_of e)) s))

abbrev pub caught : Plan → ℕ → Result (Unit {0}) × Db → Result (Unit {0}) × Db
caught plan actor_id (ok u, s) = (ok u, s)
caught plan actor_id (err e, s) = (err e, on_failure plan actor_id e s)

abbrev pub event_plan : ℕ → Plan → Bool
event_plan change_event_id p = p.change_event_id == change_event_id

abbrev pub apply_found : ℕ → ℕ → Option Plan → Action Db (Unit {0})
apply_found now actor_id none s = (ok tt, s)
apply_found now actor_id (some plan) s =
    if is_executed plan.status
    then (ok tt, s)
    else caught plan actor_id (transaction (apply_in_transaction now plan) s)

unfoldable pub apply_approved_change : ℕ → ℕ → ℕ → Action Db (Unit {0})
apply_approved_change now change_event_id actor_id s =
    apply_found now actor_id (find_first (event_plan change_event_id) s.plans) s
