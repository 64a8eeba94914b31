-- ===== src/Approval/Engine/Open.antt =====
-- What `completeTask` of approval-engine.service.ts checks before it decides a task.
use noidear.Base.{
  ℕ, String, true, ◌≡◌, ◌==◌, ◌||◌, some, find_first, str_eq, none, Option, Bool-cases, inl, inr,
  ==→eq, eq_iff, ap, is_some_of, Option-cases, arith,
}
use noidear.Base.Action.{ok, Result-cases}
use noidear.Approval.Db.{Db, Definition, Task, User, Metadata, task_is, instance_is, is_pending}
use noidear.Approval.Cases.{Env, Case}
use noidear.Approval.Metadata.{Decision, validate, ValidationContext}
use noidear.Approval.Resolver.{assert_can_act, is_for, user_is, is_code}
use noidear.Approval.Engine.{open_case}

-- For whom a task is: an administrator, the person it names, one with the role it names, in the
-- department if it names one too, or, if it names no role, anyone of the department it names.
pub data Admits (task : Task) (actor : User) (role_code : String) : Type 0 where
  administrator : role_code ≡ "admin" → Admits task actor role_code
  assignee : task.assignee_user_id ≡ some actor.id → Admits task actor role_code
  by_role :
      task.assignee_role_code ≡ some role_code
      → task.assignee_department_id ≡ none
      → Admits task actor role_code
  by_role_in_department :
      (d : ℕ)
      → task.assignee_role_code ≡ some role_code
      → task.assignee_department_id ≡ some d
      → actor.department_id ≡ some d
      → Admits task actor role_code
  by_department :
      (d : ℕ)
      → task.assignee_role_code ≡ none
      → task.assignee_department_id ≡ some d
      → actor.department_id ≡ some d
      → Admits task actor role_code

is_some_of-some : (k : ℕ) (o : Option ℕ) → is_some_of k o ≡ true → o ≡ some k
is_some_of-some k none e = absurd (cc e)
is_some_of-some k (some j) e = ap some (==→eq j k e)

is_code-some : (t : String) (o : Option String) → is_code t o ≡ true → o ≡ some t
is_code-some t none e = absurd (cc e)
is_code-some t (some u) e = ap some ((eq_iff u t).0 e)

is_for-Admits :
    (task : Task) (actor : User) (role_code : String)
    → is_for task actor role_code ≡ true
    → Admits task actor role_code
unfolding is_for
is_for-Admits task actor role_code e =
    elim (Bool-cases (is_some_of actor.id task.assignee_user_id)) [
      | inl own ↦ assignee (is_some_of-some actor.id task.assignee_user_id own)
      | inr other ↦ elim (Option-cases task.assignee_department_id) [
        | inl nowhere ↦
            by_role
              (is_code-some role_code task.assignee_role_code (ground (arith, e, other, nowhere)))
              nowhere
        | inr (d, somewhere) ↦
            let home : actor.department_id ≡ some d =
              is_some_of-some d actor.department_id (ground (arith, e, other, somewhere)) in
            elim (Option-cases task.assignee_role_code) [
              | inl anyone ↦ by_department d anyone somewhere home
              | inr (c, role) ↦
                  by_role_in_department d
                    (is_code-some role_code task.assignee_role_code
                      (ground (arith, e, other, somewhere, role)))
                    somewhere home
            ]
      ]
    ]

admitted :
    (task : Task) (actor : User) (role_code : String)
    → (str_eq role_code "admin" || is_for task actor role_code) ≡ true
    → Admits task actor role_code
admitted task actor role_code e = elim (Bool-cases (str_eq role_code "admin")) [
  | inl admin ↦ administrator ((eq_iff role_code "admin").0 admin)
  | inr other ↦ is_for-Admits task actor role_code (ground (arith, e, other))
]

-- The person exists, has a role, and is an administrator or one whom the task is for.
pub record MayDecide {B : Type 0} (actor_id : ℕ) (task : Task) (s : Db B) : Type 0 where
  pub actor : User
  pub role_code : String
  pub exists : find_first (user_is actor_id) s.users ≡ some actor
  pub has_role_code : actor.role_code ≡ some role_code
  pub admits : (str_eq role_code "admin" || is_for task actor role_code) ≡ true
  pub rule : Admits task actor role_code

module _ {B : Type 0} (env : Env B) where
  assert_can_act-reads :
      (actor_id : ℕ) (task : Task) (s : Db B) → (assert_can_act actor_id task s).1 ≡ s
  unfolding assert_can_act
  assert_can_act-reads actor_id task s = ground arith

  pub assert_can_act-MayDecide :
      (actor_id : ℕ) (task : Task) (s : Db B)
      → (assert_can_act actor_id task s).0 ≡ ok tt
      → MayDecide actor_id task s
  unfolding assert_can_act
  assert_can_act-MayDecide actor_id task s e =
      elim (Option-cases (find_first (user_is actor_id) s.users)) [
        | inl none_found ↦ absurd (ground arith)
        | inr found ↦ elim (Option-cases found.0.role_code) [
          | inl no_role ↦ absurd (ground (arith, found.1))
          | inr role ↦ record {
            actor = found.0;
            role_code = role.0;
            exists = found.1;
            has_role_code = role.1;
            admits = ground (arith, found.1, role.1);
            rule = admitted task found.0 role.0 (ground (arith, found.1, role.1));
          }
        ]
      ]

  -- What `open_case` has found when it returns a case: the rows are those of the tables, the rest is
  -- the request's.
  pub record Opened (task_id actor_id : ℕ) (d : Decision) (comment : String) (metadata : Metadata)
      (s : Db B) (c : Case) : Type 0 where
    pub task_found : find_first (task_is task_id) s.tasks ≡ some c.task
    pub was_pending : is_pending c.task.status ≡ true
    pub instance_found : find_first (instance_is c.task.instance_id) s.instances ≡ some c.instance
    pub definition : Definition
    pub definition_found :
        find_first (λ (x : Definition). x.id == c.instance.definition_id) s.definitions
        ≡ some definition
    pub steps_same : c.steps ≡ definition.steps
    pub comment_same : c.comment ≡ comment
    pub validated :
        validate (record {
          resource_type = c.instance.resource_type;
          trigger_key = c.instance.trigger_key;
          step_key = c.task.step_key;
          decision = d;
          comment = comment;
          metadata = metadata;
        })
        ≡ ok c.metadata
    pub actor_same : c.actor_id ≡ actor_id
    pub can_act : (assert_can_act actor_id c.task s).0 ≡ ok tt

  module _ (task_id actor_id : ℕ) (d : Decision) (comment : String) (metadata : Metadata)
      (s : Db B) where
    pub open_case-reads : (open_case env task_id actor_id d comment metadata s).1 ≡ s
    unfolding open_case
    open_case-reads = elim (Option-cases (find_first (task_is task_id) s.tasks)) [
      | inl none_found ↦ ground arith
      | inr found ↦ ground (arith, assert_can_act-reads actor_id found.0 s, found.1)
    ]

    pub open_case-Opened :
        (c : Case)
        → (open_case env task_id actor_id d comment metadata s).0 ≡ ok c
        → Opened task_id actor_id d comment metadata s c
    unfolding open_case
    open_case-Opened c e = elim (Option-cases (find_first (task_is task_id) s.tasks)) [
      | inl none_found ↦ absurd (ground arith)
      | inr found ↦
          let reads = assert_can_act-reads actor_id found.0 s in
          let row = found.1 in
          elim (Option-cases (find_first (instance_is found.0.instance_id) s.instances)) [
            | inl no_instance ↦ absurd (ground (arith, row, reads, no_instance))
            | inr (i, i_row) ↦
                elim (Option-cases
                  (find_first (λ (x : Definition). x.id == i.definition_id) s.definitions)) [
                    | inl no_definition ↦ absurd (ground (arith, row, reads, i_row, no_definition))
                    | inr (x, x_row) ↦
                        let request : ValidationContext = record {
                          resource_type = i.resource_type;
                          trigger_key = i.trigger_key;
                          step_key = found.0.step_key;
                          decision = d;
                          comment = comment;
                          metadata = metadata;
                        } in
                        elim (Result-cases (validate request)) [
                          | inr (bad, v) ↦
                              elim (Result-cases (assert_can_act actor_id found.0 s).0) [
                                | inl (u, a) ↦
                                    absurd (ground (arith, row, reads, i_row, x_row, v, a))
                                | inr (w, a) ↦
                                    absurd (ground (arith, row, reads, i_row, x_row, v, a))
                              ]
                          | inl (values, v) ↦ record {
                            task_found = ground (arith, row, reads);
                            was_pending = ground (arith, row, reads);
                            instance_found = ground (arith, row, reads);
                            definition = x;
                            definition_found = ground (arith, row, reads, i_row, x_row);
                            steps_same = ground (arith, row, reads, i_row, x_row);
                            comment_same = ground (arith, row, reads, i_row, x_row);
                            validated = ground (arith, row, reads, i_row, x_row, v);
                            actor_same = ground (arith, row, reads);
                            can_act = ground (arith, row, reads);
                          }
                        ]
                  ]
          ]
    ]
