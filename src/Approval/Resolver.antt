-- ===== src/Approval/Resolver.antt =====
-- server/src/modules/unified-approval/approval-assignment.resolver.ts: who may act on a task.
use noidear.Base.{
  ℕ, String, Bool, false, not, ◌&&◌, ◌||◌, Option, none, some, List, [], ◌∷◌, ◌==◌, map, find_many,
  find_first, is_some, is_some_of, str_eq,
}
use noidear.Base.Action.{
  Action, not_found, forbidden, pure, throw, throw_if, or_throw, gets, ◌>>=◌, ◌>>◌,
}
use noidear.Approval.Types.{
  ApprovalAssignment, to_user, to_role, to_department_role, AssignmentType, user, role,
  department_role, ClaimMode, direct, claimable,
}
use noidear.Approval.Db.{Db, User, Task, is_pending}

pub record ResolvedAssignment : Type 0 where
  pub assignee_user_ids : List ℕ
  pub assignee_role_code : Option String
  pub assignee_department_id : Option ℕ
  pub claim_mode : ClaimMode

abbrev pub assignment_type : ApprovalAssignment → AssignmentType
assignment_type (to_user _) = user
assignment_type (to_role _) = role
assignment_type (to_department_role _ _) = department_role

abbrev pub is_code : String → Option String → Bool
is_code code none = false
is_code code (some c) = str_eq c code

abbrev pub has_role : String → User → Bool
has_role code u = u.is_active && is_code code u.role_code

abbrev pub ids_of : List User → List ℕ
ids_of rows = map (λ (u : User). u.id) rows

module _ {B : Type 0} where
  abbrev pub resolve_role : String → Option ℕ → (User → Bool) → Action (Db B) ResolvedAssignment
  resolve_role code department_id test = do
    rows ← gets (λ s. find_many test s.users)
    pure (record {
      assignee_user_ids = ids_of rows;
      assignee_role_code = some code;
      assignee_department_id = department_id;
      claim_mode = claimable;
    })

  unfoldable pub resolve_assignment : ApprovalAssignment → Action (Db B) ResolvedAssignment
  resolve_assignment (to_user none) = throw (not_found "审批定义缺少 userId")
  resolve_assignment (to_user (some id)) = pure (record {
    assignee_user_ids = id ∷ [];
    assignee_role_code = none;
    assignee_department_id = none;
    claim_mode = direct;
  })
  resolve_assignment (to_role none) = throw (not_found "审批定义缺少 roleCode")
  resolve_assignment (to_role (some code)) = resolve_role code none (has_role code)
  resolve_assignment (to_department_role (some d) (some code)) =
      resolve_role code (some d) (λ u. has_role code u && is_some_of d u.department_id)
  resolve_assignment (to_department_role none _) =
      throw (not_found "审批定义缺少 departmentId 或 roleCode")
  resolve_assignment (to_department_role (some d) none) =
      throw (not_found "审批定义缺少 departmentId 或 roleCode")

-- `a && a === b` on two optional ids
abbrev pub same_id : Option ℕ → Option ℕ → Bool
same_id none b = false
same_id (some k) b = is_some_of k b

-- The three ways in which a task is for a person, after the administrator's.
unfoldable pub is_for : Task → User → String → Bool
is_for task u role_code =
    is_some_of u.id task.assignee_user_id
    || is_code role_code task.assignee_role_code
      && (not (is_some task.assignee_department_id)
          || same_id task.assignee_department_id u.department_id)
    || (not (is_some task.assignee_role_code)
        && same_id task.assignee_department_id u.department_id)

abbrev pub user_is : ℕ → User → Bool
user_is k u = u.id == k

module _ {B : Type 0} where
  unfoldable pub assert_can_act : ℕ → Task → Action (Db B) (Unit {0})
  assert_can_act user_id task = do
    throw_if (not (is_pending task.status)) (forbidden "审批任务不是待处理状态")
    found ← gets (λ s. find_first (user_is user_id) s.users)
    u ← or_throw found (forbidden "用户不存在")
    role_code ← or_throw u.role_code (forbidden "用户缺少正式角色")
    throw_if (not (str_eq role_code "admin" || is_for task u role_code)) (forbidden "无权处理该审批任务")
