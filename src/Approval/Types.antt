-- ===== src/Approval/Types.antt =====
-- server/src/modules/unified-approval/types.ts, and the interface through which other services
-- start an approval.
use noidear.Base.{ℕ, String, ◌≡◌, Option, List}
use noidear.Base.Action.{Action, Error, err}

pub data ApprovalStatus : Type 0 where
  pending approved rejected cancelled : ApprovalStatus

pub data ApprovalMode : Type 0 where
  single countersign_all countersign_any sequential parallel_groups : ApprovalMode

pub data AssignmentType : Type 0 where
  user role department_role : AssignmentType

pub data ClaimMode : Type 0 where
  direct claimable : ClaimMode

-- The fields of the source's union; a constructor's fields that another variant lacks are absent.
-- An empty id or code in the source is `none` here.
pub data ApprovalAssignment : Type 0 where
  to_user : Option ℕ → ApprovalAssignment
  to_role : Option String → ApprovalAssignment
  to_department_role : Option ℕ → Option String → ApprovalAssignment

pub record ApprovalStep : Type 0 where
  pub step_key : String
  pub step_name : String
  pub mode : ApprovalMode
  pub assignments : List ApprovalAssignment
  pub on_approved : String
  pub on_rejected : Option String
  pub due_hours : Option ℕ

pub record StartApprovalInput : Type 0 where
  pub resource_type : String
  pub resource_id : ℕ
  pub resource_step : Option String
  pub trigger_key : String
  pub title : String
  pub created_by_id : ℕ

-- What a service relies on when it starts an approval: the id of the instance comes back, and a
-- call that throws leaves the approvals the same, up to what `same` overlooks.
pub record Approvals (A : Type 0) : Type 1 where
  pub start : StartApprovalInput → Action A ℕ
  pub same : A → A → Type 0
  pub start_atomic :
      (input : StartApprovalInput) (s : A) (e : Error)
      → (start input s).0 ≡ err e
      → same s (start input s).1
