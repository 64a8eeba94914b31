-- ===== src/Approval/Db.antt =====
-- The tables of the approval engine, from server/src/prisma/schema.prisma. `B` stands for the
-- tables of the business modules, which only the callbacks read and write. A time is a number of
-- milliseconds.
use noidear.Base.{ℕ, String, Bool, Option, List, ◌==◌, true, false}
use noidear.Base.Action.{Action, Result, ok, err}
use noidear.Approval.Types.{ApprovalStatus, ApprovalMode, AssignmentType, ClaimMode, ApprovalStep}

pub record Definition : Type 0 where
  pub id : ℕ
  pub version : ℕ
  pub resource_type : String
  pub trigger_key : String
  pub is_active : Bool
  pub steps : List ApprovalStep

pub record Instance : Type 0 where
  pub id : ℕ
  pub definition_id : ℕ
  pub definition_version : ℕ
  pub resource_type : String
  pub resource_id : ℕ
  pub resource_step : Option String
  pub trigger_key : String
  pub title : String
  pub status : ApprovalStatus
  pub current_step_key : Option String
  pub created_by_id : ℕ
  pub completed_at : Option ℕ

pub record Task : Type 0 where
  pub id : ℕ
  pub instance_id : ℕ
  pub step_key : String
  pub step_name : String
  pub approval_mode : ApprovalMode
  pub assignment_type : AssignmentType
  pub assignee_user_id : Option ℕ
  pub assignee_role_code : Option String
  pub assignee_department_id : Option ℕ
  pub claim_mode : ClaimMode
  pub status : ApprovalStatus
  pub claimed_by_id : Option ℕ
  pub acted_by_id : Option ℕ
  pub comment : Option String
  pub acted_at : Option ℕ
  pub due_at : Option ℕ

-- A value of the metadata that an approver sends; `other_value` is no string.
pub data MetaValue : Type 0 where
  text_value : String → MetaValue
  null_value other_value : MetaValue

abbrev pub Metadata : Type 0
Metadata = List (String × MetaValue)

pub data Snapshot : Type 0 where
  started : String → ℕ → String → Snapshot
  decided : Task → Metadata → Snapshot

pub data ActionType : Type 0 where
  approve reject remark : ActionType

pub record ActionRow : Type 0 where
  pub instance_id : ℕ
  pub task_id : Option ℕ
  pub actor_id : ℕ
  pub action : ActionType
  pub comment : String
  pub snapshot : Snapshot

pub record Todo : Type 0 where
  pub user_id : ℕ
  pub todo_type : String
  pub related_id : ℕ
  pub title : String
  pub description : String
  pub is_pending : Bool
  pub completed_at : Option ℕ
  pub completed_by : Option ℕ

pub data NotificationType : Type 0 where
  approval_task approval_approved approval_rejected : NotificationType

-- `task_id` is the id that the content of a task's notification ends with.
pub record Notification : Type 0 where
  pub user_id : ℕ
  pub notification_type : NotificationType
  pub title : String
  pub content : String
  pub task_id : Option ℕ

pub record User : Type 0 where
  pub id : ℕ
  pub is_active : Bool
  pub role_code : Option String
  pub department_id : Option ℕ

pub record Db (B : Type 0) : Type 0 where
  pub definitions : List Definition
  pub instances : List Instance
  pub tasks : List Task
  pub actions : List ActionRow
  pub todos : List Todo
  pub users : List User
  pub notifications : List Notification
  pub business : B
  pub next_id : ℕ

module _ {B X : Type 0} where
  -- The notification service does not write through the transaction, so what it has sent stays.
  abbrev pub roll_back : Db B → Result X × Db B → Result X × Db B
  roll_back s (ok a, s') = (ok a, s')
  roll_back s (err e, s') = (err e, record s { notifications = s'.notifications })

  -- The same where the body calls business modules: `undo` gives what they have left, from their
  -- tables before and after.
  abbrev pub roll_back_with : (B → B → B) → Db B → Result X × Db B → Result X × Db B
  roll_back_with undo s (ok a, s') = (ok a, s')
  roll_back_with undo s (err e, s') =
      (err e, record s { business = undo s.business s'.business; notifications = s'.notifications })

  abbrev pub transaction : Action (Db B) X → Action (Db B) X
  transaction m s = roll_back s (m s)

  abbrev pub put_business : Db B → Result X × B → Result X × Db B
  put_business s (r, t) = (r, record s { business = t })

  abbrev pub on_business : Action B X → Action (Db B) X
  on_business m s = put_business s (m s.business)

abbrev pub instance_is : ℕ → Instance → Bool
instance_is k r = r.id == k

abbrev pub task_is : ℕ → Task → Bool
task_is k t = t.id == k

abbrev pub task_of : ℕ → Task → Bool
task_of k t = t.instance_id == k

abbrev pub is_pending : ApprovalStatus → Bool
is_pending ApprovalStatus.pending = true
is_pending _ = false
