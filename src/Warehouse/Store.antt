-- ===== src/Warehouse/Store.antt =====
-- The documents of the warehouse with the stock tables, and the steps that its services share.
use noidear.Base.{ℕ, String, Bool, Option, none, some, List, ◌==◌, true, false}
use noidear.Base.Int.{ℤ}
use noidear.Base.Action.{Action, Result, ok, pure, ◌>>=◌}
use noidear.Approval.Types.{StartApprovalInput, Approvals}
use noidear.Warehouse.Model.{Db}

pub record Item : Type 0 where
  pub batch_id : ℕ
  pub quantity : ℤ

pub data RequisitionType : Type 0 where
  production maintenance other : RequisitionType

pub data DocumentStatus : Type 0 where
  draft pending approved rejected completed : DocumentStatus

pub record Requisition : Type 0 where
  pub id : ℕ
  pub requisition_no : String
  pub requisition_type : RequisitionType
  pub status : DocumentStatus
  pub applicant_id : ℕ
  pub department_id : Option ℕ
  pub remark : Option String
  pub target_zone : Option String
  pub equipment_id : Option ℕ
  pub submitted_at : Option ℕ
  pub approved_at : Option ℕ
  pub approved_by : Option ℕ
  pub completed_at : Option ℕ
  pub approval_instance_id : Option ℕ
  pub deleted_at : Option ℕ
  pub items : List Item

-- A row of material_returns or of material_scraps: the two tables have the same columns.
pub record Slip : Type 0 where
  pub id : ℕ
  pub slip_no : String
  pub requester_id : ℕ
  pub reason : Option String
  pub status : DocumentStatus
  pub approved_by : Option ℕ
  pub approved_at : Option ℕ
  pub completed_at : Option ℕ
  pub approval_instance_id : Option ℕ
  pub items : List Item

pub record Inbound : Type 0 where
  pub id : ℕ
  pub inbound_no : String
  pub supplier_id : ℕ
  pub status : DocumentStatus
  pub remark : Option String
  pub operator_id : Option ℕ
  pub approved_at : Option ℕ
  pub approved_by : Option ℕ
  pub completed_at : Option ℕ
  pub approval_instance_id : Option ℕ
  pub deleted_at : Option ℕ
  pub items : List Item

pub record Equipment : Type 0 where
  pub id : ℕ
  pub deleted_at : Option ℕ
  pub is_active : Bool

pub record Store (A : Type 0) : Type 0 where
  pub stock : Db
  pub requisitions : List Requisition
  pub returns : List Slip
  pub scraps : List Slip
  pub inbounds : List Inbound
  pub equipment : List Equipment
  pub approvals : A
  pub next_id : ℕ

abbrev pub requisition_is : ℕ → Requisition → Bool
requisition_is k r = r.id == k

abbrev pub slip_is : ℕ → Slip → Bool
slip_is k r = r.id == k

abbrev pub inbound_is : ℕ → Inbound → Bool
inbound_is k r = r.id == k

module _ {A X : Type 0} where
  abbrev pub put_stock : Store A → Result X × Db → Result X × Store A
  put_stock s (r, t) = (r, record s { stock = t })

  -- An action on the stock tables alone.
  abbrev pub on_stock : Action Db X → Action (Store A) X
  on_stock m s = put_stock s (m s.stock)

  abbrev pub put_approvals : Store A → Result X × A → Result X × Store A
  put_approvals s (r, t) = (r, record s { approvals = t })

  abbrev pub on_approvals : Action A X → Action (Store A) X
  on_approvals m s = put_approvals s (m s.approvals)

  abbrev swallow : Result X × Store A → Result (Unit {0}) × Store A
  swallow (_, s) = (ok tt, s)

  -- `try { await m } catch {}`
  abbrev pub attempt : Action (Store A) X → Action (Store A) (Unit {0})
  attempt m s = swallow (m s)

module _ {A : Type 0} where
  -- `if (this.approvalEngine) { try { … } catch {} }`: start an approval, and link it by `link`.
  abbrev pub track_approval :
      Option (Approvals A)
      → StartApprovalInput
      → (ℕ → Action (Store A) (Unit {0}))
      → Action (Store A) (Unit {0})
  track_approval none input link = pure tt
  track_approval (some engine) input link = attempt (on_approvals (engine.start input) >>= link)

abbrev pub is_status : DocumentStatus → DocumentStatus → Bool
is_status draft draft = true
is_status pending pending = true
is_status approved approved = true
is_status rejected rejected = true
is_status completed completed = true
is_status _ _ = false
