-- ===== src/Approval/Engine/Service.antt =====
-- approval-engine.service.ts as the approvals that the other services start.
use noidear.Base.{◌≡◌, refl}
use noidear.Base.Action.{Result, ok, err, Error}
use noidear.Approval.Types.{StartApprovalInput, Approvals}
use noidear.Approval.Db.{Db, roll_back}
use noidear.Approval.Cases.{Env}
use noidear.Approval.Engine.{start_in, start_approval}

-- The two databases agree in all but the notifications that have been sent.
abbrev pub SameRows : {B : Type 0} → Db B → Db B → Type 0
SameRows s t = t ≡ record s { notifications = t.notifications }

module _ {B : Type 0} where
  roll_back-SameRows :
      {X : Type 0} (s : Db B) (r : Result X × Db B) (e : Error)
      → (roll_back s r).0 ≡ err e
      → SameRows s (roll_back s r).1
  roll_back-SameRows s (ok a, t) e h = absurd (cc h)
  roll_back-SameRows s (err x, t) e h = refl

module _ {B : Type 0} (env : Env B) where
  pub start_approval-SameRows :
      (input : StartApprovalInput) (s : Db B) (e : Error)
      → (start_approval env input s).0 ≡ err e
      → SameRows s (start_approval env input s).1
  unfolding start_approval
  start_approval-SameRows input s e h = roll_back-SameRows s (start_in env input s) e h

  -- The engine serves the other services.
  abbrev pub engine_approvals : Approvals (Db B)
  engine_approvals = record {
    start = start_approval env;
    same = SameRows;
    start_atomic = start_approval-SameRows;
  }
