-- ===== src/Approval/Callbacks.antt =====
-- server/src/modules/unified-approval/approval-callback.registry.ts: the callbacks by which the
-- business modules hear of a decision.
use noidear.Base.{ℕ, String, Bool, Option, none, some, List, ◌∷◌, find_first, is_some, str_eq}
use noidear.Base.Action.{Action, not_found, throw}
use noidear.Approval.Db.{Metadata}

pub record CallbackContext : Type 0 where
  pub instance_id : ℕ
  pub resource_type : String
  pub resource_id : ℕ
  pub resource_step : Option String
  pub trigger_key : String
  pub actor_id : ℕ
  pub task_id : ℕ
  pub comment : String
  pub metadata : Metadata

abbrev pub Callback : Type 0 → Type 0
Callback B = CallbackContext → Action B (Unit {0})

abbrev pub Registry : Type 0 → Type 0
Registry B = List (String × Callback B)

module _ {B : Type 0} where
  abbrev entry_is : String → String × Callback B → Bool
  entry_is key entry = str_eq entry.0 key

  -- A later registration hides an earlier one.
  unfoldable pub register : Registry B → String → Callback B → Registry B
  register registry key callback = (key, callback) ∷ registry

  unfoldable pub has : Registry B → String → Bool
  has registry key = is_some (find_first (entry_is key) registry)

  abbrev run : Option (String × Callback B) → CallbackContext → Action B (Unit {0})
  run none context = throw (not_found "审批回调未注册")
  run (some entry) context = entry.1 context

  unfoldable pub invoke : Registry B → String → CallbackContext → Action B (Unit {0})
  invoke registry key context = run (find_first (entry_is key) registry) context
