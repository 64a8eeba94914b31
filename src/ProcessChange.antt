-- ===== src/ProcessChange.antt =====
-- Changes of products and processes: the tables of server/src/prisma/schema.prisma that
-- server/src/modules/product-process-change/product-process-change.service.ts reads and writes. Of
-- a row, the texts that no code reads are left out. A request's empty text is `none`.
pub mod Validate
pub mod Apply
pub mod Service
pub mod Frame
pub mod Unwritten
pub mod Parts
pub mod Outcome
pub mod Stuck
pub mod Final
pub mod Forever
pub mod Versions
pub mod Blocked
pub mod Lifecycle
mod Examples
use noidear.Base.{
  ℕ, ◌+◌, String, Bool, true, false, not, ◌&&◌, ◌||◌, Option, none, some, List, [], ◌∷◌, ◌++◌, ◌==◌,
  str_eq, any, find_first, find_many, update_many, is_some, is_some_of,
}
use noidear.Base.Action.{Action, ok, err, pure, gets, ◌>>=◌}

-- The texts of the array `scopes` that the code looks for
pub data Scope : Type 0 where
  recipe process process_step haccp trial : Scope
  label allergen nutrition origin shelf_life regulatory : Scope
  other : Scope

pub data HazardType : Type 0 where
  biological chemical physical : HazardType

pub record RecipeLineInput : Type 0 where
  pub material_id : Option ℕ
  pub qty_per_batch : Option ℕ
  pub unit : Option String
  pub area_id : Option ℕ
  pub is_critical : Bool

pub record ProcessStepInput : Type 0 where
  pub step_no : Option ℕ
  pub name : String

-- `hazard_type` is `none` for a text that is none of the three.
pub record CcpPointInput : Type 0 where
  pub step_no : ℕ
  pub ccp_no : Option String
  pub hazard_type : Option HazardType
  pub control_measure : Option String
  pub critical_limit : Option String
  pub cl_min : Option ℕ
  pub cl_max : Option ℕ

pub record Payload : Type 0 where
  pub recipe_lines : List RecipeLineInput
  pub process_steps : List ProcessStepInput
  pub ccp_points : List CcpPointInput
  pub base_recipe_id : Option ℕ
  pub base_recipe_version : Option ℕ

pub data PlanStatus : Type 0 where
  draft pending_approval approved_executing execution_failed executed : PlanStatus

pub record Plan : Type 0 where
  pub id : ℕ
  pub company_id : ℕ
  pub change_event_id : ℕ
  pub product_id : ℕ
  pub scopes : List Scope
  pub payload : Payload
  pub status : PlanStatus
  pub execution_error : Option String
  pub locked_at : Option ℕ
  pub executed_at : Option ℕ
  pub created_by_id : Option ℕ

pub record Product : Type 0 where
  pub id : ℕ
  pub company_id : ℕ
  pub is_deleted : Bool

pub data EventStatus : Type 0 where
  pending approved rejected : EventStatus

pub record ChangeEvent : Type 0 where
  pub id : ℕ
  pub year : ℕ
  pub change_no : ℕ
  pub applied_by : ℕ
  pub status : EventStatus
  pub approved_by : Option ℕ

pub data RecipeStatus : Type 0 where
  draft active retired archived : RecipeStatus

pub record RecipeLine : Type 0 where
  pub material_id : Option ℕ
  pub qty_per_batch : Option ℕ
  pub unit : Option String
  pub area_id : Option ℕ
  pub is_critical : Bool

pub record Recipe : Type 0 where
  pub id : ℕ
  pub company_id : ℕ
  pub product_id : ℕ
  pub version : ℕ
  pub status : RecipeStatus
  pub change_event_id : Option ℕ
  pub lines : List RecipeLine

pub record ProcessStep : Type 0 where
  pub id : ℕ
  pub company_id : ℕ
  pub product_id : Option ℕ
  pub recipe_id : Option ℕ
  pub step_no : ℕ
  pub name : String
  pub change_event_id : Option ℕ
  pub is_deleted : Bool

pub record CcpPoint : Type 0 where
  pub id : ℕ
  pub company_id : ℕ
  pub process_step_id : ℕ
  pub ccp_no : String
  pub hazard_type : Option HazardType
  pub control_measure : Option String
  pub critical_limit : Option String
  pub cl_min : Option ℕ
  pub cl_max : Option ℕ
  pub is_deleted : Bool

pub data ArtifactAction : Type 0 where
  archive create update : ArtifactAction

pub data ResourceType : Type 0 where
  recipe process_step ccp_point : ResourceType

pub record Artifact : Type 0 where
  pub execution_id : ℕ
  pub resource_type : ResourceType
  pub resource_id : ℕ
  pub action : ArtifactAction

pub record Execution : Type 0 where
  pub id : ℕ
  pub change_event_id : ℕ
  pub has_failed : Bool
  pub error_message : Option String

-- A to-do of the type `change_execution_failed`
pub record FailureTodo : Type 0 where
  pub user_id : ℕ
  pub related_id : ℕ
  pub is_pending : Bool
  pub description : String
  pub completed_by : Option ℕ

-- Of the materials and of the areas that are not deleted only the ids are kept, of the compliance
-- and verification records only the ids of their change events.
pub record Db : Type 0 where
  pub products : List Product
  pub plans : List Plan
  pub events : List ChangeEvent
  pub recipes : List Recipe
  pub steps : List ProcessStep
  pub ccps : List CcpPoint
  pub materials : List ℕ
  pub areas : List ℕ
  pub compliance_records : List ℕ
  pub verification_records : List ℕ
  pub executions : List Execution
  pub artifacts : List Artifact
  pub todos : List FailureTodo
  pub next_id : ℕ

abbrev pub same_scope : Scope → Scope → Bool
same_scope Scope.recipe Scope.recipe = true
same_scope process process = true
same_scope Scope.process_step Scope.process_step = true
same_scope haccp haccp = true
same_scope trial trial = true
same_scope label label = true
same_scope allergen allergen = true
same_scope nutrition nutrition = true
same_scope origin origin = true
same_scope shelf_life shelf_life = true
same_scope regulatory regulatory = true
same_scope other other = true
same_scope _ _ = false

-- `scopes.includes(scope)`
abbrev pub has_scope : Scope → List Scope → Bool
has_scope scope scopes = any (same_scope scope) scopes

abbrev pub plan_is : ℕ → Plan → Bool
plan_is k p = p.id == k

abbrev pub update_plan : ℕ → (Plan → Plan) → Db → Db
update_plan id f s = record s { plans = update_many (plan_is id) f s.plans }

abbrev pub is_executed : PlanStatus → Bool
is_executed executed = true
is_executed _ = false

-- `status: { in: UNFINISHED_PRODUCT_PROCESS_CHANGE_STATUSES }`
abbrev pub is_unfinished : PlanStatus → Bool
is_unfinished status = not (is_executed status)

abbrev pub product_is : ℕ → Product → Bool
product_is id p = p.id == id && not p.is_deleted

abbrev pub is_active : RecipeStatus → Bool
is_active active = true
is_active _ = false

abbrev pub active_of : ℕ → Recipe → Bool
active_of product_id r = r.product_id == product_id && is_active r.status

abbrev pub live_step_of : ℕ → ProcessStep → Bool
live_step_of product_id t = is_some_of product_id t.product_id && not t.is_deleted
