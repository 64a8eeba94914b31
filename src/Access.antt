-- ===== src/Access.antt =====
-- Ownership scopes: server/src/modules/module-access/ownership-context.ts and ownership-helpers.ts.
pub mod Visible
pub mod Examples
use noidear.Base.{
  ℕ, String, Bool, true, false, Option, none, some, List, [], ◌∷◌, ◌==◌, map, find_many, any,
  is_some_of, str_eq, if◌then◌else◌, length, get_or,
}

pub data RoleCode : Type 0 where
  admin leader user : RoleCode

pub record OwnershipContext : Type 0 where
  pub user_id : ℕ
  pub role_code : RoleCode
  pub department_id : Option ℕ
  pub managed_department_ids : Option (List ℕ)

pub record Department : Type 0 where
  pub id : ℕ
  pub manager_id : Option ℕ

pub record User : Type 0 where
  pub id : ℕ
  pub department_id : Option ℕ

pub data BatchState : Type 0 where
  planned in_progress completed cancelled : BatchState

pub record ProductionBatch : Type 0 where
  pub id : ℕ
  pub product_id : ℕ
  pub recipe_id : Option ℕ
  pub status : BatchState
  pub plan_item_id : Option ℕ
  pub leader_id : Option ℕ

-- `xs.includes(k)`
unfoldable pub includes : ℕ → List ℕ → Bool
includes k xs = any (λ x. x == k) xs

-- `column: { in: ids }` of an optional column
abbrev pub in_list : List ℕ → Option ℕ → Bool
in_list ids none = false
in_list ids (some k) = includes k ids

-- `OwnershipContextResolver.resolve`: any other role than admin and leader is treated as a user.
unfoldable pub resolve : List Department → ℕ → String → Option ℕ → OwnershipContext
resolve departments id role_code department_id =
    if str_eq role_code "admin"
    then record {
      user_id = id;
      role_code = admin;
      department_id = department_id;
      managed_department_ids = none;
    }
    else if str_eq role_code "leader"
    then record {
      user_id = id;
      role_code = leader;
      department_id = department_id;
      managed_department_ids = some (
          map (λ (d : Department). d.id) (find_many (λ d. is_some_of id d.manager_id) departments));
    }
    else record {
      user_id = id;
      role_code = user;
      department_id = department_id;
      managed_department_ids = some [];
    }

abbrev pub is_empty : {A : Type 0} → List A → Bool
is_empty [] = true
is_empty (x ∷ xs) = false

unfoldable pub user_ids_in_depts : List User → Option (List ℕ) → List ℕ
user_ids_in_depts users dept_ids =
    let ids = get_or dept_ids [] in
    if is_empty ids
    then []
    else map (λ (u : User). u.id) (find_many (λ u. in_list ids u.department_id) users)

abbrev pub batch_ids : List ProductionBatch → List ℕ
batch_ids rows = map (λ (b : ProductionBatch). b.id) rows

abbrev pub led_by : List ℕ → List ProductionBatch → List ℕ
led_by members batches =
    if is_empty members
    then []
    else batch_ids (find_many (λ b. in_list members b.leader_id) batches)

abbrev pub visible_to :
    RoleCode → List User → List ProductionBatch → OwnershipContext → Option (List ℕ)
visible_to admin users batches o = none
visible_to user users batches o =
    some (batch_ids (find_many (λ b. is_some_of o.user_id b.leader_id) batches))
visible_to leader users batches o =
    let depts = get_or o.managed_department_ids [] in
    some (if is_empty depts then [] else led_by (user_ids_in_depts users (some depts)) batches)

-- `none` is the administrator's: no filter.
unfoldable pub visible_production_batch_ids :
    List User → List ProductionBatch → OwnershipContext → Option (List ℕ)
unfolding user_ids_in_depts
visible_production_batch_ids users batches o = visible_to o.role_code users batches o
