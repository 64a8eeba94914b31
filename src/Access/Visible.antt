-- ===== src/Access/Visible.antt =====
-- Which production batches a person sees.
use noidear.Base.{
  ℕ, ◌≡◌, refl, Bool, true, false, Option, none, some, List, [], ◌∷◌, ◌==◌, map, find_many, any,
  arith, is_some_of, if◌then◌else◌, ◌&&◌, sym, ◌∙◌, ap,
}
use noidear.Access.{
  OwnershipContext, User, ProductionBatch, admin, leader, user, includes, in_list,
  user_ids_in_depts, visible_to, visible_production_batch_ids, led_by, batch_ids, is_empty,
  RoleCode, get_or,
}

-- The ids of the rows that pass a test.
includes-batch_ids :
    (k : ℕ) (p : ProductionBatch → Bool) (batches : List ProductionBatch)
    → includes k (batch_ids (find_many p batches)) ≡ any (λ b. p b && b.id == k) batches
unfolding includes any find_many
includes-batch_ids k p [] = refl
includes-batch_ids k p (b ∷ batches) = ground (arith, includes-batch_ids k p batches)

any-false :
    (p : ProductionBatch → Bool) (batches : List ProductionBatch)
    → ((b : ProductionBatch) → p b ≡ false)
    → any p batches ≡ false
unfolding any
any-false p [] h = refl
any-false p (b ∷ batches) h = ground (arith, h b, any-false p batches h)

in_list-nil : (o : Option ℕ) → in_list [] o ≡ false
unfolding includes any
in_list-nil none = refl
in_list-nil (some k) = refl

-- The early returns on an empty list give what the query would give.
led_by-eq :
    (k : ℕ) (members : List ℕ) (batches : List ProductionBatch)
    → includes k (led_by members batches)
      ≡ any (λ b. in_list members b.leader_id && b.id == k) batches
unfolding includes any
led_by-eq k [] batches = sym (
    any-false (λ b. in_list [] b.leader_id && b.id == k) batches
      (λ b. rw (in_list-nil b.leader_id)))
led_by-eq k (m ∷ ms) batches = includes-batch_ids k (λ b. in_list (m ∷ ms) b.leader_id) batches

includes-user_ids :
    (k : ℕ) (p : User → Bool) (users : List User)
    → includes k (map (λ (u : User). u.id) (find_many p users)) ≡ any (λ u. p u && u.id == k) users
unfolding includes any find_many
includes-user_ids k p [] = refl
includes-user_ids k p (u ∷ users) = ground (arith, includes-user_ids k p users)

no-users :
    (k : ℕ) (users : List User) → any (λ u. in_list [] u.department_id && u.id == k) users ≡ false
unfolding any
no-users k [] = refl
no-users k (u ∷ users) = ground (arith, in_list-nil u.department_id, no-users k users)

-- A user is listed exactly if some row gives him a department that is listed.
pub includes-user_ids_in_depts :
    (k : ℕ) (users : List User) (depts : List ℕ)
    → includes k (user_ids_in_depts users (some depts))
      ≡ any (λ u. in_list depts u.department_id && u.id == k) users
unfolding user_ids_in_depts includes any
includes-user_ids_in_depts k users [] = sym (no-users k users)
includes-user_ids_in_depts k users (d ∷ ds) =
    includes-user_ids k (λ u. in_list (d ∷ ds) u.department_id) users

-- Somebody in a listed department leads the batch.
abbrev pub led_from : List User → List ℕ → Option ℕ → Bool
led_from users depts none = false
led_from users depts (some leader_id) =
    any (λ u. in_list depts u.department_id && u.id == leader_id) users

in_list-eq :
    (users : List User) (depts : List ℕ) (o : Option ℕ)
    → in_list (user_ids_in_depts users (some depts)) o ≡ led_from users depts o
in_list-eq users depts none = refl
in_list-eq users depts (some k) = includes-user_ids_in_depts k users depts

no-batches :
    (users : List User) (k : ℕ) (batches : List ProductionBatch)
    → any (λ b. led_from users [] b.leader_id && b.id == k) batches ≡ false
unfolding any
no-batches users k [] = refl
no-batches users k (b ∷ batches) = ground (arith, no_leader b.leader_id, no-batches users k batches)
  where
    no_leader : (o : Option ℕ) → led_from users [] o ≡ false
    no_leader none = refl
    no_leader (some j) = no-users j users

any-ext : {X : Type 0} (p q : X → Bool) (xs : List X) → ((x : X) → p x ≡ q x) → any p xs ≡ any q xs
unfolding any
any-ext p q [] h = refl
any-ext p q (x ∷ xs) h = ground (arith, h x, any-ext p q xs h)

-- Which batches belong to the scope of a role, said without the queries.
abbrev pub in_scope : RoleCode → OwnershipContext → List User → List ProductionBatch → ℕ → Bool
in_scope admin o users batches k = true
in_scope user o users batches k = any (λ b. is_some_of o.user_id b.leader_id && b.id == k) batches
in_scope leader o users batches k =
    any (λ b. led_from users (get_or o.managed_department_ids []) b.leader_id && b.id == k) batches

-- How a caller reads the answer: `none` is no filter.
abbrev pub admits : Option (List ℕ) → ℕ → Bool
admits none k = true
admits (some ids) k = includes k ids

leader_ids :
    (users : List User) (batches : List ProductionBatch) (depts : List ℕ) (k : ℕ)
    → includes k
        (if is_empty depts then [] else led_by (user_ids_in_depts users (some depts)) batches)
      ≡ any (λ b. led_from users depts b.leader_id && b.id == k) batches
unfolding includes any
leader_ids users batches [] k = sym (no-batches users k batches)
leader_ids users batches (d ∷ ds) k =
    led_by-eq k (user_ids_in_depts users (some (d ∷ ds))) batches
    ∙ any-ext _ _ batches (λ b. ap (λ t. t && b.id == k) (in_list-eq users (d ∷ ds) b.leader_id))

visible_to-admits :
    (role : RoleCode) (users : List User) (batches : List ProductionBatch) (o : OwnershipContext)
    (k : ℕ)
    → admits (visible_to role users batches o) k ≡ in_scope role o users batches k
visible_to-admits admin users batches o k = refl
visible_to-admits user users batches o k =
    includes-batch_ids k (λ b. is_some_of o.user_id b.leader_id) batches
visible_to-admits leader users batches o k =
    leader_ids users batches (get_or o.managed_department_ids []) k

-- The ids that `visibleProductionBatchIds` returns admit exactly the batches of the caller's scope:
-- for an administrator all, for a user those that he leads, and for a leader those that somebody in
-- a department that he manages leads.
pub visible-admits :
    (users : List User) (batches : List ProductionBatch) (o : OwnershipContext) (k : ℕ)
    → admits (visible_production_batch_ids users batches o) k
      ≡ in_scope o.role_code o users batches k
unfolding visible_production_batch_ids
visible-admits users batches o k = visible_to-admits o.role_code users batches o k
