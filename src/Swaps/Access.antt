-- ===== src/Swaps/Access.antt =====
-- Who may raise and decide a swap, and which columns two setups have in common.
use reservation_tool.Base.{
  ℕ, ◌==◌, Bool, true, false, not, ◌&&◌, Option, none, some, List, [], ◌∷◌, ◌++◌, map, find, select,
  contains, any_of, Text, text_in, sorted_set, is_empty, if◌then◌else◌,
}
use reservation_tool.Core.Status.{swap_pending}
use reservation_tool.Core.Errors.{AppError, Result, ok, raise_if, is_ok}
use reservation_tool.Core.Settings.{Env}
use reservation_tool.Db.Rows.{User, Setup, SwapRequest, Db}
use reservation_tool.Hardware.{field_names}
use reservation_tool.Routing.{resolve_swap_approvers}
use reservation_tool.Setups.Table.{get_setup}
use reservation_tool.Borrows.Access.{
  has_role, universal_roles, truthy, group_ids, get_active_grant_group_ids, assert_routed,
  custom_names,
}

abbrev pub get_swap : ℕ → List SwapRequest → Option SwapRequest
get_swap key = find (λ s. s.id == key)

-- `get_by_id` of the setup repository, with a key that may be null
abbrev pub get_setup_at : Option ℕ → List Setup → Option Setup
get_setup_at none rows = none
get_setup_at (some key) rows = get_setup key rows

-- The groups that hold the setup: those it is lent to, else its own.
unfoldable pub holding_groups : Db → Setup → List ℕ
holding_groups db s = elim (get_active_grant_group_ids s.id db.grants) [
  | g ∷ gs ↦ g ∷ gs
  | [] ↦ elim (truthy s.group_id) [ none ↦ [] | some g ↦ g ∷ [] ]
]

-- `a & b` is not empty
abbrev pub meets : List ℕ → List ℕ → Bool
meets xs ys = any_of (contains ys) xs

abbrev pub is_nil {ℓ} : {A : Type ℓ} → List A → Bool
is_nil [] = true
is_nil (_ ∷ _) = false

-- `_assert_has_setup_access`
unfoldable pub assert_has_setup_access : Db → Setup → User → Result (Unit {0})
unfolding holding_groups
assert_has_setup_access db s u =
    if has_role universal_roles u
    then ok tt
    else raise_if
        (not (is_nil (holding_groups db s)) && not (meets (holding_groups db s) (group_ids u)))
        AppError.authorization

-- `can_access_setup`
unfoldable pub can_access_setup : Db → Setup → User → Bool
unfolding assert_has_setup_access
can_access_setup db s u = is_ok (assert_has_setup_access db s u)

-- `_common_swappable_columns`
unfoldable pub common_swappable_columns : Env → Db → Setup → Setup → List Text
common_swappable_columns env db a b =
    if env.has_template
    then field_names
      ++ sorted_set (
          if a.product_id == b.product_id
          then custom_names a.product_id db.columns
          else select (text_in (custom_names b.product_id db.columns))
              (custom_names a.product_id db.columns))
    else field_names

-- `swappable_columns`
unfoldable pub swappable_columns : Env → Db → Setup → Setup → List Text
unfolding common_swappable_columns
swappable_columns env db a b =
    if env.same_product && not (a.product_id == b.product_id)
    then []
    else common_swappable_columns env db a b

-- What a walk that ends has found.
abbrev pub found_users : Option (List User) → List User
found_users none = []
found_users (some us) = us

-- `resolve_approvers_for_group`, where the service has a routing
unfoldable pub swap_approvers : Env → Db → Option ℕ → List User
swap_approvers env db g =
    if env.has_routing then found_users (resolve_swap_approvers db.edges db.users g) else []

-- `_resolve_approver_emails`
unfoldable pub resolve_approver_emails : Env → Db → Option ℕ → List Text
unfolding swap_approvers
resolve_approver_emails env db g =
    select (λ a. not (is_empty a)) (map (λ u. u.email) (swap_approvers env db g))

-- `_assert_can_approve`
unfoldable pub assert_can_approve : Env → Db → Setup → User → Result (Unit {0})
unfolding swap_approvers
assert_can_approve env db s actor =
    if has_role universal_roles actor
    then ok tt
    else assert_routed (swap_approvers env db s.group_id) actor.id

-- `can_decide`
unfoldable pub can_decide : Env → Db → SwapRequest → User → Bool
unfolding assert_can_approve
can_decide env db s actor =
    swap_pending s.status && elim (get_setup_at (truthy s.current_setup_id) db.setups) [
      | none ↦ false
      | some setup ↦ is_ok (assert_can_approve env db setup actor)
    ]
