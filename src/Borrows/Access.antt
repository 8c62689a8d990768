-- ===== src/Borrows/Access.antt =====
-- Who may request, decide and return a borrow, and the reads of the repository.
use reservation_tool.Base.{
  ℕ, zero, suc, ◌==◌, Bool, false, not, ◌&&◌, ◌||◌, Option, none, some, List, [], ◌∷◌, ◌++◌, map,
  find, select, contains, any_of, Text, text_in, if◌then◌else◌,
}
use reservation_tool.Core.Roles.{RoleName, role_in}
use reservation_tool.Core.Status.{borrow_pending, borrow_completed}
use reservation_tool.Core.Errors.{AppError, Result, ok, ◌>>◌, raise_if, is_ok}
use reservation_tool.Core.Settings.{Env}
use reservation_tool.Db.Rows.{User, Setup, BorrowRequest, SetupAccessGrant, TemplateColumn, Db}
use reservation_tool.Hardware.{field_names}
use reservation_tool.Routing.{resolve_borrow_approvers}

-- `BORROW_REQUESTER_ROLES`, `_LEAD_ROLES`, `_UNIVERSAL_ROLES`
abbrev pub requester_roles : List RoleName
requester_roles = RoleName.lead ∷ RoleName.manager ∷ RoleName.owner ∷ []

abbrev pub lead_roles : List RoleName
lead_roles = RoleName.lead ∷ RoleName.manager ∷ []

abbrev pub universal_roles : List RoleName
universal_roles = RoleName.owner ∷ []

-- `user.role and user.role.name in names`
abbrev pub has_role : List RoleName → User → Bool
has_role names u = elim u.role [ none ↦ false | some r ↦ role_in names r.name ]

-- Python's truth of a nullable number: the number, unless it is 0.
abbrev pub truthy : Option ℕ → Option ℕ
truthy none = none
truthy (some zero) = none
truthy (some (suc n)) = some (suc n)

-- `_group_ids`
abbrev pub group_ids : User → List ℕ
group_ids u = elim (truthy u.group_id) [ none ↦ u.groups | some g ↦ g ∷ u.groups ]

-- `get_by_id`
abbrev pub get_borrow : ℕ → List BorrowRequest → Option BorrowRequest
get_borrow key = find (λ b. b.id == key)

-- `status IN (PENDING, COMPLETED)`
abbrev pub is_open : BorrowRequest → Bool
is_open b = borrow_pending b.status || borrow_completed b.status

abbrev pub get_open_for_setup : ℕ → List BorrowRequest → Option BorrowRequest
get_open_for_setup setup = find (λ b. b.setup_id == setup && is_open b)

abbrev pub active_for : ℕ → SetupAccessGrant → Bool
active_for setup g = g.setup_id == setup && g.is_active

abbrev pub get_active_grant_for_setup : ℕ → List SetupAccessGrant → Option SetupAccessGrant
get_active_grant_for_setup setup = find (active_for setup)

abbrev pub get_grant_for_borrow : ℕ → List SetupAccessGrant → Option SetupAccessGrant
get_grant_for_borrow key = find (λ g. g.borrow_request_id == key)

-- `get_active_grant_group_ids` of the setup repository
abbrev pub get_active_grant_group_ids : ℕ → List SetupAccessGrant → List ℕ
get_active_grant_group_ids setup grants =
    map (λ g. g.granted_to_group_id) (select (active_for setup) grants)

-- `_routed_approvers`
unfoldable pub routed_approvers : Env → Db → ℕ → List User
routed_approvers env db g =
    if env.has_routing then resolve_borrow_approvers db.edges db.users (some g) else []

-- `id in {u.id for u in users}`
abbrev pub id_among : ℕ → List User → Bool
id_among key = any_of (λ u. u.id == key)

abbrev pub other_than : ℕ → List User → List User
other_than key = select (λ u. not (u.id == key))

-- With no approver at all the flat permission decides.
abbrev pub assert_routed : List User → ℕ → Result (Unit {0})
assert_routed [] key = ok tt
assert_routed (u ∷ us) key = raise_if (not (id_among key (u ∷ us))) AppError.authorization

-- `_assert_can_decide`
unfoldable pub assert_can_decide : Env → Db → BorrowRequest → User → Result (Unit {0})
assert_can_decide env db b actor = do
  raise_if (actor.id == b.requester_id) AppError.authorization
  let approvers = other_than b.requester_id (routed_approvers env db b.source_group_id)
  if has_role universal_roles actor then ok tt else assert_routed approvers actor.id

-- `_assert_can_return`
unfoldable pub assert_can_return : Env → Db → BorrowRequest → User → Result (Unit {0})
assert_can_return env db b actor =
    raise_if
      (not (
        actor.id == b.requester_id
        || has_role universal_roles actor
        || has_role lead_roles actor
          && (contains (group_ids actor) b.target_group_id
              || id_among actor.id (routed_approvers env db b.source_group_id))))
      AppError.authorization

-- `can_decide`
unfoldable pub can_decide : Env → Db → BorrowRequest → User → Bool
unfolding assert_can_decide
can_decide env db b actor = borrow_pending b.status && is_ok (assert_can_decide env db b actor)

-- `can_return`
unfoldable pub can_return : Env → Db → BorrowRequest → User → Bool
unfolding assert_can_return
can_return env db b actor = borrow_completed b.status && is_ok (assert_can_return env db b actor)

-- `get_custom_columns` of the template service, by name
abbrev pub custom_names : ℕ → List TemplateColumn → List Text
custom_names product columns =
    map (λ c. c.name) (select (λ (c : TemplateColumn). c.product_id == product) columns)

-- `borrowable_fields`
unfoldable pub borrowable_fields : Env → Db → Setup → List Text
borrowable_fields env db s =
    field_names ++ (if env.has_template then custom_names s.product_id db.columns else [])

-- `_validate_field`
unfoldable pub validate_field : Env → Db → Setup → Option Text → Result (Unit {0})
unfolding borrowable_fields
validate_field env db s none = ok tt
validate_field env db s (some name) =
    raise_if (not (text_in (borrowable_fields env db s) name)) AppError.validation
