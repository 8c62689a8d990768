-- ===== src/Users.antt =====
-- app/services/user_service.py over app/repositories/sqlalchemy/user_repository.py, the lookup of
-- app/services/role_lookup_service.py and the requests of app/schemas/user.py. The hash of a
-- password is an argument; the full name of a user is not kept.
pub mod Judging
pub mod Accounts
pub mod Conditions
pub mod Approvals
mod Tests
use reservation_tool.Base.{
  ℕ, ◌==◌, ◌=?◌, same_option, Bool, true, false, not, ◌&&◌, ◌||◌, Option, none, some, List, [], ◌∷◌,
  ◌++◌, map, find, select, modify, any_of, contains, is_some, Text, text_eq, if◌then◌else◌,
}
use reservation_tool.Core.Roles.{RoleName, role_eq, role_in}
use reservation_tool.Core.Status.{AuditAction, EntityType, UserStatus}
use reservation_tool.Core.Errors.{AppError, Result, ok, err, ◌>>=◌, ◌>>◌, raise_if, or_raise}
use reservation_tool.Core.Settings.{Env}
use reservation_tool.Db.Rows.{Role, User, Group, Db}
use reservation_tool.Db.Transaction.{Action, checked}
use reservation_tool.Notifications.{record_audit}

pub record UserCreateRequest : Type 0 where
  pub username : Text
  pub email : Text
  pub password : Text
  pub role_name : RoleName
  pub group_id : Option ℕ
  pub group_ids : Option (List ℕ)

pub record UserUpdateRequest : Type 0 where
  pub role_name : Option RoleName
  pub group_id : Option ℕ
  pub group_ids : Option (List ℕ)
  pub is_active : Option Bool

pub record UserApprovalRequest : Type 0 where
  pub approve : Bool
  pub role_name : Option RoleName

abbrev pub get_user : ℕ → List User → Option User
get_user key = find (λ u. u.id == key)

abbrev pub get_by_username : Text → List User → Option User
get_by_username name = find (λ u. text_eq u.username name)

abbrev pub get_by_email : Text → List User → Option User
get_by_email email = find (λ u. text_eq u.email email)

-- `get_role_by_name`
abbrev pub get_role_by_name : RoleName → List Role → Result Role
get_role_by_name name roles = or_raise (find (λ r. role_eq r.name name) roles) AppError.not_found

-- The groups that `set_groups` finds for these ids.
abbrev pub found_groups : List ℕ → List Group → List ℕ
found_groups ids groups = map (λ g. g.id) (select (λ g. contains ids g.id) groups)

abbrev pub first_id : Option (List ℕ) → Option ℕ
first_id none = none
first_id (some []) = none
first_id (some (g ∷ gs)) = some g

-- `a` unless it is None.
abbrev pub or_else : Option ℕ → Option ℕ → Option ℕ
or_else none b = b
or_else (some a) b = some a

-- The foreign key of a user's group.
abbrev pub no_group : Env → Option ℕ → List Group → Bool
no_group env none groups = false
no_group env (some key) groups = env.foreign_keys && not (any_of (λ g. g.id == key) groups)

-- The guards of `create`, and the foreign key of the row.
unfoldable pub create_checks : Env → UserCreateRequest → Db → Result Role
create_checks env p db = do
  raise_if (is_some (get_by_username p.username db.users)) AppError.conflict
  raise_if (is_some (get_by_email p.email db.users)) AppError.conflict
  role ← get_role_by_name p.role_name db.roles
  raise_if (no_group env (or_else p.group_id (first_id p.group_ids)) db.groups) AppError.internal
  ok role

abbrev pub new_user : (Text → Text) → Env → UserCreateRequest → User → Role → Db → User
new_user hash env p actor role db = record {
  id = env.fresh_id (map (λ u. u.id) db.users);
  username = p.username;
  email = p.email;
  password_hash = hash p.password;
  role = some role;
  group_id = or_else p.group_id (first_id p.group_ids);
  groups = elim p.group_ids [ none ↦ [] | some ids ↦ found_groups ids db.groups ];
  status = UserStatus.approved;
  is_active = true;
  approved_by_id = some actor.id;
  approved_at = some env.now;
}

-- The writes of `create`.
unfoldable pub store_user : (Text → Text) → Env → UserCreateRequest → User → Role → Action User
store_user hash env p actor role db =
    let row = new_user hash env p actor role db in
    (
      ok row,
      record db {
        users = db.users ++ row ∷ [];
        journal =
            record_audit (some actor.id) AuditAction.create EntityType.user (some row.id)
              db.journal;
      },
    )

-- `create`
unfoldable pub create : (Text → Text) → Env → UserCreateRequest → User → Action User
unfolding create_checks store_user
create hash env p actor db = checked (create_checks env p db) (store_user hash env p actor) db

-- The UPDATE of the changed columns of a user, and its audit entry.
unfoldable pub store_change : User → AuditAction → (User → User) → User → Action User
store_change actor action f u db = (
  ok (f u),
  record db {
    users = modify (λ x. x.id == u.id) f db.users;
    journal = record_audit (some actor.id) action EntityType.user (some u.id) db.journal;
  },
)

abbrev pub user_disabled : UserStatus → Bool
user_disabled UserStatus.disabled = true
user_disabled _ = false

abbrev pub user_pending : UserStatus → Bool
user_pending UserStatus.pending = true
user_pending _ = false

-- `payload.is_active`: re-enabling an account lifts DISABLED.
abbrev pub set_active : Option Bool → User → User
set_active none u = u
set_active (some b) u = record u {
  is_active = b;
  status = if b && user_disabled u.status then UserStatus.approved else u.status;
}

-- The role that an update asks for.
abbrev pub new_role : Option RoleName → Option Role → List Role → Result (Option Role)
new_role none current roles = ok current
new_role (some name) current roles = get_role_by_name name roles >>= λ r. ok (some r)

-- The group, the groups and the flags after an update.
abbrev pub edited : UserUpdateRequest → Option Role → Db → User → User
edited p role db u = set_active p.is_active (record u {
  role = role;
  group_id = or_else p.group_id (or_else (first_id p.group_ids) u.group_id);
  groups = elim p.group_ids [ none ↦ u.groups | some ids ↦ found_groups ids db.groups ];
})

-- The guards of `update`; the audit entry reads the name of the role.
unfoldable pub update_checks : Env → ℕ → UserUpdateRequest → Db → Result (User × Option Role)
update_checks env key p db = do
  u ← or_raise (get_user key db.users) AppError.not_found
  raise_if (not (is_some u.role)) AppError.internal
  role ← new_role p.role_name u.role db.roles
  raise_if (no_group env (or_else p.group_id (or_else (first_id p.group_ids) u.group_id)) db.groups)
      AppError.internal
  ok (u, role)

unfoldable pub store_edit : UserUpdateRequest → User → User × Option Role → Action User
unfolding store_change
store_edit p actor (u, role) db = store_change actor AuditAction.update (edited p role db) u db

-- `update`
unfoldable pub update : Env → ℕ → UserUpdateRequest → User → Action User
unfolding update_checks store_edit
update env key p actor db = checked (update_checks env key p db) (store_edit p actor) db

abbrev pub deactivated : User → User
deactivated u = record u { is_active = false; status = UserStatus.disabled }

-- `delete`: the account is disabled.
unfoldable pub delete : ℕ → User → Action User
unfolding store_change
delete key actor db =
    checked (or_raise (get_user key db.users) AppError.not_found)
      (store_change actor AuditAction.delete deactivated) db

abbrev pub reactivated : User → User
reactivated u = record u { is_active = true; status = UserStatus.approved }

-- `reactivate`
unfoldable pub reactivate : ℕ → User → Action User
unfolding store_change
reactivate key actor db =
    checked (or_raise (get_user key db.users) AppError.not_found)
      (store_change actor AuditAction.update reactivated) db
