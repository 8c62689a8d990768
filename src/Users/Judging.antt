-- ===== src/Users/Judging.antt =====
-- The decisions on registrations, and the removal of accounts.
use reservation_tool.Base.{
  ℕ, ◌==◌, ◌=?◌, same_option, Bool, false, not, ◌&&◌, ◌||◌, Option, none, some, List, [], ◌∷◌,
  select, any_of, is_some, if◌then◌else◌,
}
use reservation_tool.Core.Roles.{RoleName, role_in}
use reservation_tool.Core.Status.{AuditAction, EntityType, UserStatus}
use reservation_tool.Core.Errors.{AppError, Result, ok, ◌>>=◌, ◌>>◌, raise_if, or_raise}
use reservation_tool.Core.Settings.{Env}
use reservation_tool.Db.Rows.{Role, User, Db}
use reservation_tool.Db.Transaction.{Action, checked}
use reservation_tool.Notifications.{record_audit}
use reservation_tool.Users.{
  UserApprovalRequest, get_user, get_role_by_name, store_change, user_pending,
}

-- `_scope_role_names`, as whether it restricts: what it lists is not looked at.
abbrev pub is_scoped : Role → Bool
is_scoped r = not (role_in (RoleName.owner ∷ RoleName.manager ∷ []) r.name)

-- `user.group_id != acting_user.group_id or user.group_id is None`
abbrev pub outside : Option ℕ → Option ℕ → Bool
outside theirs mine = not (same_option theirs mine) || not (is_some theirs)

-- The role of an approval: the one asked for, or BOT.
abbrev pub granted_role : UserApprovalRequest → List Role → Result (Option Role)
granted_role p roles =
    if p.approve
    then (elim p.role_name [
      | none ↦ get_role_by_name RoleName.bot roles
      | some n ↦ get_role_by_name n roles
    ]
        >>= λ r. ok (some r))
    else ok none

-- The guards of `process_approval`.
unfoldable pub approval_checks : ℕ → UserApprovalRequest → User → Db → Result (User × Option Role)
approval_checks key p actor db = do
  u ← or_raise (get_user key db.users) AppError.not_found
  raise_if (not (user_pending u.status)) AppError.conflict
  mine ← or_raise actor.role AppError.internal
  raise_if (is_scoped mine && outside u.group_id actor.group_id) AppError.authorization
  role ← granted_role p db.roles
  ok (u, role)

abbrev pub judged : Env → User → Option Role → User → User
judged env actor none u = record u { status = UserStatus.rejected; is_active = false }
judged env actor (some r) u = record u {
  status = UserStatus.approved;
  role = some r;
  approved_by_id = some actor.id;
  approved_at = some env.now;
}

abbrev pub judging : Option Role → AuditAction
judging none = AuditAction.reject
judging (some r) = AuditAction.approve

unfoldable pub store_judged : Env → User → User × Option Role → Action User
unfolding store_change
store_judged env actor (u, role) db = store_change actor (judging role) (judged env actor role) u db

-- `process_approval`
unfoldable pub process_approval : Env → ℕ → UserApprovalRequest → User → Action User
unfolding approval_checks store_judged
process_approval env key p actor db =
    checked (approval_checks key p actor db) (store_judged env actor) db

-- The rows that refer to a user.
unfoldable pub user_referenced : ℕ → Db → Bool
user_referenced key db =
    any_of (λ r. r.user_id == key) db.reservations
    || any_of (λ b. b.requester_id == key || b.approved_by_id =? key || b.returned_by_id =? key)
        db.borrows
    || any_of (λ s. s.requester_id == key || s.approved_by_id =? key) db.swaps
    || any_of (λ s. s.owner_id =? key) db.setups
    || any_of (λ u. u.approved_by_id =? key) db.users
    || any_of (λ c. c.changed_by_id == key) db.change_logs
    || any_of (λ a. a.created_by_id == key) db.journal.announcements
    || any_of (λ a. a.user_id =? key) db.journal.audit_logs
    || any_of (λ t. t.user_id == key) db.refresh_tokens
    || any_of (λ t. t.user_id == key) db.reset_tokens

-- The guards of `hard_delete`: the repository turns a broken foreign key into a refusal.
unfoldable pub hard_delete_checks : Env → ℕ → Db → Result (Unit {0})
unfolding user_referenced
hard_delete_checks env key db = do
  u ← or_raise (get_user key db.users) AppError.not_found
  raise_if (env.foreign_keys && user_referenced key db) AppError.conflict

unfoldable pub store_removed : ℕ → User → Unit {0} → Action (Unit {0})
store_removed key actor _ db = (
  ok tt,
  record db {
    users = select (λ u. not (u.id == key)) db.users;
    journal = record_audit (some actor.id) AuditAction.delete EntityType.user (some key) db.journal;
  },
)

-- `hard_delete`
unfoldable pub hard_delete : Env → ℕ → User → Action (Unit {0})
unfolding hard_delete_checks store_removed
hard_delete env key actor db = checked (hard_delete_checks env key db) (store_removed key actor) db
