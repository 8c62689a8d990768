-- ===== src/Groups.antt =====
-- app/services/group_service.py over app/repositories/sqlalchemy/group_repository.py. The description
-- of a group is not kept.
pub mod Names
mod Tests
use reservation_tool.Base.{
  ℕ, ◌==◌, ◌=?◌, Bool, true, false, not, ◌&&◌, ◌||◌, Option, none, some, List, [], ◌∷◌, ◌++◌, map,
  find, select, modify, any_of, contains, is_some, Text, text_eq, if◌then◌else◌,
}
use reservation_tool.Core.Status.{AuditAction, EntityType}
use reservation_tool.Core.Errors.{AppError, Result, ok, err, ◌>>=◌, ◌>>◌, raise_if, or_raise}
use reservation_tool.Core.Settings.{Env}
use reservation_tool.Db.Rows.{User, Setup, Group, GroupHierarchyEdge, Db}
use reservation_tool.Db.Transaction.{Action, checked}
use reservation_tool.Notifications.{record_audit}
use reservation_tool.Hierarchy.{get_group}

abbrev pub get_by_name : Text → List Group → Option Group
get_by_name name = find (λ g. text_eq g.name name)

abbrev pub new_group : Env → Text → Db → Group
new_group env name db = record { id = env.fresh_id (map (λ g. g.id) db.groups); name = name }

unfoldable pub store_group : Env → Text → User → Unit {0} → Action Group
store_group env name actor _ db =
    let row = new_group env name db in
    (
      ok row,
      record db {
        groups = db.groups ++ row ∷ [];
        journal =
            record_audit (some actor.id) AuditAction.create EntityType.group (some row.id)
              db.journal;
      },
    )

-- `create`
unfoldable pub create : Env → Text → User → Action Group
unfolding store_group
create env name actor db =
    checked (raise_if (is_some (get_by_name name db.groups)) AppError.conflict)
      (store_group env name actor) db

-- `payload.name is not None and payload.name != group.name`
abbrev pub renames : Option Text → Group → Bool
renames none g = false
renames (some name) g = not (text_eq name g.name)

abbrev pub taken : Option Text → List Group → Bool
taken none groups = false
taken (some name) groups = is_some (get_by_name name groups)

-- The guards of `update`; with them, whether the name changes.
unfoldable pub update_checks : ℕ → Option Text → Db → Result Group
update_checks key name db = do
  g ← or_raise (get_group key db.groups) AppError.not_found
  raise_if (renames name g && taken name db.groups) AppError.conflict
  ok g

abbrev pub renamed : Option Text → Group → Group
renamed none g = g
renamed (some name) g = record g { name = name }

unfoldable pub store_renamed : Option Text → User → Group → Action Group
store_renamed name actor g db = (
  ok (renamed name g),
  record db {
    groups = modify (λ x. x.id == g.id) (renamed name) db.groups;
    journal =
        record_audit (some actor.id) AuditAction.update EntityType.group (some g.id) db.journal;
  },
)

-- `update`
unfoldable pub update : ℕ → Option Text → User → Action Group
unfolding update_checks store_renamed
update key name actor db = checked (update_checks key name db) (store_renamed name actor) db

-- `has_members_or_setups`, which looks at the primary group of a user only.
abbrev pub has_members_or_setups : ℕ → Db → Bool
has_members_or_setups key db =
    any_of (λ u. u.group_id =? key) db.users || any_of (λ s. s.group_id =? key) db.setups

-- What keeps the engine from deleting a group: the edges, whose references may not become null, and
-- with foreign keys the borrows and the grants.
unfoldable pub group_referenced : Env → ℕ → Db → Bool
group_referenced env key db =
    any_of (λ e. e.parent_group_id == key || e.child_group_id == key) db.edges
    || env.foreign_keys
      && (any_of (λ b. b.source_group_id == key || b.target_group_id == key) db.borrows
          || any_of (λ g. g.source_group_id == key || g.granted_to_group_id == key) db.grants)

unfoldable pub delete_checks : Env → ℕ → Db → Result (Unit {0})
unfolding group_referenced
delete_checks env key db = do
  g ← or_raise (get_group key db.groups) AppError.not_found
  raise_if (has_members_or_setups key db) AppError.conflict
  raise_if (group_referenced env key db) AppError.internal

abbrev pub leave : ℕ → User → User
leave key u = record u { groups = select (λ n. not (n == key)) u.groups }

-- The writes of `delete`: the memberships of the group go with it.
unfoldable pub store_deleted : ℕ → User → Unit {0} → Action (Unit {0})
store_deleted key actor _ db = (
  ok tt,
  record db {
    groups = select (λ g. not (g.id == key)) db.groups;
    users = map (leave key) db.users;
    journal =
        record_audit (some actor.id) AuditAction.delete EntityType.group (some key) db.journal;
  },
)

-- `delete`
unfoldable pub delete : Env → ℕ → User → Action (Unit {0})
unfolding delete_checks store_deleted
delete env key actor db = checked (delete_checks env key db) (store_deleted key actor) db
