-- ===== src/Hierarchy.antt =====
-- app/services/group_hierarchy_service.py over app/repositories/sqlalchemy/group_hierarchy_repository.py:
-- the editor of the graph that routes approvals. A scope is one of the three by its type.
pub mod Edges
mod Tests
use reservation_tool.Base.{
  ℕ, ◌==◌, Bool, true, false, not, ◌&&◌, Option, none, some, List, [], ◌∷◌, ◌++◌, map, find, select,
  any_of, is_some,
}
use reservation_tool.Core.Status.{AuditAction, EntityType, Scope, scope_eq}
use reservation_tool.Core.Errors.{AppError, Result, ok, err, ◌>>=◌, ◌>>◌, raise_if, or_raise}
use reservation_tool.Core.Settings.{Env}
use reservation_tool.Db.Rows.{User, Group, GroupHierarchyEdge, Db}
use reservation_tool.Db.Transaction.{Action, checked}
use reservation_tool.Notifications.{record_audit}

abbrev pub get_group : ℕ → List Group → Option Group
get_group key = find (λ g. g.id == key)

-- The unique key of the table: both groups and the scope.
abbrev pub is_edge : ℕ → ℕ → Scope → GroupHierarchyEdge → Bool
is_edge parent child scope e =
    e.parent_group_id == parent && e.child_group_id == child && scope_eq e.scope scope

-- The guards of `create_edge` of the service, then of the repository; the engine refuses an edge that
-- is there already, and the repository turns that into a conflict.
unfoldable pub create_edge_checks : ℕ → ℕ → Scope → Db → Result (Unit {0})
create_edge_checks parent child scope db = do
  p ← or_raise (get_group parent db.groups) AppError.not_found
  c ← or_raise (get_group child db.groups) AppError.not_found
  raise_if (parent == child) AppError.validation
  raise_if (any_of (is_edge parent child scope) db.edges) AppError.conflict

abbrev pub new_edge : Env → ℕ → ℕ → Scope → Db → GroupHierarchyEdge
new_edge env parent child scope db = record {
  id = env.fresh_id (map (λ e. e.id) db.edges);
  parent_group_id = parent;
  child_group_id = child;
  scope = scope;
}

unfoldable pub store_edge : Env → ℕ → ℕ → Scope → User → Unit {0} → Action GroupHierarchyEdge
store_edge env parent child scope actor _ db =
    let row = new_edge env parent child scope db in
    (
      ok row,
      record db {
        edges = db.edges ++ row ∷ [];
        journal =
            record_audit (some actor.id) AuditAction.create EntityType.group_hierarchy_edge
              (some row.id) db.journal;
      },
    )

-- `create_edge`
unfoldable pub create_edge : Env → ℕ → ℕ → Scope → User → Action GroupHierarchyEdge
unfolding create_edge_checks store_edge
create_edge env parent child scope actor db =
    checked (create_edge_checks parent child scope db) (store_edge env parent child scope actor) db

-- The edge that `delete_edge` of the repository finds.
abbrev pub get_edge : ℕ → ℕ → Scope → List GroupHierarchyEdge → Option GroupHierarchyEdge
get_edge parent child scope = find (is_edge parent child scope)

unfoldable pub store_edge_deleted : User → GroupHierarchyEdge → Action (Unit {0})
store_edge_deleted actor edge db = (
  ok tt,
  record db {
    edges = select (λ e. not (e.id == edge.id)) db.edges;
    journal =
        record_audit (some actor.id) AuditAction.delete EntityType.group_hierarchy_edge none
          db.journal;
  },
)

-- `delete_edge`
unfoldable pub delete_edge : ℕ → ℕ → Scope → User → Action (Unit {0})
unfolding store_edge_deleted
delete_edge parent child scope actor db =
    checked (or_raise (get_edge parent child scope db.edges) AppError.not_found)
      (store_edge_deleted actor) db
