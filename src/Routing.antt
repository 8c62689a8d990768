-- ===== src/Routing.antt =====
-- app/services/approval_routing_service.py over
-- app/repositories/sqlalchemy/group_hierarchy_repository.py and the query
-- `list_active_by_group_ids_and_roles` of user_repository.py.
pub mod Edges
pub mod Ancestors
pub mod Approvers
mod Tests
use reservation_tool.Base.{
  ℕ, zero, suc, ◌==◌, Bool, true, false, Option, none, some, List, [], ◌∷◌, ◌++◌, map, ◌&&◌, not,
  select, contains, length, if◌then◌else◌,
}
use reservation_tool.Core.Roles.{RoleName, role_in}
use reservation_tool.Core.Status.{Scope, scope_in, user_approved}
use reservation_tool.Db.Rows.{Role, User, GroupHierarchyEdge}

-- `get_parent_group_ids(group_id, scope)`
unfoldable pub get_parent_group_ids : Scope → List GroupHierarchyEdge → ℕ → List ℕ
get_parent_group_ids scope edges g =
    map (λ e. e.parent_group_id)
      (select (λ e. e.child_group_id == g && scope_in scope e.scope) edges)

-- `get_child_group_ids(group_id, scope)`
unfoldable pub get_child_group_ids : Scope → List GroupHierarchyEdge → ℕ → List ℕ
get_child_group_ids scope edges g =
    map (λ e. e.child_group_id)
      (select (λ e. e.parent_group_id == g && scope_in scope e.scope) edges)

-- `visited` and `next_frontier` of the walk.
pub record Walk : Type 0 where
  pub visited : List ℕ
  pub next : List ℕ

-- The body of the inner loop: `if parent_id not in visited`.
unfoldable pub visit : Walk → ℕ → Walk
visit w p =
    if contains w.visited p then w else record { visited = p ∷ w.visited; next = w.next ++ p ∷ [] }

-- `for parent_id in ...`
unfoldable pub visit_all : Walk → List ℕ → Walk
visit_all w [] = w
visit_all w (p ∷ ps) = visit_all (visit w p) ps

-- `for current_id in frontier`
unfoldable pub walk_round : (ℕ → List ℕ) → Walk → List ℕ → Walk
walk_round parents w [] = w
walk_round parents w (g ∷ gs) = walk_round parents (visit_all w (parents g)) gs

-- `while frontier`, with fuel; `none` when it runs out.
unfoldable pub walk : (ℕ → List ℕ) → ℕ → List ℕ → List ℕ → Option (List ℕ)
walk parents zero visited frontier = elim frontier [ [] ↦ some visited | _ ∷ _ ↦ none ]
walk parents (suc fuel) visited frontier = elim frontier [
  | [] ↦ some visited
  | g ∷ gs ↦
      let w = walk_round parents (record { visited = visited; next = [] }) (g ∷ gs) in
      walk parents fuel w.visited w.next
]

-- One round more than there are edges is enough.
abbrev pub walk_fuel : List GroupHierarchyEdge → ℕ
walk_fuel edges = suc (length edges)

-- `ancestor_group_ids`
unfoldable pub ancestor_group_ids : Scope → List GroupHierarchyEdge → ℕ → Option (List ℕ)
unfolding walk get_parent_group_ids
ancestor_group_ids scope edges g =
    walk (get_parent_group_ids scope edges) (walk_fuel edges) (g ∷ []) (g ∷ [])

-- `_APPROVER_ROLE_NAMES`
abbrev pub approver_role_names : List RoleName
approver_role_names = RoleName.lead ∷ RoleName.manager ∷ []

-- The conditions of `list_active_by_group_ids_and_roles`.
abbrev pub is_approver : List ℕ → List RoleName → User → Bool
is_approver groups roles u =
    elim u.group_id [ none ↦ false | some g ↦ contains groups g ]
    && user_approved u.status
    && u.is_active
    && elim u.role [ none ↦ false | some r ↦ role_in roles r.name ]

-- Empty lists need no case of their own: nothing is in them. The users are in the order of the table,
-- not of their addresses.
unfoldable pub list_active_by_group_ids_and_roles : List ℕ → List RoleName → List User → List User
list_active_by_group_ids_and_roles groups roles = select (is_approver groups roles)

-- `resolve_swap_approvers`, also called `resolve_approvers_for_group`; `none` stands for a walk
-- that does not end.
unfoldable pub resolve_swap_approvers :
    List GroupHierarchyEdge → List User → Option ℕ → Option (List User)
unfolding ancestor_group_ids list_active_by_group_ids_and_roles
resolve_swap_approvers edges users none = some []
resolve_swap_approvers edges users (some g) = elim (ancestor_group_ids Scope.swap edges g) [
  | none ↦ none
  | some ids ↦ some (list_active_by_group_ids_and_roles ids approver_role_names users)
]

-- `for parent_id in parent_ids: target_group_ids.update(children)`
unfoldable pub children_of : List GroupHierarchyEdge → List ℕ → List ℕ
unfolding get_child_group_ids
children_of edges [] = []
children_of edges (p ∷ ps) = get_child_group_ids Scope.borrow edges p ++ children_of edges ps

-- `target_group_ids`: the group, its direct parents, and the children of these.
unfoldable pub borrow_group_ids : List GroupHierarchyEdge → ℕ → List ℕ
unfolding get_parent_group_ids children_of
borrow_group_ids edges g =
    let parents = get_parent_group_ids Scope.borrow edges g in
    g ∷ (parents ++ children_of edges parents)

-- `resolve_borrow_approvers`
unfoldable pub resolve_borrow_approvers : List GroupHierarchyEdge → List User → Option ℕ → List User
unfolding borrow_group_ids list_active_by_group_ids_and_roles
resolve_borrow_approvers edges users none = []
resolve_borrow_approvers edges users (some g) =
    list_active_by_group_ids_and_roles (borrow_group_ids edges g) approver_role_names users
