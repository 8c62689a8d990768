-- ===== src/Routing/Tests.antt =====
-- Routing on the example of the source: in the BORROW domain group 2 leads 4, 6 and 7, in the SWAP
-- domain group 1 leads 4 and 5.
use reservation_tool.Base.{ℕ, ◌≡◌, refl, ◌↔◌, true, some, List, [], ◌∷◌, contains, Memᴰ}
use reservation_tool.Core.Roles.{RoleName}
use reservation_tool.Core.Status.{Scope}
use reservation_tool.Db.Rows.{User, GroupHierarchyEdge}
use reservation_tool.Samples.{member}
use reservation_tool.Routing.{
  ancestor_group_ids, resolve_borrow_approvers, walk_round, visit_all, visit,
}
use reservation_tool.Routing.Ancestors.Closure.{IsAbove, ancestor_group_ids_exact}
use reservation_tool.Routing.Approvers.{Approves, Concerned, resolve_borrow_approvers_exact}

abbrev edge : ℕ → ℕ → ℕ → Scope → GroupHierarchyEdge
edge key parent child scope = record {
  id = key;
  parent_group_id = parent;
  child_group_id = child;
  scope = scope;
}

abbrev edges : List GroupHierarchyEdge
edges =
    edge 1 1 4 Scope.swap
    ∷ edge 2 1 5 Scope.swap
    ∷ edge 3 2 4 Scope.borrow
    ∷ edge 4 2 6 Scope.borrow
    ∷ edge 5 2 7 Scope.borrow
    ∷ edge 6 4 1 Scope.both
    ∷ []

abbrev lead : ℕ → User
lead g = member g RoleName.lead [] g

abbrev leads : List User
leads = lead 1 ∷ lead 2 ∷ lead 4 ∷ lead 5 ∷ lead 6 ∷ lead 7 ∷ []

-- Edge 6 closes a cycle; the walk ends all the same.
walk_example : ancestor_group_ids Scope.swap edges 4 ≡ some (1 ∷ 4 ∷ [])
unfolding ancestor_group_ids walk_round visit_all visit
walk_example = refl

borrow_example :
    resolve_borrow_approvers edges leads (some 6) ≡ lead 2 ∷ lead 4 ∷ lead 6 ∷ lead 7 ∷ []
unfolding resolve_borrow_approvers
borrow_example = refl

ancestor_group_ids_exact_example :
    (ids : List ℕ) × (ancestor_group_ids Scope.swap edges 4 ≡ some ids)
    × ((n : ℕ)
        → (contains ids n ≡ true → IsAbove Scope.swap edges 4 n)
          × (IsAbove Scope.swap edges 4 n → contains ids n ≡ true))
ancestor_group_ids_exact_example = ancestor_group_ids_exact Scope.swap edges 4

resolve_borrow_approvers_exact_example :
    Memᴰ (lead 2) (resolve_borrow_approvers edges leads (some 6))
    ↔ (Memᴰ (lead 2) leads × Approves (Concerned edges 6) (lead 2))
resolve_borrow_approvers_exact_example = resolve_borrow_approvers_exact edges leads 6 (lead 2)
