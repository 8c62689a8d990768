-- ===== src/Hierarchy/Edges.antt =====
-- The graph stays proper: no loop of one edge, no edge twice; and a deletion takes its edge away.
use reservation_tool.Base.{
  ℕ, ◌≡◌, ◌≢◌, Bool, false, not, List, [], ◌∷◌, map, ◌==◌, arith, All, All-zip, All-append,
  All-select, Pairwise, Pairwise-append, any_of,
}
use reservation_tool.Core.Status.{Scope}
use reservation_tool.Core.Errors.{AppError, ok, raise_if, or_raise, or_raise-eq-ok, raise_if-eq-ok}
use reservation_tool.Core.Settings.{Env, IsFresh}
use reservation_tool.Db.Rows.{User, GroupHierarchyEdge, Db}
use reservation_tool.Db.Transaction.{checked_keeps, request, request_keeps}
use reservation_tool.Keys.{Pairwise-select, fresh_key}
use reservation_tool.Hierarchy.{
  get_group, is_edge, create_edge, create_edge_checks, store_edge, new_edge, delete_edge, get_edge,
  store_edge_deleted,
}

-- Two edges with different keys that join other groups or another scope.
abbrev pub Unlike : GroupHierarchyEdge → GroupHierarchyEdge → Type 0
Unlike a b = (a.id ≢ b.id) × (is_edge b.parent_group_id b.child_group_id b.scope a ≡ false)

abbrev pub IsProper : List GroupHierarchyEdge → Type 0
IsProper edges = Pairwise Unlike edges × All (λ e. e.parent_group_id ≢ e.child_group_id) edges

none-edge :
    (p : GroupHierarchyEdge → Bool) (rows : List GroupHierarchyEdge)
    → any_of p rows ≡ false
    → All (λ e. p e ≡ false) rows
none-edge p [] h = tt
none-edge p (e ∷ rows) h = ground (arith, none-edge p rows)

not_raised : (b : Bool) → raise_if b AppError.conflict ≡ ok tt → b ≡ false
not_raised b h = ground arith

create-IsProper :
    (env : Env) (parent child : ℕ) (scope : Scope) (actor : User) (db : Db)
    → IsFresh env
    → IsProper db.edges
    → IsProper (create_edge env parent child scope actor db).1.edges
unfolding create_edge create_edge_checks store_edge
create-IsProper env parent child scope actor db fresh (v, w) =
    checked_keeps (λ d. IsProper d.edges) (create_edge_checks parent child scope db)
      (store_edge env parent child scope actor) db (v, w)
      (λ _ e.
        let row = new_edge env parent child scope db in
        let (_, _, e1) = or_raise-eq-ok (get_group parent db.groups) _ _ e in
        let (_, _, e2) = or_raise-eq-ok (get_group child db.groups) _ _ e1 in
        let (apart, e3) = raise_if-eq-ok (parent == child) _ _ e2 in
        let free = not_raised (any_of (is_edge parent child scope) db.edges) e3 in
        (
          Pairwise-append Unlike db.edges row v (
              All-zip (λ x. x.id ≢ row.id) (λ x. is_edge parent child scope x ≡ false)
                (λ x. Unlike x row) (λ x a b. (a, b)) db.edges
                (fresh_key (λ x. x.id) db.edges _ (fresh (map (λ x. x.id) db.edges)))
                (none-edge (is_edge parent child scope) db.edges free)),
          All-append (λ x. x.parent_group_id ≢ x.child_group_id) db.edges row w
              (λ same. ground (arith, same, apart)),
        ))

delete-IsProper :
    (parent child : ℕ) (scope : Scope) (actor : User) (db : Db)
    → IsProper db.edges
    → IsProper (delete_edge parent child scope actor db).1.edges
unfolding delete_edge store_edge_deleted
delete-IsProper parent child scope actor db v =
    checked_keeps (λ d. IsProper d.edges)
      (or_raise (get_edge parent child scope db.edges) AppError.not_found)
      (store_edge_deleted actor) db v
      (λ edge e. (
        Pairwise-select Unlike (λ x. not (x.id == edge.id)) db.edges v.0,
        All-select (λ x. x.parent_group_id ≢ x.child_group_id) (λ x. not (x.id == edge.id)) db.edges
            v.1,
      ))

-- An edit of the graph.
pub data Edit : Type 0 where
  adds : Env → ℕ → ℕ → Scope → Edit
  drops : ℕ → ℕ → Scope → Edit

-- The keys that this edit is given are new.
abbrev pub Orderly : Edit → Type 0
Orderly (adds env parent child scope) = IsFresh env
Orderly (drops parent child scope) = Unit

pub edit_graph : User → List Edit → Db → Db
edit_graph actor [] db = db
edit_graph actor (adds env parent child scope ∷ es) db =
    edit_graph actor es (request (create_edge env parent child scope actor) db).1
edit_graph actor (drops parent child scope ∷ es) db =
    edit_graph actor es (request (delete_edge parent child scope actor) db).1

-- Whatever edits are made and in whatever order, when the engine gives fresh keys: from a proper graph
-- no group ever leads itself by one edge, and no two edges join the same groups in the same scope.
pub edit_graph-IsProper :
    (actor : User) (es : List Edit) (db : Db)
    → All Orderly es
    → IsProper db.edges
    → IsProper (edit_graph actor es db).edges
unfolding edit_graph
edit_graph-IsProper actor [] db o v = v
edit_graph-IsProper actor (adds env parent child scope ∷ es) db o v =
    edit_graph-IsProper actor es _ o.1 (
      request_keeps (λ d. IsProper d.edges) (create_edge env parent child scope actor) db
        (create-IsProper env parent child scope actor db o.0 v) v)
edit_graph-IsProper actor (drops parent child scope ∷ es) db o v =
    edit_graph-IsProper actor es _ o.1 (
      request_keeps (λ d. IsProper d.edges) (delete_edge parent child scope actor) db
        (delete-IsProper parent child scope actor db v) v)
