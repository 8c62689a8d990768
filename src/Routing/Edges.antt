-- ===== src/Routing/Edges.antt =====
-- What the two queries of the edge table find.
use mathlib.Core.Bool.{◌&&◌}
use reservation_tool.Base.{
  ℕ, ◌≡◌, refl, subst, inl, inr, true, List, [], ◌∷◌, arith, ◌==◌, contains, Bool-cases, Memᴰ,
}
use reservation_tool.Core.Status.{Scope, scope_in}
use reservation_tool.Db.Rows.{GroupHierarchyEdge}
use reservation_tool.Routing.{get_parent_group_ids, get_child_group_ids}

-- An edge of the domain says that `p` leads `c`.
pub record Leads (scope : Scope) (edges : List GroupHierarchyEdge) (p c : ℕ) : Type 0 where
  pub edge : GroupHierarchyEdge
  pub listed : Memᴰ edge edges
  pub child : edge.child_group_id ≡ c
  pub parent : edge.parent_group_id ≡ p
  pub counts : scope_in scope edge.scope ≡ true

Leads-later :
    {scope : Scope} (e : GroupHierarchyEdge) {es : List GroupHierarchyEdge} {p c : ℕ}
    → Leads scope es p c
    → Leads scope (e ∷ es) p c
Leads-later e l = record {
  edge = l.edge;
  listed = Memᴰ.tail l.listed;
  child = l.child;
  parent = l.parent;
  counts = l.counts;
}

-- What the query finds is led by an edge.
pub Leads-parents :
    (scope : Scope) (edges : List GroupHierarchyEdge) (p c : ℕ)
    → contains (get_parent_group_ids scope edges c) p ≡ true
    → Leads scope edges p c
unfolding get_parent_group_ids
Leads-parents scope [] p c h = absurd (cc)
Leads-parents scope (e ∷ es) p c h =
    elim (Bool-cases (e.child_group_id == c && scope_in scope e.scope && e.parent_group_id == p)) [
      | inl t ↦ record {
        edge = e;
        listed = Memᴰ.head refl;
        child = ground arith;
        parent = ground arith;
        counts = ground arith;
      }
      | inr f ↦ Leads-later e (Leads-parents scope es p c (ground arith))
    ]

listed-parents :
    (scope : Scope) (edges : List GroupHierarchyEdge) (e : GroupHierarchyEdge) (c : ℕ)
    → Memᴰ e edges
    → (e.child_group_id == c && scope_in scope e.scope) ≡ true
    → contains (get_parent_group_ids scope edges c) e.parent_group_id ≡ true
unfolding get_parent_group_ids
listed-parents scope [] e c m h = elim m [ ]
listed-parents scope (x ∷ xs) e c (Memᴰ.head same) h = ground arith
listed-parents scope (x ∷ xs) e c (Memᴰ.tail m) h = ground (arith, listed-parents scope xs e c m h)

pub parents-Leads :
    (scope : Scope) (edges : List GroupHierarchyEdge) (p c : ℕ)
    → Leads scope edges p c
    → contains (get_parent_group_ids scope edges c) p ≡ true
parents-Leads scope edges p c l =
    subst (λ n. contains (get_parent_group_ids scope edges c) n ≡ true) l.parent
      (listed-parents scope edges l.edge c l.listed (ground (arith, l.child, l.counts)))

-- The same of the children.
pub Leads-children :
    (scope : Scope) (edges : List GroupHierarchyEdge) (p c : ℕ)
    → contains (get_child_group_ids scope edges p) c ≡ true
    → Leads scope edges p c
unfolding get_child_group_ids
Leads-children scope [] p c h = absurd (cc)
Leads-children scope (e ∷ es) p c h =
    elim (Bool-cases (e.parent_group_id == p && scope_in scope e.scope && e.child_group_id == c)) [
      | inl t ↦ record {
        edge = e;
        listed = Memᴰ.head refl;
        child = ground arith;
        parent = ground arith;
        counts = ground arith;
      }
      | inr f ↦ Leads-later e (Leads-children scope es p c (ground arith))
    ]

listed-children :
    (scope : Scope) (edges : List GroupHierarchyEdge) (e : GroupHierarchyEdge) (p : ℕ)
    → Memᴰ e edges
    → (e.parent_group_id == p && scope_in scope e.scope) ≡ true
    → contains (get_child_group_ids scope edges p) e.child_group_id ≡ true
unfolding get_child_group_ids
listed-children scope [] e p m h = elim m [ ]
listed-children scope (x ∷ xs) e p (Memᴰ.head same) h = ground arith
listed-children scope (x ∷ xs) e p (Memᴰ.tail m) h =
    ground (arith, listed-children scope xs e p m h)

pub children-Leads :
    (scope : Scope) (edges : List GroupHierarchyEdge) (p c : ℕ)
    → Leads scope edges p c
    → contains (get_child_group_ids scope edges p) c ≡ true
children-Leads scope edges p c l =
    subst (λ n. contains (get_child_group_ids scope edges p) n ≡ true) l.child
      (listed-children scope edges l.edge p l.listed (ground (arith, l.parent, l.counts)))
