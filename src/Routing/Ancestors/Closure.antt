-- ===== src/Routing/Ancestors/Closure.antt =====
-- The result of the walk is the set of the groups above the given one.
use reservation_tool.Base.{
  ℕ, zero, suc, ◌≡◌, subst, ◌⊎◌, inl, inr, true, false, some, List, [], ◌∷◌, arith, ◌==◌, ==_iff,
  contains, Within, Bool-cases,
}
use mathlib.Core.Option.{some-injective}
use reservation_tool.Core.Status.{Scope}
use reservation_tool.Db.Rows.{GroupHierarchyEdge}
use reservation_tool.Routing.{
  Walk, walk_round, visit_all, visit, walk, walk_fuel, ancestor_group_ids, get_parent_group_ids,
}
use reservation_tool.Routing.Edges.{Leads, Leads-parents, parents-Leads}
use reservation_tool.Routing.Ancestors.Rounds.{walk_round-Grows, walk_round_has, start-Grows}
use reservation_tool.Routing.Ancestors.Termination.{ancestor_group_ids_total}

-- `g` itself, and whoever leads a group above it, directly or through others.
pub data IsAbove (scope : Scope) (edges : List GroupHierarchyEdge) (g : ℕ) : ℕ → Type 0 where
  self : IsAbove scope edges g g
  up : {c p : ℕ} → IsAbove scope edges g c → Leads scope edges p c → IsAbove scope edges g p

module _ (parents : ℕ → List ℕ) where
  -- A predicate that passes from a group to its parents holds of all that is found.
  module _ (Q : ℕ → Type 0) (pass : (c p : ℕ) → Q c → contains (parents c) p ≡ true → Q p) where
    abbrev Good : List ℕ → Type 0
    Good ids = (n : ℕ) → contains ids n ≡ true → Q n

    visit_all-Good :
        (ps : List ℕ) (w : Walk) → Good w.visited → Good ps → Good (visit_all w ps).visited
    unfolding visit_all visit
    visit_all-Good [] w h k = h
    visit_all-Good (p ∷ ps) w h k =
        visit_all-Good ps (visit w p) (visit-Good (Bool-cases (contains w.visited p)))
          (λ n m. k n (ground arith))
      where
        visit-Good :
            (contains w.visited p ≡ true) ⊎ (contains w.visited p ≡ false)
            → Good (visit w p).visited
        visit-Good (inl old) n m = h n (ground arith)
        visit-Good (inr new) n m = elim (Bool-cases (p == n)) [
          | inl same ↦ k n (ground arith)
          | inr other ↦ h n (ground arith)
        ]

    walk_round-Good :
        (gs : List ℕ) (w : Walk) → Good w.visited → Good gs → Good (walk_round parents w gs).visited
    unfolding walk_round
    walk_round-Good [] w h k = h
    walk_round-Good (g ∷ gs) w h k =
        walk_round-Good gs (visit_all w (parents g))
          (visit_all-Good (parents g) w h (λ n m. pass g n (k g (ground arith)) m))
          (λ n m. k n (ground arith))

    walk-Good :
        (fuel : ℕ) (visited frontier : List ℕ) {ids : List ℕ}
        → Good visited
        → Good frontier
        → walk parents fuel visited frontier ≡ some ids
        → Good ids
    unfolding walk
    walk-Good zero visited [] h k e = subst Good (some-injective _ _ e) h
    walk-Good zero visited (g ∷ gs) h k e = absurd (cc)
    walk-Good (suc fuel) visited [] h k e = subst Good (some-injective _ _ e) h
    walk-Good (suc fuel) visited (g ∷ gs) h k e =
        let start : Walk = record { visited = visited; next = [] } in
        let w = walk_round parents start (g ∷ gs) in
        let good = walk_round-Good (g ∷ gs) start h k in
        let grows = walk_round-Grows parents visited (g ∷ gs) start (start-Grows visited) in
        walk-Good fuel w.visited w.next good (λ n m. good n (grows.known n m)) e

  -- A visited group waits on the frontier, or all its parents have been visited.
  abbrev Closed : List ℕ → List ℕ → Type 0
  Closed visited frontier =
      (n : ℕ)
      → contains visited n ≡ true
      → (contains frontier n ≡ true) ⊎ Within (parents n) visited

  walk-Closed :
      (fuel : ℕ) (visited frontier : List ℕ) {ids : List ℕ}
      → Closed visited frontier
      → walk parents fuel visited frontier ≡ some ids
      → Within visited ids × Closed ids []
  unfolding walk
  walk-Closed zero visited [] h e =
      subst (λ ids. Within visited ids × Closed ids []) (some-injective _ _ e) (λ n m. m, h)
  walk-Closed zero visited (g ∷ gs) h e = absurd (cc)
  walk-Closed (suc fuel) visited [] h e =
      subst (λ ids. Within visited ids × Closed ids []) (some-injective _ _ e) (λ n m. m, h)
  walk-Closed (suc fuel) visited (g ∷ gs) h e =
      let start : Walk = record { visited = visited; next = [] } in
      let w = walk_round parents start (g ∷ gs) in
      let grows = walk_round-Grows parents visited (g ∷ gs) start (start-Grows visited) in
      let closed : Closed w.visited w.next = λ n m. elim (grows.split n m) [
        | inr new ↦ inl new
        | inl old ↦ elim (h n old) [
          | inl waiting ↦ inr (λ p k. walk_round_has parents (g ∷ gs) start n p waiting k)
          | inr done ↦ inr (λ p k. grows.keeps p (done p k))
        ]
      ] in
      let (within, rest) = walk-Closed fuel w.visited w.next closed e in
      (λ n m. within n (grows.keeps n m), rest)

-- Every group on the way up from `g` is in a closed list that has `g`.
IsAbove-Closed :
    (scope : Scope) (edges : List GroupHierarchyEdge) (g : ℕ) (ids : List ℕ) (n : ℕ)
    → contains ids g ≡ true
    → Closed (get_parent_group_ids scope edges) ids []
    → IsAbove scope edges g n
    → contains ids n ≡ true
IsAbove-Closed scope edges g ids n start closed self = start
IsAbove-Closed scope edges g ids n start closed (up {c = c} a l) =
    elim (closed c (IsAbove-Closed scope edges g ids c start closed a)) [
      | inl none_waits ↦ absurd (cc)
      | inr within ↦ within n (parents-Leads scope edges n c l)
    ]

-- `ancestor_group_ids` ends for every graph, cycles included, and returns exactly the groups that
-- are reached from the given one by edges of the domain, the group itself among them.
pub ancestor_group_ids_exact :
    (scope : Scope) (edges : List GroupHierarchyEdge) (g : ℕ)
    → (ids : List ℕ) × (ancestor_group_ids scope edges g ≡ some ids)
      × ((n : ℕ)
          → (contains ids n ≡ true → IsAbove scope edges g n)
            × (IsAbove scope edges g n → contains ids n ≡ true))
unfolding ancestor_group_ids
ancestor_group_ids_exact scope edges g =
    let (ids, e) = ancestor_group_ids_total scope edges g in
    let parents = get_parent_group_ids scope edges in
    let only_g : (n : ℕ) → contains (g ∷ []) n ≡ true → IsAbove scope edges g n =
      λ n m. subst (IsAbove scope edges g) ((==_iff g n).0 (ground arith)) self in
    let (within, closed) =
      walk-Closed parents (walk_fuel edges) (g ∷ []) (g ∷ []) (λ n m. inl m) e in
    (
      ids,
      e,
      λ n. (
        walk-Good parents (IsAbove scope edges g)
            (λ c p a m. up a (Leads-parents scope edges p c m)) (walk_fuel edges) (g ∷ []) (g ∷ [])
            only_g only_g e n,
        IsAbove-Closed scope edges g ids n (within g (ground arith)) closed,
      ),
    )
