-- ===== src/Routing/Ancestors/Termination.antt =====
-- The fuel of the walk is enough: each round that finds a group uses up an edge.
use reservation_tool.Base.{
  ℕ, zero, suc, ◌+◌, ◌≤◌, ◌<◌, ◌≡◌, refl, ap, ==_iff, ◌⊎◌, inl, inr, true, false, some, List, [],
  ◌∷◌, ◌++◌, arith, ◌==◌, contains, Within, Bool-cases, length, map, if◌then◌else◌,
}
use reservation_tool.Core.Status.{Scope}
use reservation_tool.Db.Rows.{GroupHierarchyEdge}
use reservation_tool.Routing.{
  Walk, visit, visit_all, walk_round, walk, ancestor_group_ids, get_parent_group_ids, walk_fuel,
}

-- How many members of `pool` have not been visited.
unseen : List ℕ → List ℕ → ℕ
unseen visited [] = 0
unseen visited (p ∷ ps) = (if contains visited p then 0 else 1) + unseen visited ps

unseen-le : (visited pool : List ℕ) → unseen visited pool ≤ length pool
unfolding unseen
unseen-le visited [] = omega arith
unseen-le visited (p ∷ ps) = ground (arith, unseen-le visited ps)

unseen_mono : (p : ℕ) (visited pool : List ℕ) → unseen (p ∷ visited) pool ≤ unseen visited pool
unfolding unseen
unseen_mono p visited [] = omega arith
unseen_mono p visited (q ∷ qs) = ground (arith, unseen_mono p visited qs)

unseen_drops :
    (p : ℕ) (visited pool : List ℕ)
    → contains pool p ≡ true
    → contains visited p ≡ false
    → unseen (p ∷ visited) pool + 1 ≤ unseen visited pool
unfolding unseen
unseen_drops p visited [] h k = absurd (cc)
unseen_drops p visited (q ∷ qs) h k = elim (Bool-cases (q == p)) [
  | inl same ↦ ground (arith, unseen_mono p visited qs, ap (contains visited) ((==_iff q p).0 same))
  | inr other ↦ ground (arith, unseen_drops p visited qs)
]

length-snoc {ℓ} : {A : Type ℓ} (xs : List A) (a : A) → length (xs ++ a ∷ []) ≡ length xs + 1
length-snoc [] a = refl
length-snoc (x ∷ xs) a = omega (arith, length-snoc xs a)

enough : (ns : List ℕ) (u fuel : ℕ) → u + length ns ≤ fuel → (ns ≡ []) ⊎ (u < fuel)
enough [] u fuel h = inl refl
enough (n ∷ ns) u fuel h = inr (omega arith)

not_empty : {g : ℕ} {gs : List ℕ} {u fuel : ℕ} → (g ∷ gs ≡ []) ⊎ (u < suc fuel) → u ≤ fuel
not_empty (inl e) = absurd (cc)
not_empty (inr h) = omega arith

module _ (pool : List ℕ) where
  -- What is found is paid for by what was unseen.
  abbrev cost : Walk → ℕ
  cost w = unseen w.visited pool + length w.next

  visit_pays : (w : Walk) (p : ℕ) → contains pool p ≡ true → cost (visit w p) ≤ cost w
  unfolding visit
  visit_pays w p h = elim (Bool-cases (contains w.visited p)) [
    | inl old ↦ rw (old, visit) (omega arith)
    | inr new ↦
        rw (new, visit) (omega (arith, unseen_drops p w.visited pool h new, length-snoc w.next p))
  ]

  visit_all_pays : (ps : List ℕ) (w : Walk) → Within ps pool → cost (visit_all w ps) ≤ cost w
  unfolding visit_all
  visit_all_pays [] w h = omega arith
  visit_all_pays (p ∷ ps) w h = omega (
    arith,
    visit_pays w p (h p (ground arith)),
    visit_all_pays ps (visit w p) (λ n k. h n (ground arith)),
  )

  module _ (parents : ℕ → List ℕ) (inside : (g : ℕ) → Within (parents g) pool) where
    walk_round_pays : (gs : List ℕ) (w : Walk) → cost (walk_round parents w gs) ≤ cost w
    unfolding walk_round
    walk_round_pays [] w = omega arith
    walk_round_pays (g ∷ gs) w = omega (
      arith,
      visit_all_pays (parents g) w (inside g),
      walk_round_pays gs (visit_all w (parents g)),
    )

    walk_total :
        (fuel : ℕ) (visited frontier : List ℕ)
        → (frontier ≡ []) ⊎ (unseen visited pool < fuel)
        → (ids : List ℕ) × (walk parents fuel visited frontier ≡ some ids)
    unfolding walk
    walk_total zero visited [] h = (visited, refl)
    walk_total zero visited (g ∷ gs) h = absurd (ground arith)
    walk_total (suc fuel) visited [] h = (visited, refl)
    walk_total (suc fuel) visited (g ∷ gs) h =
        let start : Walk = record { visited = visited; next = [] } in
        let w = walk_round parents start (g ∷ gs) in
        walk_total fuel w.visited w.next (
          enough w.next (unseen w.visited pool) fuel
            (omega (arith, not_empty h, walk_round_pays (g ∷ gs) start)))

get_parent_group_ids-Within :
    (scope : Scope) (edges : List GroupHierarchyEdge) (g : ℕ)
    → Within (get_parent_group_ids scope edges g) (map (λ e. e.parent_group_id) edges)
unfolding get_parent_group_ids
get_parent_group_ids-Within scope [] g n h = absurd (cc)
get_parent_group_ids-Within scope (e ∷ es) g n h =
    ground (arith, get_parent_group_ids-Within scope es g n)

length-map {ℓ κ} :
    {A : Type ℓ} {B : Type κ} (f : A → B) (xs : List A) → length (map f xs) ≡ length xs
length-map f [] = refl
length-map f (x ∷ xs) = ap suc (length-map f xs)

-- The walk from any group ends within its fuel, whatever the edges are: cycles included.
pub ancestor_group_ids_total :
    (scope : Scope) (edges : List GroupHierarchyEdge) (g : ℕ)
    → (ids : List ℕ) × (ancestor_group_ids scope edges g ≡ some ids)
unfolding ancestor_group_ids
ancestor_group_ids_total scope edges g =
    let pool : List ℕ = map (λ e. e.parent_group_id) edges in
    walk_total pool (get_parent_group_ids scope edges) (get_parent_group_ids-Within scope edges)
      (walk_fuel edges) (g ∷ []) (g ∷ [])
      (inr (
        omega (
          arith,
          unseen-le (g ∷ []) pool,
          length-map (λ (e : GroupHierarchyEdge). e.parent_group_id) edges,
        )))
