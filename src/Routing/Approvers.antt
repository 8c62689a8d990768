-- ===== src/Routing/Approvers.antt =====
-- Who may approve: the users that the two resolutions return.
use reservation_tool.Base.{
  ℕ, ◌≡◌, refl, ◌⊎◌, ◌↔◌, inl, inr, true, some, List, [], ◌∷◌, arith, ◌==◌, contains,
  contains-append, Bool-cases, Option-cases, select_sound, select-complete, Memᴰ,
}
use reservation_tool.Core.Roles.{RoleName, role_in}
use reservation_tool.Core.Status.{Scope, UserStatus, user_approved}
use reservation_tool.Db.Rows.{Role, User, GroupHierarchyEdge}
use reservation_tool.Routing.{
  is_approver, approver_role_names, list_active_by_group_ids_and_roles, resolve_swap_approvers,
  resolve_borrow_approvers, borrow_group_ids, children_of, get_parent_group_ids,
  get_child_group_ids,
}
use reservation_tool.Routing.Edges.{
  Leads, Leads-parents, parents-Leads, Leads-children, children-Leads,
}
use reservation_tool.Routing.Ancestors.Closure.{IsAbove, ancestor_group_ids_exact}

-- An active, approved Lead or Manager of a group for which `P` holds.
pub record Approves (P : ℕ → Type 0) (u : User) : Type 0 where
  pub group : ℕ
  pub primary : u.group_id ≡ some group
  pub in_scope : P group
  pub approved : u.status ≡ UserStatus.approved
  pub active : u.is_active ≡ true
  pub role : Role
  pub held : u.role ≡ some role
  pub leads : (role.name ≡ RoleName.lead) ⊎ (role.name ≡ RoleName.manager)

approved_iff : (s : UserStatus) → (user_approved s ≡ true) ↔ (s ≡ UserStatus.approved)
approved_iff UserStatus.approved = (λ h. refl, λ h. refl)
approved_iff UserStatus.pending = (λ h. absurd (cc), λ h. ground arith)
approved_iff UserStatus.rejected = (λ h. absurd (cc), λ h. ground arith)
approved_iff UserStatus.disabled = (λ h. absurd (cc), λ h. ground arith)

leads_iff :
    (n : RoleName)
    → (role_in approver_role_names n ≡ true) ↔ ((n ≡ RoleName.lead) ⊎ (n ≡ RoleName.manager))
leads_iff n = (λ h. ground arith, λ h. ground arith)

-- The query returns the approvers of the listed groups.
is_approver-Approves :
    (ids : List ℕ) (u : User)
    → is_approver ids approver_role_names u ≡ true
    → Approves (λ g. contains ids g ≡ true) u
is_approver-Approves ids u h = elim (Option-cases u.group_id) [
  | inl none_at_all ↦ absurd (ground arith)
  | inr (g, eg) ↦ elim (Option-cases u.role) [
    | inl none_held ↦ absurd (ground arith)
    | inr (r, er) ↦ record {
      group = g;
      primary = eg;
      in_scope = ground arith;
      approved = (approved_iff u.status).0 (ground arith);
      active = ground arith;
      role = r;
      held = er;
      leads = (leads_iff r.name).0 (ground arith);
    }
  ]
]

Approves-is_approver :
    (ids : List ℕ) (u : User)
    → Approves (λ g. contains ids g ≡ true) u
    → is_approver ids approver_role_names u ≡ true
Approves-is_approver ids u a = ground (
  arith,
  a.primary,
  a.in_scope,
  (approved_iff u.status).1 a.approved,
  a.active,
  a.held,
  (leads_iff a.role.name).1 a.leads,
)

Approves-imp : {P Q : ℕ → Type 0} {u : User} → ((g : ℕ) → P g → Q g) → Approves P u → Approves Q u
Approves-imp f a = record {
  group = a.group;
  primary = a.primary;
  in_scope = f a.group a.in_scope;
  approved = a.approved;
  active = a.active;
  role = a.role;
  held = a.held;
  leads = a.leads;
}

listed_iff :
    (P : ℕ → Type 0) (ids : List ℕ) (users : List User)
    → ((g : ℕ) → (contains ids g ≡ true) ↔ P g)
    → (u : User)
    → Memᴰ u (list_active_by_group_ids_and_roles ids approver_role_names users)
      ↔ (Memᴰ u users × Approves P u)
unfolding list_active_by_group_ids_and_roles
listed_iff P ids users same u = (
  λ m.
      let (inside, h) = select_sound (is_approver ids approver_role_names) u users m in
      (inside, Approves-imp (λ g. (same g).0) (is_approver-Approves ids u h)),
  λ a.
      select-complete (is_approver ids approver_role_names) u users a.0
        (Approves-is_approver ids u (Approves-imp (λ g. (same g).1) a.1)),
)

-- The approvers of a swap on a setup of group `g`: the resolution ends, and returns exactly the
-- active, approved Leads and Managers of `g` and of every group above it in the SWAP domain.
pub resolve_swap_approvers_exact :
    (edges : List GroupHierarchyEdge) (users : List User) (g : ℕ)
    → (approvers : List User) × (resolve_swap_approvers edges users (some g) ≡ some approvers)
      × ((u : User) → Memᴰ u approvers ↔ (Memᴰ u users × Approves (IsAbove Scope.swap edges g) u))
unfolding resolve_swap_approvers
resolve_swap_approvers_exact edges users g =
    let (ids, e, same) = ancestor_group_ids_exact Scope.swap edges g in
    (
      list_active_by_group_ids_and_roles ids approver_role_names users,
      rw (e, resolve_swap_approvers) refl,
      listed_iff (IsAbove Scope.swap edges g) ids users same,
    )

-- The groups that a borrow from `g` concerns: `g`, a direct parent, or a child of such a parent.
abbrev pub Concerned : List GroupHierarchyEdge → ℕ → ℕ → Type 0
Concerned edges g n =
    (g ≡ n)
    ⊎ (Leads Scope.borrow edges n g
        ⊎ ((p : ℕ) × Leads Scope.borrow edges p g × Leads Scope.borrow edges p n))

children_of-find :
    (edges : List GroupHierarchyEdge) (ps : List ℕ) (n : ℕ)
    → contains (children_of edges ps) n ≡ true
    → (p : ℕ) × (contains ps p ≡ true)
      × (contains (get_child_group_ids Scope.borrow edges p) n ≡ true)
unfolding children_of
children_of-find edges [] n h = absurd (cc)
children_of-find edges (p ∷ ps) n h =
    elim (Bool-cases (contains (get_child_group_ids Scope.borrow edges p) n)) [
      | inl mine ↦ (p, ground arith, mine)
      | inr other ↦
          let (q, inside, found) = children_of-find edges ps n (
            ground (
              arith,
              contains-append (get_child_group_ids Scope.borrow edges p) (children_of edges ps) n,
            )) in
          (q, ground arith, found)
    ]

find-children_of :
    (edges : List GroupHierarchyEdge) (ps : List ℕ) (p n : ℕ)
    → contains ps p ≡ true
    → contains (get_child_group_ids Scope.borrow edges p) n ≡ true
    → contains (children_of edges ps) n ≡ true
unfolding children_of
find-children_of edges [] p n h k = absurd (cc)
find-children_of edges (q ∷ ps) p n h k = ground (
  arith,
  find-children_of edges ps p n,
  contains-append (get_child_group_ids Scope.borrow edges q) (children_of edges ps) n,
)

borrow_group_ids_iff :
    (edges : List GroupHierarchyEdge) (g n : ℕ)
    → (contains (borrow_group_ids edges g) n ≡ true) ↔ Concerned edges g n
unfolding borrow_group_ids
borrow_group_ids_iff edges g n =
    let parents = get_parent_group_ids Scope.borrow edges g in
    let both = contains-append parents (children_of edges parents) n in
    (
      λ h. elim (Bool-cases (g == n)) [
        | inl own ↦ inl (ground arith)
        | inr other ↦ elim (Bool-cases (contains parents n)) [
          | inl parent ↦ inr (inl (Leads-parents Scope.borrow edges n g parent))
          | inr neither ↦
              let (p, up, down) = children_of-find edges parents n (ground (arith, both)) in
              inr (
                inr (
                  p,
                  Leads-parents Scope.borrow edges p g up,
                  Leads-children Scope.borrow edges p n down,
                ))
        ]
      ],
      λ c. elim c [
        | inl own ↦ ground arith
        | inr (inl parent) ↦ ground (arith, both, parents-Leads Scope.borrow edges n g parent)
        | inr (inr (p, up, down)) ↦ ground (
          arith,
          both,
          find-children_of edges parents p n (parents-Leads Scope.borrow edges p g up)
              (children-Leads Scope.borrow edges p n down),
        )
      ],
    )

-- The approvers of a borrow from group `g` are exactly the active, approved Leads and Managers of
-- `g`, of its direct parents in the BORROW domain, and of the groups that share such a parent.
pub resolve_borrow_approvers_exact :
    (edges : List GroupHierarchyEdge) (users : List User) (g : ℕ) (u : User)
    → Memᴰ u (resolve_borrow_approvers edges users (some g))
      ↔ (Memᴰ u users × Approves (Concerned edges g) u)
unfolding resolve_borrow_approvers
resolve_borrow_approvers_exact edges users g =
    listed_iff (Concerned edges g) (borrow_group_ids edges g) users (borrow_group_ids_iff edges g)
