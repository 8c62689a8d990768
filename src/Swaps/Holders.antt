-- ===== src/Swaps/Holders.antt =====
-- Which groups hold a setup, and who may raise a swap of it.
use reservation_tool.Base.{
  ℕ, zero, suc, ◌≡◌, ◌↔◌, ◌⊎◌, refl, sym, ap, ◌∙◌, inl, inr, true, false, not, ◌&&◌, Option, none,
  some, List, [], ◌∷◌, map, select, ◌==◌, ==_iff, arith, All-imp, select_sound, select-complete,
  select-nil, select-none, contains, Memᴰ, Bool-cases, both_values, none-some,
}
use mathlib.Core.Option.{some-injective}
use reservation_tool.Core.Roles.{RoleName}
use reservation_tool.Core.Errors.{AppError, ok, raise_if}
use reservation_tool.Db.Rows.{User, Setup, SetupAccessGrant, Db}
use reservation_tool.Borrows.Access.{
  has_role, universal_roles, truthy, group_ids, active_for, get_active_grant_group_ids,
}
use reservation_tool.Borrows.Rules.{
  IsUnlent, HasRole, owner_iff, IsMember, IsMember-iff, Primary, truthy_iff,
}
use reservation_tool.Swaps.Access.{holding_groups, meets, is_nil, assert_has_setup_access}

-- The group has an active grant of the setup.
abbrev pub IsLentTo : Db → Setup → ℕ → Type 0
IsLentTo db s g =
    (x : SetupAccessGrant) × Memᴰ x db.grants
    × (x.setup_id ≡ s.id)
    × (x.is_active ≡ true)
    × (x.granted_to_group_id ≡ g)

-- The group holds the setup: it is lent to it, or it is lent to none and is the group's own.
abbrev pub Holds : Db → Setup → ℕ → Type 0
Holds db s g = IsLentTo db s g ⊎ (IsUnlent s.id db.grants × Primary s.group_id g)

-- No group holds the setup.
abbrev pub IsUnheld : Db → Setup → Type 0
IsUnheld db s = IsUnlent s.id db.grants × ((s.group_id ≡ none) ⊎ (s.group_id ≡ some 0))

-- An owner, anyone where no group holds the setup, and the members of the groups that hold it.
abbrev pub MayRaise : Db → Setup → User → Type 0
MayRaise db s u =
    HasRole (λ n. n ≡ RoleName.owner) u ⊎ (IsUnheld db s ⊎ ((g : ℕ) × Holds db s g × IsMember u g))

in_map :
    {A : Type 0} (g : A → ℕ) (xs : List A) (n : ℕ) (y : A)
    → Memᴰ y xs
    → g y ≡ n
    → contains (map g xs) n ≡ true
in_map g [] n y m same = elim m [ ]
in_map g (x ∷ xs) n y (Memᴰ.head e) same = rw ((==_iff (g x) n).1 (ap g (sym e) ∙ same)) refl
in_map g (x ∷ xs) n y (Memᴰ.tail m) same = let rest = in_map g xs n y m same in ground arith

contains-map :
    {A : Type 0} (g : A → ℕ) (xs : List A) (n : ℕ)
    → (contains (map g xs) n ≡ true) ↔ ((x : A) × Memᴰ x xs × (g x ≡ n))
contains-map g [] n = (λ h. absurd (cc), λ h. elim h.1 [ ])
contains-map g (x ∷ xs) n = (
  λ h. elim (Bool-cases (g x == n)) [
    | inl t ↦ (x, Memᴰ.head refl, (==_iff (g x) n).0 t)
    | inr f ↦ let (y, m, e) = (contains-map g xs n).0 (rw f at h) in (y, Memᴰ.tail m, e)
  ],
  λ h. in_map g (x ∷ xs) n h.0 h.1 h.2,
)

nonempty : {g : ℕ} {gs : List ℕ} → g ∷ gs ≡ [] → ⊥
nonempty e = cc

-- The groups with an active grant.
lent_iff :
    (key : ℕ) (gs : List SetupAccessGrant) (g : ℕ)
    → (contains (get_active_grant_group_ids key gs) g ≡ true) ↔ (
        (x : SetupAccessGrant) × Memᴰ x gs
        × (x.setup_id ≡ key)
        × (x.is_active ≡ true)
        × (x.granted_to_group_id ≡ g))
lent_iff key gs g = (
  λ h.
      let (x, m, e) =
        (contains-map (λ x. x.granted_to_group_id) (select (active_for key) gs) g).0 h in
      let (inside, on) = select_sound (active_for key) x gs m in
      (x, inside, ground arith, ground arith, e),
  λ h.
      let (x, m, at, on, e) = h in
      (contains-map (λ x. x.granted_to_group_id) (select (active_for key) gs) g).1
        (x, select-complete (active_for key) x gs m (ground arith), e),
)

IsUnlent-nil :
    (key : ℕ) (gs : List SetupAccessGrant)
    → (get_active_grant_group_ids key gs ≡ []) ↔ IsUnlent key gs
IsUnlent-nil key gs = (
  λ h.
      All-imp (λ x. active_for key x ≡ false) (λ x. ¬ ((x.setup_id ≡ key) × (x.is_active ≡ true)))
        (λ x off on. ground arith) gs
        (select-nil (active_for key) gs (map_nil (select (active_for key) gs) h)),
  λ h. ap (map (λ x. x.granted_to_group_id)) (
      select-none (active_for key) gs (
        All-imp (λ x. ¬ ((x.setup_id ≡ key) × (x.is_active ≡ true))) (λ x. active_for key x ≡ false)
          (λ x off. ground (arith, off)) gs h)),
)
  where
    map_nil : (xs : List SetupAccessGrant) → map (λ x. x.granted_to_group_id) xs ≡ [] → xs ≡ []
    map_nil [] h = refl
    map_nil (x ∷ xs) h = absurd (cc)

-- The own group where no other holds the setup.
abbrev own : Option ℕ → List ℕ
own o = elim (truthy o) [ none ↦ [] | some g ↦ g ∷ [] ]

own_iff : (o : Option ℕ) (g : ℕ) → (contains (own o) g ≡ true) ↔ Primary o g
own_iff o g = by (truthy o) refl
  where
    by :
        (t : Option ℕ)
        → truthy o ≡ t
        → (contains (elim t as (λ _. List ℕ) [ none ↦ [] | some k ↦ k ∷ [] ]) g ≡ true)
          ↔ Primary o g
    by none e = (λ h. absurd (cc), λ p. absurd (none-some (sym e ∙ (truthy_iff o g).1 p)))
    by (some k) e = (
      λ h. (truthy_iff o g).0 (e ∙ ap some ((==_iff k g).0 (ground arith))),
      λ p.
          let same = (==_iff k g).1 (some-injective _ _ (sym e ∙ (truthy_iff o g).1 p)) in
          ground arith,
    )

own_nil : (o : Option ℕ) → (own o ≡ []) ↔ ((o ≡ none) ⊎ (o ≡ some 0))
own_nil none = (λ h. inl refl, λ h. refl)
own_nil (some zero) = (λ h. inr refl, λ h. refl)
own_nil (some (suc n)) = (
  λ h. absurd (cc),
  λ h. elim h [ inl e ↦ absurd (cc) | inr e ↦ absurd (nonzero n (some-injective _ _ e)) ],
)
  where
    nonzero : (n : ℕ) → suc n ≡ 0 → ⊥
    nonzero n e = omega arith

module _ (db : Db) (s : Setup) where
  -- Either some group has it on loan, or the own group decides.
  by_loan :
      ((g : ℕ) × (gs : List ℕ) × (get_active_grant_group_ids s.id db.grants ≡ g ∷ gs)
        × (holding_groups db s ≡ g ∷ gs))
      ⊎ ((get_active_grant_group_ids s.id db.grants ≡ []) × (holding_groups db s ≡ own s.group_id))
  unfolding holding_groups
  by_loan = by (get_active_grant_group_ids s.id db.grants) refl
    where
      by :
          (l : List ℕ)
          → get_active_grant_group_ids s.id db.grants ≡ l
          → ((g : ℕ) × (gs : List ℕ) × (get_active_grant_group_ids s.id db.grants ≡ g ∷ gs)
              × ((elim l as (λ _. List ℕ) [ g ∷ gs ↦ g ∷ gs | [] ↦ own s.group_id ]) ≡ g ∷ gs))
            ⊎ ((get_active_grant_group_ids s.id db.grants ≡ [])
                × ((elim l as (λ _. List ℕ) [ g ∷ gs ↦ g ∷ gs | [] ↦ own s.group_id ])
                    ≡ own s.group_id))
      by [] e = inr (e, refl)
      by (g ∷ gs) e = inl (g, gs, e, refl)

  holding_iff : (g : ℕ) → (contains (holding_groups db s) g ≡ true) ↔ Holds db s g
  holding_iff g = elim by_loan [
    | inl (k, ks, lent, held) ↦ (
      λ h. inl ((lent_iff s.id db.grants g).0 (ap (λ l. contains l g) (lent ∙ sym held) ∙ h)),
      λ h. elim h [
        | inl x ↦ ap (λ l. contains l g) (held ∙ sym lent) ∙ (lent_iff s.id db.grants g).1 x
        | inr x ↦ absurd (nonempty (sym lent ∙ (IsUnlent-nil s.id db.grants).1 x.0))
      ],
    )
    | inr (unlent, held) ↦ (
      λ h. inr (
        (IsUnlent-nil s.id db.grants).0 unlent,
        (own_iff s.group_id g).0 (ap (λ l. contains l g) (sym held) ∙ h),
      ),
      λ h. elim h [
        | inl x ↦
            absurd (both_values (ap (λ l. contains l g) unlent) ((lent_iff s.id db.grants g).1 x))
        | inr x ↦ ap (λ l. contains l g) held ∙ (own_iff s.group_id g).1 x.1
      ],
    )
  ]

  IsUnheld-iff : (holding_groups db s ≡ []) ↔ IsUnheld db s
  IsUnheld-iff = elim by_loan [
    | inl (k, ks, lent, held) ↦ (
      λ h. absurd (nonempty (sym held ∙ h)),
      λ h. absurd (nonempty (sym lent ∙ (IsUnlent-nil s.id db.grants).1 h.0)),
    )
    | inr (unlent, held) ↦ (
      λ h. ((IsUnlent-nil s.id db.grants).0 unlent, (own_nil s.group_id).0 (sym held ∙ h)),
      λ h. held ∙ (own_nil s.group_id).1 h.1,
    )
  ]

common_group :
    (xs ys : List ℕ)
    → meets xs ys ≡ true
    → (g : ℕ) × (contains xs g ≡ true) × (contains ys g ≡ true)
common_group [] ys h = absurd (cc)
common_group (x ∷ xs) ys h = elim (Bool-cases (contains ys x)) [
  | inl t ↦ (x, ground (arith, (==_iff x x).1 refl), t)
  | inr f ↦ let (g, here, there) = common_group xs ys (ground arith) in (g, ground arith, there)
]

meets_common :
    (xs ys : List ℕ) (g : ℕ) → contains xs g ≡ true → contains ys g ≡ true → meets xs ys ≡ true
meets_common [] ys g h k = h
meets_common (x ∷ xs) ys g h k = ground (arith, ==_iff x g, meets_common xs ys g)

raised_iff :
    (db : Db) (s : Setup) (u : User)
    → (MayRaise db s u) ↔ (
        (has_role universal_roles u ≡ true)
        ⊎ ((holding_groups db s ≡ [])
            ⊎ ((g : ℕ) × (contains (holding_groups db s) g ≡ true)
                × (contains (group_ids u) g ≡ true))))
raised_iff db s u = (
  λ m. elim m [
    | inl o ↦ inl ((owner_iff u).1 o)
    | inr (inl e) ↦ inr (inl ((IsUnheld-iff db s).1 e))
    | inr (inr k) ↦ inr (inr (k.0, (holding_iff db s k.0).1 k.1, (IsMember-iff u k.0).1 k.2))
  ],
  λ m. elim m [
    | inl o ↦ inl ((owner_iff u).0 o)
    | inr (inl e) ↦ inr (inl ((IsUnheld-iff db s).0 e))
    | inr (inr k) ↦ inr (inr (k.0, (holding_iff db s k.0).0 k.1, (IsMember-iff u k.0).0 k.2))
  ],
)

pub assert_has_setup_access_iff :
    (db : Db) (s : Setup) (u : User) → (assert_has_setup_access db s u ≡ ok tt) ↔ MayRaise db s u
unfolding assert_has_setup_access
assert_has_setup_access_iff db s u = (
  λ h. (raised_iff db s u).1 (elim (Bool-cases (has_role universal_roles u)) [
    | inl t ↦ inl t
    | inr f ↦ inr (member (holding_groups db s) (rw f at h))
  ]),
  λ m. elim ((raised_iff db s u).0 m) [
    | inl t ↦ rw t refl
    | inr k ↦ elim (Bool-cases (has_role universal_roles u)) [
      | inl t ↦ rw t refl
      | inr f ↦ rw f (allowed (holding_groups db s) k)
    ]
  ],
)
  where
    member :
        (gs : List ℕ)
        → raise_if (not (is_nil gs) && not (meets gs (group_ids u))) AppError.authorization ≡ ok tt
        → (gs ≡ []) ⊎ ((g : ℕ) × (contains gs g ≡ true) × (contains (group_ids u) g ≡ true))
    member [] h = inl refl
    member (x ∷ xs) h = inr (common_group (x ∷ xs) (group_ids u) (ground arith))

    allowed :
        (gs : List ℕ)
        → (gs ≡ []) ⊎ ((g : ℕ) × (contains gs g ≡ true) × (contains (group_ids u) g ≡ true))
        → raise_if (not (is_nil gs) && not (meets gs (group_ids u))) AppError.authorization ≡ ok tt
    allowed gs (inl e) = rw e refl
    allowed gs (inr (g, here, there)) = ground (arith, meets_common gs (group_ids u) g here there)
