-- ===== src/Borrows/Rules.antt =====
-- The conditions of the workflows in terms of the rows, apart from the tests of the code.
use mathlib.Core.Option.{some-injective}
use reservation_tool.Base.{
  ℕ, zero, suc, ◌≡◌, ◌≢◌, ◌<◌, ◌↔◌, ◌⊎◌, refl, sym, subst, ap, ◌∙◌, inl, inr, Bool, true, false,
  ◌&&◌, ◌||◌, Option, some, none, List, [], ◌∷◌, ◌==◌, ==_iff, arith, All, All-imp, find, find-none,
  contains, Bool-cases, ltb, both_values, none-some,
}
use reservation_tool.Core.Roles.{RoleName, role_in}
use reservation_tool.Core.Status.{
  SetupStatus, BorrowStatus, is_blocked, borrow_pending, borrow_completed,
}
use reservation_tool.Db.Rows.{Role, User, Setup, BorrowRequest, SetupAccessGrant}
use reservation_tool.Borrows.Access.{
  has_role, lead_roles, requester_roles, universal_roles, truthy, group_ids, active_for, is_open,
  get_active_grant_for_setup, get_open_for_setup, get_grant_for_borrow,
}
use reservation_tool.Borrows.Requests.{is_stale}

-- The window of a request that waits has ended.
abbrev pub Ended : ℕ → BorrowRequest → Type 0
Ended now b = (b.status ≡ BorrowStatus.pending) × (end : ℕ) × (b.end_time ≡ some end) × (end < now)

pub pending_iff : (s : BorrowStatus) → (borrow_pending s ≡ true) ↔ (s ≡ BorrowStatus.pending)
pending_iff s = ground arith

stale_from :
    (now : ℕ) (s : BorrowStatus) (o : Option ℕ)
    → (borrow_pending s && elim o as (λ _. Bool) [ none ↦ false | some end ↦ ltb end now ]) ≡ true
    → (s ≡ BorrowStatus.pending) × (end : ℕ) × (o ≡ some end) × (end < now)
stale_from now s none h = absurd (ground arith)
stale_from now s (some t) h = ((pending_iff s).0 (ground arith), t, refl, ground arith)

pub is_stale_iff : (now : ℕ) (b : BorrowRequest) → (is_stale now b ≡ true) ↔ Ended now b
is_stale_iff now b = (
  stale_from now b.status b.end_time,
  λ e.
      let (waits, t, at, past) = e in
      ap
        (λ s.
          borrow_pending s
          && elim b.end_time as (λ _. Bool) [ none ↦ false | some end ↦ ltb end now ])
        waits
      ∙ ap (λ (o : Option ℕ). elim o as (λ _. Bool) [ none ↦ false | some end ↦ ltb end now ]) at
      ∙ past_end t past,
)
  where
    past_end : (t : ℕ) → t < now → ltb t now ≡ true
    past_end t h = ground arith

pub is_stale_not : (now : ℕ) (b : BorrowRequest) → is_stale now b ≡ false → ¬ Ended now b
is_stale_not now b f e = both_values f ((is_stale_iff now b).1 e)

-- Neither in maintenance nor retired.
abbrev pub IsUsable : Setup → Type 0
IsUsable s = (s.status ≢ SetupStatus.maintenance) × (s.status ≢ SetupStatus.retired)

pub usable_iff :
    (s : SetupStatus)
    → (is_blocked s ≡ false) ↔ ((s ≢ SetupStatus.maintenance) × (s ≢ SetupStatus.retired))
usable_iff s = ground arith

-- No grant of the setup is in force.
abbrev pub IsUnlent : ℕ → List SetupAccessGrant → Type 0
IsUnlent setup = All (λ g. ¬ ((g.setup_id ≡ setup) × (g.is_active ≡ true)))

none-find : {A : Type 0} (p : A → Bool) (xs : List A) → All (λ x. p x ≡ false) xs → find p xs ≡ none
none-find p [] h = refl
none-find p (x ∷ xs) h = rw (h.0) (none-find p xs h.1)

pub find-none_iff :
    {A : Type 0} (P : A → Type 0) (p : A → Bool)
    → ((x : A) → (p x ≡ false) ↔ (¬ P x))
    → (xs : List A) → (find p xs ≡ none) ↔ All (λ x. ¬ P x) xs
find-none_iff P p k xs = (
  λ h. All-imp (λ x. p x ≡ false) (λ x. ¬ P x) (λ x. (k x).0) xs (find-none p xs h),
  λ h. none-find p xs (All-imp (λ x. ¬ P x) (λ x. p x ≡ false) (λ x. (k x).1) xs h),
)

pub IsUnlent-iff :
    (setup : ℕ) (grants : List SetupAccessGrant)
    → (get_active_grant_for_setup setup grants ≡ none) ↔ IsUnlent setup grants
IsUnlent-iff setup =
    find-none_iff (λ g. (g.setup_id ≡ setup) × (g.is_active ≡ true)) (active_for setup)
      (λ g. ground arith)

-- No grant was ever made for the request.
pub ungranted_iff :
    (key : ℕ) (grants : List SetupAccessGrant)
    → (get_grant_for_borrow key grants ≡ none) ↔ All (λ g. g.borrow_request_id ≢ key) grants
ungranted_iff key =
    find-none_iff (λ g. g.borrow_request_id ≡ key) (λ g. g.borrow_request_id == key)
      (λ g. ground arith)

-- Neither PENDING nor COMPLETED requests of the setup.
abbrev pub IsUnasked : ℕ → List BorrowRequest → Type 0
IsUnasked setup = All (λ b. ¬ (
    (b.setup_id ≡ setup)
    × ((b.status ≡ BorrowStatus.pending) ⊎ (b.status ≡ BorrowStatus.completed))))

open_iff :
    (s : BorrowStatus)
    → ((borrow_pending s || borrow_completed s) ≡ true)
      ↔ ((s ≡ BorrowStatus.pending) ⊎ (s ≡ BorrowStatus.completed))
open_iff s = ground arith

pub IsUnasked-iff :
    (setup : ℕ) (rows : List BorrowRequest)
    → (get_open_for_setup setup rows ≡ none) ↔ IsUnasked setup rows
IsUnasked-iff setup =
    find-none_iff
      (λ b.
        (b.setup_id ≡ setup)
        × ((b.status ≡ BorrowStatus.pending) ⊎ (b.status ≡ BorrowStatus.completed)))
      (λ b. b.setup_id == setup && is_open b) (λ b. ground (arith, open_iff b.status))

-- A user with a role of this name.
abbrev pub HasRole : (RoleName → Type 0) → User → Type 0
HasRole P u = (r : Role) × (u.role ≡ some r) × P r.name

role_by :
    (names : List RoleName) (P : RoleName → Type 0)
    → ((n : RoleName) → (role_in names n ≡ true) ↔ P n)
    → (o : Option Role)
    → (elim o as (λ _. Bool) [ none ↦ false | some r ↦ role_in names r.name ] ≡ true)
      ↔ ((r : Role) × (o ≡ some r) × P r.name)
role_by names P k none = (λ h. absurd (cc), λ h. let (r, e, p) = h in absurd (cc))
role_by names P k (some r) = (
  λ h. (r, refl, (k r.name).0 h),
  λ h.
      let (x, e, p) = h in
      (k r.name).1 (subst (λ (y : Role). P y.name) (sym (some-injective _ _ e)) p),
)

pub owner_iff :
    (u : User) → (has_role universal_roles u ≡ true) ↔ HasRole (λ n. n ≡ RoleName.owner) u
owner_iff u = role_by universal_roles (λ n. n ≡ RoleName.owner) (λ n. ground arith) u.role

-- A lead or a manager.
pub lead_iff :
    (u : User)
    → (has_role lead_roles u ≡ true) ↔ HasRole (λ n. (n ≡ RoleName.lead) ⊎ (n ≡ RoleName.manager)) u
lead_iff u =
    role_by lead_roles (λ n. (n ≡ RoleName.lead) ⊎ (n ≡ RoleName.manager)) (λ n. ground arith)
      u.role

pub requester_iff :
    (u : User)
    → (has_role requester_roles u ≡ true)
      ↔ HasRole (λ n. (n ≡ RoleName.lead) ⊎ ((n ≡ RoleName.manager) ⊎ (n ≡ RoleName.owner))) u
requester_iff u =
    role_by requester_roles
      (λ n. (n ≡ RoleName.lead) ⊎ ((n ≡ RoleName.manager) ⊎ (n ≡ RoleName.owner)))
      (λ n. ground arith) u.role

-- A member: of the primary group, which is not number 0, or of one of the others.
abbrev pub IsMember : User → ℕ → Type 0
IsMember u g = ((u.group_id ≡ some g) × (g ≢ 0)) ⊎ (contains u.groups g ≡ true)

abbrev pub Primary : Option ℕ → ℕ → Type 0
Primary o g = (o ≡ some g) × (g ≢ 0)

pub truthy_iff : (o : Option ℕ) (g : ℕ) → (truthy o ≡ some g) ↔ Primary o g
truthy_iff none g = (λ h. absurd (cc), λ h. absurd (cc))
truthy_iff (some zero) g = (λ h. absurd (cc), λ h. absurd (h.1 (sym (some-injective _ _ h.0))))
truthy_iff (some (suc n)) g = (λ h. (h, λ e. nonzero n (some-injective _ _ h ∙ e)), λ h. h.0)
  where
    nonzero : (n : ℕ) → suc n ≡ 0 → ⊥
    nonzero n e = omega arith

pub IsMember-iff : (u : User) (g : ℕ) → (contains (group_ids u) g ≡ true) ↔ IsMember u g
IsMember-iff u g = by (truthy u.group_id) refl
  where
    same : (k : ℕ) → k ≡ g → contains (k ∷ u.groups) g ≡ true
    same k e = ground arith

    by :
        (o : Option ℕ)
        → truthy u.group_id ≡ o
        → (contains (elim o as (λ _. List ℕ) [ none ↦ u.groups | some k ↦ k ∷ u.groups ]) g ≡ true)
          ↔ IsMember u g
    by none e = (
      λ h. inr h,
      λ m. elim m [
        | inl p ↦ absurd (none-some (sym e ∙ (truthy_iff u.group_id g).1 p))
        | inr h ↦ h
      ],
    )
    by (some k) e = (
      λ h. elim (Bool-cases (k == g)) [
        | inl t ↦ inl ((truthy_iff u.group_id g).0 (e ∙ ap some ((==_iff k g).0 t)))
        | inr f ↦ inr (ground arith)
      ],
      λ m. elim m [
        | inl p ↦ same k (some-injective _ _ (sym e ∙ (truthy_iff u.group_id g).1 p))
        | inr h ↦ ground arith
      ],
    )
