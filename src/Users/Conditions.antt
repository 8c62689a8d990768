-- ===== src/Users/Conditions.antt =====
-- The conditions of a decision on a registration, and what it makes of the account.
use reservation_tool.Base.{
  ℕ, ◌≡◌, refl, sym, subst, ap, ◌∙◌, ◌↔◌, ◌⊎◌, inl, inr, Bool, true, false, not, Option, none, some,
  ◌&&◌, arith, [], ◌∷◌, ==_iff, Bool-cases, both_values, none-some,
}
use mathlib.Core.Option.{some-injective}
use reservation_tool.Core.Roles.{RoleName, role_in}
use reservation_tool.Core.Status.{UserStatus}
use reservation_tool.Core.Errors.{
  Result, ok, ◌>>=◌, >>=-eq-ok, raise_if-eq-ok, or_raise-eq-ok, ok-injective,
}
use reservation_tool.Core.Settings.{Env}
use reservation_tool.Db.Rows.{Role, User, Db}
use reservation_tool.Users.{UserApprovalRequest, get_user, get_role_by_name, user_pending}
use reservation_tool.Users.Judging.{is_scoped, outside, granted_role, judged, approval_checks}

-- What the guards of a decision establish about the account and the decider.
pub record Passes (key : ℕ) (p : UserApprovalRequest) (actor : User) (db : Db) (u : User)
    (role : Option Role) : Type 0 where
  pub found : get_user key db.users ≡ some u
  pub waiting : user_pending u.status ≡ true
  pub mine : Role
  pub has_role : actor.role ≡ some mine
  pub in_scope : (is_scoped mine && outside u.group_id actor.group_id) ≡ false
  pub role_found : granted_role p db.roles ≡ ok role

pub approval_checks-Passes :
    (key : ℕ) (p : UserApprovalRequest) (actor : User) (db : Db) {q : User × Option Role}
    → approval_checks key p actor db ≡ ok q
    → Passes key p actor db q.0 q.1
unfolding approval_checks
approval_checks-Passes key p actor db h =
    let (u, found, h1) = or_raise-eq-ok (get_user key db.users) _ _ h in
    let (waiting, h2) = raise_if-eq-ok (not (user_pending u.status)) _ _ h1 in
    let (mine, has_role, h3) = or_raise-eq-ok actor.role _ _ h2 in
    let (in_scope, h4) =
      raise_if-eq-ok (is_scoped mine && outside u.group_id actor.group_id) _ _ h3 in
    let (role, role_found, h5) = >>=-eq-ok (granted_role p db.roles) _ h4 in
    subst (λ x. Passes key p actor db x.0 x.1) (ok-injective h5)
      (record {
        found = found;
        waiting = ground arith;
        mine = mine;
        has_role = has_role;
        in_scope = in_scope;
        role_found = role_found;
      })

pub Passes-approval_checks :
    (key : ℕ) (p : UserApprovalRequest) (actor : User) (db : Db) {u : User} {role : Option Role}
    → Passes key p actor db u role
    → approval_checks key p actor db ≡ ok (u, role)
unfolding approval_checks
Passes-approval_checks key p actor db j =
    rw (j.found, j.waiting, j.has_role, j.in_scope, j.role_found) refl

-- An owner, a manager, or someone of the account's own group, with a role.
abbrev pub MayJudge : User → User → Type 0
MayJudge actor u =
    (mine : Role) × (actor.role ≡ some mine)
    × ((mine.name ≡ RoleName.owner)
        ⊎ ((mine.name ≡ RoleName.manager)
            ⊎ ((g : ℕ) × (u.group_id ≡ some g) × (actor.group_id ≡ some g))))

-- The role that is asked for, or BOT.
abbrev pub Asks : Option RoleName → RoleName → Type 0
Asks o n = (o ≡ some n) ⊎ ((o ≡ none) × (n ≡ RoleName.bot))

-- The account after an approval, or after a refusal.
abbrev pub Judged : Env → UserApprovalRequest → User → Db → User → User → Type 0
Judged env p actor db u r =
    ((p.approve ≡ true)
      × (n : RoleName) × (role : Role) × Asks p.role_name n
      × (get_role_by_name n db.roles ≡ ok role)
      × (r ≡ record u {
        status = UserStatus.approved;
        role = some role;
        approved_by_id = some actor.id;
        approved_at = some env.now;
      }))
    ⊎ ((p.approve ≡ false) × (r ≡ record u { status = UserStatus.rejected; is_active = false }))

user_pending_iff : (s : UserStatus) → (user_pending s ≡ true) ↔ (s ≡ UserStatus.pending)
user_pending_iff s = ground arith

unscoped_iff :
    (n : RoleName)
    → (not (role_in (RoleName.owner ∷ RoleName.manager ∷ []) n) ≡ false)
      ↔ ((n ≡ RoleName.owner) ⊎ (n ≡ RoleName.manager))
unscoped_iff n = ground arith

inside_iff :
    (theirs mine : Option ℕ)
    → (outside theirs mine ≡ false) ↔ ((g : ℕ) × (theirs ≡ some g) × (mine ≡ some g))
inside_iff none mine = (λ h. absurd (ground arith), λ h. absurd (cc))
inside_iff (some a) none = (λ h. absurd (cc), λ h. absurd (cc))
inside_iff (some a) (some b) = (
  λ h. (a, refl, ap some ((==_iff b a).0 (ground arith))),
  λ h.
      let (g, e, f) = h in
      let same = (==_iff a b).1 (some-injective _ _ (e ∙ sym f)) in ground arith,
)

scope_iff :
    (mine : Role) (theirs ours : Option ℕ)
    → ((is_scoped mine && outside theirs ours) ≡ false) ↔ (
        (mine.name ≡ RoleName.owner)
        ⊎ ((mine.name ≡ RoleName.manager) ⊎ ((g : ℕ) × (theirs ≡ some g) × (ours ≡ some g))))
scope_iff mine theirs ours = (
  λ h. elim (Bool-cases (is_scoped mine)) [
    | inl t ↦ inr (inr ((inside_iff theirs ours).0 (rw t at h)))
    | inr f ↦ elim ((unscoped_iff mine.name).0 f) [ inl o ↦ inl o | inr m ↦ inr (inl m) ]
  ],
  λ h. elim h [
    | inl o ↦ rw ((unscoped_iff mine.name).1 (inl o)) refl
    | inr (inl m) ↦ rw ((unscoped_iff mine.name).1 (inr m)) refl
    | inr (inr k) ↦ either (is_scoped mine) ((inside_iff theirs ours).1 k)
  ],
)
  where
    either : (b : Bool) {c : Bool} → c ≡ false → (b && c) ≡ false
    either b e = ground arith

pub Passes-iff :
    (key : ℕ) (p : UserApprovalRequest) (actor : User) (db : Db) (u : User) (role : Option Role)
    → Passes key p actor db u role ↔ (
        (get_user key db.users ≡ some u)
        × (u.status ≡ UserStatus.pending)
        × MayJudge actor u
        × (granted_role p db.roles ≡ ok role))
Passes-iff key p actor db u role = (
  λ j. (
    j.found,
    (user_pending_iff u.status).0 j.waiting,
    (j.mine, j.has_role, (scope_iff j.mine u.group_id actor.group_id).0 j.in_scope),
    j.role_found,
  ),
  λ h.
      let (found, waits, (mine, has_role, scope), granted) = h in
      record {
        found = found;
        waiting = (user_pending_iff u.status).1 waits;
        mine = mine;
        has_role = has_role;
        in_scope = (scope_iff mine u.group_id actor.group_id).1 scope;
        role_found = granted;
      },
)

-- What the code stores, with the role it has looked up, is what the decision promises.
pub judged_iff :
    (env : Env) (p : UserApprovalRequest) (actor : User) (db : Db) (u r : User)
    → ((role : Option Role) × (granted_role p db.roles ≡ ok role) × (r ≡ judged env actor role u))
      ↔ Judged env p actor db u r
judged_iff env p actor db u r = by p.approve p.role_name
  where
    looked :
        (o : Option RoleName) {x : Option Role}
        → (elim o as (λ _. Result Role) [
          | none ↦ get_role_by_name RoleName.bot db.roles
          | some n ↦ get_role_by_name n db.roles
        ]
            >>= λ y. ok (some y))
          ≡ ok x
        → (n : RoleName) × (role : Role) × Asks o n
          × (get_role_by_name n db.roles ≡ ok role)
          × (x ≡ some role)
    looked none h =
        let (role, found, same) = >>=-eq-ok (get_role_by_name RoleName.bot db.roles) _ h in
        (RoleName.bot, role, inr (refl, refl), found, sym (ok-injective same))
    looked (some n) h =
        let (role, found, same) = >>=-eq-ok (get_role_by_name n db.roles) _ h in
        (n, role, inl refl, found, sym (ok-injective same))

    look :
        (o : Option RoleName) (n : RoleName) (role : Role)
        → Asks o n
        → get_role_by_name n db.roles ≡ ok role
        → (elim o as (λ _. Result Role) [
          | none ↦ get_role_by_name RoleName.bot db.roles
          | some m ↦ get_role_by_name m db.roles
        ]
            >>= λ y. ok (some y))
          ≡ ok (some role)
    look none n role (inl e) found = absurd (none-some e)
    look none n role (inr e) found =
        ap (λ x. x >>= λ y. ok (some y)) (ap (λ m. get_role_by_name m db.roles) (sym (e.1)) ∙ found)
    look (some m) n role (inl e) found =
        ap (λ x. x >>= λ y. ok (some y))
          (ap (λ k. get_role_by_name k db.roles) (some-injective _ _ e) ∙ found)
    look (some m) n role (inr e) found = absurd (none-some (sym e.0))

    by :
        (b : Bool) (o : Option RoleName)
        → ((role : Option Role) × (granted_role (record p { approve = b; role_name = o }) db.roles
              ≡ ok role)
            × (r ≡ judged env actor role u))
          ↔ Judged env (record p { approve = b; role_name = o }) actor db u r
    by true o = (
      λ h.
          let (x, granted, same) = h in
          let (n, role, asks, found, is) = looked o granted in
          inl (refl, n, role, asks, found, same ∙ ap (λ y. judged env actor y u) is),
      λ h. elim h [
        | inl (_, n, role, asks, found, same) ↦ (some role, look o n role asks found, same)
        | inr k ↦ absurd (both_values k.0 refl)
      ],
    )
    by false o = (
      λ h.
          let (x, granted, same) = h in
          inr (refl, same ∙ ap (λ y. judged env actor y u) (sym (ok-injective granted))),
      λ h. elim h [ inl k ↦ absurd (both_values refl k.0) | inr (_, same) ↦ (none, refl, same) ],
    )
