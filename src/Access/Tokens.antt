-- ===== src/Access/Tokens.antt =====
-- What a login gives access to.
use reservation_tool.Base.{
  ℕ, ◌+◌, ◌*◌, ◌<◌, ◌≡◌, refl, sym, subst, ap, ◌∙◌, inl, inr, Bool, true, false, not, Option, some,
  List, [], ◌∷◌, ◌++◌, ==_iff, arith, All, All-find, Bool-cases, Pairwise, if◌then◌else◌, Text,
  text, text_eq, strip-solid, is_blank, lower, Option-cases,
}
use mathlib.Core.Option.{some-injective}
use reservation_tool.Core.Permissions.{PermissionCode}
use reservation_tool.Core.Roles.{RoleName}
use reservation_tool.Core.Errors.{
  err_not_ok, AppError, Result, ok, err, ok-injective, ◌>>=◌, ◌>>◌, raise_if, >>=-eq-ok,
  or_raise-eq-ok, or_raise,
}
use reservation_tool.Core.Settings.{Env}
use reservation_tool.Db.Rows.{Role, User, Db}
use reservation_tool.Db.Transaction.{checked, checked_ok}
use reservation_tool.Reservations.{may}
use reservation_tool.Tokens.{
  Claims, Security, Draws, TokenType, type_eq, create_access_token, create_refresh_token,
  decode_token, minute,
}
use reservation_tool.Users.{get_by_username, get_user}
use reservation_tool.Users.Accounts.{Distinct}
use reservation_tool.Auth.{
  authenticate, verified, may_log_in, logged, issue_token_pair, new_tokens, store_token,
}
use reservation_tool.Auth.Logins.{Welcome, verified_user, may_log_in_ok}
use reservation_tool.Access.{get_current_user, require_permission, active_account}

-- What the library for tokens promises: until it expires a token is read, with its subject and its kind
-- (its times come back as whole seconds), and it has no blanks.
pub record Reads (s : Security) : Type 0 where
  pub reads :
      (now : ℕ) (c : Claims)
      → now < c.expires_at
      → (r : Claims) × (s.decode now (s.encode c) ≡ some r)
        × (r.subject ≡ c.subject)
        × (r.token_type ≡ c.token_type)
  pub solid : (c : Claims) → All (λ x. is_blank x ≡ false) (s.encode c)

logged_ok :
    (u : User) (m : Result (Text × Text) × Db) {pair : Text × Text}
    → (logged u m).0 ≡ ok pair
    → (m.0 ≡ ok pair) × ((logged u m).1.users ≡ m.1.users)
logged_ok u (ok p, db) h = (h, refl)
logged_ok u (err e, db) h = absurd (cc)

-- The access token of a pair is one for the account and its role.
issued :
    (s : Security) (d : Draws) (env : Env) (u : User) (db : Db) {pair : Text × Text}
    → (issue_token_pair s d env u db).0 ≡ ok pair
    → ((role : Role) × (u.role ≡ some role) × (pair.0 ≡ create_access_token s d env u.id role.name))
      × ((issue_token_pair s d env u db).1.users ≡ db.users)
unfolding issue_token_pair new_tokens store_token
issued s d env u db h =
    let (m, made, stored, run) = checked_ok (new_tokens s d env u) (store_token u) db h in
    let (role, has, h1) = or_raise-eq-ok u.role _ _ made in
    let (c, _, h2) =
      >>=-eq-ok (decode_token s env (create_refresh_token s d env u.id) TokenType.refresh_type) _
        h1 in
    (
      (
        role,
        has,
        ap (λ (p : Text × Text). p.0) (sym (ok-injective stored))
            ∙ ap (λ (x : (Text × Text) × Claims). x.0.0) (sym (ok-injective h2)),
      ),
      ap (λ (x : Result (Text × Text) × Db). x.1.users) run,
    )

-- The account and the access token of a login, which changes no account.
logged_in :
    (s : Security) (d : Draws) (env : Env) (name password : Text) (db : Db) (pair : Text × Text)
    → (authenticate s d env name password db).0 ≡ ok pair
    → (u : User) × Welcome s name password db u
      × ((role : Role) × (u.role ≡ some role)
          × (pair.0 ≡ create_access_token s d env u.id role.name))
      × ((authenticate s d env name password db).1.users ≡ db.users)
unfolding authenticate
logged_in s d env name password db pair h =
    elim (Option-cases (verified s password (get_by_username name db.users))) [
      | inl e ↦ absurd (err_not_ok (rw (e, authenticate) at h))
      | inr (u, e) ↦
          let (found, right) = verified_user s password (get_by_username name db.users) e in
          let (_, may_enter, entered, run) =
            checked_ok (may_log_in u) (λ _ db'. logged u (issue_token_pair s d env u db')) db
              (rw (e, authenticate) at h) in
          let (pair_made, kept) = logged_ok u (issue_token_pair s d env u db) entered in
          let (token, same) = issued s d env u db pair_made in
          let (approved, active) = may_log_in_ok u may_enter in
          (
            u,
            (found, right, approved, active),
            token,
            ap (λ (x : Result (Text × Text) × Db). x.1.users) (ran u e ∙ run) ∙ kept ∙ same,
          )
    ]
  where
    ran :
        (u : User)
        → verified s password (get_by_username name db.users) ≡ some u
        → authenticate s d env name password db
          ≡ checked (may_log_in u) (λ _ db'. logged u (issue_token_pair s d env u db')) db
    ran u e = rw (e, authenticate) refl

-- The row that is found by its name is found by its key.
by_key :
    (name : Text) (users : List User) {u : User}
    → Pairwise Distinct users
    → get_by_username name users ≡ some u
    → get_user u.id users ≡ some u
by_key name [] v e = absurd (cc)
by_key name (x ∷ xs) {u} v e = elim (Bool-cases (text_eq x.username name)) [
  | inl t ↦
      subst (λ y. get_user y.id (x ∷ xs) ≡ some y) (some-injective _ _ (rw t at e))
        (ground (arith, (==_iff x.id x.id).1 refl))
  | inr f ↦
      let rest = rw f at e in
      let ne = (All-find (λ y. text_eq y.username name) (Distinct x) xs v.0 rest).0 in
      ground (arith, by_key name xs v.1 rest, ne)
]

-- The header with an access token of an active account.
bearer :
    (s : Security) (d : Draws) (env later : Env) (u : User) (role : RoleName) (db : Db)
    → Reads s
    → later.now < env.now + s.access_minutes * minute
    → get_user u.id db.users ≡ some u
    → u.is_active ≡ true
    → get_current_user s later (some (text "Bearer " ++ create_access_token s d env u.id role)) db
      ≡ ok u
unfolding get_current_user decode_token create_access_token lower
bearer s d env later u role db lib time found active =
    ap (λ t. (or_raise (s.decode later.now t) AppError.authentication >>= of_type) >>= account)
      (strip-solid (s.encode claims) (lib.solid claims))
    ∙ ap (λ o. (or_raise o AppError.authentication >>= of_type) >>= account) read.1
    ∙ ap
        (λ t.
          (raise_if (not (type_eq t TokenType.access)) AppError.authentication >> ok read.0)
          >>= account)
        read.3
    ∙ ap (λ k. active_account (get_user k db.users)) read.2
    ∙ ap active_account found
    ∙ ap (λ b. raise_if (not b) AppError.authentication >> ok u) active
  where
    claims : Claims
    claims = record {
      subject = u.id;
      role = some role;
      token_type = TokenType.access;
      issued_at = env.now;
      expires_at = env.now + s.access_minutes * minute;
      jti = d.access_jti;
    }

    read :
        (r : Claims) × (s.decode later.now (s.encode claims) ≡ some r)
        × (r.subject ≡ u.id)
        × (r.token_type ≡ TokenType.access)
    read = lib.reads later.now claims time

    of_type : Claims → Result Claims
    of_type c =
        raise_if (not (type_eq c.token_type TokenType.access)) AppError.authentication >> ok c

    account : Claims → Result User
    account c = active_account (get_user c.subject db.users)

-- A login gives access: when it succeeds, from accounts that can be told apart, each later request that
-- carries its access token as a bearer, until that expires and while the accounts stay as they are, is
-- made by the account that has logged in; it passes `require_permission` for exactly the permissions of
-- the role of that account.
pub login_gives_access :
    (s : Security) (d : Draws) (env later : Env) (name password : Text) (code : PermissionCode)
    (db : Db) (pair : Text × Text)
    → Reads s
    → Pairwise Distinct db.users
    → later.now < env.now + s.access_minutes * minute
    → (authenticate s d env name password db).0 ≡ ok pair
    → (u : User) × Welcome s name password db u
      × (get_current_user s later
            (some (text "Bearer " ++ pair.0))
            (authenticate s d env name password db).1
          ≡ ok u)
      × (require_permission s later code
            (some (text "Bearer " ++ pair.0))
            (authenticate s d env name password db).1
          ≡ (if may u code then ok u else err AppError.authorization))
unfolding require_permission
login_gives_access s d env later name password code db pair lib v time h =
    let (u, welcome, (role, has, token), same) = logged_in s d env name password db pair h in
    let after = (authenticate s d env name password db).1 in
    let served =
      ap (λ t. get_current_user s later (some (text "Bearer " ++ t)) after) token
      ∙ bearer s d env later u role.name after lib time
          (ap (get_user u.id) same ∙ by_key name db.users v welcome.0) welcome.3 in
    (u, welcome, served, permitted (some (text "Bearer " ++ pair.0)) after served)
  where
    asked :
        (u : User) (b : Bool)
        → (raise_if (not b) AppError.authorization >> ok u)
          ≡ (if b then ok u else err AppError.authorization)
    asked u true = refl
    asked u false = refl

    permitted :
        {u : User} (header : Option Text) (db : Db)
        → get_current_user s later header db ≡ ok u
        → require_permission s later code header db
          ≡ (if may u code then ok u else err AppError.authorization)
    permitted {u} header db e =
        ap (λ r. r >>= λ x. raise_if (not (may x code)) AppError.authorization >> ok x) e
        ∙ asked u (may u code)
