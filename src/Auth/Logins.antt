-- ===== src/Auth/Logins.antt =====
-- Who logs in, and resets that serve once.
use reservation_tool.Base.{
  ℕ, ◌≡◌, refl, sym, subst, ap, ◌∙◌, inl, inr, Bool, true, false, not, Option, some, none, List, [],
  ◌∷◌, arith, All, find, find-some, modify, Text, text_eq, text_eq_iff, Bool-cases, Option-cases,
  none-some, ◌||◌, ==_iff, ◌==◌, find-modify, map_option, Memᴰ,
}
use mathlib.Core.Option.{some-injective}
use reservation_tool.Keys.{find-Memᴰ}
use reservation_tool.Core.Status.{user_approved}
use reservation_tool.Core.Errors.{
  err_not_ok, AppError, ok, err, >>=-eq-ok, raise_if-eq-ok, or_raise-eq-ok, ok-injective,
}
use reservation_tool.Core.Settings.{Env}
use reservation_tool.Db.Rows.{User, PasswordResetToken, Db}
use reservation_tool.Db.Transaction.{checked_ok}
use reservation_tool.Users.{get_user, get_by_username}
use reservation_tool.Auth.{
  verified, may_log_in, logged, authenticate, issue_token_pair, store_password, is_valid_reset,
  used, with_password, reset_password, store_reset_password, reset_checks, live_account,
}
use reservation_tool.Tokens.{Security, Draws}
use reservation_tool.Auth.Sessions.{NoSession, revoke_all_ends}

-- An account that may log in with this name and password.
abbrev pub Welcome : Security → Text → Text → Db → User → Type 0
Welcome s name password db u =
    (get_by_username name db.users ≡ some u)
    × (s.verify password u.password_hash ≡ true)
    × (user_approved u.status ≡ true)
    × (u.is_active ≡ true)

pub verified_user :
    (s : Security) (password : Text) (found : Option User) {u : User}
    → verified s password found ≡ some u
    → (found ≡ some u) × (s.verify password u.password_hash ≡ true)
verified_user s password none h = absurd (cc)
verified_user s password (some v) h = elim (Bool-cases (s.verify password v.password_hash)) [
  | inl t ↦
      let same = rw t at h in
      (same, subst (λ x. s.verify password x.password_hash ≡ true) (some-injective _ _ same) t)
  | inr f ↦ absurd (none-some (rw f at h))
]

pub may_log_in_ok :
    (u : User) → may_log_in u ≡ ok tt → (user_approved u.status ≡ true) × (u.is_active ≡ true)
may_log_in_ok u h = ground arith

-- A pair of tokens is handed out only to an account with this name and password that is APPROVED and
-- active.
pub authenticate-Welcome :
    (s : Security) (d : Draws) (env : Env) (name password : Text) (db : Db) (pair : Text × Text)
    → (authenticate s d env name password db).0 ≡ ok pair
    → (u : User) × Welcome s name password db u
unfolding authenticate
authenticate-Welcome s d env name password db pair h =
    elim (Option-cases (verified s password (get_by_username name db.users))) [
      | inl e ↦ absurd (err_not_ok (rw (e, authenticate) at h))
      | inr (u, e) ↦
          let (found, right) = verified_user s password (get_by_username name db.users) e in
          let (_, may, _, _) =
            checked_ok (may_log_in u) (λ _ db'. logged u (issue_token_pair s d env u db')) db
              (rw (e, authenticate) at h) in
          let (approved, active) = may_log_in_ok u may in (u, (found, right, approved, active))
    ]

-- No row passes the test, so none is found.
none-find :
    (p : PasswordResetToken → Bool) (rows : List PasswordResetToken)
    → All (λ t. p t ≡ false) rows
    → find p rows ≡ none
none-find p [] h = refl
none-find p (t ∷ rows) h = rw (h.0) (none-find p rows h.1)

All-used :
    (now : ℕ) (token : Text) (rows : List PasswordResetToken)
    → All (λ t. is_valid_reset now token t ≡ false) (modify (λ t. text_eq t.token token) used rows)
All-used now token [] = tt
All-used now token (t ∷ rows) = (ground arith, All-used now token rows)

live_account-found : (o : Option User) {u : User} → live_account o ≡ ok u → o ≡ some u
live_account-found none h = absurd (cc)
live_account-found (some v) h =
    let (_, same) = raise_if-eq-ok (not v.is_active || not (user_approved v.status)) _ _ h in
    ap some (ok-injective same)

-- The row that the guards of an accepted reset hand over is that of the token, and the account is the
-- one that the row names.
reset_checks-token :
    (s : Security) (env : Env) (token : Text) (db : Db) {q : PasswordResetToken × User}
    → reset_checks s env token db ≡ ok q
    → (q.0.token ≡ token)
      × (find (is_valid_reset env.now token) db.reset_tokens ≡ some q.0)
      × (get_user q.0.user_id db.users ≡ some q.1)
unfolding reset_checks
reset_checks-token s env token db h =
    let (_, h1) = raise_if-eq-ok (not s.has_reset_repository) _ _ h in
    let (t, found, h2) =
      or_raise-eq-ok (find (is_valid_reset env.now token) db.reset_tokens) _ _ h1 in
    let (u, live, h3) = >>=-eq-ok (live_account (get_user t.user_id db.users)) _ h2 in
    let same = ap (λ x. x.0) (ok-injective h3) in
    let valid = find-some (is_valid_reset env.now token) db.reset_tokens found in
    (
      ap (λ x. x.token) (sym same) ∙ (text_eq_iff t.token token).0 (ground arith),
      found ∙ ap some same,
      subst (λ (x : PasswordResetToken × User). get_user x.0.user_id db.users ≡ some x.1)
          (ok-injective h3) (live_account-found (get_user t.user_id db.users) live),
    )

refused_reset :
    (s : Security) (env : Env) (token password : Text) (db : Db)
    → find (is_valid_reset env.now token) db.reset_tokens ≡ none
    → (reset_password s env token password db).0 ≡ err AppError.authentication
unfolding reset_password reset_checks
refused_reset s env token password db e = elim (Bool-cases s.has_reset_repository) [
  | inl t ↦ simp (t, e) refl
  | inr f ↦ simp (f) refl
]

run_reset :
    (s : Security) (env : Env) (token password : Text) (db : Db)
    → (reset_password s env token password db).0 ≡ ok tt
    → (q : PasswordResetToken × User) × (reset_checks s env token db ≡ ok q)
      × (reset_password s env token password db ≡ store_reset_password s password q db)
unfolding reset_password
run_reset s env token password db h =
    let (q, e, _, run) =
      checked_ok (reset_checks s env token db) (store_reset_password s password) db h in
    (q, e, run)

stored_reset :
    (s : Security) (password token : Text) (now : ℕ) (db : Db) (t : PasswordResetToken) (u : User)
    → t.token ≡ token
    → get_user u.id db.users ≡ some u
    → (get_user u.id (store_reset_password s password (t, u) db).1.users
        ≡ some (record u { password_hash = s.hash password }))
      × (NoSession u.id (store_reset_password s password (t, u) db).1.refresh_tokens)
      × (find (is_valid_reset now token) (store_reset_password s password (t, u) db).1.reset_tokens
          ≡ none)
unfolding store_reset_password store_password
stored_reset s password token now db t u same found = (
  find-modify (λ x. x.id == u.id) (with_password (s.hash password)) (λ x. refl) db.users
      ∙ ap (map_option (with_password (s.hash password))) found,
  revoke_all_ends u.id db.refresh_tokens,
  subst
      (λ k.
        find (is_valid_reset now token) (modify (λ x. text_eq x.token k) used db.reset_tokens)
        ≡ none)
      (sym same) (none-find (is_valid_reset now token) _ (All-used now token db.reset_tokens)),
)

-- A reset token serves once: the reset that succeeds names a stored row of the token and the account of
-- that row, which it stores with the hash of the new password and everything else as it was; it leaves no
-- session of that account; and every later use of the token is refused.
pub reset_once :
    (s later : Security) (env after : Env) (token password again : Text) (db : Db)
    → (reset_password s env token password db).0 ≡ ok tt
    → ((t : PasswordResetToken) × (u : User) × Memᴰ t db.reset_tokens
        × (t.token ≡ token)
        × (get_user t.user_id db.users ≡ some u)
        × (get_user t.user_id (reset_password s env token password db).1.users
            ≡ some (record u { password_hash = s.hash password }))
        × NoSession t.user_id (reset_password s env token password db).1.refresh_tokens)
      × ((reset_password later after token again (reset_password s env token password db).1).0
          ≡ err AppError.authentication)
reset_once s later env after token password again db h =
    let (q, e, run) = run_reset s env token password db h in
    let (same, row, found) = reset_checks-token s env token db e in
    let by_id =
      (==_iff q.1.id q.0.user_id).0 (find-some (λ x. x.id == q.0.user_id) db.users found) in
    let (written, ended, gone) =
      stored_reset s password token after.now db q.0 q.1 same
        (subst (λ k. get_user k db.users ≡ some q.1) (sym by_id) found) in
    (
      (
        q.0,
        q.1,
        find-Memᴰ (is_valid_reset env.now token) db.reset_tokens row,
        same,
        found,
        subst
            (λ k.
              get_user k (reset_password s env token password db).1.users
              ≡ some (record q.1 { password_hash = s.hash password }))
            by_id
            (subst
              (λ x.
                get_user q.1.id x.1.users ≡ some (record q.1 { password_hash = s.hash password }))
              (sym run) written),
        subst (λ k. NoSession k (reset_password s env token password db).1.refresh_tokens) by_id
            (subst (λ x. NoSession q.1.id x.1.refresh_tokens) (sym run) ended),
      ),
      refused_reset later after token again (reset_password s env token password db).1 (
          subst (λ x. find (is_valid_reset after.now token) x.1.reset_tokens ≡ none) (sym run)
            gone),
    )
