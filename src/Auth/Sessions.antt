-- ===== src/Auth/Sessions.antt =====
-- Sessions end: a refresh token and a reset token serve once, a new password ends all sessions.
use reservation_tool.Base.{
  ℕ, ◌≡◌, refl, sym, subst, ap, ◌∙◌, ◌⊎◌, inl, inr, Bool, true, not, some, List, [], ◌∷◌, ◌++◌, ltb,
  arith, All, find, find-some, find-modify, map_option, Text, text_eq, text_eq_iff, Bool-cases,
  Option-cases,
}
use reservation_tool.Core.Errors.{
  AppError, ok, err, raise_if, >>=-eq-ok, raise_if-eq-ok, or_raise-eq-ok, ok-injective,
}
use reservation_tool.Core.Settings.{Env}
use reservation_tool.Db.Rows.{User, RefreshToken, Db}
use reservation_tool.Db.Transaction.{checked_ok}
use reservation_tool.Users.{get_user}
use reservation_tool.Auth.{
  refresh, refresh_checks, rotate, live_account, issue_token_pair, new_tokens, store_token,
  store_password, change_password,
}
use reservation_tool.Tokens.{
  Security, Draws, Claims, TokenType, type_eq, IsStable, decode_token, get_by_jti, revoke, revoked,
  revoke_all_for_user,
}

-- A token is accepted with its claims, or refused as a failed authentication.
decode_token-cases :
    (s : Security) (env : Env) (token : Text) (expected : TokenType)
    → ((c : Claims) × (decode_token s env token expected ≡ ok c)
        × (s.decode env.now token ≡ some c))
      ⊎ (decode_token s env token expected ≡ err AppError.authentication)
unfolding decode_token
decode_token-cases s env token expected = elim (Option-cases (s.decode env.now token)) [
  | inl e ↦ inr (rw e refl)
  | inr (c, e) ↦ elim (Bool-cases (type_eq c.token_type expected)) [
    | inl t ↦ inl (c, rw (e, t) refl, e)
    | inr f ↦ inr (rw (e, f) refl)
  ]
]

decode_token_reads :
    (s : Security) (env : Env) (token : Text) (expected : TokenType) {c : Claims}
    → decode_token s env token expected ≡ ok c
    → s.decode env.now token ≡ some c
decode_token_reads s env token expected h = elim (decode_token-cases s env token expected) [
  | inl (d, e, f) ↦ f ∙ ap some (ok-injective (sym e ∙ h))
  | inr e ↦ absurd (cc)
]

find-append {ℓ} :
    {A : Type ℓ} (p : A → Bool) (xs ys : List A) {a : A}
    → find p xs ≡ some a
    → find p (xs ++ ys) ≡ some a
find-append p [] ys e = absurd (cc)
find-append p (x ∷ xs) ys e = elim (Bool-cases (p x)) [
  | inl t ↦ rw t (rw t at e)
  | inr f ↦ rw f (find-append p xs ys (rw f at e))
]

-- A token whose row is revoked is refused.
revoked_refused :
    (s : Security) (d : Draws) (env : Env) (token : Text) (db : Db) (row : RefreshToken)
    → ((c : Claims)
        → s.decode env.now token ≡ some c
        → get_by_jti c.jti db.refresh_tokens ≡ some row)
    → row.revoked ≡ true
    → (refresh s d env token db).0 ≡ err AppError.authentication
unfolding refresh refresh_checks
revoked_refused s d env token db row found gone =
    elim (decode_token-cases s env token TokenType.refresh_type) [
      | inl (c, e, read) ↦ rw (e, found c read, gone) refl
      | inr e ↦ rw e refl
    ]

-- What the guards of an accepted refresh have read.
refresh_checks-reads :
    (s : Security) (env : Env) (token : Text) (db : Db) {row : RefreshToken}
    → refresh_checks s env token db ≡ ok row
    → (c : Claims) × (s.decode env.now token ≡ some c)
      × (get_by_jti c.jti db.refresh_tokens ≡ some row)
unfolding refresh_checks
refresh_checks-reads s env token db h =
    let (c, e, h1) = >>=-eq-ok (decode_token s env token TokenType.refresh_type) _ h in
    let (row, found, h2) = or_raise-eq-ok (get_by_jti c.jti db.refresh_tokens) _ _ h1 in
    let (_, h3) = raise_if-eq-ok row.revoked _ _ h2 in
    let (_, h4) = raise_if-eq-ok (ltb row.expires_at env.now) _ _ h3 in
    (c, decode_token_reads s env token TokenType.refresh_type e, found ∙ ap some (ok-injective h4))

-- A pair that is issued leaves the rows that were there.
issue_appends :
    (s : Security) (d : Draws) (env : Env) (u : User) (db : Db) {pair : Text × Text}
    → (issue_token_pair s d env u db).0 ≡ ok pair
    → (new : RefreshToken) × ((issue_token_pair s d env u db).1.refresh_tokens
        ≡ db.refresh_tokens ++ new ∷ [])
unfolding issue_token_pair store_token
issue_appends s d env u db h =
    let (q, _, _, run) = checked_ok (new_tokens s d env u) (store_token u) db h in
    (_, ap (λ x. x.1.refresh_tokens) run)

rotate_revokes :
    (s : Security) (d : Draws) (env : Env) (row : RefreshToken) (jti : Text) (db : Db)
    {pair : Text × Text}
    → get_by_jti jti db.refresh_tokens ≡ some row
    → (rotate s d env row db).0 ≡ ok pair
    → get_by_jti jti (rotate s d env row db).1.refresh_tokens ≡ some (revoked row)
unfolding rotate
rotate_revokes s d env row jti db found h =
    let db1 = record db { refresh_tokens = revoke row.jti db.refresh_tokens } in
    let (u, _, issued, run) =
      checked_ok (live_account (get_user row.user_id db1.users)) (issue_token_pair s d env) db1 h in
    let (new, rows) = issue_appends s d env u db1 issued in
    let same : row.jti ≡ jti =
      (text_eq_iff row.jti jti).0 (find-some (λ t. text_eq t.jti jti) db.refresh_tokens found) in
    subst (λ x. get_by_jti jti x.1.refresh_tokens ≡ some (revoked row)) (sym run)
      (subst (λ l. get_by_jti jti l ≡ some (revoked row)) (sym rows)
        (find-append (λ t. text_eq t.jti jti) (revoke row.jti db.refresh_tokens) (new ∷ [])
          (subst (λ k. get_by_jti jti (revoke k db.refresh_tokens) ≡ some (revoked row)) (sym same)
            (find-modify (λ t. text_eq t.jti jti) revoked (λ t. refl) db.refresh_tokens
              ∙ ap (map_option revoked) found))))

run_refresh :
    (s : Security) (d : Draws) (env : Env) (token : Text) (db : Db) {pair : Text × Text}
    → (refresh s d env token db).0 ≡ ok pair
    → (row : RefreshToken) × (refresh_checks s env token db ≡ ok row)
      × ((rotate s d env row db).0 ≡ ok pair)
      × (refresh s d env token db ≡ rotate s d env row db)
unfolding refresh
run_refresh s d env token db h = checked_ok (refresh_checks s env token db) (rotate s d env) db h

-- A refresh token serves once: after it has been exchanged for a new pair, every later exchange of it
-- is refused, when a token says the same each time it is read.
pub refresh_once :
    (s : Security) (d later : Draws) (env after : Env) (token : Text) (db : Db) (pair : Text × Text)
    → IsStable s
    → (refresh s d env token db).0 ≡ ok pair
    → (refresh s later after token (refresh s d env token db).1).0 ≡ err AppError.authentication
refresh_once s d later env after token db pair stable h =
    let (row, e, rotated, run) = run_refresh s d env token db h in
    let (c, read, found) = refresh_checks-reads s env token db e in
    revoked_refused s later after token (refresh s d env token db).1 (revoked row)
      (λ c' read'.
        subst (λ k. get_by_jti k (refresh s d env token db).1.refresh_tokens ≡ some (revoked row))
          (stable env.now after.now token c c' read read')
          (subst (λ x. get_by_jti c.jti x.1.refresh_tokens ≡ some (revoked row)) (sym run)
            (rotate_revokes s d env row c.jti db found rotated)))
      refl

-- No session of this user is left.
abbrev pub NoSession : ℕ → List RefreshToken → Type 0
NoSession key = All (λ t. t.user_id ≡ key → t.revoked ≡ true)

pub revoke_all_ends :
    (key : ℕ) (rows : List RefreshToken) → NoSession key (revoke_all_for_user key rows)
revoke_all_ends key [] = tt
revoke_all_ends key (t ∷ rows) = ((λ e. ground arith), revoke_all_ends key rows)

-- A password that is changed ends every session of its account.
pub change_password_ends :
    (s : Security) (u : User) (current password : Text) (db : Db)
    → (change_password s u current password db).0 ≡ ok tt
    → NoSession u.id (change_password s u current password db).1.refresh_tokens
unfolding change_password store_password
change_password_ends s u current password db h =
    let (_, _, _, run) =
      checked_ok (raise_if (not (s.verify current u.password_hash)) AppError.authentication)
        (λ _ db'. (ok tt, store_password s password u db')) db h in
    subst (λ x. NoSession u.id x.1.refresh_tokens) (sym run)
      (revoke_all_ends u.id db.refresh_tokens)
