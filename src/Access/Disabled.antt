-- ===== src/Access/Disabled.antt =====
-- An account that is disabled has no access any more.
use reservation_tool.Base.{
  ℕ, ◌≡◌, ◌≢◌, refl, sym, subst, ap, ◌∙◌, true, not, Option, some, none, ◌==◌, ==_iff, arith,
  find-some, find-modify, map_option, modify, Text, text, strip, lower,
}
use mathlib.Core.Option.{some-injective}
use reservation_tool.Core.Status.{AuditAction}
use reservation_tool.Core.Permissions.{PermissionCode}
use reservation_tool.Core.Errors.{
  AppError, Result, ok, ok-injective, >>=-eq-ok, raise_if-eq-ok, or_raise-eq-ok, or_raise,
}
use reservation_tool.Core.Settings.{Env}
use reservation_tool.Db.Rows.{User, Db}
use reservation_tool.Db.Transaction.{checked_ok}
use reservation_tool.Reservations.{may}
use reservation_tool.Tokens.{Security, TokenType, decode_token}
use reservation_tool.Users.{get_user, delete, deactivated, store_change}
use reservation_tool.Access.{get_current_user, require_permission, after_space, starts_with}

-- The account that is let in is the one of the token, and is active.
let_in :
    (s : Security) (env : Env) (header : Option Text) (db : Db) {u : User}
    → get_current_user s env header db ≡ ok u
    → (k : ℕ) × (get_user k db.users ≡ some u) × (u.is_active ≡ true)
unfolding get_current_user
let_in s env none db h = absurd (cc)
let_in s env (some header) db {u} h =
    let (_, h1) = raise_if-eq-ok (not (starts_with (text "bearer ") (lower header))) _ _ h in
    let (c, _, h2) =
      >>=-eq-ok (decode_token s env (strip (after_space header)) TokenType.access) _ h1 in
    let (v, found, h3) = or_raise-eq-ok (get_user c.subject db.users) _ _ h2 in
    let (active, h4) = raise_if-eq-ok (not v.is_active) _ _ h3 in
    (
      c.subject,
      subst (λ x. get_user c.subject db.users ≡ some x) (ok-injective h4) found,
      subst (λ (x : User). x.is_active ≡ true) (ok-injective h4) (ground arith),
    )

-- A disabled account under its key.
after_delete :
    (key : ℕ) (actor : User) (db : Db) {r : User}
    → (delete key actor db).0 ≡ ok r
    → (u : User) × (get_user key (delete key actor db).1.users ≡ some (deactivated u))
unfolding delete store_change
after_delete key actor db h =
    let (u, found, _, run) =
      checked_ok (or_raise (get_user key db.users) AppError.not_found)
        (store_change actor AuditAction.delete deactivated) db h in
    let same =
      (==_iff u.id key).0 (find-some (λ x. x.id == key) db.users (or_raise_some _ found)) in
    (
      u,
      ap (λ (p : Result User × Db). get_user key p.1.users) run
          ∙ ap (λ k. get_user key (modify (λ x. x.id == k) deactivated db.users)) same
          ∙ find-modify (λ x. x.id == key) deactivated (λ x. refl) db.users
          ∙ ap (map_option deactivated) (or_raise_some _ found),
    )
  where
    or_raise_some : (o : Option User) {u : User} → or_raise o AppError.not_found ≡ ok u → o ≡ some u
    or_raise_some none e = absurd (cc)
    or_raise_some (some v) e = ap some (ok-injective e)

inactive : (v u : User) → deactivated v ≡ u → u.is_active ≡ true → ⊥
inactive v u same active = cc

-- An account that was disabled is shut out at once: whatever token a later request carries, and
-- whatever permission it asks for, it is not served as that account.
pub deactivated_shut_out :
    (s : Security) (env : Env) (key : ℕ) (actor : User) (db : Db) (code : PermissionCode)
    (header : Option Text) {r u : User}
    → (delete key actor db).0 ≡ ok r
    → require_permission s env code header (delete key actor db).1 ≡ ok u
    → u.id ≢ key
unfolding require_permission
deactivated_shut_out s env key actor db code header {r} {u} h passed e =
    let after = (delete key actor db).1 in
    let (v, disabled) = after_delete key actor db h in
    let (w, here, h1) = >>=-eq-ok (get_current_user s env header after) _ passed in
    let (_, h2) = raise_if-eq-ok (not (may w code)) _ _ h1 in
    let (k, found, active) =
      let_in s env header after
        (subst (λ x. get_current_user s env header after ≡ ok x) (ok-injective h2) here) in
    let same_key = sym ((==_iff u.id k).0 (find-some (λ x. x.id == k) after.users found)) ∙ e in
    inactive v u
      (some-injective _ _
        (sym disabled ∙ subst (λ j. get_user j after.users ≡ some u) same_key found))
      active
