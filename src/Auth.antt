-- ===== src/Auth.antt =====
-- app/services/auth_service.py over app/repositories/sqlalchemy/refresh_token_repository.py and
-- password_reset_repository.py, with the tokens of app/core/security.py.
pub mod Sessions
pub mod Logins
mod Tests
use reservation_tool.Base.{
  ℕ, ◌+◌, ◌*◌, ◌==◌, ◌≡◌, Bool, true, false, not, ◌&&◌, ◌||◌, Option, none, some, List, [], ◌∷◌,
  ◌++◌, map, find, modify, is_some, ltb, Text, text_eq, if◌then◌else◌,
}
use reservation_tool.Core.Roles.{RoleName}
use reservation_tool.Core.Status.{AuditAction, EntityType, UserStatus, user_approved}
use reservation_tool.Core.Errors.{AppError, Result, ok, err, ◌>>=◌, ◌>>◌, raise_if, or_raise}
use reservation_tool.Core.Settings.{Env}
use reservation_tool.Db.Rows.{Role, User, RefreshToken, PasswordResetToken, Db}
use reservation_tool.Db.Transaction.{Action, checked}
use reservation_tool.Notifications.{record_audit, send_email}
use reservation_tool.Tokens.{
  Claims, Draws, IsStable, Security, TokenType, create_access_token, create_refresh_token, day,
  decode_token, get_by_jti, minute, revoke, revoke_all_for_user, revoked, type_eq,
}
use reservation_tool.Users.{
  get_user, get_by_username, get_by_email, get_role_by_name, or_else, first_id, found_groups,
  no_group,
}

pub record UserRegisterRequest : Type 0 where
  pub username : Text
  pub email : Text
  pub password : Text
  pub group_id : Option ℕ
  pub group_ids : Option (List ℕ)

-- The guards of `register`, and the foreign key of the row.
unfoldable pub register_checks : Env → UserRegisterRequest → Db → Result Role
register_checks env p db = do
  raise_if (is_some (get_by_username p.username db.users)) AppError.conflict
  raise_if (is_some (get_by_email p.email db.users)) AppError.conflict
  role ← get_role_by_name RoleName.bot db.roles
  raise_if (no_group env (or_else p.group_id (first_id p.group_ids)) db.groups) AppError.internal
  ok role

abbrev pub registered : Security → Env → UserRegisterRequest → Role → Db → User
registered s env p role db = record {
  id = env.fresh_id (map (λ u. u.id) db.users);
  username = p.username;
  email = p.email;
  password_hash = s.hash p.password;
  role = some role;
  group_id = or_else p.group_id (first_id p.group_ids);
  groups = elim p.group_ids [ none ↦ [] | some ids ↦ found_groups ids db.groups ];
  status = UserStatus.pending;
  is_active = true;
  approved_by_id = none;
  approved_at = none;
}

unfoldable pub store_registered : Security → Env → UserRegisterRequest → Role → Action User
store_registered s env p role db =
    let row = registered s env p role db in
    (
      ok row,
      record db {
        users = db.users ++ row ∷ [];
        journal = record_audit none AuditAction.create EntityType.user (some row.id) db.journal;
      },
    )

-- `register`
unfoldable pub register : Security → Env → UserRegisterRequest → Action User
unfolding register_checks store_registered
register s env p db = checked (register_checks env p db) (store_registered s env p) db

-- The tokens of `_issue_token_pair`, with the claims of the second.
unfoldable pub new_tokens : Security → Draws → Env → User → Result ((Text × Text) × Claims)
unfolding decode_token create_access_token create_refresh_token
new_tokens s d env u = do
  role ← or_raise u.role AppError.internal
  let refresh_token = create_refresh_token s d env u.id
  c ← decode_token s env refresh_token TokenType.refresh_type
  ok ((create_access_token s d env u.id role.name, refresh_token), c)

unfoldable pub store_token : User → (Text × Text) × Claims → Action (Text × Text)
store_token u (pair, c) db = (
  ok pair,
  record db {
    refresh_tokens =
        db.refresh_tokens
        ++ record { jti = c.jti; user_id = u.id; revoked = false; expires_at = c.expires_at } ∷ [];
  },
)

-- `_issue_token_pair`
unfoldable pub issue_token_pair : Security → Draws → Env → User → Action (Text × Text)
unfolding new_tokens store_token
issue_token_pair s d env u db = checked (new_tokens s d env u) (store_token u) db

-- `user is None or not verify_password(...)`, the other way round.
abbrev pub verified : Security → Text → Option User → Option User
verified s password none = none
verified s password (some u) = if s.verify password u.password_hash then some u else none

abbrev pub key_of : Option User → Option ℕ
key_of none = none
key_of (some u) = some u.id

-- The status of an account that logs in.
abbrev pub may_log_in : User → Result (Unit {0})
may_log_in u = elim u.status [
  | UserStatus.pending ↦ err AppError.account_not_approved
  | UserStatus.approved ↦ raise_if (not u.is_active) AppError.account_disabled
  | _ ↦ err AppError.account_disabled
]

-- The end of `authenticate`.
abbrev pub logged : User → Result (Text × Text) × Db → Result (Text × Text) × Db
logged u (err e, db) = (err e, db)
logged u (ok pair, db) = (
  ok pair,
  record db {
    journal = record_audit (some u.id) AuditAction.login EntityType.user (some u.id) db.journal;
  },
)

-- `authenticate`
unfoldable pub authenticate : Security → Draws → Env → Text → Text → Action (Text × Text)
unfolding issue_token_pair
authenticate s d env name password db =
    let found = get_by_username name db.users in
    elim (verified s password found) [
      | none ↦ (
        err AppError.authentication,
        record db {
          journal =
              record_audit (key_of found) AuditAction.login_failed EntityType.user (key_of found)
                db.journal;
        },
      )
      | some u ↦ checked (may_log_in u) (λ _ db'. logged u (issue_token_pair s d env u db')) db
    ]

-- The guards of `refresh` on the token.
unfoldable pub refresh_checks : Security → Env → Text → Db → Result RefreshToken
unfolding decode_token
refresh_checks s env token db = do
  c ← decode_token s env token TokenType.refresh_type
  row ← or_raise (get_by_jti c.jti db.refresh_tokens) AppError.authentication
  raise_if row.revoked AppError.authentication
  raise_if (ltb row.expires_at env.now) AppError.authentication
  ok row

-- `user is None or not user.is_active or user.status != APPROVED`
abbrev pub live_account : Option User → Result User
live_account none = err AppError.authentication
live_account (some u) =
    raise_if (not u.is_active || not (user_approved u.status)) AppError.authentication >>= λ _. ok u

-- The rest of `refresh`: the old token is revoked before the account is looked at.
unfoldable pub rotate : Security → Draws → Env → RefreshToken → Action (Text × Text)
unfolding issue_token_pair
rotate s d env row db =
    let db1 = record db { refresh_tokens = revoke row.jti db.refresh_tokens } in
    checked (live_account (get_user row.user_id db1.users)) (issue_token_pair s d env) db1

-- `refresh`
unfoldable pub refresh : Security → Draws → Env → Text → Action (Text × Text)
unfolding refresh_checks rotate
refresh s d env token db = checked (refresh_checks s env token db) (rotate s d env) db

-- `logout`
unfoldable pub logout : Security → Env → Text → Action (Unit {0})
unfolding decode_token
logout s env token db =
    checked (decode_token s env token TokenType.refresh_type)
      (λ c db'. (ok tt, record db' { refresh_tokens = revoke c.jti db'.refresh_tokens })) db

abbrev pub with_password : Text → User → User
with_password h u = record u { password_hash = h }

-- A new password ends every session of the account.
unfoldable pub store_password : Security → Text → User → Db → Db
store_password s password u db = record db {
  users = modify (λ x. x.id == u.id) (with_password (s.hash password)) db.users;
  refresh_tokens = revoke_all_for_user u.id db.refresh_tokens;
  journal = record_audit (some u.id) AuditAction.update EntityType.user (some u.id) db.journal;
}

-- `change_password`
unfoldable pub change_password : Security → User → Text → Text → Action (Unit {0})
unfolding store_password
change_password s u current password db =
    checked (raise_if (not (s.verify current u.password_hash)) AppError.authentication)
      (λ _ db'. (ok tt, store_password s password u db')) db

-- The query of `get_valid_by_token`.
abbrev pub is_valid_reset : ℕ → Text → PasswordResetToken → Bool
is_valid_reset now token t = text_eq t.token token && not t.used && ltb now t.expires_at

abbrev pub used : PasswordResetToken → PasswordResetToken
used t = record t { used = true }

-- `invalidate_all_for_user`
abbrev pub invalidate_all_for_user : ℕ → List PasswordResetToken → List PasswordResetToken
invalidate_all_for_user key = modify (λ t. t.user_id == key && not t.used) used

abbrev pub new_reset : Security → Draws → Env → User → PasswordResetToken
new_reset s d env u = record {
  token = d.reset_token;
  user_id = u.id;
  used = false;
  expires_at = env.now + s.reset_minutes * minute;
}

unfoldable pub store_reset : Security → Draws → Env → User → Db → Db
store_reset s d env u db = record db {
  reset_tokens = invalidate_all_for_user u.id db.reset_tokens ++ new_reset s d env u ∷ [];
  journal =
      record_audit (some u.id) AuditAction.update EntityType.user (some u.id)
        (send_email (u.email ∷ []) db.journal);
}

-- `request_password_reset`; an address without a live account is passed over in silence.
unfoldable pub request_password_reset : Security → Draws → Env → Text → Action (Unit {0})
unfolding store_reset
request_password_reset s d env email db =
    if s.has_reset_repository && s.has_email
    then elim (live_account (get_by_email email db.users)) [
      | err _ ↦ (ok tt, db)
      | ok u ↦ (ok tt, store_reset s d env u db)
    ]
    else (err AppError.authentication, db)

-- The guards of `reset_password`.
unfoldable pub reset_checks : Security → Env → Text → Db → Result (PasswordResetToken × User)
reset_checks s env token db = do
  raise_if (not s.has_reset_repository) AppError.authentication
  t ← or_raise (find (is_valid_reset env.now token) db.reset_tokens) AppError.authentication
  u ← live_account (get_user t.user_id db.users)
  ok (t, u)

-- The writes of `reset_password`; a token is unique in its table.
unfoldable pub store_reset_password :
    Security → Text → PasswordResetToken × User → Action (Unit {0})
unfolding store_password
store_reset_password s password (t, u) db = (
  ok tt,
  store_password s password u
      (record db { reset_tokens = modify (λ x. text_eq x.token t.token) used db.reset_tokens }),
)

-- `reset_password`
unfoldable pub reset_password : Security → Env → Text → Text → Action (Unit {0})
unfolding reset_checks store_reset_password
reset_password s env token password db =
    checked (reset_checks s env token db) (store_reset_password s password) db
