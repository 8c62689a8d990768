-- ===== src/Access/Tests.antt =====
-- Access at concrete inputs, with a library that writes a token as its claims, each number moved past
-- the blanks, and that reads it until it expires.
use reservation_tool.Base.{
  text_eq_ne, ℕ, ◌+◌, ◌-◌, ◌<◌, ◌≡◌, ◌≢◌, refl, ap, ◌∙◌, true, false, none, some, Option, [], ◌∷◌,
  ◌++◌, map, ◌==◌, ltb, arith, All, Text, text, text_eq, lower, strip, is_blank, if◌then◌else◌,
}
use reservation_tool.Core.Roles.{RoleName}
use reservation_tool.Core.Status.{UserStatus}
use reservation_tool.Core.Permissions.{PermissionCode}
use reservation_tool.Core.Errors.{AppError, ok, err}
use reservation_tool.Db.Rows.{User, Db}
use reservation_tool.Samples.{env, anna, dora, db}
use reservation_tool.Reservations.{may}
use reservation_tool.Users.{delete}
use reservation_tool.Auth.{authenticate, issue_token_pair, new_tokens, store_token}
use reservation_tool.Auth.Logins.{Welcome}
use reservation_tool.Tokens.{
  TokenType, Claims, Security, Draws, decode_token, create_access_token, create_refresh_token,
}
use reservation_tool.Access.{get_current_user, require_permission}
use reservation_tool.Access.Tokens.{Reads, login_gives_access}
use reservation_tool.Access.Disabled.{deactivated_shut_out}

abbrev past : ℕ → ℕ
past n = n + 33

abbrev back : ℕ → ℕ
back n = n - 33

back-past : (n : ℕ) → back (past n) ≡ n
back-past n = omega arith

back-past_all : (t : Text) → map back (map past t) ≡ t
back-past_all [] = refl
back-past_all (c ∷ cs) = rw (back-past c, back-past_all cs) refl

past_solid : (t : Text) → All (λ x. is_blank x ≡ false) (map past t)
past_solid [] = tt
past_solid (c ∷ cs) = (ground arith, past_solid cs)

abbrev role_code : Option RoleName → ℕ
role_code none = 0
role_code (some RoleName.owner) = 1
role_code (some RoleName.manager) = 2
role_code (some RoleName.lead) = 3
role_code (some RoleName.user) = 4
role_code (some RoleName.bot) = 5

abbrev role_of : ℕ → Option RoleName
role_of n =
    if n == 1
    then some RoleName.owner
    else if n == 2
    then some RoleName.manager
    else if n == 3
    then some RoleName.lead
    else if n == 4
    then some RoleName.user
    else if n == 5
    then some RoleName.bot
    else none

abbrev kind : TokenType → ℕ
kind TokenType.access = 0
kind TokenType.refresh_type = 1

abbrev kind_of : ℕ → TokenType
kind_of n = if n == 0 then TokenType.access else TokenType.refresh_type

abbrev write : Claims → Text
write c =
    map past (c.subject ∷ role_code c.role ∷ kind c.token_type ∷ c.issued_at ∷ c.expires_at ∷ c.jti)

abbrev claims_of : Text → Option Claims
claims_of (subject ∷ role ∷ type ∷ issued ∷ expires ∷ jti) = some (record {
  subject = subject;
  role = role_of role;
  token_type = kind_of type;
  issued_at = issued;
  expires_at = expires;
  jti = jti;
})
claims_of _ = none

abbrev unexpired : ℕ → Option Claims → Option Claims
unexpired now none = none
unexpired now (some c) = if ltb now c.expires_at then some c else none

abbrev libraries : Security
libraries = record {
  hash = λ t. t;
  verify = text_eq;
  encode = write;
  decode = λ now t. unexpired now (claims_of (map back t));
  access_minutes = 30;
  refresh_days = 7;
  reset_minutes = 30;
  has_reset_repository = true;
  has_email = true;
}

role-back : (r : Option RoleName) → role_of (role_code r) ≡ r
role-back none = refl
role-back (some RoleName.owner) = refl
role-back (some RoleName.manager) = refl
role-back (some RoleName.lead) = refl
role-back (some RoleName.user) = refl
role-back (some RoleName.bot) = refl

kind-back : (t : TokenType) → kind_of (kind t) ≡ t
kind-back TokenType.access = refl
kind-back TokenType.refresh_type = refl

claims-back : (c : Claims) → claims_of (map back (write c)) ≡ some c
claims-back c =
    ap claims_of (
      back-past_all
        (c.subject ∷ role_code c.role ∷ kind c.token_type ∷ c.issued_at ∷ c.expires_at ∷ c.jti))
    ∙ ap (λ r. some (record c { role = r; token_type = kind_of (kind c.token_type) }))
        (role-back c.role)
    ∙ ap (λ k. some (record c { token_type = k })) (kind-back c.token_type)

libraries-Reads : Reads libraries
libraries-Reads = record {
  reads = λ now c time. (c, ap (unexpired now) (claims-back c) ∙ kept now c time, refl, refl);
  solid = λ c.
      past_solid
        (c.subject ∷ role_code c.role ∷ kind c.token_type ∷ c.issued_at ∷ c.expires_at ∷ c.jti);
}
  where
    kept : (now : ℕ) (c : Claims) → now < c.expires_at → unexpired now (some c) ≡ some c
    kept now c time = ground arith

abbrev draws : Draws
draws = record { access_jti = text "a"; refresh_jti = text "r"; reset_token = text "s" }

-- Two accounts that can be told apart.
abbrev owner : User
owner = record dora { username = text "dora"; email = text "d@x" }

abbrev accounts : Db
accounts = record db { users = anna ∷ owner ∷ [] }

abbrev pair : Text × Text
pair = (
  create_access_token libraries draws env 4 RoleName.owner,
  create_refresh_token libraries draws env 4,
)

logged_in : (authenticate libraries draws env (text "dora") (text "h") accounts).0 ≡ ok pair
unfolding authenticate issue_token_pair new_tokens store_token decode_token create_access_token
    create_refresh_token
logged_in = refl

login_gives_access_example :
    (u : User) × Welcome libraries (text "dora") (text "h") accounts u
    × (get_current_user libraries env
          (some (text "Bearer " ++ pair.0))
          (authenticate libraries draws env (text "dora") (text "h") accounts).1
        ≡ ok u)
    × (require_permission libraries env PermissionCode.reservation_cancel_any
          (some (text "Bearer " ++ pair.0))
          (authenticate libraries draws env (text "dora") (text "h") accounts).1
        ≡ (if may u PermissionCode.reservation_cancel_any
            then ok u
            else err AppError.authorization))
login_gives_access_example =
    login_gives_access libraries draws env env (text "dora") (text "h")
      PermissionCode.reservation_cancel_any accounts pair libraries-Reads
      (
        (
          (
            omega arith,
            text_eq_ne (text "u") (text "dora") refl,
            text_eq_ne (text "u@x") (text "d@x") refl,
          ),
          tt,
        ),
        (tt, tt),
      )
      (omega arith) logged_in

-- Anna is disabled; the owner's token still serves.
disabled :
    (delete 1 owner accounts).0
    ≡ ok (record anna { is_active = false; status = UserStatus.disabled })
unfolding delete
disabled = refl

served :
    require_permission libraries env PermissionCode.reservation_cancel_any
      (some (text "Bearer " ++ pair.0))
      (delete 1 owner accounts).1
    ≡ ok owner
unfolding delete require_permission get_current_user decode_token create_access_token lower strip
served = refl

deactivated_shut_out_example : owner.id ≢ 1
deactivated_shut_out_example =
    deactivated_shut_out libraries env 1 owner accounts PermissionCode.reservation_cancel_any
      (some (text "Bearer " ++ pair.0)) disabled served
