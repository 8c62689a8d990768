-- ===== src/Tokens.antt =====
-- The tokens of app/core/security.py, and the refresh tokens that are stored by
-- app/repositories/sqlalchemy/refresh_token_repository.py.
use reservation_tool.Base.{
  ℕ, ◌+◌, ◌*◌, ◌==◌, ◌≡◌, Bool, true, false, not, ◌&&◌, Option, none, some, List, find, modify,
  Text, text_eq,
}
use reservation_tool.Core.Roles.{RoleName}
use reservation_tool.Core.Errors.{AppError, Result, ok, ◌>>=◌, ◌>>◌, raise_if, or_raise}
use reservation_tool.Core.Settings.{Env}
use reservation_tool.Db.Rows.{RefreshToken}

pub data TokenType : Type 0 where
  access refresh_type : TokenType

abbrev pub type_eq : TokenType → TokenType → Bool
type_eq TokenType.access TokenType.access = true
type_eq TokenType.refresh_type TokenType.refresh_type = true
type_eq _ _ = false

-- The claims of a token.
pub record Claims : Type 0 where
  pub subject : ℕ
  pub role : Option RoleName
  pub token_type : TokenType
  pub issued_at : ℕ
  pub expires_at : ℕ
  pub jti : Text

-- The libraries: `passlib` hashes and verifies, `jose` signs and reads tokens at a given time; and
-- the settings of the tokens.
pub record Security : Type 0 where
  pub hash : Text → Text
  pub verify : Text → Text → Bool
  pub encode : Claims → Text
  pub decode : ℕ → Text → Option Claims
  pub access_minutes : ℕ
  pub refresh_days : ℕ
  pub reset_minutes : ℕ
  -- whether the optional collaborators for resets are there
  pub has_reset_repository : Bool
  pub has_email : Bool

-- What one call draws at random: two `uuid4` and one `token_urlsafe`.
pub record Draws : Type 0 where
  pub access_jti : Text
  pub refresh_jti : Text
  pub reset_token : Text

-- Read at two times, a token says the same whenever it is accepted.
abbrev pub IsStable : Security → Type 0
IsStable s =
    (now later : ℕ) (token : Text) (c d : Claims)
    → s.decode now token ≡ some c
    → s.decode later token ≡ some d
    → c.jti ≡ d.jti

abbrev pub minute : ℕ
minute = 60000000

abbrev pub day : ℕ
day = 86400000000

-- `create_access_token`
unfoldable pub create_access_token : Security → Draws → Env → ℕ → RoleName → Text
create_access_token s d env user role = s.encode (record {
  subject = user;
  role = some role;
  token_type = TokenType.access;
  issued_at = env.now;
  expires_at = env.now + s.access_minutes * minute;
  jti = d.access_jti;
})

-- `create_refresh_token`
unfoldable pub create_refresh_token : Security → Draws → Env → ℕ → Text
create_refresh_token s d env user = s.encode (record {
  subject = user;
  role = none;
  token_type = TokenType.refresh_type;
  issued_at = env.now;
  expires_at = env.now + s.refresh_days * day;
  jti = d.refresh_jti;
})

-- `decode_token`
unfoldable pub decode_token : Security → Env → Text → TokenType → Result Claims
decode_token s env token expected = do
  c ← or_raise (s.decode env.now token) AppError.authentication
  raise_if (not (type_eq c.token_type expected)) AppError.authentication
  ok c

abbrev pub get_by_jti : Text → List RefreshToken → Option RefreshToken
get_by_jti jti = find (λ t. text_eq t.jti jti)

abbrev pub revoked : RefreshToken → RefreshToken
revoked t = record t { revoked = true }

-- `revoke`
abbrev pub revoke : Text → List RefreshToken → List RefreshToken
revoke jti = modify (λ t. text_eq t.jti jti) revoked

-- `revoke_all_for_user`
abbrev pub revoke_all_for_user : ℕ → List RefreshToken → List RefreshToken
revoke_all_for_user key = modify (λ t. t.user_id == key && not t.revoked) revoked
