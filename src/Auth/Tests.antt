-- ===== src/Auth/Tests.antt =====
-- The theorems on sessions at concrete inputs, with libraries that hash by doing nothing and that
-- write a token as its kind and its identifier.
use reservation_tool.Base.{
  ℕ, zero, suc, ◌≡◌, refl, true, false, none, some, Option, [], ◌∷◌, Text, text, text_eq, ap, sym,
  ◌∙◌, Memᴰ,
}
use mathlib.Core.Option.{some-injective}
use reservation_tool.Core.Errors.{AppError, ok, err}
use reservation_tool.Db.Rows.{User, PasswordResetToken, Db}
use reservation_tool.Users.{get_user}
use reservation_tool.Samples.{env, db}
use reservation_tool.Auth.{
  authenticate, refresh, refresh_checks, rotate, issue_token_pair, new_tokens, store_token,
  reset_password, reset_checks, store_reset_password,
}
use reservation_tool.Tokens.{
  TokenType, Claims, Security, Draws, IsStable, decode_token, create_access_token,
  create_refresh_token,
}
use reservation_tool.Auth.Sessions.{NoSession, refresh_once}
use reservation_tool.Auth.Logins.{Welcome, authenticate-Welcome, reset_once}

abbrev kind : TokenType → ℕ
kind TokenType.access = 0
kind TokenType.refresh_type = 1

abbrev read : Text → Option Claims
read [] = none
read (zero ∷ jti) = some (record {
  subject = 1;
  role = none;
  token_type = TokenType.access;
  issued_at = 0;
  expires_at = 9000;
  jti = jti;
})
read (suc _ ∷ jti) = some (record {
  subject = 1;
  role = none;
  token_type = TokenType.refresh_type;
  issued_at = 0;
  expires_at = 9000;
  jti = jti;
})

abbrev libraries : Security
libraries = record {
  hash = λ t. t;
  verify = text_eq;
  encode = λ c. kind c.token_type ∷ c.jti;
  decode = λ _. read;
  access_minutes = 30;
  refresh_days = 7;
  reset_minutes = 30;
  has_reset_repository = true;
  has_email = true;
}

abbrev draws : Draws
draws = record { access_jti = text "a"; refresh_jti = text "r"; reset_token = text "s" }

libraries-IsStable : IsStable libraries
libraries-IsStable now later token c d e f = ap (λ x. x.jti) (some-injective _ _ (sym e ∙ f))

-- A session of user 1, and a reset that waits.
abbrev in_use : Db
in_use = record db {
  refresh_tokens = record { jti = text "q"; user_id = 1; revoked = false; expires_at = 9000 } ∷ [];
  reset_tokens = record { token = text "z"; user_id = 1; used = false; expires_at = 9000 } ∷ [];
}

abbrev session : Text
session = 1 ∷ text "q"

abbrev pair : Text × Text
pair = (0 ∷ text "a", 1 ∷ text "r")

refreshed : (refresh libraries draws env session in_use).0 ≡ ok pair
unfolding refresh refresh_checks rotate issue_token_pair new_tokens store_token decode_token
    create_access_token create_refresh_token
refreshed = refl

refresh_once_example :
    (refresh libraries draws env session (refresh libraries draws env session in_use).1).0
    ≡ err AppError.authentication
refresh_once_example =
    refresh_once libraries draws draws env env session in_use pair libraries-IsStable refreshed

logged_in : (authenticate libraries draws env (text "u") (text "h") in_use).0 ≡ ok pair
unfolding authenticate issue_token_pair new_tokens store_token decode_token create_access_token
    create_refresh_token
logged_in = refl

authenticate-Welcome_example : (u : User) × Welcome libraries (text "u") (text "h") in_use u
authenticate-Welcome_example =
    authenticate-Welcome libraries draws env (text "u") (text "h") in_use pair logged_in

reset_run : (reset_password libraries env (text "z") (text "k") in_use).0 ≡ ok tt
unfolding reset_password reset_checks store_reset_password
reset_run = refl

reset_once_example :
    ((t : PasswordResetToken) × (u : User) × Memᴰ t in_use.reset_tokens
      × (t.token ≡ text "z")
      × (get_user t.user_id in_use.users ≡ some u)
      × (get_user t.user_id (reset_password libraries env (text "z") (text "k") in_use).1.users
          ≡ some (record u { password_hash = text "k" }))
      × NoSession t.user_id
          (reset_password libraries env (text "z") (text "k") in_use).1.refresh_tokens)
    × ((reset_password libraries env
          (text "z")
          (text "l")
          (reset_password libraries env (text "z") (text "k") in_use).1).0
        ≡ err AppError.authentication)
reset_once_example =
    reset_once libraries libraries env env (text "z") (text "k") (text "l") in_use reset_run
