-- ===== src/Access.antt =====
-- Who a request is made by, and what it may do: the last part of app/api/deps.py, over the lookup of
-- permissions in app/services/role_lookup_service.py.
pub mod Tokens
pub mod Disabled
mod Tests
use reservation_tool.Base.{
  Bool, true, false, not, ◌&&◌, Option, none, some, List, [], ◌∷◌, ◌==◌, Text, text, strip, lower,
  if◌then◌else◌,
}
use reservation_tool.Core.Permissions.{PermissionCode}
use reservation_tool.Core.Errors.{AppError, Result, ok, err, ◌>>=◌, ◌>>◌, raise_if, or_raise}
use reservation_tool.Core.Settings.{Env}
use reservation_tool.Db.Rows.{User, Db}
use reservation_tool.Tokens.{Security, TokenType, decode_token}
use reservation_tool.Users.{get_user}
use reservation_tool.Reservations.{may}

-- `s.startswith(prefix)`
abbrev pub starts_with : Text → Text → Bool
starts_with [] s = true
starts_with (p ∷ ps) [] = false
starts_with (p ∷ ps) (c ∷ cs) = p == c && starts_with ps cs

-- `s.split(" ", 1)[1]`, of a text with a space
abbrev pub after_space : Text → Text
after_space [] = []
after_space (c ∷ cs) = let rest = after_space cs in if c == 32 then cs else rest

-- The account that a token names, which must still be active.
abbrev pub active_account : Option User → Result User
active_account o = do
  u ← or_raise o AppError.authentication
  raise_if (not u.is_active) AppError.authentication
  ok u

-- `get_current_user`, of the header `Authorization`; a token of the application has a subject.
unfoldable pub get_current_user : Security → Env → Option Text → Db → Result User
unfolding decode_token lower strip
get_current_user s env none db = err AppError.authentication
get_current_user s env (some header) db = do
  raise_if (not (starts_with (text "bearer ") (lower header))) AppError.authentication
  c ← decode_token s env (strip (after_space header)) TokenType.access
  active_account (get_user c.subject db.users)

-- `require_permission`
unfoldable pub require_permission : Security → Env → PermissionCode → Option Text → Db → Result User
unfolding get_current_user
require_permission s env code header db = do
  u ← get_current_user s env header db
  raise_if (not (may u code)) AppError.authorization
  ok u
