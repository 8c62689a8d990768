-- ===== src/Core/Roles.antt =====
-- `RoleName` of app/core/constants.py. The constructors carry the stored values ("BOT", "USER",
-- ...), not the legacy attribute names, and `RoleName.DEVELOPER` of the source is `user` here.
use reservation_tool.Base.{Bool, true, false, List, [], ◌∷◌, ◌||◌}

pub data RoleName : Type 0 where
  bot user lead manager owner : RoleName

abbrev pub role_eq : RoleName → RoleName → Bool
role_eq RoleName.bot RoleName.bot = true
role_eq RoleName.user RoleName.user = true
role_eq RoleName.lead RoleName.lead = true
role_eq RoleName.manager RoleName.manager = true
role_eq RoleName.owner RoleName.owner = true
role_eq _ _ = false

-- `name in names`
abbrev pub role_in : List RoleName → RoleName → Bool
role_in [] r = false
role_in (n ∷ ns) r = role_eq n r || role_in ns r
