-- ===== src/Users/Tests.antt =====
-- The theorems on users at concrete inputs.
use reservation_tool.Base.{
  ◌≡◌, ◌≢◌, ◌↔◌, ◌⊎◌, refl, true, some, [], ◌∷◌, text, text_eq_iff, both_values, arith,
}
use reservation_tool.Core.Roles.{RoleName}
use reservation_tool.Core.Permissions.{PermissionCode}
use reservation_tool.Core.Status.{UserStatus}
use reservation_tool.Core.Errors.{AppError, err, ok}
use reservation_tool.Db.Rows.{User, Db}
use reservation_tool.Samples.{env, next_key-IsFresh, anna, ben, dora, role, db}
use reservation_tool.Users.{UserApprovalRequest, get_user}
use reservation_tool.Users.Judging.{process_approval}
use reservation_tool.Users.Accounts.{
  IsSound, disables, reactivates, serve_users, serve_users-IsSound,
}
use reservation_tool.Users.Conditions.{MayJudge, Judged}
use reservation_tool.Users.Approvals.{process_approval_iff, lead_gives_any_role}

-- A registration in group 1.
abbrev newcomer : User
newcomer = record anna {
  id = 9;
  username = text "n";
  email = text "n@x";
  role = some (role RoleName.user []);
  status = UserStatus.pending;
}

abbrev registered : Db
registered = record db {
  users = ben ∷ newcomer ∷ [];
  roles = role RoleName.bot [] ∷ role RoleName.owner [] ∷ [];
}

names_differ : text "u" ≢ text "n"
names_differ e = both_values refl ((text_eq_iff (text "u") (text "n")).1 e)

mails_differ : text "u@x" ≢ text "n@x"
mails_differ e = both_values refl ((text_eq_iff (text "u@x") (text "n@x")).1 e)

registered-IsSound : IsSound registered.users
registered-IsSound =
    ((((omega arith, names_differ, mails_differ), tt), (tt, tt)), (refl, (refl, tt)))

serve_users-IsSound_example :
    IsSound
      (serve_users
        (record { env = env; actor = dora; work = disables 9 }
          ∷ record { env = env; actor = dora; work = reactivates 9 }
          ∷ [])
        registered).users
serve_users-IsSound_example =
    serve_users-IsSound
      (record { env = env; actor = dora; work = disables 9 }
        ∷ record { env = env; actor = dora; work = reactivates 9 }
        ∷ [])
      registered (next_key-IsFresh, (next_key-IsFresh, tt)) registered-IsSound

abbrev as_owner : UserApprovalRequest
as_owner = record { approve = true; role_name = some RoleName.owner }

-- What the newcomer becomes.
abbrev granted : User
granted = record newcomer {
  status = UserStatus.approved;
  role = some (role RoleName.owner []);
  approved_by_id = some ben.id;
  approved_at = some env.now;
}

process_approval_iff_example :
    (((process_approval env 9 as_owner ben registered).0 ≡ ok granted) ↔ (
      (u : User) × (get_user 9 registered.users ≡ some u)
      × (u.status ≡ UserStatus.pending)
      × MayJudge ben u
      × Judged env as_owner ben registered u granted))
    × (((e : AppError) × ((process_approval env 9 as_owner ben registered).0 ≡ err e))
        ⊎ ((x : User) × ((process_approval env 9 as_owner ben registered).0 ≡ ok x)
            × (get_user 9 (process_approval env 9 as_owner ben registered).1.users ≡ some x)))
process_approval_iff_example = process_approval_iff env 9 as_owner ben registered granted

lead_gives_any_role_example :
    get_user 9 (process_approval env 9 as_owner ben registered).1.users ≡ some granted
lead_gives_any_role_example =
    lead_gives_any_role env 9 1 RoleName.owner ben newcomer
      (role RoleName.lead (PermissionCode.reservation_cancel_any ∷ [])) (role RoleName.owner [])
      registered refl refl refl refl refl refl refl
