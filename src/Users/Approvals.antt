-- ===== src/Users/Approvals.antt =====
-- `process_approval`: exactly when a registration is decided, and with which role.
use reservation_tool.Base.{
  ℕ, ◌≡◌, refl, sym, ap, ◌∙◌, ◌↔◌, ◌⊎◌, inl, inr, true, Option, none, some, ◌==◌, ==_iff, modify,
  find-modify, find-some, map_option,
}
use reservation_tool.Core.Roles.{RoleName}
use reservation_tool.Core.Status.{UserStatus}
use reservation_tool.Core.Errors.{AppError, Result-cases, err, ok, ok-injective}
use reservation_tool.Core.Settings.{Env}
use reservation_tool.Db.Rows.{Role, User, Db}
use reservation_tool.Db.Transaction.{checked, checked_ok}
use reservation_tool.Users.{UserApprovalRequest, get_user, get_role_by_name, store_change}
use reservation_tool.Users.Judging.{judged, approval_checks, store_judged, process_approval}
use reservation_tool.Users.Conditions.{
  MayJudge, Judged, approval_checks-Passes, Passes-approval_checks, Passes-iff, judged_iff,
}

-- The row of an accepted decision is stored.
process_approval-stored :
    (env : Env) (key : ℕ) (p : UserApprovalRequest) (actor : User) (db : Db) {r : User}
    → (process_approval env key p actor db).0 ≡ ok r
    → get_user key (process_approval env key p actor db).1.users ≡ some r
unfolding process_approval store_judged store_change
process_approval-stored env key p actor db {r} h =
    let ((u, role), e, stored, run) =
      checked_ok (approval_checks key p actor db) (store_judged env actor) db h in
    let found = (approval_checks-Passes key p actor db e).found in
    ap (λ x. get_user key x.1.users) run
    ∙ ap (λ k. get_user key (modify (λ x. x.id == k) (judged env actor role) db.users))
        ((==_iff u.id key).0 (find-some (λ x. x.id == key) db.users found))
    ∙ find-modify (λ x. x.id == key) (judged env actor role)
        (λ x. ap (λ k. k == key) (judged-id role x)) db.users
    ∙ ap (map_option (judged env actor role)) found
    ∙ ap some (ok-injective stored)
  where
    judged-id : (o : Option Role) (x : User) → (judged env actor o x).id ≡ x.id
    judged-id none x = refl
    judged-id (some y) x = refl

-- A decision on a registration succeeds exactly for a stored PENDING account, by a user with a role who
-- is an owner or a manager or has the account's own group, and, for an approval, when the role that is
-- asked for, or BOT where none is, is found. What it returns is the account: on an approval APPROVED
-- with that role, by this user, now; on a refusal REJECTED and inactive; and otherwise as it was. Each
-- decision either raises or stores the account that it returns.
pub process_approval_iff :
    (env : Env) (key : ℕ) (p : UserApprovalRequest) (actor : User) (db : Db) (r : User)
    → (((process_approval env key p actor db).0 ≡ ok r) ↔ (
        (u : User) × (get_user key db.users ≡ some u)
        × (u.status ≡ UserStatus.pending)
        × MayJudge actor u
        × Judged env p actor db u r))
      × (((e : AppError) × ((process_approval env key p actor db).0 ≡ err e))
          ⊎ ((x : User) × ((process_approval env key p actor db).0 ≡ ok x)
              × (get_user key (process_approval env key p actor db).1.users ≡ some x)))
unfolding process_approval store_judged store_change
process_approval_iff env key p actor db r = (
  (
    λ h.
        let (q, e, stored, _) =
          checked_ok (approval_checks key p actor db) (store_judged env actor) db h in
        let (found, waits, may, granted) =
          (Passes-iff key p actor db q.0 q.1).0 (approval_checks-Passes key p actor db e) in
        (
          q.0,
          found,
          waits,
          may,
          (judged_iff env p actor db q.0 r).0 (q.1, granted, sym (ok-injective stored)),
        ),
    λ h.
        let (u, found, waits, may, verdict) = h in
        let (role, granted, same) = (judged_iff env p actor db u r).1 verdict in
        ap (λ m. (checked m (store_judged env actor) db).0)
          (Passes-approval_checks key p actor db
            ((Passes-iff key p actor db u role).1 (found, waits, may, granted)))
        ∙ ap ok (sym same),
  ),
  elim (Result-cases (process_approval env key p actor db).0) [
    | inl (x, e) ↦ inr (x, e, process_approval-stored env key p actor db e)
    | inr (x, e) ↦ inl (x, e)
  ],
)

-- The role that a lead gives is not restricted: in the lead's own group a PENDING account is approved
-- with any role that is found, the owner's too, though a lead manages only users and bots; the account
-- is stored as APPROVED with that role, by the lead, now.
pub lead_gives_any_role :
    (env : Env) (key g : ℕ) (name : RoleName) (actor u : User) (mine r : Role) (db : Db)
    → get_user key db.users ≡ some u
    → u.status ≡ UserStatus.pending
    → u.group_id ≡ some g
    → actor.group_id ≡ some g
    → actor.role ≡ some mine
    → mine.name ≡ RoleName.lead
    → get_role_by_name name db.roles ≡ ok r
    → get_user key
        (process_approval env key
          (record { approve = true; role_name = some name })
          actor
          db).1.users
      ≡ some (record u {
        status = UserStatus.approved;
        role = some r;
        approved_by_id = some actor.id;
        approved_at = some env.now;
      })
lead_gives_any_role env key g name actor u mine r db found waiting theirs ours has_role lead
      configured =
    process_approval-stored env key (record { approve = true; role_name = some name }) actor db
      ((process_approval_iff env key (record { approve = true; role_name = some name }) actor db
          _).0.1
        (
          u,
          found,
          waiting,
          (mine, has_role, inr (inr (g, theirs, ours))),
          inl (refl, name, r, inl refl, configured, refl),
        ))
