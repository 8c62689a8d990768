-- ===== src/Borrows/Returns.antt =====
-- The return of a borrow.
use reservation_tool.Base.{ℕ, ◌==◌, false, not, none, some, List, [], ◌∷◌, ◌++◌, map, modify, Text}
use reservation_tool.Core.Status.{AuditAction, EntityType, BorrowStatus, borrow_completed}
use reservation_tool.Core.Errors.{AppError, Result, ok, ◌>>=◌, ◌>>◌, raise_if, or_raise}
use reservation_tool.Core.Settings.{Env}
use reservation_tool.Db.Rows.{User, BorrowRequest, SetupAccessGrant, Journal, Db}
use reservation_tool.Db.Transaction.{Action, checked}
use reservation_tool.Notifications.{record_audit}
use reservation_tool.Setups.Table.{get_setup}
use reservation_tool.Borrows.Access.{
  get_borrow, get_grant_for_borrow, routed_approvers, assert_can_return,
}
use reservation_tool.Users.{get_user}
use reservation_tool.Borrows.Requests.{update_borrow, notify}

-- The guards of `return_borrow`; RETURNED and any other status but COMPLETED are conflicts.
unfoldable pub return_checks : Env → ℕ → User → Db → Result (BorrowRequest × SetupAccessGrant)
unfolding assert_can_return
return_checks env key actor db = do
  b ← or_raise (get_borrow key db.borrows) AppError.not_found
  raise_if (not (borrow_completed b.status)) AppError.conflict
  assert_can_return env db b actor
  grant ← or_raise (get_grant_for_borrow b.id db.grants) AppError.conflict
  raise_if (not grant.is_active) AppError.conflict
  ok (b, grant)

abbrev pub update_grant :
    ℕ → (SetupAccessGrant → SetupAccessGrant) → List SetupAccessGrant → List SetupAccessGrant
update_grant key = modify (λ g. g.id == key)

abbrev pub closed : Env → SetupAccessGrant → SetupAccessGrant
closed env g = record g { is_active = false; returned_at = some env.now }

abbrev pub returned : Env → User → BorrowRequest → BorrowRequest
returned env actor b = record b {
  status = BorrowStatus.returned;
  returned_at = some env.now;
  returned_by_id = some actor.id;
}

-- Who learns of a return: the addresses on the row, the approvers of today, the requester.
abbrev pub return_recipients : Env → BorrowRequest → Db → List Text
return_recipients env b db =
    b.routed_approver_emails
    ++ map (λ u. u.email) (routed_approvers env db b.source_group_id)
    ++ elim (get_user b.requester_id db.users) [ none ↦ [] | some u ↦ u.email ∷ [] ]

abbrev pub tell_returned : Env → BorrowRequest → User → Db → Journal → Result (Unit {0}) × Journal
tell_returned env b actor db j = elim (get_setup b.setup_id db.setups) [
  | none ↦ (ok tt, j)
  | some setup ↦
      notify env (return_recipients env b db) b.announcement_channels setup actor db.users j
]

-- The writes of `return_borrow`.
unfoldable pub store_returned : Env → User → BorrowRequest × SetupAccessGrant → Action BorrowRequest
unfolding notify
store_returned env actor (b, grant) db =
    let j =
      record_audit (some actor.id) AuditAction.update EntityType.borrow_request (some b.id)
        db.journal in
    let j1 =
      record_audit (some actor.id) AuditAction.update EntityType.setup_access_grant (some grant.id)
        j in
    let (posted, j') = tell_returned env b actor db j1 in
    (
      posted >> ok (returned env actor b),
      record db {
        grants = update_grant grant.id (closed env) db.grants;
        borrows = update_borrow b.id (returned env actor) db.borrows;
        journal = j';
      },
    )

-- `return_borrow`
unfoldable pub return_borrow : Env → ℕ → User → Action BorrowRequest
unfolding return_checks store_returned
return_borrow env key actor db =
    checked (return_checks env key actor db) (store_returned env actor) db
