-- ===== src/Borrows/Verdicts.antt =====
-- The decision of a borrow request and its withdrawal.
use reservation_tool.Base.{
  ℕ, ◌==◌, ◌=?◌, true, not, none, some, List, [], ◌∷◌, ◌++◌, map, is_some, if◌then◌else◌,
}
use reservation_tool.Core.Status.{AuditAction, EntityType, BorrowStatus, is_blocked, borrow_pending}
use reservation_tool.Core.Errors.{AppError, Result, ok, ◌>>=◌, ◌>>◌, raise_if, or_raise}
use reservation_tool.Core.Settings.{Env}
use reservation_tool.Db.Rows.{User, Setup, BorrowRequest, SetupAccessGrant, Journal, Db}
use reservation_tool.Db.Transaction.{Action, checked}
use reservation_tool.Notifications.{record_audit}
use reservation_tool.Setups.Table.{get_setup}
use reservation_tool.Users.{get_user}
use reservation_tool.Hardware.{ensure_fixed_baseline}
use reservation_tool.Borrows.Access.{
  get_borrow, get_active_grant_for_setup, get_grant_for_borrow, assert_can_decide,
}
use reservation_tool.Borrows.Requests.{update_borrow, with_status, notify, expire_stale_pending}

-- `status == EXPIRED` and `status != PENDING` are two conflicts.
abbrev pub pending_borrow : ℕ → Db → Result BorrowRequest
pending_borrow key db = do
  b ← or_raise (get_borrow key db.borrows) AppError.not_found
  raise_if (not (borrow_pending b.status)) AppError.conflict
  ok b

-- The guards of `approve` after the expiry; the last is the unique key of the table of grants,
-- which the engine checks when the grant is added.
unfoldable pub approve_checks : Env → ℕ → User → Db → Result (BorrowRequest × Setup)
unfolding assert_can_decide
approve_checks env key actor db = do
  b ← pending_borrow key db
  setup ← or_raise (get_setup b.setup_id db.setups) AppError.not_found
  raise_if (is_blocked setup.status) AppError.conflict
  raise_if (is_some (get_active_grant_for_setup setup.id db.grants)) AppError.conflict
  raise_if (not (setup.group_id =? b.source_group_id)) AppError.conflict
  assert_can_decide env db b actor
  raise_if (is_some (get_grant_for_borrow b.id db.grants)) AppError.internal
  ok (b, setup)

abbrev pub new_grant : Env → BorrowRequest → Setup → List SetupAccessGrant → SetupAccessGrant
new_grant env b setup rows = record {
  id = env.fresh_id (map (λ g. g.id) rows);
  setup_id = setup.id;
  borrow_request_id = b.id;
  source_group_id = b.source_group_id;
  granted_to_group_id = b.target_group_id;
  is_active = true;
  returned_at = none;
}

-- The decision, as the row keeps it.
abbrev pub decided : BorrowStatus → User → BorrowRequest → BorrowRequest
decided status actor b = record b { status = status; approved_by_id = some actor.id }

-- The mail to the requester of a decision.
unfoldable pub tell_requester :
    Env → BorrowRequest → Setup → User → List User → Journal → Result (Unit {0}) × Journal
unfolding notify
tell_requester env b setup actor users j = elim (get_user b.requester_id users) [
  | none ↦ (ok tt, j)
  | some u ↦ notify env (u.email ∷ []) [] setup actor users j
]

-- The writes of `approve`.
unfoldable pub store_approved : Env → User → BorrowRequest × Setup → Action BorrowRequest
unfolding tell_requester ensure_fixed_baseline
store_approved env actor (b, setup) db =
    let row = decided BorrowStatus.completed actor b in
    let j =
      record_audit (some actor.id) AuditAction.approve EntityType.borrow_request (some b.id)
        db.journal in
    let (posted, j') = tell_requester env b setup actor db.users j in
    (
      posted >> ok row,
      record db {
        baselines =
            if env.has_hardware_state
            then ensure_fixed_baseline setup db.baselines
            else db.baselines;
        grants = db.grants ++ new_grant env b setup db.grants ∷ [];
        borrows = update_borrow b.id (decided BorrowStatus.completed actor) db.borrows;
        journal = j';
      },
    )

-- `approve`
unfoldable pub approve : Env → ℕ → User → Action BorrowRequest
unfolding approve_checks store_approved expire_stale_pending
approve env key actor db =
    let db1 = expire_stale_pending env db in
    checked (approve_checks env key actor db1) (store_approved env actor) db1

-- The guards of `reject` after the expiry.
unfoldable pub reject_checks : Env → ℕ → User → Db → Result BorrowRequest
unfolding assert_can_decide
reject_checks env key actor db = do
  b ← pending_borrow key db
  assert_can_decide env db b actor
  ok b

-- The mail of `reject`, which needs the setup as well.
abbrev pub tell_rejected : Env → BorrowRequest → User → Db → Journal → Result (Unit {0}) × Journal
tell_rejected env b actor db j = elim (get_setup b.setup_id db.setups) [
  | none ↦ (ok tt, j)
  | some setup ↦ tell_requester env b setup actor db.users j
]

-- The writes of `reject`.
unfoldable pub store_rejected : Env → User → BorrowRequest → Action BorrowRequest
unfolding tell_requester
store_rejected env actor b db =
    let row = decided BorrowStatus.rejected actor b in
    let j =
      record_audit (some actor.id) AuditAction.reject EntityType.borrow_request (some b.id)
        db.journal in
    let (posted, j') = tell_rejected env b actor db j in
    (
      posted >> ok row,
      record db {
        borrows = update_borrow b.id (decided BorrowStatus.rejected actor) db.borrows;
        journal = j';
      },
    )

-- `reject`
unfoldable pub reject : Env → ℕ → User → Action BorrowRequest
unfolding reject_checks store_rejected expire_stale_pending
reject env key actor db =
    let db1 = expire_stale_pending env db in
    checked (reject_checks env key actor db1) (store_rejected env actor) db1

-- The guards of `cancel`.
unfoldable pub cancel_checks : ℕ → User → Db → Result BorrowRequest
cancel_checks key actor db = do
  b ← or_raise (get_borrow key db.borrows) AppError.not_found
  raise_if (not (b.requester_id == actor.id)) AppError.authorization
  raise_if (not (borrow_pending b.status)) AppError.conflict
  ok b

-- The writes of `cancel`.
unfoldable pub store_cancelled : User → BorrowRequest → Action BorrowRequest
store_cancelled actor b db = (
  ok (with_status BorrowStatus.cancelled b),
  record db {
    borrows = update_borrow b.id (with_status BorrowStatus.cancelled) db.borrows;
    journal =
        record_audit (some actor.id) AuditAction.cancel EntityType.borrow_request (some b.id)
          db.journal;
  },
)

-- `cancel`
unfoldable pub cancel : ℕ → User → Action BorrowRequest
unfolding cancel_checks store_cancelled
cancel key actor db = checked (cancel_checks key actor db) (store_cancelled actor) db
