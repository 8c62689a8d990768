-- ===== src/Reservations.antt =====
-- app/services/reservation_service.py over app/repositories/sqlalchemy/reservation_repository.py,
-- and the request of app/schemas/reservation.py.
pub mod Overlap
pub mod Create
pub mod Cancel
pub mod Sweep
pub mod Histories
mod Tests
use reservation_tool.Base.{
  ℕ, ◌+◌, ◌*◌, Bool, true, false, Option, none, some, List, [], ◌∷◌, ◌++◌, map, length, ltb, leb,
  ◌==◌, ◌||◌, ◌&&◌, not, select, find, modify, if◌then◌else◌, is_some,
}
use reservation_tool.Core.Permissions.{PermissionCode, has_code}
use reservation_tool.Core.Status.{
  AuditAction, EntityType, Channel, SetupStatus, ReservationStatus, is_blocked, is_active,
}
use reservation_tool.Core.Errors.{AppError, Result, ok, err, ◌>>=◌, ◌>>◌, raise_if, or_raise}
use reservation_tool.Core.Settings.{Env}
use reservation_tool.Db.Rows.{Role, User, Setup, Reservation, Journal, Db}
use reservation_tool.Db.Transaction.{Action, checked, and_then}
use reservation_tool.Notifications.{
  record_audit, broadcast_reservation_event, notify_reservation_expired,
}
use reservation_tool.Users.{get_user}
use reservation_tool.Setups.Table.{get_setup, update_status}

-- The payload that the endpoint has validated.
pub record ReservationCreateRequest : Type 0 where
  pub setup_id : ℕ
  pub reserved_from : ℕ
  pub reserved_until : ℕ
  pub announcement_channels : List Channel

-- `_validate_window`: `reserved_until` must be after `reserved_from`.
abbrev pub valid_window : ReservationCreateRequest → Bool
valid_window p = ltb p.reserved_from p.reserved_until

abbrev pub get_reservation : ℕ → List Reservation → Option Reservation
get_reservation key = find (λ r. r.id == key)

-- The query of `find_overlapping`; `excluded` is `exclude_reservation_id`.
abbrev pub overlaps : ℕ → ℕ → ℕ → Option ℕ → Reservation → Bool
overlaps setup from until excluded r =
    (r.setup_id == setup)
    && is_active r.status
    && (ltb r.reserved_from until && ltb from r.reserved_until)
    && elim excluded [ none ↦ true | some key ↦ not (r.id == key) ]

pub find_overlapping : ℕ → ℕ → ℕ → Option ℕ → List Reservation → List Reservation
find_overlapping setup from until excluded = select (overlaps setup from until excluded)

-- `_assert_min_lead_time`; the times are instants, so no zone is left to convert.
pub assert_min_lead_time : Env → ℕ → Result (Unit {0})
assert_min_lead_time env from =
    if env.min_lead_minutes == 0
    then ok tt
    else raise_if (ltb from (env.now + env.min_lead_minutes * 60000000)) AppError.validation

-- `_assert_no_overlap`
pub assert_no_overlap : ℕ → ℕ → ℕ → Option ℕ → List Reservation → Result (Unit {0})
unfolding find_overlapping
assert_no_overlap setup from until excluded rows =
    elim (find_overlapping setup from until excluded rows) [
      | [] ↦ ok tt
      | _ ∷ _ ↦ err AppError.reservation_conflict
    ]

-- The guards of `create`, in their order.
pub create_checks : Env → ReservationCreateRequest → Db → Result Setup
unfolding assert_min_lead_time assert_no_overlap
create_checks env p db = do
  setup ← or_raise (get_setup p.setup_id db.setups) AppError.not_found
  raise_if (is_blocked setup.status) AppError.conflict
  assert_min_lead_time env p.reserved_from
  assert_no_overlap p.setup_id p.reserved_from p.reserved_until none db.reservations
  ok setup

abbrev pub reservation_ids : List Reservation → List ℕ
reservation_ids = map (λ r. r.id)

abbrev pub new_reservation : Env → ReservationCreateRequest → User → Db → Reservation
new_reservation env p actor db = record {
  id = env.fresh_id (reservation_ids db.reservations);
  setup_id = p.setup_id;
  user_id = actor.id;
  reserved_from = p.reserved_from;
  reserved_until = p.reserved_until;
  status = ReservationStatus.active;
}

-- `if payload.announcement_channels and self._notification_service is not None`
abbrev announce :
    Env
    → ReservationCreateRequest
    → User
    → Setup
    → List User
    → Journal
    → Result (Unit {0}) × Journal
announce env p actor setup users j =
    if env.has_notification
    then broadcast_reservation_event env p.announcement_channels setup actor users j
    else (ok tt, j)

-- The writes of `create`.
pub store_reservation : Env → ReservationCreateRequest → User → Setup → Action Reservation
store_reservation env p actor setup db =
    let row = new_reservation env p actor db in
    let j =
      record_audit (some actor.id) AuditAction.create EntityType.reservation (some row.id)
        db.journal in
    let (posted, j') = announce env p actor setup db.users j in
    (
      posted >> ok row,
      record db {
        reservations = db.reservations ++ row ∷ [];
        setups = update_status setup.id SetupStatus.reserved db.setups;
        journal = j';
      },
    )

-- `create`
pub create : Env → ReservationCreateRequest → User → Action Reservation
unfolding create_checks store_reservation
create env p actor db = checked (create_checks env p db) (store_reservation env p actor) db

-- `role_has_permission(acting_user.role, code)`; a user without a role has none.
abbrev pub may : User → PermissionCode → Bool
may u code = elim u.role [ none ↦ false | some r ↦ has_code r.permissions code ]

abbrev pub set_status : ℕ → ReservationStatus → List Reservation → List Reservation
set_status key s = modify (λ r. r.id == key) (λ r. record r { status = s })

-- The guards of `cancel`.
pub cancel_checks : ℕ → User → Db → Result Reservation
cancel_checks key actor db = do
  reservation ← or_raise (get_reservation key db.reservations) AppError.not_found
  raise_if (not (is_active reservation.status)) AppError.conflict
  let is_owner = reservation.user_id == actor.id
  let can_cancel_any = may actor PermissionCode.reservation_cancel_any
  raise_if (not is_owner && not can_cancel_any) AppError.authorization
  ok reservation

-- The writes of `cancel`.
pub store_cancelled : User → Reservation → Action Reservation
store_cancelled actor reservation db = (
  ok (record reservation { status = ReservationStatus.cancelled }),
  record db {
    reservations = set_status reservation.id ReservationStatus.cancelled db.reservations;
    setups = update_status reservation.setup_id SetupStatus.available db.setups;
    journal =
        record_audit (some actor.id) AuditAction.cancel EntityType.reservation (some reservation.id)
          db.journal;
  },
)

-- `cancel`
pub cancel : ℕ → User → Action Reservation
unfolding cancel_checks store_cancelled
cancel key actor db = checked (cancel_checks key actor db) (store_cancelled actor) db

-- The query of `list_expired_active`.
abbrev pub is_expired : ℕ → Reservation → Bool
is_expired as_of r = is_active r.status && leb r.reserved_until as_of

-- `setup.owner`
abbrev owner_of : Setup → List User → Option User
owner_of s users = elim s.owner_id [ none ↦ none | some key ↦ get_user key users ]

-- `if self._notification_service is not None and setup is not None`
abbrev notify_expired :
    Env → Reservation → Option Setup → List User → Journal → Result (Unit {0}) × Journal
notify_expired env r none users j = (ok tt, j)
notify_expired env r (some s) users j =
    if env.has_notification
    then notify_reservation_expired env (owner_of s users) (get_user r.user_id users) s j
    else (ok tt, j)

-- The body of the loop of `sweep_expired_reservations`.
pub sweep_one : Env → Reservation → Action (Unit {0})
sweep_one env r db =
    let setup = get_setup r.setup_id db.setups in
    let j = record_audit none AuditAction.update EntityType.reservation (some r.id) db.journal in
    let (posted, j') = notify_expired env r setup db.users j in
    (
      posted,
      record db {
        reservations = set_status r.id ReservationStatus.completed db.reservations;
        setups = update_status r.setup_id SetupStatus.available db.setups;
        journal = j';
      },
    )

pub sweep_all : Env → List Reservation → Action (Unit {0})
sweep_all env [] db = (ok tt, db)
sweep_all env (r ∷ rs) db = and_then (sweep_one env r db) (sweep_all env rs)

-- `sweep_expired_reservations`
pub sweep_expired_reservations : Env → ℕ → Action ℕ
sweep_expired_reservations env as_of db =
    let expired = select (is_expired as_of) db.reservations in
    let (swept, db') = sweep_all env expired db in (swept >> ok (length expired), db')
