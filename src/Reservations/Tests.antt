-- ===== src/Reservations/Tests.antt =====
-- The theorems on reservations at concrete inputs, and runs of the service.
use reservation_tool.Base.{
  ℕ, zero, suc, ◌≡◌, length, select, All, Text, arith, Memᴰ, refl, inl, inr, false, some, List, [],
  ◌∷◌, text, ◌↔◌,
}
use reservation_tool.Core.Status.{SetupStatus, ReservationStatus}
use reservation_tool.Core.Errors.{AppError, ok, err}
use reservation_tool.Db.Rows.{Setup, Reservation, Db}
use reservation_tool.Db.Transaction.{request}
use reservation_tool.Setups.Table.{get_setup, with_status}
use reservation_tool.Notifications.{notify_reservation_expired}
use reservation_tool.Samples.{env, anna, ben, machine, booking, db}
use reservation_tool.Reservations.{
  ReservationCreateRequest, create_checks, cancel, is_expired, sweep_expired_reservations,
  get_reservation, sweep_all, sweep_one,
}
use reservation_tool.Reservations.Overlap.{IsExclusive}
use reservation_tool.Reservations.Create.{CanReserve, create_checks_iff}
use reservation_tool.Reservations.Cancel.{MayCancel, cancel_effect, cancelled_row}
use reservation_tool.Reservations.Sweep.{sweep_clears}
use reservation_tool.Reservations.Sweep.Freed.{sweep_frees, status_of}
use reservation_tool.Reservations.Sweep.Blocked.{sweep_blocked}
use reservation_tool.Reservations.Histories.{
  Call, creates, cancels, sweeps, serve, serve-IsExclusive,
}

abbrev request_10 : ReservationCreateRequest
request_10 = record {
  setup_id = 10;
  reserved_from = 300;
  reserved_until = 400;
  announcement_channels = [];
}

abbrev setup_10 : Setup
setup_10 = machine 10 1 (text "a") SetupStatus.reserved

can_reserve : CanReserve env request_10 db setup_10
can_reserve = record {
  found = refl;
  in_service = inr refl;
  in_time = inl refl;
  apart = (λ _ _ m. omega arith, (λ _ _ m. omega arith, tt));
}

create_checks_iff_example :
    (create_checks env request_10 db ≡ ok setup_10) ↔ CanReserve env request_10 db setup_10
create_checks_iff_example = create_checks_iff env request_10 db setup_10 (omega arith) (omega arith)

abbrev booked : Reservation
booked = booking 1 10 100 200 ReservationStatus.active

-- Anna made the reservation; Ben holds the permission.
may_cancel : MayCancel 1 ben db booked
may_cancel = record { found = refl; active = refl; allowed = inr refl }

-- Reservation 2 still holds the setup that becomes AVAILABLE.
cancel_effect_example :
    let (result, db') = cancel 1 ben db in
    (result ≡ ok (cancelled_row booked))
    × (get_reservation 1 db'.reservations ≡ some (cancelled_row booked))
    × (get_setup 10 db'.setups ≡ some (with_status SetupStatus.available setup_10))
cancel_effect_example = cancel_effect 1 ben db booked setup_10 may_cancel refl

sweep_at_250 : (sweep_expired_reservations env 250 db).0 ≡ ok 1
unfolding sweep_expired_reservations sweep_all sweep_one notify_reservation_expired
sweep_at_250 = refl

sweep_clears_example :
    All (λ r. is_expired 250 r ≡ false) (sweep_expired_reservations env 250 db).1.reservations
    × (1 ≡ length (select (is_expired 250) db.reservations))
sweep_clears_example = sweep_clears env 250 1 db sweep_at_250

sweep_frees_example :
    status_of 10 (sweep_expired_reservations env 250 db).1.setups ≡ some SetupStatus.available
sweep_frees_example = sweep_frees env 250 1 db booked sweep_at_250 (Memᴰ.head refl) refl refl

abbrev repeat : ℕ → Text
repeat zero = []
repeat (suc n) = 97 ∷ repeat n

-- The same database, where the hostname of setup 10 has 180 letters.
abbrev long_db : Db
long_db = record db { setups = machine 10 1 (repeat 180) SetupStatus.reserved ∷ [] }

sweep_blocked_example :
    let (result, db') = request (sweep_expired_reservations env 250) long_db in
    (result ≡ err AppError.internal) × (db'.reservations ≡ long_db.reservations)
sweep_blocked_example =
    sweep_blocked env 250 long_db booked refl (Memᴰ.head refl) refl
      (machine 10 1 (repeat 180) SetupStatus.reserved, anna, refl, refl, omega arith)

abbrev history : List Call
history =
    creates env request_10 anna
    ∷ creates env (record request_10 { reserved_from = 250 }) ben
    ∷ cancels 1 ben
    ∷ sweeps env 300
    ∷ []

db-IsExclusive : IsExclusive db.reservations
db-IsExclusive = ((λ c. omega arith, tt), (tt, tt))

serve-IsExclusive_example : IsExclusive (serve history db).reservations
serve-IsExclusive_example = serve-IsExclusive history db db-IsExclusive
