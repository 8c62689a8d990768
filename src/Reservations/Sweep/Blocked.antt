-- ===== src/Reservations/Sweep/Blocked.antt =====
-- A notification that is refused blocks the sweep.
use reservation_tool.Base.{
  ℕ, ◌<◌, ◌≡◌, ap, subst, true, Option, none, some, List, [], ◌∷◌, arith, ◌==◌, select, length,
  Memᴰ, select-complete, if◌then◌else◌,
}
use reservation_tool.Core.Status.{SetupStatus}
use reservation_tool.Core.Errors.{AppError, Result, ok, err, ◌>>◌}
use reservation_tool.Core.Settings.{Env}
use reservation_tool.Db.Rows.{User, Setup, Reservation, Journal, Db}
use reservation_tool.Db.Transaction.{request, and_then_err, and_then_cases, request_err}
use reservation_tool.Notifications.Laws.{notify_expired_fails, notify_expired_raises}
use reservation_tool.Setups.Table.{get_setup, with_status, get-update_status_any}
use reservation_tool.Users.{get_user}
use reservation_tool.Reservations.{
  is_expired, sweep_one, sweep_all, sweep_expired_reservations, owner_of, notify_expired,
}

-- The notification about `r` would have a title of more than 200 characters.
abbrev pub HasLongTitle : Db → Reservation → Type 0
HasLongTitle db r =
    (s : Setup) × (u : User) × (get_setup r.setup_id db.setups ≡ some s)
    × (get_user r.user_id db.users ≡ some u)
    × (179 < length s.hostname)

sweep_one_fails :
    (env : Env) (r : Reservation) (db : Db)
    → env.has_notification ≡ true
    → HasLongTitle db r
    → (sweep_one env r db).0 ≡ err AppError.internal
unfolding sweep_one
sweep_one_fails env r db on (s, u, es, eu, long) =
    simp (es, on, eu) (notify_expired_fails env (owner_of s db.users) u s _ long)

sweep_one-HasLongTitle :
    (env : Env) (q r : Reservation) (db : Db)
    → HasLongTitle db r
    → HasLongTitle (sweep_one env q db).1 r
unfolding sweep_one
sweep_one-HasLongTitle env q r db (s, u, es, eu, long) = (
  if q.setup_id == r.setup_id then with_status SetupStatus.available s else s,
  u,
  get-update_status_any q.setup_id r.setup_id SetupStatus.available db.setups es,
  eu,
  ground arith,
)

notify_step_raises :
    (env : Env) (r : Reservation) (s : Option Setup) (users : List User) (j : Journal)
    (e : AppError)
    → (notify_expired env r s users j).0 ≡ err e
    → e ≡ AppError.internal
notify_step_raises env r none users j e h = absurd (cc)
notify_step_raises env r (some s) users j e h =
    ground (arith, notify_expired_raises env (owner_of s users) (get_user r.user_id users) s j e)

sweep_one-raises :
    (env : Env) (r : Reservation) (db : Db) (e : AppError)
    → (sweep_one env r db).0 ≡ err e
    → e ≡ AppError.internal
unfolding sweep_one
sweep_one-raises env r db e h =
    notify_step_raises env r (get_setup r.setup_id db.setups) db.users _ e h

-- The loop stops at such a reservation, or at an earlier one of the kind.
sweep_all_fails :
    (env : Env) (rs : List Reservation) (db : Db) (r : Reservation)
    → env.has_notification ≡ true
    → Memᴰ r rs
    → HasLongTitle db r
    → (sweep_all env rs db).0 ≡ err AppError.internal
unfolding sweep_all
sweep_all_fails env [] db r on m long = elim m [ ]
sweep_all_fails env (q ∷ rs) db r on (Memᴰ.head e) long =
    and_then_err (sweep_one env q db) (sweep_all env rs)
      (sweep_one_fails env q db on (subst (HasLongTitle db) e long))
sweep_all_fails env (q ∷ rs) db r on (Memᴰ.tail m) long =
    and_then_cases (sweep_one env q db) (sweep_all env rs)
      (λ done.
        sweep_all_fails env rs (sweep_one env q db).1 r on m
          (sweep_one-HasLongTitle env q r db long))
      (λ e raised. ap err (sweep_one-raises env q db e raised))

-- While the service notifies, one expired reservation by a known user, on a setup whose hostname
-- has more than 179 characters, makes the whole sweep raise, and after the rollback no reservation
-- at all has been completed.
pub sweep_blocked :
    (env : Env) (as_of : ℕ) (db : Db) (r : Reservation)
    → env.has_notification ≡ true
    → Memᴰ r db.reservations
    → is_expired as_of r ≡ true
    → HasLongTitle db r
    → let (result, db') = request (sweep_expired_reservations env as_of) db in
      (result ≡ err AppError.internal) × (db'.reservations ≡ db.reservations)
unfolding sweep_expired_reservations
sweep_blocked env as_of db r on m old long =
    let rs = select (is_expired as_of) db.reservations in
    let found = select-complete (is_expired as_of) r db.reservations m old in
    let raised : (sweep_expired_reservations env as_of db).0 ≡ err AppError.internal =
      ap (λ (x : Result (Unit {0})). x >> ok (length rs))
        (sweep_all_fails env rs db r on found long) in
    let back = request_err (sweep_expired_reservations env as_of) db raised in
    (ap (λ (x : Result ℕ × Db). x.0) back, ap (λ (x : Result ℕ × Db). x.1.reservations) back)
