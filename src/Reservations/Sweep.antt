-- ===== src/Reservations/Sweep.antt =====
-- `sweep_expired_reservations`: what a sweep that goes through has done.
pub mod Freed
pub mod Blocked
use reservation_tool.Base.{
  ℕ, ◌<◌, ◌≡◌, refl, sym, ap, ◌∙◌, subst, ◌⊎◌, inl, inr, true, false, Option, none, some, List, [],
  ◌∷◌, arith, ◌==◌, All, All-imp, All-modify, select, length, Memᴰ, map_option, select-cons_true,
  select-cons_false, select-complete, if◌then◌else◌, contains, Bool-cases, is_some,
}
use reservation_tool.Core.Status.{SetupStatus, ReservationStatus}
use reservation_tool.Core.Errors.{AppError, Result, ok, err, ◌>>◌, >>=-eq-ok, ok-injective}
use reservation_tool.Core.Settings.{Env}
use reservation_tool.Db.Rows.{User, Setup, Reservation, Journal, Db}
use reservation_tool.Db.Transaction.{
  request, and_then_keeps, and_then_ok, and_then_err, and_then_cases, request_err,
}
use reservation_tool.Notifications.Laws.{notify_expired_fails, notify_expired_raises}
use reservation_tool.Setups.Table.{
  get_setup, update_status, get-update_status, get-update_status_ne, with_status,
  get-update_status_any,
}
use reservation_tool.Users.{get_user}
use reservation_tool.Reservations.{
  is_expired, sweep_one, sweep_all, sweep_expired_reservations, reservation_ids, owner_of,
  notify_expired,
}
use reservation_tool.Reservations.Overlap.{IsExclusive}
use reservation_tool.Reservations.Cancel.{set_status-IsExclusive}

sweep_one-IsExclusive :
    (env : Env) (r : Reservation) (db : Db)
    → IsExclusive db.reservations
    → IsExclusive (sweep_one env r db).1.reservations
unfolding sweep_one
sweep_one-IsExclusive env r db v =
    set_status-IsExclusive r.id ReservationStatus.completed db.reservations refl v

sweep_all-IsExclusive :
    (env : Env) (rs : List Reservation) (db : Db)
    → IsExclusive db.reservations
    → IsExclusive (sweep_all env rs db).1.reservations
unfolding sweep_all
sweep_all-IsExclusive env [] db v = v
sweep_all-IsExclusive env (r ∷ rs) db v =
    and_then_keeps (λ d. IsExclusive d.reservations) (sweep_one env r db) (sweep_all env rs)
      (sweep_one-IsExclusive env r db v) (sweep_all-IsExclusive env rs)

-- Whatever the sweep returns, it keeps the ACTIVE reservations of each setup apart.
pub sweep-IsExclusive :
    (env : Env) (as_of : ℕ) (db : Db)
    → IsExclusive db.reservations
    → IsExclusive (sweep_expired_reservations env as_of db).1.reservations
unfolding sweep_expired_reservations
sweep-IsExclusive env as_of db v =
    sweep_all-IsExclusive env (select (is_expired as_of) db.reservations) db v

-- A row is not expired, or it is still waiting among these.
abbrev Settled : ℕ → List ℕ → Reservation → Type 0
Settled as_of ids r = (is_expired as_of r ≡ false) ⊎ (contains ids r.id ≡ true)

settle :
    (as_of key : ℕ) (ids : List ℕ) (r : Reservation)
    → Settled as_of (key ∷ ids) r
    → Settled as_of ids
        (if r.id == key then record r { status = ReservationStatus.completed } else r)
settle as_of key ids r h = ground arith

sweep_one-Settled :
    (env : Env) (as_of : ℕ) (r : Reservation) (ids : List ℕ) (db : Db)
    → All (Settled as_of (r.id ∷ ids)) db.reservations
    → All (Settled as_of ids) (sweep_one env r db).1.reservations
unfolding sweep_one
sweep_one-Settled env as_of r ids db h =
    All-modify (Settled as_of (r.id ∷ ids)) (Settled as_of ids) (λ x. x.id == r.id)
      (λ x. record x { status = ReservationStatus.completed }) (settle as_of r.id ids)
      db.reservations h

Settled-done : (as_of : ℕ) (r : Reservation) → Settled as_of [] r → is_expired as_of r ≡ false
Settled-done as_of r h = ground arith

sweep_all-Settled :
    (env : Env) (as_of : ℕ) (rs : List Reservation) (db : Db)
    → All (Settled as_of (reservation_ids rs)) db.reservations
    → (sweep_all env rs db).0 ≡ ok tt
    → All (λ r. is_expired as_of r ≡ false) (sweep_all env rs db).1.reservations
unfolding sweep_all
sweep_all-Settled env as_of [] db h e =
    All-imp (Settled as_of []) _ (Settled-done as_of) db.reservations h
sweep_all-Settled env as_of (r ∷ rs) db h e =
    let (_, rest) = and_then_ok (sweep_one env r db) (sweep_all env rs) e in
    subst (λ (m : Result (Unit {0}) × Db). All (λ x. is_expired as_of x ≡ false) m.1.reservations)
      (sym rest)
      (sweep_all-Settled env as_of rs (sweep_one env r db).1
        (sweep_one-Settled env as_of r (reservation_ids rs) db h)
        (ap (λ (m : Result (Unit {0}) × Db). m.0) (sym rest) ∙ e))

waits :
    (as_of key : ℕ) (ids : List ℕ) (r : Reservation)
    → Settled as_of ids r
    → Settled as_of (key ∷ ids) r
waits as_of key ids r (inl h) = inl h
waits as_of key ids r (inr h) = inr (ground arith)

-- Every row that is expired is among the selected ones.
select-Settled :
    (as_of : ℕ) (rows : List Reservation)
    → All (Settled as_of (reservation_ids (select (is_expired as_of) rows))) rows
select-Settled as_of [] = tt
select-Settled as_of (r ∷ rows) =
    let ids = reservation_ids (select (is_expired as_of) rows) in
    let Waiting = λ (l : List Reservation). All (Settled as_of (reservation_ids l)) (r ∷ rows) in
    elim (Bool-cases (is_expired as_of r)) [
      | inl t ↦ subst Waiting (sym (select-cons_true (is_expired as_of) rows t)) (
        inr (ground arith),
        All-imp (Settled as_of ids) (Settled as_of (r.id ∷ ids)) (waits as_of r.id ids) rows
            (select-Settled as_of rows),
      )
      | inr f ↦
          subst Waiting (sym (select-cons_false (is_expired as_of) rows f))
            (inl f, select-Settled as_of rows)
    ]

-- After a sweep that goes through, no ACTIVE reservation has an end at or before the time of the
-- sweep, and the number that it returns is that of the reservations it found expired.
pub sweep_clears :
    (env : Env) (as_of n : ℕ) (db : Db)
    → (sweep_expired_reservations env as_of db).0 ≡ ok n
    → All (λ r. is_expired as_of r ≡ false) (sweep_expired_reservations env as_of db).1.reservations
      × (n ≡ length (select (is_expired as_of) db.reservations))
unfolding sweep_expired_reservations
sweep_clears env as_of n db e =
    let rs = select (is_expired as_of) db.reservations in
    let (_, done, count) = >>=-eq-ok (sweep_all env rs db).0 (λ _. ok (length rs)) e in
    (
      sweep_all-Settled env as_of rs db (select-Settled as_of db.reservations) done,
      sym (ok-injective count),
    )
