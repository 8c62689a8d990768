-- ===== src/Reservations/Cancel.antt =====
-- `cancel`: who may cancel, and what a cancellation changes.
use reservation_tool.Base.{
  ℕ, ◌≡◌, refl, sym, ap, ◌∙◌, subst, ◌⊎◌, ◌↔◌, if◌then◌else◌, inl, inr, Bool, true, false, not,
  ◌&&◌, some, List, arith, ◌==◌, ==_iff, Pairwise-modify, find-some, find-modify, map_option,
  both_values,
}
use reservation_tool.Core.Permissions.{PermissionCode}
use reservation_tool.Core.Status.{SetupStatus, ReservationStatus, is_active}
use reservation_tool.Core.Errors.{ok, or_raise-eq-ok, raise_if-eq-ok, ok-injective, Result-cases}
use reservation_tool.Db.Rows.{User, Setup, Reservation, Db}
use reservation_tool.Setups.Table.{get_setup, get-update_status, with_status}
use reservation_tool.Reservations.{
  get_reservation, set_status, may, cancel_checks, store_cancelled, cancel,
}
use reservation_tool.Reservations.Overlap.{Collides, IsExclusive}

-- What the guards of `cancel` have established of the reservation that they return.
pub record MayCancel (key : ℕ) (actor : User) (db : Db) (r : Reservation) : Type 0 where
  pub found : get_reservation key db.reservations ≡ some r
  pub active : is_active r.status ≡ true
  pub allowed : (r.user_id ≡ actor.id) ⊎ (may actor PermissionCode.reservation_cancel_any ≡ true)

cancel_rights :
    (r : Reservation) (actor : User)
    → (not (r.user_id == actor.id) && not (may actor PermissionCode.reservation_cancel_any)) ≡ false
    → (r.user_id ≡ actor.id) ⊎ (may actor PermissionCode.reservation_cancel_any ≡ true)
cancel_rights r actor h = ground arith

-- The guards of `cancel` accept exactly an ACTIVE reservation that the acting user owns, or that he
-- may cancel by the permission `reservation:cancel_any`.
pub cancel_checks_iff :
    (key : ℕ) (actor : User) (db : Db) (r : Reservation)
    → (cancel_checks key actor db ≡ ok r) ↔ MayCancel key actor db r
unfolding cancel_checks
cancel_checks_iff key actor db r = (
  λ h.
      let (t, found, h1) = or_raise-eq-ok (get_reservation key db.reservations) _ _ h in
      let (active, h2) = raise_if-eq-ok (not (is_active t.status)) _ _ h1 in
      let (allowed, h3) =
        raise_if-eq-ok
          (not (t.user_id == actor.id) && not (may actor PermissionCode.reservation_cancel_any)) _ _
          h2 in
      subst (MayCancel key actor db) (ok-injective h3)
        (record { found = found; active = ground arith; allowed = cancel_rights t actor allowed }),
  λ m. rw (m.found, m.active) (ground (arith, m.allowed)),
)

uncollide :
    (s : ReservationStatus) (a b : Reservation) (p q : Bool)
    → is_active s ≡ false
    → Collides (if p then record a { status = s } else a) (if q then record b { status = s } else b)
    → Collides a b
uncollide s a b true q idle c = absurd (both_values idle c.0)
uncollide s a b false true idle c = absurd (both_values idle c.1)
uncollide s a b false false idle c = c

-- A status other than ACTIVE keeps the others apart.
pub set_status-IsExclusive :
    (key : ℕ) (s : ReservationStatus) (rows : List Reservation)
    → is_active s ≡ false
    → IsExclusive rows
    → IsExclusive (set_status key s rows)
set_status-IsExclusive key s rows idle =
    Pairwise-modify (λ a b. ¬ Collides a b) (λ r. r.id == key) (λ r. record r { status = s })
      (λ a b apart c. apart (uncollide s a b (a.id == key) (b.id == key) idle c)) rows

-- Whatever `cancel` returns, it keeps the ACTIVE reservations of each setup apart.
pub cancel-IsExclusive :
    (key : ℕ) (actor : User) (db : Db)
    → IsExclusive db.reservations
    → IsExclusive (cancel key actor db).1.reservations
unfolding cancel store_cancelled
cancel-IsExclusive key actor db v = elim (Result-cases (cancel_checks key actor db)) [
  | inl (r, e) ↦
      rw e (set_status-IsExclusive r.id ReservationStatus.cancelled db.reservations refl v)
  | inr (x, e) ↦ rw e v
]

get_reservation-id :
    (key : ℕ) (rows : List Reservation) {r : Reservation}
    → get_reservation key rows ≡ some r
    → r.id ≡ key
get_reservation-id key rows {r} e = (==_iff r.id key).0 (find-some (λ x. x.id == key) rows e)

abbrev pub cancelled_row : Reservation → Reservation
cancelled_row r = record r { status = ReservationStatus.cancelled }

get-set_cancelled :
    (key : ℕ) (rows : List Reservation) {r : Reservation}
    → get_reservation key rows ≡ some r
    → get_reservation key (set_status r.id ReservationStatus.cancelled rows)
      ≡ some (cancelled_row r)
get-set_cancelled key rows {r} e =
    subst
      (λ k.
        get_reservation key (set_status k ReservationStatus.cancelled rows)
        ≡ some (cancelled_row r))
      (sym (get_reservation-id key rows e))
      (find-modify (λ x. x.id == key) cancelled_row (λ x. refl) rows
        ∙ ap (map_option cancelled_row) e)

-- A permitted cancellation marks the reservation CANCELLED, and makes its setup AVAILABLE whatever
-- status the setup had before and whatever other reservations of it are still ACTIVE.
pub cancel_effect :
    (key : ℕ) (actor : User) (db : Db) (r : Reservation) (s : Setup)
    → MayCancel key actor db r
    → get_setup r.setup_id db.setups ≡ some s
    → let (result, db') = cancel key actor db in
      (result ≡ ok (cancelled_row r))
      × (get_reservation key db'.reservations ≡ some (cancelled_row r))
      × (get_setup r.setup_id db'.setups ≡ some (with_status SetupStatus.available s))
unfolding cancel store_cancelled
cancel_effect key actor db r s m e = rw ((cancel_checks_iff key actor db r).1 m) (
  refl,
  get-set_cancelled key db.reservations m.found,
  get-update_status r.setup_id SetupStatus.available db.setups
      ∙ ap (map_option (with_status SetupStatus.available)) e,
)
