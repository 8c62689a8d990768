-- ===== src/Reservations/Sweep/Freed.antt =====
-- A sweep that goes through frees the setup of every reservation that it completes.
use reservation_tool.Base.{
  ℕ, ◌≡◌, sym, ap, ◌∙◌, subst, true, Option, some, List, [], ◌∷◌, arith, select, length, Memᴰ,
  map_option, select-complete, is_some,
}
use reservation_tool.Core.Status.{SetupStatus}
use reservation_tool.Core.Errors.{Result, ok, >>=-eq-ok}
use reservation_tool.Core.Settings.{Env}
use reservation_tool.Db.Rows.{Setup, Reservation, Db}
use reservation_tool.Db.Transaction.{and_then_keeps, and_then_ok}
use reservation_tool.Setups.Table.{
  get_setup, update_status, get-update_status, get-update_status_ne,
}
use reservation_tool.Reservations.{is_expired, sweep_one, sweep_all, sweep_expired_reservations}

-- The status of a setup, if it is there.
abbrev pub status_of : ℕ → List Setup → Option SetupStatus
status_of key rows = map_option (λ s. s.status) (get_setup key rows)

update_status-frees :
    (j key : ℕ) (rows : List Setup)
    → status_of key rows ≡ some SetupStatus.available
    → status_of key (update_status j SetupStatus.available rows) ≡ some SetupStatus.available
update_status-frees j key rows h = ground (
  arith,
  get-update_status key SetupStatus.available rows,
  get-update_status_ne j key SetupStatus.available rows,
)

sweep_one-keeps_free :
    (env : Env) (r : Reservation) (db : Db) (key : ℕ)
    → status_of key db.setups ≡ some SetupStatus.available
    → status_of key (sweep_one env r db).1.setups ≡ some SetupStatus.available
unfolding sweep_one
sweep_one-keeps_free env r db key h = update_status-frees r.setup_id key db.setups h

sweep_all-keeps_free :
    (env : Env) (key : ℕ) (rs : List Reservation) (db : Db)
    → status_of key db.setups ≡ some SetupStatus.available
    → status_of key (sweep_all env rs db).1.setups ≡ some SetupStatus.available
unfolding sweep_all
sweep_all-keeps_free env key [] db h = h
sweep_all-keeps_free env key (r ∷ rs) db h =
    and_then_keeps (λ d. status_of key d.setups ≡ some SetupStatus.available) (sweep_one env r db)
      (sweep_all env rs) (sweep_one-keeps_free env r db key h) (sweep_all-keeps_free env key rs)

-- The setup of a reservation is still there after another one was swept.
sweep_one-setup :
    (env : Env) (q : Reservation) (key : ℕ) (db : Db)
    → is_some (get_setup key db.setups) ≡ true
    → is_some (get_setup key (sweep_one env q db).1.setups) ≡ true
unfolding sweep_one
sweep_one-setup env q key db h = ground (
  arith,
  get-update_status key SetupStatus.available db.setups,
  get-update_status_ne q.setup_id key SetupStatus.available db.setups,
)

sweep_one-frees :
    (env : Env) (r : Reservation) (db : Db)
    → is_some (get_setup r.setup_id db.setups) ≡ true
    → status_of r.setup_id (sweep_one env r db).1.setups ≡ some SetupStatus.available
unfolding sweep_one
sweep_one-frees env r db h =
    ground (arith, get-update_status r.setup_id SetupStatus.available db.setups)

sweep_all-frees :
    (env : Env) (rs : List Reservation) (db : Db) (r : Reservation)
    → Memᴰ r rs
    → is_some (get_setup r.setup_id db.setups) ≡ true
    → (sweep_all env rs db).0 ≡ ok tt
    → status_of r.setup_id (sweep_all env rs db).1.setups ≡ some SetupStatus.available
unfolding sweep_all
sweep_all-frees env [] db r m h e = elim m [ ]
sweep_all-frees env (q ∷ rs) db r (Memᴰ.head same) h e =
    and_then_keeps (λ d. status_of r.setup_id d.setups ≡ some SetupStatus.available)
      (sweep_one env q db) (sweep_all env rs)
      (subst (λ x. status_of r.setup_id (sweep_one env x db).1.setups ≡ some SetupStatus.available)
        same (sweep_one-frees env r db h))
      (sweep_all-keeps_free env r.setup_id rs)
sweep_all-frees env (q ∷ rs) db r (Memᴰ.tail m) h e =
    let (_, rest) = and_then_ok (sweep_one env q db) (sweep_all env rs) e in
    subst
      (λ (x : Result (Unit {0}) × Db). status_of r.setup_id x.1.setups ≡ some SetupStatus.available)
      (sym rest)
      (sweep_all-frees env rs (sweep_one env q db).1 r m (sweep_one-setup env q r.setup_id db h)
        (ap (λ (x : Result (Unit {0}) × Db). x.0) (sym rest) ∙ e))

-- A sweep that goes through makes the setup of every expired reservation AVAILABLE, whatever its
-- status was: also one that an administrator has moved to MAINTENANCE or RETIRED meanwhile.
pub sweep_frees :
    (env : Env) (as_of n : ℕ) (db : Db) (r : Reservation)
    → (sweep_expired_reservations env as_of db).0 ≡ ok n
    → Memᴰ r db.reservations
    → is_expired as_of r ≡ true
    → is_some (get_setup r.setup_id db.setups) ≡ true
    → status_of r.setup_id (sweep_expired_reservations env as_of db).1.setups
      ≡ some SetupStatus.available
unfolding sweep_expired_reservations
sweep_frees env as_of n db r e m old h =
    let rs = select (is_expired as_of) db.reservations in
    let (_, done, _) = >>=-eq-ok (sweep_all env rs db).0 (λ _. ok (length rs)) e in
    sweep_all-frees env rs db r (select-complete (is_expired as_of) r db.reservations m old) h done
