-- ===== src/Reservations/Create.antt =====
-- `create`: when it succeeds, what it writes, and that it keeps the reservations exclusive.
use reservation_tool.Base.{
  ℕ, ◌+◌, ◌*◌, ◌≤◌, ◌<◌, ◌≡◌, refl, subst, inl, inr, true, false, none, some, List, [], ◌∷◌, ◌++◌,
  arith, All, All-imp, Pairwise-append, select-nil, Bool-cases, All-zip, ◌⊎◌, ◌↔◌, length,
  select-none,
}
use reservation_tool.Core.Status.{SetupStatus, is_active, is_blocked}
use reservation_tool.Core.Errors.{
  ok, or_raise-eq-ok, raise_if-eq-ok, >>=-eq-ok, ok-injective, Result-cases,
}
use reservation_tool.Core.Settings.{Env}
use reservation_tool.Db.Rows.{User, Setup, Reservation, Journal, Db}
use reservation_tool.Setups.Table.{get_setup, get-update_status_found, with_status}
use reservation_tool.Notifications.Laws.{broadcast_ok}
use reservation_tool.Reservations.{
  ReservationCreateRequest, overlaps, find_overlapping, assert_min_lead_time, assert_no_overlap,
  create_checks, store_reservation, create, new_reservation, announce,
}
use reservation_tool.Reservations.Overlap.{
  Collides, IsExclusive, overlaps_complete, overlaps_iff, Meets,
}

-- What the guards of `create` have established.
pub record Accepted (env : Env) (p : ReservationCreateRequest) (db : Db) (setup : Setup)
    : Type 0 where
  pub found : get_setup p.setup_id db.setups ≡ some setup
  pub usable : is_blocked setup.status ≡ false
  pub lead : assert_min_lead_time env p.reserved_from ≡ ok tt
  pub free :
      All (λ r. overlaps p.setup_id p.reserved_from p.reserved_until none r ≡ false) db.reservations

no_overlap_free :
    (s f u : ℕ) (rows : List Reservation)
    → assert_no_overlap s f u none rows ≡ ok tt
    → All (λ r. overlaps s f u none r ≡ false) rows
unfolding assert_no_overlap find_overlapping
no_overlap_free s f u rows h = select-nil (overlaps s f u none) rows (ground arith)

pub create_checks-Accepted :
    (env : Env) (p : ReservationCreateRequest) (db : Db) {s : Setup}
    → create_checks env p db ≡ ok s
    → Accepted env p db s
unfolding create_checks
create_checks-Accepted env p db h =
    let (t, found, h1) = or_raise-eq-ok (get_setup p.setup_id db.setups) _ _ h in
    let (usable, h2) = raise_if-eq-ok (is_blocked t.status) _ _ h1 in
    let (_, lead, h3) = >>=-eq-ok (assert_min_lead_time env p.reserved_from) _ h2 in
    let (_, free, h4) =
      >>=-eq-ok (assert_no_overlap p.setup_id p.reserved_from p.reserved_until none db.reservations)
        _ h3 in
    subst (Accepted env p db) (ok-injective h4) (record {
      found = found;
      usable = usable;
      lead = lead;
      free = no_overlap_free p.setup_id p.reserved_from p.reserved_until db.reservations free;
    })

free_no_overlap :
    (s f u : ℕ) (rows : List Reservation)
    → All (λ r. overlaps s f u none r ≡ false) rows
    → assert_no_overlap s f u none rows ≡ ok tt
unfolding assert_no_overlap find_overlapping
free_no_overlap s f u rows h =
    rw (select-none (overlaps s f u none) rows h, assert_no_overlap, find_overlapping) refl

-- Conversely these facts are enough.
pub Accepted-create_checks :
    (env : Env) (p : ReservationCreateRequest) (db : Db) {s : Setup}
    → Accepted env p db s
    → create_checks env p db ≡ ok s
unfolding create_checks
Accepted-create_checks env p db a =
    rw
      (
        a.found,
        a.usable,
        a.lead,
        free_no_overlap p.setup_id p.reserved_from p.reserved_until db.reservations a.free,
      )
      refl

-- A new reservation that the guards accept meets no ACTIVE one.
new_apart :
    (env : Env) (p : ReservationCreateRequest) (actor : User) (db : Db) (s : Setup)
    → Accepted env p db s
    → All (λ r. ¬ Collides r (new_reservation env p actor db)) db.reservations
new_apart env p actor db s a =
    All-imp _ _
      (λ r h c.
        overlaps_complete p.setup_id p.reserved_from p.reserved_until r h c.2 c.0
          (c.3.0, c.3.1, c.3.2, c.3.3, c.3.4))
      db.reservations a.free

-- Whatever `create` returns, it keeps the ACTIVE reservations of each setup apart.
pub create-IsExclusive :
    (env : Env) (p : ReservationCreateRequest) (actor : User) (db : Db)
    → IsExclusive db.reservations
    → IsExclusive (create env p actor db).1.reservations
unfolding create store_reservation
create-IsExclusive env p actor db v = elim (Result-cases (create_checks env p db)) [
  | inl (s, e) ↦ rw (e) (
      Pairwise-append _ db.reservations (new_reservation env p actor db) v
        (new_apart env p actor db s (create_checks-Accepted env p db e)))
  | inr (x, e) ↦ rw (e) v
]

-- The rule of the service in terms of instants: the setup is there and usable, the lead time is
-- kept, and no ACTIVE reservation of the setup shares an instant with the window.
pub record CanReserve (env : Env) (p : ReservationCreateRequest) (db : Db) (s : Setup)
    : Type 0 where
  pub found : get_setup p.setup_id db.setups ≡ some s
  pub in_service : (s.status ≡ SetupStatus.available) ⊎ (s.status ≡ SetupStatus.reserved)
  pub in_time :
      (env.min_lead_minutes ≡ 0) ⊎ (env.now + env.min_lead_minutes * 60000000 ≤ p.reserved_from)
  pub apart :
      All
        (λ r.
          r.setup_id ≡ p.setup_id
          → is_active r.status ≡ true
          → ¬ Meets r.reserved_from r.reserved_until p.reserved_from p.reserved_until)
        db.reservations

abbrev pub HasWindow : Reservation → Type 0
HasWindow r = r.reserved_from < r.reserved_until

lead_iff :
    (env : Env) (from : ℕ)
    → (assert_min_lead_time env from ≡ ok tt)
      ↔ ((env.min_lead_minutes ≡ 0) ⊎ (env.now + env.min_lead_minutes * 60000000 ≤ from))
unfolding assert_min_lead_time
lead_iff env from = (λ h. ground arith, λ h. ground arith)

not_blocked_iff :
    (s : SetupStatus)
    → (is_blocked s ≡ false) ↔ ((s ≡ SetupStatus.available) ⊎ (s ≡ SetupStatus.reserved))
not_blocked_iff SetupStatus.available = (λ h. inl refl, λ h. refl)
not_blocked_iff SetupStatus.reserved = (λ h. inr refl, λ h. refl)
not_blocked_iff SetupStatus.maintenance = (λ h. absurd (cc), λ h. ground arith)
not_blocked_iff SetupStatus.retired = (λ h. absurd (cc), λ h. ground arith)

no_meet-overlaps :
    (setup from until : ℕ) (r : Reservation)
    → from < until
    → HasWindow r
    → (r.setup_id ≡ setup
        → is_active r.status ≡ true
        → ¬ Meets r.reserved_from r.reserved_until from until)
    → overlaps setup from until none r ≡ false
no_meet-overlaps setup from until r w v h = elim (Bool-cases (overlaps setup from until none r)) [
  | inl t ↦
      let (same, active, meet) = (overlaps_iff setup from until r w v).0 t in
      absurd (h same active meet)
  | inr f ↦ f
]

-- Over windows that are not empty, the guards of `create` accept a request for the setup `s`
-- exactly when the setup is AVAILABLE or RESERVED, the minimal lead time is kept, and no ACTIVE
-- reservation of the setup shares an instant with the requested window.
pub create_checks_iff :
    (env : Env) (p : ReservationCreateRequest) (db : Db) (s : Setup)
    → p.reserved_from < p.reserved_until
    → All HasWindow db.reservations
    → (create_checks env p db ≡ ok s) ↔ CanReserve env p db s
create_checks_iff env p db s w v = (
  λ h.
      let a = create_checks-Accepted env p db h in
      record {
        found = a.found;
        in_service = (not_blocked_iff s.status).0 a.usable;
        in_time = (lead_iff env p.reserved_from).0 a.lead;
        apart =
            All-imp _ _
              (λ r e same active meet.
                overlaps_complete p.setup_id p.reserved_from p.reserved_until r e same active meet)
              db.reservations a.free;
      },
  λ c. Accepted-create_checks env p db (record {
    found = c.found;
    usable = (not_blocked_iff s.status).1 c.in_service;
    lead = (lead_iff env p.reserved_from).1 c.in_time;
    free =
        All-zip _ _ _
          (λ r win apart.
            no_meet-overlaps p.setup_id p.reserved_from p.reserved_until r w win apart)
          db.reservations v c.apart;
  }),
)

announce_ok :
    (env : Env) (p : ReservationCreateRequest) (actor : User) (s : Setup) (users : List User)
    (j : Journal)
    → length s.hostname ≤ 180
    → (announce env p actor s users j).0 ≡ ok tt
announce_ok env p actor s users j h =
    ground (arith, broadcast_ok env p.announcement_channels s actor users j h)

-- A request that meets the rule, on a setup whose hostname has at most 180 characters, is stored:
-- `create` returns the new ACTIVE row of the acting user, the row is added to the table, and the
-- setup's status becomes RESERVED.
pub create_stores :
    (env : Env) (p : ReservationCreateRequest) (actor : User) (db : Db) (s : Setup)
    → p.reserved_from < p.reserved_until
    → All HasWindow db.reservations
    → CanReserve env p db s
    → length s.hostname ≤ 180
    → let (r, db') = create env p actor db in
      (r ≡ ok (new_reservation env p actor db))
      × (db'.reservations ≡ db.reservations ++ new_reservation env p actor db ∷ [])
      × (get_setup p.setup_id db'.setups ≡ some (with_status SetupStatus.reserved s))
unfolding create store_reservation
create_stores env p actor db s w v c short = rw ((create_checks_iff env p db s w v).1 c) (
  rw (announce_ok env p actor s db.users _ short) refl,
  refl,
  get-update_status_found p.setup_id SetupStatus.reserved db.setups c.found,
)
