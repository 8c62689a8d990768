-- ===== src/Setups/Transitions.antt =====
-- The life of a setup under `update`: its status follows the allowed transitions, RETIRED is final.
use reservation_tool.Base.{
  ℕ, ◌≡◌, refl, sym, subst, ap, ◌∙◌, ◌⊎◌, inl, inr, true, Option, some, none, List, [], ◌∷◌, ◌==◌,
  ==_iff, arith, find-modify, find-modify_ne, map_option, modify, any_of, Bool-cases, if◌then◌else◌,
}
use mathlib.Core.Option.{some-injective}
use reservation_tool.Core.Status.{SetupStatus}
use reservation_tool.Core.Errors.{
  AppError, Result, ok, err, >>=-eq-ok, raise_if-eq-ok, or_raise-eq-ok, ok-injective, Result-cases,
}
use reservation_tool.Core.Settings.{Env}
use reservation_tool.Db.Rows.{User, Setup, Db}
use reservation_tool.Db.Transaction.{checked, request}
use reservation_tool.Setups.Table.{get_setup, get_setup-id}
use reservation_tool.Setups.{
  SetupUpdateRequest, changed, allowed, status_eq, update, update_checks, store_update, write_setup,
  assigned, transition_status, identity_taken, collides,
}

-- One transition of the table, or none.
abbrev pub Moves : SetupStatus → SetupStatus → Type 0
Moves a b = (a ≡ b) ⊎ (allowed a b ≡ true)

-- A path of transitions.
pub data Reaches : SetupStatus → SetupStatus → Type 0 where
  stay : {a : SetupStatus} → Reaches a a
  step : {a b c : SetupStatus} → Moves a b → Reaches b c → Reaches a c

transition-Moves :
    (target : Option SetupStatus) (current : SetupStatus) {s : SetupStatus}
    → transition_status target current ≡ ok s
    → Moves current s
unfolding transition_status
transition-Moves none current h = inl (ok-injective h)
transition-Moves (some target) current h = elim (Bool-cases (status_eq target current)) [
  | inl t ↦ inl (ok-injective (rw t at h))
  | inr f ↦ elim (Bool-cases (allowed current target)) [
    | inl t ↦ inr (subst (λ s. allowed current s ≡ true) (ok-injective (rw (f, t) at h)) t)
    | inr g ↦ absurd (cc)
  ]
]

assigned-keeps :
    (p : SetupUpdateRequest) (status : SetupStatus) (s : Setup) {row : Setup}
    → assigned p status s ≡ ok row
    → (row.id ≡ s.id) × (row.status ≡ status)
unfolding assigned
assigned-keeps p status s h =
    let (_, _, h1) = or_raise-eq-ok (changed p.product_id (some s.product_id)) _ _ h in
    let (_, _, h2) = or_raise-eq-ok (changed p.ip_address (some s.ip_address)) _ _ h1 in
    let (_, _, h3) = or_raise-eq-ok (changed p.hostname (some s.hostname)) _ _ h2 in
    (sym (ap (λ r. r.id) (ok-injective h3)), sym (ap (λ r. r.status) (ok-injective h3)))

-- The row that the guards of an accepted update hand over.
update_checks-Moves :
    (env : Env) (key : ℕ) (p : SetupUpdateRequest) (db : Db) {row : Setup}
    → update_checks env key p db ≡ ok row
    → (s : Setup) × (get_setup key db.setups ≡ some s) × (row.id ≡ s.id) × Moves s.status row.status
unfolding update_checks
update_checks-Moves env key p db h =
    let (s, found, h1) = or_raise-eq-ok (get_setup key db.setups) _ _ h in
    let (_, h2) = raise_if-eq-ok (identity_taken key p s db.setups) _ _ h1 in
    let (status, moved, h3) = >>=-eq-ok (transition_status p.status s.status) _ h2 in
    let (row, written, h4) = >>=-eq-ok (assigned p status s) _ h3 in
    let (_, h5) = raise_if-eq-ok (any_of (collides row) db.setups) _ _ h4 in
    let (_, h6) = raise_if-eq-ok _ _ _ h5 in
    let (same, now) = assigned-keeps p status s written in
    subst
      (λ r.
        (s : Setup) × (get_setup key db.setups ≡ some s) × (r.id ≡ s.id) × Moves s.status r.status)
      (ok-injective h6)
      (s, found, same, subst (Moves s.status) (sym now) (transition-Moves p.status s.status moved))

-- After the write every setup is found, with the status that was written for it or its own.
written_status :
    (row : Setup) (key : ℕ) (rows : List Setup) {s : Setup}
    → get_setup key rows ≡ some s
    → (t : Setup) × (get_setup key (write_setup row rows) ≡ some t)
      × (t.status ≡ (if key == row.id then row.status else s.status))
written_status row key rows {s} e = elim (Bool-cases (key == row.id)) [
  | inl t ↦ (
    record row { id = s.id },
    subst
        (λ k.
          get_setup key (modify (λ x. x.id == k) (λ x. record row { id = x.id }) rows)
          ≡ some (record row { id = s.id }))
        ((==_iff key row.id).0 t)
        (find-modify (λ x. x.id == key) (λ x. record row { id = x.id }) (λ x. refl) rows
          ∙ ap (map_option (λ x. record row { id = x.id })) e),
    rw t refl,
  )
  | inr f ↦ (
    s,
    find-modify_ne (λ x. x.id == row.id) (λ x. record row { id = x.id }) (λ x. x.id == key)
          (λ x h. ground arith) (λ x. refl) rows
        ∙ e,
    rw f refl,
  )
]

-- A request to update.
pub record UpdateCall : Type 0 where
  pub env : Env
  pub actor : User
  pub key : ℕ
  pub payload : SetupUpdateRequest

pub serve_update : UpdateCall → Db → Db
serve_update c db = (request (update c.env c.key c.payload c.actor) db).1

pub serve_updates : List UpdateCall → Db → Db
unfolding serve_update
serve_updates [] db = db
serve_updates (c ∷ cs) db = serve_updates cs (serve_update c db)

-- The setups after the call, by what its guards say.
abbrev after : Result Setup → List Setup → List Setup
after (ok row) rows = write_setup row rows
after (err _) rows = rows

request-after :
    (r : Result Setup) (actor : User) (db : Db)
    → (request (checked r (store_update actor)) db).1.setups ≡ after r db.setups
unfolding request store_update
request-after (ok row) actor db = refl
request-after (err e) actor db = refl

serve_update-after :
    (c : UpdateCall) (db : Db)
    → (serve_update c db).setups ≡ after (update_checks c.env c.key c.payload db) db.setups
unfolding serve_update request update
serve_update-after c db = request-after (update_checks c.env c.key c.payload db) c.actor db

-- The status that is read for a key after the row of another key, or of this one, was written.
moved_status :
    (db : Db) (key other : ℕ) (row : Setup) {before s : Setup}
    → get_setup other db.setups ≡ some before
    → row.id ≡ before.id
    → Moves before.status row.status
    → get_setup key db.setups ≡ some s
    → Moves s.status (if key == row.id then row.status else s.status)
moved_status db key other row {before} {s} found same moved e = elim (Bool-cases (key == row.id)) [
  | inl t ↦
      let keys = (==_iff key row.id).0 t ∙ same ∙ get_setup-id other db.setups found in
      let rows = some-injective _ _ (sym found ∙ sym (ap (λ k. get_setup k db.setups) keys) ∙ e) in
      rw t (subst (λ x. Moves x.status row.status) rows moved)
  | inr f ↦ rw f (inl refl)
]

-- One request moves the status of any setup by one allowed transition at most.
serve_update-Moves :
    (c : UpdateCall) (db : Db) (key : ℕ) (s : Setup)
    → get_setup key db.setups ≡ some s
    → (t : Setup) × (get_setup key (serve_update c db).setups ≡ some t) × Moves s.status t.status
serve_update-Moves c db key s e =
    subst (λ rows. (t : Setup) × (get_setup key rows ≡ some t) × Moves s.status t.status)
      (sym (serve_update-after c db))
      (moves (Result-cases (update_checks c.env c.key c.payload db)))
  where
    moves :
        ((row : Setup) × (update_checks c.env c.key c.payload db ≡ ok row))
          ⊎ ((x : AppError) × (update_checks c.env c.key c.payload db ≡ err x))
        → (t : Setup) × (get_setup key (after (update_checks c.env c.key c.payload db) db.setups)
            ≡ some t)
          × Moves s.status t.status
    moves (inl (row, h)) =
        let (before, found, same, moved) = update_checks-Moves c.env c.key c.payload db h in
        let (t, now, status) = written_status row key db.setups e in
        rw h (
          t,
          now,
          subst (Moves s.status) (sym status) (moved_status db key c.key row found same moved e),
        )
    moves (inr (x, h)) = rw h (s, e, inl refl)

retired_stays : (a b : SetupStatus) → Moves a b → a ≡ SetupStatus.retired → b ≡ SetupStatus.retired
unfolding allowed
retired_stays a b (inl e) r = sym e ∙ r
retired_stays a b (inr t) r = absurd (no_exit b (subst (λ x. allowed x b ≡ true) r t))
  where
    no_exit : (c : SetupStatus) → allowed SetupStatus.retired c ≡ true → ⊥
    no_exit c t = ground arith

-- Whatever updates are requested, the status of a setup moves along the allowed transitions only,
-- and a RETIRED setup stays RETIRED.
pub serve_updates-Reaches :
    (cs : List UpdateCall) (db : Db) (key : ℕ) (s : Setup)
    → get_setup key db.setups ≡ some s
    → (t : Setup) × (get_setup key (serve_updates cs db).setups ≡ some t)
      × Reaches s.status t.status
      × (s.status ≡ SetupStatus.retired → t.status ≡ SetupStatus.retired)
unfolding serve_updates
serve_updates-Reaches [] db key s e = (s, e, stay, λ r. r)
serve_updates-Reaches (c ∷ cs) db key s e =
    let (t, now, moved) = serve_update-Moves c db key s e in
    let (u, last, path, retired) = serve_updates-Reaches cs (serve_update c db) key t now in
    (u, last, step moved path, λ r. retired (retired_stays s.status t.status moved r))
