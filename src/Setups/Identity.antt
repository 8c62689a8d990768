-- ===== src/Setups/Identity.antt =====
-- No two setups share a key, an address or a name, whatever the calls of the setup service.
use reservation_tool.Base.{
  text_eq_ne, ℕ, ◌≡◌, ◌≢◌, sym, subst, ◌∙◌, inl, inr, Bool, false, not, Option, some, none, List,
  [], ◌∷◌, map, ◌==◌, ==_iff, arith, All, All-zip, Pairwise, Pairwise-append, find-none, any_of,
  is_some, Bool-cases, if◌then◌else◌,
}
use reservation_tool.Core.Errors.{ok, >>=-eq-ok, raise_if-eq-ok, or_raise-eq-ok, ok-injective}
use reservation_tool.Core.Settings.{Env, IsFresh}
use reservation_tool.Db.Rows.{User, Setup, Db}
use reservation_tool.Db.Transaction.{checked_keeps, request, request_keeps}
use reservation_tool.Setups.Table.{get_setup}
use reservation_tool.Setups.{
  SetupCreateRequest, SetupUpdateRequest, create, create_checks, store_setup, new_setup, clashes,
  get_by_ip_or_hostname, update, update_checks, store_update, assigned, transition_status,
  identity_taken, collides, delete, delete_checks, store_deleted,
}
use reservation_tool.Keys.{Pairwise-select, fresh_key, Pairwise-with, Pairwise-change}

-- Two setups that can be told apart by each of the three.
abbrev pub Apart : Setup → Setup → Type 0
Apart a b = (a.id ≢ b.id) × (a.ip_address ≢ b.ip_address) × (a.hostname ≢ b.hostname)

abbrev pub IsUnique : List Setup → Type 0
IsUnique = Pairwise Apart

create-IsUnique :
    (env : Env) (p : SetupCreateRequest) (actor : User) (db : Db)
    → IsFresh env
    → IsUnique db.setups
    → IsUnique (create env p actor db).1.setups
unfolding create create_checks store_setup
create-IsUnique env p actor db fresh v =
    checked_keeps (λ d. IsUnique d.setups) (create_checks env p db) (store_setup env p actor) db v
      (λ _ e.
        let (free, _) =
          raise_if-eq-ok
            (is_some (get_by_ip_or_hostname (some p.ip_address) (some p.hostname) db.setups)) _ _
            e in
        Pairwise-append Apart db.setups (new_setup env p db) v (
          All-zip (λ s. s.id ≢ (new_setup env p db).id)
            (λ s. clashes (some p.ip_address) (some p.hostname) s ≡ false)
            (λ s. Apart s (new_setup env p db))
            (λ s key h. (
              key,
              text_eq_ne s.ip_address p.ip_address (ground arith),
              text_eq_ne s.hostname p.hostname (ground arith),
            ))
            db.setups (fresh_key (λ s. s.id) db.setups _ (fresh (map (λ s. s.id) db.setups)))
            (find-none (clashes (some p.ip_address) (some p.hostname)) db.setups (no_row _ free))))
  where
    no_row : (o : Option Setup) → is_some o ≡ false → o ≡ none
    no_row o h = ground arith

-- The row that is written is apart from every other.
written-Apart :
    (row a b : Setup)
    → (collides row a ≡ false) × (collides row b ≡ false) × Apart a b
    → Apart
        (if a.id == row.id then record row { id = a.id } else a)
        (if b.id == row.id then record row { id = b.id } else b)
written-Apart row a b (p, q, h) = elim (Bool-cases (a.id == row.id)) [
  | inl s ↦ elim (Bool-cases (b.id == row.id)) [
    | inl t ↦ absurd (h.0 ((==_iff a.id row.id).0 s ∙ sym ((==_iff b.id row.id).0 t)))
    | inr t ↦
        rw (s, t)
          (
            h.0,
            λ e. text_eq_ne b.ip_address row.ip_address (ground arith) (sym e),
            λ e. text_eq_ne b.hostname row.hostname (ground arith) (sym e),
          )
  ]
  | inr s ↦ elim (Bool-cases (b.id == row.id)) [
    | inl t ↦
        rw (s, t)
          (
            h.0,
            λ e. text_eq_ne a.ip_address row.ip_address (ground arith) e,
            λ e. text_eq_ne a.hostname row.hostname (ground arith) e,
          )
    | inr t ↦ rw (s, t) h
  ]
]

any_of-none :
    (p : Setup → Bool) (rows : List Setup) → any_of p rows ≡ false → All (λ s. p s ≡ false) rows
any_of-none p [] h = tt
any_of-none p (s ∷ rows) h = ground (arith, any_of-none p rows)

-- The engine has checked the row of an accepted update against the unique indices.
pub update_checks-free :
    (env : Env) (key : ℕ) (p : SetupUpdateRequest) (db : Db) {row : Setup}
    → update_checks env key p db ≡ ok row
    → All (λ s. collides row s ≡ false) db.setups
unfolding update_checks
update_checks-free env key p db h =
    let (s, _, h1) = or_raise-eq-ok (get_setup key db.setups) _ _ h in
    let (_, h2) = raise_if-eq-ok (identity_taken key p s db.setups) _ _ h1 in
    let (status, _, h3) = >>=-eq-ok (transition_status p.status s.status) _ h2 in
    let (row, _, h4) = >>=-eq-ok (assigned p status s) _ h3 in
    let (free, h5) = raise_if-eq-ok (any_of (collides row) db.setups) _ _ h4 in
    let (_, h6) = raise_if-eq-ok _ _ _ h5 in
    subst (λ r. All (λ s. collides r s ≡ false) db.setups) (ok-injective h6)
      (any_of-none (collides row) db.setups free)

update-IsUnique :
    (env : Env) (key : ℕ) (p : SetupUpdateRequest) (actor : User) (db : Db)
    → IsUnique db.setups
    → IsUnique (update env key p actor db).1.setups
unfolding update store_update
update-IsUnique env key p actor db v =
    checked_keeps (λ d. IsUnique d.setups) (update_checks env key p db) (store_update actor) db v
      (λ row e.
        Pairwise-change (λ a b. (collides row a ≡ false) × (collides row b ≡ false) × Apart a b)
          Apart (λ s. s.id == row.id) (λ s. record row { id = s.id }) (written-Apart row) db.setups
          (Pairwise-with (λ s. collides row s ≡ false) Apart db.setups
            (update_checks-free env key p db e) v))

delete-IsUnique :
    (env : Env) (key : ℕ) (actor : User) (db : Db)
    → IsUnique db.setups
    → IsUnique (delete env key actor db).1.setups
unfolding delete store_deleted
delete-IsUnique env key actor db v =
    checked_keeps (λ d. IsUnique d.setups) (delete_checks env key db) (store_deleted key actor) db v
      (λ _ e. Pairwise-select Apart (λ s. not (s.id == key)) db.setups v)

-- A request to the setup service.
pub data Work : Type 0 where
  creates : SetupCreateRequest → Work
  updates : ℕ → SetupUpdateRequest → Work
  deletes : ℕ → Work

-- The environment and the user of a request, and what is asked.
pub record SetupCall : Type 0 where
  pub env : Env
  pub actor : User
  pub work : Work

pub do_setup : Env → User → Work → Db → Db
do_setup env actor (creates p) db = (request (create env p actor) db).1
do_setup env actor (updates key p) db = (request (update env key p actor) db).1
do_setup env actor (deletes key) db = (request (delete env key actor) db).1

pub serve_setups : List SetupCall → Db → Db
unfolding do_setup
serve_setups [] db = db
serve_setups (c ∷ cs) db = serve_setups cs (do_setup c.env c.actor c.work db)

do_setup-IsUnique :
    (env : Env) (actor : User) (w : Work) (db : Db)
    → IsFresh env
    → IsUnique db.setups
    → IsUnique (do_setup env actor w db).setups
unfolding do_setup
do_setup-IsUnique env actor (creates p) db fresh v =
    request_keeps (λ d. IsUnique d.setups) (create env p actor) db
      (create-IsUnique env p actor db fresh v) v
do_setup-IsUnique env actor (updates key p) db fresh v =
    request_keeps (λ d. IsUnique d.setups) (update env key p actor) db
      (update-IsUnique env key p actor db v) v
do_setup-IsUnique env actor (deletes key) db fresh v =
    request_keeps (λ d. IsUnique d.setups) (delete env key actor) db
      (delete-IsUnique env key actor db v) v

-- Whatever the calls of the setup service and their order, when the engine gives fresh keys: from a
-- table without duplicates no two setups ever share a key, an address or a name.
pub serve_setups-IsUnique :
    (cs : List SetupCall) (db : Db)
    → All (λ c. IsFresh c.env) cs
    → IsUnique db.setups
    → IsUnique (serve_setups cs db).setups
unfolding serve_setups
serve_setups-IsUnique [] db fresh v = v
serve_setups-IsUnique (c ∷ cs) db fresh v =
    serve_setups-IsUnique cs (do_setup c.env c.actor c.work db) fresh.1
      (do_setup-IsUnique c.env c.actor c.work db fresh.0 v)
