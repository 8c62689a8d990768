-- ===== src/Swaps/Approval.antt =====
-- What an approval of fixed columns does.
use mathlib.Core.Path.{fun_ext}
use reservation_tool.Base.{
  ◌++◌, find-modify, find-modify_ne, find-some, ==_iff, map_option, ℕ, ◌≡◌, ◌≢◌, refl, sym, ap,
  subst, ◌∙◌, ◌||◌, Option, some, none, List, [], ◌∷◌, ◌==◌, arith, All, modify, Text,
  if◌then◌else◌,
}
use reservation_tool.Db.Rows.{Field, Hardware, Setup, SwapRequest, HardwareChangeLog, User, Db}
use reservation_tool.Core.Errors.{
  Result, ok, err, or_raise-eq-ok, >>=-eq-ok, raise_if-eq-ok, ok-injective,
}
use reservation_tool.Core.Settings.{Env}
use reservation_tool.Setups.Table.{get_setup, get_setup-id}
use reservation_tool.Templates.Values.{get}
use reservation_tool.Swaps.Access.{get_swap, get_setup_at, assert_can_approve}
use reservation_tool.Core.Status.{SwapStatus, is_blocked}
use reservation_tool.Swaps.Requests.{pending_swap, update_swap}
use reservation_tool.Swaps.Columns.{column_names}
use reservation_tool.Swaps.Exchange.{
  Swap, Loop, completed, start, read_field, ensure_both, ledger_rows, finish_swap, exchange,
  approve, approve_checks,
}
use reservation_tool.Swaps.Untouched.Decisions.{
  completed-id, swap_columns-swaps, ensure_both-swaps, approve_checks-pending,
}
use reservation_tool.Swaps.Fixed.{mixed, traded}
use reservation_tool.Swaps.Loop.{IsFixed, Distinct, at_name, after, swap_columns-fixed}
use reservation_tool.Swaps.Ledger.{note_all-present, ledger, ledger_rows-noted}

-- The originals that are captured first change no other table.
ensure_both-setups :
    (env : Env) (ns : List Text) (a b : Setup) (db : Db)
    → ((ensure_both env ns a b db).setups ≡ db.setups)
      × ((ensure_both env ns a b db).reservations ≡ db.reservations)
      × ((ensure_both env ns a b db).change_logs ≡ db.change_logs)
      × ((ensure_both env ns a b db).swaps ≡ db.swaps)
unfolding ensure_both
ensure_both-setups env ns a b db = ground arith

-- A setup that is found by its key is found by the key that it has.
at-found :
    (o : Option ℕ) (rows : List Setup) {s : Setup}
    → get_setup_at o rows ≡ some s
    → get_setup s.id rows ≡ some s
at-found none rows e = absurd (cc)
at-found (some k) rows {s} e =
    subst (λ j. get_setup j rows ≡ some s) (sym (get_setup-id k rows e)) e

-- Both setups of an approval are in the table.
both_found :
    (env : Env) (key : ℕ) (actor : User) (db : Db) {w : Swap}
    → approve_checks env key actor db ≡ ok w
    → (get_setup w.current.id db.setups ≡ some w.current)
      × (get_setup w.requested.id db.setups ≡ some w.requested)
unfolding approve_checks
both_found env key actor db {w} h =
    let (s, _, h1) = >>=-eq-ok (pending_swap key db) _ h in
    let (a, found_a, h2) = or_raise-eq-ok (get_setup_at s.current_setup_id db.setups) _ _ h1 in
    let (b, found_b, h3) = or_raise-eq-ok (get_setup_at s.requested_setup_id db.setups) _ _ h2 in
    let (_, h4) = raise_if-eq-ok (is_blocked a.status || is_blocked b.status) _ _ h3 in
    let (_, _, h5) = >>=-eq-ok (assert_can_approve env db a actor) _ h4 in
    subst
      (λ (v : Swap).
        (get_setup v.current.id db.setups ≡ some v.current)
        × (get_setup v.requested.id db.setups ≡ some v.requested))
      (ok-injective h5)
      (
        at-found s.current_setup_id db.setups found_a,
        at-found s.requested_setup_id db.setups found_b,
      )

-- The request that was found by its key, after a write by its primary key.
update_swap-found :
    (key : ℕ) (f : SwapRequest → SwapRequest) (rows : List SwapRequest) {s : SwapRequest}
    → ((x : SwapRequest) → (f x).id ≡ x.id)
    → get_swap key rows ≡ some s
    → get_swap key (update_swap s.id f rows) ≡ some (f s)
update_swap-found key f rows {s} keep e =
    subst (λ k. get_swap key (update_swap k f rows) ≡ some (f s))
      (sym ((==_iff s.id key).0 (find-some (λ x. x.id == key) rows e)))
      (find-modify (λ x. x.id == key) f (λ x. ap (λ k. k == key) (keep x)) rows
        ∙ ap (map_option f) e)

module _ (env : Env) (key : ℕ) (reason : Option Text) (actor : User) (db : Db) (w : Swap)
    (passed : approve_checks env key actor db ≡ ok w) (fixed : All IsFixed (column_names w.request))
    (distinct : Distinct (column_names w.request)) (ne : w.current.id ≢ w.requested.id) where
  abbrev names : List Text
  names = column_names w.request

  abbrev done : Loop
  done =
      after env w.current w.requested actor ne names
        (start (ensure_both env names w.current w.requested db))

  approved : approve env key reason actor db ≡ finish_swap env w names reason actor done done.db
  unfolding approve exchange
  approved =
      ap
        (λ (r : Result Swap). elim r [
          | ok v ↦ exchange env v reason actor db
          | err e ↦ (err e, db)
        ])
        passed
      ∙ ap
          (λ (p : Result (Unit {0}) × Loop). elim p.0 [
            | ok _ ↦ finish_swap env w names reason actor p.1 p.1.db
            | err e ↦ (err e, p.1.db)
          ])
          (swap_columns-fixed env w.current w.requested actor ne names
            (start (ensure_both env names w.current w.requested db)) fixed distinct)

  stored_setups :
      (approve env key reason actor db).1.setups
      ≡ traded names w.current.id w.requested.id db.setups
  unfolding finish_swap
  stored_setups =
      ap (λ (p : Result SwapRequest × Db). p.1.setups) approved
      ∙ ap (traded names w.current.id w.requested.id)
          (ensure_both-setups env names w.current w.requested db).0

  of_current : (f : Field) → read_field w.current.id f db.setups ≡ w.current.hardware f
  of_current f =
      ap (λ (o : Option Setup). elim o [ none ↦ none | some s ↦ s.hardware f ])
        (both_found env key actor db passed).0

  of_requested : (f : Field) → read_field w.requested.id f db.setups ≡ w.requested.hardware f
  of_requested f =
      ap (λ (o : Option Setup). elim o [ none ↦ none | some s ↦ s.hardware f ])
        (both_found env key actor db passed).1

  traded_rows :
      traded names w.current.id w.requested.id db.setups
      ≡ modify
          (λ s. s.id == w.requested.id)
          (mixed names w.current.hardware)
          (modify (λ s. s.id == w.current.id) (mixed names w.requested.hardware) db.setups)
  traded_rows =
      ap
        (λ h.
          modify (λ s. s.id == w.requested.id) (mixed names h)
            (modify (λ s. s.id == w.current.id)
              (mixed names (λ f. read_field w.requested.id f db.setups)) db.setups))
        (fun_ext of_current)
      ∙ ap
          (λ h.
            modify (λ s. s.id == w.requested.id) (mixed names w.current.hardware)
              (modify (λ s. s.id == w.current.id) (mixed names h) db.setups))
          (fun_ext of_requested)

  abbrev rows : List Setup
  rows = (approve env key reason actor db).1.setups

  written_rows :
      rows
      ≡ modify
          (λ s. s.id == w.requested.id)
          (mixed names w.current.hardware)
          (modify (λ s. s.id == w.current.id) (mixed names w.requested.hardware) db.setups)
  written_rows = stored_setups ∙ traded_rows

  current_after : get_setup w.current.id rows ≡ some (mixed names w.requested.hardware w.current)
  current_after =
      ap (get_setup w.current.id) written_rows
      ∙ find-modify_ne (λ s. s.id == w.requested.id) (mixed names w.current.hardware)
          (λ s. s.id == w.current.id) (λ s h. ground (arith, ne)) (λ s. refl)
          (modify (λ s. s.id == w.current.id) (mixed names w.requested.hardware) db.setups)
      ∙ find-modify (λ s. s.id == w.current.id) (mixed names w.requested.hardware) (λ s. refl)
          db.setups
      ∙ ap (map_option (mixed names w.requested.hardware)) (both_found env key actor db passed).0

  requested_after :
      get_setup w.requested.id rows ≡ some (mixed names w.current.hardware w.requested)
  requested_after =
      ap (get_setup w.requested.id) written_rows
      ∙ find-modify (λ s. s.id == w.requested.id) (mixed names w.current.hardware) (λ s. refl)
          (modify (λ s. s.id == w.current.id) (mixed names w.requested.hardware) db.setups)
      ∙ ap (map_option (mixed names w.current.hardware)) (
          find-modify_ne (λ s. s.id == w.current.id) (mixed names w.requested.hardware)
            (λ s. s.id == w.requested.id) (λ s h. ground (arith, ne)) (λ s. refl) db.setups
          ∙ (both_found env key actor db passed).1)

  other_after :
      (k : ℕ) → k ≢ w.current.id → k ≢ w.requested.id → get_setup k rows ≡ get_setup k db.setups
  other_after k p q =
      ap (get_setup k) written_rows
      ∙ find-modify_ne (λ s. s.id == w.requested.id) (mixed names w.current.hardware)
          (λ s. s.id == k) (λ s h. ground (arith, q)) (λ s. refl)
          (modify (λ s. s.id == w.current.id) (mixed names w.requested.hardware) db.setups)
      ∙ find-modify_ne (λ s. s.id == w.current.id) (mixed names w.requested.hardware)
          (λ s. s.id == k) (λ s h. ground (arith, p)) (λ s. refl) db.setups

  noted_old : All (λ n. get n done.old_values ≡ some (at_name n w.current.hardware)) names
  noted_old =
      subst (λ h. All (λ n. get n done.old_values ≡ some (at_name n h)) names)
        (ap {B = Hardware} (λ (l : List Setup) f. read_field w.current.id f l)
            (ensure_both-setups env names w.current w.requested db).0
          ∙ fun_ext of_current)
        (note_all-present names _ [] distinct)

  noted_new : All (λ n. get n done.new_values ≡ some (at_name n w.requested.hardware)) names
  noted_new =
      subst (λ h. All (λ n. get n done.new_values ≡ some (at_name n h)) names)
        (ap {B = Hardware} (λ (l : List Setup) f. read_field w.requested.id f l)
            (ensure_both-setups env names w.current w.requested db).0
          ∙ fun_ext of_requested)
        (note_all-present names _ [] distinct)

  abbrev entries : List HardwareChangeLog
  entries =
      ledger w.current.id w.requested.id w.request.id actor.id w.current.hardware
        w.requested.hardware names

  ledger_after :
      (approve env key reason actor db).1.change_logs
      ≡ (if env.has_change_log then db.change_logs ++ entries else db.change_logs)
  unfolding finish_swap
  ledger_after =
      ap (λ (p : Result SwapRequest × Db). p.1.change_logs) approved
      ∙ ap
          (λ l.
            if env.has_change_log
            then l ++ ledger_rows w.current.id w.requested.id w.request.id actor.id done names
            else l)
          (ensure_both-setups env names w.current w.requested db).2
      ∙ ap (λ l. if env.has_change_log then db.change_logs ++ l else db.change_logs)
          (ledger_rows-noted w.current.id w.requested.id w.request.id actor.id done
            w.current.hardware w.requested.hardware names noted_old noted_new)

  same_swaps : done.db.swaps ≡ db.swaps
  same_swaps =
      ap (λ (p : Result (Unit {0}) × Loop). p.1.db.swaps)
        (sym (
          swap_columns-fixed env w.current w.requested actor ne names
            (start (ensure_both env names w.current w.requested db)) fixed distinct))
      ∙ swap_columns-swaps env w.current w.requested actor names
          (start (ensure_both env names w.current w.requested db))
      ∙ ensure_both-swaps env names w.current w.requested db

  swap_after :
      get_swap key (approve env key reason actor db).1.swaps
      ≡ some (completed names done reason actor w.request)
  unfolding finish_swap
  swap_after =
      ap (λ (p : Result SwapRequest × Db). get_swap key p.1.swaps) approved
      ∙ update_swap-found key (completed names done reason actor) done.db.swaps
          (λ s. completed-id names done reason actor s)
          (ap (get_swap key) same_swaps ∙ (approve_checks-pending env key actor db passed).0)

  -- The approval of a PENDING swap of two setups, over distinct fixed columns, that passes the guards
  -- goes through: its row is stored as COMPLETED, each of the setups has the values that the other had in the
  -- named columns and keeps all its other columns, any other setup and the reservations stay as they
  -- were, and the ledger, where there is one, gains for each column what each setup had and has.
  pub approve_exchanges :
      (k : ℕ)
      → k ≢ w.current.id
      → k ≢ w.requested.id
      → ((row : SwapRequest) × ((approve env key reason actor db).0 ≡ ok row)
          × (get_swap key (approve env key reason actor db).1.swaps ≡ some row)
          × (row.status ≡ SwapStatus.completed))
        × (get_setup w.current.id rows ≡ some (mixed names w.requested.hardware w.current))
        × (get_setup w.requested.id rows ≡ some (mixed names w.current.hardware w.requested))
        × (get_setup k rows ≡ get_setup k db.setups)
        × ((approve env key reason actor db).1.reservations ≡ db.reservations)
        × ((approve env key reason actor db).1.change_logs
            ≡ (if env.has_change_log then db.change_logs ++ entries else db.change_logs))
  unfolding finish_swap
  approve_exchanges k apart_current apart_requested = (
    (
      completed names done reason actor w.request,
      ap (λ (p : Result SwapRequest × Db). p.0) approved,
      swap_after,
      status_completed names,
    ),
    current_after,
    requested_after,
    other_after k apart_current apart_requested,
    ap (λ (p : Result SwapRequest × Db). p.1.reservations) approved
        ∙ (ensure_both-setups env names w.current w.requested db).1,
    ledger_after,
  )
    where
      status_completed :
          (ns : List Text)
          → (completed ns done reason actor w.request).status ≡ SwapStatus.completed
      status_completed [] = refl
      status_completed (n ∷ ns) = refl
