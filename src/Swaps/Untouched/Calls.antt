-- ===== src/Swaps/Untouched/Calls.antt =====
-- The loop of `approve`, and its whole.
use reservation_tool.Base.{
  ◌≡◌, refl, true, ap, ℕ, ◌∙◌, Bool, false, Option, some, none, List, [], ◌∷◌, Text, if◌then◌else◌,
}
use reservation_tool.Db.Rows.{Field, Setup, SwapRequest, User, Db}
use reservation_tool.Db.Transaction.{and_then_keeps}
use reservation_tool.Core.Errors.{AppError, Result, ok, err}
use reservation_tool.Core.Settings.{Env}
use reservation_tool.Hardware.{field_of}
use reservation_tool.Swaps.Columns.{column_names}
use reservation_tool.Swaps.Exchange.{
  start, get_or_null, maps_of, swap_fixed, swap_custom, swap_column, swap_columns, ensure_both,
  ensure_custom, Loop, write_field, set_value, finish_swap, exchange, approve, approve_checks, Swap,
  completed,
}
use reservation_tool.Swaps.Untouched.{Untouched, Untouched-refl, Untouched-trans, writes-Untouched}
use reservation_tool.Core.Status.{swap_pending}
use reservation_tool.Swaps.Access.{get_swap}
use reservation_tool.Swaps.Untouched.Decisions.{
  swap_columns-swaps, ensure_both-swaps, completed-id, update_swap-decisions,
  approve_checks-pending,
}
use reservation_tool.Swaps.Untouched.Writes.{
  bare-write, set_value-Untouched, ensure_custom-Untouched, ensure_both-Untouched,
}

swap_fixed-Untouched :
    (a b : ℕ) (name : Text) (f : Field) (x : Loop) → Untouched x.db (swap_fixed a b name f x).db
unfolding swap_fixed
swap_fixed-Untouched a b name f x =
    writes-Untouched x.db (swap_fixed a b name f x).db
      (bare-write b f _ (write_field a f _ x.db.setups) ∙ bare-write a f _ x.db.setups) (λ k o e. e)
      (λ k c v e. e) (λ k s e d. e)

swap_custom-Untouched :
    (env : Env) (a b : Setup) (actor : User) (name : Text) (x : Loop)
    → Untouched x.db (swap_custom env a b actor name x).1.db
unfolding swap_custom
swap_custom-Untouched env a b actor name x =
    and_then_keeps (Untouched x.db) (set_value env a name value_b actor db1)
      (set_value env b name old_value actor)
      (Untouched-trans x.db db1 _
        (Untouched-trans x.db db0 db1 (ensure_custom-Untouched env a name old_value x.db)
          (ensure_custom-Untouched env b name value_b db0))
        (set_value-Untouched env a name value_b actor db1))
      (λ db u. Untouched-trans x.db db _ u (set_value-Untouched env b name old_value actor db))
  where
    old_value : Option Text
    old_value = get_or_null name (maps_of a b x).0

    value_b : Option Text
    value_b = get_or_null name (maps_of a b x).1

    db0 : Db
    db0 = ensure_custom env a name old_value x.db

    db1 : Db
    db1 = ensure_custom env b name value_b db0

swap_column-Untouched :
    (env : Env) (a b : Setup) (actor : User) (name : Text) (x : Loop)
    → Untouched x.db (swap_column env a b actor name x).1.db
unfolding swap_column
swap_column-Untouched env a b actor name x = by (field_of name) env.has_template
  where
    by :
        (o : Option Field) (t : Bool)
        → Untouched x.db
            (elim o as (λ _. Result (Unit {0}) × Loop) [
              | some f ↦ (ok tt, swap_fixed a.id b.id name f x)
              | none ↦ if t then swap_custom env a b actor name x else (err AppError.validation, x)
            ]).1.db
    by (some f) t = swap_fixed-Untouched a.id b.id name f x
    by none true = swap_custom-Untouched env a b actor name x
    by none false = Untouched-refl x.db

pub swap_columns-Untouched :
    (env : Env) (a b : Setup) (actor : User) (names : List Text) (x : Loop)
    → Untouched x.db (swap_columns env a b actor names x).1.db
unfolding swap_columns
swap_columns-Untouched env a b actor [] x = Untouched-refl x.db
swap_columns-Untouched env a b actor (name ∷ names) x =
    on (swap_columns-Untouched env a b actor names (swap_column env a b actor name x).1)
      (swap_column env a b actor name x).0
  where
    x1 : Loop
    x1 = (swap_column env a b actor name x).1

    first : Untouched x.db x1.db
    first = swap_column-Untouched env a b actor name x

    on :
        Untouched x1.db (swap_columns env a b actor names x1).1.db
        → (r : Result (Unit {0}))
        → Untouched x.db
            (elim r as (λ _. Result (Unit {0}) × Loop) [
              | ok _ ↦ swap_columns env a b actor names x1
              | err e ↦ (err e, x1)
            ]).1.db
    on rest (ok _) = Untouched-trans x.db x1.db _ first rest
    on rest (err e) = first

exchange-Untouched :
    (env : Env) (w : Swap) (reason : Option Text) (actor : User) (db : Db) (key : ℕ)
    → get_swap key db.swaps ≡ some w.request
    → swap_pending w.request.status ≡ true
    → Untouched db (exchange env w reason actor db).1
unfolding exchange finish_swap
exchange-Untouched env w reason actor db key found waits =
    last (swap_columns env w.current w.requested actor names (start db0)).0
  where
    names : List Text
    names = column_names w.request

    db0 : Db
    db0 = ensure_both env names w.current w.requested db

    x1 : Loop
    x1 = (swap_columns env w.current w.requested actor names (start db0)).1

    looped : Untouched db x1.db
    looped =
        Untouched-trans db db0 x1.db (ensure_both-Untouched env names w.current w.requested db)
          (swap_columns-Untouched env w.current w.requested actor names (start db0))

    same : x1.db.swaps ≡ db.swaps
    same =
        swap_columns-swaps env w.current w.requested actor names (start db0)
        ∙ ensure_both-swaps env names w.current w.requested db

    last :
        (r : Result (Unit {0}))
        → Untouched db
            (elim r as (λ _. Result SwapRequest × Db) [
              | ok _ ↦ finish_swap env w names reason actor x1 x1.db
              | err e ↦ (err e, x1.db)
            ]).1
    last (ok _) =
        Untouched-trans db x1.db (finish_swap env w names reason actor x1 x1.db).1 looped (
          writes-Untouched x1.db (finish_swap env w names reason actor x1 x1.db).1 refl (λ k o e. e)
            (λ k c v e. e)
            (update_swap-decisions x1.db.swaps (completed names x1 reason actor)
              (λ s. completed-id names x1 reason actor s) key (ap (get_swap key) same ∙ found)
              waits))
    last (err e) = looped

pub approve-Untouched :
    (env : Env) (key : ℕ) (reason : Option Text) (actor : User) (db : Db)
    → Untouched db (approve env key reason actor db).1
unfolding approve approve_checks
approve-Untouched env key reason actor db = passed (approve_checks env key actor db) refl
  where
    passed :
        (r : Result Swap)
        → approve_checks env key actor db ≡ r
        → Untouched db
            (elim r as (λ _. Result SwapRequest × Db) [
              | ok w ↦ exchange env w reason actor db
              | err e ↦ (err e, db)
            ]).1
    passed (ok w) e =
        let (found, waits) = approve_checks-pending env key actor db e in
        exchange-Untouched env w reason actor db key found waits
    passed (err e) _ = Untouched-refl db
