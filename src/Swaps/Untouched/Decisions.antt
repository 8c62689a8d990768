-- ===== src/Swaps/Untouched/Decisions.antt =====
-- A decided request stays as it is: the writes of one request change no other, and the loop of `approve`
-- changes none.
use reservation_tool.Base.{
  ℕ, ◌≡◌, ◌≢◌, refl, sym, ap, subst, ◌∙◌, inl, inr, Bool, true, false, not, ◌||◌, Option, some,
  none, List, [], ◌∷◌, ◌==◌, ==_iff, arith, find-some, find-modify_ne, Option-cases, both_values,
  Text, if◌then◌else◌,
}
use mathlib.Core.Option.{some-injective}
use reservation_tool.Core.Status.{swap_pending, is_blocked}
use reservation_tool.Core.Errors.{
  AppError, Result, ok, err, or_raise-eq-ok, raise_if-eq-ok, >>=-eq-ok, ok-injective,
}
use reservation_tool.Core.Settings.{Env}
use reservation_tool.Db.Rows.{Field, Setup, SwapRequest, User, TemplateColumn, Db}
use reservation_tool.Db.Transaction.{and_then_keeps, checked_keeps}
use reservation_tool.Hardware.{field_of, ensure_custom_baseline}
use reservation_tool.Templates.{list_columns_for_product}
use reservation_tool.Templates.Values.{Dict, validate_and_serialize_values}
use reservation_tool.Templates.Writing.{
  column_named, upsert_value, upsert_all, store_values, set_setup_values,
}
use reservation_tool.Swaps.Access.{get_swap, get_setup_at, assert_can_approve}
use reservation_tool.Swaps.Requests.{pending_swap, update_swap}
use reservation_tool.Swaps.Exchange.{
  Swap, Loop, raw_of, get_or_null, maps_of, set_value, swap_fixed, swap_custom, swap_column,
  swap_columns, ensure_both, ensure_custom, completed, approve_checks,
}

-- A write to the row that waits leaves every decided row.
pub update_swap-decisions :
    (rows : List SwapRequest) {w : SwapRequest} (f : SwapRequest → SwapRequest)
    → ((s : SwapRequest) → (f s).id ≡ s.id)
    → (key : ℕ) → get_swap key rows ≡ some w
    → swap_pending w.status ≡ true
    → (k : ℕ) (s : SwapRequest) → get_swap k rows ≡ some s
    → swap_pending s.status ≡ false
    → get_swap k (update_swap w.id f rows) ≡ some s
update_swap-decisions rows {w} f keep key found waits k s e decided =
    find-modify_ne (λ x. x.id == w.id) f (λ x. x.id == k) (λ x h. other x h)
      (λ x. ap (λ i. i == k) (keep x)) rows
    ∙ e
  where
    at_key : w.id ≡ key
    at_key = (==_iff w.id key).0 (find-some (λ x. x.id == key) rows found)

    apart : k ≢ w.id
    apart same =
        both_values
          (subst (λ (x : SwapRequest). swap_pending x.status ≡ false)
            (some-injective s w (sym e ∙ ap (λ j. get_swap j rows) (same ∙ at_key) ∙ found))
            decided)
          waits

    other : (x : SwapRequest) → (x.id == k) ≡ true → (x.id == w.id) ≡ false
    other x h = ground (arith, apart)

pub completed-id :
    (names : List Text) (x : Loop) (reason : Option Text) (actor : User) (s : SwapRequest)
    → (completed names x reason actor s).id ≡ s.id
completed-id [] x reason actor s = refl
completed-id (n ∷ ns) x reason actor s = refl

pub pending_swap-found :
    (key : ℕ) (db : Db) {s : SwapRequest}
    → pending_swap key db ≡ ok s
    → (get_swap key db.swaps ≡ some s) × (swap_pending s.status ≡ true)
pending_swap-found key db {s} h =
    let (x, found, h1) = or_raise-eq-ok (get_swap key db.swaps) _ _ h in
    let (waits, h2) = raise_if-eq-ok (not (swap_pending x.status)) _ _ h1 in
    subst (λ (y : SwapRequest). (get_swap key db.swaps ≡ some y) × (swap_pending y.status ≡ true))
      (ok-injective h2) (found, ground arith)

pub approve_checks-pending :
    (env : Env) (key : ℕ) (actor : User) (db : Db) {w : Swap}
    → approve_checks env key actor db ≡ ok w
    → (get_swap key db.swaps ≡ some w.request) × (swap_pending w.request.status ≡ true)
unfolding approve_checks
approve_checks-pending env key actor db {w} h =
    let (s, first, h1) = >>=-eq-ok (pending_swap key db) _ h in
    let (a, _, h2) = or_raise-eq-ok (get_setup_at s.current_setup_id db.setups) _ _ h1 in
    let (b, _, h3) = or_raise-eq-ok (get_setup_at s.requested_setup_id db.setups) _ _ h2 in
    let (_, h4) = raise_if-eq-ok (is_blocked a.status || is_blocked b.status) _ _ h3 in
    let (_, _, h5) = >>=-eq-ok (assert_can_approve env db a actor) _ h4 in
    subst
      (λ (v : Swap).
        (get_swap key db.swaps ≡ some v.request) × (swap_pending v.request.status ≡ true))
      (ok-injective h5) (pending_swap-found key db first)

upsert_all-swaps :
    (setup : ℕ) (columns : List TemplateColumn) (items : Dict Text) (db : Db)
    → (upsert_all setup columns items db).swaps ≡ db.swaps
unfolding upsert_all upsert_value
upsert_all-swaps setup columns [] db = refl
upsert_all-swaps setup columns ((name, value) ∷ items) db =
    elim (Option-cases (column_named name columns)) [
      | inl absent ↦ rw (absent, upsert_all) (upsert_all-swaps setup columns items db)
      | inr (c, found) ↦
          rw (found, upsert_all)
            (upsert_all-swaps setup columns items (upsert_value setup c.id value db))
    ]

set_value-swaps :
    (env : Env) (s : Setup) (name : Text) (value : Option Text) (actor : User) (db : Db)
    → (set_value env s name value actor db).1.swaps ≡ db.swaps
unfolding set_setup_values store_values
set_value-swaps env s name value actor db =
    checked_keeps (λ d. d.swaps ≡ db.swaps)
      (validate_and_serialize_values env.codec s.product_id ((name, raw_of value) ∷ []) db)
      (store_values s.id s.product_id actor) db refl
      (λ items _. upsert_all-swaps s.id (list_columns_for_product s.product_id db.columns) items db)

ensure_custom-swaps :
    (env : Env) (s : Setup) (name : Text) (value : Option Text) (db : Db)
    → (ensure_custom env s name value db).swaps ≡ db.swaps
unfolding ensure_custom
ensure_custom-swaps env s name value db =
    by env.has_hardware_state (column_named name (list_columns_for_product s.product_id db.columns))
  where
    by :
        (t : Bool) (o : Option TemplateColumn)
        → (if t
            then elim o as (λ _. Db) [
              | none ↦ db
              | some c ↦ record db {
                custom_baselines = ensure_custom_baseline s.id c.id value db.custom_baselines;
              }
            ]
            else db).swaps
          ≡ db.swaps
    by true none = refl
    by true (some c) = refl
    by false o = refl

pub ensure_both-swaps :
    (env : Env) (names : List Text) (a b : Setup) (db : Db)
    → (ensure_both env names a b db).swaps ≡ db.swaps
unfolding ensure_both
ensure_both-swaps env names a b db = ground arith

swap_custom-swaps :
    (env : Env) (a b : Setup) (actor : User) (name : Text) (x : Loop)
    → (swap_custom env a b actor name x).1.db.swaps ≡ x.db.swaps
unfolding swap_custom
swap_custom-swaps env a b actor name x =
    and_then_keeps (λ d. d.swaps ≡ x.db.swaps) (set_value env a name value_b actor db1)
      (set_value env b name old_value actor)
      (set_value-swaps env a name value_b actor db1
        ∙ ensure_custom-swaps env b name value_b db0
        ∙ ensure_custom-swaps env a name old_value x.db)
      (λ db same. set_value-swaps env b name old_value actor db ∙ same)
  where
    old_value : Option Text
    old_value = get_or_null name (maps_of a b x).0

    value_b : Option Text
    value_b = get_or_null name (maps_of a b x).1

    db0 : Db
    db0 = ensure_custom env a name old_value x.db

    db1 : Db
    db1 = ensure_custom env b name value_b db0

swap_column-swaps :
    (env : Env) (a b : Setup) (actor : User) (name : Text) (x : Loop)
    → (swap_column env a b actor name x).1.db.swaps ≡ x.db.swaps
unfolding swap_column swap_fixed
swap_column-swaps env a b actor name x = by (field_of name) env.has_template
  where
    by :
        (o : Option Field) (t : Bool)
        → (elim o as (λ _. Result (Unit {0}) × Loop) [
          | some f ↦ (ok tt, swap_fixed a.id b.id name f x)
          | none ↦ if t then swap_custom env a b actor name x else (err AppError.validation, x)
        ]).1.db.swaps
          ≡ x.db.swaps
    by (some f) t = refl
    by none true = swap_custom-swaps env a b actor name x
    by none false = refl

pub swap_columns-swaps :
    (env : Env) (a b : Setup) (actor : User) (names : List Text) (x : Loop)
    → (swap_columns env a b actor names x).1.db.swaps ≡ x.db.swaps
unfolding swap_columns
swap_columns-swaps env a b actor [] x = refl
swap_columns-swaps env a b actor (name ∷ names) x =
    on (swap_columns-swaps env a b actor names (swap_column env a b actor name x).1)
      (swap_column env a b actor name x).0
  where
    x1 : Loop
    x1 = (swap_column env a b actor name x).1

    on :
        (swap_columns env a b actor names x1).1.db.swaps ≡ x1.db.swaps
        → (r : Result (Unit {0}))
        → (elim r as (λ _. Result (Unit {0}) × Loop) [
          | ok _ ↦ swap_columns env a b actor names x1
          | err e ↦ (err e, x1)
        ]).1.db.swaps
          ≡ x.db.swaps
    on rest (ok _) = rest ∙ swap_column-swaps env a b actor name x
    on rest (err e) = swap_column-swaps env a b actor name x
