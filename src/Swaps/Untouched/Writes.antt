-- ===== src/Swaps/Untouched/Writes.antt =====
-- The single writes of a swap.
use reservation_tool.Base.{
  ℕ, ◌≡◌, refl, ap, inl, inr, Bool, true, false, ◌&&◌, Option, some, none, List, [], ◌∷◌, ◌++◌, map,
  ◌==◌, arith, find, is_some, Option-cases, Bool-cases, Text, if◌then◌else◌,
}
use reservation_tool.Db.Rows.{
  Field, Setup, SetupHardwareBaseline, CustomField, User, TemplateColumn, Db,
}
use reservation_tool.Db.Transaction.{checked_keeps}
use reservation_tool.Core.Settings.{Env}
use reservation_tool.Hardware.{
  get_baseline, ensure_fixed_baseline, get_custom, ensure_custom_baseline,
}
use reservation_tool.Templates.{list_columns_for_product}
use reservation_tool.Templates.Values.{Dict, validate_and_serialize_values}
use reservation_tool.Templates.Writing.{
  column_named, upsert_value, upsert_all, store_values, set_setup_values,
}
use reservation_tool.Swaps.Exchange.{
  any_fixed, ensure_both, ensure_custom, write_field, set_value, raw_of,
}
use reservation_tool.Swaps.Untouched.{
  bare, Untouched, Untouched-refl, Untouched-trans, writes-Untouched, journal-Untouched,
  if-Untouched,
}

-- A row that is found is found when another is added at the end.
pub find-append :
    {A : Type 0} (p : A → Bool) (xs : List A) (y a : A)
    → find p xs ≡ some a
    → find p (xs ++ y ∷ []) ≡ some a
find-append p [] y a e = absurd (cc)
find-append p (x ∷ xs) y a e = ground (arith, find-append p xs y a)

-- An original that is captured replaces none.
pub fixed_kept :
    (s : Setup) (rows : List SetupHardwareBaseline) (k : ℕ) (b : SetupHardwareBaseline)
    → get_baseline k rows ≡ some b
    → get_baseline k (ensure_fixed_baseline s rows) ≡ some b
unfolding ensure_fixed_baseline
fixed_kept s rows k b e = elim (Option-cases (get_baseline s.id rows)) [
  | inl absent ↦ rw (absent, ensure_fixed_baseline) (find-append (λ x. x.setup_id == k) rows _ b e)
  | inr (c, present) ↦ rw (present, ensure_fixed_baseline) e
]

pub custom_kept :
    (setup column : ℕ) (value : Option Text) (rows : List CustomField) (k c : ℕ) (v : CustomField)
    → get_custom k c rows ≡ some v
    → get_custom k c (ensure_custom_baseline setup column value rows) ≡ some v
unfolding ensure_custom_baseline get_custom
custom_kept setup column value rows k c v e = elim (Option-cases (get_custom setup column rows)) [
  | inl absent ↦
      rw (absent, ensure_custom_baseline)
        (find-append (λ x. x.setup_id == k && x.template_column_id == c) rows _ v e)
  | inr (d, present) ↦ rw (present, ensure_custom_baseline) e
]

-- A written field leaves the rest of each setup.
pub bare-write :
    (key : ℕ) (f : Field) (value : Option Text) (rows : List Setup)
    → map bare (write_field key f value rows) ≡ map bare rows
bare-write key f value [] = refl
bare-write key f value (s ∷ rows) = elim (Bool-cases (s.id == key)) [
  | inl t ↦ rw t (ap (λ l. bare s ∷ l) (bare-write key f value rows))
  | inr e ↦ rw e (ap (λ l. bare s ∷ l) (bare-write key f value rows))
]

upsert-Untouched :
    (setup column : ℕ) (value : Text) (db : Db) → Untouched db (upsert_value setup column value db)
unfolding upsert_value
upsert-Untouched setup column value db =
    writes-Untouched db (upsert_value setup column value db) refl (λ k b e. e)
      (λ k c v e. captured (is_some (get_custom setup column db.custom_values)) k c v e)
      (λ k s e d. e)
  where
    captured :
        (present : Bool) (k c : ℕ) (v : CustomField)
        → get_custom k c db.custom_baselines ≡ some v
        → get_custom k c (
            if present
            then db.custom_baselines
            else ensure_custom_baseline setup column (some value) db.custom_baselines)
          ≡ some v
    captured true k c v e = e
    captured false k c v e = custom_kept setup column (some value) db.custom_baselines k c v e

upsert_all-Untouched :
    (setup : ℕ) (columns : List TemplateColumn) (items : Dict Text) (db : Db)
    → Untouched db (upsert_all setup columns items db)
unfolding upsert_all
upsert_all-Untouched setup columns [] db = Untouched-refl db
upsert_all-Untouched setup columns ((name, value) ∷ items) db =
    elim (Option-cases (column_named name columns)) [
      | inl absent ↦ rw (absent, upsert_all) (upsert_all-Untouched setup columns items db)
      | inr (c, found) ↦
          rw (found, upsert_all)
            (Untouched-trans db (upsert_value setup c.id value db) _
              (upsert-Untouched setup c.id value db)
              (upsert_all-Untouched setup columns items (upsert_value setup c.id value db)))
    ]

pub set_value-Untouched :
    (env : Env) (s : Setup) (name : Text) (value : Option Text) (actor : User) (db : Db)
    → Untouched db (set_value env s name value actor db).1
unfolding set_setup_values store_values
set_value-Untouched env s name value actor db =
    checked_keeps (Untouched db)
      (validate_and_serialize_values env.codec s.product_id ((name, raw_of value) ∷ []) db)
      (store_values s.id s.product_id actor) db (Untouched-refl db)
      (λ items _.
        journal-Untouched db
          (upsert_all s.id (list_columns_for_product s.product_id db.columns) items db) _
          (upsert_all-Untouched s.id (list_columns_for_product s.product_id db.columns) items db))

pub ensure_custom-Untouched :
    (env : Env) (s : Setup) (name : Text) (value : Option Text) (db : Db)
    → Untouched db (ensure_custom env s name value db)
unfolding ensure_custom
ensure_custom-Untouched env s name value db =
    if-Untouched env.has_hardware_state db _
      (captured (column_named name (list_columns_for_product s.product_id db.columns)))
  where
    captured :
        (o : Option TemplateColumn)
        → Untouched db (elim o [
          | none ↦ db
          | some c ↦ record db {
            custom_baselines = ensure_custom_baseline s.id c.id value db.custom_baselines;
          }
        ])
    captured none = Untouched-refl db
    captured (some c) =
        writes-Untouched db
          (record db {
            custom_baselines = ensure_custom_baseline s.id c.id value db.custom_baselines;
          })
          refl (λ k b e. e) (custom_kept s.id c.id value db.custom_baselines) (λ k s e d. e)

pub ensure_both-Untouched :
    (env : Env) (names : List Text) (a b : Setup) (db : Db)
    → Untouched db (ensure_both env names a b db)
unfolding ensure_both
ensure_both-Untouched env names a b db =
    if-Untouched (env.has_hardware_state && any_fixed names) db _ (
      writes-Untouched db
        (record db { baselines = ensure_fixed_baseline b (ensure_fixed_baseline a db.baselines) })
        refl
        (λ k o e.
          fixed_kept b (ensure_fixed_baseline a db.baselines) k o (fixed_kept a db.baselines k o e))
        (λ k c v e. e) (λ k s e d. e))
