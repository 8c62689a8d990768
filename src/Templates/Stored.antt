-- ===== src/Templates/Stored.antt =====
-- What is read of a custom column after values were set.
use reservation_tool.Keys.{All-Memᴰ}
use reservation_tool.Base.{
  ℕ, ◌≡◌, ◌≢◌, refl, sym, subst, ap, ◌∙◌, ◌⊎◌, inl, inr, Bool, true, false, ◌&&◌, Option, some,
  none, List, [], ◌∷◌, ◌++◌, ◌==◌, ==_iff, arith, All, All-imp, Pairwise, find, find-modify,
  find-modify_ne, modify, map_option, Memᴰ, Option-cases, Text, if◌then◌else◌,
}
use reservation_tool.Core.Errors.{Result, ok}
use reservation_tool.Core.Settings.{Codec, Env}
use reservation_tool.Db.Rows.{User, TemplateColumn, CustomField, Db}
use reservation_tool.Db.Transaction.{checked_ok}
use reservation_tool.Hardware.{custom_key, get_custom, upsert_custom}
use reservation_tool.Templates.{list_columns_for_product}
use reservation_tool.Templates.Values.{Raw, Dict, validate_and_serialize_values}
use reservation_tool.Templates.Writing.{
  upsert_value, upsert_all, column_named, store_values, set_setup_values,
}
use reservation_tool.Templates.Columns.{IsProper}
use reservation_tool.Templates.Order.{Named, columns-Named, Named-found, Memᴰ-columns}
use reservation_tool.Templates.Storing.{expected, items_of, item, validated}

-- The value that is stored of one custom column of one setup, if there is a row.
abbrev pub value_at : ℕ → ℕ → List CustomField → Option (Option Text)
value_at setup column rows = map_option (λ v. v.value) (get_custom setup column rows)

find-append_none :
    (p : CustomField → Bool) (xs : List CustomField) (y : CustomField)
    → find p xs ≡ none
    → find p (xs ++ y ∷ []) ≡ (if p y then some y else none)
find-append_none p [] y e = refl
find-append_none p (x ∷ xs) y e = ground (arith, find-append_none p xs y)

find-append_other :
    (p : CustomField → Bool) (xs : List CustomField) (y : CustomField)
    → p y ≡ false
    → find p (xs ++ y ∷ []) ≡ find p xs
find-append_other p [] y e = rw e refl
find-append_other p (x ∷ xs) y e = ap (λ o. if p x then some x else o) (find-append_other p xs y e)

module _ (setup column : ℕ) (value : Option Text) (rows : List CustomField) where
  abbrev row : CustomField
  row = record { setup_id = setup; template_column_id = column; value = value }

  abbrev written : CustomField → CustomField
  written v = record v { value = value }

  upsert_absent :
      get_custom setup column rows ≡ none → upsert_custom setup column value rows ≡ rows ++ row ∷ []
  unfolding upsert_custom
  upsert_absent e = rw (e, upsert_custom) refl

  upsert_present :
      {v : CustomField}
      → get_custom setup column rows ≡ some v
      → upsert_custom setup column value rows ≡ modify (custom_key setup column) written rows
  unfolding upsert_custom
  upsert_present e = rw (e, upsert_custom) refl

  -- The row that is written is read as written.
  value-upsert : value_at setup column (upsert_custom setup column value rows) ≡ some value
  unfolding get_custom
  value-upsert = elim (Option-cases (get_custom setup column rows)) [
    | inl absent ↦
        ap (value_at setup column) (upsert_absent absent)
        ∙ ap (map_option {A = CustomField} (λ v. v.value)) (
            find-append_none (custom_key setup column) rows row absent
            ∙ ap (λ b. if b then some row else none) (at_key (custom_key setup column row) refl))
    | inr (v, present) ↦
        ap (value_at setup column) (upsert_present present)
        ∙ ap (map_option {A = CustomField} (λ v. v.value))
            (find-modify (custom_key setup column) written (λ x. refl) rows)
        ∙ ap (λ o. map_option {A = CustomField} (λ v. v.value) (map_option written o)) present
  ]
    where
      at_key : (b : Bool) → (setup == setup && column == column) ≡ b → b ≡ true
      at_key b e =
          sym e ∙ ground (arith, (==_iff setup setup).1 refl, (==_iff column column).1 refl)

  -- Every other value reads the same.
  value-upsert_ne :
      (s c : ℕ)
      → (s ≢ setup) ⊎ (c ≢ column)
      → value_at s c (upsert_custom setup column value rows) ≡ value_at s c rows
  unfolding get_custom
  value-upsert_ne s c apart = elim (Option-cases (get_custom setup column rows)) [
    | inl absent ↦
        ap (value_at s c) (upsert_absent absent)
        ∙ ap (map_option {A = CustomField} (λ v. v.value))
            (find-append_other (custom_key s c) rows row (other setup column apart (refl, refl)))
    | inr (v, present) ↦
        ap (value_at s c) (upsert_present present)
        ∙ ap (map_option {A = CustomField} (λ v. v.value)) (
            find-modify_ne (custom_key setup column) written (custom_key s c)
              (λ x h. either x apart h) (λ x. refl) rows)
  ]
    where
      other :
          (i j : ℕ)
          → (s ≢ setup) ⊎ (c ≢ column)
          → (i ≡ setup) × (j ≡ column)
          → (i == s && j == c) ≡ false
      other i j (inl ne) e = ground (arith, ne)
      other i j (inr ne) e = ground (arith, ne)

      either :
          (x : CustomField)
          → (s ≢ setup) ⊎ (c ≢ column)
          → custom_key s c x ≡ true
          → custom_key setup column x ≡ false
      either x (inl ne) h = ground (arith, ne)
      either x (inr ne) h = ground (arith, ne)

-- What is read after a column was given a value, or was not.
abbrev pub kept_or : Option Text → Option (Option Text) → Option (Option Text)
kept_or none before = before
kept_or (some t) before = some (some t)

All-apart :
    (setup s k : ℕ) (cs : List TemplateColumn) → s ≢ setup → All (λ c. (s ≢ setup) ⊎ (k ≢ c.id)) cs
All-apart setup s k [] n = tt
All-apart setup s k (c ∷ cs) n = (inl n, All-apart setup s k cs n)

abbrev Found : List TemplateColumn → TemplateColumn → Type 0
Found columns c = column_named c.name columns ≡ some c

abbrev after_item : ℕ → TemplateColumn → Option Text → Db → Db
after_item setup c none db = db
after_item setup c (some t) db = upsert_value setup c.id t db

module _ (setup : ℕ) (columns : List TemplateColumn) where
  upsert-item :
      (c : TemplateColumn) (o : Option Text) (rest : Dict Text) (db : Db)
      → Found columns c
      → upsert_all setup columns (item c o ++ rest) db
        ≡ upsert_all setup columns rest (after_item setup c o db)
  unfolding upsert_all
  upsert-item c none rest db e = refl
  upsert-item c (some t) rest db e = rw (e, upsert_all) refl

  item_self :
      (c : TemplateColumn) (o : Option Text) (db : Db)
      → value_at setup c.id (after_item setup c o db).custom_values
        ≡ kept_or o (value_at setup c.id db.custom_values)
  unfolding upsert_value
  item_self c none db = refl
  item_self c (some t) db = value-upsert setup c.id (some t) db.custom_values

  item_other :
      (c : TemplateColumn) (o : Option Text) (db : Db) (s k : ℕ)
      → (s ≢ setup) ⊎ (k ≢ c.id)
      → value_at s k (after_item setup c o db).custom_values ≡ value_at s k db.custom_values
  unfolding upsert_value
  item_other c none db s k apart = refl
  item_other c (some t) db s k apart =
      value-upsert_ne setup c.id (some t) db.custom_values s k apart

  module _ (codec : Codec) (raw : Dict Raw) where
    abbrev after : List TemplateColumn → Db → Db
    after cs db = upsert_all setup columns (items_of codec raw cs) db

    -- Values of other setups and of other columns.
    after_other :
        (cs : List TemplateColumn) (db : Db) (s k : ℕ)
        → All (Found columns) cs
        → All (λ c. (s ≢ setup) ⊎ (k ≢ c.id)) cs
        → value_at s k (after cs db).custom_values ≡ value_at s k db.custom_values
    unfolding upsert_all
    after_other [] db s k found apart = refl
    after_other (c ∷ cs) db s k found apart =
        ap (λ (d : Db). value_at s k d.custom_values)
          (upsert-item c (expected codec raw c) (items_of codec raw cs) db found.0)
        ∙ after_other cs (after_item setup c (expected codec raw c) db) s k found.1 apart.1
        ∙ item_other c (expected codec raw c) db s k apart.0

    after_self :
        (cs : List TemplateColumn) (db : Db) (d : TemplateColumn)
        → All (Found columns) cs
        → Pairwise Named cs
        → Memᴰ d cs
        → value_at setup d.id (after cs db).custom_values
          ≡ kept_or (expected codec raw d) (value_at setup d.id db.custom_values)
    after_self [] db d found u m = elim m [ ]
    after_self (c ∷ cs) db d found u (Memᴰ.head e) =
        subst
          (λ x.
            value_at setup x.id (after (c ∷ cs) db).custom_values
            ≡ kept_or (expected codec raw x) (value_at setup x.id db.custom_values))
          (sym e)
          (ap (λ (y : Db). value_at setup c.id y.custom_values)
              (upsert-item c (expected codec raw c) (items_of codec raw cs) db found.0)
            ∙ after_other cs (after_item setup c (expected codec raw c) db) setup c.id found.1
                (All-imp (Named c) (λ x. (setup ≢ setup) ⊎ (c.id ≢ x.id)) (λ x n. inr n.0) cs u.0)
            ∙ item_self c (expected codec raw c) db)
    after_self (c ∷ cs) db d found u (Memᴰ.tail m) =
        ap (λ (y : Db). value_at setup d.id y.custom_values)
          (upsert-item c (expected codec raw c) (items_of codec raw cs) db found.0)
        ∙ after_self cs (after_item setup c (expected codec raw c) db) d found.1 u.1 m
        ∙ ap (kept_or (expected codec raw d)) (
            item_other c (expected codec raw c) db setup d.id
              (inr (λ e. (All-Memᴰ (Named c) cs d u.0 m).0 (sym e))))

-- In proper columns: setting the custom values of a setup, when it succeeds, leaves in every column of
-- the product the serialized text of the value that was given for it, else the default of the column, and
-- what was there when there is neither. The values of every other setup are unchanged.
pub set_setup_values_stores :
    (env : Env) (setup : ℕ) (c : TemplateColumn) (raw : Dict Raw) (actor : User) (db : Db) (s k : ℕ)
    {r : Dict (Option Text)}
    → IsProper db.columns
    → Memᴰ c db.columns
    → s ≢ setup
    → (set_setup_values env setup c.product_id raw actor db).0 ≡ ok r
    → (value_at setup c.id (set_setup_values env setup c.product_id raw actor db).1.custom_values
        ≡ kept_or (expected env.codec raw c) (value_at setup c.id db.custom_values))
      × (value_at s k (set_setup_values env setup c.product_id raw actor db).1.custom_values
          ≡ value_at s k db.custom_values)
unfolding set_setup_values store_values
set_setup_values_stores env setup c raw actor db s k v m n h =
    let columns = list_columns_for_product c.product_id db.columns in
    let named = columns-Named c.product_id db.columns v in
    let found = Named-found columns named in
    let (items, valid, _, same) =
      checked_ok (validate_and_serialize_values env.codec c.product_id raw db)
        (store_values setup c.product_id actor) db h in
    let write =
      ap (λ (i : Dict Text). (upsert_all setup columns i db).custom_values)
        (validated env.codec c.product_id raw db valid) in
    let all = ap (λ (w : Result (Dict (Option Text)) × Db). w.1.custom_values) same ∙ write in
    (
      ap (value_at setup c.id) all
          ∙ after_self setup columns env.codec raw columns db c found named
              (Memᴰ-columns c db.columns m),
      ap (value_at s k) all
          ∙ after_other setup columns env.codec raw columns db s k found
              (All-apart setup s k columns n),
    )
