-- ===== src/Templates/Editing.antt =====
-- The changes of custom columns: editing, deleting and reordering them, and adding those that an import
-- has detected.
use reservation_tool.Base.{
  ℕ, suc, ◌==◌, Bool, true, false, not, ◌&&◌, ◌||◌, Option, none, some, List, [], ◌∷◌, map, select,
  modify, contains, is_some, ltb, Text, text_in, strip, is_empty, length, if◌then◌else◌,
}
use reservation_tool.Core.Status.{AuditAction, EntityType, ColumnDataType}
use reservation_tool.Core.Errors.{AppError, Result, ok, err, ◌>>=◌, ◌>>◌, raise_if, or_raise}
use reservation_tool.Core.Settings.{Env}
use reservation_tool.Db.Rows.{User, TemplateColumn, Db}
use reservation_tool.Db.Transaction.{Action, checked}
use reservation_tool.Notifications.{record_audit}
use reservation_tool.Products.{get_product, of_column}
use reservation_tool.Templates.{
  TemplateColumnCreateRequest, TemplateColumnUpdateRequest, mandatory_names, get_column_by_id,
  get_column_by_name, list_columns_for_product, normalized_name, add_column,
}

-- `_get_owned_column`
unfoldable pub get_owned_column : ℕ → ℕ → Db → Result TemplateColumn
get_owned_column product key db = do
  c ← or_raise (get_column_by_id key db.columns) AppError.not_found
  raise_if (not (c.product_id == product)) AppError.not_found
  ok c

abbrev pub is_dropdown : ColumnDataType → Bool
is_dropdown ColumnDataType.dropdown = true
is_dropdown _ = false

-- The guards of `update_column`; the last stands after assignments to the row that its exception undoes.
unfoldable pub update_column_checks :
    ℕ → ℕ → TemplateColumnUpdateRequest → Db → Result TemplateColumn
unfolding get_owned_column
update_column_checks product key p db = do
  c ← get_owned_column product key db
  raise_if (is_some p.allowed_values && not (is_dropdown c.data_type)) AppError.validation
  ok c

-- `value if value is not None else current`
abbrev pub given {ℓ} : {A : Type ℓ} → Option A → A → A
given none current = current
given (some value) current = value

abbrev pub or_given {ℓ} : {A : Type ℓ} → Option A → Option A → Option A
or_given none current = current
or_given (some value) current = some value

-- `payload.label.strip() or column.label`
abbrev pub relabelled : Option Text → Text → Text
relabelled none current = current
relabelled (some l) current = if is_empty (strip l) then current else strip l

abbrev pub edited : TemplateColumnUpdateRequest → TemplateColumn → TemplateColumn
edited p c = record c {
  label = relabelled p.label c.label;
  required = given p.required c.required;
  default_value = or_given p.default_value c.default_value;
  allowed_values = or_given p.allowed_values c.allowed_values;
}

unfoldable pub store_edited :
    TemplateColumnUpdateRequest → User → TemplateColumn → Action TemplateColumn
store_edited p actor c db = (
  ok (edited p c),
  record db {
    columns = modify (λ x. x.id == c.id) (edited p) db.columns;
    journal =
        record_audit (some actor.id) AuditAction.update EntityType.template_column (some c.id)
          db.journal;
  },
)

-- `update_column`
unfoldable pub update_column : ℕ → ℕ → TemplateColumnUpdateRequest → User → Action TemplateColumn
unfolding update_column_checks store_edited
update_column product key p actor db =
    checked (update_column_checks product key p db) (store_edited p actor) db

-- The guards of `delete_column`, and the foreign keys of the values and originals of the column.
unfoldable pub delete_column_checks : Env → ℕ → ℕ → Db → Result (Unit {0})
unfolding get_owned_column
delete_column_checks env product key db = do
  c ← get_owned_column product key db
  raise_if
      (env.foreign_keys && (of_column key db.custom_values || of_column key db.custom_baselines))
      AppError.internal

unfoldable pub store_column_deleted : ℕ → User → Unit {0} → Action (Unit {0})
store_column_deleted key actor _ db = (
  ok tt,
  record db {
    columns = select (λ c. not (c.id == key)) db.columns;
    journal =
        record_audit (some actor.id) AuditAction.delete EntityType.template_column (some key)
          db.journal;
  },
)

-- `delete_column`
unfoldable pub delete_column : Env → ℕ → ℕ → User → Action (Unit {0})
unfolding delete_column_checks store_column_deleted
delete_column env product key actor db =
    checked (delete_column_checks env product key db) (store_column_deleted key actor) db

abbrev pub ids_of : List TemplateColumn → List ℕ
ids_of = map (λ c. c.id)

-- Every number of the first list is in the second.
abbrev pub all_in : List ℕ → List ℕ → Bool
all_in [] ys = true
all_in (x ∷ xs) ys = contains ys x && all_in xs ys

-- The guards of `reorder_columns`: no unknown key, and the same set of keys.
unfoldable pub reorder_checks : ℕ → List ℕ → Db → Result (Unit {0})
reorder_checks product keys db = do
  p ← or_raise (get_product product db.products) AppError.not_found
  let existing = ids_of (list_columns_for_product product db.columns)
  raise_if (not (all_in keys existing)) AppError.validation
  raise_if (not (all_in existing keys)) AppError.validation

abbrev pub at_index : ℕ → TemplateColumn → TemplateColumn
at_index i c = record c { order_index = i }

-- `for index, column_id in enumerate(column_ids)`, from an index on
abbrev pub reindex : ℕ → List ℕ → List TemplateColumn → List TemplateColumn
reindex i [] columns = columns
reindex i (k ∷ ks) columns = reindex (suc i) ks (modify (λ c. c.id == k) (at_index i) columns)

unfoldable pub store_reordered : ℕ → List ℕ → User → Unit {0} → Action (Unit {0})
store_reordered product keys actor _ db = (
  ok tt,
  record db {
    columns = reindex 0 keys db.columns;
    journal =
        record_audit (some actor.id) AuditAction.update EntityType.template_column (some product)
          db.journal;
  },
)

-- `reorder_columns`
unfoldable pub reorder_columns : ℕ → List ℕ → User → Action (Unit {0})
unfolding reorder_checks store_reordered
reorder_columns product keys actor db =
    checked (reorder_checks product keys db) (store_reordered product keys actor) db

-- The column that `add_columns_from_names` asks for.
abbrev pub string_column : Text → TemplateColumnCreateRequest
string_column raw = record {
  name = normalized_name raw;
  label = some (strip raw);
  data_type = ColumnDataType.string;
  required = false;
  default_value = none;
  allowed_values = none;
}

-- `max_length` of the name and of the label in `TemplateColumnCreateRequest`
abbrev pub too_long : Text → Bool
too_long raw = ltb 100 (length (normalized_name raw)) || ltb 150 (length (strip raw))

-- A name that the loop passes over.
abbrev pub passed_over : ℕ → Text → Db → Bool
passed_over product raw db =
    is_empty (normalized_name raw)
    || text_in mandatory_names (normalized_name raw)
    || is_some (get_column_by_name product (normalized_name raw) db.columns)

-- The body of the loop: a name that is too long is refused by the schema.
abbrev pub add_named : Env → ℕ → Text → User → Action (Unit {0})
add_named env product raw actor db =
    if passed_over product raw db
    then (ok tt, db)
    else if too_long raw
    then (err AppError.internal, db)
    else (let (r, db') = add_column env product (string_column raw) actor db in
        (r >>= λ _. ok tt, db'))

-- `add_columns_from_names`
unfoldable pub add_columns_from_names : Env → ℕ → List Text → User → Action (Unit {0})
unfolding add_column
add_columns_from_names env product [] actor db = (ok tt, db)
add_columns_from_names env product (raw ∷ names) actor db =
    let (r, db') = add_named env product raw actor db in
    elim r [ ok _ ↦ add_columns_from_names env product names actor db' | err e ↦ (err e, db') ]
