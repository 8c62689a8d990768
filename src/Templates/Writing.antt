-- ===== src/Templates/Writing.antt =====
-- The writes of `set_setup_values`, and what is read of the custom columns of a setup.
use reservation_tool.Base.{
  ℕ, ◌==◌, Option, none, some, List, [], ◌∷◌, find, select, is_some, Text, text_eq, if◌then◌else◌,
}
use reservation_tool.Core.Status.{AuditAction, EntityType}
use reservation_tool.Core.Errors.{ok}
use reservation_tool.Core.Settings.{Env}
use reservation_tool.Db.Rows.{User, TemplateColumn, CustomField, Db}
use reservation_tool.Db.Transaction.{Action, checked}
use reservation_tool.Notifications.{record_audit}
use reservation_tool.Hardware.{get_custom, upsert_custom, ensure_custom_baseline}
use reservation_tool.Templates.{list_columns_for_product}
use reservation_tool.Templates.Values.{Raw, Dict, validate_and_serialize_values}

-- `upsert_value`; `_capture_custom_baseline` runs when the row is inserted.
unfoldable pub upsert_value : ℕ → ℕ → Text → Db → Db
unfolding upsert_custom ensure_custom_baseline get_custom
upsert_value setup column value db = record db {
  custom_values = upsert_custom setup column (some value) db.custom_values;
  custom_baselines =
      if is_some (get_custom setup column db.custom_values)
      then db.custom_baselines
      else ensure_custom_baseline setup column (some value) db.custom_baselines;
}

-- `columns_by_name[name]`; every serialized name is that of a column.
abbrev pub column_named : Text → List TemplateColumn → Option TemplateColumn
column_named name = find (λ c. text_eq c.name name)

-- `for name, value in serialized.items()`
unfoldable pub upsert_all : ℕ → List TemplateColumn → Dict Text → Db → Db
upsert_all setup columns [] db = db
upsert_all setup columns ((name, value) ∷ items) db = elim (column_named name columns) [
  | none ↦ upsert_all setup columns items db
  | some c ↦ upsert_all setup columns items (upsert_value setup c.id value db)
]

-- `get_values_map_for_setup`, for these columns
abbrev pub values_map : List TemplateColumn → List CustomField → Dict (Option Text)
values_map columns [] = []
values_map columns (v ∷ vs) = elim (find (λ c. c.id == v.template_column_id) columns) [
  | none ↦ values_map columns vs
  | some c ↦ (c.name, v.value) ∷ values_map columns vs
]

unfoldable pub get_values_map_for_setup : ℕ → ℕ → Db → Dict (Option Text)
get_values_map_for_setup setup product db =
    values_map (list_columns_for_product product db.columns)
      (select (λ v. v.setup_id == setup) db.custom_values)

-- The writes of `set_setup_values`.
unfoldable pub store_values : ℕ → ℕ → User → Dict Text → Action (Dict (Option Text))
unfolding upsert_all get_values_map_for_setup
store_values setup product actor items db =
    let db1 = upsert_all setup (list_columns_for_product product db.columns) items db in
    let db2 = record db1 {
      journal =
          record_audit (some actor.id) AuditAction.update EntityType.custom_field_value (some setup)
            db1.journal;
    } in
    (ok (get_values_map_for_setup setup product db2), db2)

-- `set_setup_values`, for a setup that the caller has looked up.
unfoldable pub set_setup_values : Env → ℕ → ℕ → Dict Raw → User → Action (Dict (Option Text))
unfolding validate_and_serialize_values store_values
set_setup_values env setup product raw actor db =
    checked (validate_and_serialize_values env.codec product raw db)
      (store_values setup product actor) db
