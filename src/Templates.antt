-- ===== src/Templates.antt =====
-- app/services/template_service.py over app/repositories/sqlalchemy/template_repository.py: the custom
-- columns of a product's template. The requests are those of app/schemas/template.py, as validated.
pub mod Editing
pub mod Values
pub mod Writing
pub mod Columns
pub mod Histories
pub mod Conversions
pub mod Order
pub mod Storing
pub mod Stored
mod Tests
use reservation_tool.Base.{
  ℕ, suc, ◌+◌, ◌==◌, Bool, true, false, not, ◌&&◌, ◌||◌, Option, none, some, List, [], ◌∷◌, ◌++◌,
  map, find, select, modify, any_of, contains, is_some, ltb, leb, Text, text, text_eq, text_in,
  strip, lower, underscored, is_empty, length, if◌then◌else◌,
}
use reservation_tool.Core.Status.{AuditAction, EntityType, ColumnDataType}
use reservation_tool.Core.Errors.{AppError, Result, ok, err, ◌>>=◌, ◌>>◌, raise_if, or_raise}
use reservation_tool.Core.Settings.{Env}
use reservation_tool.Db.Rows.{User, TemplateColumn, CustomField, Db}
use reservation_tool.Db.Transaction.{Action, checked}
use reservation_tool.Notifications.{record_audit}
use reservation_tool.Products.{get_product, of_column}

pub record TemplateColumnCreateRequest : Type 0 where
  pub name : Text
  pub label : Option Text
  pub data_type : ColumnDataType
  pub required : Bool
  pub default_value : Option Text
  pub allowed_values : Option (List Text)

pub record TemplateColumnUpdateRequest : Type 0 where
  pub label : Option Text
  pub required : Option Bool
  pub default_value : Option Text
  pub allowed_values : Option (List Text)

-- `MANDATORY_TEMPLATE_COLUMN_NAMES`
unfoldable pub mandatory_names : List Text
mandatory_names =
    text "ip"
    ∷ text "user"
    ∷ text "owner"
    ∷ text "reservation"
    ∷ text "remark"
    ∷ text "location"
    ∷ text "group"
    ∷ text "product"
    ∷ []

-- `ORDER BY order_index, id`
abbrev pub precedes : TemplateColumn → TemplateColumn → Bool
precedes c d = ltb c.order_index d.order_index || c.order_index == d.order_index && leb c.id d.id

abbrev pub insert_column : TemplateColumn → List TemplateColumn → List TemplateColumn
insert_column c [] = c ∷ []
insert_column c (d ∷ ds) =
    let rest = insert_column c ds in if precedes c d then c ∷ d ∷ ds else d ∷ rest

abbrev pub ordered : List TemplateColumn → List TemplateColumn
ordered [] = []
ordered (c ∷ cs) = insert_column c (ordered cs)

-- `list_columns_for_product`, also called `get_custom_columns`
unfoldable pub list_columns_for_product : ℕ → List TemplateColumn → List TemplateColumn
list_columns_for_product product columns = ordered (select (λ c. c.product_id == product) columns)

abbrev pub get_column_by_id : ℕ → List TemplateColumn → Option TemplateColumn
get_column_by_id key = find (λ c. c.id == key)

abbrev pub has_column_name : ℕ → Text → TemplateColumn → Bool
has_column_name product name c = c.product_id == product && text_eq c.name name

abbrev pub get_column_by_name : ℕ → Text → List TemplateColumn → Option TemplateColumn
get_column_by_name product name = find (has_column_name product name)

-- `payload.name.strip().lower().replace(" ", "_")`
unfoldable pub normalized_name : Text → Text
normalized_name name = underscored (lower (strip name))

-- `max(indices, default=-1) + 1`
abbrev pub next_order : List TemplateColumn → ℕ
next_order [] = 0
next_order (c ∷ cs) =
    let rest = next_order cs in if ltb rest (suc c.order_index) then suc c.order_index else rest

-- The guards of `add_column`, with `_reject_mandatory_name`.
unfoldable pub add_column_checks : ℕ → Text → Db → Result (Unit {0})
add_column_checks product name db = do
  p ← or_raise (get_product product db.products) AppError.not_found
  raise_if (text_in mandatory_names name) AppError.conflict
  raise_if (is_some (get_column_by_name product name db.columns)) AppError.conflict

-- `payload.label or payload.name`
abbrev pub label_or_name : TemplateColumnCreateRequest → Text
label_or_name p = elim p.label [ none ↦ p.name | some l ↦ if is_empty l then p.name else l ]

-- `payload.allowed_values if payload.allowed_values else None`
abbrev pub some_values : Option (List Text) → Option (List Text)
some_values none = none
some_values (some []) = none
some_values (some (v ∷ vs)) = some (v ∷ vs)

abbrev pub new_column : Env → ℕ → TemplateColumnCreateRequest → Db → TemplateColumn
new_column env product p db = record {
  id = env.fresh_id (map (λ c. c.id) db.columns);
  product_id = product;
  name = normalized_name p.name;
  label = strip (label_or_name p);
  data_type = p.data_type;
  required = p.required;
  default_value = p.default_value;
  allowed_values = some_values p.allowed_values;
  order_index = next_order (list_columns_for_product product db.columns);
}

unfoldable pub store_column :
    Env → ℕ → TemplateColumnCreateRequest → User → Unit {0} → Action TemplateColumn
store_column env product p actor _ db =
    let row = new_column env product p db in
    (
      ok row,
      record db {
        columns = db.columns ++ row ∷ [];
        journal =
            record_audit (some actor.id) AuditAction.create EntityType.template_column (some row.id)
              db.journal;
      },
    )

-- `add_column`
unfoldable pub add_column : Env → ℕ → TemplateColumnCreateRequest → User → Action TemplateColumn
unfolding add_column_checks store_column
add_column env product p actor db =
    checked (add_column_checks product (normalized_name p.name) db)
      (store_column env product p actor) db
