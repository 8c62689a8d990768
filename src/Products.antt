-- ===== src/Products.antt =====
-- app/services/product_service.py over app/repositories/sqlalchemy/product_repository.py. The description
-- of a product is not kept.
pub mod Listing
use reservation_tool.Base.{
  ℕ, ◌==◌, Bool, false, not, ◌&&◌, ◌||◌, Option, none, some, List, [], ◌∷◌, ◌++◌, map, find, select,
  modify, any_of, is_some, Text, text_eq,
}
use reservation_tool.Core.Status.{AuditAction, EntityType}
use reservation_tool.Core.Errors.{AppError, Result, ok, err, ◌>>=◌, ◌>>◌, raise_if, or_raise}
use reservation_tool.Core.Settings.{Env}
use reservation_tool.Db.Rows.{User, Setup, Product, TemplateColumn, CustomField, Db}
use reservation_tool.Db.Transaction.{Action, checked}
use reservation_tool.Notifications.{record_audit}

abbrev pub get_product : ℕ → List Product → Option Product
get_product key = find (λ p. p.id == key)

abbrev pub get_by_name : Text → List Product → Option Product
get_by_name name = find (λ p. text_eq p.name name)

abbrev pub new_product : Env → Text → Db → Product
new_product env name db = record { id = env.fresh_id (map (λ p. p.id) db.products); name = name }

unfoldable pub store_product : Env → Text → User → Unit {0} → Action Product
store_product env name actor _ db =
    let row = new_product env name db in
    (
      ok row,
      record db {
        products = db.products ++ row ∷ [];
        journal =
            record_audit (some actor.id) AuditAction.create EntityType.product (some row.id)
              db.journal;
      },
    )

-- `create`
unfoldable pub create : Env → Text → User → Action Product
unfolding store_product
create env name actor db =
    checked (raise_if (is_some (get_by_name name db.products)) AppError.conflict)
      (store_product env name actor) db

-- `payload.name is not None and payload.name != product.name`
abbrev pub renames : Option Text → Product → Bool
renames none p = false
renames (some name) p = not (text_eq name p.name)

abbrev pub taken : Option Text → List Product → Bool
taken none products = false
taken (some name) products = is_some (get_by_name name products)

-- The guards of `update`, with the product that they find.
unfoldable pub update_checks : ℕ → Option Text → Db → Result Product
update_checks key name db = do
  p ← or_raise (get_product key db.products) AppError.not_found
  raise_if (renames name p && taken name db.products) AppError.conflict
  ok p

abbrev pub renamed : Option Text → Product → Product
renamed none p = p
renamed (some name) p = record p { name = name }

unfoldable pub store_renamed : Option Text → User → Product → Action Product
store_renamed name actor p db = (
  ok (renamed name p),
  record db {
    products = modify (λ x. x.id == p.id) (renamed name) db.products;
    journal =
        record_audit (some actor.id) AuditAction.update EntityType.product (some p.id) db.journal;
  },
)

-- `update`
unfoldable pub update : ℕ → Option Text → User → Action Product
unfolding update_checks store_renamed
update key name actor db = checked (update_checks key name db) (store_renamed name actor) db

abbrev pub has_setups : ℕ → Db → Bool
has_setups key db = any_of (λ s. s.product_id == key) db.setups

-- A value or an original of a custom column, of a setup that may since have left the product.
abbrev pub of_column : ℕ → List CustomField → Bool
of_column column = any_of (λ v. v.template_column_id == column)

-- The columns of the product go with it; with foreign keys the engine refuses that when one is in use.
unfoldable pub columns_in_use : Env → ℕ → Db → Bool
columns_in_use env key db =
    env.foreign_keys
    && any_of
        (λ c.
          c.product_id == key
          && (of_column c.id db.custom_values || of_column c.id db.custom_baselines))
        db.columns

-- The guards of `delete`: the refusal of the engine is a conflict too.
unfoldable pub delete_checks : Env → ℕ → Db → Result (Unit {0})
unfolding columns_in_use
delete_checks env key db = do
  p ← or_raise (get_product key db.products) AppError.not_found
  raise_if (has_setups key db) AppError.conflict
  raise_if (columns_in_use env key db) AppError.conflict

unfoldable pub store_deleted : ℕ → User → Unit {0} → Action (Unit {0})
store_deleted key actor _ db = (
  ok tt,
  record db {
    products = select (λ p. not (p.id == key)) db.products;
    columns = select (λ c. not (c.product_id == key)) db.columns;
    journal =
        record_audit (some actor.id) AuditAction.delete EntityType.product (some key) db.journal;
  },
)

-- `delete`
unfoldable pub delete : Env → ℕ → User → Action (Unit {0})
unfolding delete_checks store_deleted
delete env key actor db = checked (delete_checks env key db) (store_deleted key actor) db
