-- ===== src/Hardware/Tests.antt =====
-- A setup with a changed fixed field and a changed custom column.
use mathlib.Core.Option.{some-injective}
use reservation_tool.Base.{
  ◌≡◌, ◌↔◌, refl, sym, ap, find, ◌==◌, true, false, none, some, [], ◌∷◌, Memᴰ, text, text_in,
}
use reservation_tool.Core.Status.{SetupStatus, ColumnDataType}
use reservation_tool.Db.Rows.{Setup, CustomField, TemplateColumn, Db}
use reservation_tool.Samples.{machine, hardware, db}
use reservation_tool.Templates.{list_columns_for_product, mandatory_names}
use reservation_tool.Hardware.State.{changed_of, compare_setup}
use reservation_tool.Hardware.Compare.{Marked}
use reservation_tool.Hardware.Marks.{compare_setup-Marked}

abbrev setup : Setup
setup = machine 10 1 (text "a") SetupStatus.available

abbrev slot : TemplateColumn
slot = record {
  id = 1;
  product_id = 7;
  name = text "slot_no";
  label = text "Slot";
  data_type = ColumnDataType.integer;
  required = true;
  default_value = none;
  allowed_values = none;
  order_index = 1;
}

abbrev value : CustomField
value = record { setup_id = 10; template_column_id = 1; value = some (text "7") }

abbrev swapped : Db
swapped = record db {
  columns = slot ∷ [];
  baselines = record { setup_id = 10; hardware = hardware (text "b") } ∷ [];
  custom_baselines = value ∷ [];
  custom_values = record value { value = some (text "8") } ∷ [];
}

slot_allowed : text_in mandatory_names slot.name ≡ false
unfolding mandatory_names
slot_allowed = refl

compare_setup-Marked_example :
    Marked
      (compare_setup swapped setup (list_columns_for_product 7 swapped.columns))
      (text "slot_no")
    ↔ Memᴰ (text "slot_no") (changed_of swapped setup)
compare_setup-Marked_example =
    compare_setup-Marked swapped setup (text "slot_no") ((tt, tt), (slot_allowed, tt)) (tt, tt)
      (product, tt)
  where
    product :
        value.setup_id ≡ setup.id
        → (c : TemplateColumn) → find (λ (x : TemplateColumn). x.id == 1) swapped.columns ≡ some c
        → c.product_id ≡ setup.product_id
    product _ c e = ap (λ (x : TemplateColumn). x.product_id) (sym (some-injective _ _ e))
