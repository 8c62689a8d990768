-- ===== src/Templates/Tests.antt =====
-- The theorems on templates at concrete inputs.
use reservation_tool.Base.{◌≡◌, refl, arith, strip, true, none, some, List, [], ◌∷◌, text, Memᴰ}
use reservation_tool.Core.Status.{ColumnDataType}
use reservation_tool.Db.Rows.{Db, TemplateColumn}
use reservation_tool.Core.Settings.{Codec}
use reservation_tool.Samples.{env, next_key-IsFresh, dora, db}
use reservation_tool.Templates.Values.{check_column, Raw, Dict, stored, serialize_value}
use reservation_tool.Templates.Writing.{set_setup_values}
use reservation_tool.Templates.Conversions.{IsStable, serialize_value-stored}
use reservation_tool.Templates.Storing.{expected}
use reservation_tool.Templates.Stored.{value_at, kept_or, set_setup_values_stores}
use reservation_tool.Templates.{
  mandatory_names, list_columns_for_product, TemplateColumnCreateRequest,
  TemplateColumnUpdateRequest,
}
use reservation_tool.Templates.Columns.{IsProper}
use reservation_tool.Templates.Histories.{
  Call, adds, edits, drops, orders, detects, serve_columns, serve_columns-IsProper,
}

abbrev with_product : Db
with_product = record db { products = record { id = 7; name = text "p" } ∷ [] }

abbrev wanted : TemplateColumnCreateRequest
wanted = record {
  name = text " Slot No ";
  label = none;
  data_type = ColumnDataType.integer;
  required = true;
  default_value = none;
  allowed_values = none;
}

abbrev change : TemplateColumnUpdateRequest
change = record {
  label = some (text "Slot");
  required = none;
  default_value = some (text "1");
  allowed_values = none;
}

abbrev calls : List Call
calls =
    adds env 7 wanted
    ∷ adds env 7 wanted
    ∷ edits 7 1 change
    ∷ detects env 7 (text "Rack" ∷ text "owner" ∷ [])
    ∷ orders 7 (2 ∷ 1 ∷ [])
    ∷ drops env 7 1
    ∷ []

serve_columns-IsProper_example : IsProper (serve_columns dora calls with_product).columns
serve_columns-IsProper_example =
    serve_columns-IsProper dora calls with_product
      (next_key-IsFresh, (next_key-IsFresh, (tt, (next_key-IsFresh, (tt, (tt, tt)))))) (tt, tt)

-- Conversions that keep every text.
abbrev plain : Codec
plain = record { float = some; iso_date = some; iso_datetime = some }

plain-IsStable : IsStable plain
plain-IsStable = record {
  float = λ t u h. refl;
  iso_date = λ t u h. refl;
  iso_datetime = λ t u h. refl;
}

serialize_value-stored_example :
    serialize_value plain ColumnDataType.integer none (Raw.str (text "-12")) ≡ stored (text "-12")
unfolding serialize_value strip
serialize_value-stored_example =
    serialize_value-stored plain ColumnDataType.integer none (text " -0_12 ") (text "-12")
      plain-IsStable refl

-- A product with one custom column.
abbrev slot : TemplateColumn
slot = record {
  id = 1;
  product_id = 7;
  name = text "slot_no";
  label = text "Slot";
  data_type = ColumnDataType.integer;
  required = true;
  default_value = none;
  allowed_values = none;
  order_index = 1;
}

abbrev with_slot : Db
with_slot = record db { columns = slot ∷ [] }

abbrev given : Dict Raw
given = (text "slot_no", Raw.str (text " 7 ")) ∷ []

set_setup_values_stores_example :
    (value_at 10 1 (set_setup_values env 10 7 given dora with_slot).1.custom_values
      ≡ kept_or (expected env.codec given slot) (value_at 10 1 with_slot.custom_values))
    × (value_at 11 1 (set_setup_values env 10 7 given dora with_slot).1.custom_values
        ≡ value_at 11 1 with_slot.custom_values)
unfolding set_setup_values mandatory_names list_columns_for_product check_column strip
set_setup_values_stores_example =
    set_setup_values_stores env 10 slot given dora with_slot 11 1 ((tt, tt), (refl, tt))
      (Memᴰ.head refl) (ground (arith)) refl
