-- ===== src/Hardware.antt =====
-- The hardware columns and their original values: app/services/hardware_state_service.py over
-- app/repositories/sqlalchemy/hardware_baseline_repository.py.
pub mod Laws
pub mod State
pub mod Compare
pub mod Marks
mod Tests
use reservation_tool.Base.{
  ℕ, ◌==◌, Bool, not, ◌&&◌, Option, none, some, List, [], ◌∷◌, ◌++◌, map, find, select, modify,
  Text, text, text_eq, text_in, strip, if◌then◌else◌,
}
use reservation_tool.Db.Rows.{
  Field, ssd, hdd, hardware_info, capacity, form_factor, adapter, aardvark, quarch, apc,
  remote_server, Hardware, Setup, SetupHardwareBaseline, CustomField,
}

-- `SWAPPABLE_SETUP_FIELDS`, which are also `BASELINE_FIELD_NAMES`.
abbrev pub fields : List Field
fields =
    ssd ∷ hdd ∷ hardware_info ∷ capacity ∷ form_factor ∷ adapter ∷ aardvark ∷ quarch ∷ apc
    ∷ remote_server ∷ []

unfoldable pub field_name : Field → Text
field_name ssd = text "ssd"
field_name hdd = text "hdd"
field_name hardware_info = text "hardware_info"
field_name capacity = text "capacity"
field_name form_factor = text "form_factor"
field_name adapter = text "adapter"
field_name aardvark = text "aardvark"
field_name quarch = text "quarch"
field_name apc = text "apc"
field_name remote_server = text "remote_server"

abbrev pub field_names : List Text
field_names = map field_name fields

-- The fixed column that a name stands for, if it is one.
unfoldable pub field_of : Text → Option Field
field_of name = find (λ f. text_eq (field_name f) name) fields

-- `_normalize`
unfoldable pub normalize : Option Text → Text
normalize none = []
normalize (some v) = strip v

-- `get_fixed_baselines([id]).get(id)`
abbrev pub get_baseline : ℕ → List SetupHardwareBaseline → Option SetupHardwareBaseline
get_baseline key = find (λ b. b.setup_id == key)

-- `ensure_fixed_baseline`
unfoldable pub ensure_fixed_baseline :
    Setup → List SetupHardwareBaseline → List SetupHardwareBaseline
ensure_fixed_baseline s rows = elim (get_baseline s.id rows) [
  | some _ ↦ rows
  | none ↦ rows ++ record { setup_id = s.id; hardware = s.hardware } ∷ []
]

abbrev pub custom_key : ℕ → ℕ → CustomField → Bool
custom_key setup column c = c.setup_id == setup && c.template_column_id == column

-- The stored value of a custom column, if there is a row.
unfoldable pub get_custom : ℕ → ℕ → List CustomField → Option CustomField
get_custom setup column = find (custom_key setup column)

-- `ensure_custom_baseline`
unfoldable pub ensure_custom_baseline : ℕ → ℕ → Option Text → List CustomField → List CustomField
unfolding get_custom
ensure_custom_baseline setup column value rows = elim (get_custom setup column rows) [
  | some _ ↦ rows
  | none ↦ rows ++ record { setup_id = setup; template_column_id = column; value = value } ∷ []
]

-- `set_custom_baseline` and `upsert_value`: write the row, or add it.
unfoldable pub upsert_custom : ℕ → ℕ → Option Text → List CustomField → List CustomField
unfolding get_custom
upsert_custom setup column value rows = elim (get_custom setup column rows) [
  | some _ ↦ modify (custom_key setup column) (λ c. record c { value = value }) rows
  | none ↦ rows ++ record { setup_id = setup; template_column_id = column; value = value } ∷ []
]

abbrev field_eq : Field → Field → Bool
field_eq f g = text_eq (field_name f) (field_name g)

-- The names of the fixed fields whose values differ, in the order of the columns.
unfoldable pub differing : Hardware → Hardware → List Field
unfolding normalize
differing now original =
    select (λ f. not (text_eq (normalize (now f)) (normalize (original f)))) fields

-- The fixed part of `changed_fields` for one setup: without a baseline nothing has changed.
unfoldable pub changed_fixed : Setup → List SetupHardwareBaseline → List Field
unfolding differing
changed_fixed s rows = elim (get_baseline s.id rows) [
  | none ↦ []
  | some b ↦ differing s.hardware b.hardware
]

-- Takes the new value at the listed fields.
abbrev pub overwrite : List Field → Hardware → Hardware → Hardware
overwrite names new old f = if text_in (map field_name names) (field_name f) then new f else old f

-- `set_fixed_baseline_fields`
unfoldable pub set_fixed_baseline_fields :
    Setup → List Field → List SetupHardwareBaseline → List SetupHardwareBaseline
unfolding ensure_fixed_baseline
set_fixed_baseline_fields s names rows =
    modify (λ b. b.setup_id == s.id)
      (λ b. record b { hardware = overwrite names s.hardware b.hardware })
      (ensure_fixed_baseline s rows)

-- The fixed part of `rebaseline_edited_fields`: only the fields that the edit changed.
unfoldable pub rebaseline_fixed :
    Setup → Hardware → List SetupHardwareBaseline → List SetupHardwareBaseline
unfolding differing set_fixed_baseline_fields
rebaseline_fixed s before rows = elim (differing before s.hardware) [
  | [] ↦ rows
  | f ∷ fs ↦ set_fixed_baseline_fields s (f ∷ fs) rows
]
