-- ===== src/Hardware/State.antt =====
-- The custom columns beside the fixed ones: what `changed_fields` and `compare` of
-- app/services/hardware_state_service.py show, and what an edit makes the new original values.
use reservation_tool.Base.{
  ℕ, ◌+◌, ◌-◌, ◌==◌, Bool, false, not, ◌&&◌, ◌||◌, Option, none, some, List, [], ◌∷◌, ◌++◌, map,
  find, select, leb, Text, text_eq, if◌then◌else◌,
}
use reservation_tool.Db.Rows.{
  Field, Hardware, Setup, SetupHardwareBaseline, CustomField, TemplateColumn, HardwareChangeLog, Db,
}
use reservation_tool.Paging.{take}
use reservation_tool.Hardware.{
  fields, field_name, normalize, get_baseline, get_custom, upsert_custom, changed_fixed, differing,
  rebaseline_fixed,
}

abbrev pub differs : Option Text → Option Text → Bool
differs a b = not (text_eq (normalize a) (normalize b))

-- `current_map.get(column_id)`: null where there is no row
abbrev pub value_or_null : Option CustomField → Option Text
value_or_null none = none
value_or_null (some v) = v.value

-- `get_column_names`
abbrev pub column_of : ℕ → List TemplateColumn → Option TemplateColumn
column_of key = find (λ c. c.id == key)

-- The loop over `base_map`: the columns whose value differs, of those that are still there.
unfoldable pub changed_columns : Db → List CustomField → List TemplateColumn
unfolding normalize get_custom
changed_columns db [] = []
changed_columns db (b ∷ base) =
    let later = changed_columns db base in
    elim (column_of b.template_column_id db.columns) [
      | none ↦ later
      | some c ↦
          if differs (value_or_null (get_custom b.setup_id b.template_column_id db.custom_values))
            b.value
          then c ∷ later
          else later
    ]

-- The fields of one setup that have changed, by their names.
unfoldable pub changed_of : Db → Setup → List Text
unfolding changed_fixed changed_columns field_name
changed_of db s =
    map field_name (changed_fixed s db.baselines)
    ++ map (λ c. c.name) (changed_columns db (select (λ b. b.setup_id == s.id) db.custom_baselines))

-- `changed_fields`, of setups that are listed once each
unfoldable pub changed_fields : Db → List Setup → List (ℕ × List Text)
unfolding changed_of
changed_fields db [] = []
changed_fields db (s ∷ setups) =
    let rest = changed_fields db setups in
    elim (changed_of db s) [ [] ↦ rest | n ∷ ns ↦ (s.id, n ∷ ns) ∷ rest ]

-- `str.title()` after `replace("_", " ")`, of ASCII: a letter after a letter is small.
abbrev pub is_lower : ℕ → Bool
is_lower c = leb b'a' c && leb c b'z'

abbrev pub is_upper : ℕ → Bool
is_upper c = leb b'A' c && leb c b'Z'

abbrev pub cased : Bool → ℕ → ℕ
cased after c =
    if c == b'_'
    then 32
    else if after && is_upper c
    then c + 32
    else if not after && is_lower c
    then c - 32
    else c

unfoldable pub titled : Bool → Text → Text
titled after [] = []
titled after (c ∷ cs) = cased after c ∷ titled (is_lower c || is_upper c) cs

-- A row of the table of `compare`.
pub record CompareRow : Type 0 where
  pub field : Text
  pub label : Text
  pub original : Option Text
  pub current : Option Text
  pub changed : Bool

abbrev pub compare_row : Text → Text → Option Text → Option Text → CompareRow
compare_row field label original current = record {
  field = field;
  label = label;
  original = original;
  current = current;
  changed = differs original current;
}

-- The original value of a field; without a row nothing has changed.
abbrev pub original_of : Setup → Option SetupHardwareBaseline → Field → Option Text
original_of s none f = s.hardware f
original_of s (some b) f = b.hardware f

abbrev pub fixed_row : Setup → Option SetupHardwareBaseline → Field → CompareRow
fixed_row s baseline f =
    compare_row (field_name f) (titled false (field_name f)) (original_of s baseline f)
      (s.hardware f)

-- `custom_base.get(column.id, current)`
abbrev pub original_or : Option Text → Option CustomField → Option Text
original_or current none = current
original_or current (some b) = b.value

-- `column.label or column.name`
abbrev pub shown_label : TemplateColumn → Text
shown_label c = elim c.label [ [] ↦ c.name | x ∷ xs ↦ x ∷ xs ]

abbrev pub custom_row : Db → Setup → TemplateColumn → CompareRow
custom_row db s c =
    let current = value_or_null (get_custom s.id c.id db.custom_values) in
    compare_row c.name (shown_label c)
      (original_or current (get_custom s.id c.id db.custom_baselines)) current

-- `compare`
unfoldable pub compare_setup : Db → Setup → List TemplateColumn → List CompareRow
unfolding field_name titled normalize get_custom
compare_setup db s columns =
    map (fixed_row s (get_baseline s.id db.baselines)) fields ++ map (custom_row db s) columns

-- The loop over `custom_column_ids`: the names of the edited columns, and their new original values.
unfoldable pub rebaseline_custom :
    ℕ
    → List (Text × ℕ)
    → (Text → Option Text)
    → (Text → Option Text)
    → List CustomField
    → List Text × List CustomField
unfolding upsert_custom normalize
rebaseline_custom setup [] before after rows = ([], rows)
rebaseline_custom setup ((name, column) ∷ ids) before after rows =
    let edited = differs (before name) (after name) in
    let written = if edited then upsert_custom setup column (after name) rows else rows in
    let (names, rows') = rebaseline_custom setup ids before after written in
    (if edited then name ∷ names else names, rows')

-- `rebaseline_edited_fields`; a value that is not in a map is null, as `get` gives it.
unfoldable pub rebaseline_edited_fields :
    Setup
    → Hardware
    → List (Text × ℕ)
    → (Text → Option Text)
    → (Text → Option Text)
    → Db
    → List Text × Db
unfolding differing rebaseline_fixed rebaseline_custom field_name
rebaseline_edited_fields s before_fixed ids before after db =
    let (names, customs) = rebaseline_custom s.id ids before after db.custom_baselines in
    (
      map field_name (differing before_fixed s.hardware) ++ names,
      record db {
        baselines = rebaseline_fixed s before_fixed db.baselines;
        custom_baselines = customs;
      },
    )

abbrev pub reversed {ℓ} : {A : Type ℓ} → List A → List A → List A
reversed done [] = done
reversed done (x ∷ xs) = reversed (x ∷ done) xs

abbrev pub take_newest : ℕ → List HardwareChangeLog → List HardwareChangeLog
take_newest limit rows = take limit (reversed [] rows)

-- `history`: the rows stand in the order in which they were written.
unfoldable pub history : ℕ → ℕ → Db → List HardwareChangeLog
history setup limit db = take_newest limit (select (λ l. l.setup_id == setup) db.change_logs)
