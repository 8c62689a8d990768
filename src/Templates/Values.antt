-- ===== src/Templates/Values.antt =====
-- The values of custom columns: `validate_and_serialize_values`, `set_setup_values` and
-- `get_values_map_for_setup`. A dict is the list of its items.
use reservation_tool.Base.{
  ℕ, ◌==◌, Bool, true, false, not, ◌&&◌, Option, none, some, List, [], ◌∷◌, ◌++◌, map, select, Text,
  text, text_eq, text_in, strip, lower, is_digit, map_option, if◌then◌else◌,
}
use reservation_tool.Core.Status.{ColumnDataType}
use reservation_tool.Core.Errors.{AppError, Result, ok, err, ◌>>=◌, ◌>>◌, raise_if}
use reservation_tool.Core.Settings.{Codec}
use reservation_tool.Db.Rows.{TemplateColumn, Db}
use reservation_tool.Templates.{list_columns_for_product}

-- The Python values that reach a custom column: `None`, a `str`, a `bool`, an `int` by its decimal
-- text, a `date` by its ISO text, and a `datetime` by the ISO texts of its date and its time.
pub data Raw : Type 0 where
  null : Raw
  str : Text → Raw
  boolean : Bool → Raw
  integer : Text → Raw
  day : Text → Raw
  moment : Text → Text → Raw

abbrev pub bool_text : Bool → Text
bool_text true = text "True"
bool_text false = text "False"

-- `str(value)`
abbrev pub str_of : Raw → Text
str_of Raw.null = text "None"
str_of (Raw.str t) = t
str_of (Raw.boolean b) = bool_text b
str_of (Raw.integer t) = t
str_of (Raw.day d) = d
str_of (Raw.moment d t) = d ++ 32 ∷ t

-- A conversion returns a text, raises a `ValueError`, which is reported, or a `TypeError`, which is not.
pub data Conversion : Type 0 where
  stored : Text → Conversion
  refused : Conversion
  failed : Conversion

abbrev pub from_option : Option Text → Conversion
from_option none = refused
from_option (some t) = stored t

-- Decimal digits, with single underscores between them; the flag says whether a digit stands before.
unfoldable pub digits_of : Bool → Text → Option Text
digits_of true [] = some []
digits_of false [] = none
digits_of after (c ∷ cs) =
    let rest = digits_of true cs in
    let skip = digits_of false cs in
    if is_digit c then map_option (λ ds. c ∷ ds) rest else if c == b'_' && after then skip else none

unfoldable pub drop_zeros : Text → Text
drop_zeros [] = []
drop_zeros (c ∷ cs) = let rest = drop_zeros cs in if c == b'0' then rest else c ∷ cs

-- The decimal text of a number by its sign and its digits.
abbrev pub decimal : Bool → Text → Text
decimal negative [] = text "0"
decimal true (c ∷ cs) = b'-' ∷ c ∷ cs
decimal false (c ∷ cs) = c ∷ cs

abbrev pub signed : Bool → Text → Option Text
signed negative cs = map_option (λ ds. decimal negative (drop_zeros ds)) (digits_of false cs)

abbrev pub unsigned_or : Text → Option Text
unsigned_or [] = none
unsigned_or (c ∷ cs) =
    if c == b'-'
    then signed true cs
    else if c == b'+'
    then signed false cs
    else signed false (c ∷ cs)

-- `str(int(t))`, over the digits of ASCII
unfoldable pub int_text : Text → Option Text
unfolding digits_of drop_zeros
int_text t = unsigned_or (strip t)

unfoldable pub true_words : List Text
true_words = text "true" ∷ text "1" ∷ text "yes" ∷ text "y" ∷ []

unfoldable pub false_words : List Text
false_words = text "false" ∷ text "0" ∷ text "no" ∷ text "n" ∷ []

-- The text of a BOOLEAN value that is no `bool`.
unfoldable pub bool_word : Text → Conversion
unfolding true_words false_words
bool_word t =
    let word = lower (strip t) in
    if text_in true_words word
    then stored (text "True")
    else if text_in false_words word
    then stored (text "False")
    else refused

abbrev pub serialize_integer : Raw → Conversion
serialize_integer (Raw.str t) = from_option (int_text t)
serialize_integer (Raw.boolean b) = stored (if b then text "1" else text "0")
serialize_integer (Raw.integer t) = stored t
serialize_integer _ = failed

abbrev pub serialize_float : Codec → Raw → Conversion
serialize_float codec (Raw.str t) = from_option (codec.float t)
serialize_float codec (Raw.boolean b) = stored (if b then text "1.0" else text "0.0")
serialize_float codec (Raw.integer t) = from_option (codec.float t)
serialize_float codec _ = failed

abbrev pub serialize_boolean : Raw → Conversion
serialize_boolean (Raw.boolean b) = stored (bool_text b)
serialize_boolean v = bool_word (str_of v)

-- A `datetime` is a `date` too, and `isoformat` puts a T between its parts.
abbrev pub serialize_date : Codec → Raw → Conversion
serialize_date codec (Raw.day d) = stored d
serialize_date codec (Raw.moment d t) = stored (d ++ b'T' ∷ t)
serialize_date codec v = from_option (codec.iso_date (str_of v))

abbrev pub serialize_datetime : Codec → Raw → Conversion
serialize_datetime codec (Raw.moment d t) = stored (d ++ b'T' ∷ t)
serialize_datetime codec v = from_option (codec.iso_datetime (str_of v))

abbrev pub allowed_of : Option (List Text) → List Text
allowed_of none = []
allowed_of (some vs) = vs

abbrev pub serialize_dropdown : List Text → Raw → Conversion
serialize_dropdown allowed v = if text_in allowed (str_of v) then stored (str_of v) else refused

-- `_serialize_value`
unfoldable pub serialize_value : Codec → ColumnDataType → Option (List Text) → Raw → Conversion
unfolding int_text bool_word
serialize_value codec ColumnDataType.string allowed v = stored (str_of v)
serialize_value codec ColumnDataType.integer allowed v = serialize_integer v
serialize_value codec ColumnDataType.float allowed v = serialize_float codec v
serialize_value codec ColumnDataType.boolean allowed v = serialize_boolean v
serialize_value codec ColumnDataType.date allowed v = serialize_date codec v
serialize_value codec ColumnDataType.datetime allowed v = serialize_datetime codec v
serialize_value codec ColumnDataType.dropdown allowed v = serialize_dropdown (allowed_of allowed) v

-- A dict by the list of its items.
abbrev pub Dict {ℓ} : Type ℓ → Type ℓ
Dict A = List (Text × A)

module _ {ℓ} {A : Type ℓ} where
  -- `d.get(name)`
  abbrev pub get : Text → Dict A → Option A
  get name [] = none
  get name ((n, v) ∷ rest) = let later = get name rest in if text_eq n name then some v else later

  abbrev pub names_of : Dict A → List Text
  names_of [] = []
  names_of ((n, v) ∷ rest) = n ∷ names_of rest

-- `name in raw_values and raw_values[name] not in (None, "")`, with the value
abbrev pub present : Option Raw → Option Raw
present none = none
present (some Raw.null) = none
present (some (Raw.str [])) = none
present (some v) = some v

-- `serialized` and the fields of `errors`
pub record Outcome : Type 0 where
  pub serialized : Dict Text
  pub errors : List Text

abbrev pub take_value : Text → Outcome → Conversion → Result Outcome
take_value name o (stored t) = ok (record o { serialized = o.serialized ++ (name, t) ∷ [] })
take_value name o refused = ok (record o { errors = o.errors ++ name ∷ [] })
take_value name o failed = err AppError.internal

abbrev pub take_default : TemplateColumn → Outcome → Outcome
take_default c o = elim c.default_value [
  | some d ↦ record o { serialized = o.serialized ++ (c.name, d) ∷ [] }
  | none ↦ if c.required then record o { errors = o.errors ++ c.name ∷ [] } else o
]

-- The body of the loop over the columns.
unfoldable pub check_column : Codec → Dict Raw → TemplateColumn → Outcome → Result Outcome
unfolding serialize_value
check_column codec raw c o = elim (present (get c.name raw)) [
  | none ↦ ok (take_default c o)
  | some v ↦ take_value c.name o (serialize_value codec c.data_type c.allowed_values v)
]

unfoldable pub check_columns : Codec → Dict Raw → List TemplateColumn → Outcome → Result Outcome
check_columns codec raw [] o = ok o
check_columns codec raw (c ∷ cs) o =
    check_column codec raw c o >>= λ o'. check_columns codec raw cs o'

-- The names that no column has.
abbrev pub unknown_fields : List TemplateColumn → Dict Raw → List Text
unknown_fields columns raw =
    select (λ n. not (text_in (map (λ c. c.name) columns) n)) (names_of raw)

abbrev pub is_nil {ℓ} : {A : Type ℓ} → List A → Bool
is_nil [] = true
is_nil (_ ∷ _) = false

-- `validate_and_serialize_values`
unfoldable pub validate_and_serialize_values : Codec → ℕ → Dict Raw → Db → Result (Dict Text)
unfolding check_columns
validate_and_serialize_values codec product raw db = do
  let columns = list_columns_for_product product db.columns
  o ← check_columns codec raw columns (record { serialized = []; errors = [] })
  raise_if (not (is_nil (o.errors ++ unknown_fields columns raw))) AppError.validation
  ok o.serialized
