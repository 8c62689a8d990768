-- ===== src/Swaps/Columns.antt =====
-- The texts that a swap request keeps: the names of its columns, and the values before the exchange.
use reservation_tool.Base.{
  ℕ, ◌+◌, ◌-◌, ◌==◌, true, false, not, ◌&&◌, Option, none, some, List, [], ◌∷◌, ◌++◌, map, select,
  ltb, leb, Text, text, text_in, strip, join, split, is_empty, length, if◌then◌else◌,
}
use Prim.Native.Nat.{◌/◌, ◌%◌}
use reservation_tool.Core.Errors.{AppError, Result, ok, err, ◌>>=◌, ◌>>◌, raise_if}
use reservation_tool.Db.Rows.{SwapRequest}

-- `_encode_columns`
unfoldable pub encode_columns : List Text → Text
encode_columns = join

-- The names of a comma-separated text: blanks around a name and empty names are dropped.
unfoldable pub decode_columns : Text → List Text
decode_columns t = select (λ n. not (is_empty n)) (map strip (split t))

-- `SwapRequest.column_names`; the empty text has no names either way.
unfoldable pub column_names : SwapRequest → List Text
unfolding decode_columns
column_names s = if is_empty s.column_name then [] else decode_columns s.column_name

-- The body of the loop of `_validate_column_names`: a name that is blank or is there is passed over.
abbrev pub add_name : Text → List Text → Result (List Text)
add_name raw cleaned =
    let name = strip raw in
    if is_empty name
    then ok cleaned
    else if ltb 100 (length name)
    then err AppError.validation
    else ok (if text_in cleaned name then cleaned else cleaned ++ name ∷ [])

abbrev pub add_names : List Text → List Text → Result (List Text)
add_names [] cleaned = ok cleaned
add_names (raw ∷ rest) cleaned = add_name raw cleaned >>= λ more. add_names rest more

-- `_validate_column_names`, of a list that is there
unfoldable pub validate_column_names : List Text → Result (List Text)
validate_column_names raw = do
  cleaned ← add_names raw []
  raise_if (elim cleaned [ [] ↦ true | _ ∷ _ ↦ false ]) AppError.validation
  ok cleaned

-- A digit of base 16.
abbrev hex_digit : ℕ → ℕ
hex_digit d = if ltb d 10 then 48 + d else 87 + d

-- `\uXXXX`
abbrev unicode_escape : ℕ → Text
unicode_escape n =
    b'\\'
    ∷ b'u'
    ∷ hex_digit (n / 4096 % 16)
    ∷ hex_digit (n / 256 % 16)
    ∷ hex_digit (n / 16 % 16)
    ∷ hex_digit (n % 16)
    ∷ []

abbrev short_escape : ℕ → Text
short_escape c = b'\\' ∷ c ∷ []

-- One character in a JSON text, as `json.dumps` writes it with `ensure_ascii`.
unfoldable pub json_char : ℕ → Text
json_char c =
    if c == 34
    then short_escape 34
    else if c == 92
    then short_escape 92
    else if c == 10
    then short_escape b'n'
    else if c == 13
    then short_escape b'r'
    else if c == 9
    then short_escape b't'
    else if c == 12
    then short_escape b'f'
    else if c == 8
    then short_escape b'b'
    else if leb 32 c && leb c 126
    then c ∷ []
    else if ltb c 65536
    then unicode_escape c
    else unicode_escape (55296 + (c - 65536) / 1024) ++ unicode_escape (56320 + (c - 65536) % 1024)

unfoldable pub json_chars : Text → Text
json_chars [] = []
json_chars (c ∷ cs) = json_char c ++ json_chars cs

unfoldable pub json_text : Text → Text
unfolding json_chars json_char
json_text t = 34 ∷ json_chars t ++ 34 ∷ []

unfoldable pub json_value : Option Text → Text
unfolding json_text
json_value none = text "null"
json_value (some t) = json_text t

-- The items of an object, after the first.
unfoldable pub json_items : List (Text × Option Text) → Text
json_items [] = []
json_items ((k, v) ∷ rest) =
    text ", " ++ json_text k ++ text ": " ++ json_value v ++ json_items rest

unfoldable pub json_object : List (Text × Option Text) → Text
unfolding json_items json_text json_value
json_object [] = text "{}"
json_object ((k, v) ∷ rest) =
    text "{" ++ json_text k ++ text ": " ++ json_value v ++ json_items rest ++ text "}"

-- `_encode_value_map`
unfoldable pub encode_value_map : List (Text × Option Text) → Option Text
unfolding json_object
encode_value_map ((k, v) ∷ []) = v
encode_value_map values = some (json_object values)
