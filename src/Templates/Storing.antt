-- ===== src/Templates/Storing.antt =====
-- What `set_setup_values` stores: for each column of the product the value that is given, else its
-- default.
use mathlib.Core.List.{append-nil, append_assoc}
use reservation_tool.Base.{
  ℕ, ◌≡◌, refl, sym, ap, ◌∙◌, Bool, true, false, not, Option, some, none, List, [], ◌∷◌, ◌++◌, Text,
  if◌then◌else◌,
}
use reservation_tool.Core.Errors.{Result, ok, >>=-eq-ok, raise_if-eq-ok, ok-injective}
use reservation_tool.Core.Settings.{Codec}
use reservation_tool.Db.Rows.{TemplateColumn, Db}
use reservation_tool.Templates.{list_columns_for_product}
use reservation_tool.Templates.Values.{
  Raw, Conversion, stored, refused, failed, Dict, get, present, Outcome, take_value, take_default,
  serialize_value, check_column, check_columns, unknown_fields, is_nil,
  validate_and_serialize_values,
}

abbrev pub converted : Conversion → Option Text
converted (stored t) = some t
converted _ = none

-- What the column takes: the serialized text of a value that is given, else its default.
abbrev pub expected : Codec → Dict Raw → TemplateColumn → Option Text
expected codec raw c = elim (present (get c.name raw)) [
  | none ↦ c.default_value
  | some v ↦ converted (serialize_value codec c.data_type c.allowed_values v)
]

abbrev pub item : TemplateColumn → Option Text → Dict Text
item c none = []
item c (some t) = (c.name, t) ∷ []

abbrev pub items_of : Codec → Dict Raw → List TemplateColumn → Dict Text
items_of codec raw [] = []
items_of codec raw (c ∷ cs) = item c (expected codec raw c) ++ items_of codec raw cs

not_nil : (xs : List Text) (n : Text) → xs ++ n ∷ [] ≡ [] → ⊥
not_nil [] n h = cc
not_nil (x ∷ xs) n h = cc

-- No error, and the serialized values with those of one column.
abbrev Takes : Dict Text → Outcome → Outcome → Type 0
Takes d before after = (before.errors ≡ []) × (after.serialized ≡ before.serialized ++ d)

value-item :
    (c : TemplateColumn) (o o' : Outcome) (v : Conversion)
    → take_value c.name o v ≡ ok o'
    → o'.errors ≡ []
    → Takes (item c (converted v)) o o'
value-item c o o' (stored t) h e =
    let same = ok-injective h in
    (ap (λ (x : Outcome). x.errors) same ∙ e, ap (λ (x : Outcome). x.serialized) (sym same))
value-item c o o' refused h e =
    absurd (not_nil o.errors c.name (ap (λ (x : Outcome). x.errors) (ok-injective h) ∙ e))
value-item c o o' failed h e = absurd (cc)

default-item :
    (c : TemplateColumn) (o o' : Outcome)
    → take_default c o ≡ o'
    → o'.errors ≡ []
    → Takes (item c c.default_value) o o'
default-item c o o' h e = by c.default_value c.required h
  where
    by :
        (d : Option Text) (r : Bool)
        → elim d as (λ _. Outcome) [
          | some t ↦ record o { serialized = o.serialized ++ (c.name, t) ∷ [] }
          | none ↦ if r then record o { errors = o.errors ++ c.name ∷ [] } else o
        ]
          ≡ o'
        → Takes (item c d) o o'
    by (some t) r k =
        (ap (λ (x : Outcome). x.errors) k ∙ e, ap (λ (x : Outcome). x.serialized) (sym k))
    by none true k = absurd (not_nil o.errors c.name (ap (λ (x : Outcome). x.errors) k ∙ e))
    by none false k = (
      ap (λ (x : Outcome). x.errors) k ∙ e,
      ap (λ (x : Outcome). x.serialized) (sym k) ∙ sym (append-nil o.serialized),
    )

-- A column that adds no error adds its item.
check_column-item :
    (codec : Codec) (raw : Dict Raw) (c : TemplateColumn) (o o' : Outcome)
    → check_column codec raw c o ≡ ok o'
    → o'.errors ≡ []
    → Takes (item c (expected codec raw c)) o o'
unfolding check_column
check_column-item codec raw c o o' h e = by (present (get c.name raw)) h
  where
    by :
        (p : Option Raw)
        → elim p as (λ _. Result Outcome) [
          | none ↦ ok (take_default c o)
          | some v ↦ take_value c.name o (serialize_value codec c.data_type c.allowed_values v)
        ]
          ≡ ok o'
        → Takes
            (item c (elim p as (λ _. Option Text) [
              | none ↦ c.default_value
              | some v ↦ converted (serialize_value codec c.data_type c.allowed_values v)
            ]))
            o
            o'
    by none k = default-item c o o' (ok-injective k) e
    by (some v) k = value-item c o o' (serialize_value codec c.data_type c.allowed_values v) k e

check_columns-items :
    (codec : Codec) (raw : Dict Raw) (cs : List TemplateColumn) (o o' : Outcome)
    → check_columns codec raw cs o ≡ ok o'
    → o'.errors ≡ []
    → Takes (items_of codec raw cs) o o'
unfolding check_columns
check_columns-items codec raw [] o o' h e =
    let same = ok-injective h in
    (
      ap (λ (x : Outcome). x.errors) same ∙ e,
      ap (λ (x : Outcome). x.serialized) (sym same) ∙ sym (append-nil o.serialized),
    )
check_columns-items codec raw (c ∷ cs) o o' h e =
    let (o1, first, rest) = >>=-eq-ok (check_column codec raw c o) _ h in
    let (none_yet, more) = check_columns-items codec raw cs o1 o' rest e in
    let (no_errors, one) = check_column-item codec raw c o o1 first none_yet in
    (
      no_errors,
      more
          ∙ ap (λ l. l ++ items_of codec raw cs) one
          ∙ append_assoc o.serialized (item c (expected codec raw c)) (items_of codec raw cs),
    )

nil_before : (xs ys : List Text) → not (is_nil (xs ++ ys)) ≡ false → xs ≡ []
nil_before [] ys h = refl
nil_before (x ∷ xs) ys h = absurd (cc)

-- Values that are valid are serialized in the order of the columns.
pub validated :
    (codec : Codec) (product : ℕ) (raw : Dict Raw) (db : Db) {items : Dict Text}
    → validate_and_serialize_values codec product raw db ≡ ok items
    → items ≡ items_of codec raw (list_columns_for_product product db.columns)
unfolding validate_and_serialize_values
validated codec product raw db h =
    let columns = list_columns_for_product product db.columns in
    let (o, checked_, h1) = >>=-eq-ok (check_columns codec raw columns _) _ h in
    let (clean, h2) =
      raise_if-eq-ok (not (is_nil (o.errors ++ unknown_fields columns raw))) _ _ h1 in
    sym (ok-injective h2)
    ∙ (check_columns-items codec raw columns _ o checked_
        (nil_before o.errors (unknown_fields columns raw) clean)).1
