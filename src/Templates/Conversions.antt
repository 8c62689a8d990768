-- ===== src/Templates/Conversions.antt =====
-- A stored text is accepted again, and stored unchanged.
use reservation_tool.Base.{
  ℕ, ◌≡◌, refl, subst, ap, ◌∙◌, inl, inr, Bool, true, false, ◌&&◌, Option, some, none, List, [],
  ◌∷◌, ◌==◌, arith, All, map_option, Text, text, text_in, lower, strip, strip-solid, is_blank,
  is_digit, Bool-cases, if◌then◌else◌,
}
use mathlib.Core.Option.{some-injective}
use reservation_tool.Core.Status.{ColumnDataType}
use reservation_tool.Core.Settings.{Codec}
use reservation_tool.Templates.Values.{
  Raw, Conversion, stored, refused, from_option, digits_of, drop_zeros, decimal, int_text, signed,
  unsigned_or, bool_word, true_words, false_words, allowed_of, serialize_dropdown, serialize_value,
}

abbrev IsDigits : Text → Type 0
IsDigits = All (λ c. is_digit c ≡ true)

map_option-some :
    {A B : Type 0} (f : A → B) (o : Option A) {b : B}
    → map_option f o ≡ some b
    → (a : A) × (o ≡ some a) × (f a ≡ b)
map_option-some f none h = absurd (cc)
map_option-some f (some a) h = (a, refl, some-injective _ _ h)

if-none : (t : Bool) (o : Option Text) {ds : Text} → (if t then o else none) ≡ some ds → o ≡ some ds
if-none true o h = h
if-none false o h = absurd (cc)

digits_of-IsDigits :
    (after : Bool) (t : Text) {ds : Text} → digits_of after t ≡ some ds → IsDigits ds
unfolding digits_of
digits_of-IsDigits true [] h = subst IsDigits (some-injective _ _ h) tt
digits_of-IsDigits false [] h = absurd (cc)
digits_of-IsDigits after (c ∷ cs) {ds} h = elim (Bool-cases (is_digit c)) [
  | inl t ↦
      let (es, rest, e) = map_option-some (λ l. c ∷ l) (digits_of true cs) (rw t at h) in
      subst IsDigits e (t, digits_of-IsDigits true cs rest)
  | inr f ↦
      digits_of-IsDigits false cs (if-none (c == b'_' && after) (digits_of false cs) (rw f at h))
]

drop_zeros-IsDigits : (t : Text) → IsDigits t → IsDigits (drop_zeros t)
unfolding drop_zeros
drop_zeros-IsDigits [] h = tt
drop_zeros-IsDigits (c ∷ cs) h = elim (Bool-cases (c == b'0')) [
  | inl t ↦ rw t (drop_zeros-IsDigits cs h.1)
  | inr f ↦ rw f h
]

drop_zeros-drop_zeros : (t : Text) → drop_zeros (drop_zeros t) ≡ drop_zeros t
unfolding drop_zeros
drop_zeros-drop_zeros [] = refl
drop_zeros-drop_zeros (c ∷ cs) = elim (Bool-cases (c == b'0')) [
  | inl t ↦ rw t (drop_zeros-drop_zeros cs)
  | inr f ↦ rw (f, f) refl
]

-- Digits are read as they are.
digits_of-digits : (t : Text) → IsDigits t → digits_of true t ≡ some t
unfolding digits_of
digits_of-digits [] h = refl
digits_of-digits (c ∷ cs) h = rw (h.0, digits_of-digits cs h.1) refl

-- The digits of a number that is not empty, and its sign, are read as they are.
digits_of-fresh : (c : ℕ) (cs : Text) → IsDigits (c ∷ cs) → digits_of false (c ∷ cs) ≡ some (c ∷ cs)
unfolding digits_of
digits_of-fresh c cs h = rw (h.0, digits_of-digits cs h.1) refl

digit_solid : (t : Text) → IsDigits t → All (λ c. is_blank c ≡ false) t
digit_solid [] h = tt
digit_solid (c ∷ cs) h = (ground (arith, h.0), digit_solid cs h.1)

-- The text of a number is read as that number.
signed_lem :
    (negative : Bool) (c : ℕ) (cs : Text)
    → IsDigits (c ∷ cs)
    → drop_zeros (c ∷ cs) ≡ c ∷ cs
    → signed negative (c ∷ cs) ≡ some (decimal negative (c ∷ cs))
signed_lem negative c cs h e =
    ap (map_option (λ l. decimal negative (drop_zeros l))) (digits_of-fresh c cs h)
    ∙ ap (λ l. some (decimal negative l)) e

int_text-decimal :
    (negative : Bool) (ds : Text)
    → IsDigits ds
    → drop_zeros ds ≡ ds
    → int_text (decimal negative ds) ≡ some (decimal negative ds)
unfolding int_text strip digits_of drop_zeros
int_text-decimal negative [] h e = refl
int_text-decimal true (c ∷ cs) h e =
    ap unsigned_or (strip-solid (b'-' ∷ c ∷ cs) (refl, digit_solid (c ∷ cs) h))
    ∙ signed_lem true c cs h e
int_text-decimal false (c ∷ cs) h e =
    ap unsigned_or (strip-solid (c ∷ cs) (digit_solid (c ∷ cs) h))
    ∙ plain c cs (ground (arith, h.0)) (ground (arith, h.0))
    ∙ signed_lem false c cs h e
  where
    plain :
        (c : ℕ) (cs : Text)
        → (c == b'-') ≡ false
        → (c == b'+') ≡ false
        → unsigned_or (c ∷ cs) ≡ signed false (c ∷ cs)
    plain c cs m p = rw (m, p) refl

-- What is stored of a text as an INTEGER is stored again.
int_text-int_text : (t : Text) {u : Text} → int_text t ≡ some u → int_text u ≡ some u
unfolding int_text
int_text-int_text t h = of_stripped (strip t) h
  where
    of_signed :
        (negative : Bool) (cs : Text) {u : Text} → signed negative cs ≡ some u → int_text u ≡ some u
    of_signed negative cs h =
        let (ds, read, e) =
          map_option-some (λ l. decimal negative (drop_zeros l)) (digits_of false cs) h in
        subst (λ v. int_text v ≡ some v) e
          (int_text-decimal negative (drop_zeros ds)
            (drop_zeros-IsDigits ds (digits_of-IsDigits false cs read)) (drop_zeros-drop_zeros ds))

    of_stripped : (s : Text) {u : Text} → unsigned_or s ≡ some u → int_text u ≡ some u
    of_stripped [] h = absurd (cc)
    of_stripped (c ∷ cs) {u} h = elim (Bool-cases (c == b'-')) [
      | inl t ↦ of_signed true cs (rw t at h)
      | inr f ↦ elim (Bool-cases (c == b'+')) [
        | inl t ↦ of_signed false cs (rw (f, t) at h)
        | inr g ↦ of_signed false (c ∷ cs) (rw (f, g) at h)
      ]
    ]

-- What the conversions of the standard library do not change: the text that one has given.
pub record IsStable (codec : Codec) : Type 0 where
  pub float : (t u : Text) → codec.float t ≡ some u → codec.float u ≡ some u
  pub iso_date : (t u : Text) → codec.iso_date t ≡ some u → codec.iso_date u ≡ some u
  pub iso_datetime : (t u : Text) → codec.iso_datetime t ≡ some u → codec.iso_datetime u ≡ some u

text_of : Conversion → Text
text_of (stored t) = t
text_of _ = []

stored-injective : {t u : Text} → stored t ≡ stored u → t ≡ u
unfolding text_of
stored-injective e = ap text_of e

from_option-stored : (o : Option Text) {u : Text} → from_option o ≡ stored u → o ≡ some u
from_option-stored none h = absurd (cc)
from_option-stored (some t) h = ap some (stored-injective h)

-- The two texts of a BOOLEAN are read as they are.
bool_word-bool_word : (t : Text) {u : Text} → bool_word t ≡ stored u → bool_word u ≡ stored u
unfolding bool_word strip lower
bool_word-bool_word t {u} h =
    by (text_in true_words (lower (strip t))) (text_in false_words (lower (strip t))) h
  where
    by :
        (a b : Bool)
        → (if a then stored (text "True") else if b then stored (text "False") else refused)
          ≡ stored u
        → bool_word u ≡ stored u
    by true b e = subst (λ v. bool_word v ≡ stored v) (stored-injective e) refl
    by false true e = subst (λ v. bool_word v ≡ stored v) (stored-injective e) refl
    by false false e = absurd (cc)

-- The text that a custom column has stored for a value that is a text is accepted again, by a column of
-- the same kind, and stored unchanged, when the conversions of floats and dates read what they have
-- written. Values of other types, as cells of a spreadsheet have, are not covered.
pub serialize_value-stored :
    (codec : Codec) (kind : ColumnDataType) (allowed : Option (List Text)) (t u : Text)
    → IsStable codec
    → serialize_value codec kind allowed (Raw.str t) ≡ stored u
    → serialize_value codec kind allowed (Raw.str u) ≡ stored u
unfolding serialize_value
serialize_value-stored codec ColumnDataType.string allowed t u k h = refl
serialize_value-stored codec ColumnDataType.integer allowed t u k h =
    ap from_option (int_text-int_text t (from_option-stored (int_text t) h))
serialize_value-stored codec ColumnDataType.float allowed t u k h =
    ap from_option (k.float t u (from_option-stored (codec.float t) h))
serialize_value-stored codec ColumnDataType.boolean allowed t u k h = bool_word-bool_word t h
serialize_value-stored codec ColumnDataType.date allowed t u k h =
    ap from_option (k.iso_date t u (from_option-stored (codec.iso_date t) h))
serialize_value-stored codec ColumnDataType.datetime allowed t u k h =
    ap from_option (k.iso_datetime t u (from_option-stored (codec.iso_datetime t) h))
serialize_value-stored codec ColumnDataType.dropdown allowed t u k h =
    subst (λ v. serialize_dropdown (allowed_of allowed) (Raw.str v) ≡ stored v)
      (chosen (text_in (allowed_of allowed) t) h) (kept (text_in (allowed_of allowed) t) refl h)
  where
    chosen : (b : Bool) → (if b then stored t else refused) ≡ stored u → t ≡ u
    chosen true e = stored-injective e
    chosen false e = absurd (cc)

    kept :
        (b : Bool)
        → text_in (allowed_of allowed) t ≡ b
        → (if b then stored t else refused) ≡ stored u
        → serialize_dropdown (allowed_of allowed) (Raw.str t) ≡ stored t
    kept true e _ = rw e refl
    kept false e g = absurd (cc)
