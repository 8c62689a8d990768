-- ===== src/Base/Texts.antt =====
-- Python's `str` as its list of code points, with the operations that the services call.
use Prim.Native.Nat.{ℕ, ◌+◌}
use Prim.Native.Char.{code}
use Prim.Native.String.{String}
use mathlib.Core.Path.{◌≡◌, refl}
use mathlib.Core.Logic.{◌↔◌, ◌≢◌}
use mathlib.Core.Bool.{Bool, true, false, ◌&&◌, ◌||◌}
use mathlib.Core.List.{List, [], ◌∷◌, ◌++◌}
use native.Mathlib.Omega.{arith}
use reservation_tool.Base.Tests.{◌==◌, ltb, leb, if◌then◌else◌}
use reservation_tool.Base.Rows.{All}

abbrev pub Text : Type 0
Text = List ℕ

-- The code points of a quoted text.
abbrev pub text : String → Text
text String.[] = []
text (String.◌∷◌ c s) = code c ∷ text s

abbrev pub text_eq : Text → Text → Bool
text_eq [] [] = true
text_eq [] (y ∷ ys) = false
text_eq (x ∷ xs) [] = false
text_eq (x ∷ xs) (y ∷ ys) = x == y && text_eq xs ys

pub text_eq_iff : (s t : Text) → (text_eq s t ≡ true) ↔ (s ≡ t)
text_eq_iff [] [] = ground arith
text_eq_iff [] (y ∷ ys) = ground arith
text_eq_iff (x ∷ xs) [] = ground arith
text_eq_iff (x ∷ xs) (y ∷ ys) = ground (arith, text_eq_iff xs ys)

-- `name in names`
abbrev pub text_in : List Text → Text → Bool
text_in [] t = false
text_in (s ∷ ss) t = text_eq s t || text_in ss t

-- The order of texts, by their codes.
abbrev pub text_leb : Text → Text → Bool
text_leb [] ys = true
text_leb (x ∷ xs) [] = false
text_leb (x ∷ xs) (y ∷ ys) = ltb x y || x == y && text_leb xs ys

abbrev pub insert_text : Text → List Text → List Text
insert_text t [] = t ∷ []
insert_text t (u ∷ us) =
    let rest = insert_text t us in
    if text_eq t u then u ∷ us else if text_leb t u then t ∷ u ∷ us else u ∷ rest

-- `sorted(set(ts))`
abbrev pub sorted_set : List Text → List Text
sorted_set [] = []
sorted_set (t ∷ ts) = insert_text t (sorted_set ts)

-- `s.lower()`, of the letters of ASCII.
unfoldable pub lower : Text → Text
lower [] = []
lower (c ∷ cs) = (if leb b'A' c && leb c b'Z' then c + 32 else c) ∷ lower cs

-- `s.replace(" ", "_")`
unfoldable pub underscored : Text → Text
underscored [] = []
underscored (c ∷ cs) = (if c == 32 then b'_' else c) ∷ underscored cs

abbrev pub is_digit : ℕ → Bool
is_digit c = leb b'0' c && leb c b'9'

-- The blanks that `str.strip` removes (those of ASCII).
abbrev pub is_blank : ℕ → Bool
is_blank c = c == 32 || leb 9 c && leb c 13 || leb 28 c && leb c 31

unfoldable pub strip_left : Text → Text
strip_left [] = []
strip_left (c ∷ cs) = if is_blank c then strip_left cs else c ∷ cs

-- Removes the blanks at the end.
unfoldable pub strip_right : Text → Text
strip_right [] = []
strip_right (c ∷ cs) =
    let rest = strip_right cs in
    elim rest [ [] ↦ if is_blank c then [] else c ∷ [] | d ∷ ds ↦ c ∷ d ∷ ds ]

-- `s.strip()`
unfoldable pub strip : Text → Text
unfolding strip_left strip_right
strip s = strip_right (strip_left s)

pub text_eq_ne : (a b : Text) → text_eq a b ≡ false → a ≢ b
text_eq_ne a b h e = ground (arith, (text_eq_iff a b).1 e)

-- A text without blanks is not stripped.
strip_right-solid : (t : Text) → All (λ c. is_blank c ≡ false) t → strip_right t ≡ t
unfolding strip_right
strip_right-solid [] h = refl
strip_right-solid (c ∷ []) h = rw (h.0) refl
strip_right-solid (c ∷ d ∷ ds) h = rw (strip_right-solid (d ∷ ds) h.1) refl

pub strip-solid : (t : Text) → All (λ c. is_blank c ≡ false) t → strip t ≡ t
unfolding strip strip_left
strip-solid [] h = refl
strip-solid (c ∷ cs) h = rw (h.0) (strip_right-solid (c ∷ cs) h)

abbrev pub comma : ℕ
comma = 44

-- `",".join(parts)`
unfoldable pub join : List Text → Text
join [] = []
join (p ∷ []) = p
join (p ∷ q ∷ rest) = p ++ comma ∷ join (q ∷ rest)

-- Puts a character in front of the first part.
unfoldable pub onto_first : ℕ → List Text → List Text
onto_first c [] = (c ∷ []) ∷ []
onto_first c (p ∷ ps) = (c ∷ p) ∷ ps

-- `s.split(",")`
unfoldable pub split : Text → List Text
unfolding onto_first
split [] = [] ∷ []
split (c ∷ cs) = if c == comma then [] ∷ split cs else onto_first c (split cs)

-- `not s`
abbrev pub is_empty : Text → Bool
is_empty [] = true
is_empty (_ ∷ _) = false
