-- ===== src/Swaps/Names.antt =====
-- The names that a request keeps in one text are read back.
use reservation_tool.Base.{◌≡◌, false, ◌==◌, All, Text, comma, strip, is_empty}
use reservation_tool.Db.Rows.{Db}

-- A name without a comma, without blanks at its ends, and not empty.
abbrev pub IsPlain : Text → Type 0
IsPlain n = All (λ c. (c == comma) ≡ false) n × (strip n ≡ n) × (is_empty n ≡ false)

abbrev NoComma : Text → Type 0
NoComma = All (λ c. (c == comma) ≡ false)
