-- ===== src/Swaps/Ledger.antt =====
-- What the loop has noted of each column, and the ledger that is written of it.
use reservation_tool.Base.{
  ℕ, ◌≡◌, refl, ap, ◌∙◌, false, Option, some, none, List, [], ◌∷◌, arith, All, Text, text_eq,
  text_eq_iff, text_in, if◌then◌else◌,
}
use reservation_tool.Db.Rows.{Hardware, HardwareChangeLog}
use reservation_tool.Templates.Values.{Dict, get}
use reservation_tool.Swaps.Exchange.{Loop, put, get_or_null, change_log, ledger_rows}
use reservation_tool.Swaps.Loop.{Distinct, at_name, note_all}

get-put :
    (m n : Text) (v : Option Text) (d : Dict (Option Text))
    → get n (put m v d) ≡ (if text_eq m n then some v else get n d)
get-put m n v [] = refl
get-put m n v ((k, w) ∷ rest) =
    ground (arith, text_eq_iff k m, text_eq_iff k n, text_eq_iff m n, get-put m n v rest)

note_all-absent :
    (ns : List Text) (n : Text) (h : Hardware) (d : Dict (Option Text))
    → text_in ns n ≡ false
    → get n (note_all ns h d) ≡ get n d
note_all-absent [] n h d e = refl
note_all-absent (m ∷ ns) n h d e =
    note_all-absent ns n h (put m (at_name m h) d) (ground arith)
    ∙ get-put m n (at_name m h) d
    ∙ ap (λ b. if b then some (at_name m h) else get n d) {x = text_eq m n} {y = false}
        (ground arith)

-- Each name is noted with the value of its column.
pub note_all-present :
    (ns : List Text) (h : Hardware) (d : Dict (Option Text))
    → Distinct ns
    → All (λ n. get n (note_all ns h d) ≡ some (at_name n h)) ns
note_all-present [] h d u = tt
note_all-present (n ∷ ns) h d u = (
  note_all-absent ns n h (put n (at_name n h) d) u.0
      ∙ get-put n n (at_name n h) d
      ∙ ap (λ b. if b then some (at_name n h) else get n d) ((text_eq_iff n n).1 refl),
  note_all-present ns h (put n (at_name n h) d) u.1,
)

-- The ledger of an exchange between values `h` of `a` and `k` of `b`: for each column what each setup
-- had and what it has now.
abbrev pub ledger : ℕ → ℕ → ℕ → ℕ → Hardware → Hardware → List Text → List HardwareChangeLog
ledger a b swap actor h k [] = []
ledger a b swap actor h k (n ∷ ns) =
    change_log a n (at_name n h) (at_name n k) swap actor
    ∷ change_log b n (at_name n k) (at_name n h) swap actor
    ∷ ledger a b swap actor h k ns

pub ledger_rows-noted :
    (a b swap actor : ℕ) (x : Loop) (h k : Hardware) (ns : List Text)
    → All (λ n. get n x.old_values ≡ some (at_name n h)) ns
    → All (λ n. get n x.new_values ≡ some (at_name n k)) ns
    → ledger_rows a b swap actor x ns ≡ ledger a b swap actor h k ns
unfolding ledger_rows
ledger_rows-noted a b swap actor x h k [] p q = refl
ledger_rows-noted a b swap actor x h k (n ∷ ns) p q =
    ap (λ (o : Option (Option Text)). rows (null_or o) (get_or_null n x.new_values) rest) (p.0)
    ∙ ap (λ (o : Option (Option Text)). rows (at_name n h) (null_or o) rest) (q.0)
    ∙ ap (rows (at_name n h) (at_name n k)) (ledger_rows-noted a b swap actor x h k ns p.1 q.1)
  where
    null_or : Option (Option Text) → Option Text
    null_or none = none
    null_or (some v) = v

    rest : List HardwareChangeLog
    rest = ledger_rows a b swap actor x ns

    rows : Option Text → Option Text → List HardwareChangeLog → List HardwareChangeLog
    rows old new l = change_log a n old new swap actor ∷ change_log b n new old swap actor ∷ l
