-- ===== src/Hardware/Laws.antt =====
-- `changed_fields` after a correction: what was edited is no longer changed, the rest is as before.
use reservation_tool.Base.{
  ◌≡◌, refl, sym, subst, ap, ◌∙◌, inl, inr, Bool, true, not, Option, some, none, List, [], ◌∷◌,
  ◌++◌, map, ◌==◌, ◌&&◌, find-modify, map_option, modify, Text, text_eq, text_eq_iff, text_in,
  Bool-cases,
}
use reservation_tool.Db.Rows.{Field, Hardware, Setup, SetupHardwareBaseline}
use reservation_tool.Hardware.{
  field_name, normalize, get_baseline, overwrite, set_fixed_baseline_fields, ensure_fixed_baseline,
}

-- Whether the value of one field differs.
abbrev pub differs : Hardware → Hardware → Field → Bool
differs now original f = not (text_eq (normalize (now f)) (normalize (original f)))

same_text : (t : Text) → text_eq t t ≡ true
same_text t = (text_eq_iff t t).1 refl

-- A field that is taken over from the setup does not differ from it; any other differs as before.
overwritten :
    (names : List Field) (now original : Hardware) (f : Field)
    → differs now (overwrite names now original) f
      ≡ (not (text_in (map field_name names) (field_name f)) && differs now original f)
overwritten names now original f =
    elim (Bool-cases (text_in (map field_name names) (field_name f))) [
      | inl t ↦ rw (t, same_text (normalize (now f))) refl
      | inr e ↦ rw e refl
    ]

-- The original values, taken over from the setup at these fields.
abbrev correct : Setup → List Field → SetupHardwareBaseline → SetupHardwareBaseline
correct s names b = record b { hardware = overwrite names s.hardware b.hardware }

-- After the original values of some fields were set to the current ones, exactly the other fields
-- that differed still differ: `set_fixed_baseline_fields` for a setup with recorded original values.
pub set_fixed_baseline_fields-differs :
    (s : Setup) (names : List Field) (rows : List SetupHardwareBaseline) (b : SetupHardwareBaseline)
    → get_baseline s.id rows ≡ some b
    → (c : SetupHardwareBaseline) × (get_baseline s.id (set_fixed_baseline_fields s names rows)
        ≡ some c)
      × ((f : Field)
          → differs s.hardware c.hardware f ≡ (
              not (text_in (map field_name names) (field_name f))
              && differs s.hardware b.hardware f))
unfolding set_fixed_baseline_fields ensure_fixed_baseline
set_fixed_baseline_fields-differs s names rows b e = (
  correct s names b,
  subst
      (λ (o : Option SetupHardwareBaseline).
        get_baseline s.id (
          modify (λ x. x.setup_id == s.id) (correct s names)
            (elim o [
              | some _ ↦ rows
              | none ↦ rows ++ record { setup_id = s.id; hardware = s.hardware } ∷ []
            ]))
        ≡ some (correct s names b))
      (sym e)
      (find-modify (λ x. x.setup_id == s.id) (correct s names) (λ x. refl) rows
        ∙ ap (map_option (correct s names)) e),
  overwritten names s.hardware b.hardware,
)
