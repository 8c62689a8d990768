-- ===== src/Setups/Capture.antt =====
-- The original values of a new setup, and the correction of values by an edit.
use reservation_tool.Base.{
  ◌≡◌, refl, sym, subst, ap, ◌∙◌, inl, inr, true, false, not, Option, some, none, List, [], ◌∷◌,
  ◌++◌, ◌==◌, ==_iff, All, select-none, Text, text_eq, text_eq_iff, Bool-cases,
}
use reservation_tool.Core.Errors.{ok, ok-injective}
use reservation_tool.Core.Settings.{Env}
use reservation_tool.Db.Rows.{Field, Hardware, User, Setup, SetupHardwareBaseline, Db}
use reservation_tool.Db.Transaction.{checked_ok}
use reservation_tool.Hardware.{
  fields, normalize, get_baseline, ensure_fixed_baseline, differing, changed_fixed,
}
use reservation_tool.Setups.{SetupCreateRequest, create, create_checks, store_setup}

text_same : (t : Text) → text_eq t t ≡ true
text_same t = (text_eq_iff t t).1 refl

-- A setup differs from itself nowhere.
same_fields : (h : Hardware) → differing h h ≡ []
unfolding differing
same_fields h =
    select-none (λ f. not (text_eq (normalize (h f)) (normalize (h f)))) fields (all fields)
  where
    all :
        (fs : List Field) → All (λ f. not (text_eq (normalize (h f)) (normalize (h f))) ≡ false) fs
    all [] = tt
    all (f ∷ fs) = (ap not (text_same (normalize (h f))), all fs)

-- A baseline that is added for a setup without one is the one that is found.
added_found :
    (b : SetupHardwareBaseline) (rows : List SetupHardwareBaseline)
    → get_baseline b.setup_id rows ≡ none
    → get_baseline b.setup_id (rows ++ b ∷ []) ≡ some b
added_found b [] e = rw ((==_iff b.setup_id b.setup_id).1 refl) refl
added_found b (r ∷ rows) e = elim (Bool-cases (r.setup_id == b.setup_id)) [
  | inl t ↦ absurd (cc)
  | inr f ↦ rw f (added_found b rows (rw f at e))
]

ensured :
    (s : Setup) (rows : List SetupHardwareBaseline)
    → get_baseline s.id rows ≡ none
    → ensure_fixed_baseline s rows ≡ rows ++ record { setup_id = s.id; hardware = s.hardware } ∷ []
unfolding ensure_fixed_baseline
ensured s rows e =
    ap
      (λ (o : Option SetupHardwareBaseline). elim o [
        | some _ ↦ rows
        | none ↦ rows ++ record { setup_id = s.id; hardware = s.hardware } ∷ []
      ])
      e

unchanged :
    (s : Setup) (rows : List SetupHardwareBaseline) (b : SetupHardwareBaseline)
    → get_baseline s.id rows ≡ some b
    → changed_fixed s rows ≡ differing s.hardware b.hardware
unfolding changed_fixed
unchanged s rows b e =
    ap
      (λ (o : Option SetupHardwareBaseline). elim o [
        | none ↦ []
        | some x ↦ differing s.hardware x.hardware
      ])
      e

pub ensured_baseline :
    (s : Setup) (rows : List SetupHardwareBaseline)
    → get_baseline s.id rows ≡ none
    → changed_fixed s (ensure_fixed_baseline s rows) ≡ []
ensured_baseline s rows e =
    let b : SetupHardwareBaseline = record { setup_id = s.id; hardware = s.hardware } in
    ap (changed_fixed s) (ensured s rows e)
    ∙ unchanged s (rows ++ b ∷ []) b (added_found b rows e)
    ∙ same_fields s.hardware

-- A new setup whose key has no original values yet shows no changed hardware: its original values
-- are captured as it is created.
pub create_captures :
    (env : Env) (p : SetupCreateRequest) (actor : User) (db : Db) (s : Setup)
    → (create env p actor db).0 ≡ ok s
    → get_baseline s.id db.baselines ≡ none
    → changed_fixed s (create env p actor db).1.baselines ≡ []
unfolding create store_setup
create_captures env p actor db s h e =
    let (u, _, stored, run) = checked_ok (create_checks env p db) (store_setup env p actor) db h in
    let same = ok-injective stored in
    subst (λ d. changed_fixed s d.1.baselines ≡ []) (sym run)
      (subst (λ x. changed_fixed s (ensure_fixed_baseline x db.baselines) ≡ []) (sym same)
        (ensured_baseline s db.baselines e))
