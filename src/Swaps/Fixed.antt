-- ===== src/Swaps/Fixed.antt =====
-- The exchange of fixed columns.
use mathlib.Core.Path.{fun_ext}
use mathlib.Core.Option.{some-injective}
use reservation_tool.Base.{
  ℕ, ◌≡◌, ◌≢◌, refl, sym, ap, subst, ◌∙◌, inl, inr, true, false, Option, some, none, List, [], ◌∷◌,
  ◌==◌, arith, modify, map_option, find-modify, find-modify_ne, find-some, Text, text_eq,
  text_eq_iff, text_in, Bool-cases, if◌then◌else◌,
}
use reservation_tool.Db.Rows.{
  Field, ssd, hdd, hardware_info, capacity, form_factor, adapter, aardvark, quarch, apc,
  remote_server, Hardware, Setup,
}
use reservation_tool.Hardware.{fields, field_name, field_of}
use reservation_tool.Setups.Table.{get_setup}
use reservation_tool.Swaps.Exchange.{same_field, set_field, write_field, read_field}

-- The setup with the named values taken from `h`.
abbrev pub mixed : List Text → Hardware → Setup → Setup
mixed names h s = record s {
  hardware = λ g. if text_in names (field_name g) then h g else s.hardware g;
}

-- The table after the exchange of the named values of two setups.
abbrev pub traded : List Text → ℕ → ℕ → List Setup → List Setup
traded names a b rows =
    modify (λ s. s.id == b) (mixed names (λ f. read_field a f rows))
      (modify (λ s. s.id == a) (mixed names (λ f. read_field b f rows)) rows)

abbrev value_of : Field → Option Setup → Option Text
value_of g o = elim o [ none ↦ none | some s ↦ s.hardware g ]

value-set :
    (f : Field) (v : Option Text) (g : Field) (o : Option Setup)
    → same_field f g ≡ false
    → value_of g (map_option (set_field f v) o) ≡ value_of g o
value-set f v g none e = refl
value-set f v g (some s) e = ap (λ b. if b then v else s.hardware g) e

-- A field that is not written reads the same.
read-write :
    (a : ℕ) (f : Field) (v : Option Text) (g : Field) (rows : List Setup)
    → same_field f g ≡ false
    → read_field a g (write_field a f v rows) ≡ read_field a g rows
read-write a f v g rows e =
    ap (value_of g) (find-modify (λ s. s.id == a) (set_field f v) (λ s. refl) rows)
    ∙ value-set f v g (get_setup a rows) e

-- Another setup reads the same.
read-write_ne :
    (a b : ℕ) (f : Field) (v : Option Text) (g : Field) (rows : List Setup)
    → a ≢ b
    → read_field b g (write_field a f v rows) ≡ read_field b g rows
read-write_ne a b f v g rows ne = ap (value_of g) (
    find-modify_ne (λ s. s.id == a) (set_field f v) (λ s. s.id == b) (λ s h. ground arith)
      (λ s. refl) rows)

-- The names hold for this field only where they differ.
apart :
    (f g : Field) (names : List Text)
    → text_in names (field_name f) ≡ false
    → text_in names (field_name g) ≡ true
    → same_field f g ≡ false
apart f g names p q = elim (Bool-cases (same_field f g)) [
  | inl t ↦ absurd (cc (subst (λ n. text_in names n ≡ false) ((text_eq_iff _ _).0 t) p))
  | inr e ↦ e
]

module _ (key : ℕ) where
  -- Two writes to one row are one.
  modify-modify :
      (f g : Setup → Setup)
      → ((s : Setup) → (f s).id ≡ s.id)
      → (rows : List Setup)
      → modify (λ s. s.id == key) g (modify (λ s. s.id == key) f rows)
        ≡ modify (λ s. s.id == key) (λ s. g (f s)) rows
  modify-modify f g keep [] = refl
  modify-modify f g keep (s ∷ rows) = ground (arith, keep s, modify-modify f g keep rows)

-- Writes to two rows change places.
modify_comm :
    (a b : ℕ) (f g : Setup → Setup)
    → ((s : Setup) → (f s).id ≡ s.id)
    → ((s : Setup) → (g s).id ≡ s.id)
    → a ≢ b
    → (rows : List Setup)
    → modify (λ s. s.id == a) f (modify (λ s. s.id == b) g rows)
      ≡ modify (λ s. s.id == b) g (modify (λ s. s.id == a) f rows)
modify_comm a b f g keep_f keep_g ne [] = refl
modify_comm a b f g keep_f keep_g ne (s ∷ rows) =
    ground (arith, keep_f s, keep_g s, modify_comm a b f g keep_f keep_g ne rows)

pub field_of-name : (f : Field) → field_of (field_name f) ≡ some f
unfolding field_of field_name
field_of-name ssd = refl
field_of-name hdd = refl
field_of-name hardware_info = refl
field_of-name capacity = refl
field_of-name form_factor = refl
field_of-name adapter = refl
field_of-name aardvark = refl
field_of-name quarch = refl
field_of-name apc = refl
field_of-name remote_server = refl

same_field-eq : (f g : Field) → same_field f g ≡ true → f ≡ g
same_field-eq f g t = some-injective f g (
    sym (field_of-name f)
    ∙ ap field_of ((text_eq_iff (field_name f) (field_name g)).0 t)
    ∙ field_of-name g)

-- The name of the field that it stands for.
pub name-field_of : (name : Text) (f : Field) → field_of name ≡ some f → field_name f ≡ name
unfolding field_of
name-field_of name f e =
    (text_eq_iff (field_name f) name).0 (find-some (λ g. text_eq (field_name g) name) fields e)

-- Values that agree at the named fields are mixed alike.
mixed-agree :
    (names : List Text) (h k : Hardware)
    → ((g : Field) → text_in names (field_name g) ≡ true → h g ≡ k g)
    → mixed names h ≡ mixed names k
mixed-agree names h k same =
    fun_ext (λ s. ap (λ (v : Hardware). record s { hardware = v }) (fun_ext (λ g. here s g)))
  where
    here :
        (s : Setup) (g : Field)
        → (if text_in names (field_name g) then h g else s.hardware g)
          ≡ (if text_in names (field_name g) then k g else s.hardware g)
    here s g = elim (Bool-cases (text_in names (field_name g))) [
      | inl t ↦ rw (t, same g t) refl
      | inr e ↦ rw e refl
    ]

-- One more name.
mixed-set :
    (names : List Text) (h : Hardware) (f : Field)
    → (λ s. mixed names h (set_field f (h f) s)) ≡ mixed (field_name f ∷ names) h
mixed-set names h f =
    fun_ext (λ s. ap (λ (v : Hardware). record s { hardware = v }) (fun_ext (λ g. here s g)))
  where
    here :
        (s : Setup) (g : Field)
        → (if text_in names (field_name g)
            then h g
            else if same_field f g
            then h f
            else s.hardware g)
          ≡ (if text_in (field_name f ∷ names) (field_name g) then h g else s.hardware g)
    here s g = elim (Bool-cases (same_field f g)) [
      | inl t ↦ rw (t, ap h (same_field-eq f g t)) (ground arith)
      | inr e ↦ rw e refl
    ]

module _ (a b : ℕ) (ne : a ≢ b) where
  -- After one step the fields with the other names read as before, in both setups.
  pub read_apart :
      (names : List Text) (f : Field) (rows : List Setup)
      → text_in names (field_name f) ≡ false
      → (g : Field) → text_in names (field_name g) ≡ true
      → let rows1 =
          write_field b f (read_field a f rows) (write_field a f (read_field b f rows) rows) in
        (read_field a g rows1 ≡ read_field a g rows) × (read_field b g rows1 ≡ read_field b g rows)
  read_apart names f rows free g t = (
    read-write_ne b a f (read_field a f rows) g (write_field a f (read_field b f rows) rows)
          (λ e. ne (sym e))
        ∙ read-write a f (read_field b f rows) g rows (apart f g names free t),
    read-write b f (read_field a f rows) g (write_field a f (read_field b f rows) rows)
          (apart f g names free t)
        ∙ read-write_ne a b f (read_field b f rows) g rows ne,
  )

  -- What one step and the exchange of the other names do is the exchange of all.
  pub traded-step :
      (names : List Text) (f : Field) (rows : List Setup)
      → text_in names (field_name f) ≡ false
      → traded names a b
          (write_field b f (read_field a f rows) (write_field a f (read_field b f rows) rows))
        ≡ traded (field_name f ∷ names) a b rows
  traded-step names f rows free =
      ap (λ m. at b m (at a (mixed names (λ g. read_field b g rows1)) rows1)) same_a
      ∙ ap (λ m. at b (mixed names of_a) (at a m rows1)) same_b
      ∙ ap (at b (mixed names of_a))
          (modify_comm a b (mixed names of_b) set_b (λ s. refl) (λ s. refl) ne (at a set_a rows))
      ∙ modify-modify b set_b (mixed names of_a) (λ s. refl) _
      ∙ ap (at b (λ s. mixed names of_a (set_b s)))
          (modify-modify a set_a (mixed names of_b) (λ s. refl) rows)
      ∙ ap (λ m. at b m (at a (λ s. mixed names of_b (set_a s)) rows)) (mixed-set names of_a f)
      ∙ ap (λ m. at b (mixed (field_name f ∷ names) of_a) (at a m rows)) (mixed-set names of_b f)
    where
      at : ℕ → (Setup → Setup) → List Setup → List Setup
      at key m = modify (λ s. s.id == key) m

      of_a : Hardware
      of_a = λ g. read_field a g rows

      of_b : Hardware
      of_b = λ g. read_field b g rows

      set_a : Setup → Setup
      set_a = set_field f (of_b f)

      set_b : Setup → Setup
      set_b = set_field f (of_a f)

      rows1 : List Setup
      rows1 = at b set_b (at a set_a rows)

      same_a : mixed names (λ g. read_field a g rows1) ≡ mixed names of_a
      same_a =
          mixed-agree names (λ g. read_field a g rows1) of_a
            (λ g t. (read_apart names f rows free g t).0)

      same_b : mixed names (λ g. read_field b g rows1) ≡ mixed names of_b
      same_b =
          mixed-agree names (λ g. read_field b g rows1) of_b
            (λ g t. (read_apart names f rows free g t).1)
