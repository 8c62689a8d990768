-- ===== src/Swaps/Loop.antt =====
-- The loop of `approve` over fixed columns: it cannot fail, and it exchanges every named value once.
use reservation_tool.Base.{
  ℕ, ◌≡◌, ◌≢◌, refl, sym, ap, subst, ◌∙◌, ◌⊎◌, inl, inr, true, false, Option, some, none, List, [],
  ◌∷◌, ◌==◌, arith, All, is_some, modify, Text, text_eq_iff, text_in, Option-cases,
}
use reservation_tool.Db.Rows.{Field, Hardware, Setup, User}
use reservation_tool.Core.Errors.{Result, ok, err}
use reservation_tool.Core.Settings.{Env}
use reservation_tool.Hardware.{field_name, field_of}
use reservation_tool.Templates.Values.{Dict}
use reservation_tool.Swaps.Exchange.{
  Loop, put, read_field, write_field, swap_fixed, swap_column, swap_columns,
}
use reservation_tool.Swaps.Fixed.{traded, traded-step, read_apart, name-field_of}

-- The name of a fixed column.
abbrev pub IsFixed : Text → Type 0
IsFixed name = is_some (field_of name) ≡ true

-- No name comes twice.
abbrev pub Distinct : List Text → Type 0
Distinct [] = Unit
Distinct (n ∷ ns) = (text_in ns n ≡ false) × Distinct ns

-- The value of the column that a name stands for.
abbrev pub at_name : Text → Hardware → Option Text
at_name name h = elim (field_of name) [ none ↦ none | some f ↦ h f ]

-- The values of the named columns, noted in a dict.
abbrev pub note_all : List Text → Hardware → Dict (Option Text) → Dict (Option Text)
note_all [] h d = d
note_all (n ∷ ns) h d = note_all ns h (put n (at_name n h) d)

note_all-agree :
    (names : List Text) (h k : Hardware) (d : Dict (Option Text))
    → ((g : Field) → text_in names (field_name g) ≡ true → h g ≡ k g)
    → note_all names h d ≡ note_all names k d
note_all-agree [] h k d same = refl
note_all-agree (n ∷ ns) h k d same =
    ap (λ v. note_all ns h (put n v d)) (here (Option-cases (field_of n)))
    ∙ note_all-agree ns h k (put n (at_name n k) d) (λ g t. same g (ground (arith, t)))
  where
    here : (field_of n ≡ none) ⊎ ((f : Field) × (field_of n ≡ some f)) → at_name n h ≡ at_name n k
    here (inl e) = rw (e, at_name) refl
    here (inr (f, e)) =
        rw (e, at_name)
          (same f (ground (arith, (text_eq_iff n (field_name f)).1 (sym (name-field_of n f e)))))

-- An exchange of nothing.
traded-nil : (a b : ℕ) (rows : List Setup) → traded [] a b rows ≡ rows
traded-nil a b rows = modify-id b (modify (λ s. s.id == a) (λ s. s) rows) ∙ modify-id a rows
  where
    modify-id : (key : ℕ) (xs : List Setup) → modify (λ s. s.id == key) (λ s. s) xs ≡ xs
    modify-id key [] = refl
    modify-id key (x ∷ xs) = ground (arith, modify-id key xs)

module _ (env : Env) (a b : Setup) (actor : User) (ne : a.id ≢ b.id) where
  -- The variables after the loop.
  abbrev pub after : List Text → Loop → Loop
  after names x = record x {
    db = record x.db { setups = traded names a.id b.id x.db.setups };
    old_values = note_all names (λ g. read_field a.id g x.db.setups) x.old_values;
    new_values = note_all names (λ g. read_field b.id g x.db.setups) x.new_values;
  }

  -- The variables after one step and the exchange of the other names.
  after-step :
      (n : Text) (f : Field) (ns : List Text) (x : Loop)
      → field_of n ≡ some f
      → text_in ns n ≡ false
      → after ns (swap_fixed a.id b.id n f x) ≡ after (n ∷ ns) x
  unfolding swap_fixed
  after-step n f ns x e absent =
      ap
        (λ rows.
          build rows (note_all ns (λ g. read_field a.id g rows1) (put n (of_a f) x.old_values))
            (note_all ns (λ g. read_field b.id g rows1) (put n (of_b f) x.new_values)))
        (traded-step a.id b.id ne ns f x.db.setups free
          ∙ ap (λ m. traded (m ∷ ns) a.id b.id x.db.setups) (name-field_of n f e))
      ∙ ap
          (λ old.
            build (traded (n ∷ ns) a.id b.id x.db.setups) old
              (note_all ns (λ g. read_field b.id g rows1) (put n (of_b f) x.new_values)))
          (note of_a (λ g. read_field a.id g rows1) x.old_values
            (λ g t. (read_apart a.id b.id ne ns f x.db.setups free g t).0))
      ∙ ap (build (traded (n ∷ ns) a.id b.id x.db.setups) (note_all (n ∷ ns) of_a x.old_values)) (
          note of_b (λ g. read_field b.id g rows1) x.new_values
            (λ g t. (read_apart a.id b.id ne ns f x.db.setups free g t).1))
    where
      of_a : Hardware
      of_a = λ g. read_field a.id g x.db.setups

      of_b : Hardware
      of_b = λ g. read_field b.id g x.db.setups

      rows1 : List Setup
      rows1 = write_field b.id f (of_a f) (write_field a.id f (of_b f) x.db.setups)

      build : List Setup → Dict (Option Text) → Dict (Option Text) → Loop
      build rows old new = record x {
        db = record x.db { setups = rows };
        old_values = old;
        new_values = new;
      }

      free : text_in ns (field_name f) ≡ false
      free = subst (λ m. text_in ns m ≡ false) (sym (name-field_of n f e)) absent

      note :
          (h h1 : Hardware) (d : Dict (Option Text))
          → ((g : Field) → text_in ns (field_name g) ≡ true → h1 g ≡ h g)
          → note_all ns h1 (put n (h f) d) ≡ note_all (n ∷ ns) h d
      note h h1 d same =
          note_all-agree ns h1 h (put n (h f) d) same
          ∙ ap
              (λ (o : Option Field).
                note_all ns h (put n (elim o [ none ↦ none | some g ↦ h g ]) d))
              (sym e)

  column :
      (n : Text) (f : Field) (x : Loop)
      → field_of n ≡ some f
      → swap_column env a b actor n x ≡ (ok tt, swap_fixed a.id b.id n f x)
  unfolding swap_column
  column n f x e = rw (e, swap_column) refl

  step :
      (n : Text) (f : Field) (ns : List Text) (x : Loop)
      → field_of n ≡ some f
      → swap_columns env a b actor (n ∷ ns) x
        ≡ swap_columns env a b actor ns (swap_fixed a.id b.id n f x)
  unfolding swap_columns
  step n f ns x e =
      ap
        (λ (p : Result (Unit {0}) × Loop). elim p.0 [
          | ok _ ↦ swap_columns env a b actor ns p.1
          | err x ↦ (err x, p.1)
        ])
        (column n f x e)

  pub swap_columns-fixed :
      (names : List Text) (x : Loop)
      → All IsFixed names
      → Distinct names
      → swap_columns env a b actor names x ≡ (ok tt, after names x)
  unfolding swap_columns
  swap_columns-fixed [] x fixed distinct =
      ap (λ rows. (ok tt, record x { db = record x.db { setups = rows } }))
        (sym (traded-nil a.id b.id x.db.setups))
  swap_columns-fixed (n ∷ ns) x fixed distinct = elim (Option-cases (field_of n)) [
    | inl e ↦ absurd (cc (subst (λ o. is_some o ≡ true) e (fixed.0)))
    | inr (f, e) ↦
        step n f ns x e
        ∙ swap_columns-fixed ns (swap_fixed a.id b.id n f x) fixed.1 distinct.1
        ∙ ap (λ y. (ok tt, y)) (after-step n f ns x e distinct.0)
  ]
