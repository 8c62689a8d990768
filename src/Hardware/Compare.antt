-- ===== src/Hardware/Compare.antt =====
-- The table of one setup and the list of all setups mark the same fields.
use mathlib.Core.List.Memᴰ.{map as mem_map, of_map}
use reservation_tool.Keys.{All-Memᴰ}
use reservation_tool.Base.{
  ℕ, ◌≡◌, refl, sym, subst, ap, ◌∙◌, inl, inr, Bool, true, false, not, Option, some, none, List, [],
  ◌∷◌, map, ==_iff, arith, All, All-zip, Pairwise, find, select, select-complete, select_sound,
  Memᴰ, both_values, if-keeps, Bool-cases, Text, text_eq, text_eq_iff, if◌then◌else◌,
}
use reservation_tool.Db.Rows.{Field, Setup, SetupHardwareBaseline, CustomField, TemplateColumn, Db}
use reservation_tool.Templates.Columns.{Unlike}
use reservation_tool.Hardware.{fields, normalize, get_custom, custom_key, differing}
use reservation_tool.Hardware.State.{
  CompareRow, differs, value_or_null, column_of, changed_columns, original_of,
}

text_eq_sym : (a b : Text) → text_eq a b ≡ text_eq b a
text_eq_sym a b = elim (Bool-cases (text_eq a b)) [
  | inl t ↦ t ∙ sym ((text_eq_iff b a).1 (sym ((text_eq_iff a b).0 t)))
  | inr f ↦ elim (Bool-cases (text_eq b a)) [
    | inl t ↦ (text_eq_iff a b).1 (sym ((text_eq_iff b a).0 t)) ∙ sym t
    | inr g ↦ f ∙ sym g
  ]
]

pub differs_sym : (a b : Option Text) → differs a b ≡ differs b a
differs_sym a b = ap not (text_eq_sym (normalize a) (normalize b))

pub differs_self : (a : Option Text) → differs a a ≡ true → ⊥
differs_self a h = both_values (ap not ((text_eq_iff (normalize a) (normalize a)).1 refl)) h

-- A field that a table marks.
abbrev pub Marked : List CompareRow → Text → Type 0
Marked rows n = Memᴰ n (map (λ (r : CompareRow). r.field) (select (λ r. r.changed) rows))

pub row-Marked :
    (rows : List CompareRow) (r : CompareRow) → Memᴰ r rows → r.changed ≡ true → Marked rows r.field
row-Marked rows r m t =
    mem_map (λ (x : CompareRow). x.field) (select-complete (λ x. x.changed) r rows m t)

pub Marked-row :
    (rows : List CompareRow) (n : Text)
    → Marked rows n
    → (r : CompareRow) × Memᴰ r rows × (r.changed ≡ true) × (r.field ≡ n)
Marked-row rows n m =
    let (r, here, e) = of_map (λ (x : CompareRow). x.field) (select (λ x. x.changed) rows) m in
    let (inside, t) = select_sound (λ x. x.changed) r rows here in (r, inside, t, e)

-- The fixed fields.
module _ (s : Setup) where
  abbrev pub fixed_changes : Option SetupHardwareBaseline → List Field
  fixed_changes o = elim o [ none ↦ [] | some b ↦ differing s.hardware b.hardware ]

  pub fixed_to :
      (o : Option SetupHardwareBaseline) (f : Field)
      → Memᴰ f fields
      → differs (original_of s o f) (s.hardware f) ≡ true
      → Memᴰ f (fixed_changes o)
  unfolding differing
  fixed_to none f m t = absurd (differs_self (s.hardware f) t)
  fixed_to (some b) f m t =
      select-complete (λ g. differs (s.hardware g) (b.hardware g)) f fields m
        (differs_sym (s.hardware f) (b.hardware f) ∙ t)

  pub fixed_from :
      (o : Option SetupHardwareBaseline) (f : Field)
      → Memᴰ f (fixed_changes o)
      → Memᴰ f fields × (differs (original_of s o f) (s.hardware f) ≡ true)
  unfolding differing
  fixed_from none f m = elim m [ ]
  fixed_from (some b) f m =
      let (inside, t) = select_sound (λ g. differs (s.hardware g) (b.hardware g)) f fields m in
      (inside, differs_sym (b.hardware f) (s.hardware f) ∙ t)

-- The custom columns.
module _ (db : Db) where
  abbrev pub moved : CustomField → Bool
  moved b =
      differs (value_or_null (get_custom b.setup_id b.template_column_id db.custom_values)) b.value

  abbrev pub Changes : CustomField → TemplateColumn → Type 0
  Changes b c = (column_of b.template_column_id db.columns ≡ some c) × (moved b ≡ true)

  abbrev with_column :
      CustomField → Option TemplateColumn → List TemplateColumn → List TemplateColumn
  with_column b o later = elim o [ none ↦ later | some c ↦ if moved b then c ∷ later else later ]

  pub changed_in :
      (base : List CustomField) (b : CustomField) (c : TemplateColumn)
      → Memᴰ b base
      → Changes b c
      → Memᴰ c (changed_columns db base)
  unfolding changed_columns
  changed_in [] b c m h = elim m [ ]
  changed_in (x ∷ base) b c (Memᴰ.head e) h =
      let (found, t) = subst (λ y. Changes y c) e h in
      subst (λ o. Memᴰ c (with_column x o (changed_columns db base))) (sym found)
        (subst
          (λ (t : Bool).
            Memᴰ c (if t then c ∷ changed_columns db base else changed_columns db base))
          (sym t) (Memᴰ.head refl))
  changed_in (x ∷ base) b c (Memᴰ.tail m) h =
      later (column_of x.template_column_id db.columns) (changed_in base b c m h)
    where
      later :
          (o : Option TemplateColumn)
          → Memᴰ c (changed_columns db base)
          → Memᴰ c (with_column x o (changed_columns db base))
      later none k = k
      later (some d) k = if-keeps (Memᴰ c) (moved x) _ _ (Memᴰ.tail k) k

  pub changed_from :
      (base : List CustomField) (c : TemplateColumn)
      → Memᴰ c (changed_columns db base)
      → (b : CustomField) × Memᴰ b base × Changes b c
  unfolding changed_columns
  changed_from [] c m = elim m [ ]
  changed_from (x ∷ base) c m =
      by (column_of x.template_column_id db.columns) (moved x) refl refl (changed_from base c) m
    where
      rest :
          (Memᴰ c (changed_columns db base) → (b : CustomField) × Memᴰ b base × Changes b c)
          → Memᴰ c (changed_columns db base)
          → (b : CustomField) × Memᴰ b (x ∷ base) × Changes b c
      rest k n = let (b, inside, h) = k n in (b, Memᴰ.tail inside, h)

      by :
          (o : Option TemplateColumn) (t : Bool)
          → column_of x.template_column_id db.columns ≡ o
          → moved x ≡ t
          → (Memᴰ c (changed_columns db base) → (b : CustomField) × Memᴰ b base × Changes b c)
          → Memᴰ c (elim o as (λ _. List TemplateColumn) [
            | none ↦ changed_columns db base
            | some d ↦ if t then d ∷ changed_columns db base else changed_columns db base
          ])
          → (b : CustomField) × Memᴰ b (x ∷ base) × Changes b c
      by none t found e k n = rest k n
      by (some d) false found e k n = rest k n
      by (some d) true found e k (Memᴰ.head same) = (
        x,
        Memᴰ.head refl,
        (subst (λ y. column_of x.template_column_id db.columns ≡ some y) (sym same) found, e),
      )
      by (some d) true found e k (Memᴰ.tail n) = rest k n

-- Each column is the one that its key finds.
pub keyed :
    (rows : List TemplateColumn)
    → Pairwise Unlike rows
    → All (λ c. column_of c.id rows ≡ some c) rows
keyed [] v = tt
keyed (c ∷ cs) v = (
  ground (arith, (==_iff c.id c.id).1 refl),
  All-zip (Unlike c) (λ d. column_of d.id cs ≡ some d) (λ d. column_of d.id (c ∷ cs) ≡ some d)
      (λ d n e. ground (arith, n.0, e)) cs v.0 (keyed cs v.1),
)

-- Two original values of custom columns, of another setup or another column.
abbrev pub Apart : CustomField → CustomField → Type 0
Apart a b = custom_key a.setup_id a.template_column_id b ≡ false

-- A row with the key of a setup and a column is the one that is found.
pub found_custom :
    (s k : ℕ) (rows : List CustomField) (b : CustomField)
    → Pairwise Apart rows
    → Memᴰ b rows
    → (b.setup_id ≡ s) × (b.template_column_id ≡ k)
    → find (custom_key s k) rows ≡ some b
found_custom s k [] b v m h = elim m [ ]
found_custom s k (x ∷ rows) b v (Memᴰ.head e) h =
    subst (λ y. find (custom_key s k) (x ∷ rows) ≡ some y) (sym e)
      (at_head (subst (λ y. (y.setup_id ≡ s) × (y.template_column_id ≡ k)) e h))
  where
    at_head :
        (x.setup_id ≡ s) × (x.template_column_id ≡ k) → find (custom_key s k) (x ∷ rows) ≡ some x
    at_head h = ground (arith, h.0, h.1)
found_custom s k (x ∷ rows) b v (Memᴰ.tail m) h =
    later (apart_from m) (found_custom s k rows b v.1 m h)
  where
    apart_from : Memᴰ b rows → custom_key x.setup_id x.template_column_id b ≡ false
    apart_from m = All-Memᴰ (Apart x) rows b v.0 m

    later :
        custom_key x.setup_id x.template_column_id b ≡ false
        → find (custom_key s k) rows ≡ some b
        → find (custom_key s k) (x ∷ rows) ≡ some b
    later n e = ground (arith, h.0, h.1)
