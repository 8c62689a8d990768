-- ===== src/Hardware/Marks.antt =====
-- The table of one setup marks what the list of the setups highlights.
use mathlib.Core.List.Memᴰ.{append_left, append_right, append_cases, map as mem_map, of_map}
use reservation_tool.Keys.{All-Memᴰ, find-Memᴰ}
use reservation_tool.Base.{
  ℕ, ◌≡◌, ◌↔◌, ◌⊎◌, sym, subst, ◌∙◌, inl, inr, true, Option, some, List, map, ◌==◌, ==_iff, arith,
  All, All-select, Pairwise, find-some, select, select-complete, select_sound, Memᴰ, Option-cases,
  Text,
}
use reservation_tool.Db.Rows.{Setup, CustomField, TemplateColumn, Db}
use reservation_tool.Templates.{list_columns_for_product}
use reservation_tool.Templates.Columns.{IsProper}
use reservation_tool.Templates.Order.{All-ordered, Memᴰ-columns}
use reservation_tool.Hardware.{
  fields, field_name, get_baseline, get_custom, custom_key, changed_fixed,
}
use reservation_tool.Hardware.State.{
  CompareRow, differs, value_or_null, column_of, changed_columns, changed_of, original_or,
  fixed_row, custom_row, compare_setup,
}
use reservation_tool.Hardware.Compare.{
  Marked, Apart, differs_sym, differs_self, row-Marked, Marked-row, fixed_to, fixed_from,
  changed_in, changed_from, keyed, found_custom,
}

-- The columns whose original values a setup has are those of its product, where they are still there.
abbrev pub InProduct : Db → Setup → CustomField → Type 0
InProduct db s b =
    b.setup_id ≡ s.id
    → (c : TemplateColumn) → column_of b.template_column_id db.columns ≡ some c
    → c.product_id ≡ s.product_id

module _ (db : Db) (s : Setup) where
  abbrev columns : List TemplateColumn
  columns = list_columns_for_product s.product_id db.columns

  abbrev own : List CustomField
  own = select (λ b. b.setup_id == s.id) db.custom_baselines

  abbrev now : TemplateColumn → Option Text
  now c = value_or_null (get_custom s.id c.id db.custom_values)

  key_parts :
      (k : ℕ) (b : CustomField)
      → custom_key s.id k b ≡ true
      → (b.setup_id ≡ s.id) × (b.template_column_id ≡ k)
  key_parts k b h =
      ((==_iff b.setup_id s.id).0 (ground arith), (==_iff b.template_column_id k).0 (ground arith))

  -- A column that the table marks is among those that have changed.
  column_to :
      (c : TemplateColumn)
      → column_of c.id db.columns ≡ some c
      → (custom_row db s c).changed ≡ true
      → Memᴰ c (changed_columns db own)
  unfolding get_custom
  column_to c stored t = elim (Option-cases (get_custom s.id c.id db.custom_baselines)) [
    | inl e ↦
        absurd
          (differs_self (now c) (subst (λ o. differs (original_or (now c) o) (now c) ≡ true) e t))
    | inr (b, e) ↦
        let (mine, column) =
          key_parts c.id b (find-some (custom_key s.id c.id) db.custom_baselines e) in
        let moved_ =
          differs_sym (now c) b.value
          ∙ subst (λ o. differs (original_or (now c) o) (now c) ≡ true) e t in
        changed_in db own b c
          (select-complete (λ x. x.setup_id == s.id) b db.custom_baselines
            (find-Memᴰ (custom_key s.id c.id) db.custom_baselines e)
            ((==_iff b.setup_id s.id).1 mine))
          (
            subst (λ k. column_of k db.columns ≡ some c) (sym column) stored,
            subst
                (λ j.
                  differs (value_or_null (get_custom j b.template_column_id db.custom_values))
                    b.value
                  ≡ true)
                (sym mine)
                (subst
                  (λ k. differs (value_or_null (get_custom s.id k db.custom_values)) b.value ≡ true)
                  (sym column) moved_),
          )
  ]

  column_from :
      (c : TemplateColumn)
      → Pairwise Apart db.custom_baselines
      → All (InProduct db s) db.custom_baselines
      → Memᴰ c (changed_columns db own)
      → Memᴰ c columns × ((custom_row db s c).changed ≡ true)
  unfolding get_custom
  column_from c apart here m =
      let (b, among, (found, t)) = changed_from db own c m in
      let (stored, mine_) = select_sound (λ x. x.setup_id == s.id) b db.custom_baselines among in
      let mine = (==_iff b.setup_id s.id).0 mine_ in
      let column =
        (==_iff c.id b.template_column_id).0
          (find-some (λ x. x.id == b.template_column_id) db.columns found) in
      let product = All-Memᴰ (InProduct db s) db.custom_baselines b here stored mine c found in
      let original = found_custom s.id c.id db.custom_baselines b apart stored (mine, sym column) in
      let moved_ =
        subst (λ j. differs (value_or_null (get_custom j c.id db.custom_values)) b.value ≡ true)
          mine
          (subst
            (λ k. differs (value_or_null (get_custom b.setup_id k db.custom_values)) b.value ≡ true)
            (sym column) t) in
      (
        subst (λ p. Memᴰ c (list_columns_for_product p db.columns)) product
            (Memᴰ-columns c db.columns
              (find-Memᴰ (λ x. x.id == b.template_column_id) db.columns found)),
        subst (λ o. differs (original_or (now c) o) (now c) ≡ true) (sym original)
            (differs_sym b.value (now c) ∙ moved_),
      )

  stored_columns : IsProper db.columns → All (λ c. column_of c.id db.columns ≡ some c) columns
  unfolding list_columns_for_product
  stored_columns v =
      All-ordered (λ c. column_of c.id db.columns ≡ some c) _
        (All-select (λ c. column_of c.id db.columns ≡ some c) (λ c. c.product_id == s.product_id)
          db.columns (keyed db.columns v.0))

  -- With proper columns, one original value for each custom column of a setup, and such values for the
  -- columns of its own product: the table that compares the setup with its original state marks a field
  -- by a name exactly when `changed_fields` highlights that name in the list of the setups.
  pub compare_setup-Marked :
      (n : Text)
      → IsProper db.columns
      → Pairwise Apart db.custom_baselines
      → All (InProduct db s) db.custom_baselines
      → Marked (compare_setup db s columns) n ↔ Memᴰ n (changed_of db s)
  unfolding compare_setup changed_of changed_fixed
  compare_setup-Marked n v apart here = (
    λ h.
        let (r, m, t, e) = Marked-row (compare_setup db s columns) n h in
        subst (λ x. Memᴰ x (changed_of db s)) e (highlighted r t (append_cases fixed m)),
    λ m. table (append_cases (map field_name (changed_fixed s db.baselines)) m),
  )
    where
      fixed : List CompareRow
      fixed = map (fixed_row s (get_baseline s.id db.baselines)) fields

      highlighted :
          (r : CompareRow)
          → r.changed ≡ true
          → Memᴰ r fixed ⊎ Memᴰ r (map (custom_row db s) columns)
          → Memᴰ r.field (changed_of db s)
      highlighted r t (inl m) =
          let (f, inside, e) = of_map (fixed_row s (get_baseline s.id db.baselines)) fields m in
          subst (λ (x : CompareRow). Memᴰ x.field (changed_of db s)) e
            (append_left _ (
              mem_map field_name (
                fixed_to s (get_baseline s.id db.baselines) f inside
                  (subst (λ (x : CompareRow). x.changed ≡ true) (sym e) t))))
      highlighted r t (inr m) =
          let (c, inside, e) = of_map (custom_row db s) columns m in
          subst (λ (x : CompareRow). Memᴰ x.field (changed_of db s)) e
            (append_right (map field_name (changed_fixed s db.baselines)) (
              mem_map (λ (x : TemplateColumn). x.name)
                (column_to c
                  (All-Memᴰ (λ x. column_of x.id db.columns ≡ some x) columns c (stored_columns v)
                    inside)
                  (subst (λ (x : CompareRow). x.changed ≡ true) (sym e) t))))

      table :
          Memᴰ n (map field_name (changed_fixed s db.baselines))
            ⊎ Memᴰ n (map (λ (c : TemplateColumn). c.name) (changed_columns db own))
          → Marked (compare_setup db s columns) n
      table (inl m) =
          let (f, changed, e) = of_map field_name (changed_fixed s db.baselines) m in
          let (inside, t) = fixed_from s (get_baseline s.id db.baselines) f changed in
          subst (Marked (compare_setup db s columns)) e (
            row-Marked (compare_setup db s columns) (fixed_row s (get_baseline s.id db.baselines) f)
              (append_left _ (mem_map (fixed_row s (get_baseline s.id db.baselines)) inside)) t)
      table (inr m) =
          let (c, changed, e) =
            of_map (λ (x : TemplateColumn). x.name) (changed_columns db own) m in
          let (inside, t) = column_from c apart here changed in
          subst (Marked (compare_setup db s columns)) e (
            row-Marked (compare_setup db s columns) (custom_row db s c)
              (append_right fixed (mem_map (custom_row db s) inside)) t)
