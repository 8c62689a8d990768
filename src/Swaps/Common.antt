-- ===== src/Swaps/Common.antt =====
-- `_common_swappable_columns`, by the names that are in it.
use reservation_tool.Base.{
  ℕ, ◌≡◌, ◌↔◌, ◌⊎◌, refl, sym, subst, ap, ◌∙◌, inl, inr, Bool, true, false, ◌||◌, ◌&&◌, List, ◌++◌,
  select, ◌==◌, ==_iff, arith, Bool-cases, both_values, Text, text_in, sorted_set, if◌then◌else◌,
}
use reservation_tool.Core.Settings.{Env}
use reservation_tool.Db.Rows.{Setup, TemplateColumn, Db}
use reservation_tool.Hardware.{field_names}
use reservation_tool.Borrows.Access.{custom_names}
use reservation_tool.Borrows.Fields.{
  IsFixedName, HasColumn, IsCommon, text_in-append, fixed_iff, custom_iff, sorted_set-in, common-in,
}
use reservation_tool.Swaps.Access.{common_swappable_columns}

-- The custom names that two products have in common.
abbrev shared : ℕ → ℕ → List TemplateColumn → List Text
shared a b columns =
    if a == b
    then custom_names a columns
    else select (text_in (custom_names b columns)) (custom_names a columns)

shared_iff :
    (a b : ℕ) (columns : List TemplateColumn) (n : Text)
    → (text_in (shared a b columns) n ≡ true) ↔ (HasColumn a n columns × HasColumn b n columns)
shared_iff a b columns n = elim (Bool-cases (a == b)) [
  | inl t ↦ (
    λ h.
        let has = (custom_iff a columns n).0 (ap (λ x. text_in (pick x) n) (sym t) ∙ h) in
        (has, subst (λ k. HasColumn k n columns) ((==_iff a b).0 t) has),
    λ k. ap (λ x. text_in (pick x) n) t ∙ (custom_iff a columns n).1 k.0,
  )
  | inr f ↦ (
    λ h.
        let (left, right) = both _ _ (
          sym (common-in (custom_names a columns) (custom_names b columns) n)
          ∙ ap (λ x. text_in (pick x) n) (sym f)
          ∙ h) in
        ((custom_iff a columns n).0 left, (custom_iff b columns n).0 right),
    λ k.
        ap (λ x. text_in (pick x) n) f
        ∙ common-in (custom_names a columns) (custom_names b columns) n
        ∙ join _ _ ((custom_iff a columns n).1 k.0) ((custom_iff b columns n).1 k.1),
  )
]
  where
    pick : Bool → List Text
    pick x =
        if x
        then custom_names a columns
        else select (text_in (custom_names b columns)) (custom_names a columns)

    both : (x y : Bool) → (x && y) ≡ true → (x ≡ true) × (y ≡ true)
    both x y h = (ground arith, ground arith)

    join : (x y : Bool) → x ≡ true → y ≡ true → (x && y) ≡ true
    join x y h k = ground arith

-- The columns that two setups have in common are those that both have.
pub IsCommon-iff :
    (env : Env) (db : Db) (a b : Setup) (n : Text)
    → (text_in (common_swappable_columns env db a b) n ≡ true) ↔ IsCommon env db a b n
unfolding common_swappable_columns
IsCommon-iff env db a b n = by env.has_template
  where
    customs : List Text
    customs = shared a.product_id b.product_id db.columns

    all :
        text_in (field_names ++ sorted_set customs) n ≡ (text_in field_names n || text_in customs n)
    all =
        text_in-append field_names (sorted_set customs) n
        ∙ ap (λ x. text_in field_names n || x) (sorted_set-in customs n)

    either : (x y : Bool) → (x || y) ≡ true → (x ≡ true) ⊎ (y ≡ true)
    either x y h = elim (Bool-cases x) [ inl t ↦ inl t | inr f ↦ inr (ground arith) ]

    left : (x y : Bool) → x ≡ true → (x || y) ≡ true
    left x y h = ground arith

    right : (x y : Bool) → y ≡ true → (x || y) ≡ true
    right x y h = ground arith

    by :
        (t : Bool)
        → (text_in (if t then field_names ++ sorted_set customs else field_names) n ≡ true) ↔ (
            IsFixedName n
            ⊎ ((t ≡ true)
                × HasColumn a.product_id n db.columns
                × HasColumn b.product_id n db.columns))
    by false = (
      λ h. inl ((fixed_iff n).0 h),
      λ k. elim k [ inl f ↦ (fixed_iff n).1 f | inr x ↦ absurd (both_values refl x.0) ],
    )
    by true = (
      λ h. elim (either _ _ (sym all ∙ h)) [
        | inl f ↦ inl ((fixed_iff n).0 f)
        | inr c ↦
            let (here, there) = (shared_iff a.product_id b.product_id db.columns n).0 c in
            inr (refl, here, there)
      ],
      λ k. elim k [
        | inl f ↦ all ∙ left _ _ ((fixed_iff n).1 f)
        | inr x ↦ all ∙ right _ _ ((shared_iff a.product_id b.product_id db.columns n).1 (x.1, x.2))
      ],
    )
