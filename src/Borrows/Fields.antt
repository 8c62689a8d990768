-- ===== src/Borrows/Fields.antt =====
-- Which names are columns: the fixed ones, and the custom ones of a product, in the lists of names that
-- the services build.
use reservation_tool.Base.{
  ℕ, ◌≡◌, ◌↔◌, ◌⊎◌, refl, sym, subst, ap, ◌∙◌, inl, inr, Bool, true, false, ◌||◌, ◌&&◌, Option,
  none, some, List, [], ◌∷◌, ◌++◌, map, select, ◌==◌, ==_iff, arith, Memᴰ, Bool-cases, both_values,
  none-some, not, select-cons_true, select-cons_false, select_sound, select-complete, Text, text_eq,
  text_eq_iff, text_in, text_leb, insert_text, sorted_set, if◌then◌else◌,
}
use mathlib.Core.Option.{some-injective}
use reservation_tool.Core.Errors.{AppError, raise_if, ok}
use reservation_tool.Core.Settings.{Env}
use reservation_tool.Db.Rows.{
  Field, ssd, hdd, hardware_info, capacity, form_factor, adapter, aardvark, quarch, apc,
  remote_server, Setup, TemplateColumn, Db,
}
use reservation_tool.Hardware.{fields, field_name, field_names}
use reservation_tool.Borrows.Access.{custom_names, borrowable_fields, validate_field}

-- A fixed column of the setups.
abbrev pub IsFixedName : Text → Type 0
IsFixedName n = (f : Field) × (field_name f ≡ n)

-- A custom column of the product.
abbrev pub HasColumn : ℕ → Text → List TemplateColumn → Type 0
HasColumn product n columns =
    (c : TemplateColumn) × Memᴰ c columns × (c.product_id ≡ product) × (c.name ≡ n)

pub text_in-append :
    (xs ys : List Text) (n : Text) → text_in (xs ++ ys) n ≡ (text_in xs n || text_in ys n)
text_in-append [] ys n = refl
text_in-append (x ∷ xs) ys n = ground (arith, text_in-append xs ys n)

in_map :
    {A : Type 0} (g : A → Text) (xs : List A) (n : Text) (y : A)
    → Memᴰ y xs
    → g y ≡ n
    → text_in (map g xs) n ≡ true
in_map g [] n y m same = elim m [ ]
in_map g (x ∷ xs) n y (Memᴰ.head e) same = rw ((text_eq_iff (g x) n).1 (ap g (sym e) ∙ same)) refl
in_map g (x ∷ xs) n y (Memᴰ.tail m) same = let rest = in_map g xs n y m same in ground arith

text_in-map :
    {A : Type 0} (g : A → Text) (xs : List A) (n : Text)
    → (text_in (map g xs) n ≡ true) ↔ ((x : A) × Memᴰ x xs × (g x ≡ n))
text_in-map g [] n = (λ h. absurd (cc), λ h. elim h.1 [ ])
text_in-map g (x ∷ xs) n = (
  λ h. elim (Bool-cases (text_eq (g x) n)) [
    | inl t ↦ (x, Memᴰ.head refl, (text_eq_iff (g x) n).0 t)
    | inr f ↦ let (y, m, e) = (text_in-map g xs n).0 (rw f at h) in (y, Memᴰ.tail m, e)
  ],
  λ h. in_map g (x ∷ xs) n h.0 h.1 h.2,
)

all_fields : (f : Field) → Memᴰ f fields
all_fields ssd = Memᴰ.head refl
all_fields hdd = Memᴰ.tail (Memᴰ.head refl)
all_fields hardware_info = Memᴰ.tail (Memᴰ.tail (Memᴰ.head refl))
all_fields capacity = Memᴰ.tail (Memᴰ.tail (Memᴰ.tail (Memᴰ.head refl)))
all_fields form_factor = Memᴰ.tail (Memᴰ.tail (Memᴰ.tail (Memᴰ.tail (Memᴰ.head refl))))
all_fields adapter = Memᴰ.tail (Memᴰ.tail (Memᴰ.tail (Memᴰ.tail (Memᴰ.tail (Memᴰ.head refl)))))
all_fields aardvark =
    Memᴰ.tail (Memᴰ.tail (Memᴰ.tail (Memᴰ.tail (Memᴰ.tail (Memᴰ.tail (Memᴰ.head refl))))))
all_fields quarch =
    Memᴰ.tail
      (Memᴰ.tail (Memᴰ.tail (Memᴰ.tail (Memᴰ.tail (Memᴰ.tail (Memᴰ.tail (Memᴰ.head refl)))))))
all_fields apc = Memᴰ.tail (
    Memᴰ.tail
      (Memᴰ.tail (Memᴰ.tail (Memᴰ.tail (Memᴰ.tail (Memᴰ.tail (Memᴰ.tail (Memᴰ.head refl))))))))
all_fields remote_server = Memᴰ.tail (
    Memᴰ.tail (
      Memᴰ.tail
        (Memᴰ.tail (Memᴰ.tail (Memᴰ.tail (Memᴰ.tail (Memᴰ.tail (Memᴰ.tail (Memᴰ.head refl)))))))))

pub fixed_iff : (n : Text) → (text_in field_names n ≡ true) ↔ IsFixedName n
fixed_iff n = (
  λ h. let (f, _, e) = (text_in-map field_name fields n).0 h in (f, e),
  λ h. (text_in-map field_name fields n).1 (h.0, all_fields h.0, h.1),
)

pub custom_iff :
    (product : ℕ) (columns : List TemplateColumn) (n : Text)
    → (text_in (custom_names product columns) n ≡ true) ↔ HasColumn product n columns
custom_iff product columns n = (
  λ h.
      let (c, m, e) = (text_in-map (λ c. c.name) (select of columns) n).0 h in
      let (inside, here) = select_sound of c columns m in
      (c, inside, (==_iff c.product_id product).0 here, e),
  λ h.
      let (c, m, here, e) = h in
      (text_in-map (λ c. c.name) (select of columns) n).1
        (c, select-complete of c columns m ((==_iff c.product_id product).1 here), e),
)
  where
    of : TemplateColumn → Bool
    of c = c.product_id == product

-- The order and the repetitions of a list do not matter to what is in it.
insert_text-in :
    (t : Text) (us : List Text) (n : Text)
    → text_in (insert_text t us) n ≡ (text_eq t n || text_in us n)
insert_text-in t [] n = refl
insert_text-in t (u ∷ us) n = elim (Bool-cases (text_eq t u)) [
  | inl e ↦ rw (e, (text_eq_iff t u).0 e) (again (text_eq u n) (text_in us n))
  | inr f ↦ elim (Bool-cases (text_leb t u)) [
    | inl l ↦ rw (f, l) refl
    | inr g ↦ rw (f, g, insert_text-in t us n) (swap (text_eq u n) (text_eq t n) (text_in us n))
  ]
]
  where
    again : (a b : Bool) → (a || b) ≡ (a || (a || b))
    again a b = ground arith

    swap : (a b c : Bool) → (a || (b || c)) ≡ (b || (a || c))
    swap a b c = ground arith

pub sorted_set-in : (ts : List Text) (n : Text) → text_in (sorted_set ts) n ≡ text_in ts n
sorted_set-in [] n = refl
sorted_set-in (t ∷ ts) n =
    insert_text-in t (sorted_set ts) n ∙ ap (λ b. text_eq t n || b) (sorted_set-in ts n)

pub common-in :
    (xs ys : List Text) (n : Text)
    → text_in (select (text_in ys) xs) n ≡ (text_in xs n && text_in ys n)
common-in [] ys n = refl
common-in (x ∷ xs) ys n = elim (Bool-cases (text_in ys x)) [
  | inl t ↦
      ap (λ l. text_in l n) (select-cons_true (text_in ys) xs t)
      ∙ ap (λ b. text_eq x n || b) (common-in xs ys n)
      ∙ both (same true t)
  | inr f ↦
      ap (λ l. text_in l n) (select-cons_false (text_in ys) xs f)
      ∙ common-in xs ys n
      ∙ neither (same false f)
]
  where
    same : (b : Bool) → text_in ys x ≡ b → text_eq x n ≡ true → text_in ys n ≡ b
    same b e t = ap (text_in ys) (sym ((text_eq_iff x n).0 t)) ∙ e

    both :
        (text_eq x n ≡ true → text_in ys n ≡ true)
        → (text_eq x n || (text_in xs n && text_in ys n))
          ≡ ((text_eq x n || text_in xs n) && text_in ys n)
    both k = ground (arith, k)

    neither :
        (text_eq x n ≡ true → text_in ys n ≡ false)
        → (text_in xs n && text_in ys n) ≡ ((text_eq x n || text_in xs n) && text_in ys n)
    neither k = ground (arith, k)

-- The custom columns, where the service has the templates.
abbrev customs : Bool → Db → Setup → List Text
customs b db s = if b then custom_names s.product_id db.columns else []

-- The named field: none, a fixed column, or, with templates, a custom column of the setup's product.
abbrev pub IsBorrowable : Env → Db → Setup → Option Text → Type 0
IsBorrowable env db s o =
    (o ≡ none)
    ⊎ ((n : Text) × (o ≡ some n)
        × (IsFixedName n ⊎ ((env.has_template ≡ true) × HasColumn s.product_id n db.columns)))

pub validate_field_iff :
    (env : Env) (db : Db) (s : Setup) (o : Option Text)
    → (validate_field env db s o ≡ ok tt) ↔ IsBorrowable env db s o
unfolding validate_field borrowable_fields
validate_field_iff env db s none = (λ h. inl refl, λ h. refl)
validate_field_iff env db s (some n) = (
  λ h. inr (n, refl, named env.has_template (sym (same env.has_template) ∙ passes _ h)),
  λ h. elim h [
    | inl e ↦ absurd (none-some (sym e))
    | inr k ↦ allowed _ (same env.has_template ∙ listed env.has_template (for k.0 k.1 k.2))
  ],
)
  where
    same :
        (b : Bool)
        → text_in (field_names ++ customs b db s) n
          ≡ (text_in field_names n || text_in (customs b db s) n)
    same b = text_in-append field_names (customs b db s) n

    passes : (b : Bool) → raise_if (not b) AppError.validation ≡ ok tt → b ≡ true
    passes b h = ground arith

    allowed : (b : Bool) → b ≡ true → raise_if (not b) AppError.validation ≡ ok tt
    allowed b h = ground arith

    for :
        (m : Text)
        → some n ≡ some m
        → IsFixedName m ⊎ ((env.has_template ≡ true) × HasColumn s.product_id m db.columns)
        → IsFixedName n ⊎ ((env.has_template ≡ true) × HasColumn s.product_id n db.columns)
    for m e k =
        subst
          (λ x. IsFixedName x ⊎ ((env.has_template ≡ true) × HasColumn s.product_id x db.columns))
          (sym (some-injective _ _ e)) k

    custom :
        (b : Bool)
        → text_in (customs b db s) n ≡ true
        → (b ≡ true) × HasColumn s.product_id n db.columns
    custom true h = (refl, (custom_iff s.product_id db.columns n).0 h)
    custom false h = absurd (cc)

    named :
        (b : Bool)
        → (text_in field_names n || text_in (customs b db s) n) ≡ true
        → IsFixedName n ⊎ ((b ≡ true) × HasColumn s.product_id n db.columns)
    named b h = elim (Bool-cases (text_in field_names n)) [
      | inl t ↦ inl ((fixed_iff n).0 t)
      | inr f ↦ inr (custom b (rw f at h))
    ]

    either : (a : Bool) {b : Bool} → b ≡ true → (a || b) ≡ true
    either a e = ground arith

    listed :
        (b : Bool)
        → IsFixedName n ⊎ ((b ≡ true) × HasColumn s.product_id n db.columns)
        → (text_in field_names n || text_in (customs b db s) n) ≡ true
    listed b (inl k) = let t = (fixed_iff n).1 k in ground arith
    listed true (inr k) =
        either (text_in field_names n) ((custom_iff s.product_id db.columns n).1 k.1)
    listed false (inr k) = absurd (both_values refl k.0)

-- A column that both setups have: a fixed one, or, with templates, a custom column of the products of
-- both.
abbrev pub IsCommon : Env → Db → Setup → Setup → Text → Type 0
IsCommon env db a b n =
    IsFixedName n
    ⊎ ((env.has_template ≡ true)
        × HasColumn a.product_id n db.columns
        × HasColumn b.product_id n db.columns)
