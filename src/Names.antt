-- ===== src/Names.antt =====
-- Tables whose rows have different keys and different names.
use reservation_tool.Base.{
  text_eq_ne, ℕ, ◌≡◌, ◌≢◌, refl, ◌⊎◌, sym, subst, ap, ◌∙◌, inl, inr, Bool, true, false, Option,
  some, none, List, [], ◌∷◌, ◌++◌, map, contains, ◌==◌, ==_iff, arith, All, All-imp, All-zip,
  Pairwise, Pairwise-append, find, find-none, modify, select, is_some, Text, text_eq, text_eq_iff,
  Bool-cases, if◌then◌else◌,
}
use reservation_tool.Core.Errors.{AppError, ok, raise_if}
use reservation_tool.Keys.{Pairwise-select, fresh_key, found_apart, Pairwise-with, Pairwise-change}

-- A guard against a conflict that has been passed.
pub not_raised : (b : Bool) → raise_if b AppError.conflict ≡ ok tt → b ≡ false
not_raised b h = ground arith

module _ {A : Type 0} (key : A → ℕ) (name : A → Text) where
  abbrev pub Named : A → A → Type 0
  Named a b = (key a ≢ key b) × (name a ≢ name b)

  abbrev pub HasNames : List A → Type 0
  HasNames = Pairwise Named

  abbrev pub called : Text → List A → Option A
  called t = find (λ a. text_eq (name a) t)

  sym_Named : (a b : A) → Named a b → Named b a
  sym_Named a b n = (λ e. n.0 (sym e), λ e. n.1 (sym e))

  untaken :
      (t : Text) (rows : List A)
      → is_some (called t rows) ≡ false
      → All (λ a. text_eq (name a) t ≡ false) rows
  untaken t rows h = find-none (λ a. text_eq (name a) t) rows (no_row (called t rows) h)
    where
      no_row : (o : Option A) → is_some o ≡ false → o ≡ none
      no_row o k = ground arith

  -- A row with a new key and a new name joins the table.
  pub append-HasNames :
      (rows : List A) (a : A)
      → contains (map key rows) (key a) ≡ false
      → is_some (called (name a) rows) ≡ false
      → HasNames rows
      → HasNames (rows ++ a ∷ [])
  append-HasNames rows a fresh free v = Pairwise-append Named rows a v (
      All-zip (λ x. key x ≢ key a) (λ x. text_eq (name x) (name a) ≡ false) (λ x. Named x a)
        (λ x k n. (k, text_eq_ne (name x) (name a) n)) rows (fresh_key key rows (key a) fresh)
        (untaken (name a) rows free))

  pub select-HasNames : (q : A → Bool) (rows : List A) → HasNames rows → HasNames (select q rows)
  select-HasNames q rows v = Pairwise-select Named q rows v

  -- A change that changes nothing.
  pub keep-HasNames :
      (p : A → Bool) (f : A → A)
      → ((a : A) → f a ≡ a)
      → (rows : List A) → HasNames rows
      → HasNames (modify p f rows)
  keep-HasNames p f same = Pairwise-change Named Named p f (λ a b n.
      subst (λ c. Named c (if p b then f b else b)) (sym (kept (p a) a))
        (subst (Named a) (sym (kept (p b) b)) n))
    where
      kept : (q : Bool) (a : A) → (if q then f a else a) ≡ a
      kept true a = same a
      kept false a = refl

  -- Every row but the one with the key has another name than this one.
  abbrev pub Frees : ℕ → Text → A → Type 0
  Frees k t a = key a ≢ k → name a ≢ t

  -- A name that no row has, or that the found row has itself.
  pub called-Frees :
      (k : ℕ) (t : Text) (rows : List A) {a : A}
      → HasNames rows
      → find (λ x. key x == k) rows ≡ some a
      → (text_eq t (name a) ≡ true) ⊎ (is_some (called t rows) ≡ false)
      → All (Frees (key a) t) rows
  called-Frees k t rows {a} v found (inl own) =
      All-imp (λ y. (y ≡ a) ⊎ Named y a) (Frees (key a) t)
        (λ y near away. elim near [
          | inl e ↦ absurd (away (ap key e))
          | inr n ↦ λ same. n.1 (same ∙ (text_eq_iff t (name a)).0 own)
        ])
        rows (found_apart key Named sym_Named rows k v found)
  called-Frees k t rows {a} v found (inr free) =
      All-imp (λ y. text_eq (name y) t ≡ false) (Frees (key a) t) (λ y n _. text_eq_ne (name y) t n)
        rows (untaken t rows free)

  module _ (rename : Text → A → A) (keeps : (t : Text) (a : A) → key (rename t a) ≡ key a)
      (gives : (t : Text) (a : A) → name (rename t a) ≡ t) where
    renamed-Named :
        (k : ℕ) (t : Text) (a b : A)
        → Frees k t a × Frees k t b × Named a b
        → Named (if key a == k then rename t a else a) (if key b == k then rename t b else b)
    renamed-Named k t a b (p, q, h) = elim (Bool-cases (key a == k)) [
      | inl s ↦ elim (Bool-cases (key b == k)) [
        | inl u ↦ absurd (h.0 ((==_iff (key a) k).0 s ∙ sym ((==_iff (key b) k).0 u)))
        | inr u ↦ rw (s, u, keeps, gives) (h.0, λ e. q (λ same. ground arith) (sym e))
      ]
      | inr s ↦ elim (Bool-cases (key b == k)) [
        | inl u ↦ rw (s, u, keeps, gives) (h.0, λ e. p (λ same. ground arith) e)
        | inr u ↦ rw (s, u) h
      ]
    ]

    -- The row with the key takes a name that the others do not have.
    pub rename-HasNames :
        (k : ℕ) (t : Text) (rows : List A)
        → All (Frees k t) rows
        → HasNames rows
        → HasNames (modify (λ a. key a == k) (rename t) rows)
    rename-HasNames k t rows free v =
        Pairwise-change (λ a b. Frees k t a × Frees k t b × Named a b) Named (λ a. key a == k)
          (rename t) (renamed-Named k t) rows (Pairwise-with (Frees k t) Named rows free v)
