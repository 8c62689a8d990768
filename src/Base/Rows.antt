-- ===== src/Base/Rows.antt =====
-- Tables as lists of rows: the queries and the updates of the repositories, and their laws.
use Prim.Native.Nat.{ℕ, suc}
use mathlib.Core.Path.{◌≡◌, refl, ap, sym, subst}
use mathlib.Core.Logic.{inl, inr}
use mathlib.Core.Bool.{Bool, true, false, ◌||◌}
use mathlib.Core.Option.{Option, none, some, some-injective}
use mathlib.Core.List.{List, [], ◌∷◌, ◌++◌, Memᴰ}
use native.Mathlib.Omega.{arith}
use reservation_tool.Base.Tests.{◌==◌, if◌then◌else◌, Bool-cases}

module _ {ℓ} {A : Type ℓ} where
  abbrev pub length : List A → ℕ
  length [] = 0
  length (x ∷ xs) = suc (length xs)

  -- `query.filter(p).all()`
  abbrev pub select : (A → Bool) → List A → List A
  select p [] = []
  select p (x ∷ xs) = if p x then x ∷ select p xs else select p xs

  -- `query.filter(p).first()`
  abbrev pub find : (A → Bool) → List A → Option A
  find p [] = none
  find p (x ∷ xs) = if p x then some x else find p xs

  -- A write to each row that satisfies `p`.
  abbrev pub modify : (A → Bool) → (A → A) → List A → List A
  modify p f [] = []
  modify p f (x ∷ xs) = (if p x then f x else x) ∷ modify p f xs

  abbrev pub any_of : (A → Bool) → List A → Bool
  any_of p [] = false
  any_of p (x ∷ xs) = p x || any_of p xs

  abbrev pub All {κ} : (A → Type κ) → List A → Type κ
  All P [] = Unit
  All P (x ∷ xs) = P x × All P xs

  abbrev pub Pairwise {κ} : (A → A → Type κ) → List A → Type κ
  Pairwise R [] = Unit
  Pairwise R (x ∷ xs) = All (R x) xs × Pairwise R xs

-- `n in ids`
abbrev pub contains : List ℕ → ℕ → Bool
contains [] n = false
contains (x ∷ xs) n = x == n || contains xs n

module _ {ℓ κ} {A : Type ℓ} (P : A → Type κ) where
  pub All-append : (xs : List A) (n : A) → All P xs → P n → All P (xs ++ n ∷ [])
  All-append [] n h p = (p, tt)
  All-append (x ∷ xs) n h p = (h.0, All-append xs n h.1 p)

module _ {ℓ κ} {A : Type ℓ} (P Q : A → Type κ) where
  pub All-imp : ((a : A) → P a → Q a) → (xs : List A) → All P xs → All Q xs
  All-imp f [] h = tt
  All-imp f (x ∷ xs) h = (f x h.0, All-imp f xs h.1)

  pub All-modify :
      (p : A → Bool) (f : A → A)
      → ((a : A) → P a → Q (if p a then f a else a))
      → (xs : List A) → All P xs
      → All Q (modify p f xs)
  All-modify p f k [] h = tt
  All-modify p f k (x ∷ xs) h = (k x h.0, All-modify p f k xs h.1)

module _ {ℓ κ} {A : Type ℓ} (P Q R : A → Type κ) where
  pub All-zip : ((a : A) → P a → Q a → R a) → (xs : List A) → All P xs → All Q xs → All R xs
  All-zip f [] h k = tt
  All-zip f (x ∷ xs) h k = (f x h.0 k.0, All-zip f xs h.1 k.1)

module _ {ℓ κ} {A : Type ℓ} (R : A → A → Type κ) where
  pub Pairwise-append :
      (xs : List A) (n : A) → Pairwise R xs → All (λ x. R x n) xs → Pairwise R (xs ++ n ∷ [])
  Pairwise-append [] n h k = (tt, tt)
  Pairwise-append (x ∷ xs) n h k = (All-append (R x) xs n h.0 k.0, Pairwise-append xs n h.1 k.1)

  pub Pairwise-modify :
      (p : A → Bool) (f : A → A)
      → ((a b : A) → R a b → R (if p a then f a else a) (if p b then f b else b))
      → (xs : List A) → Pairwise R xs
      → Pairwise R (modify p f xs)
  Pairwise-modify p f k [] h = tt
  Pairwise-modify p f k (x ∷ xs) h =
      (All-modify (R x) (R (if p x then f x else x)) p f (k x) xs h.0, Pairwise-modify p f k xs h.1)

pub none-some {ℓ} : {A : Type ℓ} {a : A} → none ≡ some a → ⊥
none-some e = cc

module _ {ℓ} {A : Type ℓ} (p : A → Bool) where
  pub find-none : (xs : List A) → find p xs ≡ none → All (λ x. p x ≡ false) xs
  find-none [] h = tt
  find-none (x ∷ xs) h = ground (arith, find-none xs)

  pub find-some : (xs : List A) {a : A} → find p xs ≡ some a → p a ≡ true
  find-some [] h = cc
  find-some (x ∷ xs) {a} h = elim (Bool-cases (p x)) [
    | inl t ↦ subst (λ y. p y ≡ true) (some-injective _ _ (rw t at h)) t
    | inr f ↦ find-some xs (rw f at h)
  ]

  -- What holds of every row holds of the row that is found.
  pub All-find {κ} : (P : A → Type κ) (xs : List A) {a : A} → All P xs → find p xs ≡ some a → P a
  All-find P [] h e = absurd (none-some e)
  All-find P (x ∷ xs) h e = elim (Bool-cases (p x)) [
    | inl t ↦ subst P (some-injective _ _ (rw t at e)) h.0
    | inr f ↦ All-find P xs h.1 (rw f at e)
  ]

  pub select-nil : (xs : List A) → select p xs ≡ [] → All (λ x. p x ≡ false) xs
  select-nil [] h = tt
  select-nil (x ∷ xs) h = ground (arith, select-nil xs)

  pub select-none : (xs : List A) → All (λ x. p x ≡ false) xs → select p xs ≡ []
  select-none [] h = refl
  select-none (x ∷ xs) h = rw (h.0) (select-none xs h.1)

  pub select-cons_true : {x : A} (xs : List A) → p x ≡ true → select p (x ∷ xs) ≡ x ∷ select p xs
  select-cons_true {x} xs t = ap (λ b. if b then x ∷ select p xs else select p xs) t

  pub select-cons_false : {x : A} (xs : List A) → p x ≡ false → select p (x ∷ xs) ≡ select p xs
  select-cons_false {x} xs f = ap (λ b. if b then x ∷ select p xs else select p xs) f

  pub select-All : (xs : List A) → All (λ x. p x ≡ true) (select p xs)
  select-All [] = tt
  select-All (x ∷ xs) = ground (arith, select-All xs)

-- What holds of every row holds of those that are selected.
pub All-select {ℓ κ} :
    {A : Type ℓ} (P : A → Type κ) (p : A → Bool) (xs : List A) → All P xs → All P (select p xs)
All-select P p [] h = tt
All-select P p (x ∷ xs) h = elim (Bool-cases (p x)) [
  | inl t ↦ rw (select-cons_true p xs t) (h.0, All-select P p xs h.1)
  | inr f ↦ rw (select-cons_false p xs f) (All-select P p xs h.1)
]

-- A row of the table that satisfies the test is selected.
pub select-complete {ℓ} :
    {A : Type ℓ} (p : A → Bool) (a : A) (xs : List A)
    → Memᴰ a xs
    → p a ≡ true
    → Memᴰ a (select p xs)
select-complete p a [] m t = elim m [ ]
select-complete p a (x ∷ xs) (Memᴰ.head e) t =
    subst (λ l. Memᴰ a l) (sym (select-cons_true p xs (subst (λ y. p y ≡ true) e t))) (Memᴰ.head e)
select-complete p a (x ∷ xs) (Memᴰ.tail m) t =
    let rest = select-complete p a xs m t in
    elim (Bool-cases (p x)) [
      | inl u ↦ subst (λ l. Memᴰ a l) (sym (select-cons_true p xs u)) (Memᴰ.tail rest)
      | inr u ↦ subst (λ l. Memᴰ a l) (sym (select-cons_false p xs u)) rest
    ]

-- What is selected is a row of the table, and satisfies the test.
pub select_sound {ℓ} :
    {A : Type ℓ} (p : A → Bool) (a : A) (xs : List A)
    → Memᴰ a (select p xs)
    → Memᴰ a xs × (p a ≡ true)
select_sound p a [] m = elim m [ ]
select_sound p a (x ∷ xs) m = elim (Bool-cases (p x)) [
  | inl t ↦ first t (select_sound p a xs) (subst (λ l. Memᴰ a l) (select-cons_true p xs t) m)
  | inr f ↦
      let (inside, h) = select_sound p a xs (subst (λ l. Memᴰ a l) (select-cons_false p xs f) m) in
      (Memᴰ.tail inside, h)
]
  where
    first :
        p x ≡ true
        → (Memᴰ a (select p xs) → Memᴰ a xs × (p a ≡ true))
        → Memᴰ a (x ∷ select p xs)
        → Memᴰ a (x ∷ xs) × (p a ≡ true)
    first t rest (Memᴰ.head e) = (Memᴰ.head e, subst (λ y. p y ≡ true) (sym e) t)
    first t rest (Memᴰ.tail n) = let (inside, h) = rest n in (Memᴰ.tail inside, h)

-- `x` through an optional value.
abbrev pub map_option {ℓ κ} : {A : Type ℓ} {B : Type κ} → (A → B) → Option A → Option B
map_option f none = none
map_option f (some a) = some (f a)

module _ {ℓ} {A : Type ℓ} (p : A → Bool) (f : A → A) where
  -- The row that is written is found, as written.
  pub find-modify :
      ((x : A) → p (f x) ≡ p x) → (xs : List A) → find p (modify p f xs) ≡ map_option f (find p xs)
  find-modify keep [] = refl
  find-modify keep (x ∷ xs) = elim (Bool-cases (p x)) [
    | inl t ↦ rw (t, keep x, t) refl
    | inr e ↦ rw (e, e) (find-modify keep xs)
  ]

  -- A row that is not written is found as it was.
  pub find-modify_ne :
      (q : A → Bool)
      → ((x : A) → q x ≡ true → p x ≡ false)
      → ((x : A) → q (f x) ≡ q x)
      → (xs : List A) → find q (modify p f xs) ≡ find q xs
  find-modify_ne q apart keep [] = refl
  find-modify_ne q apart keep (x ∷ xs) =
      ground (arith, find-modify_ne q apart keep xs, apart x, keep x)

module _ {ℓ κ} {A : Type ℓ} {B : Type κ} (g : A → B) where
  -- What a write leaves alone reads the same in the row that is found.
  pub find-modify_keeps :
      (p q : A → Bool) (f : A → A)
      → ((x : A) → q (f x) ≡ q x)
      → ((x : A) → g (f x) ≡ g x)
      → (xs : List A) → map_option g (find q (modify p f xs)) ≡ map_option g (find q xs)
  find-modify_keeps p q f keep same [] = refl
  find-modify_keeps p q f keep same (x ∷ xs) =
      ground (arith, find-modify_keeps p q f keep same xs, keep x, same x)

-- `contains` and the operations on lists.
pub contains-append :
    (xs ys : List ℕ) (n : ℕ) → contains (xs ++ ys) n ≡ (contains xs n || contains ys n)
contains-append [] ys n = refl
contains-append (x ∷ xs) ys n = ground (arith, contains-append xs ys n)

-- Every number of the one list is in the other.
abbrev pub Within : List ℕ → List ℕ → Type 0
Within xs ys = (n : ℕ) → contains xs n ≡ true → contains ys n ≡ true
