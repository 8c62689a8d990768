-- ===== src/Keys.antt =====
-- Rows of a table: what holds of all and of some, and rows with unique keys.
use reservation_tool.Base.{
  Memᴰ, ℕ, ◌≡◌, ◌≢◌, refl, sym, subst, ◌∙◌, ◌⊎◌, inl, inr, Bool, false, some, List, [], ◌∷◌, ◌++◌,
  map, contains, ◌==◌, ==_iff, arith, All, All-imp, All-find, All-modify, All-select, All-zip,
  Pairwise, select, select-cons_true, select-cons_false, find, modify, Bool-cases, if◌then◌else◌,
}
use mathlib.Core.Option.{some-injective}

-- What holds of every row holds of each.
pub All-Memᴰ {ℓ} : {A : Type ℓ} (P : A → Type 0) (cs : List A) (d : A) → All P cs → Memᴰ d cs → P d
All-Memᴰ P [] d h m = elim m [ ]
All-Memᴰ P (c ∷ cs) d h (Memᴰ.head e) = subst P (sym e) h.0
All-Memᴰ P (c ∷ cs) d h (Memᴰ.tail m) = All-Memᴰ P cs d h.1 m

-- The row that is found is a row of the table.
pub find-Memᴰ {ℓ} :
    {A : Type ℓ} (p : A → Bool) (rows : List A) {b : A} → find p rows ≡ some b → Memᴰ b rows
find-Memᴰ p [] e = absurd (cc)
find-Memᴰ p (x ∷ rows) {b} e = elim (Bool-cases (p x)) [
  | inl t ↦ Memᴰ.head (sym (some-injective _ _ (rw t at e)))
  | inr f ↦ Memᴰ.tail (find-Memᴰ p rows (rw f at e))
]

-- Some row of the table.
abbrev pub Any {ℓ} : {A : Type ℓ} → (A → Type 0) → List A → Type 0
Any P [] = ⊥
Any P (x ∷ xs) = P x ⊎ Any P xs

module _ {ℓ} {A : Type ℓ} (P : A → Type 0) where
  pub Any-append : (xs : List A) (n : A) → Any P xs → Any P (xs ++ n ∷ [])
  Any-append [] n h = absurd h
  Any-append (x ∷ xs) n (inl p) = inl p
  Any-append (x ∷ xs) n (inr h) = inr (Any-append xs n h)

  pub Any-last : (xs : List A) (n : A) → P n → Any P (xs ++ n ∷ [])
  Any-last [] n p = inl p
  Any-last (x ∷ xs) n p = inr (Any-last xs n p)

  pub find-Any : (p : A → Bool) (xs : List A) {a : A} → find p xs ≡ some a → P a → Any P xs
  find-Any p [] e h = cc
  find-Any p (x ∷ xs) e h = elim (Bool-cases (p x)) [
    | inl t ↦ inl (subst P (sym (some-injective _ _ (rw t at e))) h)
    | inr f ↦ inr (find-Any p xs (rw f at e) h)
  ]

module _ {ℓ} {A : Type ℓ} (P Q : A → Type 0) where
  -- A row with `P` becomes one with `Q` under the write.
  pub Any-modify :
      (p : A → Bool) (f : A → A)
      → ((a : A) → P a → Q (if p a then f a else a))
      → (xs : List A) → Any P xs
      → Any Q (modify p f xs)
  Any-modify p f k [] h = h
  Any-modify p f k (x ∷ xs) (inl h) = inl (k x h)
  Any-modify p f k (x ∷ xs) (inr h) = inr (Any-modify p f k xs h)

  pub Any-imp : ((a : A) → P a → Q a) → (xs : List A) → Any P xs → Any Q xs
  Any-imp k [] h = h
  Any-imp k (x ∷ xs) (inl h) = inl (k x h)
  Any-imp k (x ∷ xs) (inr h) = inr (Any-imp k xs h)

  pub All-Any : (xs : List A) → All P xs → Any Q xs → Any (λ a. P a × Q a) xs
  All-Any [] h k = k
  All-Any (x ∷ xs) h (inl q) = inl (h.0, q)
  All-Any (x ∷ xs) h (inr k) = inr (All-Any xs h.1 k)

-- A property of every row, beside one of every two.
module _ {A : Type 0} (Q : A → Type 0) (R : A → A → Type 0) where
  with-All : (x : A) (xs : List A) → Q x → All Q xs → All (R x) xs → All (λ b. Q x × Q b × R x b) xs
  with-All x [] q h r = tt
  with-All x (y ∷ ys) q h r = ((q, h.0, r.0), with-All x ys q h.1 r.1)

  pub Pairwise-with :
      (xs : List A) → All Q xs → Pairwise R xs → Pairwise (λ a b. Q a × Q b × R a b) xs
  Pairwise-with [] h r = tt
  Pairwise-with (x ∷ xs) h r = (with-All x xs h.0 h.1 r.0, Pairwise-with xs h.1 r.1)

module _ {A : Type 0} (P Q : A → A → Type 0) where
  pub Pairwise-change :
      (p : A → Bool) (f : A → A)
      → ((a b : A) → P a b → Q (if p a then f a else a) (if p b then f b else b))
      → (xs : List A) → Pairwise P xs
      → Pairwise Q (modify p f xs)
  Pairwise-change p f k [] h = tt
  Pairwise-change p f k (x ∷ xs) h =
      (All-modify (P x) (Q (if p x then f x else x)) p f (k x) xs h.0, Pairwise-change p f k xs h.1)

module _ {A : Type 0} (key : A → ℕ) where
  -- No row has a key that is not in the list of keys.
  pub fresh_key : (xs : List A) (k : ℕ) → contains (map key xs) k ≡ false → All (λ x. key x ≢ k) xs
  fresh_key [] k h = tt
  fresh_key (x ∷ xs) k h = (ground arith, fresh_key xs k (ground arith))

  -- The row that is found is the only one with the key.
  pub found_unique :
      (xs : List A) (k : ℕ) {r : A}
      → Pairwise (λ a b. key a ≢ key b) xs
      → find (λ x. key x == k) xs ≡ some r
      → All (λ x. key x ≡ k → x ≡ r) xs
  found_unique [] k u e = tt
  found_unique (x ∷ xs) k {r} u e = elim (Bool-cases (key x == k)) [
    | inl t ↦ (
      λ _. some-injective _ _ (rw t at e),
      All-imp (λ b. key x ≢ key b) (λ y. key y ≡ k → y ≡ r)
          (λ y ne same. absurd (ne ((==_iff (key x) k).0 t ∙ sym same))) xs u.0,
    )
    | inr f ↦ (λ same. absurd (ground arith), found_unique xs k u.1 (rw f at e))
  ]

  -- With unique keys a row that is there is found.
  pub Any-found :
      (P : A → Type 0) (xs : List A) (k : ℕ)
      → Pairwise (λ a b. key a ≢ key b) xs
      → Any (λ x. (key x ≡ k) × P x) xs
      → (r : A) × (find (λ x. key x == k) xs ≡ some r) × P r
  Any-found P [] k u h = absurd h
  Any-found P (x ∷ xs) k u (inl (e, p)) = (x, rw ((==_iff (key x) k).1 e) refl, p)
  Any-found P (x ∷ xs) k u (inr h) = elim (Bool-cases (key x == k)) [
    | inl t ↦ absurd (clash xs u.0 h ((==_iff (key x) k).0 t))
    | inr f ↦ let (r, e, p) = Any-found P xs k u.1 h in (r, rw f e, p)
  ]
    where
      clash :
          (ys : List A)
          → All (λ b. key x ≢ key b) ys
          → Any (λ y. (key y ≡ k) × P y) ys
          → key x ≡ k
          → ⊥
      clash [] a n t = n
      clash (y ∷ ys) a (inl (s, _)) t = a.0 (t ∙ sym s)
      clash (y ∷ ys) a (inr n) t = clash ys a.1 n t

-- With unique keys each row is the only one with its key.
module _ {A : Type 0} (key : A → ℕ) where
  pub unique_rows :
      (xs : List A)
      → Pairwise (λ a b. key a ≢ key b) xs
      → All (λ r. All (λ x. key x ≡ key r → x ≡ r) xs) xs
  unique_rows [] u = tt
  unique_rows (x ∷ xs) u = (
    (
      λ _. refl,
      All-imp (λ b. key x ≢ key b) (λ y. key y ≡ key x → y ≡ x)
          (λ y ne same. absurd (ne (sym same))) xs u.0,
    ),
    All-zip (λ b. key x ≢ key b) (λ r. All (λ y. key y ≡ key r → y ≡ r) xs)
        (λ r. All (λ y. key y ≡ key r → y ≡ r) (x ∷ xs)) (λ r ne h. (λ same. absurd (ne same), h))
        xs u.0 (unique_rows xs u.1),
  )

-- A row that is found by its key stands in the relation to every other row.
pub found_apart :
    {A : Type 0} (key : A → ℕ) (R : A → A → Type 0) (sym_R : (a b : A) → R a b → R b a)
    (xs : List A) (k : ℕ) {r : A}
    → Pairwise R xs
    → find (λ x. key x == k) xs ≡ some r
    → All (λ x. (x ≡ r) ⊎ R x r) xs
found_apart key R sym_R [] k u e = tt
found_apart key R sym_R (x ∷ xs) k {r} u e = elim (Bool-cases (key x == k)) [
  | inl t ↦
      let same = some-injective x r (rw t at e) in
      (
        inl same,
        All-imp (R x) (λ y. (y ≡ r) ⊎ R y r) (λ y a. inr (sym_R r y (subst (λ z. R z y) same a))) xs
            u.0,
      )
  | inr f ↦
      let there = rw f at e in
      (inr (All-find (λ y. key y == k) (R x) xs u.0 there), found_apart key R sym_R xs k u.1 there)
]

-- What holds of any two rows holds of any two that are selected.
pub Pairwise-select {ℓ κ} :
    {A : Type ℓ} (R : A → A → Type κ) (q : A → Bool) (xs : List A)
    → Pairwise R xs
    → Pairwise R (select q xs)
Pairwise-select R q [] v = tt
Pairwise-select R q (x ∷ xs) v = elim (Bool-cases (q x)) [
  | inl t ↦ rw (select-cons_true q xs t) (All-select (R x) q xs v.0, Pairwise-select R q xs v.1)
  | inr f ↦ rw (select-cons_false q xs f) (Pairwise-select R q xs v.1)
]
