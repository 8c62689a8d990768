-- ===== src/Paging/Cover.antt =====
-- The pages of a listing, one after the other, are the listing.
use Prim.Native.Nat.{◌/◌}
use native.Mathlib.Nat.{lt-div-mul-add, div-mul-le_self, suc-mul}
use reservation_tool.Base.{
  ℕ, zero, suc, ◌+◌, ◌-◌, ◌*◌, ◌≤◌, ◌<◌, ◌≡◌, refl, sym, subst, ap, ◌∙◌, false, List, [], ◌∷◌, ◌++◌,
  length, arith, ◌==◌, if◌then◌else◌,
}
use reservation_tool.Paging.{take, drop, paginate_query, total_pages}

zero_plus : (m : ℕ) → m ≡ 0 + m
zero_plus m = omega arith

suc_plus : (n m : ℕ) → suc (n + m) ≡ suc n + m
suc_plus n m = omega arith

suc_less : (n : ℕ) → suc n - 1 ≡ n
suc_less n = omega arith

zero_times : (m : ℕ) → 0 ≡ 0 * m
zero_times m = omega arith

module _ {A : Type 0} where
  take-none : (m : ℕ) → take {A = A} m [] ≡ []
  take-none zero = refl
  take-none (suc m) = refl

  take-split : (n m : ℕ) (xs : List A) → take n xs ++ take m (drop n xs) ≡ take (n + m) xs
  take-split zero m xs = ap (λ k. take k xs) (zero_plus m)
  take-split (suc n) m [] = take-none m ∙ sym (take-none (suc n + m))
  take-split (suc n) m (x ∷ xs) =
      ap (λ l. x ∷ l) (take-split n m xs) ∙ ap (λ k. take k (x ∷ xs)) (suc_plus n m)

  take_all : (n : ℕ) (xs : List A) → length xs ≤ n → take n xs ≡ xs
  take_all zero [] h = refl
  take_all zero (x ∷ xs) h = absurd (omega arith)
  take_all (suc n) [] h = refl
  take_all (suc n) (x ∷ xs) h = ap (λ l. x ∷ l) (take_all n xs (omega arith))

  length-take_le : (n : ℕ) (xs : List A) → length (take n xs) ≤ n
  length-take_le zero xs = omega arith
  length-take_le (suc n) [] = omega arith
  length-take_le (suc n) (x ∷ xs) = let h = length-take_le n xs in omega arith

  -- The first `n` pages.
  abbrev pub pages : List A → ℕ → ℕ → List A
  pages items size zero = []
  pages items size (suc n) = pages items size n ++ (paginate_query items (suc n) size).0

  pages-take : (items : List A) (size n : ℕ) → pages items size n ≡ take (n * size) items
  unfolding paginate_query
  pages-take items size zero = ap (λ k. take k items) (zero_times size)
  pages-take items size (suc n) =
      ap (λ k. pages items size n ++ take size (drop (k * size) items)) (suc_less n)
      ∙ ap (λ l. l ++ take size (drop (n * size) items)) (pages-take items size n)
      ∙ take-split (n * size) size items
      ∙ ap (λ k. take k items) (sym (suc-mul n size))

  -- With room for an item on a page: the pages, from the first to the last that `total_pages` counts,
  -- are together the whole listing, in its order; no page is longer than `size`; and there is no page
  -- more than the items need.
  pub pages_cover :
      (items : List A) (size page : ℕ)
      → 0 < size
      → (pages items size (total_pages (paginate_query items page size).1 size) ≡ items)
        × (length (paginate_query items page size).0 ≤ size)
        × (total_pages (length items) size * size < length items + size)
  unfolding paginate_query total_pages
  pages_cover items size page room =
      let count = length items + (size - 1) in
      let enough : count < count / size * size + size = lt-div-mul-add room in
      let needed : count / size * size ≤ count = div-mul-le_self count size in
      let sized = not_zero size room in
      (
        ap (λ b. pages items size (if b then 0 else count / size)) sized
            ∙ pages-take items size (count / size)
            ∙ take_all (count / size * size) items (omega arith),
        length-take_le size (drop ((page - 1) * size) items),
        subst (λ b. (if b then 0 else count / size) * size < length items + size) (sym sized)
            (omega arith),
      )
    where
      not_zero : (n : ℕ) → 0 < n → (n == 0) ≡ false
      not_zero n h = ground arith
