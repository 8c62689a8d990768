-- ===== src/Paging.antt =====
-- app/utils/pagination.py: the pages of a listing.
pub mod Cover
mod Tests
use Prim.Native.Nat.{◌/◌}
use reservation_tool.Base.{ℕ, zero, suc, ◌+◌, ◌-◌, ◌*◌, List, [], ◌∷◌, length, ◌==◌, if◌then◌else◌}

-- `query.limit(n)` and `query.offset(n)`
abbrev pub take {ℓ} : {A : Type ℓ} → ℕ → List A → List A
take zero xs = []
take (suc n) [] = []
take (suc n) (x ∷ xs) = x ∷ take n xs

abbrev pub drop {ℓ} : {A : Type ℓ} → ℕ → List A → List A
drop zero xs = xs
drop (suc n) [] = []
drop (suc n) (x ∷ xs) = drop n xs

-- `paginate_query`: the items of a page, counted from 1, and the number of all items.
unfoldable pub paginate_query {ℓ} : {A : Type ℓ} → List A → ℕ → ℕ → List A × ℕ
paginate_query items page size = (take size (drop ((page - 1) * size) items), length items)

-- `total_pages`, with `math.ceil` of the quotient
unfoldable pub total_pages : ℕ → ℕ → ℕ
total_pages total size = if size == 0 then 0 else (total + (size - 1)) / size
