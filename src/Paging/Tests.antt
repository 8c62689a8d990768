-- ===== src/Paging/Tests.antt =====
-- Five items, two on a page.
use reservation_tool.Base.{ℕ, ◌+◌, ◌*◌, ◌≤◌, ◌<◌, ◌≡◌, List, [], ◌∷◌, length, arith}
use reservation_tool.Paging.{paginate_query, total_pages}
use reservation_tool.Paging.Cover.{pages, pages_cover}

abbrev items : List ℕ
items = 1 ∷ 2 ∷ 3 ∷ 4 ∷ 5 ∷ []

pages_cover_example :
    (pages items 2 (total_pages (paginate_query items 3 2).1 2) ≡ items)
    × (length (paginate_query items 3 2).0 ≤ 2)
    × (total_pages (length items) 2 * 2 < length items + 2)
pages_cover_example = pages_cover items 2 3 (omega arith)
