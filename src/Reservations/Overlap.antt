-- ===== src/Reservations/Overlap.antt =====
-- What it means that two reservations collide, apart from the test that the query makes.
use reservation_tool.Base.{ℕ, ◌≤◌, ◌<◌, ◌≡◌, ◌↔◌, true, false, none, List, arith, ltb, Pairwise}
use reservation_tool.Core.Status.{is_active}
use reservation_tool.Db.Rows.{Reservation}
use reservation_tool.Reservations.{overlaps}

-- The windows [from, until) and [from', until') share an instant.
abbrev pub Meets : ℕ → ℕ → ℕ → ℕ → Type 0
Meets from until from' until' = (t : ℕ) × (from ≤ t) × (t < until) × (from' ≤ t) × (t < until')

-- Two ACTIVE reservations hold one setup at one instant.
abbrev pub Collides : Reservation → Reservation → Type 0
Collides a b =
    (is_active a.status ≡ true)
    × (is_active b.status ≡ true)
    × (a.setup_id ≡ b.setup_id)
    × Meets a.reserved_from a.reserved_until b.reserved_from b.reserved_until

-- No two ACTIVE reservations of the table collide.
abbrev pub IsExclusive : List Reservation → Type 0
IsExclusive rows = Pairwise (λ a b. ¬ Collides a b) rows

abbrev later : ℕ → ℕ → ℕ
later a b = elim (ltb a b) [ true ↦ b | false ↦ a ]

-- For windows that are not empty, the query finds exactly the ACTIVE reservations of the setup
-- that share an instant with the window.
pub overlaps_iff :
    (setup from until : ℕ) (r : Reservation)
    → from < until
    → r.reserved_from < r.reserved_until
    → (overlaps setup from until none r ≡ true) ↔ (
        (r.setup_id ≡ setup)
        × (is_active r.status ≡ true)
        × Meets r.reserved_from r.reserved_until from until)
overlaps_iff setup from until r w v = (
  λ h. (
    ground arith,
    ground arith,
    (later r.reserved_from from, ground arith, ground arith, ground arith, ground arith),
  ),
  λ h. ground arith,
)

-- Soundness needs no validity of the windows.
pub overlaps_complete :
    (setup from until : ℕ) (r : Reservation)
    → overlaps setup from until none r ≡ false
    → r.setup_id ≡ setup
    → is_active r.status ≡ true
    → ¬ Meets r.reserved_from r.reserved_until from until
overlaps_complete setup from until r h e a m = ground arith
