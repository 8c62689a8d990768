-- ===== src/Announcements/Sweep.antt =====
-- The sweep of expired announcements.
use reservation_tool.Base.{
  ℕ, ◌≤◌, ◌≡◌, refl, ap, Bool, true, false, Option, none, some, List, [], ◌∷◌, arith, All, select,
  modify, length,
}
use reservation_tool.Core.Errors.{ok}
use reservation_tool.Db.Rows.{Announcement, Db}
use reservation_tool.Paging.{paginate_query}
use reservation_tool.Announcements.{
  AnnouncementFilter, matches, not_over, is_over, is_expired, hidden, arranged, list_announcements,
  sweep_expired,
}

-- Rows that are not selected, neither before nor after a write to them.
select-modify :
    {A : Type 0} (p q : A → Bool) (f : A → A)
    → ((a : A) → q a ≡ true → (p a ≡ false) × (p (f a) ≡ false))
    → (rows : List A) → select p (modify q f rows) ≡ select p rows
select-modify p q f apart [] = refl
select-modify p q f apart (a ∷ rows) = ground (arith, apart a, select-modify p q f apart rows)

-- What is over is shown at no later time.
over_hidden :
    (as_of now : ℕ) (until : Option ℕ)
    → as_of ≤ now
    → is_over as_of until ≡ true
    → not_over now until ≡ false
over_hidden as_of now none h e = absurd (cc)
over_hidden as_of now (some t) h e = ground arith

hidden_rows :
    (f : AnnouncementFilter) (as_of now : ℕ)
    → as_of ≤ now
    → f.active_only ≡ true
    → (a : Announcement) → is_expired as_of a ≡ true
    → (matches f now a ≡ false) × (matches f now (hidden a) ≡ false)
hidden_rows f as_of now h only a e = ground (arith, over_hidden as_of now a.end_date h)

swept :
    (as_of : ℕ) (rows : List Announcement)
    → All (λ a. is_expired as_of a ≡ false) (modify (is_expired as_of) hidden rows)
swept as_of [] = tt
swept as_of (a ∷ rows) = (ground arith, swept as_of rows)

-- The sweep counts the active announcements whose end has passed, leaves none of them active, and is not
-- seen: at that time and at any later one, every page of the active announcements, with the total, is
-- the same as it would be without the sweep.
pub sweep_unseen :
    (f : AnnouncementFilter) (as_of now page size : ℕ) (db : Db)
    → as_of ≤ now
    → f.active_only ≡ true
    → ((sweep_expired as_of db).0
        ≡ ok (length (select (is_expired as_of) db.journal.announcements)))
      × All (λ a. is_expired as_of a ≡ false) (sweep_expired as_of db).1.journal.announcements
      × (list_announcements f now page size (sweep_expired as_of db).1
          ≡ list_announcements f now page size db)
unfolding sweep_expired list_announcements
sweep_unseen f as_of now page size db h only = (
  refl,
  swept as_of db.journal.announcements,
  ap (λ rows. paginate_query (arranged rows) page size)
      (select-modify (matches f now) (is_expired as_of) hidden (hidden_rows f as_of now h only)
        db.journal.announcements),
)
