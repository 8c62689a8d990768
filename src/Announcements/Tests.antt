-- ===== src/Announcements/Tests.antt =====
-- One announcement that is over and one without an end, swept at 100 and listed at 150.
use reservation_tool.Base.{
  ◌≡◌, true, false, none, some, [], ◌∷◌, length, select, refl, All, arith, text,
}
use reservation_tool.Core.Status.{Priority}
use reservation_tool.Core.Errors.{ok}
use reservation_tool.Db.Rows.{Announcement, Db}
use reservation_tool.Samples.{db}
use reservation_tool.Announcements.{
  AnnouncementFilter, is_expired, list_announcements, sweep_expired,
}
use reservation_tool.Announcements.Sweep.{sweep_unseen}

abbrev over : Announcement
over = record {
  id = 1;
  title = text "a";
  created_by_id = 4;
  priority = Priority.critical;
  start_date = 10;
  end_date = some 90;
  is_active = true;
  created_at = 10;
}

abbrev posted : Db
posted = record db {
  journal = record db.journal {
    announcements = over ∷ record over { id = 2; end_date = none } ∷ [];
  };
}

abbrev active : AnnouncementFilter
active = record { active_only = true; priority = none }

sweep_unseen_example :
    ((sweep_expired 100 posted).0
      ≡ ok (length (select (is_expired 100) posted.journal.announcements)))
    × All (λ a. is_expired 100 a ≡ false) (sweep_expired 100 posted).1.journal.announcements
    × (list_announcements active 150 1 20 (sweep_expired 100 posted).1
        ≡ list_announcements active 150 1 20 posted)
sweep_unseen_example = sweep_unseen active 100 150 1 20 posted (omega arith) refl
