-- ===== src/Announcements.antt =====
-- app/services/announcement_service.py over app/repositories/sqlalchemy/announcement_repository.py. The
-- requests are those of app/schemas/announcement.py, as validated; a message is not kept.
pub mod Sweep
mod Tests
use reservation_tool.Base.{
  ℕ, ◌==◌, Bool, true, false, not, ◌&&◌, ◌||◌, Option, none, some, List, [], ◌∷◌, find, select,
  modify, length, ltb, leb, Text, if◌then◌else◌,
}
use reservation_tool.Core.Status.{AuditAction, EntityType, Priority}
use reservation_tool.Core.Errors.{AppError, Result, ok, err, ◌>>=◌, ◌>>◌, raise_if, or_raise}
use reservation_tool.Core.Settings.{Env}
use reservation_tool.Db.Rows.{User, Announcement, Db}
use reservation_tool.Db.Transaction.{Action, checked}
use reservation_tool.Notifications.{record_audit, max_title, new_announcement, store_announcement}
use reservation_tool.Paging.{paginate_query}

pub record AnnouncementCreateRequest : Type 0 where
  pub title : Text
  pub priority : Priority
  pub start_date : ℕ
  pub end_date : Option ℕ

-- `exclude_unset`: a field that is not sent, one that is sent as null, or a value.
abbrev pub Sent : Type 0 → Type 0
Sent A = Option (Option A)

pub record AnnouncementUpdateRequest : Type 0 where
  pub title : Sent Text
  pub message : Sent Text
  pub priority : Sent Priority
  pub is_active : Sent Bool
  pub start_date : Sent ℕ
  pub end_date : Sent ℕ

pub record AnnouncementFilter : Type 0 where
  pub active_only : Bool
  pub priority : Option Priority

abbrev pub get_announcement : ℕ → List Announcement → Option Announcement
get_announcement key = find (λ a. a.id == key)

-- `create`
unfoldable pub create : Env → AnnouncementCreateRequest → User → Action Announcement
unfolding store_announcement
create env p actor db =
    let row =
      new_announcement env p.title p.priority p.start_date p.end_date actor.id
        db.journal.announcements in
    (ok row, record db { journal = store_announcement row actor.id db.journal })

-- A null for a column that takes none: the UPDATE is refused by the database.
abbrev pub is_null {ℓ} : {A : Type ℓ} → Option (Option A) → Bool
is_null none = false
is_null (some none) = true
is_null (some (some _)) = false

-- `setattr(announcement, field_name, field_value)`, where the field was sent
abbrev pub sent_or {ℓ} : {A : Type ℓ} → Option (Option A) → A → A
sent_or (some (some v)) old = v
sent_or _ old = old

abbrev pub edited : AnnouncementUpdateRequest → Announcement → Announcement
edited p a = record a {
  title = sent_or p.title a.title;
  priority = sent_or p.priority a.priority;
  is_active = sent_or p.is_active a.is_active;
  start_date = sent_or p.start_date a.start_date;
  end_date = elim p.end_date [ none ↦ a.end_date | some e ↦ e ];
}

unfoldable pub update_checks : ℕ → AnnouncementUpdateRequest → Db → Result Announcement
update_checks key p db = do
  a ← or_raise (get_announcement key db.journal.announcements) AppError.not_found
  raise_if
      (is_null p.title
        || is_null p.message
        || is_null p.priority
        || is_null p.is_active
        || is_null p.start_date)
      AppError.internal
  ok a

unfoldable pub store_update :
    ℕ → AnnouncementUpdateRequest → User → Announcement → Action Announcement
store_update key p actor a db = (
  ok (edited p a),
  record db {
    journal =
        record_audit (some actor.id) AuditAction.update EntityType.announcement (some key)
          (record db.journal {
            announcements = modify (λ x. x.id == key) (edited p) db.journal.announcements;
          });
  },
)

-- `update`
unfoldable pub update : ℕ → AnnouncementUpdateRequest → User → Action Announcement
unfolding update_checks store_update
update key p actor db = checked (update_checks key p db) (store_update key p actor) db

unfoldable pub store_deleted : ℕ → User → Announcement → Action (Unit {0})
store_deleted key actor _ db = (
  ok tt,
  record db {
    journal =
        record_audit (some actor.id) AuditAction.delete EntityType.announcement (some key)
          (record db.journal {
            announcements = select (λ x. not (x.id == key)) db.journal.announcements;
          });
  },
)

-- `delete`
unfoldable pub delete : ℕ → User → Action (Unit {0})
unfolding store_deleted
delete key actor db =
    checked (or_raise (get_announcement key db.journal.announcements) AppError.not_found)
      (store_deleted key actor) db

-- `_PRIORITY_RANK`
abbrev pub rank : Priority → ℕ
rank Priority.critical = 4
rank Priority.high = 3
rank Priority.normal = 2
rank Priority.low = 1

-- `Announcement.priority == filters.priority`, where one is given
abbrev pub of_priority : Option Priority → Announcement → Bool
of_priority none a = true
of_priority (some p) a = rank a.priority == rank p

-- `or_(end_date.is_(None), end_date >= as_of)`
abbrev pub not_over : ℕ → Option ℕ → Bool
not_over now none = true
not_over now (some e) = leb now e

-- The filter of `active_only`.
abbrev pub is_shown : ℕ → Announcement → Bool
is_shown now a = a.is_active && leb a.start_date now && not_over now a.end_date

-- `order_by(_PRIORITY_RANK.desc(), created_at.desc())`
abbrev pub comes_first : Announcement → Announcement → Bool
comes_first a b =
    ltb (rank b.priority) (rank a.priority)
    || rank a.priority == rank b.priority && leb b.created_at a.created_at

abbrev pub insert_announcement : Announcement → List Announcement → List Announcement
insert_announcement a [] = a ∷ []
insert_announcement a (b ∷ bs) =
    let rest = insert_announcement a bs in if comes_first a b then a ∷ b ∷ bs else b ∷ rest

abbrev pub arranged : List Announcement → List Announcement
arranged [] = []
arranged (a ∷ as_) = insert_announcement a (arranged as_)

abbrev pub matches : AnnouncementFilter → ℕ → Announcement → Bool
matches f now a = of_priority f.priority a && (not f.active_only || is_shown now a)

-- `list`, for the time `now`
unfoldable pub list_announcements : AnnouncementFilter → ℕ → ℕ → ℕ → Db → List Announcement × ℕ
unfolding paginate_query
list_announcements f now page size db =
    paginate_query (arranged (select (matches f now) db.journal.announcements)) page size

-- `end_date.isnot(None), end_date < as_of`
abbrev pub is_over : ℕ → Option ℕ → Bool
is_over now none = false
is_over now (some e) = ltb e now

-- `list_expired_active`
abbrev pub is_expired : ℕ → Announcement → Bool
is_expired now a = a.is_active && is_over now a.end_date

abbrev pub hidden : Announcement → Announcement
hidden a = record a { is_active = false }

-- `sweep_expired`
unfoldable pub sweep_expired : ℕ → Action ℕ
sweep_expired as_of db = (
  ok (length (select (is_expired as_of) db.journal.announcements)),
  record db {
    journal = record db.journal {
      announcements = modify (is_expired as_of) hidden db.journal.announcements;
    };
  },
)
