-- ===== src/Notifications/Laws.antt =====
-- When a notification is accepted: it depends on the length of the hostname in its title.
use reservation_tool.Base.{
  ℕ, ◌≤◌, ◌<◌, ◌≡◌, refl, Option, none, some, Text, List, [], ◌∷◌, ◌++◌, length, arith, text,
}
use reservation_tool.Core.Status.{Channel, Priority}
use reservation_tool.Core.Errors.{AppError, ok, err}
use reservation_tool.Core.Settings.{Env}
use reservation_tool.Db.Rows.{User, Setup, Journal}
use reservation_tool.Notifications.{
  create_announcement, broadcast_reservation_event, notify_reservation_expired, expired_title,
}

create_announcement_ok :
    (env : Env) (title : Text) (p : Priority) (actor : ℕ) (j : Journal)
    → length title ≤ 200
    → (create_announcement env title p actor j).0 ≡ ok tt
unfolding create_announcement
create_announcement_ok env title p actor j h = ground arith

create_announcement_fails :
    (env : Env) (title : Text) (p : Priority) (actor : ℕ) (j : Journal)
    → 200 < length title
    → (create_announcement env title p actor j).0 ≡ err AppError.internal
unfolding create_announcement
create_announcement_fails env title p actor j h = ground arith

-- A broadcast about a setup whose hostname has at most 180 characters is accepted.
pub broadcast_ok :
    (env : Env) (cs : List Channel) (s : Setup) (actor : User) (users : List User) (j : Journal)
    → length s.hostname ≤ 180
    → (broadcast_reservation_event env cs s actor users j).0 ≡ ok tt
unfolding broadcast_reservation_event
broadcast_ok env [] s actor users j h = refl
broadcast_ok env (c ∷ cs) s actor users j h = ground (
  arith,
  create_announcement_ok env (text "Reservation update: " ++ s.hostname) Priority.normal actor.id j,
)

pub notify_expired_ok :
    (env : Env) (owner user : Option User) (s : Setup) (j : Journal)
    → length s.hostname ≤ 179
    → (notify_reservation_expired env owner user s j).0 ≡ ok tt
unfolding notify_reservation_expired
notify_expired_ok env none none s j h = refl
notify_expired_ok env none (some u) s j h =
    ground (arith, create_announcement_ok env (expired_title s) Priority.critical u.id j)
notify_expired_ok env (some o) user s j h =
    ground (arith, create_announcement_ok env (expired_title s) Priority.critical o.id j)

-- With a longer hostname the announcement of an expiry is refused, and so is the notification.
pub notify_expired_fails :
    (env : Env) (owner : Option User) (user : User) (s : Setup) (j : Journal)
    → 179 < length s.hostname
    → (notify_reservation_expired env owner (some user) s j).0 ≡ err AppError.internal
unfolding notify_reservation_expired
notify_expired_fails env none user s j h =
    ground (arith, create_announcement_fails env (expired_title s) Priority.critical user.id j)
notify_expired_fails env (some o) user s j h =
    ground (arith, create_announcement_fails env (expired_title s) Priority.critical o.id j)

create_announcement_raises :
    (env : Env) (title : Text) (p : Priority) (actor : ℕ) (j : Journal) (e : AppError)
    → (create_announcement env title p actor j).0 ≡ err e
    → e ≡ AppError.internal
unfolding create_announcement
create_announcement_raises env title p actor j e h = ground arith

-- A refused title is the only exception of a notification.
pub notify_expired_raises :
    (env : Env) (owner user : Option User) (s : Setup) (j : Journal) (e : AppError)
    → (notify_reservation_expired env owner user s j).0 ≡ err e
    → e ≡ AppError.internal
unfolding notify_reservation_expired
notify_expired_raises env none none s j e h = absurd (cc)
notify_expired_raises env none (some u) s j e h =
    ground (arith, create_announcement_raises env (expired_title s) Priority.critical u.id j e)
notify_expired_raises env (some o) user s j e h =
    ground (arith, create_announcement_raises env (expired_title s) Priority.critical o.id j e)
