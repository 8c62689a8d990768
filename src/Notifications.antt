-- ===== src/Notifications.antt =====
-- app/services/audit_service.py, notification_service.py, email_service.py and the creation of an
-- announcement in announcement_service.py. Each appends to the journal. Of a text only the title
-- of an announcement is kept, since its length decides whether the announcement is accepted; the
-- delivery of a mail is taken to succeed.
pub mod Laws
use reservation_tool.Base.{
  ℕ, ◌+◌, ◌*◌, Bool, true, false, Option, none, some, List, [], ◌∷◌, ◌++◌, map, Text, String, text,
  is_empty, length, ltb, ◌=?◌, ◌||◌, ◌&&◌, not, select, text_in, if◌then◌else◌,
}
use reservation_tool.Core.Roles.{RoleName, role_in}
use reservation_tool.Core.Status.{
  AuditAction, EntityType, Channel, Priority, UserStatus, user_approved,
}
use reservation_tool.Core.Errors.{AppError, Result, ok, err}
use reservation_tool.Core.Settings.{Env}
use reservation_tool.Db.Rows.{User, Setup, Reservation, Announcement, AuditLog, Journal, Role}

-- `AuditService.record`; the snapshots of old and new values are not kept.
unfoldable pub record_audit : Option ℕ → AuditAction → EntityType → Option ℕ → Journal → Journal
record_audit user action entity id j = record j {
  audit_logs =
      j.audit_logs
      ++ record { user_id = user; action = action; entity_type = entity; entity_id = id } ∷ [];
}

-- `EmailService.send_email`: blank addresses are dropped, and with none left nothing is sent.
unfoldable pub send_email : List Text → Journal → Journal
send_email to j =
    let recipients = select (λ a. not (is_empty a)) to in
    elim recipients [ [] ↦ j | a ∷ rest ↦ record j { outbox = j.outbox ++ (a ∷ rest) ∷ [] } ]

-- `timedelta(days=7)`
abbrev pub week : ℕ
week = 604800000000

-- The bound on `title` in `AnnouncementCreateRequest`.
abbrev pub max_title : ℕ
max_title = 200

abbrev announcement_ids : List Announcement → List ℕ
announcement_ids = map (λ a. a.id)

-- A new row; `created_at` is the time of the server.
abbrev pub new_announcement :
    Env → Text → Priority → ℕ → Option ℕ → ℕ → List Announcement → Announcement
new_announcement env title priority from until actor rows = record {
  id = env.fresh_id (announcement_ids rows);
  title = title;
  created_by_id = actor;
  priority = priority;
  start_date = from;
  end_date = until;
  is_active = true;
  created_at = env.now;
}

unfoldable pub store_announcement : Announcement → ℕ → Journal → Journal
unfolding record_audit
store_announcement row actor j =
    record_audit (some actor) AuditAction.create EntityType.announcement (some row.id)
      (record j { announcements = j.announcements ++ row ∷ [] })

-- `AnnouncementService.create` as the notifications call it, for a week, over the validation of its
-- request: a title that is too long is refused by the schema, an exception that no handler of the
-- services catches.
unfoldable pub create_announcement :
    Env → Text → Priority → ℕ → Journal → Result (Unit {0}) × Journal
unfolding store_announcement
create_announcement env title priority actor j =
    let row =
      new_announcement env title priority env.now (some (env.now + week)) actor j.announcements in
    if ltb max_title (length title)
    then (err AppError.internal, j)
    else (ok tt, store_announcement row actor j)

abbrev role_name_in : List RoleName → Option Role → Bool
role_name_in names none = false
role_name_in names (some r) = role_in names r.name

-- `_LEAD_ROLE_NAMES`
abbrev lead_role_names : List RoleName
lead_role_names = RoleName.lead ∷ RoleName.manager ∷ RoleName.owner ∷ []

-- The approved users of a group, as `UserRepository.list` filters them.
abbrev approved_members : ℕ → List User → List User
approved_members g users = select (λ u. u.group_id =? g && user_approved u.status) users

abbrev emails : List User → List Text
emails = map (λ u. u.email)

-- The accounts listed for mails are taken to fit the one page of 1000, and each to have a role.
unfoldable pub group_lead_emails : Option ℕ → List User → List Text
group_lead_emails none users = []
group_lead_emails (some g) users =
    emails (select (λ u. role_name_in lead_role_names u.role) (approved_members g users))

unfoldable pub group_member_emails : Option ℕ → List User → List Text
group_member_emails none users = []
group_member_emails (some g) users = emails (approved_members g users)

unfoldable pub all_active_user_emails : List User → List Text
all_active_user_emails users =
    emails (select (λ u. u.is_active) (select (λ u. user_approved u.status) users))

abbrev pub channel_eq : Channel → Channel → Bool
channel_eq Channel.wall Channel.wall = true
channel_eq Channel.mail_leads Channel.mail_leads = true
channel_eq Channel.mail_group Channel.mail_group = true
channel_eq Channel.mail_all Channel.mail_all = true
channel_eq _ _ = false

-- `channel in channels`
abbrev pub channel_in : Channel → List Channel → Bool
channel_in c [] = false
channel_in c (d ∷ ds) = channel_eq c d || channel_in c ds

-- The mails of the channels that were asked for.
unfoldable pub broadcast_mails : List Channel → Setup → List User → Journal → Journal
unfolding send_email group_lead_emails group_member_emails all_active_user_emails
broadcast_mails channels setup users j =
    let j1 =
      if channel_in Channel.mail_leads channels
      then send_email (group_lead_emails setup.group_id users) j
      else j in
    let j2 =
      if channel_in Channel.mail_group channels
      then send_email (group_member_emails setup.group_id users) j1
      else j1 in
    if channel_in Channel.mail_all channels
    then send_email (all_active_user_emails users) j2
    else j2

-- The title of a broadcast.
abbrev update_title : Setup → Text
update_title setup = text "Reservation update: " ++ setup.hostname

-- `broadcast_reservation_event`
unfoldable pub broadcast_reservation_event :
    Env → List Channel → Setup → User → List User → Journal → Result (Unit {0}) × Journal
unfolding create_announcement broadcast_mails
broadcast_reservation_event env [] setup actor users j = (ok tt, j)
broadcast_reservation_event env (c ∷ cs) setup actor users j =
    let (posted, j') =
      if channel_in Channel.wall (c ∷ cs)
      then create_announcement env (update_title setup) Priority.normal actor.id j
      else (ok tt, j) in
    elim posted [ ok _ ↦ (ok tt, broadcast_mails (c ∷ cs) setup users j') | err e ↦ (err e, j') ]

-- `email_direct`
unfoldable pub email_direct : List Text → Journal → Journal
unfolding send_email
email_direct recipients j = send_email recipients j

-- The address of an optional user, where it is not blank.
abbrev address : Option User → List Text
address none = []
address (some u) = if is_empty u.email then [] else u.email ∷ []

-- `setup.owner or reserving_user`
abbrev either_user : Option User → Option User → Option User
either_user none u = u
either_user (some o) u = some o

-- The owner's address, then the reserving user's unless it is the same.
abbrev expiry_recipients : Option User → Option User → List Text
expiry_recipients owner user =
    let first = address owner in first ++ select (λ a. not (text_in first a)) (address user)

abbrev expired_title : Setup → Text
expired_title setup = text "Reservation expired: " ++ setup.hostname

-- `notify_reservation_expired`
unfoldable pub notify_reservation_expired :
    Env → Option User → Option User → Setup → Journal → Result (Unit {0}) × Journal
unfolding create_announcement send_email
notify_reservation_expired env owner user setup j =
    let (posted, j') : Result (Unit {0}) × Journal = elim (either_user owner user) [
      | none ↦ (ok tt, j)
      | some actor ↦ create_announcement env (expired_title setup) Priority.critical actor.id j
    ] in
    elim posted [
      | ok _ ↦ (ok tt, send_email (expiry_recipients owner user) j')
      | err e ↦ (err e, j')
    ]
