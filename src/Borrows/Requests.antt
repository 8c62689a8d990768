-- ===== src/Borrows/Requests.antt =====
-- The request of a borrow, its expiry, its decision and its withdrawal.
use reservation_tool.Base.{
  ℕ, ◌==◌, Bool, false, not, ◌&&◌, Option, none, some, List, [], ◌∷◌, ◌++◌, map, select, modify,
  contains, ltb, leb, is_some, is_empty, Text, insert_text, if◌then◌else◌,
}
use reservation_tool.Core.Status.{
  AuditAction, EntityType, Channel, BorrowStatus, is_blocked, borrow_pending, user_approved,
}
use reservation_tool.Core.Errors.{AppError, Result, ok, ◌>>=◌, ◌>>◌, raise_if, or_raise}
use reservation_tool.Core.Settings.{Env}
use reservation_tool.Db.Rows.{User, Setup, BorrowRequest, Journal, Db}
use reservation_tool.Db.Transaction.{Action, checked}
use reservation_tool.Notifications.{
  record_audit, email_direct, broadcast_reservation_event, channel_eq,
}
use reservation_tool.Setups.Table.{get_setup}
use reservation_tool.Users.{get_user}
use reservation_tool.Borrows.Access.{
  requester_roles, lead_roles, has_role, truthy, group_ids, get_open_for_setup,
  get_active_grant_for_setup, routed_approvers, other_than, validate_field,
}

-- The payload that the endpoint has validated; the texts of the message and the reason are not kept.
pub record BorrowCreateRequest : Type 0 where
  pub source_lead_id : ℕ
  pub setup_id : ℕ
  pub hardware_field_name : Option Text
  pub start_time : Option ℕ
  pub end_time : Option ℕ
  pub announcement_channels : List Channel

-- The UPDATE that a flush emits for a changed row: the changed columns, by the primary key.
abbrev pub update_borrow :
    ℕ → (BorrowRequest → BorrowRequest) → List BorrowRequest → List BorrowRequest
update_borrow key = modify (λ r. r.id == key)

abbrev pub with_status : BorrowStatus → BorrowRequest → BorrowRequest
with_status status b = record b { status = status }

-- `sorted({r for r in recipients if r})`
abbrev pub sorted_unique : List Text → List Text
sorted_unique [] = []
sorted_unique (t ∷ ts) = if is_empty t then sorted_unique ts else insert_text t (sorted_unique ts)

-- The direct mail of `_notify`.
abbrev mail_unique : List Text → Journal → Journal
mail_unique [] j = j
mail_unique (t ∷ ts) j = email_direct (t ∷ ts) j

-- `_notify`
unfoldable pub notify :
    Env
    → List Text
    → List Channel
    → Setup
    → User
    → List User
    → Journal
    → Result (Unit {0}) × Journal
notify env recipients channels setup actor users j =
    if env.has_notification
    then broadcast_reservation_event env
        (select (λ c. not (channel_eq c Channel.mail_leads)) channels) setup actor users
        (mail_unique (sorted_unique recipients) j)
    else (ok tt, j)

-- The query of `list_stale_pending`.
abbrev pub is_stale : ℕ → BorrowRequest → Bool
is_stale now b =
    borrow_pending b.status && elim b.end_time [ none ↦ false | some end ↦ ltb end now ]

-- The body of the loop of `expire_stale_pending`.
abbrev pub expire_one : BorrowRequest → Db → Db
expire_one b db = record db {
  borrows = update_borrow b.id (with_status BorrowStatus.expired) db.borrows;
  journal = record_audit none AuditAction.update EntityType.borrow_request (some b.id) db.journal;
}

unfoldable pub expire_all : List BorrowRequest → Db → Db
expire_all [] db = db
expire_all (b ∷ bs) db = expire_all bs (expire_one b db)

-- `expire_stale_pending`
unfoldable pub expire_stale_pending : Env → Db → Db
unfolding expire_all
expire_stale_pending env db = expire_all (select (is_stale env.now) db.borrows) db

-- What `create` has looked up when its guards are passed: the setup, the group it belongs to and
-- the group that borrows it.
pub record Parties : Type 0 where
  pub setup : Setup
  pub source : ℕ
  pub target : ℕ

-- `source_lead.status != APPROVED or not is_active or not role or role.name not in _LEAD_ROLES`
abbrev pub is_lead_user : User → Bool
is_lead_user u = user_approved u.status && u.is_active && has_role lead_roles u

-- The guards of `create`, in their order.
unfoldable pub create_checks : Env → BorrowCreateRequest → User → Db → Result Parties
unfolding validate_field
create_checks env p actor db = do
  raise_if (not (has_role requester_roles actor)) AppError.authorization
  target ← or_raise (truthy actor.group_id) AppError.validation
  raise_if (elim p.end_time [ none ↦ false | some end ↦ leb end env.now ]) AppError.validation
  lead ← or_raise (get_user p.source_lead_id db.users) AppError.not_found
  raise_if (not (is_lead_user lead)) AppError.validation
  setup ← or_raise (get_setup p.setup_id db.setups) AppError.not_found
  raise_if (is_blocked setup.status) AppError.conflict
  source ← or_raise setup.group_id AppError.validation
  raise_if (not (contains (group_ids lead) source)) AppError.validation
  raise_if (source == target) AppError.conflict
  raise_if (is_some (get_active_grant_for_setup setup.id db.grants)) AppError.conflict
  raise_if (is_some (get_open_for_setup setup.id db.borrows)) AppError.conflict
  validate_field env db setup p.hardware_field_name
  ok (record { setup = setup; source = source; target = target })

-- The addresses of the routed approvers but the requester.
abbrev pub routed_emails : Env → Db → ℕ → User → List Text
routed_emails env db source actor =
    select (λ a. not (is_empty a))
      (map (λ u. u.email) (other_than actor.id (routed_approvers env db source)))

abbrev pub new_borrow : Env → BorrowCreateRequest → User → Parties → Db → BorrowRequest
new_borrow env p actor q db = record {
  id = env.fresh_id (map (λ b. b.id) db.borrows);
  requester_id = actor.id;
  source_group_id = q.source;
  target_group_id = q.target;
  setup_id = q.setup.id;
  hardware_field_name = p.hardware_field_name;
  start_time = p.start_time;
  end_time = p.end_time;
  announcement_channels = p.announcement_channels;
  status = BorrowStatus.pending;
  routed_approver_emails = routed_emails env db q.source actor;
  approved_by_id = none;
  returned_at = none;
  returned_by_id = none;
}

-- The writes of `create`.
unfoldable pub store_borrow : Env → BorrowCreateRequest → User → Parties → Action BorrowRequest
unfolding notify
store_borrow env p actor q db =
    let row = new_borrow env p actor q db in
    let j =
      record_audit (some actor.id) AuditAction.create EntityType.borrow_request (some row.id)
        db.journal in
    let (posted, j') =
      notify env row.routed_approver_emails p.announcement_channels q.setup actor db.users j in
    (posted >> ok row, record db { borrows = db.borrows ++ row ∷ []; journal = j' })

-- `create`
unfoldable pub create : Env → BorrowCreateRequest → User → Action BorrowRequest
unfolding create_checks store_borrow
create env p actor db = checked (create_checks env p actor db) (store_borrow env p actor) db
