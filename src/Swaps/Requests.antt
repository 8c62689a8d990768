-- ===== src/Swaps/Requests.antt =====
-- The request of a swap, its rejection and its withdrawal.
use reservation_tool.Base.{
  ℕ, ◌==◌, not, ◌&&◌, ◌||◌, Option, none, some, List, [], ◌∷◌, ◌++◌, map, select, modify, Text,
  text_in, strip, is_empty, if◌then◌else◌,
}
use reservation_tool.Core.Status.{
  AuditAction, EntityType, Channel, SwapStatus, is_blocked, swap_pending,
}
use reservation_tool.Core.Errors.{AppError, Result, ok, ◌>>=◌, ◌>>◌, raise_if, or_raise}
use reservation_tool.Core.Settings.{Env}
use reservation_tool.Db.Rows.{User, Setup, SwapRequest, Journal, Db}
use reservation_tool.Db.Transaction.{Action, checked}
use reservation_tool.Notifications.{
  record_audit, email_direct, broadcast_reservation_event, channel_eq,
}
use reservation_tool.Setups.Table.{get_setup}
use reservation_tool.Swaps.Columns.{encode_columns}
use reservation_tool.Swaps.Access.{
  get_swap, get_setup_at, is_nil, assert_has_setup_access, common_swappable_columns,
  resolve_approver_emails, assert_can_approve,
}

-- The payload that the endpoint has validated; the text of the message is not kept.
pub record SwapCreateRequest : Type 0 where
  pub current_setup_id : ℕ
  pub requested_setup_id : ℕ
  pub column_name : Option Text
  pub column_names : Option (List Text)
  pub reason : Option Text
  pub start_time : Option ℕ
  pub end_time : Option ℕ
  pub announcement_channels : List Channel

-- `[self.column_name.strip()]` where it is not blank
abbrev pub single_name : Option Text → Option (List Text)
single_name none = none
single_name (some n) = if is_empty (strip n) then none else some (strip n ∷ [])

-- `resolved_column_names`
abbrev pub resolved_column_names : SwapCreateRequest → Option (List Text)
resolved_column_names p = elim p.column_names [
  | none ↦ single_name p.column_name
  | some names ↦ elim names [ [] ↦ single_name p.column_name | n ∷ ns ↦ some (n ∷ ns) ]
]

-- The columns of the request: all that are allowed, or those that are named, if each is allowed.
unfoldable pub resolve_columns : List Text → Option (List Text) → Result (List Text)
resolve_columns allowed none = raise_if (is_nil allowed) AppError.validation >> ok allowed
resolve_columns allowed (some names) =
    raise_if (not (is_nil (select (λ n. not (text_in allowed n)) names))) AppError.validation
    >> ok names

-- What `create` has looked up when its guards are passed.
pub record Sides : Type 0 where
  pub current : Setup
  pub requested : Setup
  pub columns : List Text

-- The guards of `create`, in their order.
unfoldable pub create_checks : Env → SwapCreateRequest → User → Db → Result Sides
unfolding assert_has_setup_access common_swappable_columns resolve_columns
create_checks env p actor db = do
  raise_if (p.requested_setup_id == p.current_setup_id) AppError.conflict
  current ← or_raise (get_setup p.current_setup_id db.setups) AppError.not_found
  requested ← or_raise (get_setup p.requested_setup_id db.setups) AppError.not_found
  raise_if (is_blocked current.status || is_blocked requested.status) AppError.conflict
  raise_if (env.same_product && not (current.product_id == requested.product_id))
      AppError.validation
  assert_has_setup_access db current actor
  assert_has_setup_access db requested actor
  columns ←
      resolve_columns (common_swappable_columns env db current requested) (resolved_column_names p)
  ok (record { current = current; requested = requested; columns = columns })

abbrev pub new_swap : Env → SwapCreateRequest → User → Sides → Db → SwapRequest
new_swap env p actor q db = record {
  id = env.fresh_id (map (λ s. s.id) db.swaps);
  requester_id = actor.id;
  current_setup_id = some q.current.id;
  requested_setup_id = some q.requested.id;
  column_name = encode_columns q.columns;
  previous_current_value = none;
  previous_requested_value = none;
  status = SwapStatus.pending;
  reason = p.reason;
  start_time = p.start_time;
  end_time = p.end_time;
  announcement_channels = p.announcement_channels;
  routed_approver_emails = resolve_approver_emails env db q.current.group_id;
  approved_by_id = none;
}

-- The mails and the posts of `create`.
unfoldable pub announce_swap :
    Env
    → List Text
    → List Channel
    → Setup
    → User
    → List User
    → Journal
    → Result (Unit {0}) × Journal
announce_swap env routed channels setup actor users j =
    if env.has_notification
    then broadcast_reservation_event env
        (select (λ c. not (channel_eq c Channel.mail_leads)) channels) setup actor users
        (email_direct routed j)
    else (ok tt, j)

-- The writes of `create`.
unfoldable pub store_swap : Env → SwapCreateRequest → User → Sides → Action SwapRequest
unfolding announce_swap resolve_approver_emails encode_columns
store_swap env p actor q db =
    let row = new_swap env p actor q db in
    let j =
      record_audit (some actor.id) AuditAction.create EntityType.swap_request (some row.id)
        db.journal in
    let (posted, j') =
      announce_swap env row.routed_approver_emails p.announcement_channels q.current actor db.users
        j in
    (posted >> ok row, record db { swaps = db.swaps ++ row ∷ []; journal = j' })

-- `create`
unfoldable pub create : Env → SwapCreateRequest → User → Action SwapRequest
unfolding create_checks store_swap
create env p actor db = checked (create_checks env p actor db) (store_swap env p actor) db

-- The UPDATE that a flush emits for a changed row.
abbrev pub update_swap : ℕ → (SwapRequest → SwapRequest) → List SwapRequest → List SwapRequest
update_swap key = modify (λ s. s.id == key)

abbrev pub pending_swap : ℕ → Db → Result SwapRequest
pending_swap key db = do
  s ← or_raise (get_swap key db.swaps) AppError.not_found
  raise_if (not (swap_pending s.status)) AppError.conflict
  ok s

-- `if payload.reason: swap.reason = payload.reason`
abbrev pub new_reason : Option Text → Option Text → Option Text
new_reason none old = old
new_reason (some r) old = if is_empty r then old else some r

-- The decision, as the row keeps it.
abbrev pub decided : SwapStatus → Option Text → User → SwapRequest → SwapRequest
decided status reason actor s = record s {
  status = status;
  approved_by_id = some actor.id;
  reason = new_reason reason s.reason;
}

-- A swap whose setup is gone may be rejected by anyone.
unfoldable pub assert_can_reject : Env → SwapRequest → User → Db → Result (Unit {0})
unfolding assert_can_approve
assert_can_reject env s actor db = elim (get_setup_at s.current_setup_id db.setups) [
  | none ↦ ok tt
  | some setup ↦ assert_can_approve env db setup actor
]

-- The guards of `reject`.
unfoldable pub reject_checks : Env → ℕ → User → Db → Result SwapRequest
unfolding assert_can_reject
reject_checks env key actor db = do s ← pending_swap key db; assert_can_reject env s actor db; ok s

unfoldable pub store_rejected : Option Text → User → SwapRequest → Action SwapRequest
store_rejected reason actor s db = (
  ok (decided SwapStatus.rejected reason actor s),
  record db {
    swaps = update_swap s.id (decided SwapStatus.rejected reason actor) db.swaps;
    journal =
        record_audit (some actor.id) AuditAction.reject EntityType.swap_request (some s.id)
          db.journal;
  },
)

-- `reject`
unfoldable pub reject : Env → ℕ → Option Text → User → Action SwapRequest
unfolding reject_checks store_rejected
reject env key reason actor db =
    checked (reject_checks env key actor db) (store_rejected reason actor) db

-- The guards of `cancel`.
unfoldable pub cancel_checks : ℕ → User → Db → Result SwapRequest
cancel_checks key actor db = do
  s ← or_raise (get_swap key db.swaps) AppError.not_found
  raise_if (not (s.requester_id == actor.id)) AppError.authorization
  raise_if (not (swap_pending s.status)) AppError.conflict
  ok s

abbrev pub with_status : SwapStatus → SwapRequest → SwapRequest
with_status status s = record s { status = status }

unfoldable pub store_cancelled : User → SwapRequest → Action SwapRequest
store_cancelled actor s db = (
  ok (with_status SwapStatus.cancelled s),
  record db {
    swaps = update_swap s.id (with_status SwapStatus.cancelled) db.swaps;
    journal =
        record_audit (some actor.id) AuditAction.cancel EntityType.swap_request (some s.id)
          db.journal;
  },
)

-- `cancel`
unfoldable pub cancel : ℕ → User → Action SwapRequest
unfolding cancel_checks store_cancelled
cancel key actor db = checked (cancel_checks key actor db) (store_cancelled actor) db
