-- ===== src/Setups.antt =====
-- app/services/setup_service.py, with the capture of app/models/baseline_capture.py and the
-- requests of app/schemas/setup.py. The location and the remarks of a setup are not kept.
pub mod Table
pub mod Identity
pub mod Transitions
pub mod Capture
mod Tests
use reservation_tool.Base.{
  ℕ, ◌==◌, ◌=?◌, Bool, true, false, not, ◌&&◌, ◌||◌, Option, none, some, List, [], ◌∷◌, ◌++◌, map,
  find, select, modify, any_of, is_some, Text, text_eq, if◌then◌else◌,
}
use reservation_tool.Core.Status.{AuditAction, EntityType, SetupStatus}
use reservation_tool.Core.Errors.{AppError, Result, ok, err, ◌>>=◌, ◌>>◌, raise_if, or_raise}
use reservation_tool.Core.Settings.{Env}
use reservation_tool.Db.Rows.{User, Hardware, Field, Setup, Db}
use reservation_tool.Db.Transaction.{Action, checked}
use reservation_tool.Notifications.{record_audit}
use reservation_tool.Hardware.{ensure_fixed_baseline}
use reservation_tool.Setups.Table.{get_setup}

-- The payload of `create` that the endpoint has validated.
pub record SetupCreateRequest : Type 0 where
  pub product_id : ℕ
  pub group_id : Option ℕ
  pub ip_address : Text
  pub hostname : Text
  pub hardware : Hardware
  pub owner_id : Option ℕ

-- A field of an update: not set, set to null, or set to a value.
abbrev pub Change {ℓ} : Type ℓ → Type ℓ
Change A = Option (Option A)

pub record SetupUpdateRequest : Type 0 where
  pub product_id : Change ℕ
  pub group_id : Change ℕ
  pub ip_address : Change Text
  pub hostname : Change Text
  pub hardware : Field → Change Text
  pub owner_id : Change ℕ
  pub status : Option SetupStatus

-- `update_data.get(name, current)`
abbrev pub changed {ℓ} : {A : Type ℓ} → Change A → Option A → Option A
changed none current = current
changed (some value) current = value

-- `_ALLOWED_STATUS_TRANSITIONS`
unfoldable pub allowed : SetupStatus → SetupStatus → Bool
allowed SetupStatus.available SetupStatus.reserved = true
allowed SetupStatus.available SetupStatus.maintenance = true
allowed SetupStatus.available SetupStatus.retired = true
allowed SetupStatus.reserved SetupStatus.available = true
allowed SetupStatus.reserved SetupStatus.maintenance = true
allowed SetupStatus.maintenance SetupStatus.available = true
allowed SetupStatus.maintenance SetupStatus.retired = true
allowed _ _ = false

abbrev pub status_eq : SetupStatus → SetupStatus → Bool
status_eq SetupStatus.available SetupStatus.available = true
status_eq SetupStatus.reserved SetupStatus.reserved = true
status_eq SetupStatus.maintenance SetupStatus.maintenance = true
status_eq SetupStatus.retired SetupStatus.retired = true
status_eq _ _ = false

-- `column == value`; a comparison with null finds nothing in a column that is never null.
abbrev pub is_text : Text → Option Text → Bool
is_text t none = false
is_text t (some u) = text_eq t u

-- The query of `get_by_ip_or_hostname`.
abbrev pub clashes : Option Text → Option Text → Setup → Bool
clashes ip hostname s = is_text s.ip_address ip || is_text s.hostname hostname

abbrev pub get_by_ip_or_hostname : Option Text → Option Text → List Setup → Option Setup
get_by_ip_or_hostname ip hostname = find (clashes ip hostname)

-- A reference to a row that must be there.
abbrev pub dangling : Option ℕ → List ℕ → Bool
dangling none ids = false
dangling (some key) ids = not (any_of (λ n. n == key) ids)

-- The foreign keys of a row of `setups`, as the engine checks them.
unfoldable pub broken_keys : Env → Option ℕ → Option ℕ → Option ℕ → Db → Bool
broken_keys env product group owner db =
    env.foreign_keys
    && (dangling product (map (λ p. p.id) db.products)
        || dangling group (map (λ g. g.id) db.groups)
        || dangling owner (map (λ u. u.id) db.users))

-- The guards of `create`, and the checks of the engine when the row is added.
unfoldable pub create_checks : Env → SetupCreateRequest → Db → Result (Unit {0})
unfolding broken_keys
create_checks env p db = do
  raise_if (is_some (get_by_ip_or_hostname (some p.ip_address) (some p.hostname) db.setups))
      AppError.conflict
  raise_if (broken_keys env (some p.product_id) p.group_id p.owner_id db) AppError.internal

abbrev pub new_setup : Env → SetupCreateRequest → Db → Setup
new_setup env p db = record {
  id = env.fresh_id (map (λ s. s.id) db.setups);
  product_id = p.product_id;
  group_id = p.group_id;
  ip_address = p.ip_address;
  hostname = p.hostname;
  hardware = p.hardware;
  owner_id = p.owner_id;
  status = SetupStatus.available;
}

-- The writes of `create`; `_capture_hardware_baseline` runs when the row is inserted.
unfoldable pub store_setup : Env → SetupCreateRequest → User → Unit {0} → Action Setup
unfolding ensure_fixed_baseline
store_setup env p actor _ db =
    let row = new_setup env p db in
    (
      ok row,
      record db {
        setups = db.setups ++ row ∷ [];
        baselines = ensure_fixed_baseline row db.baselines;
        journal =
            record_audit (some actor.id) AuditAction.create EntityType.setup (some row.id)
              db.journal;
      },
    )

-- `create`
unfoldable pub create : Env → SetupCreateRequest → User → Action Setup
unfolding create_checks store_setup
create env p actor db = checked (create_checks env p db) (store_setup env p actor) db

-- `existing is not None and existing.id != setup_id`
abbrev pub taken : ℕ → Option Setup → Bool
taken key none = false
taken key (some s) = not (s.id == key)

-- The identity that the row would have is taken by the row that the query finds first.
abbrev pub identity_taken : ℕ → SetupUpdateRequest → Setup → List Setup → Bool
identity_taken key p s rows =
    (is_some p.ip_address || is_some p.hostname)
    && taken key (
        get_by_ip_or_hostname (changed p.ip_address (some s.ip_address))
          (changed p.hostname (some s.hostname)) rows)

-- `payload.status is not None and payload.status != setup.status`, then `_transition_status`
unfoldable pub transition_status : Option SetupStatus → SetupStatus → Result SetupStatus
unfolding allowed
transition_status none current = ok current
transition_status (some target) current =
    if status_eq target current
    then ok current
    else (if allowed current target then ok target else err AppError.invalid_state_transition)

-- Another row has the address or the name: the unique indices of the table.
abbrev pub collides : Setup → Setup → Bool
collides row s =
    not (s.id == row.id) && (text_eq s.ip_address row.ip_address || text_eq s.hostname row.hostname)

-- The row after the assignments, if no column is null that must not be.
unfoldable pub assigned : SetupUpdateRequest → SetupStatus → Setup → Result Setup
assigned p status s = do
  product ← or_raise (changed p.product_id (some s.product_id)) AppError.internal
  ip ← or_raise (changed p.ip_address (some s.ip_address)) AppError.internal
  hostname ← or_raise (changed p.hostname (some s.hostname)) AppError.internal
  ok (record s {
    product_id = product;
    group_id = changed p.group_id s.group_id;
    ip_address = ip;
    hostname = hostname;
    hardware = λ f. changed (p.hardware f) (s.hardware f);
    owner_id = changed p.owner_id s.owner_id;
    status = status;
  })

-- The guards of `update`, and the checks of the engine when the row is written.
unfoldable pub update_checks : Env → ℕ → SetupUpdateRequest → Db → Result Setup
unfolding broken_keys transition_status assigned
update_checks env key p db = do
  s ← or_raise (get_setup key db.setups) AppError.not_found
  raise_if (identity_taken key p s db.setups) AppError.conflict
  status ← transition_status p.status s.status
  row ← assigned p status s
  raise_if (any_of (collides row) db.setups) AppError.internal
  raise_if (broken_keys env (some row.product_id) row.group_id row.owner_id db) AppError.internal
  ok row

-- The UPDATE of a row: every column but its key.
abbrev pub write_setup : Setup → List Setup → List Setup
write_setup row = modify (λ s. s.id == row.id) (λ s. record row { id = s.id })

-- The writes of `update`.
unfoldable pub store_update : User → Setup → Action Setup
store_update actor row db = (
  ok row,
  record db {
    setups = write_setup row db.setups;
    journal =
        record_audit (some actor.id) AuditAction.update EntityType.setup (some row.id) db.journal;
  },
)

-- `update`
unfoldable pub update : Env → ℕ → SetupUpdateRequest → User → Action Setup
unfolding update_checks store_update
update env key p actor db = checked (update_checks env key p db) (store_update actor) db

-- The rows that keep a setup from being deleted: its reservations, whose reference may not become
-- null, and with foreign keys the rows of the other tables.
unfoldable pub referenced : Env → ℕ → Db → Bool
referenced env key db =
    any_of (λ r. r.setup_id == key) db.reservations
    || env.foreign_keys
      && (any_of (λ b. b.setup_id == key) db.borrows
          || any_of (λ g. g.setup_id == key) db.grants
          || any_of (λ s. s.current_setup_id =? key || s.requested_setup_id =? key) db.swaps
          || any_of (λ c. c.setup_id == key) db.change_logs)

-- The guards of `delete`, and the checks of the engine.
unfoldable pub delete_checks : Env → ℕ → Db → Result (Unit {0})
unfolding referenced
delete_checks env key db = do
  s ← or_raise (get_setup key db.setups) AppError.not_found
  raise_if (status_eq s.status SetupStatus.reserved) AppError.conflict
  raise_if (referenced env key db) AppError.internal

-- The writes of `delete`: the setup goes with its original values and its custom values.
unfoldable pub store_deleted : ℕ → User → Unit {0} → Action (Unit {0})
store_deleted key actor _ db = (
  ok tt,
  record db {
    setups = select (λ s. not (s.id == key)) db.setups;
    baselines = select (λ b. not (b.setup_id == key)) db.baselines;
    custom_values = select (λ c. not (c.setup_id == key)) db.custom_values;
    custom_baselines = select (λ c. not (c.setup_id == key)) db.custom_baselines;
    journal =
        record_audit (some actor.id) AuditAction.delete EntityType.setup (some key) db.journal;
  },
)

-- `delete`
unfoldable pub delete : Env → ℕ → User → Action (Unit {0})
unfolding delete_checks store_deleted
delete env key actor db = checked (delete_checks env key db) (store_deleted key actor) db
