-- ===== src/Samples.antt =====
-- A small database on which the tests run.
use reservation_tool.Base.{
  ℕ, suc, ◌+◌, ◌<◌, ◌≡◌, refl, false, contains, arith, true, none, some, List, [], ◌∷◌, Text, text,
}
use reservation_tool.Core.Roles.{RoleName}
use reservation_tool.Core.Permissions.{PermissionCode, all_codes}
use reservation_tool.Core.Status.{UserStatus, SetupStatus, ReservationStatus, BorrowStatus}
use reservation_tool.Core.Settings.{Env, IsFresh}
use reservation_tool.Db.Rows.{
  Role, User, Field, Hardware, Setup, Reservation, BorrowRequest, SetupAccessGrant, Journal, Db,
}

abbrev sum : List ℕ → ℕ
sum [] = 0
sum (n ∷ ns) = n + sum ns

-- A key above all that are there.
abbrev pub next_key : List ℕ → ℕ
next_key ids = suc (sum ids)

abbrev pub env : Env
env = record {
  now = 1000;
  min_lead_minutes = 0;
  same_product = true;
  has_notification = true;
  has_routing = true;
  has_template = true;
  has_hardware_state = true;
  has_change_log = true;
  codec = record { float = λ t. some t; iso_date = λ t. some t; iso_datetime = λ t. some t };
  foreign_keys = true;
  fresh_id = next_key;
}

abbrev pub role : RoleName → List PermissionCode → Role
role name codes = record { id = 1; name = name; permissions = codes }

-- A user of group `g`.
abbrev pub member : ℕ → RoleName → List PermissionCode → ℕ → User
member key name codes g = record {
  id = key;
  username = text "u";
  email = text "u@x";
  password_hash = text "h";
  role = some (role name codes);
  group_id = some g;
  groups = [];
  status = UserStatus.approved;
  is_active = true;
  approved_by_id = none;
  approved_at = none;
}

-- A plain user and the lead of group 1, the lead of group 2, and the owner.
abbrev pub anna : User
anna = member 1 RoleName.user [] 1

abbrev pub ben : User
ben = member 2 RoleName.lead (PermissionCode.reservation_cancel_any ∷ []) 1

abbrev pub cleo : User
cleo = member 3 RoleName.lead [] 2

abbrev pub dora : User
dora = member 4 RoleName.owner all_codes 3

abbrev pub hardware : Text → Hardware
hardware t Field.ssd = some t
hardware t _ = none

abbrev pub machine : ℕ → ℕ → Text → SetupStatus → Setup
machine key g name status = record {
  id = key;
  product_id = 7;
  group_id = some g;
  ip_address = name;
  hostname = name;
  hardware = hardware name;
  owner_id = none;
  status = status;
}

abbrev pub booking : ℕ → ℕ → ℕ → ℕ → ReservationStatus → Reservation
booking key setup from until status = record {
  id = key;
  setup_id = setup;
  user_id = 1;
  reserved_from = from;
  reserved_until = until;
  status = status;
}

abbrev pub blank : Journal
blank = record { audit_logs = []; announcements = []; outbox = [] }

-- Setup 10 of group 1, and setup 11 of group 2; two reservations of setup 10.
abbrev pub db : Db
db = record {
  users = anna ∷ ben ∷ cleo ∷ dora ∷ [];
  roles = [];
  groups = [];
  products = [];
  setups =
      machine 10 1 (text "a") SetupStatus.reserved
      ∷ machine 11 2 (text "b") SetupStatus.available
      ∷ [];
  reservations =
      booking 1 10 100 200 ReservationStatus.active
      ∷ booking 2 10 200 300 ReservationStatus.active
      ∷ [];
  borrows = [];
  grants = [];
  swaps = [];
  edges = [];
  baselines = [];
  columns = [];
  custom_values = [];
  custom_baselines = [];
  change_logs = [];
  refresh_tokens = [];
  reset_tokens = [];
  journal = blank;
}

below_sum : (ids : List ℕ) (n : ℕ) → sum ids < n → contains ids n ≡ false
below_sum [] n h = refl
below_sum (x ∷ xs) n h = ground (arith, below_sum xs n)

pub next_key-IsFresh : IsFresh env
next_key-IsFresh ids = below_sum ids (next_key ids) (omega arith)

-- The lead of group 2 asks for setup 10 of group 1.
abbrev pub wish : ℕ → BorrowStatus → BorrowRequest
wish key status = record {
  id = key;
  requester_id = 3;
  source_group_id = 1;
  target_group_id = 2;
  setup_id = 10;
  hardware_field_name = none;
  start_time = none;
  end_time = some 5000;
  announcement_channels = [];
  status = status;
  routed_approver_emails = [];
  approved_by_id = none;
  returned_at = none;
  returned_by_id = none;
}

abbrev pub grant : ℕ → SetupAccessGrant
grant request = record {
  id = 8;
  setup_id = 10;
  borrow_request_id = request;
  source_group_id = 1;
  granted_to_group_id = 2;
  is_active = true;
  returned_at = none;
}

-- The request waits; the request is carried out.
abbrev pub asked : Db
asked = record db { borrows = wish 5 BorrowStatus.pending ∷ [] }

abbrev pub lent : Db
lent = record db { borrows = wish 5 BorrowStatus.completed ∷ []; grants = grant 5 ∷ [] }
