-- ===== src/Core/Status.antt =====
-- The status values of app/core/constants.py.
use reservation_tool.Base.{Bool, true, false}

pub data UserStatus : Type 0 where
  pending approved rejected disabled : UserStatus

pub data SetupStatus : Type 0 where
  available reserved maintenance retired : SetupStatus

pub data ReservationStatus : Type 0 where
  active completed cancelled swapped : ReservationStatus

pub data SwapStatus : Type 0 where
  pending approved completed rejected cancelled expired : SwapStatus

pub data BorrowStatus : Type 0 where
  pending completed rejected cancelled returned expired : BorrowStatus

-- `ApprovalHierarchyScope`
pub data Scope : Type 0 where
  swap borrow both : Scope

-- `AnnouncementChannel`
pub data Channel : Type 0 where
  wall mail_leads mail_group mail_all : Channel

pub data Priority : Type 0 where
  low normal high critical : Priority

pub data AuditAction : Type 0 where
  create update delete approve reject login login_failed cancel : AuditAction

pub data EntityType : Type 0 where
  user setup reservation swap_request borrow_request setup_access_grant : EntityType
  group_hierarchy_edge announcement custom_field_value product group template_column : EntityType

pub data ColumnDataType : Type 0 where
  string integer float boolean date datetime dropdown : ColumnDataType

-- `status in (SetupStatus.MAINTENANCE, SetupStatus.RETIRED)`
abbrev pub is_blocked : SetupStatus → Bool
is_blocked SetupStatus.maintenance = true
is_blocked SetupStatus.retired = true
is_blocked _ = false

abbrev pub is_active : ReservationStatus → Bool
is_active ReservationStatus.active = true
is_active _ = false

abbrev pub borrow_pending : BorrowStatus → Bool
borrow_pending BorrowStatus.pending = true
borrow_pending _ = false

abbrev pub borrow_completed : BorrowStatus → Bool
borrow_completed BorrowStatus.completed = true
borrow_completed _ = false

abbrev pub swap_pending : SwapStatus → Bool
swap_pending SwapStatus.pending = true
swap_pending _ = false

abbrev pub user_approved : UserStatus → Bool
user_approved UserStatus.approved = true
user_approved _ = false

-- An edge tagged `s` counts in the domain `d`: `scope IN (d, BOTH)`.
abbrev pub scope_in : Scope → Scope → Bool
scope_in d Scope.both = true
scope_in Scope.swap Scope.swap = true
scope_in Scope.borrow Scope.borrow = true
scope_in _ _ = false

abbrev pub scope_eq : Scope → Scope → Bool
scope_eq Scope.swap Scope.swap = true
scope_eq Scope.borrow Scope.borrow = true
scope_eq Scope.both Scope.both = true
scope_eq _ _ = false
