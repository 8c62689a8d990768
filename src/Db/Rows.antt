-- ===== src/Db/Rows.antt =====
-- The tables of app/models, one record for each row. A date is a number of microseconds.
use reservation_tool.Base.{ℕ, Bool, Option, List, Text}
use reservation_tool.Core.Roles.{RoleName}
use reservation_tool.Core.Permissions.{PermissionCode}
use reservation_tool.Core.Status.{
  UserStatus, SetupStatus, ReservationStatus, SwapStatus, BorrowStatus, Scope, Channel, Priority,
  AuditAction, EntityType, ColumnDataType,
}

pub record Role : Type 0 where
  pub id : ℕ
  pub name : RoleName
  pub permissions : List PermissionCode

pub record User : Type 0 where
  pub id : ℕ
  pub username : Text
  pub email : Text
  pub password_hash : Text
  -- the relation `role` over `role_id`
  pub role : Option Role
  pub group_id : Option ℕ
  -- the many-to-many `groups`, by id
  pub groups : List ℕ
  pub status : UserStatus
  pub is_active : Bool
  pub approved_by_id : Option ℕ
  pub approved_at : Option ℕ

-- The fixed hardware columns, `SWAPPABLE_SETUP_FIELDS` and `BASELINE_FIELD_NAMES`.
pub data Field : Type 0 where
  ssd hdd hardware_info capacity form_factor : Field
  adapter aardvark quarch apc remote_server : Field

-- The values of the ten hardware columns of one row.
abbrev pub Hardware : Type 0
Hardware = Field → Option Text

pub record Setup : Type 0 where
  pub id : ℕ
  pub product_id : ℕ
  pub group_id : Option ℕ
  pub ip_address : Text
  pub hostname : Text
  pub hardware : Hardware
  pub owner_id : Option ℕ
  pub status : SetupStatus

pub record Reservation : Type 0 where
  pub id : ℕ
  pub setup_id : ℕ
  pub user_id : ℕ
  pub reserved_from : ℕ
  pub reserved_until : ℕ
  pub status : ReservationStatus

pub record BorrowRequest : Type 0 where
  pub id : ℕ
  pub requester_id : ℕ
  pub source_group_id : ℕ
  pub target_group_id : ℕ
  pub setup_id : ℕ
  pub hardware_field_name : Option Text
  pub start_time : Option ℕ
  pub end_time : Option ℕ
  pub announcement_channels : List Channel
  pub status : BorrowStatus
  pub routed_approver_emails : List Text
  pub approved_by_id : Option ℕ
  pub returned_at : Option ℕ
  pub returned_by_id : Option ℕ

pub record SetupAccessGrant : Type 0 where
  pub id : ℕ
  pub setup_id : ℕ
  pub borrow_request_id : ℕ
  pub source_group_id : ℕ
  pub granted_to_group_id : ℕ
  pub is_active : Bool
  pub returned_at : Option ℕ

pub record SwapRequest : Type 0 where
  pub id : ℕ
  pub requester_id : ℕ
  pub current_setup_id : Option ℕ
  pub requested_setup_id : Option ℕ
  -- the comma-separated names
  pub column_name : Text
  pub previous_current_value : Option Text
  pub previous_requested_value : Option Text
  pub status : SwapStatus
  pub reason : Option Text
  pub start_time : Option ℕ
  pub end_time : Option ℕ
  pub announcement_channels : List Channel
  pub routed_approver_emails : List Text
  pub approved_by_id : Option ℕ

pub record GroupHierarchyEdge : Type 0 where
  pub id : ℕ
  pub parent_group_id : ℕ
  pub child_group_id : ℕ
  pub scope : Scope

-- `groups` and `products`
pub record Group : Type 0 where
  pub id : ℕ
  pub name : Text

pub record Product : Type 0 where
  pub id : ℕ
  pub name : Text

pub record SetupHardwareBaseline : Type 0 where
  pub setup_id : ℕ
  pub hardware : Hardware

-- A row of `product_template_columns`; the JSON list of allowed values is a list.
pub record TemplateColumn : Type 0 where
  pub id : ℕ
  pub product_id : ℕ
  pub name : Text
  pub label : Text
  pub data_type : ColumnDataType
  pub required : Bool
  pub default_value : Option Text
  pub allowed_values : Option (List Text)
  pub order_index : ℕ

-- `setup_custom_field_values` and `setup_custom_field_baselines`
pub record CustomField : Type 0 where
  pub setup_id : ℕ
  pub template_column_id : ℕ
  pub value : Option Text

pub record HardwareChangeLog : Type 0 where
  pub setup_id : ℕ
  pub field_name : Text
  pub old_value : Option Text
  pub new_value : Option Text
  pub source_request_id : ℕ
  pub changed_by_id : ℕ

pub record AuditLog : Type 0 where
  pub user_id : Option ℕ
  pub action : AuditAction
  pub entity_type : EntityType
  pub entity_id : Option ℕ

pub record Announcement : Type 0 where
  pub id : ℕ
  pub title : Text
  pub created_by_id : ℕ
  pub priority : Priority
  pub start_date : ℕ
  pub end_date : Option ℕ
  pub is_active : Bool
  pub created_at : ℕ

pub record RefreshToken : Type 0 where
  pub jti : Text
  pub user_id : ℕ
  pub revoked : Bool
  pub expires_at : ℕ

pub record PasswordResetToken : Type 0 where
  pub token : Text
  pub user_id : ℕ
  pub used : Bool
  pub expires_at : ℕ

-- What the services only append to: the audit log, the announcements, and the recipients of each
-- mail that has gone out, newest last.
pub record Journal : Type 0 where
  pub audit_logs : List AuditLog
  pub announcements : List Announcement
  pub outbox : List (List Text)

-- All tables of the session's database.
pub record Db : Type 0 where
  pub users : List User
  pub roles : List Role
  pub groups : List Group
  pub products : List Product
  pub setups : List Setup
  pub reservations : List Reservation
  pub borrows : List BorrowRequest
  pub grants : List SetupAccessGrant
  pub swaps : List SwapRequest
  pub edges : List GroupHierarchyEdge
  pub baselines : List SetupHardwareBaseline
  pub columns : List TemplateColumn
  pub custom_values : List CustomField
  pub custom_baselines : List CustomField
  pub change_logs : List HardwareChangeLog
  pub refresh_tokens : List RefreshToken
  pub reset_tokens : List PasswordResetToken
  pub journal : Journal
