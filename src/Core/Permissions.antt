-- ===== src/Core/Permissions.antt =====
-- `PermissionCode` and `DEFAULT_ROLE_PERMISSIONS` of app/core/constants.py.
use reservation_tool.Base.{Bool, false, ℕ, List, [], ◌∷◌, ◌||◌, ◌==◌}
use reservation_tool.Core.Roles.{RoleName}

pub data PermissionCode : Type 0 where
  user_manage user_approve user_view : PermissionCode
  product_manage product_view : PermissionCode
  group_manage group_view : PermissionCode
  reservation_create reservation_cancel_own reservation_cancel_any : PermissionCode
  reservation_view : PermissionCode
  swap_request swap_approve swap_view : PermissionCode
  announcement_manage announcement_view : PermissionCode
  borrow_request borrow_approve borrow_return borrow_view : PermissionCode
  audit_view logs_view export_run import_run : PermissionCode

-- The place of a code in `PermissionCode.ALL`.
abbrev pub code_index : PermissionCode → ℕ
code_index PermissionCode.user_manage = 0
code_index PermissionCode.user_approve = 1
code_index PermissionCode.user_view = 2
code_index PermissionCode.product_manage = 3
code_index PermissionCode.product_view = 4
code_index PermissionCode.group_manage = 5
code_index PermissionCode.group_view = 6
code_index PermissionCode.reservation_create = 7
code_index PermissionCode.reservation_cancel_own = 8
code_index PermissionCode.reservation_cancel_any = 9
code_index PermissionCode.reservation_view = 10
code_index PermissionCode.swap_request = 11
code_index PermissionCode.swap_approve = 12
code_index PermissionCode.swap_view = 13
code_index PermissionCode.announcement_manage = 14
code_index PermissionCode.announcement_view = 15
code_index PermissionCode.borrow_request = 16
code_index PermissionCode.borrow_approve = 17
code_index PermissionCode.borrow_return = 18
code_index PermissionCode.borrow_view = 19
code_index PermissionCode.audit_view = 20
code_index PermissionCode.logs_view = 21
code_index PermissionCode.export_run = 22
code_index PermissionCode.import_run = 23

abbrev pub code_eq : PermissionCode → PermissionCode → Bool
code_eq a b = code_index a == code_index b

-- `PermissionCode.ALL`
abbrev pub all_codes : List PermissionCode
all_codes =
    PermissionCode.user_manage ∷ PermissionCode.user_approve ∷ PermissionCode.user_view
    ∷ PermissionCode.product_manage ∷ PermissionCode.product_view ∷ PermissionCode.group_manage
    ∷ PermissionCode.group_view ∷ PermissionCode.reservation_create
    ∷ PermissionCode.reservation_cancel_own ∷ PermissionCode.reservation_cancel_any
    ∷ PermissionCode.reservation_view ∷ PermissionCode.swap_request ∷ PermissionCode.swap_approve
    ∷ PermissionCode.swap_view ∷ PermissionCode.announcement_manage
    ∷ PermissionCode.announcement_view ∷ PermissionCode.borrow_request
    ∷ PermissionCode.borrow_approve ∷ PermissionCode.borrow_return ∷ PermissionCode.borrow_view
    ∷ PermissionCode.audit_view ∷ PermissionCode.logs_view ∷ PermissionCode.export_run
    ∷ PermissionCode.import_run ∷ []

-- `any(permission.code == code for permission in permissions)`
abbrev pub has_code : List PermissionCode → PermissionCode → Bool
has_code [] c = false
has_code (p ∷ ps) c = code_eq p c || has_code ps c

-- `DEFAULT_ROLE_PERMISSIONS[role]`
pub default_role_permissions : RoleName → List PermissionCode
default_role_permissions RoleName.bot =
    PermissionCode.product_view ∷ PermissionCode.group_view ∷ PermissionCode.reservation_view
    ∷ PermissionCode.swap_view ∷ PermissionCode.announcement_view ∷ []
default_role_permissions RoleName.user =
    PermissionCode.product_view ∷ PermissionCode.group_view ∷ PermissionCode.reservation_create
    ∷ PermissionCode.reservation_cancel_own ∷ PermissionCode.reservation_view
    ∷ PermissionCode.swap_request ∷ PermissionCode.swap_view ∷ PermissionCode.announcement_view
    ∷ PermissionCode.export_run ∷ []
default_role_permissions RoleName.lead =
    PermissionCode.user_approve ∷ PermissionCode.product_view ∷ PermissionCode.group_manage
    ∷ PermissionCode.group_view ∷ PermissionCode.reservation_create
    ∷ PermissionCode.reservation_cancel_own ∷ PermissionCode.reservation_cancel_any
    ∷ PermissionCode.reservation_view ∷ PermissionCode.swap_request ∷ PermissionCode.swap_approve
    ∷ PermissionCode.swap_view ∷ PermissionCode.borrow_request ∷ PermissionCode.borrow_approve
    ∷ PermissionCode.borrow_return ∷ PermissionCode.borrow_view ∷ PermissionCode.announcement_view
    ∷ PermissionCode.export_run ∷ PermissionCode.import_run ∷ []
default_role_permissions RoleName.manager =
    PermissionCode.user_manage ∷ PermissionCode.user_approve ∷ PermissionCode.user_view
    ∷ PermissionCode.product_manage ∷ PermissionCode.product_view ∷ PermissionCode.group_manage
    ∷ PermissionCode.group_view ∷ PermissionCode.reservation_create
    ∷ PermissionCode.reservation_cancel_own ∷ PermissionCode.reservation_cancel_any
    ∷ PermissionCode.reservation_view ∷ PermissionCode.swap_request ∷ PermissionCode.swap_approve
    ∷ PermissionCode.swap_view ∷ PermissionCode.borrow_request ∷ PermissionCode.borrow_approve
    ∷ PermissionCode.borrow_return ∷ PermissionCode.borrow_view ∷ PermissionCode.announcement_manage
    ∷ PermissionCode.announcement_view ∷ PermissionCode.audit_view ∷ PermissionCode.logs_view
    ∷ PermissionCode.export_run ∷ PermissionCode.import_run ∷ []
default_role_permissions RoleName.owner = all_codes
