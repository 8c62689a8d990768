-- ===== src/Core.antt =====
-- app/core: roles, permissions, status values, errors, settings.
pub mod Roles
pub mod Permissions
pub mod Status
pub mod Errors
pub mod Settings
