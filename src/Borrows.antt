-- ===== src/Borrows.antt =====
-- app/services/borrow_service.py over app/repositories/sqlalchemy/borrow_repository.py. The channels
-- and the addresses that the rows hold as one comma-separated text are lists here.
pub mod Access
pub mod Requests
pub mod Verdicts
pub mod Returns
pub mod Validity
pub mod Expiry
pub mod Guards
pub mod Rules
pub mod Fields
pub mod Ended
pub mod Lifecycle
pub mod Histories
pub mod Decisions
pub mod Approval
pub mod Verdict
pub mod Restoration
pub mod Asking
mod Tests
