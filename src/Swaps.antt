-- ===== src/Swaps.antt =====
-- app/services/swap_service.py over app/repositories/sqlalchemy/swap_repository.py.
pub mod Columns
pub mod Access
pub mod Requests
pub mod Exchange
pub mod Names
pub mod Fixed
pub mod Loop
pub mod Ledger
pub mod Approval
pub mod Untouched
pub mod Histories
pub mod Holders
pub mod Common
pub mod Rules
mod Tests
