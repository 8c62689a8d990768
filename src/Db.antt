-- ===== src/Db.antt =====
-- The rows of app/models, and the database that a request works on. Of each table the columns that
-- the services read or write; the time stamps of the engine and free text that is only displayed
-- (titles, messages, full names) are left out.
pub mod Rows
pub mod Transaction
