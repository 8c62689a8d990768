-- ===== src/Lib.antt =====
-- Reservation tool: the services that reserve, lend and route the setups of a hardware lab.
--
-- The program is a web application over one SQL database. Each request runs in a transaction
-- (app/db/session.py): a service of app/services reads and writes tables through a repository of
-- app/repositories/sqlalchemy, appends to the audit log, and may post announcements and send mails.
-- Here the database is one record of tables (Db/Rows, after app/models), a table is the list of its
-- rows in the order of their keys, and a service call is a function from the database to a result and
-- a new database. A call that raises keeps what it wrote until then; `request` of Db/Transaction rolls
-- it back, except for mails that have left. That is what happens at the REST endpoints, whose exceptions
-- reach get_db; several pages of app/web catch the exception of a service and show a message, and then what
-- the call wrote before it raised is committed. What a call reads besides the tables (the clock, the
-- settings, the key of a new row, which optional services were wired) is the record `Env` of
-- Core/Settings.
--
-- Base: lists as tables, tests on numbers and options, texts as lists of character codes.
-- Core: app/core/constants.py (roles, permissions, statuses), app/core/exceptions.py (errors).
-- Db: the tables, and the transaction of a request.
-- Access: the part of app/api/deps.py that finds the account of a request and its permissions.
-- Paging: app/utils/pagination.py.
-- Announcements: app/services/announcement_service.py, with the listing that the pages show.
-- Notifications: app/services/audit_service.py, email_service.py, notification_service.py and the
-- rows of announcements. Of a text only what decides something is kept: the title of an
-- announcement, whose length is checked, but neither messages nor the details of an audit entry.
-- Keys: tables with unique keys.
-- Setups: app/services/setup_service.py; Setups/Table has the reads and writes of the setup repository
-- that the workflows share.
-- Hierarchy: app/services/group_hierarchy_service.py, which edits the graph that Routing walks.
-- Groups: app/services/group_service.py. Products: app/services/product_service.py. Names: what the
-- guards of both keep of their tables.
-- Auth: app/services/auth_service.py and the tokens of app/core/security.py. The libraries for hashes
-- and signatures are fields of the record `Security`, what a call draws at random is a `Draws`.
-- Users: app/services/user_service.py, over the lookup of roles by name; Users/Conditions has what a decision
-- on a registration asks for and does, in terms of the rows; Users/Judging has the
-- decisions on registrations and the removal of accounts.
-- Reservations: app/services/reservation_service.py, with `create`, `cancel` and
-- `sweep_expired_reservations`, the query for overlaps, and histories of calls.
-- Routing: app/services/approval_routing_service.py. The loop over the frontier runs on fuel, one
-- round more than there are edges, which is proved enough; cycles are allowed.
-- Hardware: app/services/hardware_state_service.py; Hardware/State adds the custom columns, the table
-- of one setup and the correction of original values.
-- Borrows: app/services/borrow_service.py, with the requests, the decisions, the returns, the validity
-- of the two tables they share, and histories of calls. Borrows/Rules has the conditions of the workflows in
-- terms of the rows, Borrows/Fields those on names of columns, Borrows/Ended the expiry of one request,
-- Borrows/Verdict the decisions from the tables before it.
-- Templates: app/services/template_service.py, the custom columns of a product: Templates and
-- Templates/Editing have the operations on columns, Templates/Values the conversion and
-- Templates/Writing the storing of values. float() and the reading of ISO dates are fields of the record `Codec` of Core/Settings; a value is given by its type
-- and the text that str() gives of it.
-- Swaps: app/services/swap_service.py. Swaps/Columns has the texts in which a row keeps its columns
-- and old values, Swaps/Requests the calls that create, reject and cancel, Swaps/Exchange the approval
-- with the loop over the columns. Swaps/Holders and Swaps/Common have who holds a setup and which columns
-- two setups share, in terms of the rows.
-- Samples: a small database for the tests, which stand in the modules named Tests.
--
-- A date is a number of microseconds and every instant is in UTC. A key of the database engine is a
-- parameter, `fresh_id`, which some theorems ask to be new in its table. Lists that a row stores as
-- one text are lists here, but for the columns of a swap, which are the text that the row has. Blanks,
-- digits and the letters that lower() changes are those of ASCII, no text is too long for its column of
-- the database, and the accounts that are listed for a mail fit one page of 1000 and have a role.
--
-- Not modelled: the pages and endpoints over the services, Excel import and export, the logs, the job
-- scheduler, the migrations.
pub mod Base
pub mod Keys
pub mod Names
pub mod Products
pub mod Templates
pub mod Swaps
pub mod Core
pub mod Db
pub mod Notifications
pub mod Announcements
pub mod Setups
pub mod Reservations
pub mod Routing
pub mod Hardware
pub mod Borrows
pub mod Users
pub mod Hierarchy
pub mod Groups
pub mod Tokens
pub mod Auth
pub mod Access
pub mod Paging
mod Samples
