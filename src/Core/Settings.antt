-- ===== src/Core/Settings.antt =====
-- What a request reads besides the database: the clock, app/core/config.py, the optional services
-- that the dependency wiring (app/api/deps.py, app/services/scheduler_service.py) hands over, the
-- conversions of the standard library, and the key that the database engine gives to a new row.
use reservation_tool.Base.{ℕ, ◌≡◌, Bool, false, Option, List, Text, contains}

-- Conversions of the standard library, from the text that a value is given by to the text that is
-- stored; `none` is a `ValueError`.
pub record Codec : Type 0 where
  -- `str(float(t))`
  pub float : Text → Option Text
  -- `datetime.fromisoformat(t).date().isoformat()`
  pub iso_date : Text → Option Text
  -- `datetime.fromisoformat(t).isoformat()`
  pub iso_datetime : Text → Option Text

pub record Env : Type 0 where
  -- `datetime.utcnow()`, in microseconds
  pub now : ℕ
  -- `RESERVATION_MIN_LEAD_MINUTES`; a negative setting disables the rule as 0 does
  pub min_lead_minutes : ℕ
  -- `SWAP_REQUIRE_SAME_PRODUCT`
  pub same_product : Bool
  -- which of the optional collaborators a service was built with
  pub has_notification : Bool
  pub has_routing : Bool
  pub has_template : Bool
  pub has_hardware_state : Bool
  pub has_change_log : Bool
  pub codec : Codec
  -- whether the engine checks foreign keys: PostgreSQL does, and SQLite where its PRAGMA is enabled, as
  -- main.py does when the application starts
  pub foreign_keys : Bool
  -- the primary key of a row that is added to a table with these keys
  pub fresh_id : List ℕ → ℕ

-- The engine never gives a key twice: a primary key is unique in its table.
abbrev pub IsFresh : Env → Type 0
IsFresh env = (ids : List ℕ) → contains ids (env.fresh_id ids) ≡ false
