-- ===== src/Setups/Table.antt =====
-- The reads and writes of app/repositories/sqlalchemy/setup_repository.py that the workflows share.
use reservation_tool.Base.{
  ℕ, ◌≡◌, ◌≢◌, refl, Option, some, List, arith, ◌==◌, find, modify, map_option, if◌then◌else◌,
  ==_iff, ap, ◌∙◌, sym, subst, find-modify, find-modify_ne, find-some,
}
use reservation_tool.Core.Status.{SetupStatus}
use reservation_tool.Db.Rows.{Setup}

-- `get_by_id`
abbrev pub get_setup : ℕ → List Setup → Option Setup
get_setup key = find (λ s. s.id == key)

abbrev pub with_status : SetupStatus → Setup → Setup
with_status status s = record s { status = status }

-- `update_status`; a missing setup is passed over.
abbrev pub update_status : ℕ → SetupStatus → List Setup → List Setup
update_status key status = modify (λ s. s.id == key) (with_status status)

-- The row that is found has the key.
pub get_setup-id :
    (key : ℕ) (rows : List Setup) {s : Setup} → get_setup key rows ≡ some s → s.id ≡ key
get_setup-id key rows {s} e = (==_iff s.id key).0 (find-some (λ x. x.id == key) rows e)

pub get-update_status :
    (key : ℕ) (status : SetupStatus) (rows : List Setup)
    → get_setup key (update_status key status rows)
      ≡ map_option (with_status status) (get_setup key rows)
get-update_status key status rows =
    find-modify (λ s. s.id == key) (with_status status) (λ s. refl) rows

-- Another setup keeps its row.
pub get-update_status_ne :
    (key other : ℕ) (status : SetupStatus) (rows : List Setup)
    → key ≢ other
    → get_setup other (update_status key status rows) ≡ get_setup other rows
get-update_status_ne key other status rows ne =
    find-modify_ne (λ s. s.id == key) (with_status status) (λ s. s.id == other)
      (λ s h. ground arith) (λ s. refl) rows

-- The row that `setup.id` names after it was looked up by `key`.
pub get-update_status_found :
    (key : ℕ) (status : SetupStatus) (rows : List Setup) {s : Setup}
    → get_setup key rows ≡ some s
    → get_setup key (update_status s.id status rows) ≡ some (with_status status s)
get-update_status_found key status rows {s} e =
    subst (λ k. get_setup key (update_status k status rows) ≡ some (with_status status s))
      (sym (get_setup-id key rows e))
      (get-update_status key status rows ∙ ap (map_option (with_status status)) e)

-- Any setup after a status was written.
pub get-update_status_any :
    (j key : ℕ) (status : SetupStatus) (rows : List Setup) {s : Setup}
    → get_setup key rows ≡ some s
    → get_setup key (update_status j status rows)
      ≡ some (if j == key then with_status status s else s)
get-update_status_any j key status rows e =
    ground (arith, get-update_status key status rows, get-update_status_ne j key status rows)
