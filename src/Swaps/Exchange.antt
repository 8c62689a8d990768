-- ===== src/Swaps/Exchange.antt =====
-- `approve`, which exchanges the values of the two setups.
use reservation_tool.Base.{
  ℕ, ◌==◌, Bool, ◌&&◌, ◌||◌, Option, none, some, List, [], ◌∷◌, ◌++◌, modify, any_of, is_some, Text,
  text_eq, if◌then◌else◌,
}
use reservation_tool.Core.Status.{AuditAction, EntityType, SwapStatus, is_blocked}
use reservation_tool.Core.Errors.{AppError, Result, ok, err, ◌>>=◌, ◌>>◌, raise_if, or_raise}
use reservation_tool.Core.Settings.{Env}
use reservation_tool.Db.Rows.{Field, User, Setup, SwapRequest, HardwareChangeLog, Db}
use reservation_tool.Db.Transaction.{Action, and_then}
use reservation_tool.Notifications.{record_audit}
use reservation_tool.Hardware.{field_name, field_of, ensure_fixed_baseline, ensure_custom_baseline}
use reservation_tool.Setups.Table.{get_setup}
use reservation_tool.Templates.{list_columns_for_product}
use reservation_tool.Templates.Values.{Raw, Dict, get}
use reservation_tool.Templates.Writing.{column_named, get_values_map_for_setup, set_setup_values}
use reservation_tool.Swaps.Columns.{column_names, encode_value_map}
use reservation_tool.Swaps.Access.{get_setup_at, assert_can_approve, is_nil}
use reservation_tool.Swaps.Requests.{update_swap, pending_swap, decided}

-- `current_setup`, `requested_setup` and `swap`
pub record Swap : Type 0 where
  pub request : SwapRequest
  pub current : Setup
  pub requested : Setup

-- The guards of `approve`.
unfoldable pub approve_checks : Env → ℕ → User → Db → Result Swap
unfolding assert_can_approve
approve_checks env key actor db = do
  s ← pending_swap key db
  current ← or_raise (get_setup_at s.current_setup_id db.setups) AppError.not_found
  requested ← or_raise (get_setup_at s.requested_setup_id db.setups) AppError.not_found
  raise_if (is_blocked current.status || is_blocked requested.status) AppError.conflict
  assert_can_approve env db current actor
  ok (record { request = s; current = current; requested = requested })

-- `any(name in SWAPPABLE_SETUP_FIELDS for name in column_names)`
abbrev pub any_fixed : List Text → Bool
any_fixed = any_of (λ n. is_some (field_of n))

-- The originals of both setups before a fixed column is touched.
unfoldable pub ensure_both : Env → List Text → Setup → Setup → Db → Db
unfolding ensure_fixed_baseline
ensure_both env names a b db =
    if env.has_hardware_state && any_fixed names
    then record db { baselines = ensure_fixed_baseline b (ensure_fixed_baseline a db.baselines) }
    else db

-- `d[name] = value`
abbrev pub put {ℓ} : {A : Type ℓ} → Text → A → Dict A → Dict A
put name v [] = (name, v) ∷ []
put name v ((n, w) ∷ rest) =
    let later = put name v rest in if text_eq n name then (n, v) ∷ rest else (n, w) ∷ later

-- The variables of the loop: the values maps are read at the first custom column.
pub record Loop : Type 0 where
  pub db : Db
  pub template_values : Option (Dict (Option Text) × Dict (Option Text))
  pub old_values : Dict (Option Text)
  pub new_values : Dict (Option Text)

abbrev pub same_field : Field → Field → Bool
same_field f g = text_eq (field_name f) (field_name g)

-- `setattr(setup, name, value)`
abbrev pub set_field : Field → Option Text → Setup → Setup
set_field f value s = record s { hardware = λ g. if same_field f g then value else s.hardware g }

abbrev pub write_field : ℕ → Field → Option Text → List Setup → List Setup
write_field key f value = modify (λ s. s.id == key) (set_field f value)

-- `getattr(setup, name)` of the row in the session
abbrev pub read_field : ℕ → Field → List Setup → Option Text
read_field key f rows = elim (get_setup key rows) [ none ↦ none | some s ↦ s.hardware f ]

-- `old_values[name] = old_value` and `new_values[name] = value_b`
abbrev pub noted : Text → Option Text → Option Text → Loop → Loop
noted name old new x = record x {
  old_values = put name old x.old_values;
  new_values = put name new x.new_values;
}

-- The branch of a fixed column.
unfoldable pub swap_fixed : ℕ → ℕ → Text → Field → Loop → Loop
swap_fixed a b name f x =
    let old_value = read_field a f x.db.setups in
    let value_b = read_field b f x.db.setups in
    noted name old_value value_b (record x {
      db = record x.db { setups = write_field b f old_value (write_field a f value_b x.db.setups) };
    })

-- `values.get(name)`, with null for a missing name
abbrev pub get_or_null : Text → Dict (Option Text) → Option Text
get_or_null name values = elim (get name values) [ none ↦ none | some v ↦ v ]

abbrev pub raw_of : Option Text → Raw
raw_of none = Raw.null
raw_of (some t) = Raw.str t

-- The original of one custom column, where the product has it.
unfoldable pub ensure_custom : Env → Setup → Text → Option Text → Db → Db
unfolding ensure_custom_baseline
ensure_custom env s name value db =
    if env.has_hardware_state
    then elim (column_named name (list_columns_for_product s.product_id db.columns)) [
      | none ↦ db
      | some c ↦ record db {
        custom_baselines = ensure_custom_baseline s.id c.id value db.custom_baselines;
      }
    ]
    else db

-- The values maps of both setups, as read the first time.
abbrev pub maps_of : Setup → Setup → Loop → Dict (Option Text) × Dict (Option Text)
maps_of a b x = elim x.template_values [
  | some maps ↦ maps
  | none ↦ (
    get_values_map_for_setup a.id a.product_id x.db,
    get_values_map_for_setup b.id b.product_id x.db,
  )
]

-- What `set_setup_values` leaves besides its result.
abbrev pub set_value : Env → Setup → Text → Option Text → User → Action (Unit {0})
set_value env s name value actor db =
    let (r, db') = set_setup_values env s.id s.product_id ((name, raw_of value) ∷ []) actor db in
    (r >>= λ _. ok tt, db')

-- The branch of a custom column.
unfoldable pub swap_custom : Env → Setup → Setup → User → Text → Loop → Result (Unit {0}) × Loop
unfolding ensure_custom set_setup_values get_values_map_for_setup
swap_custom env a b actor name x =
    let maps = maps_of a b x in
    let old_value = get_or_null name maps.0 in
    let value_b = get_or_null name maps.1 in
    let db1 = ensure_custom env b name value_b (ensure_custom env a name old_value x.db) in
    let (r, db2) =
      and_then (set_value env a name value_b actor db1) (set_value env b name old_value actor) in
    (r, noted name old_value value_b (record x { db = db2; template_values = some maps }))

-- The body of the loop.
unfoldable pub swap_column : Env → Setup → Setup → User → Text → Loop → Result (Unit {0}) × Loop
unfolding swap_fixed swap_custom
swap_column env a b actor name x = elim (field_of name) [
  | some f ↦ (ok tt, swap_fixed a.id b.id name f x)
  | none ↦
      if env.has_template then swap_custom env a b actor name x else (err AppError.validation, x)
]

-- `for column_name in column_names`
unfoldable pub swap_columns :
    Env → Setup → Setup → User → List Text → Loop → Result (Unit {0}) × Loop
swap_columns env a b actor [] x = (ok tt, x)
swap_columns env a b actor (name ∷ names) x =
    let (r, x') = swap_column env a b actor name x in
    elim r [ ok _ ↦ swap_columns env a b actor names x' | err e ↦ (err e, x') ]

abbrev pub start : Db → Loop
start db = record { db = db; template_values = none; old_values = []; new_values = [] }

-- The row of an approved swap: the values before the exchange are kept where there are columns.
abbrev pub completed : List Text → Loop → Option Text → User → SwapRequest → SwapRequest
completed names x reason actor s =
    let row = decided SwapStatus.completed reason actor s in
    if is_nil names then row else record row {
      previous_current_value = encode_value_map x.old_values;
      previous_requested_value = encode_value_map x.new_values;
    }

abbrev pub change_log : ℕ → Text → Option Text → Option Text → ℕ → ℕ → HardwareChangeLog
change_log setup name old new swap actor = record {
  setup_id = setup;
  field_name = name;
  old_value = old;
  new_value = new;
  source_request_id = swap;
  changed_by_id = actor;
}

-- The two rows of the ledger for each column.
unfoldable pub ledger_rows : ℕ → ℕ → ℕ → ℕ → Loop → List Text → List HardwareChangeLog
ledger_rows a b swap actor x [] = []
ledger_rows a b swap actor x (name ∷ names) =
    let old = get_or_null name x.old_values in
    let new = get_or_null name x.new_values in
    change_log a name old new swap actor
    ∷ change_log b name new old swap actor
    ∷ ledger_rows a b swap actor x names

-- The writes after the loop.
unfoldable pub finish_swap : Env → Swap → List Text → Option Text → User → Loop → Action SwapRequest
unfolding ledger_rows encode_value_map
finish_swap env w names reason actor x db = (
  ok (completed names x reason actor w.request),
  record db {
    swaps = update_swap w.request.id (completed names x reason actor) db.swaps;
    change_logs =
        if env.has_change_log
        then db.change_logs ++ ledger_rows w.current.id w.requested.id w.request.id actor.id x names
        else db.change_logs;
    journal =
        record_audit (some actor.id) AuditAction.update EntityType.setup (some w.requested.id) (
          record_audit (some actor.id) AuditAction.update EntityType.setup (some w.current.id) (
            record_audit (some actor.id) AuditAction.approve EntityType.swap_request
              (some w.request.id) db.journal));
  },
)

-- The exchange and what follows it.
unfoldable pub exchange : Env → Swap → Option Text → User → Action SwapRequest
unfolding ensure_both swap_columns finish_swap column_names
exchange env w reason actor db =
    let names = column_names w.request in
    let (r, x) =
      swap_columns env w.current w.requested actor names
        (start (ensure_both env names w.current w.requested db)) in
    elim r [ ok _ ↦ finish_swap env w names reason actor x x.db | err e ↦ (err e, x.db) ]

-- `approve`
unfoldable pub approve : Env → ℕ → Option Text → User → Action SwapRequest
unfolding approve_checks exchange
approve env key reason actor db = elim (approve_checks env key actor db) [
  | ok w ↦ exchange env w reason actor db
  | err e ↦ (err e, db)
]
