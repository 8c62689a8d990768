-- ===== src/Setups/Tests.antt =====
-- The theorems on setups at concrete inputs.
use reservation_tool.Base.{
  ◌≡◌, ◌≢◌, refl, none, some, List, [], ◌∷◌, text, text_eq_iff, both_values, arith,
}
use reservation_tool.Core.Status.{SetupStatus}
use reservation_tool.Db.Rows.{Setup, Db}
use reservation_tool.Setups.Table.{get_setup}
use reservation_tool.Samples.{env, next_key-IsFresh, dora, machine, hardware, db}
use reservation_tool.Setups.{SetupCreateRequest, SetupUpdateRequest}
use reservation_tool.Setups.Identity.{
  IsUnique, creates, deletes, serve_setups, serve_setups-IsUnique,
}
use reservation_tool.Setups.Transitions.{UpdateCall, Reaches, serve_updates, serve_updates-Reaches}

abbrev stocked : Db
stocked = record db { products = record { id = 7; name = text "p" } ∷ [] }

abbrev third : SetupCreateRequest
third = record {
  product_id = 7;
  group_id = none;
  ip_address = text "c";
  hostname = text "c";
  hardware = hardware (text "c");
  owner_id = none;
}

abbrev to_status : SetupStatus → SetupUpdateRequest
to_status status = record {
  product_id = none;
  group_id = none;
  ip_address = none;
  hostname = none;
  hardware = λ _. none;
  owner_id = none;
  status = some status;
}

two_apart : IsUnique stocked.setups
two_apart = ((((omega arith, differ, differ), tt)), (tt, tt))
  where
    differ : text "a" ≢ text "b"
    differ e = both_values refl ((text_eq_iff (text "a") (text "b")).1 e)

serve_setups-IsUnique_example :
    IsUnique
      (serve_setups
        (record { env = env; actor = dora; work = creates third }
          ∷ record { env = env; actor = dora; work = deletes 11 }
          ∷ [])
        stocked).setups
serve_setups-IsUnique_example =
    serve_setups-IsUnique
      (record { env = env; actor = dora; work = creates third }
        ∷ record { env = env; actor = dora; work = deletes 11 }
        ∷ [])
      stocked (next_key-IsFresh, (next_key-IsFresh, tt)) two_apart

abbrev retiring : List UpdateCall
retiring =
    record { env = env; actor = dora; key = 11; payload = to_status SetupStatus.retired }
    ∷ record { env = env; actor = dora; key = 11; payload = to_status SetupStatus.available }
    ∷ []

abbrev setup_11 : Setup
setup_11 = machine 11 2 (text "b") SetupStatus.available

serve_updates-Reaches_example :
    (t : Setup) × (get_setup 11 (serve_updates retiring stocked).setups ≡ some t)
    × Reaches SetupStatus.available t.status
    × (SetupStatus.available ≡ SetupStatus.retired → t.status ≡ SetupStatus.retired)
serve_updates-Reaches_example = serve_updates-Reaches retiring stocked 11 setup_11 refl
