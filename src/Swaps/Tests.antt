-- ===== src/Swaps/Tests.antt =====
-- The theorems on swaps at concrete inputs, and a custom column named like a fixed one.
use reservation_tool.Base.{
  ◌≡◌, ◌↔◌, refl, none, some, List, [], ◌∷◌, ◌++◌, arith, text, text_in, true, strip, split,
}
use reservation_tool.Core.Status.{SwapStatus, SetupStatus}
use reservation_tool.Core.Errors.{ok}
use reservation_tool.Db.Rows.{SwapRequest, Db}
use reservation_tool.Hardware.{field_of, field_name}
use reservation_tool.Setups.Table.{get_setup}
use reservation_tool.Samples.{env, dora, anna, machine, db}
use reservation_tool.Swaps.Access.{get_swap, common_swappable_columns}
use reservation_tool.Borrows.Fields.{IsCommon}
use reservation_tool.Swaps.Columns.{column_names}
use reservation_tool.Swaps.Requests.{SwapCreateRequest, Sides, create_checks}
use reservation_tool.Swaps.Exchange.{Swap, approve, approve_checks}
use reservation_tool.Swaps.Fixed.{mixed}
use reservation_tool.Swaps.Ledger.{ledger}
use reservation_tool.Swaps.Rules.{Swappable, create_swap_iff}
use reservation_tool.Swaps.Approval.{approve_exchanges}
use reservation_tool.Swaps.Untouched.{Untouched}
use reservation_tool.Swaps.Histories.{
  Call, asks, approves, rejects, cancels, serve, serve-Untouched,
}

abbrev wish : SwapCreateRequest
wish = record {
  current_setup_id = 10;
  requested_setup_id = 11;
  column_name = none;
  column_names = some (text "ssd" ∷ text "hdd" ∷ []);
  reason = none;
  start_time = none;
  end_time = none;
  announcement_channels = [];
}

abbrev sides : Sides
sides = record {
  current = machine 10 1 (text "a") SetupStatus.reserved;
  requested = machine 11 2 (text "b") SetupStatus.available;
  columns = text "ssd" ∷ text "hdd" ∷ [];
}

create_swap_iff_example :
    ((create_checks env wish dora db ≡ ok sides) ↔ Swappable env wish dora db sides)
    × ((text_in (common_swappable_columns env db sides.current sides.requested) (text "ssd") ≡ true)
        ↔ IsCommon env db sides.current sides.requested (text "ssd"))
create_swap_iff_example = create_swap_iff env wish dora db sides (text "ssd")

abbrev stored : SwapRequest
stored = record {
  id = 3;
  requester_id = 1;
  current_setup_id = some 10;
  requested_setup_id = some 11;
  column_name = text "ssd,hdd";
  previous_current_value = none;
  previous_requested_value = none;
  status = SwapStatus.pending;
  reason = none;
  start_time = none;
  end_time = none;
  announcement_channels = [];
  routed_approver_emails = [];
  approved_by_id = none;
}

abbrev requested : Db
requested = record db { swaps = stored ∷ [] }

abbrev swap : Swap
swap = record { request = stored; current = sides.current; requested = sides.requested }

swap_passes : approve_checks env 3 dora requested ≡ ok swap
unfolding approve_checks
swap_passes = refl

two_names : column_names stored ≡ text "ssd" ∷ text "hdd" ∷ []
unfolding column_names strip split
two_names = refl

approve_exchanges_example :
    ((row : SwapRequest) × ((approve env 3 none dora requested).0 ≡ ok row)
      × (get_swap 3 (approve env 3 none dora requested).1.swaps ≡ some row)
      × (row.status ≡ SwapStatus.completed))
    × (get_setup 10 (approve env 3 none dora requested).1.setups
        ≡ some (mixed (column_names stored) sides.requested.hardware sides.current))
    × (get_setup 11 (approve env 3 none dora requested).1.setups
        ≡ some (mixed (column_names stored) sides.current.hardware sides.requested))
    × (get_setup 12 (approve env 3 none dora requested).1.setups ≡ get_setup 12 requested.setups)
    × ((approve env 3 none dora requested).1.reservations ≡ requested.reservations)
    × ((approve env 3 none dora requested).1.change_logs
        ≡ []
          ++ ledger 10 11 3 4 sides.current.hardware sides.requested.hardware (column_names stored))
unfolding column_names strip split field_of field_name
approve_exchanges_example =
    approve_exchanges env 3 none dora requested swap swap_passes (refl, (refl, tt))
      (refl, (refl, tt)) (omega arith) 12 (omega arith) (omega arith)

abbrev calls : List Call
calls =
    asks env wish dora
    ∷ approves env 1 none dora
    ∷ cancels 1 anna
    ∷ asks env wish dora
    ∷ rejects env 2 none dora
    ∷ []

serve-Untouched_example : Untouched db (serve calls db)
serve-Untouched_example = serve-Untouched calls db
