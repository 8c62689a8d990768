-- ===== src/Borrows/Tests.antt =====
-- The theorems on borrows at concrete inputs.
use reservation_tool.Base.{
  ◌≡◌, refl, ◌↔◌, ◌⊎◌, inl, map, ◌≤◌, arith, true, none, some, List, [], ◌∷◌, text, length, subst,
}
use mathlib.Core.Option.{some-injective}
use reservation_tool.Core.Status.{SetupStatus, BorrowStatus}
use reservation_tool.Core.Errors.{ok}
use reservation_tool.Db.Rows.{Setup, BorrowRequest}
use reservation_tool.Setups.Table.{get_setup}
use reservation_tool.Routing.{resolve_borrow_approvers}
use reservation_tool.Notifications.{broadcast_reservation_event}
use reservation_tool.Samples.{env, next_key-IsFresh, ben, cleo, machine, wish, db, asked, lent}
use reservation_tool.Borrows.Access.{
  get_borrow, can_decide, can_return, assert_can_decide, assert_can_return, routed_approvers,
}
use reservation_tool.Borrows.Requests.{
  BorrowCreateRequest, Parties, create_checks, notify, expire_all, expire_stale_pending,
}
use reservation_tool.Borrows.Verdicts.{
  approve, approve_checks, store_approved, tell_requester, decided, reject,
}
use reservation_tool.Borrows.Returns.{return_borrow, return_checks, store_returned, returned}
use reservation_tool.Borrows.Lifecycle.{Valid}
use reservation_tool.Borrows.Histories.{Call, approves, returns, serve, serve-Valid}
use reservation_tool.Core.Settings.{Env}
use reservation_tool.Borrows.Rules.{Ended}
use reservation_tool.Borrows.Ended.{expires-Ended}
use reservation_tool.Borrows.Verdict.{Approvable, approve_iff, reject-can_decide}
use reservation_tool.Borrows.Decisions.{MayDecide, assert_can_decide_iff}
use reservation_tool.Borrows.Approval.{Granted, approve_grants}
use reservation_tool.Borrows.Restoration.{Restored, return_restores, return_accepted}
use reservation_tool.Borrows.Asking.{Askable, borrow_checks_iff}

abbrev waiting : BorrowRequest
waiting = wish 5 BorrowStatus.pending

abbrev running : BorrowRequest
running = wish 5 BorrowStatus.completed

asked-Valid : Valid asked
asked-Valid = record {
  borrow_keys = (tt, tt);
  grant_keys = tt;
  grant_requests = tt;
  one_open = (tt, tt);
  one_active = tt;
  backed = tt;
  held = (λ t. absurd (cc), tt);
}

lent-Valid : Valid lent
lent-Valid = record {
  borrow_keys = (tt, tt);
  grant_keys = (tt, tt);
  grant_requests = (tt, tt);
  one_open = (tt, tt);
  one_active = (tt, tt);
  backed = (λ t. inl (refl, refl, refl, refl), tt);
  held = (λ t. inl (refl, refl), tt);
}

abbrev calls : List Call
calls =
    record { env = env; actor = ben; work = approves 5 }
    ∷ record { env = env; actor = cleo; work = returns 5 }
    ∷ []

serve-Valid_example : Valid (serve calls asked)
serve-Valid_example = serve-Valid calls asked (next_key-IsFresh, (next_key-IsFresh, tt)) asked-Valid

assert_can_decide_iff_example :
    (assert_can_decide env asked waiting ben ≡ ok tt) ↔ MayDecide env asked waiting ben
assert_can_decide_iff_example = assert_can_decide_iff env asked waiting ben

reject-can_decide_example :
    ((r : BorrowRequest) × ((reject env 5 ben asked).0 ≡ ok r))
    ↔ ((can_decide env asked waiting ben ≡ true) × (¬ Ended env.now waiting))
reject-can_decide_example = reject-can_decide env 5 ben asked waiting (tt, tt) refl

approve_iff_example :
    ((approve env 5 ben asked).0 ≡ ok (decided BorrowStatus.completed ben waiting)) ↔ (
      (b : BorrowRequest) × (s : Setup) × Approvable env 5 ben asked b s
      × (decided BorrowStatus.completed ben waiting
          ≡ record b { status = BorrowStatus.completed; approved_by_id = some ben.id }))
approve_iff_example =
    approve_iff env 5 ben asked (decided BorrowStatus.completed ben waiting) (tt, tt)

-- The lead of group 1 approves.
approved_run : (approve env 5 ben asked).0 ≡ ok (decided BorrowStatus.completed ben waiting)
unfolding approve approve_checks store_approved tell_requester notify expire_all
    expire_stale_pending assert_can_decide routed_approvers resolve_borrow_approvers
    broadcast_reservation_event
approved_run = refl

approve_grants_example :
    Granted 5 asked (decided BorrowStatus.completed ben waiting) (approve env 5 ben asked).1
approve_grants_example =
    approve_grants env 5 ben asked (decided BorrowStatus.completed ben waiting) approved_run

-- The requester returns what it has borrowed.
may_return : can_return env lent running cleo ≡ true
unfolding can_return assert_can_return routed_approvers
may_return = refl

return_accepted_example : (return_borrow env 5 cleo lent).0 ≡ ok (returned env cleo running)
return_accepted_example = return_accepted env 5 cleo lent running lent-Valid refl may_return short
  where
    short : (s : Setup) → get_setup 10 lent.setups ≡ some s → length s.hostname ≤ 180
    short s e = subst (λ x. length x.hostname ≤ 180) (some-injective _ _ e) (omega arith)

returned_run : (return_borrow env 5 cleo lent).0 ≡ ok (returned env cleo running)
unfolding return_borrow return_checks store_returned notify assert_can_return
    broadcast_reservation_event
returned_run = refl

return_restores_example :
    Restored 5 lent (returned env cleo running) (return_borrow env 5 cleo lent).1
    × ((b : BorrowRequest) × (get_borrow 5 lent.borrows ≡ some b)
        × (returned env cleo running ≡ record b {
          status = BorrowStatus.returned;
          returned_at = some env.now;
          returned_by_id = some cleo.id;
        }))
return_restores_example =
    return_restores env 5 cleo lent (returned env cleo running) lent-Valid returned_run

-- The lead of group 2 asks the lead of group 1.
abbrev wanted : BorrowCreateRequest
wanted = record {
  source_lead_id = 2;
  setup_id = 10;
  hardware_field_name = none;
  start_time = none;
  end_time = some 5000;
  announcement_channels = [];
}

abbrev parties : Parties
parties = record { setup = machine 10 1 (text "a") SetupStatus.reserved; source = 1; target = 2 }

borrow_checks_iff_example :
    (create_checks env wanted cleo db ≡ ok parties) ↔ Askable env wanted cleo db parties
borrow_checks_iff_example = borrow_checks_iff env wanted cleo db parties

-- At 6000 the request's window has ended.
abbrev later : Env
later = record env { now = 6000 }

expires-Ended_example :
    ((Ended 6000 waiting
        × (get_borrow 5 (expire_stale_pending later asked).borrows
            ≡ some (wish 5 BorrowStatus.expired)))
      ⊎ ((¬ Ended 6000 waiting)
          × (get_borrow 5 (expire_stale_pending later asked).borrows ≡ some waiting)))
    × (map (λ x. x.id) (expire_stale_pending later asked).borrows ≡ map (λ x. x.id) asked.borrows)
expires-Ended_example = expires-Ended later 5 asked waiting (tt, tt) refl
