-- ===== src/Reservations/Histories.antt =====
-- Histories of the reservation service: calls in any order, each in its transaction.
use reservation_tool.Base.{ℕ, List, [], ◌∷◌}
use reservation_tool.Core.Settings.{Env}
use reservation_tool.Db.Rows.{User, Db}
use reservation_tool.Db.Transaction.{request, request_keeps}
use reservation_tool.Reservations.{
  ReservationCreateRequest, create, cancel, sweep_expired_reservations,
}
use reservation_tool.Reservations.Overlap.{IsExclusive}
use reservation_tool.Reservations.Create.{create-IsExclusive}
use reservation_tool.Reservations.Cancel.{cancel-IsExclusive}
use reservation_tool.Reservations.Sweep.{sweep-IsExclusive}

-- A request, with the environment in which it runs.
pub data Call : Type 0 where
  creates : Env → ReservationCreateRequest → User → Call
  cancels : ℕ → User → Call
  sweeps : Env → ℕ → Call

-- The tables after one request.
pub serve_one : Call → Db → Db
serve_one (creates env p actor) db = (request (create env p actor) db).1
serve_one (cancels key actor) db = (request (cancel key actor) db).1
serve_one (sweeps env as_of) db = (request (sweep_expired_reservations env as_of) db).1

pub serve : List Call → Db → Db
serve [] db = db
serve (c ∷ cs) db = serve cs (serve_one c db)

serve_one-IsExclusive :
    (c : Call) (db : Db) → IsExclusive db.reservations → IsExclusive (serve_one c db).reservations
unfolding serve_one
serve_one-IsExclusive (creates env p actor) db v =
    request_keeps (λ d. IsExclusive d.reservations) (create env p actor) db
      (create-IsExclusive env p actor db v) v
serve_one-IsExclusive (cancels key actor) db v =
    request_keeps (λ d. IsExclusive d.reservations) (cancel key actor) db
      (cancel-IsExclusive key actor db v) v
serve_one-IsExclusive (sweeps env as_of) db v =
    request_keeps (λ d. IsExclusive d.reservations) (sweep_expired_reservations env as_of) db
      (sweep-IsExclusive env as_of db v) v

-- Whatever the requests and their order, from reservations that are apart (none, say) no two
-- ACTIVE reservations ever hold one setup at one instant.
pub serve-IsExclusive :
    (cs : List Call) (db : Db)
    → IsExclusive db.reservations
    → IsExclusive (serve cs db).reservations
unfolding serve
serve-IsExclusive [] db v = v
serve-IsExclusive (c ∷ cs) db v =
    serve-IsExclusive cs (serve_one c db) (serve_one-IsExclusive c db v)
