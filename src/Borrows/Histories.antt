-- ===== src/Borrows/Histories.antt =====
-- Histories of the borrow service: calls in any order, each in its transaction.
use reservation_tool.Base.{ℕ, List, [], ◌∷◌, All}
use reservation_tool.Core.Settings.{Env, IsFresh}
use reservation_tool.Db.Rows.{User, Db}
use reservation_tool.Db.Transaction.{request, request_keeps}
use reservation_tool.Borrows.Requests.{BorrowCreateRequest, create, expire_stale_pending}
use reservation_tool.Borrows.Verdicts.{approve, reject, cancel}
use reservation_tool.Borrows.Returns.{return_borrow}
use reservation_tool.Borrows.Expiry.{expire-IsValid}
use reservation_tool.Borrows.Lifecycle.{
  Valid, create-Valid, approve-Valid, reject-Valid, cancel-Valid, return-Valid,
}

-- What is asked of the service; `lists` stands for the expiry that a listing runs first.
pub data Work : Type 0 where
  creates : BorrowCreateRequest → Work
  approves rejects cancels returns : ℕ → Work
  lists : Work

-- A request: what is asked, by whom, and the environment in which it runs.
pub record Call : Type 0 where
  pub env : Env
  pub actor : User
  pub work : Work

pub do_work : Env → User → Work → Db → Db
do_work env actor (creates p) db = (request (create env p actor) db).1
do_work env actor (approves key) db = (request (approve env key actor) db).1
do_work env actor (rejects key) db = (request (reject env key actor) db).1
do_work env actor (cancels key) db = (request (cancel key actor) db).1
do_work env actor (returns key) db = (request (return_borrow env key actor) db).1
do_work env actor lists db = expire_stale_pending env db

pub serve : List Call → Db → Db
unfolding do_work
serve [] db = db
serve (c ∷ cs) db = serve cs (do_work c.env c.actor c.work db)

do_work-Valid :
    (env : Env) (actor : User) (w : Work) (db : Db)
    → IsFresh env
    → Valid db
    → Valid (do_work env actor w db)
unfolding do_work
do_work-Valid env actor (creates p) db fresh v =
    request_keeps Valid (create env p actor) db (create-Valid env p actor db fresh v) v
do_work-Valid env actor (approves key) db fresh v =
    request_keeps Valid (approve env key actor) db (approve-Valid env key actor db fresh v) v
do_work-Valid env actor (rejects key) db fresh v =
    request_keeps Valid (reject env key actor) db (reject-Valid env key actor db v) v
do_work-Valid env actor (cancels key) db fresh v =
    request_keeps Valid (cancel key actor) db (cancel-Valid key actor db v) v
do_work-Valid env actor (returns key) db fresh v =
    request_keeps Valid (return_borrow env key actor) db (return-Valid env key actor db v) v
do_work-Valid env actor lists db fresh v = expire-IsValid env db v

-- Whatever the calls and their order, when the engine gives fresh keys: from valid tables no setup
-- ever has two open requests or two active grants, every active grant carries out the COMPLETED
-- request it names, for its setup and its borrowing group, and every COMPLETED request has its
-- active grant.
pub serve-Valid :
    (cs : List Call) (db : Db) → All (λ c. IsFresh c.env) cs → Valid db → Valid (serve cs db)
unfolding serve
serve-Valid [] db fresh v = v
serve-Valid (c ∷ cs) db fresh v =
    serve-Valid cs (do_work c.env c.actor c.work db) fresh.1
      (do_work-Valid c.env c.actor c.work db fresh.0 v)
