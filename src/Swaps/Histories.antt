-- ===== src/Swaps/Histories.antt =====
-- The calls of the swap service in any order.
use reservation_tool.Base.{
  not, subst, ◌≡◌, some, true, ◌==◌, refl, arith, ℕ, Option, List, [], ◌∷◌, Text,
}
use reservation_tool.Core.Status.{swap_pending, SwapStatus}
use reservation_tool.Core.Errors.{ok, ok-injective, >>=-eq-ok, or_raise-eq-ok, raise_if-eq-ok}
use reservation_tool.Core.Settings.{Env}
use reservation_tool.Db.Rows.{User, SwapRequest, Db}
use reservation_tool.Db.Transaction.{checked_keeps, request, request_keeps, rollback, Action}
use reservation_tool.Swaps.Access.{get_swap}
use reservation_tool.Swaps.Requests.{
  SwapCreateRequest, create, create_checks, store_swap, reject, reject_checks, store_rejected,
  cancel, cancel_checks, store_cancelled, new_swap, pending_swap, assert_can_reject, decided,
  with_status,
}
use reservation_tool.Swaps.Exchange.{approve}
use reservation_tool.Swaps.Untouched.{Untouched, Untouched-refl, Untouched-trans, writes-Untouched}
use reservation_tool.Swaps.Untouched.Writes.{find-append}
use reservation_tool.Swaps.Untouched.Decisions.{pending_swap-found, update_swap-decisions}
use reservation_tool.Swaps.Untouched.Calls.{approve-Untouched}

pub data Call : Type 0 where
  asks : Env → SwapCreateRequest → User → Call
  approves : Env → ℕ → Option Text → User → Call
  rejects : Env → ℕ → Option Text → User → Call
  cancels : ℕ → User → Call

pub serve_call : Call → Db → Db
serve_call (asks env p actor) db = (request (create env p actor) db).1
serve_call (approves env key reason actor) db = (request (approve env key reason actor) db).1
serve_call (rejects env key reason actor) db = (request (reject env key reason actor) db).1
serve_call (cancels key actor) db = (request (cancel key actor) db).1

pub serve : List Call → Db → Db
serve [] db = db
serve (c ∷ cs) db = serve cs (serve_call c db)

rolled-Untouched : (db after : Db) → Untouched db (rollback db after)
rolled-Untouched db after =
    writes-Untouched db (rollback db after) refl (λ k o e. e) (λ k c v e. e) (λ k s e d. e)

create-Untouched :
    (env : Env) (p : SwapCreateRequest) (actor : User) (db : Db)
    → Untouched db (create env p actor db).1
unfolding create store_swap
create-Untouched env p actor db =
    checked_keeps (Untouched db) (create_checks env p actor db) (store_swap env p actor) db
      (Untouched-refl db)
      (λ q _.
        writes-Untouched db (store_swap env p actor q db).1 refl (λ k o e. e) (λ k c v e. e)
          (λ k s e _. find-append (λ x. x.id == k) db.swaps (new_swap env p actor q db) s e))

reject-Untouched :
    (env : Env) (key : ℕ) (reason : Option Text) (actor : User) (db : Db)
    → Untouched db (reject env key reason actor db).1
unfolding reject reject_checks store_rejected
reject-Untouched env key reason actor db =
    checked_keeps (Untouched db) (reject_checks env key actor db) (store_rejected reason actor) db
      (Untouched-refl db)
      (λ s e.
        let (x, first, e1) = >>=-eq-ok (pending_swap key db) _ e in
        let (_, _, e2) = >>=-eq-ok (assert_can_reject env x actor db) _ e1 in
        let (found, waits) =
          pending_swap-found key db
            (subst (λ y. pending_swap key db ≡ ok y) (ok-injective e2) first) in
        writes-Untouched db (store_rejected reason actor s db).1 refl (λ k o h. h) (λ k c v h. h)
          (update_swap-decisions db.swaps (decided SwapStatus.rejected reason actor) (λ _. refl) key
            found waits))

cancel-Untouched : (key : ℕ) (actor : User) (db : Db) → Untouched db (cancel key actor db).1
unfolding cancel cancel_checks store_cancelled
cancel-Untouched key actor db =
    checked_keeps (Untouched db) (cancel_checks key actor db) (store_cancelled actor) db
      (Untouched-refl db)
      (λ s e.
        let (x, found, e1) = or_raise-eq-ok (get_swap key db.swaps) _ _ e in
        let (_, e2) = raise_if-eq-ok (not (x.requester_id == actor.id)) _ _ e1 in
        let (waits, e3) = raise_if-eq-ok (not (swap_pending x.status)) _ _ e2 in
        let same = ok-injective e3 in
        writes-Untouched db (store_cancelled actor s db).1 refl (λ k o h. h) (λ k c v h. h)
          (update_swap-decisions db.swaps (with_status SwapStatus.cancelled) (λ _. refl) key
            (subst (λ y. get_swap key db.swaps ≡ some y) same found)
            (subst (λ (y : SwapRequest). swap_pending y.status ≡ true) same (ground arith))))

-- A request either commits or leaves the tables as they were.
request-Untouched :
    {A : Type 0} (m : Action A) (db : Db) → Untouched db (m db).1 → Untouched db (request m db).1
request-Untouched m db u = request_keeps (Untouched db) m db u (rolled-Untouched db (m db).1)

serve_call-Untouched : (c : Call) (db : Db) → Untouched db (serve_call c db)
unfolding serve_call
serve_call-Untouched (asks env p actor) db =
    request-Untouched (create env p actor) db (create-Untouched env p actor db)
serve_call-Untouched (approves env key reason actor) db =
    request-Untouched (approve env key reason actor) db (approve-Untouched env key reason actor db)
serve_call-Untouched (rejects env key reason actor) db =
    request-Untouched (reject env key reason actor) db (reject-Untouched env key reason actor db)
serve_call-Untouched (cancels key actor) db =
    request-Untouched (cancel key actor) db (cancel-Untouched key actor db)

-- Whatever calls are made of the swap service and in whatever order, accepted or refused: the users and
-- their roles, the groups, the products and their columns, the reservations, the borrows, the grants
-- and the hierarchy are as before; a setup keeps everything but hardware values; an original value
-- that is recorded, of a fixed or of a custom column, is never changed; and a swap that is decided or
-- withdrawn stays as it is.
pub serve-Untouched : (cs : List Call) (db : Db) → Untouched db (serve cs db)
unfolding serve
serve-Untouched [] db = Untouched-refl db
serve-Untouched (c ∷ cs) db =
    Untouched-trans db (serve_call c db) _ (serve_call-Untouched c db)
      (serve-Untouched cs (serve_call c db))
