-- ===== src/Borrows/Lifecycle.antt =====
-- Every handler of the borrow workflow keeps the tables valid.
use reservation_tool.Base.{
  ℕ, ◌≡◌, ◌≢◌, refl, sym, subst, ◌∙◌, true, false, map, ◌==◌, ==_iff, ◌&&◌, arith, All, All-imp,
  find-none, find-some,
}
use reservation_tool.Core.Status.{BorrowStatus, borrow_pending}
use reservation_tool.Core.Settings.{Env, IsFresh}
use reservation_tool.Db.Rows.{User, Setup, BorrowRequest, Db}
use reservation_tool.Db.Transaction.{checked_keeps}
use reservation_tool.Setups.Table.{get_setup-id}
use reservation_tool.Borrows.Access.{active_for, is_open}
use reservation_tool.Borrows.Requests.{
  BorrowCreateRequest, create, create_checks, store_borrow, new_borrow, with_status,
  expire_stale_pending,
}
use reservation_tool.Borrows.Verdicts.{
  approve, approve_checks, store_approved, new_grant, decided, reject, reject_checks,
  store_rejected, cancel, cancel_checks, store_cancelled,
}
use reservation_tool.Borrows.Returns.{
  return_borrow, return_checks, store_returned, closed, returned,
}
use reservation_tool.Borrows.Validity.{IsValid}
use reservation_tool.Keys.{find-Any, found_unique, fresh_key}
use reservation_tool.Borrows.Validity.Writes.{insert-IsValid, close-IsValid, found-NotHeld}
use reservation_tool.Borrows.Validity.Grants.{grant-IsValid, Awaits}
use reservation_tool.Borrows.Validity.Closing.{shut-IsValid, found-Paired}
use reservation_tool.Borrows.Expiry.{expire-IsValid}
use reservation_tool.Borrows.Guards.{
  create_checks-Requestable, approve_checks-Grantable, reject_checks-Rejectable,
  cancel_checks-Withdrawable, return_checks-Returnable, Grantable,
}

-- The tables of the workflow are valid.
abbrev pub Valid : Db → Type 0
Valid db = IsValid db.borrows db.grants

pub create-Valid :
    (env : Env) (p : BorrowCreateRequest) (actor : User) (db : Db)
    → IsFresh env
    → Valid db
    → Valid (create env p actor db).1
unfolding create store_borrow
create-Valid env p actor db fresh v =
    checked_keeps Valid (create_checks env p actor db) (store_borrow env p actor) db v (λ q e.
      let r = create_checks-Requestable env p actor db e in
      insert-IsValid db.borrows db.grants (new_borrow env p actor q db)
        (fresh_key (λ b. b.id) db.borrows _ (fresh (map (λ b. b.id) db.borrows))) refl
        (find-none (λ b. b.setup_id == q.setup.id && is_open b) db.borrows r.unasked) v)

-- The grant is what the request asked for, by the only row with its key.
awaits :
    (env : Env) (key : ℕ) (actor : User) (db : Db) {b : BorrowRequest} {s : Setup}
    → Valid db
    → Grantable env key actor db b s
    → All (Awaits (new_grant env b s db.grants)) db.borrows
awaits env key actor db {b} {s} v g =
    All-imp (λ x. x.id ≡ key → x ≡ b) (Awaits (new_grant env b s db.grants))
      (λ x same e.
        subst
          (λ y.
            (borrow_pending y.status ≡ true)
            × (y.setup_id ≡ s.id)
            × (y.target_group_id ≡ b.target_group_id))
          (sym (same (e ∙ of_key)))
          (g.pending.1, sym (get_setup-id b.setup_id db.setups g.found), refl))
      db.borrows (found_unique (λ x. x.id) db.borrows key v.borrow_keys g.pending.0)
  where
    of_key : b.id ≡ key
    of_key = (==_iff b.id key).0 (find-some (λ x. x.id == key) db.borrows g.pending.0)

store_approved-Valid :
    (env : Env) (key : ℕ) (actor : User) (db : Db) {b : BorrowRequest} {s : Setup}
    → IsFresh env
    → Valid db
    → Grantable env key actor db b s
    → Valid (store_approved env actor (b, s) db).1
unfolding store_approved
store_approved-Valid env key actor db {b} {s} fresh v g =
    grant-IsValid (decided BorrowStatus.completed actor) (λ x. (refl, refl, refl, refl))
      (new_grant env b s db.grants) db.borrows db.grants refl (awaits env key actor db v g)
      (find-Any (λ x. x.id ≡ b.id) (λ x. x.id == key) db.borrows g.pending.0 refl)
      (fresh_key (λ x. x.id) db.grants _ (fresh (map (λ x. x.id) db.grants)))
      (All-imp (λ x. (x.borrow_request_id == b.id) ≡ false) (λ x. x.borrow_request_id ≢ b.id)
        (λ x h e. ground arith) db.grants
        (find-none (λ x. x.borrow_request_id == b.id) db.grants g.ungranted))
      (find-none (active_for s.id) db.grants g.unlent) v

pub approve-Valid :
    (env : Env) (key : ℕ) (actor : User) (db : Db)
    → IsFresh env
    → Valid db
    → Valid (approve env key actor db).1
unfolding approve
approve-Valid env key actor db fresh v =
    let db1 = expire_stale_pending env db in
    let v1 = expire-IsValid env db v in
    checked_keeps Valid (approve_checks env key actor db1) (store_approved env actor) db1 v1 (λ q e.
      store_approved-Valid env key actor db1 fresh v1
        (approve_checks-Grantable env key actor db1 e))

pub reject-Valid :
    (env : Env) (key : ℕ) (actor : User) (db : Db) → Valid db → Valid (reject env key actor db).1
unfolding reject store_rejected
reject-Valid env key actor db v =
    let db1 = expire_stale_pending env db in
    let v1 = expire-IsValid env db v in
    checked_keeps Valid (reject_checks env key actor db1) (store_rejected env actor) db1 v1 (λ b e.
      let (pending, _) = reject_checks-Rejectable env key actor db1 e in
      close-IsValid (decided BorrowStatus.rejected actor) (λ x. (refl, refl, refl, refl)) b.id
        db1.borrows db1.grants (found-NotHeld db1.borrows key v1.borrow_keys pending.0 pending.1)
        v1)

pub cancel-Valid : (key : ℕ) (actor : User) (db : Db) → Valid db → Valid (cancel key actor db).1
unfolding cancel store_cancelled
cancel-Valid key actor db v =
    checked_keeps Valid (cancel_checks key actor db) (store_cancelled actor) db v (λ b e.
      let (pending, _) = cancel_checks-Withdrawable key actor db e in
      close-IsValid (with_status BorrowStatus.cancelled) (λ x. (refl, refl, refl, refl)) b.id
        db.borrows db.grants (found-NotHeld db.borrows key v.borrow_keys pending.0 pending.1) v)

pub return-Valid :
    (env : Env) (key : ℕ) (actor : User) (db : Db)
    → Valid db
    → Valid (return_borrow env key actor db).1
unfolding return_borrow store_returned
return-Valid env key actor db v =
    checked_keeps Valid (return_checks env key actor db) (store_returned env actor) db v (λ q e.
      let r = return_checks-Returnable env key actor db e in
      shut-IsValid (returned env actor) (λ x. (refl, refl, refl, refl)) (closed env)
        (λ x. (refl, refl, refl)) q.0.id q.1.id db.borrows db.grants
        (found-Paired db.grants q.0.id v.grant_keys v.grant_requests r.granted) v)
