-- ===== src/Borrows/Approval.antt =====
-- `approve`: whom the setup then serves.
use reservation_tool.Base.{
  ℕ, ◌≡◌, refl, sym, subst, ap, ◌∙◌, true, false, some, List, [], ◌∷◌, ◌++◌, ◌==◌, ==_iff, arith,
  All, find-none, find-some, find-modify, map_option, select,
}
use reservation_tool.Core.Status.{BorrowStatus}
use reservation_tool.Core.Errors.{ok, ◌>>◌, ok-injective}
use reservation_tool.Core.Settings.{Env}
use reservation_tool.Db.Rows.{User, Setup, BorrowRequest, SetupAccessGrant, Journal, Db}
use reservation_tool.Db.Transaction.{checked_ok}
use reservation_tool.Notifications.{broadcast_reservation_event}
use reservation_tool.Setups.Table.{get_setup-id}
use reservation_tool.Borrows.Access.{get_borrow, active_for, get_active_grant_group_ids}
use reservation_tool.Borrows.Requests.{
  notify, update_borrow, expire_all, expire_stale_pending, is_stale,
}
use reservation_tool.Borrows.Verdicts.{
  tell_requester, approve, approve_checks, store_approved, new_grant, decided,
}
use reservation_tool.Borrows.Guards.{Grantable, approve_checks-Grantable}

-- The mail of a decision is always accepted: it makes no announcement.
pub tell_requester_ok :
    (env : Env) (b : BorrowRequest) (s : Setup) (actor : User) (users : List User) (j : Journal)
    → (tell_requester env b s actor users j).0 ≡ ok tt
unfolding tell_requester notify broadcast_reservation_event
tell_requester_ok env b s actor users j = ground arith

pub store_approved_ok :
    (env : Env) (actor : User) (b : BorrowRequest) (s : Setup) (db : Db)
    → (store_approved env actor (b, s) db).0 ≡ ok (decided BorrowStatus.completed actor b)
unfolding store_approved
store_approved_ok env actor b s db =
    ap (λ r. r >> ok (decided BorrowStatus.completed actor b))
      (tell_requester_ok env b s actor db.users _)

-- The last grant is the only active one of its setup.
select_last :
    (key : ℕ) (gs : List SetupAccessGrant) (n : SetupAccessGrant)
    → All (λ g. active_for key g ≡ false) gs
    → active_for key n ≡ true
    → get_active_grant_group_ids key (gs ++ n ∷ []) ≡ n.granted_to_group_id ∷ []
select_last key [] n h on = rw on refl
select_last key (g ∷ gs) n h on = rw (h.0) (select_last key gs n h.1 on)

-- The expiry writes to the requests only.
pub expire_keeps_setups :
    (rows : List BorrowRequest) (db : Db)
    → ((expire_all rows db).setups ≡ db.setups)
      × ((expire_all rows db).grants ≡ db.grants)
      × ((expire_all rows db).reservations ≡ db.reservations)
unfolding expire_all
expire_keeps_setups [] db = (refl, refl, refl)
expire_keeps_setups (b ∷ rows) db = expire_keeps_setups rows _

-- The row that was found by its key, after a write by its primary key.
pub update_borrow-found :
    (key : ℕ) (f : BorrowRequest → BorrowRequest) (bs : List BorrowRequest) {b : BorrowRequest}
    → ((x : BorrowRequest) → (f x).id ≡ x.id)
    → get_borrow key bs ≡ some b
    → get_borrow key (update_borrow b.id f bs) ≡ some (f b)
update_borrow-found key f bs {b} keep e =
    subst (λ k. get_borrow key (update_borrow k f bs) ≡ some (f b))
      (sym ((==_iff b.id key).0 (find-some (λ x. x.id == key) bs e)))
      (find-modify (λ x. x.id == key) f (λ x. ap (λ k. k == key) (keep x)) bs ∙ ap (map_option f) e)

-- The stored request is `r`, its setup serves the borrowing group alone, and the setups and the
-- reservations are those of before.
abbrev pub Granted : ℕ → Db → BorrowRequest → Db → Type 0
Granted key before r after =
    (get_borrow key after.borrows ≡ some r)
    × (get_active_grant_group_ids r.setup_id after.grants ≡ r.target_group_id ∷ [])
    × (after.setups ≡ before.setups)
    × (after.reservations ≡ before.reservations)

store_approved_grants :
    (env : Env) (key : ℕ) (actor : User) (db : Db) {b : BorrowRequest} {s : Setup}
    → Grantable env key actor db b s
    → Granted key db (decided BorrowStatus.completed actor b) (store_approved env actor (b, s) db).1
unfolding store_approved
store_approved_grants env key actor db {b} {s} g = (
  update_borrow-found key (decided BorrowStatus.completed actor) db.borrows (λ x. refl) g.pending.0,
  subst
      (λ k.
        get_active_grant_group_ids k (db.grants ++ new_grant env b s db.grants ∷ [])
        ≡ b.target_group_id ∷ [])
      (get_setup-id b.setup_id db.setups g.found)
      (select_last s.id db.grants (new_grant env b s db.grants)
        (find-none (active_for s.id) db.grants g.unlent) (ground arith)),
  refl,
  refl,
)

-- After an approval the setup serves the borrowing group and no other; the request is stored as
-- returned; the setups, with the groups that own them, and the reservations are untouched.
pub approve_grants :
    (env : Env) (key : ℕ) (actor : User) (db : Db) (r : BorrowRequest)
    → (approve env key actor db).0 ≡ ok r
    → Granted key db r (approve env key actor db).1
unfolding approve expire_stale_pending
approve_grants env key actor db r h =
    let db1 = expire_stale_pending env db in
    let (q, e, stored, run) =
      checked_ok (approve_checks env key actor db1) (store_approved env actor) db1 h in
    let (same_setups, _, same_reservations) =
      expire_keeps_setups (select (is_stale env.now) db.borrows) db in
    let (row, access, setups, reservations) =
      store_approved_grants env key actor db1 (approve_checks-Grantable env key actor db1 e) in
    let same = ok-injective (sym stored ∙ store_approved_ok env actor q.0 q.1 db1) in
    subst (λ x. Granted key db x (approve env key actor db).1) (sym same)
      (subst (λ x. Granted key db (decided BorrowStatus.completed actor q.0) x.1) (sym run)
        (row, access, setups ∙ same_setups, reservations ∙ same_reservations))
