-- ===== src/Borrows/Restoration.antt =====
-- `return_borrow`: it is open to whoever may return, and it restores the access of the setup.
use reservation_tool.Base.{
  ℕ, ◌≡◌, refl, sym, subst, ap, ◌∙◌, ◌⊎◌, inl, inr, ◌≤◌, Bool, true, false, some, List, [], ◌∷◌,
  map, length, ◌==◌, ==_iff, arith, All, All-imp, All-modify, All-find, Pairwise, find-some,
  select-none, Option-cases, Text, if◌then◌else◌,
}
use reservation_tool.Core.Status.{BorrowStatus, Channel, borrow_completed}
use reservation_tool.Core.Errors.{Result, ok, ok-injective, >>=-eq-ok}
use reservation_tool.Core.Settings.{Env}
use reservation_tool.Db.Rows.{User, Setup, BorrowRequest, SetupAccessGrant, Journal, Db}
use reservation_tool.Db.Transaction.{checked_ok}
use reservation_tool.Notifications.Laws.{broadcast_ok}
use reservation_tool.Setups.Table.{get_setup}
use reservation_tool.Borrows.Access.{
  get_borrow, active_for, get_active_grant_group_ids, get_grant_for_borrow, can_return,
}
use reservation_tool.Borrows.Requests.{notify}
use reservation_tool.Borrows.Returns.{
  return_borrow, return_checks, store_returned, update_grant, closed, returned, tell_returned,
}
use reservation_tool.Borrows.Guards.{Returnable, return_checks-Returnable, Returnable-return_checks}
use reservation_tool.Borrows.Validity.{BothActive, Carries, Opens}
use reservation_tool.Keys.{Any, All-Any, find-Any, found_unique, Any-found}
use reservation_tool.Borrows.Lifecycle.{Valid}
use reservation_tool.Borrows.Approval.{update_borrow-found}

-- Where every row of the table would prove the claim, some row does.
from_any {ℓ} : {A : Type ℓ} {C : Type 0} (xs : List A) → Any (λ _. C) xs → C
from_any [] h = absurd h
from_any (x ∷ xs) (inl c) = c
from_any (x ∷ xs) (inr h) = from_any xs h

any_to {ℓ} :
    {A : Type ℓ} {C : Type 0} (P : A → Type 0) (xs : List A) → ((a : A) → P a → C) → Any P xs → C
any_to P [] k h = absurd h
any_to P (x ∷ xs) k (inl p) = k x p
any_to P (x ∷ xs) k (inr h) = any_to P xs k h

-- Every row is this one or is apart from it.
same_or_apart :
    {A : Type 0} (R : A → A → Type 0) (sym_R : (a b : A) → R a b → R b a) (g : A) (xs : List A)
    → Pairwise R xs
    → Any (λ x. x ≡ g) xs
    → All (λ x. (x ≡ g) ⊎ R x g) xs
same_or_apart R sym_R g [] u h = tt
same_or_apart R sym_R g (x ∷ xs) u (inl e) = (
  inl e,
  All-imp (R x) (λ y. (y ≡ g) ⊎ R y g) (λ y r. inr (sym_R g y (subst (λ z. R z y) e r))) xs u.0,
)
same_or_apart R sym_R g (x ∷ xs) u (inr h) = (
  any_to (λ y. R x y × (y ≡ g)) xs (λ y p. inr (subst (R x) p.1 p.0))
      (All-Any (R x) (λ y. y ≡ g) xs u.0 h),
  same_or_apart R sym_R g xs u.1 h,
)

-- The grant of a request in force is of the setup that the request names.
granted_setup :
    (key : ℕ) (db : Db) {b : BorrowRequest} {g : SetupAccessGrant}
    → Valid db
    → get_borrow key db.borrows ≡ some b
    → get_grant_for_borrow b.id db.grants ≡ some g
    → g.is_active ≡ true
    → b.setup_id ≡ g.setup_id
granted_setup key db {b} {g} v found granted live =
    any_to (λ x. (x.id ≡ key → x ≡ b) × Carries g x) db.borrows
      (λ x p. ap (λ y. y.setup_id) (sym (p.0 (p.1.0 ∙ of_request ∙ of_key))) ∙ p.1.2)
      (All-Any (λ x. x.id ≡ key → x ≡ b) (Carries g) db.borrows
        (found_unique (λ x. x.id) db.borrows key v.borrow_keys found)
        (All-find (λ x. x.borrow_request_id == b.id)
          (λ x. x.is_active ≡ true → Any (Carries x) db.borrows) db.grants v.backed granted live))
  where
    of_key : b.id ≡ key
    of_key = (==_iff b.id key).0 (find-some (λ x. x.id == key) db.borrows found)

    of_request : g.borrow_request_id ≡ b.id
    of_request =
        (==_iff g.borrow_request_id b.id).0
          (find-some (λ x. x.borrow_request_id == b.id) db.grants granted)

-- When the grant is closed, no active grant of its setup is left.
none_active :
    (env : Env) (key : ℕ) (gs : List SetupAccessGrant) (g : SetupAccessGrant)
    → Pairwise (λ a b. ¬ BothActive a b) gs
    → Any (λ x. x ≡ g) gs
    → g.setup_id ≡ key
    → g.is_active ≡ true
    → get_active_grant_group_ids key (update_grant g.id (closed env) gs) ≡ []
none_active env key gs g once there at live = ap (map (λ x. x.granted_to_group_id)) (
    select-none (active_for key) (update_grant g.id (closed env) gs) (
      All-modify (λ x. (x ≡ g) ⊎ (¬ BothActive x g)) (λ x. active_for key x ≡ false)
        (λ x. x.id == g.id) (closed env) shut gs
        (same_or_apart (λ a b. ¬ BothActive a b) (λ a b n c. n (sym c.0, c.2, c.1)) g gs once
          there)))
  where
    shut :
        (x : SetupAccessGrant)
        → (x ≡ g) ⊎ (¬ BothActive x g)
        → active_for key (if x.id == g.id then closed env x else x) ≡ false
    shut x (inl e) = rw ((==_iff x.id g.id).1 (ap (λ y. y.id) e)) (ground arith)
    shut x (inr n) = ground (arith, n, at, live)

-- The stored request is `r`, its setup has no active grant, and the setups and the reservations are
-- those of before.
abbrev pub Restored : ℕ → Db → BorrowRequest → Db → Type 0
Restored key before r after =
    (get_borrow key after.borrows ≡ some r)
    × (get_active_grant_group_ids r.setup_id after.grants ≡ [])
    × (after.setups ≡ before.setups)
    × (after.reservations ≡ before.reservations)

store_returned_restores :
    (env : Env) (key : ℕ) (actor : User) (db : Db) {b : BorrowRequest} {g : SetupAccessGrant}
    → Valid db
    → Returnable env key actor db b g
    → Restored key db (returned env actor b) (store_returned env actor (b, g) db).1
unfolding store_returned
store_returned_restores env key actor db {b} {g} v r = (
  update_borrow-found key (returned env actor) db.borrows (λ x. refl) r.found,
  none_active env b.setup_id db.grants g v.one_active
      (find-Any (λ x. x ≡ g) (λ x. x.borrow_request_id == b.id) db.grants r.granted refl)
      (sym (granted_setup key db v r.found r.granted r.live)) r.live,
  refl,
  refl,
)

-- What a call returns when it is accepted is the request as it writes it.
store_returned_row :
    (env : Env) (actor : User) (b : BorrowRequest) (g : SetupAccessGrant) (db : Db)
    {r : BorrowRequest}
    → (store_returned env actor (b, g) db).0 ≡ ok r
    → returned env actor b ≡ r
unfolding store_returned
store_returned_row env actor b g db h =
    let (_, _, row) = >>=-eq-ok _ (λ _. ok (returned env actor b)) h in ok-injective row

-- A return that succeeds, from valid tables, returns the request as it stores it: RETURNED by the actor,
-- now, its other columns as they were. It leaves no active grant of the setup of the request, and the
-- setups and the reservations are untouched.
pub return_restores :
    (env : Env) (key : ℕ) (actor : User) (db : Db) (r : BorrowRequest)
    → Valid db
    → (return_borrow env key actor db).0 ≡ ok r
    → Restored key db r (return_borrow env key actor db).1
      × ((b : BorrowRequest) × (get_borrow key db.borrows ≡ some b)
          × (r ≡ record b {
            status = BorrowStatus.returned;
            returned_at = some env.now;
            returned_by_id = some actor.id;
          }))
unfolding return_borrow
return_restores env key actor db r v h =
    let (q, e, stored, run) =
      checked_ok (return_checks env key actor db) (store_returned env actor) db h in
    let row = store_returned_row env actor q.0 q.1 db stored in
    let may = return_checks-Returnable env key actor db e in
    (
      subst (λ x. Restored key db x (return_borrow env key actor db).1) row
          (subst (λ x. Restored key db (returned env actor q.0) x.1) (sym run)
            (store_returned_restores env key actor db v may)),
      (q.0, may.found, sym row),
    )

-- Closing a grant is never what stops a return: a COMPLETED request of valid tables has its grant.
return_granted :
    (env : Env) (key : ℕ) (actor : User) (db : Db) (b : BorrowRequest)
    → Valid db
    → get_borrow key db.borrows ≡ some b
    → can_return env db b actor ≡ true
    → (g : SetupAccessGrant) × Returnable env key actor db b g
unfolding can_return
return_granted env key actor db b v found may =
    let (g, granted, live) =
      Any-found (λ x. x.borrow_request_id) (λ x. x.is_active ≡ true) db.grants b.id v.grant_requests
        (All-find (λ x. x.id == key)
          (λ x. borrow_completed x.status ≡ true → Any (Opens x) db.grants) db.borrows v.held found
          (ground arith)) in
    (
      g,
      record {
        found = found;
        completed = ground arith;
        entitled = ground arith;
        granted = granted;
        live = live;
      },
    )

if_accepted :
    (b : Bool) (m : Result (Unit {0}) × Journal) (j : Journal)
    → m.0 ≡ ok tt
    → (if b then m else (ok tt, j)).0 ≡ ok tt
if_accepted true m j h = h
if_accepted false m j h = refl

notify_ok :
    (env : Env) (to : List Text) (cs : List Channel) (s : Setup) (actor : User) (users : List User)
    (j : Journal)
    → length s.hostname ≤ 180
    → (notify env to cs s actor users j).0 ≡ ok tt
unfolding notify
notify_ok env to cs s actor users j h =
    if_accepted env.has_notification _ j (broadcast_ok env _ s actor users _ h)

tell_returned_ok :
    (env : Env) (b : BorrowRequest) (actor : User) (db : Db) (j : Journal)
    → ((s : Setup) → get_setup b.setup_id db.setups ≡ some s → length s.hostname ≤ 180)
    → (tell_returned env b actor db j).0 ≡ ok tt
tell_returned_ok env b actor db j short = elim (Option-cases (get_setup b.setup_id db.setups)) [
  | inl e ↦ rw (e, tell_returned) refl
  | inr (s, e) ↦
      rw (e, tell_returned) (notify_ok env _ b.announcement_channels s actor db.users j (short s e))
]

-- In valid tables whoever may return a stored request, as `can_return` tells the pages, returns it:
-- the call succeeds, when the hostname of the setup leaves room in the title of the announcement.
pub return_accepted :
    (env : Env) (key : ℕ) (actor : User) (db : Db) (b : BorrowRequest)
    → Valid db
    → get_borrow key db.borrows ≡ some b
    → can_return env db b actor ≡ true
    → ((s : Setup) → get_setup b.setup_id db.setups ≡ some s → length s.hostname ≤ 180)
    → (return_borrow env key actor db).0 ≡ ok (returned env actor b)
unfolding return_borrow store_returned
return_accepted env key actor db b v found may short =
    let (g, r) = return_granted env key actor db b v found may in
    rw (Returnable-return_checks env key actor db r, tell_returned_ok env b actor db _ short) refl
