-- ===== src/Borrows/Verdict.antt =====
-- Exactly when `approve` and `reject` succeed, in terms of the tables of before.
use mathlib.Core.Option.{some-injective}
use reservation_tool.Base.{
  ℕ, ◌≡◌, ◌≢◌, ◌=?◌, refl, sym, subst, ap, ◌∙◌, ◌↔◌, ◌⊎◌, inl, inr, true, ◌&&◌, Option, some, none,
  arith, All, Pairwise, Option-cases, map_option, both_values, none-some, ==_iff,
}
use reservation_tool.Core.Status.{BorrowStatus, borrow_pending}
use reservation_tool.Core.Errors.{Result, ok, ◌>>◌, is_ok, ok-injective}
use reservation_tool.Core.Settings.{Env}
use reservation_tool.Db.Rows.{User, Setup, BorrowRequest, Journal, Db}
use reservation_tool.Db.Transaction.{checked, checked_ok}
use reservation_tool.Setups.Table.{get_setup}
use reservation_tool.Borrows.Access.{get_borrow, assert_can_decide, can_decide, routed_approvers}
use reservation_tool.Borrows.Requests.{expire_stale_pending}
use reservation_tool.Borrows.Verdicts.{
  approve, approve_checks, store_approved, decided, reject, reject_checks, store_rejected,
  tell_requester,
}
use reservation_tool.Borrows.Guards.{
  Pending, Grantable, approve_checks-Grantable, Grantable-approve_checks, reject_checks-Rejectable,
  Rejectable-reject_checks,
}
use reservation_tool.Borrows.Rules.{
  Ended, IsUsable, IsUnlent, pending_iff, usable_iff, IsUnlent-iff, ungranted_iff,
}
use reservation_tool.Borrows.Ended.{expires-Ended, found_expired, expire_keeps}
use reservation_tool.Borrows.Decisions.{MayDecide, assert_can_decide_iff}
use reservation_tool.Borrows.Approval.{store_approved_ok, tell_requester_ok}

-- A request that waits, its window not yet ended.
abbrev pub Waits : Env → ℕ → Db → BorrowRequest → Type 0
Waits env key db b =
    (get_borrow key db.borrows ≡ some b) × (b.status ≡ BorrowStatus.pending) × (¬ Ended env.now b)

-- What waits after the expiry is what waits before.
Waits-iff :
    (env : Env) (key : ℕ) (db : Db) (b : BorrowRequest)
    → Pairwise (λ x y. x.id ≢ y.id) db.borrows
    → Pending key (expire_stale_pending env db) b ↔ Waits env key db b
Waits-iff env key db b u = (
  λ h. elim (Option-cases (get_borrow key db.borrows)) [
    | inl e ↦ absurd (none-some (sym (found_expired env key db u ∙ ap (map_option _) e) ∙ h.0))
    | inr (x, e) ↦ before x e h (expires-Ended env key db x u e).0
  ],
  λ w. elim (expires-Ended env key db b u w.0).0 [
    | inl h ↦ absurd (w.2 h.0)
    | inr h ↦ (h.1, (pending_iff b.status).1 w.1)
  ],
)
  where
    left_pending :
        (x : BorrowRequest)
        → record x { status = BorrowStatus.expired } ≡ b
        → borrow_pending b.status ≡ true
        → ⊥
    left_pending x e h = both_values (sym (ap (λ y. borrow_pending y.status) e)) h

    before :
        (x : BorrowRequest)
        → get_borrow key db.borrows ≡ some x
        → Pending key (expire_stale_pending env db) b
        → ((Ended env.now x
              × (get_borrow key (expire_stale_pending env db).borrows
                  ≡ some (record x { status = BorrowStatus.expired })))
            ⊎ ((¬ Ended env.now x)
                × (get_borrow key (expire_stale_pending env db).borrows ≡ some x)))
        → Waits env key db b
    before x e h (inl k) = absurd (left_pending x (some-injective _ _ (sym k.1 ∙ h.0)) h.1)
    before x e h (inr k) = subst (Waits env key db) (some-injective _ _ (sym k.1 ∙ h.0)) (
      e,
      (pending_iff x.status).0
          (ap (λ y. borrow_pending y.status) (some-injective _ _ (sym k.1 ∙ h.0)) ∙ h.1),
      k.0,
    )

-- Exactly the rows for which `approve` succeeds.
abbrev pub Approvable : Env → ℕ → User → Db → BorrowRequest → Setup → Type 0
Approvable env key actor db b s =
    Waits env key db b
    × (get_setup b.setup_id db.setups ≡ some s)
    × IsUsable s
    × IsUnlent s.id db.grants
    × (s.group_id ≡ some b.source_group_id)
    × MayDecide env db b actor
    × All (λ g. g.borrow_request_id ≢ b.id) db.grants

owned_iff : (o : Option ℕ) (g : ℕ) → ((o =? g) ≡ true) ↔ (o ≡ some g)
owned_iff none g = (λ h. absurd (cc), λ h. absurd (cc))
owned_iff (some k) g = (λ h. ap some ((==_iff k g).0 h), λ h. (==_iff k g).1 (some-injective _ _ h))

-- The decision reads the users and the hierarchy alone.
decides_iff :
    (env : Env) (db : Db) (b : BorrowRequest) (actor : User)
    → (assert_can_decide env (expire_stale_pending env db) b actor ≡ ok tt)
      ↔ MayDecide env db b actor
unfolding assert_can_decide routed_approvers
decides_iff env db b actor =
    subst (λ r. (r ≡ ok tt) ↔ MayDecide env db b actor) same (assert_can_decide_iff env db b actor)
  where
    same :
        assert_can_decide env db b actor
        ≡ assert_can_decide env (expire_stale_pending env db) b actor
    same = let (users, edges, _, _) = expire_keeps env db in rw (users, edges) refl

Grantable-Approvable :
    (env : Env) (key : ℕ) (actor : User) (db : Db) {b : BorrowRequest} {s : Setup}
    → Pairwise (λ x y. x.id ≢ y.id) db.borrows
    → Grantable env key actor (expire_stale_pending env db) b s
    → Approvable env key actor db b s
Grantable-Approvable env key actor db {b} {s} u g =
    let (_, _, setups, grants) = expire_keeps env db in
    (
      (Waits-iff env key db b u).0 g.pending,
      subst (λ t. get_setup b.setup_id t ≡ some s) setups g.found,
      (usable_iff s.status).0 g.usable,
      subst (IsUnlent s.id) grants ((IsUnlent-iff s.id _).0 g.unlent),
      (owned_iff s.group_id b.source_group_id).0 g.owned,
      (decides_iff env db b actor).0 g.decides,
      subst (All (λ x. x.borrow_request_id ≢ b.id)) grants ((ungranted_iff b.id _).0 g.ungranted),
    )

Approvable-Grantable :
    (env : Env) (key : ℕ) (actor : User) (db : Db) {b : BorrowRequest} {s : Setup}
    → Pairwise (λ x y. x.id ≢ y.id) db.borrows
    → Approvable env key actor db b s
    → Grantable env key actor (expire_stale_pending env db) b s
Approvable-Grantable env key actor db {b} {s} u
      (waits, found, usable, unlent, owned, decides, first) =
    let (_, _, setups, grants) = expire_keeps env db in
    record {
      pending = (Waits-iff env key db b u).1 waits;
      found = subst (λ t. get_setup b.setup_id t ≡ some s) (sym setups) found;
      usable = (usable_iff s.status).1 usable;
      unlent = (IsUnlent-iff s.id _).1 (subst (IsUnlent s.id) (sym grants) unlent);
      owned = (owned_iff s.group_id b.source_group_id).1 owned;
      decides = (decides_iff env db b actor).1 decides;
      ungranted =
          (ungranted_iff b.id _).1
            (subst (All (λ x. x.borrow_request_id ≢ b.id)) (sym grants) first);
    }

-- On a table of requests with unique keys, `approve` succeeds exactly when: the request is stored and
-- PENDING, and its window has not ended; its setup exists, is neither in MAINTENANCE nor RETIRED, is lent
-- to no group, and belongs to the group that the request names; the actor is not the requester, and is
-- an owner, or one of the routed approvers besides the requester, or there is no such approver; and no
-- grant was ever made for the request. What it returns is the request, COMPLETED by the actor.
pub approve_iff :
    (env : Env) (key : ℕ) (actor : User) (db : Db) (r : BorrowRequest)
    → Pairwise (λ x y. x.id ≢ y.id) db.borrows
    → ((approve env key actor db).0 ≡ ok r) ↔ (
        (b : BorrowRequest) × (s : Setup) × Approvable env key actor db b s
        × (r ≡ record b { status = BorrowStatus.completed; approved_by_id = some actor.id }))
unfolding approve
approve_iff env key actor db r u = (
  λ h.
      let (q, e, stored, _) =
        checked_ok (approve_checks env key actor (expire_stale_pending env db))
          (store_approved env actor) (expire_stale_pending env db) h in
      (
        q.0,
        q.1,
        Grantable-Approvable env key actor db u
            (approve_checks-Grantable env key actor (expire_stale_pending env db) e),
        ok-injective
            (sym stored ∙ store_approved_ok env actor q.0 q.1 (expire_stale_pending env db)),
      ),
  λ h.
      let (b, s, may, same) = h in
      ap (λ m. (checked m (store_approved env actor) (expire_stale_pending env db)).0)
        (Grantable-approve_checks env key actor (expire_stale_pending env db)
          (Approvable-Grantable env key actor db u may))
      ∙ store_approved_ok env actor b s (expire_stale_pending env db)
      ∙ ap ok (sym same),
)

-- `reject` ends with the row that its guards have found.
store_rejected_ok :
    (env : Env) (actor : User) (b : BorrowRequest) (db : Db)
    → (store_rejected env actor b db).0 ≡ ok (decided BorrowStatus.rejected actor b)
unfolding store_rejected
store_rejected_ok env actor b db =
    ap (λ r. r >> ok (decided BorrowStatus.rejected actor b))
      (told (get_setup b.setup_id db.setups) _)
  where
    told :
        (o : Option Setup) (j : Journal)
        → (elim o as (λ _. Result (Unit {0}) × Journal) [
          | none ↦ (ok tt, j)
          | some setup ↦ tell_requester env b setup actor db.users j
        ]).0
          ≡ ok tt
    told none j = refl
    told (some setup) j = tell_requester_ok env b setup actor db.users j

-- On a table of requests with unique keys, `reject` accepts a stored request exactly when `can_decide`,
-- which the pages show, says true of it and it is not PENDING with a window that has ended.
pub reject-can_decide :
    (env : Env) (key : ℕ) (actor : User) (db : Db) (b : BorrowRequest)
    → Pairwise (λ x y. x.id ≢ y.id) db.borrows
    → get_borrow key db.borrows ≡ some b
    → ((r : BorrowRequest) × ((reject env key actor db).0 ≡ ok r))
      ↔ ((can_decide env db b actor ≡ true) × (¬ Ended env.now b))
unfolding reject can_decide
reject-can_decide env key actor db b u found = (
  λ h.
      let (r, run) = h in
      let (q, e, _, _) =
        checked_ok (reject_checks env key actor (expire_stale_pending env db))
          (store_rejected env actor) (expire_stale_pending env db) run in
      let (waits, decides) =
        reject_checks-Rejectable env key actor (expire_stale_pending env db) e in
      let (at, pending, on_time) = (Waits-iff env key db q u).0 waits in
      subst (λ x. (can_decide env db x actor ≡ true) × (¬ Ended env.now x))
        (some-injective _ _ (sym at ∙ found))
        (
          both q pending
              ((assert_can_decide_iff env db q actor).1 ((decides_iff env db q actor).0 decides)),
          on_time,
        ),
  λ h.
      let (pending, decides) = parts h.0 in
      (
        decided BorrowStatus.rejected actor b,
        ap (λ m. (checked m (store_rejected env actor) (expire_stale_pending env db)).0)
              (Rejectable-reject_checks env key actor (expire_stale_pending env db) (
                (Waits-iff env key db b u).1 (found, (pending_iff b.status).0 pending, h.1),
                (decides_iff env db b actor).1 ((assert_can_decide_iff env db b actor).0 decides),
              ))
            ∙ store_rejected_ok env actor b (expire_stale_pending env db),
      ),
)
  where
    both :
        (q : BorrowRequest)
        → q.status ≡ BorrowStatus.pending
        → assert_can_decide env db q actor ≡ ok tt
        → (borrow_pending q.status && is_ok (assert_can_decide env db q actor)) ≡ true
    both q p d = rw (p, d) refl

    parts :
        (borrow_pending b.status && is_ok (assert_can_decide env db b actor)) ≡ true
        → (borrow_pending b.status ≡ true) × (assert_can_decide env db b actor ≡ ok tt)
    parts h = (ground arith, ground arith)
