-- ===== src/Borrows/Guards.antt =====
-- What the guards of the handlers establish.
use reservation_tool.Base.{
  ℕ, ◌≡◌, refl, subst, true, false, not, Option, some, none, ◌==◌, ◌=?◌, arith, is_some, contains,
  leb,
}
use reservation_tool.Core.Status.{borrow_pending, borrow_completed, is_blocked}
use reservation_tool.Core.Errors.{ok, >>=-eq-ok, raise_if-eq-ok, or_raise-eq-ok, ok-injective}
use reservation_tool.Core.Settings.{Env}
use reservation_tool.Db.Rows.{User, Setup, BorrowRequest, SetupAccessGrant, Db}
use reservation_tool.Setups.Table.{get_setup}
use reservation_tool.Borrows.Access.{
  get_borrow, get_open_for_setup, get_active_grant_for_setup, get_grant_for_borrow,
  assert_can_decide, assert_can_return, validate_field, has_role, requester_roles, truthy,
  group_ids,
}
use reservation_tool.Users.{get_user}
use reservation_tool.Borrows.Requests.{BorrowCreateRequest, Parties, create_checks, is_lead_user}
use reservation_tool.Borrows.Verdicts.{pending_borrow, approve_checks, reject_checks, cancel_checks}
use reservation_tool.Borrows.Returns.{return_checks}

-- A request that the guards of `create` accept.
pub record Requestable (env : Env) (p : BorrowCreateRequest) (actor : User) (db : Db) (q : Parties)
    : Type 0 where
  pub role : has_role requester_roles actor ≡ true
  pub target : truthy actor.group_id ≡ some q.target
  pub ahead : elim p.end_time [ none ↦ false | some end ↦ leb end env.now ] ≡ false
  pub lead : User
  pub lead_found : get_user p.source_lead_id db.users ≡ some lead
  pub lead_valid : is_lead_user lead ≡ true
  pub found : get_setup p.setup_id db.setups ≡ some q.setup
  pub usable : is_blocked q.setup.status ≡ false
  pub owned : q.setup.group_id ≡ some q.source
  pub led : contains (group_ids lead) q.source ≡ true
  pub other : (q.source == q.target) ≡ false
  pub unlent : get_active_grant_for_setup q.setup.id db.grants ≡ none
  pub unasked : get_open_for_setup q.setup.id db.borrows ≡ none
  pub field : validate_field env db q.setup p.hardware_field_name ≡ ok tt

not_some {ℓ} : {A : Type ℓ} (o : Option A) → is_some o ≡ false → o ≡ none
not_some o h = ground arith

pub create_checks-Requestable :
    (env : Env) (p : BorrowCreateRequest) (actor : User) (db : Db) {q : Parties}
    → create_checks env p actor db ≡ ok q
    → Requestable env p actor db q
unfolding create_checks
create_checks-Requestable env p actor db h =
    let (role, h1) = raise_if-eq-ok (not (has_role requester_roles actor)) _ _ h in
    let (g, target, h2) = or_raise-eq-ok (truthy actor.group_id) _ _ h1 in
    let (ahead, h3) = raise_if-eq-ok _ _ _ h2 in
    let (lead, lead_found, h4) = or_raise-eq-ok (get_user p.source_lead_id db.users) _ _ h3 in
    let (lead_valid, h5) = raise_if-eq-ok (not (is_lead_user lead)) _ _ h4 in
    let (setup, found, h6) = or_raise-eq-ok (get_setup p.setup_id db.setups) _ _ h5 in
    let (usable, h7) = raise_if-eq-ok (is_blocked setup.status) _ _ h6 in
    let (source, owned, h8) = or_raise-eq-ok setup.group_id _ _ h7 in
    let (led, h9) = raise_if-eq-ok (not (contains (group_ids lead) source)) _ _ h8 in
    let (other, h10) = raise_if-eq-ok (source == g) _ _ h9 in
    let (unlent, h11) =
      raise_if-eq-ok (is_some (get_active_grant_for_setup setup.id db.grants)) _ _ h10 in
    let (unasked, h12) =
      raise_if-eq-ok (is_some (get_open_for_setup setup.id db.borrows)) _ _ h11 in
    let (_, field, h13) = >>=-eq-ok (validate_field env db setup p.hardware_field_name) _ h12 in
    subst (Requestable env p actor db) (ok-injective h13) (record {
      role = ground arith;
      target = target;
      ahead = ahead;
      lead = lead;
      lead_found = lead_found;
      lead_valid = ground arith;
      found = found;
      usable = usable;
      owned = owned;
      led = ground arith;
      other = other;
      unlent = not_some _ unlent;
      unasked = not_some _ unasked;
      field = field;
    })

-- A request that waits for a decision.
abbrev pub Pending : ℕ → Db → BorrowRequest → Type 0
Pending key db b = (get_borrow key db.borrows ≡ some b) × (borrow_pending b.status ≡ true)

pub pending_borrow-Pending :
    (key : ℕ) (db : Db) {b : BorrowRequest} → pending_borrow key db ≡ ok b → Pending key db b
pending_borrow-Pending key db h =
    let (b, found, h1) = or_raise-eq-ok (get_borrow key db.borrows) _ _ h in
    let (pending, h2) = raise_if-eq-ok (not (borrow_pending b.status)) _ _ h1 in
    subst (Pending key db) (ok-injective h2) (found, ground arith)

-- A request that the guards of `approve` accept, with its setup.
pub record Grantable (env : Env) (key : ℕ) (actor : User) (db : Db) (b : BorrowRequest) (s : Setup)
    : Type 0 where
  pub pending : Pending key db b
  pub found : get_setup b.setup_id db.setups ≡ some s
  pub usable : is_blocked s.status ≡ false
  pub unlent : get_active_grant_for_setup s.id db.grants ≡ none
  pub owned : (s.group_id =? b.source_group_id) ≡ true
  pub decides : assert_can_decide env db b actor ≡ ok tt
  pub ungranted : get_grant_for_borrow b.id db.grants ≡ none

pub approve_checks-Grantable :
    (env : Env) (key : ℕ) (actor : User) (db : Db) {q : BorrowRequest × Setup}
    → approve_checks env key actor db ≡ ok q
    → Grantable env key actor db q.0 q.1
unfolding approve_checks
approve_checks-Grantable env key actor db h =
    let (b, pending, h1) = >>=-eq-ok (pending_borrow key db) _ h in
    let (s, found, h2) = or_raise-eq-ok (get_setup b.setup_id db.setups) _ _ h1 in
    let (usable, h3) = raise_if-eq-ok (is_blocked s.status) _ _ h2 in
    let (unlent, h4) =
      raise_if-eq-ok (is_some (get_active_grant_for_setup s.id db.grants)) _ _ h3 in
    let (owned, h5) = raise_if-eq-ok (not (s.group_id =? b.source_group_id)) _ _ h4 in
    let (_, decides, h6) = >>=-eq-ok (assert_can_decide env db b actor) _ h5 in
    let (ungranted, h7) = raise_if-eq-ok (is_some (get_grant_for_borrow b.id db.grants)) _ _ h6 in
    subst (λ x. Grantable env key actor db x.0 x.1) (ok-injective h7)
      (record {
        pending = pending_borrow-Pending key db pending;
        found = found;
        usable = usable;
        unlent = not_some _ unlent;
        owned = ground arith;
        decides = decides;
        ungranted = not_some _ ungranted;
      })

pub Grantable-approve_checks :
    (env : Env) (key : ℕ) (actor : User) (db : Db) {b : BorrowRequest} {s : Setup}
    → Grantable env key actor db b s
    → approve_checks env key actor db ≡ ok (b, s)
unfolding approve_checks
Grantable-approve_checks env key actor db {b} {s} g =
    rw (g.pending.0, g.pending.1, g.found, g.usable, g.unlent, g.owned, g.decides, g.ungranted) refl

-- A request that the guards of `reject` accept.
abbrev pub Rejectable : Env → ℕ → User → Db → BorrowRequest → Type 0
Rejectable env key actor db b = Pending key db b × (assert_can_decide env db b actor ≡ ok tt)

pub reject_checks-Rejectable :
    (env : Env) (key : ℕ) (actor : User) (db : Db) {b : BorrowRequest}
    → reject_checks env key actor db ≡ ok b
    → Rejectable env key actor db b
unfolding reject_checks
reject_checks-Rejectable env key actor db h =
    let (b, pending, h1) = >>=-eq-ok (pending_borrow key db) _ h in
    let (_, decides, h2) = >>=-eq-ok (assert_can_decide env db b actor) _ h1 in
    subst (Rejectable env key actor db) (ok-injective h2)
      (pending_borrow-Pending key db pending, decides)

pub Rejectable-reject_checks :
    (env : Env) (key : ℕ) (actor : User) (db : Db) {b : BorrowRequest}
    → Rejectable env key actor db b
    → reject_checks env key actor db ≡ ok b
unfolding reject_checks
Rejectable-reject_checks env key actor db (p, d) = rw (p.0, p.1, d) refl

-- A request that the guards of `cancel` accept.
abbrev pub Withdrawable : ℕ → User → Db → BorrowRequest → Type 0
Withdrawable key actor db b = Pending key db b × (b.requester_id ≡ actor.id)

pub cancel_checks-Withdrawable :
    (key : ℕ) (actor : User) (db : Db) {b : BorrowRequest}
    → cancel_checks key actor db ≡ ok b
    → Withdrawable key actor db b
unfolding cancel_checks
cancel_checks-Withdrawable key actor db h =
    let (b, found, h1) = or_raise-eq-ok (get_borrow key db.borrows) _ _ h in
    let (own, h2) = raise_if-eq-ok (not (b.requester_id == actor.id)) _ _ h1 in
    let (pending, h3) = raise_if-eq-ok (not (borrow_pending b.status)) _ _ h2 in
    subst (Withdrawable key actor db) (ok-injective h3) ((found, ground arith), ground arith)

-- A request that the guards of `return_borrow` accept, with its grant.
pub record Returnable (env : Env) (key : ℕ) (actor : User) (db : Db) (b : BorrowRequest)
    (g : SetupAccessGrant) : Type 0 where
  pub found : get_borrow key db.borrows ≡ some b
  pub completed : borrow_completed b.status ≡ true
  pub entitled : assert_can_return env db b actor ≡ ok tt
  pub granted : get_grant_for_borrow b.id db.grants ≡ some g
  pub live : g.is_active ≡ true

pub return_checks-Returnable :
    (env : Env) (key : ℕ) (actor : User) (db : Db) {q : BorrowRequest × SetupAccessGrant}
    → return_checks env key actor db ≡ ok q
    → Returnable env key actor db q.0 q.1
unfolding return_checks
return_checks-Returnable env key actor db h =
    let (b, found, h1) = or_raise-eq-ok (get_borrow key db.borrows) _ _ h in
    let (completed, h2) = raise_if-eq-ok (not (borrow_completed b.status)) _ _ h1 in
    let (_, entitled, h3) = >>=-eq-ok (assert_can_return env db b actor) _ h2 in
    let (g, granted, h4) = or_raise-eq-ok (get_grant_for_borrow b.id db.grants) _ _ h3 in
    let (live, h5) = raise_if-eq-ok (not g.is_active) _ _ h4 in
    subst (λ x. Returnable env key actor db x.0 x.1) (ok-injective h5)
      (record {
        found = found;
        completed = ground arith;
        entitled = entitled;
        granted = granted;
        live = ground arith;
      })

pub Returnable-return_checks :
    (env : Env) (key : ℕ) (actor : User) (db : Db) {b : BorrowRequest} {g : SetupAccessGrant}
    → Returnable env key actor db b g
    → return_checks env key actor db ≡ ok (b, g)
unfolding return_checks
Returnable-return_checks env key actor db r =
    rw (r.found, r.completed, r.entitled, r.granted, r.live) refl
