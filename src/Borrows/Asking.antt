-- ===== src/Borrows/Asking.antt =====
-- `create`: exactly when a borrow may be asked for.
use reservation_tool.Base.{
  ℕ, ◌≡◌, ◌≢◌, ◌<◌, ◌↔◌, ◌⊎◌, refl, inl, inr, Bool, true, false, ◌&&◌, Option, none, some, ◌==◌,
  ==_iff, arith, leb, both_values,
}
use reservation_tool.Core.Roles.{RoleName}
use reservation_tool.Core.Status.{UserStatus, user_approved}
use reservation_tool.Core.Errors.{ok}
use reservation_tool.Core.Settings.{Env}
use reservation_tool.Db.Rows.{User, Db}
use reservation_tool.Users.{get_user}
use reservation_tool.Setups.Table.{get_setup}
use reservation_tool.Borrows.Access.{has_role, lead_roles}
use reservation_tool.Borrows.Requests.{BorrowCreateRequest, Parties, create_checks, is_lead_user}
use reservation_tool.Borrows.Guards.{Requestable, create_checks-Requestable}
use reservation_tool.Borrows.Rules.{
  HasRole, requester_iff, lead_iff, Primary, truthy_iff, IsUsable, usable_iff, IsMember,
  IsMember-iff, IsUnlent, IsUnlent-iff, IsUnasked, IsUnasked-iff,
}
use reservation_tool.Borrows.Fields.{IsBorrowable, validate_field_iff}

-- An APPROVED and active lead or manager.
abbrev pub IsLead : User → Type 0
IsLead u =
    (u.status ≡ UserStatus.approved)
    × (u.is_active ≡ true)
    × HasRole (λ n. (n ≡ RoleName.lead) ⊎ (n ≡ RoleName.manager)) u

-- No end, or one that is still to come.
abbrev pub IsAhead : ℕ → Option ℕ → Type 0
IsAhead now o = (o ≡ none) ⊎ ((end : ℕ) × (o ≡ some end) × (now < end))

-- A request that may be made: the setup and the two groups of `q`, of these rows.
abbrev pub Askable : Env → BorrowCreateRequest → User → Db → Parties → Type 0
Askable env p actor db q =
    HasRole (λ n. (n ≡ RoleName.lead) ⊎ ((n ≡ RoleName.manager) ⊎ (n ≡ RoleName.owner))) actor
    × Primary actor.group_id q.target
    × IsAhead env.now p.end_time
    × ((lead : User) × (get_user p.source_lead_id db.users ≡ some lead)
        × IsLead lead
        × IsMember lead q.source)
    × (get_setup p.setup_id db.setups ≡ some q.setup)
    × IsUsable q.setup
    × (q.setup.group_id ≡ some q.source)
    × (q.source ≢ q.target)
    × IsUnlent q.setup.id db.grants
    × IsUnasked q.setup.id db.borrows
    × IsBorrowable env db q.setup p.hardware_field_name

IsAhead-iff :
    (now : ℕ) (o : Option ℕ)
    → (elim o as (λ _. Bool) [ none ↦ false | some end ↦ leb end now ] ≡ false) ↔ IsAhead now o
IsAhead-iff now none = (λ h. inl refl, λ h. refl)
IsAhead-iff now (some end) = (
  λ h. inr (end, refl, ground arith),
  λ h. elim h [ inl e ↦ absurd (cc) | inr k ↦ late k.0 k.1 k.2 ],
)
  where
    late : (t : ℕ) → some end ≡ some t → now < t → leb end now ≡ false
    late t e h = ground arith

approved_iff : (s : UserStatus) → (user_approved s ≡ true) ↔ (s ≡ UserStatus.approved)
approved_iff s = ground arith

IsLead-iff : (u : User) → (is_lead_user u ≡ true) ↔ IsLead u
IsLead-iff u = (
  λ h. ((approved_iff u.status).0 (first h), second h, (lead_iff u).0 (third h)),
  λ k. all ((approved_iff u.status).1 k.0) k.1 ((lead_iff u).1 k.2),
)
  where
    first :
        (user_approved u.status && u.is_active && has_role lead_roles u) ≡ true
        → user_approved u.status ≡ true
    first h = ground arith

    second :
        (user_approved u.status && u.is_active && has_role lead_roles u) ≡ true → u.is_active ≡ true
    second h = ground arith

    third :
        (user_approved u.status && u.is_active && has_role lead_roles u) ≡ true
        → has_role lead_roles u ≡ true
    third h = ground arith

    all :
        user_approved u.status ≡ true
        → u.is_active ≡ true
        → has_role lead_roles u ≡ true
        → (user_approved u.status && u.is_active && has_role lead_roles u) ≡ true
    all a b c = rw (a, b, c) refl

Requestable-iff :
    (env : Env) (p : BorrowCreateRequest) (actor : User) (db : Db) (q : Parties)
    → Requestable env p actor db q ↔ Askable env p actor db q
Requestable-iff env p actor db q = (
  λ r. (
    (requester_iff actor).0 r.role,
    (truthy_iff actor.group_id q.target).0 r.target,
    (IsAhead-iff env.now p.end_time).0 r.ahead,
    (
      r.lead,
      r.lead_found,
      (IsLead-iff r.lead).0 r.lead_valid,
      (IsMember-iff r.lead q.source).0 r.led,
    ),
    r.found,
    (usable_iff q.setup.status).0 r.usable,
    r.owned,
    λ e. both_values r.other ((==_iff q.source q.target).1 e),
    (IsUnlent-iff q.setup.id db.grants).0 r.unlent,
    (IsUnasked-iff q.setup.id db.borrows).0 r.unasked,
    (validate_field_iff env db q.setup p.hardware_field_name).0 r.field,
  ),
  λ a.
      let (
        role,
        target,
        ahead,
        (lead, lead_found, valid, led),
        found,
        usable,
        owned,
        other,
        unlent,
        unasked,
        field,
      ) =
        a in
      record {
        role = (requester_iff actor).1 role;
        target = (truthy_iff actor.group_id q.target).1 target;
        ahead = (IsAhead-iff env.now p.end_time).1 ahead;
        lead = lead;
        lead_found = lead_found;
        lead_valid = (IsLead-iff lead).1 valid;
        found = found;
        usable = (usable_iff q.setup.status).1 usable;
        owned = owned;
        led = (IsMember-iff lead q.source).1 led;
        other = apart other;
        unlent = (IsUnlent-iff q.setup.id db.grants).1 unlent;
        unasked = (IsUnasked-iff q.setup.id db.borrows).1 unasked;
        field = (validate_field_iff env db q.setup p.hardware_field_name).1 field;
      },
)
  where
    apart : q.source ≢ q.target → (q.source == q.target) ≡ false
    apart ne = ground (arith, ne)

Requestable-create_checks :
    (env : Env) (p : BorrowCreateRequest) (actor : User) (db : Db) (q : Parties)
    → Requestable env p actor db q
    → create_checks env p actor db ≡ ok q
unfolding create_checks
Requestable-create_checks env p actor db q r =
    rw
      (
        r.role, r.target, r.ahead, r.lead_found, r.lead_valid, r.found, r.usable, r.owned, r.led,
        r.other, r.unlent, r.unasked, r.field,
      )
      refl

-- The guards of `create` pass exactly when: the one who asks is a lead, a manager or an owner whose
-- primary group, not number 0, is the target; the end, if one is given, is in the future; the named
-- account exists, is APPROVED and active, is a lead or a manager, and is a member of the source group; the
-- setup exists, is neither in maintenance nor retired, and belongs to the source group, which is not the
-- target; no grant of the setup is in force and no request of it is PENDING or COMPLETED; and the named
-- field, if there is one, is a fixed column or, with templates, a custom column of the setup's product.
pub borrow_checks_iff :
    (env : Env) (p : BorrowCreateRequest) (actor : User) (db : Db) (q : Parties)
    → (create_checks env p actor db ≡ ok q) ↔ Askable env p actor db q
borrow_checks_iff env p actor db q = (
  λ h. (Requestable-iff env p actor db q).0 (create_checks-Requestable env p actor db h),
  λ a. Requestable-create_checks env p actor db q ((Requestable-iff env p actor db q).1 a),
)
