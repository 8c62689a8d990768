-- ===== src/Swaps/Rules.antt =====
-- Who may raise which swap.
use reservation_tool.Base.{
  All, All-imp, select, select-nil, select-none, both_values, refl, sym, ◌≡◌, ◌≢◌, subst, ap, ◌↔◌,
  inl, inr, Bool, true, false, not, ◌&&◌, ◌||◌, Option, some, none, List, [], ◌∷◌, ◌==◌, ==_iff,
  arith, Text, text_in, Bool-cases,
}
use reservation_tool.Core.Status.{is_blocked}
use reservation_tool.Core.Errors.{
  AppError, ok-injective, or_raise-eq-ok, >>=-eq-ok, raise_if-eq-ok, ok,
}
use reservation_tool.Core.Settings.{Env}
use reservation_tool.Db.Rows.{User, Setup, Db}
use reservation_tool.Setups.Table.{get_setup}
use reservation_tool.Swaps.Holders.{MayRaise, assert_has_setup_access_iff}
use reservation_tool.Swaps.Common.{IsCommon-iff}
use reservation_tool.Borrows.Rules.{IsUsable, usable_iff}
use reservation_tool.Borrows.Fields.{IsCommon}
use reservation_tool.Swaps.Access.{common_swappable_columns, is_nil, assert_has_setup_access}
use reservation_tool.Swaps.Requests.{
  SwapCreateRequest, Sides, resolved_column_names, create_checks, resolve_columns,
}

-- The columns of a request: all that are allowed, or those that it names, each of which is allowed.
abbrev Chosen : List Text → Option (List Text) → List Text → Type 0
Chosen allowed none columns = (columns ≡ allowed) × (allowed ≢ [])
Chosen allowed (some names) columns = (columns ≡ names) × All (λ n. text_in allowed n ≡ true) names

nil_of : (xs : List Text) → not (is_nil xs) ≡ false → xs ≡ []
nil_of [] h = refl
nil_of (x ∷ xs) h = absurd (cc)

resolve_columns_iff :
    (allowed : List Text) (wanted : Option (List Text)) (columns : List Text)
    → (resolve_columns allowed wanted ≡ ok columns) ↔ Chosen allowed wanted columns
unfolding resolve_columns
resolve_columns_iff [] none columns = (λ h. absurd (cc), λ k. absurd (k.1 refl))
resolve_columns_iff (a ∷ as_) none columns =
    (λ h. (sym (ok-injective h), λ e. cc), λ k. ap ok (sym k.0))
resolve_columns_iff allowed (some names) columns = (
  λ h.
      let (t, e) = raise_if-eq-ok (not (is_nil refused)) AppError.validation (ok names) h in
      (
        sym (ok-injective e),
        All-imp (λ n. not (text_in allowed n) ≡ false) (λ n. text_in allowed n ≡ true)
            (λ n b. ground arith) names
            (select-nil (λ n. not (text_in allowed n)) names (nil_of refused t)),
      ),
  λ k.
      rw
        (select-none (λ n. not (text_in allowed n)) names
          (All-imp (λ n. text_in allowed n ≡ true) (λ n. not (text_in allowed n) ≡ false)
            (λ n b. ground arith) names k.1))
        (ap ok (sym k.0)),
)
  where
    refused : List Text
    refused = select (λ n. not (text_in allowed n)) names

-- The columns of a request: all that are common to the setups, or those that it names, each of which is.
abbrev pub Selected : Env → Db → Setup → Setup → Option (List Text) → List Text → Type 0
Selected env db a b none columns =
    (columns ≡ common_swappable_columns env db a b) × (common_swappable_columns env db a b ≢ [])
Selected env db a b (some names) columns = (columns ≡ names) × All (IsCommon env db a b) names

Selected-iff :
    (env : Env) (db : Db) (a b : Setup) (wanted : Option (List Text)) (columns : List Text)
    → Chosen (common_swappable_columns env db a b) wanted columns
      ↔ Selected env db a b wanted columns
Selected-iff env db a b none columns = (λ h. h, λ h. h)
Selected-iff env db a b (some names) columns = (
  λ h. (
    h.0,
    All-imp (λ n. text_in (common_swappable_columns env db a b) n ≡ true) (IsCommon env db a b)
        (λ n. (IsCommon-iff env db a b n).0) names h.1,
  ),
  λ h. (
    h.0,
    All-imp (IsCommon env db a b) (λ n. text_in (common_swappable_columns env db a b) n ≡ true)
        (λ n. (IsCommon-iff env db a b n).1) names h.1,
  ),
)

-- A swap that may be requested, of the setups and the columns of `q`.
pub record Swappable (env : Env) (p : SwapCreateRequest) (actor : User) (db : Db) (q : Sides)
    : Type 0 where
  pub different : p.requested_setup_id ≢ p.current_setup_id
  pub current : get_setup p.current_setup_id db.setups ≡ some q.current
  pub requested : get_setup p.requested_setup_id db.setups ≡ some q.requested
  pub usable : IsUsable q.current × IsUsable q.requested
  pub same_product : env.same_product ≡ true → q.current.product_id ≡ q.requested.product_id
  pub access : MayRaise db q.current actor × MayRaise db q.requested actor
  pub chosen : Selected env db q.current q.requested (resolved_column_names p) q.columns

pub create_checks-Swappable :
    (env : Env) (p : SwapCreateRequest) (actor : User) (db : Db) {q : Sides}
    → create_checks env p actor db ≡ ok q
    → Swappable env p actor db q
unfolding create_checks
create_checks-Swappable env p actor db h =
    let (apart, h1) = raise_if-eq-ok (p.requested_setup_id == p.current_setup_id) _ _ h in
    let (a, found_a, h2) = or_raise-eq-ok (get_setup p.current_setup_id db.setups) _ _ h1 in
    let (b, found_b, h3) = or_raise-eq-ok (get_setup p.requested_setup_id db.setups) _ _ h2 in
    let (usable, h4) = raise_if-eq-ok (is_blocked a.status || is_blocked b.status) _ _ h3 in
    let (same, h5) =
      raise_if-eq-ok (env.same_product && not (a.product_id == b.product_id)) _ _ h4 in
    let (_, access_a, h6) = >>=-eq-ok (assert_has_setup_access db a actor) _ h5 in
    let (_, access_b, h7) = >>=-eq-ok (assert_has_setup_access db b actor) _ h6 in
    let (columns, chosen, h8) =
      >>=-eq-ok (resolve_columns (common_swappable_columns env db a b) (resolved_column_names p)) _
        h7 in
    subst (Swappable env p actor db) (ok-injective h8) (record {
      different = λ e. both_values apart ((==_iff _ _).1 e);
      current = found_a;
      requested = found_b;
      usable = ((usable_iff a.status).0 (ground arith), (usable_iff b.status).0 (ground arith));
      same_product = λ t. (==_iff a.product_id b.product_id).0 (ground arith);
      access = (
        (assert_has_setup_access_iff db a actor).0 access_a,
        (assert_has_setup_access_iff db b actor).0 access_b,
      );
      chosen =
          (Selected-iff env db a b (resolved_column_names p) columns).0
            ((resolve_columns_iff _ (resolved_column_names p) columns).0 chosen);
    })

-- A swap may be requested exactly of two different setups that exist and are neither in maintenance nor
-- retired, of one product where the settings ask for that, by an owner or by a member of a group that
-- holds each of them (a group it is lent to, or its own where it is lent to none; anyone where there is
-- no such group), and for common columns: those that are named, if any, or else all of them, of which
-- there must be one. And a column is common exactly if it is fixed, or, with templates, if the products of
-- both setups have a custom column of this name.
pub create_swap_iff :
    (env : Env) (p : SwapCreateRequest) (actor : User) (db : Db) (q : Sides) (n : Text)
    → ((create_checks env p actor db ≡ ok q) ↔ Swappable env p actor db q)
      × ((text_in (common_swappable_columns env db q.current q.requested) n ≡ true)
          ↔ IsCommon env db q.current q.requested n)
unfolding create_checks
create_swap_iff env p actor db q n = (
  (
    λ h. create_checks-Swappable env p actor db h,
    λ r.
        rw
          (
            apart r.different,
            r.current,
            r.requested,
            either ((usable_iff q.current.status).1 r.usable.0)
                ((usable_iff q.requested.status).1 r.usable.1),
            product r.same_product,
            (assert_has_setup_access_iff db q.current actor).1 r.access.0,
            (assert_has_setup_access_iff db q.requested actor).1 r.access.1,
            (resolve_columns_iff _ (resolved_column_names p) q.columns).1 (
                (Selected-iff env db q.current q.requested (resolved_column_names p) q.columns).1
                  r.chosen),
          )
          refl,
  ),
  IsCommon-iff env db q.current q.requested n,
)
  where
    apart :
        p.requested_setup_id ≢ p.current_setup_id
        → (p.requested_setup_id == p.current_setup_id) ≡ false
    apart ne = ground (arith, ne)

    either : {x y : Bool} → x ≡ false → y ≡ false → (x || y) ≡ false
    either e f = ground arith

    product :
        (env.same_product ≡ true → q.current.product_id ≡ q.requested.product_id)
        → (env.same_product && not (q.current.product_id == q.requested.product_id)) ≡ false
    product k = elim (Bool-cases env.same_product) [
      | inl t ↦ ground (arith, k t)
      | inr f ↦ ground arith
    ]
