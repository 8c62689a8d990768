-- ===== src/Borrows/Validity/Closing.antt =====
-- The writes of a return keep the tables valid: the request and its grant are closed together.
use reservation_tool.Base.{
  ℕ, ◌≡◌, ◌≢◌, refl, sym, subst, ap, ◌∙◌, inl, inr, Bool, true, false, some, List, ◌==◌, ==_iff,
  arith, All, All-modify, All-zip, Pairwise, Pairwise-modify, find-some, Bool-cases, both_values,
  if◌then◌else◌,
}
use reservation_tool.Core.Status.{borrow_completed}
use reservation_tool.Db.Rows.{BorrowRequest, SetupAccessGrant}
use reservation_tool.Borrows.Access.{get_grant_for_borrow}
use reservation_tool.Borrows.Requests.{update_borrow}
use reservation_tool.Borrows.Returns.{update_grant}
use reservation_tool.Borrows.Validity.{BothOpen, BothActive, Carries, Opens, IsValid}
use reservation_tool.Borrows.Validity.Writes.{Closes, not_open, closed_open}
use reservation_tool.Keys.{Any, Any-modify, All-Any, find-Any, found_unique, Any-found}

-- The grant with this key is the one of this request.
abbrev pub Paired : ℕ → ℕ → SetupAccessGrant → Type 0
Paired key grant g =
    (g.borrow_request_id ≡ key → g.id ≡ grant) × (g.id ≡ grant → g.borrow_request_id ≡ key)

pub found-Paired :
    (gs : List SetupAccessGrant) (key : ℕ) {g : SetupAccessGrant}
    → Pairwise (λ a b. a.id ≢ b.id) gs
    → Pairwise (λ a b. a.borrow_request_id ≢ b.borrow_request_id) gs
    → get_grant_for_borrow key gs ≡ some g
    → All (Paired key g.id) gs
found-Paired gs key {g} ids requests e =
    All-zip (λ x. x.borrow_request_id ≡ key → x ≡ g) (λ x. x.id ≡ g.id → x ≡ g) (Paired key g.id)
      (λ x s t.
        (λ same. ap (λ y. y.id) (s same), λ same. ap (λ y. y.borrow_request_id) (t same) ∙ of_key))
      gs (found_unique (λ x. x.borrow_request_id) gs key requests e) by_id
  where
    of_key : g.borrow_request_id ≡ key
    of_key = (==_iff g.borrow_request_id key).0 (find-some (λ x. x.borrow_request_id == key) gs e)

    by_id : All (λ x. x.id ≡ g.id → x ≡ g) gs
    by_id =
        let (r, found, same) =
          Any-found (λ x. x.id) (λ x. x ≡ g) gs g.id ids
            (find-Any (λ x. (x.id ≡ g.id) × (x ≡ g)) (λ x. x.borrow_request_id == key) gs e
              (refl, refl)) in
        subst (λ y. All (λ x. x.id ≡ g.id → x ≡ y) gs) same
          (found_unique (λ x. x.id) gs g.id ids found)

-- The write ends a grant and touches neither its keys nor what it is about.
abbrev pub Shuts : (SetupAccessGrant → SetupAccessGrant) → Type 0
Shuts h =
    (g : SetupAccessGrant)
    → ((h g).id ≡ g.id)
      × ((h g).borrow_request_id ≡ g.borrow_request_id)
      × ((h g).is_active ≡ false)

module _ (f : BorrowRequest → BorrowRequest) (closes : Closes f)
    (h : SetupAccessGrant → SetupAccessGrant) (shuts : Shuts h) (key grant : ℕ) where
  abbrev borrow_hit : BorrowRequest → Bool
  borrow_hit b = b.id == key

  abbrev grant_hit : SetupAccessGrant → Bool
  grant_hit g = g.id == grant

  keeps_borrow_ids :
      (a b : BorrowRequest)
      → a.id ≢ b.id
      → (if borrow_hit a then f a else a).id ≢ (if borrow_hit b then f b else b).id
  keeps_borrow_ids a b n c = ground (arith, n, c, closes a, closes b)

  keeps_grant_ids :
      (a b : SetupAccessGrant)
      → a.id ≢ b.id
      → (if grant_hit a then h a else a).id ≢ (if grant_hit b then h b else b).id
  keeps_grant_ids a b n c = ground (arith, n, c, shuts a, shuts b)

  keeps_requests :
      (a b : SetupAccessGrant)
      → a.borrow_request_id ≢ b.borrow_request_id
      → (if grant_hit a then h a else a).borrow_request_id
        ≢ (if grant_hit b then h b else b).borrow_request_id
  keeps_requests a b n c = ground (arith, n, c, shuts a, shuts b)

  active_apart :
      (a b : SetupAccessGrant)
      → ¬ BothActive a b
      → ¬ BothActive (if grant_hit a then h a else a) (if grant_hit b then h b else b)
  active_apart a b n c = ground (arith, n, c, shuts a, shuts b)

  Carries-on :
      (g : SetupAccessGrant) (b : BorrowRequest)
      → Paired key grant g
      → grant_hit g ≡ false
      → Carries g b
      → Carries g (if borrow_hit b then f b else b)
  Carries-on g b p e c = elim (Bool-cases (borrow_hit b)) [
    | inl t ↦ absurd (both_values e ((==_iff g.id grant).1 (p.0 (sym c.0 ∙ (==_iff b.id key).0 t))))
    | inr k ↦ rw k c
  ]

  backed_on :
      (bs : List BorrowRequest) (g : SetupAccessGrant)
      → Paired key grant g
      → (g.is_active ≡ true → Any (Carries g) bs)
      → (if grant_hit g then h g else g).is_active ≡ true
      → Any (Carries (if grant_hit g then h g else g)) (update_borrow key f bs)
  backed_on bs g p k t = elim (Bool-cases (grant_hit g)) [
    | inl e ↦ absurd (both_values (shuts g).2 (rw e at t))
    | inr e ↦ rw e (
        Any-modify (Carries g) (Carries g) borrow_hit f (λ b c. Carries-on g b p e c) bs
          (k (rw e at t)))
  ]

  Opens-on :
      (b : BorrowRequest) (g : SetupAccessGrant)
      → borrow_hit b ≡ false
      → Paired key grant g × Opens b g
      → Opens b (if grant_hit g then h g else g)
  Opens-on b g e (p, o) = elim (Bool-cases (grant_hit g)) [
    | inl t ↦ absurd (both_values e ((==_iff b.id key).1 (sym o.0 ∙ p.1 ((==_iff g.id grant).0 t))))
    | inr k ↦ rw k o
  ]

  held_on :
      (gs : List SetupAccessGrant) (b : BorrowRequest)
      → All (Paired key grant) gs
      → (borrow_completed b.status ≡ true → Any (Opens b) gs)
      → borrow_completed (if borrow_hit b then f b else b).status ≡ true
      → Any (Opens (if borrow_hit b then f b else b)) (update_grant grant h gs)
  held_on gs b p k t = elim (Bool-cases (borrow_hit b)) [
    | inl e ↦ absurd (not_open (f b).status (closes b).3 (rw e at t))
    | inr e ↦ rw e (
        Any-modify (λ g. Paired key grant g × Opens b g) (Opens b) grant_hit h (λ g. Opens-on b g e)
          gs (All-Any (Paired key grant) (Opens b) gs p (k (rw e at t))))
  ]

  -- The request and the grant that carries it out end together.
  pub shut-IsValid :
      (bs : List BorrowRequest) (gs : List SetupAccessGrant)
      → All (Paired key grant) gs
      → IsValid bs gs
      → IsValid (update_borrow key f bs) (update_grant grant h gs)
  shut-IsValid bs gs paired v = record {
    borrow_keys =
        Pairwise-modify (λ a b. a.id ≢ b.id) borrow_hit f keeps_borrow_ids bs v.borrow_keys;
    grant_keys = Pairwise-modify (λ a b. a.id ≢ b.id) grant_hit h keeps_grant_ids gs v.grant_keys;
    grant_requests =
        Pairwise-modify (λ a b. a.borrow_request_id ≢ b.borrow_request_id) grant_hit h
          keeps_requests gs v.grant_requests;
    one_open =
        Pairwise-modify (λ a b. ¬ BothOpen a b) borrow_hit f (closed_open f closes key) bs
          v.one_open;
    one_active = Pairwise-modify (λ a b. ¬ BothActive a b) grant_hit h active_apart gs v.one_active;
    backed =
        All-modify (λ g. Paired key grant g × (g.is_active ≡ true → Any (Carries g) bs))
          (λ g. g.is_active ≡ true → Any (Carries g) (update_borrow key f bs)) grant_hit h
          (λ g k. backed_on bs g k.0 k.1) gs
          (All-zip (Paired key grant) (λ g. g.is_active ≡ true → Any (Carries g) bs)
            (λ g. Paired key grant g × (g.is_active ≡ true → Any (Carries g) bs)) (λ g p k. (p, k))
            gs paired v.backed);
    held =
        All-modify (λ b. borrow_completed b.status ≡ true → Any (Opens b) gs)
          (λ b. borrow_completed b.status ≡ true → Any (Opens b) (update_grant grant h gs))
          borrow_hit f (λ b. held_on gs b paired) bs v.held;
  }
