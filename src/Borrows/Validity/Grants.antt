-- ===== src/Borrows/Validity/Grants.antt =====
-- The writes of the workflow keep the tables valid: a grant is given, and a grant is closed.
use reservation_tool.Base.{
  ◌≡◌, ◌≢◌, sym, ◌∙◌, inl, inr, Bool, true, false, List, [], ◌∷◌, ◌++◌, ◌==◌, ==_iff, arith, All,
  All-imp, All-append, All-modify, Pairwise-append, Pairwise-modify, Bool-cases, if◌then◌else◌,
}
use reservation_tool.Core.Status.{BorrowStatus, borrow_pending, borrow_completed}
use reservation_tool.Db.Rows.{BorrowRequest, SetupAccessGrant}
use reservation_tool.Borrows.Access.{active_for}
use reservation_tool.Borrows.Requests.{update_borrow}
use reservation_tool.Borrows.Validity.{BothOpen, BothActive, Carries, Opens, IsValid}
use reservation_tool.Keys.{
  Any, Any-append, Any-last, Any-modify, All-Any, Pairwise-with, Pairwise-change,
}

-- The write completes a request and touches neither its key nor what it is about.
abbrev pub Completes : (BorrowRequest → BorrowRequest) → Type 0
Completes f =
    (b : BorrowRequest)
    → ((f b).id ≡ b.id)
      × ((f b).setup_id ≡ b.setup_id)
      × ((f b).target_group_id ≡ b.target_group_id)
      × (borrow_completed (f b).status ≡ true)

-- Rows with the key are about this setup and group, and are PENDING.
abbrev pub Awaits : SetupAccessGrant → BorrowRequest → Type 0
Awaits n b =
    b.id ≡ n.borrow_request_id
    → (borrow_pending b.status ≡ true)
      × (b.setup_id ≡ n.setup_id)
      × (b.target_group_id ≡ n.granted_to_group_id)

module _ (f : BorrowRequest → BorrowRequest) (completes : Completes f) (n : SetupAccessGrant) where
  abbrev hit : BorrowRequest → Bool
  hit b = b.id == n.borrow_request_id

  keeps_ids :
      (a b : BorrowRequest)
      → a.id ≢ b.id
      → (if hit a then f a else a).id ≢ (if hit b then f b else b).id
  keeps_ids a b k c = ground (arith, k, c, completes a, completes b)

  still_apart :
      (a b : BorrowRequest)
      → Awaits n a × Awaits n b × (¬ BothOpen a b)
      → ¬ BothOpen (if hit a then f a else a) (if hit b then f b else b)
  still_apart a b (p, q, k) c = ground (arith, p, q, k, c, completes a, completes b)

  still-Carries :
      (g : SetupAccessGrant) (b : BorrowRequest)
      → Awaits n b × Carries g b
      → Carries g (if hit b then f b else b)
  still-Carries g b (p, c) = elim (Bool-cases (hit b)) [
    | inl t ↦ absurd (not_both b.status (p ((==_iff b.id n.borrow_request_id).0 t)).0 c.1)
    | inr e ↦ rw e c
  ]
    where
      not_both : (s : BorrowStatus) → borrow_pending s ≡ true → borrow_completed s ≡ true → ⊥
      not_both s h t = ground arith

  now-Carries :
      (b : BorrowRequest)
      → Awaits n b × (b.id ≡ n.borrow_request_id)
      → Carries n (if hit b then f b else b)
  now-Carries b (p, e) =
      let (_, s, t) = p e in
      let (i, j, k, l) = completes b in
      rw ((==_iff b.id n.borrow_request_id).1 e) (i ∙ e, l, j ∙ s, k ∙ t)

  still_held :
      (gs : List SetupAccessGrant) (b : BorrowRequest)
      → n.is_active ≡ true
      → (borrow_completed b.status ≡ true → Any (Opens b) gs)
      → borrow_completed (if hit b then f b else b).status ≡ true
      → Any (Opens (if hit b then f b else b)) (gs ++ n ∷ [])
  still_held gs b on h t = elim (Bool-cases (hit b)) [
    | inl e ↦ rw e (
        Any-last (Opens (f b)) gs n
          (sym ((completes b).0 ∙ (==_iff b.id n.borrow_request_id).0 e), on))
    | inr e ↦ rw e (Any-append (Opens b) gs n (h (rw e at t)))
  ]

  -- A PENDING request is completed and its grant is added.
  pub grant-IsValid :
      (bs : List BorrowRequest) (gs : List SetupAccessGrant)
      → n.is_active ≡ true
      → All (Awaits n) bs
      → Any (λ b. b.id ≡ n.borrow_request_id) bs
      → All (λ g. g.id ≢ n.id) gs
      → All (λ g. g.borrow_request_id ≢ n.borrow_request_id) gs
      → All (λ g. active_for n.setup_id g ≡ false) gs
      → IsValid bs gs
      → IsValid (update_borrow n.borrow_request_id f bs) (gs ++ n ∷ [])
  grant-IsValid bs gs on awaits there fresh once free v = record {
    borrow_keys = Pairwise-modify (λ a b. a.id ≢ b.id) hit f keeps_ids bs v.borrow_keys;
    grant_keys = Pairwise-append (λ g h. g.id ≢ h.id) gs n v.grant_keys fresh;
    grant_requests =
        Pairwise-append (λ g h. g.borrow_request_id ≢ h.borrow_request_id) gs n v.grant_requests
          once;
    one_open =
        Pairwise-change (λ a b. Awaits n a × Awaits n b × (¬ BothOpen a b)) (λ a b. ¬ BothOpen a b)
          hit f still_apart bs
          (Pairwise-with (Awaits n) (λ a b. ¬ BothOpen a b) bs awaits v.one_open);
    one_active =
        Pairwise-append (λ g h. ¬ BothActive g h) gs n v.one_active
          (All-imp (λ g. active_for n.setup_id g ≡ false) (λ g. ¬ BothActive g n)
            (λ g h c. ground (arith, h, c)) gs free);
    backed =
        All-append
          (λ g. g.is_active ≡ true → Any (Carries g) (update_borrow n.borrow_request_id f bs)) gs n
          (All-imp (λ g. g.is_active ≡ true → Any (Carries g) bs)
            (λ g. g.is_active ≡ true → Any (Carries g) (update_borrow n.borrow_request_id f bs))
            (λ g k t.
              Any-modify (λ b. Awaits n b × Carries g b) (Carries g) hit f (still-Carries g) bs
                (All-Any (Awaits n) (Carries g) bs awaits (k t)))
            gs v.backed)
          (λ _.
            Any-modify (λ b. Awaits n b × (b.id ≡ n.borrow_request_id)) (Carries n) hit f
              now-Carries bs
              (All-Any (Awaits n) (λ b. b.id ≡ n.borrow_request_id) bs awaits there));
    held =
        All-modify (λ b. borrow_completed b.status ≡ true → Any (Opens b) gs)
          (λ b. borrow_completed b.status ≡ true → Any (Opens b) (gs ++ n ∷ [])) hit f
          (λ b. still_held gs b on) bs v.held;
  }
