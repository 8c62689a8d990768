-- ===== src/Borrows/Validity/Writes.antt =====
-- The writes of the workflow keep the tables valid: a new request, and one that closes unheld.
use reservation_tool.Base.{
  ℕ, ◌≡◌, ◌≢◌, sym, subst, ◌∙◌, inl, inr, true, false, some, List, [], ◌∷◌, ◌++◌, ◌==◌, ==_iff,
  ◌&&◌, ◌||◌, arith, All, All-imp, All-append, All-modify, Pairwise, Pairwise-append,
  Pairwise-modify, find-some, Bool-cases, both_values, if◌then◌else◌,
}
use reservation_tool.Core.Status.{BorrowStatus, borrow_pending, borrow_completed}
use reservation_tool.Db.Rows.{BorrowRequest, SetupAccessGrant}
use reservation_tool.Borrows.Access.{is_open, get_borrow}
use reservation_tool.Borrows.Requests.{update_borrow}
use reservation_tool.Borrows.Validity.{BothOpen, Carries, Opens, IsValid}
use reservation_tool.Keys.{Any, Any-append, Any-modify, All-Any, found_unique}

-- A new PENDING request, for a setup that no open one is about.
pub insert-IsValid :
    (bs : List BorrowRequest) (gs : List SetupAccessGrant) (n : BorrowRequest)
    → All (λ b. b.id ≢ n.id) bs
    → borrow_completed n.status ≡ false
    → All (λ b. (b.setup_id == n.setup_id && is_open b) ≡ false) bs
    → IsValid bs gs
    → IsValid (bs ++ n ∷ []) gs
insert-IsValid bs gs n fresh pending free v = record {
  borrow_keys = Pairwise-append _ bs n v.borrow_keys fresh;
  grant_keys = v.grant_keys;
  grant_requests = v.grant_requests;
  one_open =
      Pairwise-append (λ a b. ¬ BothOpen a b) bs n v.one_open
        (All-imp (λ b. (b.setup_id == n.setup_id && is_open b) ≡ false) (λ b. ¬ BothOpen b n)
          (λ b h c. not_both b h c) bs free);
  one_active = v.one_active;
  backed =
      All-imp (λ g. g.is_active ≡ true → Any (Carries g) bs)
        (λ g. g.is_active ≡ true → Any (Carries g) (bs ++ n ∷ []))
        (λ g k t. Any-append (Carries g) bs n (k t)) gs v.backed;
  held =
      All-append (λ b. borrow_completed b.status ≡ true → Any (Opens b) gs) bs n v.held
        (λ t. absurd (cc));
}
  where
    not_both :
        (b : BorrowRequest) → (b.setup_id == n.setup_id && is_open b) ≡ false → BothOpen b n → ⊥
    not_both b h c = ground (arith, (==_iff b.setup_id n.setup_id).1 c.0, c.1)

-- No row with the key is COMPLETED.
abbrev pub NotHeld : ℕ → List BorrowRequest → Type 0
NotHeld key = All (λ b. b.id ≡ key → borrow_completed b.status ≡ false)

-- The write ends a request and touches neither its key nor what it is about.
abbrev pub Closes : (BorrowRequest → BorrowRequest) → Type 0
Closes f =
    (b : BorrowRequest)
    → ((f b).id ≡ b.id)
      × ((f b).setup_id ≡ b.setup_id)
      × ((f b).target_group_id ≡ b.target_group_id)
      × (is_open (f b) ≡ false)

-- A request that is found PENDING is not held by its key.
pub found-NotHeld :
    (bs : List BorrowRequest) (key : ℕ) {b : BorrowRequest}
    → Pairwise (λ a c. a.id ≢ c.id) bs
    → get_borrow key bs ≡ some b
    → borrow_pending b.status ≡ true
    → NotHeld b.id bs
found-NotHeld bs key {b} u e p =
    All-imp (λ x. x.id ≡ key → x ≡ b) (λ x. x.id ≡ b.id → borrow_completed x.status ≡ false)
      (λ x same t. step x same t) bs (found_unique (λ x. x.id) bs key u e)
  where
    key_of : b.id ≡ key
    key_of = (==_iff b.id key).0 (find-some (λ x. x.id == key) bs e)

    step :
        (x : BorrowRequest) → (x.id ≡ key → x ≡ b) → x.id ≡ b.id → borrow_completed x.status ≡ false
    step x same t =
        subst (λ y. borrow_completed y.status ≡ false) (sym (same (t ∙ key_of))) (ground arith)

-- What is COMPLETED is open.
pub not_open :
    (s : BorrowStatus)
    → (borrow_pending s || borrow_completed s) ≡ false
    → borrow_completed s ≡ true
    → ⊥
not_open s h t = ground arith

module _ (f : BorrowRequest → BorrowRequest) (closes : Closes f) (key : ℕ) where
  pub closed_open :
      (a b : BorrowRequest)
      → ¬ BothOpen a b
      → ¬ BothOpen (if a.id == key then f a else a) (if b.id == key then f b else b)
  closed_open a b n c = ground (arith, n, c, closes a, closes b)

  keeps_ids :
      (a b : BorrowRequest)
      → a.id ≢ b.id
      → (if a.id == key then f a else a).id ≢ (if b.id == key then f b else b).id
  keeps_ids a b n c = ground (arith, n, c, closes a, closes b)

  still-Carries :
      (g : SetupAccessGrant) (b : BorrowRequest)
      → (b.id ≡ key → borrow_completed b.status ≡ false) × Carries g b
      → Carries g (if b.id == key then f b else b)
  still-Carries g b (n, c) = elim (Bool-cases (b.id == key)) [
    | inl t ↦ absurd (both_values (n ((==_iff b.id key).0 t)) c.1)
    | inr e ↦ rw e c
  ]

  still_held :
      (gs : List SetupAccessGrant) (b : BorrowRequest)
      → (borrow_completed b.status ≡ true → Any (Opens b) gs)
      → borrow_completed (if b.id == key then f b else b).status ≡ true
      → Any (Opens (if b.id == key then f b else b)) gs
  still_held gs b h t = elim (Bool-cases (b.id == key)) [
    | inl e ↦ absurd (not_open (f b).status (closes b).3 (rw e at t))
    | inr e ↦ rw e (h (rw e at t))
  ]

  -- A request that is not COMPLETED ends.
  pub close-IsValid :
      (bs : List BorrowRequest) (gs : List SetupAccessGrant)
      → NotHeld key bs
      → IsValid bs gs
      → IsValid (update_borrow key f bs) gs
  close-IsValid bs gs free v = record {
    borrow_keys =
        Pairwise-modify (λ a b. a.id ≢ b.id) (λ b. b.id == key) f keeps_ids bs v.borrow_keys;
    grant_keys = v.grant_keys;
    grant_requests = v.grant_requests;
    one_open =
        Pairwise-modify (λ a b. ¬ BothOpen a b) (λ b. b.id == key) f closed_open bs v.one_open;
    one_active = v.one_active;
    backed =
        All-imp (λ g. g.is_active ≡ true → Any (Carries g) bs)
          (λ g. g.is_active ≡ true → Any (Carries g) (update_borrow key f bs))
          (λ g k t.
            Any-modify (λ b. (b.id ≡ key → borrow_completed b.status ≡ false) × Carries g b)
              (Carries g) (λ b. b.id == key) f (still-Carries g) bs
              (All-Any (λ b. b.id ≡ key → borrow_completed b.status ≡ false) (Carries g) bs free
                (k t)))
          gs v.backed;
    held =
        All-modify (λ b. borrow_completed b.status ≡ true → Any (Opens b) gs)
          (λ b. borrow_completed b.status ≡ true → Any (Opens b) gs) (λ b. b.id == key) f
          (still_held gs) bs v.held;
  }
