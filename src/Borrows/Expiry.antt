-- ===== src/Borrows/Expiry.antt =====
-- `expire_stale_pending`: it keeps the tables valid, and what it leaves.
use reservation_tool.Base.{
  map, modify, Bool, contains, Bool-cases, inl, inr, ap, ◌∙◌, select-cons_true, select-cons_false,
  ℕ, ◌≡◌, ◌≢◌, refl, sym, subst, true, false, List, [], ◌∷◌, ◌==◌, arith, All, All-imp, All-modify,
  All-zip, All-select, select-All, Pairwise, select,
}
use reservation_tool.Core.Status.{BorrowStatus, borrow_completed}
use reservation_tool.Core.Settings.{Env}
use reservation_tool.Db.Rows.{BorrowRequest, Db}
use reservation_tool.Borrows.Requests.{
  with_status, is_stale, expire_one, expire_all, expire_stale_pending,
}
use reservation_tool.Borrows.Validity.{IsValid}
use reservation_tool.Keys.{unique_rows}
use reservation_tool.Borrows.Validity.Writes.{NotHeld, Closes, close-IsValid}

abbrev expired : BorrowRequest → BorrowRequest
expired = with_status BorrowStatus.expired

expired-Closes : Closes expired
expired-Closes b = (refl, refl, refl, refl)

expire_all-IsValid :
    (rows : List BorrowRequest) (db : Db)
    → All (λ b. NotHeld b.id db.borrows) rows
    → IsValid db.borrows db.grants
    → IsValid (expire_all rows db).borrows (expire_all rows db).grants
unfolding expire_all
expire_all-IsValid [] db h v = v
expire_all-IsValid (r ∷ rows) db h v =
    expire_all-IsValid rows (expire_one r db)
      (All-imp (λ b. NotHeld b.id db.borrows) (λ b. NotHeld b.id (expire_one r db).borrows)
        (λ b k.
          All-modify (λ x. x.id ≡ b.id → borrow_completed x.status ≡ false)
            (λ x. x.id ≡ b.id → borrow_completed x.status ≡ false) (λ x. x.id == r.id) expired
            (λ x n. ground (arith, n)) db.borrows k)
        rows h.1)
      (close-IsValid expired expired-Closes r.id db.borrows db.grants h.0 v)

stale-NotHeld :
    (now : ℕ) (bs : List BorrowRequest)
    → Pairwise (λ a b. a.id ≢ b.id) bs
    → All (λ b. NotHeld b.id bs) (select (is_stale now) bs)
stale-NotHeld now bs u =
    All-zip (λ b. All (λ x. x.id ≡ b.id → x ≡ b) bs) (λ b. is_stale now b ≡ true)
      (λ b. NotHeld b.id bs)
      (λ b one stale.
        All-imp (λ x. x.id ≡ b.id → x ≡ b) (λ x. x.id ≡ b.id → borrow_completed x.status ≡ false)
          (λ x same e. subst (λ y. borrow_completed y.status ≡ false) (sym (same e)) (ground arith))
          bs one)
      (select (is_stale now) bs)
      (All-select (λ b. All (λ x. x.id ≡ b.id → x ≡ b) bs) (is_stale now) bs
        (unique_rows (λ b. b.id) bs u))
      (select-All (is_stale now) bs)

pub expire-IsValid :
    (env : Env) (db : Db)
    → IsValid db.borrows db.grants
    → IsValid (expire_stale_pending env db).borrows (expire_stale_pending env db).grants
unfolding expire_stale_pending
expire-IsValid env db v =
    expire_all-IsValid (select (is_stale env.now) db.borrows) db
      (stale-NotHeld env.now db.borrows v.borrow_keys) v

-- Two passes over the rows are one.
two_passes :
    (key : ℕ) (keys : List ℕ) (bs : List BorrowRequest)
    → modify (λ x. contains keys x.id) expired (modify (λ x. x.id == key) expired bs)
      ≡ modify (λ x. contains (key ∷ keys) x.id) expired bs
two_passes key keys [] = refl
two_passes key keys (b ∷ bs) = elim (Bool-cases (b.id == key)) [
  | inl t ↦ elim (Bool-cases (contains keys b.id)) [
    | inl u ↦ simp (t, u, symmetric b.id key t, two_passes key keys bs) refl
    | inr u ↦ simp (t, u, symmetric b.id key t, two_passes key keys bs) refl
  ]
  | inr f ↦ simp (f, symmetric_not b.id key f, two_passes key keys bs) refl
]
  where
    symmetric : (m n : ℕ) → (m == n) ≡ true → (n == m) ≡ true
    symmetric m n h = ground arith

    symmetric_not : (m n : ℕ) → (m == n) ≡ false → (n == m) ≡ false
    symmetric_not m n h = ground arith

no_pass : (bs : List BorrowRequest) → modify (λ x. contains [] x.id) expired bs ≡ bs
no_pass [] = refl
no_pass (b ∷ bs) = ap (λ l. b ∷ l) (no_pass bs)

expire_all-modify :
    (rows : List BorrowRequest) (db : Db)
    → (expire_all rows db).borrows
      ≡ modify (λ x. contains (map (λ b. b.id) rows) x.id) expired db.borrows
unfolding expire_all
expire_all-modify [] db = sym (no_pass db.borrows)
expire_all-modify (r ∷ rows) db =
    expire_all-modify rows (expire_one r db) ∙ two_passes r.id (map (λ b. b.id) rows) db.borrows

absent :
    (now key : ℕ) (bs : List BorrowRequest)
    → All (λ b. key ≢ b.id) bs
    → contains (map (λ b. b.id) (select (is_stale now) bs)) key ≡ false
absent now key [] h = refl
absent now key (b ∷ bs) h = elim (Bool-cases (is_stale now b)) [
  | inl t ↦
      rw (select-cons_true (is_stale now) {x = b} bs t) (ground (arith, h.0, absent now key bs h.1))
  | inr f ↦ rw (select-cons_false (is_stale now) {x = b} bs f) (absent now key bs h.1)
]

-- The keys of these rows are those of the stale ones.
abbrev Lists : ℕ → List BorrowRequest → List BorrowRequest → Type 0
Lists now bs rows = All (λ x. contains (map (λ b. b.id) rows) x.id ≡ is_stale now x) bs

Lists-cons :
    (now : ℕ) (b : BorrowRequest) (bs rows : List BorrowRequest)
    → All (λ x. b.id ≢ x.id) bs
    → Lists now bs rows
    → Lists now bs (b ∷ rows)
Lists-cons now b [] rows ne h = tt
Lists-cons now b (x ∷ xs) rows ne h = (ground (arith, ne.0, h.0), Lists-cons now b xs rows ne.1 h.1)

-- With unique keys a row is listed exactly when it is stale.
listed :
    (now : ℕ) (bs : List BorrowRequest)
    → Pairwise (λ a b. a.id ≢ b.id) bs
    → Lists now bs (select (is_stale now) bs)
listed now [] u = tt
listed now (b ∷ bs) u = elim (Bool-cases (is_stale now b)) [
  | inl t ↦
      subst (Lists now (b ∷ bs)) (sym (select-cons_true (is_stale now) {x = b} bs t))
        (ground (arith, t), Lists-cons now b bs (select (is_stale now) bs) u.0 (listed now bs u.1))
  | inr f ↦
      subst (Lists now (b ∷ bs)) (sym (select-cons_false (is_stale now) {x = b} bs f))
        (absent now b.id bs u.0 ∙ sym f, listed now bs u.1)
]

same_pass :
    (p q : BorrowRequest → Bool) (bs : List BorrowRequest)
    → All (λ x. p x ≡ q x) bs
    → modify p expired bs ≡ modify q expired bs
same_pass p q [] h = refl
same_pass p q (b ∷ bs) h = rw (h.0, same_pass p q bs h.1) refl

-- On a table with unique keys the loop is one pass: exactly the PENDING requests whose window has
-- ended become EXPIRED, every other request stays as it is.
pub expire_stale_pending_exact :
    (env : Env) (db : Db)
    → Pairwise (λ a b. a.id ≢ b.id) db.borrows
    → (expire_stale_pending env db).borrows
      ≡ modify (is_stale env.now) (with_status BorrowStatus.expired) db.borrows
unfolding expire_stale_pending
expire_stale_pending_exact env db u =
    expire_all-modify (select (is_stale env.now) db.borrows) db
    ∙ same_pass (λ x. contains (map (λ b. b.id) (select (is_stale env.now) db.borrows)) x.id)
        (is_stale env.now) db.borrows (listed env.now db.borrows u)
