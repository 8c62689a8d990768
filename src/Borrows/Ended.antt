-- ===== src/Borrows/Ended.antt =====
-- What becomes of one request when the stale ones expire.
use reservation_tool.Base.{
  ℕ, ◌≡◌, ◌≢◌, ◌⊎◌, refl, ap, ◌∙◌, inl, inr, Bool, some, List, [], ◌∷◌, map, ◌==◌, Pairwise, arith,
  select, find, modify, map_option, Bool-cases, if◌then◌else◌,
}
use reservation_tool.Core.Status.{BorrowStatus}
use reservation_tool.Core.Settings.{Env}
use reservation_tool.Db.Rows.{BorrowRequest, Db}
use reservation_tool.Borrows.Access.{get_borrow}
use reservation_tool.Borrows.Requests.{with_status, is_stale, expire_all, expire_stale_pending}
use reservation_tool.Borrows.Expiry.{expire_stale_pending_exact}
use reservation_tool.Borrows.Rules.{Ended, is_stale_iff, is_stale_not}

-- A row that is found after a write to some rows is the row of before, with the write if it is one of them.
find-modify_any :
    {A : Type 0} (p q : A → Bool) (f : A → A)
    → ((x : A) → p (f x) ≡ p x)
    → (xs : List A) → find p (modify q f xs) ≡ map_option (λ x. if q x then f x else x) (find p xs)
find-modify_any p q f keep [] = refl
find-modify_any p q f keep (x ∷ xs) = ground (arith, keep x, find-modify_any p q f keep xs)

map-modify :
    {A B : Type 0} (g : A → B) (q : A → Bool) (f : A → A)
    → ((x : A) → g (f x) ≡ g x)
    → (xs : List A) → map g (modify q f xs) ≡ map g xs
map-modify g q f keep [] = refl
map-modify g q f keep (x ∷ xs) = elim (Bool-cases (q x)) [
  | inl t ↦ rw (t, keep x, map-modify g q f keep xs) refl
  | inr e ↦ rw (e, map-modify g q f keep xs) refl
]

-- What is found by a key after the expiry is what was found before, EXPIRED if it was stale.
pub found_expired :
    (env : Env) (key : ℕ) (db : Db)
    → Pairwise (λ x y. x.id ≢ y.id) db.borrows
    → get_borrow key (expire_stale_pending env db).borrows
      ≡ map_option
          (λ x. if is_stale env.now x then with_status BorrowStatus.expired x else x)
          (get_borrow key db.borrows)
found_expired env key db u =
    ap (get_borrow key) (expire_stale_pending_exact env db u)
    ∙ find-modify_any (λ x. x.id == key) (is_stale env.now) (with_status BorrowStatus.expired)
        (λ x. refl) db.borrows

-- On a table with unique keys: a PENDING request whose window has ended before now becomes EXPIRED, and
-- nothing else of it changes; any other request stays as it is; and no request appears or goes away.
pub expires-Ended :
    (env : Env) (key : ℕ) (db : Db) (b : BorrowRequest)
    → Pairwise (λ x y. x.id ≢ y.id) db.borrows
    → get_borrow key db.borrows ≡ some b
    → ((Ended env.now b
          × (get_borrow key (expire_stale_pending env db).borrows
              ≡ some (record b { status = BorrowStatus.expired })))
        ⊎ ((¬ Ended env.now b) × (get_borrow key (expire_stale_pending env db).borrows ≡ some b)))
      × (map (λ x. x.id) (expire_stale_pending env db).borrows ≡ map (λ x. x.id) db.borrows)
expires-Ended env key db b u found = (
  elim (Bool-cases (is_stale env.now b)) [
    | inl t ↦ inl (
      (is_stale_iff env.now b).0 t,
      row ∙ ap (λ v. some (if v then with_status BorrowStatus.expired b else b)) t,
    )
    | inr f ↦ inr (
      is_stale_not env.now b f,
      row ∙ ap (λ v. some (if v then with_status BorrowStatus.expired b else b)) f,
    )
  ],
  ap (map (λ x. x.id)) (expire_stale_pending_exact env db u)
      ∙ map-modify (λ x. x.id) (is_stale env.now) (with_status BorrowStatus.expired) (λ x. refl)
          db.borrows,
)
  where
    row :
        get_borrow key (expire_stale_pending env db).borrows
        ≡ some (if is_stale env.now b then with_status BorrowStatus.expired b else b)
    row =
        found_expired env key db u
        ∙ ap
            (map_option (λ x. if is_stale env.now x then with_status BorrowStatus.expired x else x))
            found

-- The expiry changes neither the users nor the hierarchy.
pub expire_keeps :
    (env : Env) (db : Db)
    → ((expire_stale_pending env db).users ≡ db.users)
      × ((expire_stale_pending env db).edges ≡ db.edges)
      × ((expire_stale_pending env db).setups ≡ db.setups)
      × ((expire_stale_pending env db).grants ≡ db.grants)
unfolding expire_stale_pending
expire_keeps env db = keeps (select (is_stale env.now) db.borrows) db
  where
    keeps :
        (rows : List BorrowRequest) (d : Db)
        → ((expire_all rows d).users ≡ d.users)
          × ((expire_all rows d).edges ≡ d.edges)
          × ((expire_all rows d).setups ≡ d.setups)
          × ((expire_all rows d).grants ≡ d.grants)
    keeps [] d = (refl, refl, refl, refl)
    keeps (r ∷ rows) d = keeps rows _
