-- ===== src/Users/Accounts.antt =====
-- The accounts stay distinct, and a disabled account is never active, whatever is asked.
use reservation_tool.Base.{
  text_eq_ne, ℕ, ◌≡◌, ◌≢◌, refl, inl, inr, Bool, false, not, Option, some, none, List, [], ◌∷◌, map,
  ◌==◌, ◌&&◌, arith, All, All-zip, All-append, All-modify, All-select, Pairwise, Pairwise-append,
  Pairwise-modify, find-none, select, select-cons_true, select-cons_false, is_some, Text, text_eq,
  Bool-cases, if◌then◌else◌,
}
use reservation_tool.Core.Status.{AuditAction}
use reservation_tool.Core.Errors.{AppError, raise_if-eq-ok, or_raise}
use reservation_tool.Core.Settings.{Env, IsFresh}
use reservation_tool.Db.Rows.{Role, User, Db}
use reservation_tool.Db.Transaction.{checked_keeps, request, request_keeps}
use reservation_tool.Users.{
  UserCreateRequest, UserUpdateRequest, UserApprovalRequest, get_user, get_by_username,
  get_by_email, create, create_checks, store_user, new_user, update, update_checks, store_edit,
  edited, delete, deactivated, reactivate, reactivated, store_change, user_disabled,
}
use reservation_tool.Users.Judging.{
  process_approval, approval_checks, store_judged, judged, judging, hard_delete, hard_delete_checks,
  store_removed,
}
use reservation_tool.Keys.{fresh_key}

-- Two accounts that can be told apart by each of the three.
abbrev pub Distinct : User → User → Type 0
Distinct a b = (a.id ≢ b.id) × (a.username ≢ b.username) × (a.email ≢ b.email)

-- Not both DISABLED and active.
abbrev pub IsCoherent : User → Type 0
IsCoherent u = (user_disabled u.status && u.is_active) ≡ false

abbrev pub IsSound : List User → Type 0
IsSound users = Pairwise Distinct users × All IsCoherent users

no_row : (o : Option User) → is_some o ≡ false → o ≡ none
no_row o h = ground arith

create-IsSound :
    (hash : Text → Text) (env : Env) (p : UserCreateRequest) (actor : User) (db : Db)
    → IsFresh env
    → IsSound db.users
    → IsSound (create hash env p actor db).1.users
unfolding create create_checks store_user
create-IsSound hash env p actor db fresh v =
    checked_keeps (λ d. IsSound d.users) (create_checks env p db) (store_user hash env p actor) db v
      (λ role e.
        let row = new_user hash env p actor role db in
        let (names, e1) = raise_if-eq-ok (is_some (get_by_username p.username db.users)) _ _ e in
        let (emails, _) = raise_if-eq-ok (is_some (get_by_email p.email db.users)) _ _ e1 in
        (
          Pairwise-append Distinct db.users row v.0 (
              All-zip (λ u. u.id ≢ row.id)
                (λ u. (text_eq u.username p.username ≡ false) × (text_eq u.email p.email ≡ false))
                (λ u. Distinct u row)
                (λ u key h.
                  (key, text_eq_ne u.username p.username h.0, text_eq_ne u.email p.email h.1))
                db.users (fresh_key (λ u. u.id) db.users _ (fresh (map (λ u. u.id) db.users)))
                (All-zip (λ u. text_eq u.username p.username ≡ false)
                  (λ u. text_eq u.email p.email ≡ false)
                  (λ u. (text_eq u.username p.username ≡ false) × (text_eq u.email p.email ≡ false))
                  (λ u a b. (a, b)) db.users
                  (find-none (λ u. text_eq u.username p.username) db.users (no_row _ names))
                  (find-none (λ u. text_eq u.email p.email) db.users (no_row _ emails)))),
          All-append IsCoherent db.users row v.1 refl,
        ))

-- A change that leaves the names alone and does not put a disabled account to work.
abbrev pub Keeps : (User → User) → Type 0
Keeps f =
    (u : User)
    → ((f u).id ≡ u.id)
      × ((f u).username ≡ u.username)
      × ((f u).email ≡ u.email)
      × (IsCoherent u → IsCoherent (f u))

change-IsSound :
    (actor : User) (action : AuditAction) (f : User → User) (u : User) (db : Db)
    → Keeps f
    → IsSound db.users
    → IsSound (store_change actor action f u db).1.users
unfolding store_change
change-IsSound actor action f u db keeps (v, w) = (
  Pairwise-modify Distinct (λ x. x.id == u.id) f apart db.users v,
  All-modify IsCoherent IsCoherent (λ x. x.id == u.id) f coherent db.users w,
)
  where
    apart :
        (a b : User)
        → Distinct a b
        → Distinct (if a.id == u.id then f a else a) (if b.id == u.id then f b else b)
    apart a b h = elim (Bool-cases (a.id == u.id)) [
      | inl s ↦ elim (Bool-cases (b.id == u.id)) [
        | inl t ↦
            rw (s, t, (keeps a).0, (keeps a).1, (keeps a).2, (keeps b).0, (keeps b).1, (keeps b).2)
              h
        | inr t ↦ rw (s, t, (keeps a).0, (keeps a).1, (keeps a).2) h
      ]
      | inr s ↦ elim (Bool-cases (b.id == u.id)) [
        | inl t ↦ rw (s, t, (keeps b).0, (keeps b).1, (keeps b).2) h
        | inr t ↦ rw (s, t) h
      ]
    ]

    coherent : (a : User) → IsCoherent a → IsCoherent (if a.id == u.id then f a else a)
    coherent a h = elim (Bool-cases (a.id == u.id)) [
      | inl s ↦ rw s ((keeps a).3 h)
      | inr s ↦ rw s h
    ]

edited-Keeps : (p : UserUpdateRequest) (role : Option Role) (db : Db) → Keeps (edited p role db)
edited-Keeps p role db u = ground arith

judged-Keeps : (env : Env) (actor : User) (role : Option Role) → Keeps (judged env actor role)
judged-Keeps env actor none u = (refl, refl, refl, λ _. refl)
judged-Keeps env actor (some r) u = (refl, refl, refl, λ _. refl)

update-IsSound :
    (env : Env) (key : ℕ) (p : UserUpdateRequest) (actor : User) (db : Db)
    → IsSound db.users
    → IsSound (update env key p actor db).1.users
unfolding update store_edit
update-IsSound env key p actor db v =
    checked_keeps (λ d. IsSound d.users) (update_checks env key p db) (store_edit p actor) db v
      (λ q e.
        change-IsSound actor AuditAction.update (edited p q.1 db) q.0 db (edited-Keeps p q.1 db) v)

delete-IsSound :
    (key : ℕ) (actor : User) (db : Db) → IsSound db.users → IsSound (delete key actor db).1.users
unfolding delete
delete-IsSound key actor db v =
    checked_keeps (λ d. IsSound d.users) (or_raise (get_user key db.users) AppError.not_found)
      (store_change actor AuditAction.delete deactivated) db v
      (λ u e.
        change-IsSound actor AuditAction.delete deactivated u db
          (λ x. (refl, refl, refl, λ _. refl)) v)

reactivate-IsSound :
    (key : ℕ) (actor : User) (db : Db)
    → IsSound db.users
    → IsSound (reactivate key actor db).1.users
unfolding reactivate
reactivate-IsSound key actor db v =
    checked_keeps (λ d. IsSound d.users) (or_raise (get_user key db.users) AppError.not_found)
      (store_change actor AuditAction.update reactivated) db v
      (λ u e.
        change-IsSound actor AuditAction.update reactivated u db
          (λ x. (refl, refl, refl, λ _. refl)) v)

approval-IsSound :
    (env : Env) (key : ℕ) (p : UserApprovalRequest) (actor : User) (db : Db)
    → IsSound db.users
    → IsSound (process_approval env key p actor db).1.users
unfolding process_approval store_judged
approval-IsSound env key p actor db v =
    checked_keeps (λ d. IsSound d.users) (approval_checks key p actor db) (store_judged env actor)
      db v
      (λ q e.
        change-IsSound actor (judging q.1) (judged env actor q.1) q.0 db
          (judged-Keeps env actor q.1) v)

select-Distinct :
    (q : User → Bool) (rows : List User)
    → Pairwise Distinct rows
    → Pairwise Distinct (select q rows)
select-Distinct q [] v = tt
select-Distinct q (u ∷ rows) v = elim (Bool-cases (q u)) [
  | inl t ↦
      rw (select-cons_true q rows t)
        (All-select (Distinct u) q rows v.0, select-Distinct q rows v.1)
  | inr f ↦ rw (select-cons_false q rows f) (select-Distinct q rows v.1)
]

hard_delete-IsSound :
    (env : Env) (key : ℕ) (actor : User) (db : Db)
    → IsSound db.users
    → IsSound (hard_delete env key actor db).1.users
unfolding hard_delete store_removed
hard_delete-IsSound env key actor db v =
    checked_keeps (λ d. IsSound d.users) (hard_delete_checks env key db) (store_removed key actor)
      db v
      (λ _ e. (
        select-Distinct (λ u. not (u.id == key)) db.users v.0,
        All-select IsCoherent (λ u. not (u.id == key)) db.users v.1,
      ))

-- What is asked of the user service.
pub data UserWork : Type 0 where
  creates : (Text → Text) → UserCreateRequest → UserWork
  updates : ℕ → UserUpdateRequest → UserWork
  approves : ℕ → UserApprovalRequest → UserWork
  disables reactivates removes : ℕ → UserWork

pub record UserCall : Type 0 where
  pub env : Env
  pub actor : User
  pub work : UserWork

pub do_user : Env → User → UserWork → Db → Db
do_user env actor (creates hash p) db = (request (create hash env p actor) db).1
do_user env actor (updates key p) db = (request (update env key p actor) db).1
do_user env actor (approves key p) db = (request (process_approval env key p actor) db).1
do_user env actor (disables key) db = (request (delete key actor) db).1
do_user env actor (reactivates key) db = (request (reactivate key actor) db).1
do_user env actor (removes key) db = (request (hard_delete env key actor) db).1

pub serve_users : List UserCall → Db → Db
unfolding do_user
serve_users [] db = db
serve_users (c ∷ cs) db = serve_users cs (do_user c.env c.actor c.work db)

abbrev Sound : Db → Type 0
Sound db = IsSound db.users

do_user-IsSound :
    (env : Env) (actor : User) (w : UserWork) (db : Db)
    → IsFresh env
    → Sound db
    → Sound (do_user env actor w db)
unfolding do_user
do_user-IsSound env actor (creates hash p) db fresh v =
    request_keeps Sound (create hash env p actor) db (create-IsSound hash env p actor db fresh v) v
do_user-IsSound env actor (updates key p) db fresh v =
    request_keeps Sound (update env key p actor) db (update-IsSound env key p actor db v) v
do_user-IsSound env actor (approves key p) db fresh v =
    request_keeps Sound (process_approval env key p actor) db
      (approval-IsSound env key p actor db v) v
do_user-IsSound env actor (disables key) db fresh v =
    request_keeps Sound (delete key actor) db (delete-IsSound key actor db v) v
do_user-IsSound env actor (reactivates key) db fresh v =
    request_keeps Sound (reactivate key actor) db (reactivate-IsSound key actor db v) v
do_user-IsSound env actor (removes key) db fresh v =
    request_keeps Sound (hard_delete env key actor) db (hard_delete-IsSound env key actor db v) v

-- Whatever the calls of the user service and their order, when the engine gives fresh keys: from
-- accounts that are distinct and coherent no two accounts ever share a key, a name or an address,
-- and no account is both DISABLED and active.
pub serve_users-IsSound :
    (cs : List UserCall) (db : Db)
    → All (λ c. IsFresh c.env) cs
    → IsSound db.users
    → IsSound (serve_users cs db).users
unfolding serve_users
serve_users-IsSound [] db fresh v = v
serve_users-IsSound (c ∷ cs) db fresh v =
    serve_users-IsSound cs (do_user c.env c.actor c.work db) fresh.1
      (do_user-IsSound c.env c.actor c.work db fresh.0 v)
