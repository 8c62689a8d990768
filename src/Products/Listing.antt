-- ===== src/Products/Listing.antt =====
-- No two products share a key or a name.
use reservation_tool.Base.{
  ℕ, ◌≡◌, refl, subst, inl, inr, not, ◌&&◌, Option, some, none, List, [], ◌∷◌, map, ◌==◌, arith,
  All, is_some, Text, text_eq, Bool-cases,
}
use reservation_tool.Core.Errors.{
  AppError, ok, ok-injective, raise_if, or_raise-eq-ok, raise_if-eq-ok,
}
use reservation_tool.Core.Settings.{Env, IsFresh}
use reservation_tool.Db.Rows.{User, Product, Db}
use reservation_tool.Db.Transaction.{checked_keeps, request, request_keeps}
use reservation_tool.Names
use reservation_tool.Names.{
  not_raised, append-HasNames, keep-HasNames, select-HasNames, rename-HasNames, called-Frees,
}
use reservation_tool.Products.{
  get_product, get_by_name, new_product, store_product, create, renames, taken, renamed, update,
  update_checks, store_renamed, delete, delete_checks, store_deleted,
}

abbrev pub HasNames : List Product → Type 0
HasNames = Names.HasNames (λ g. g.id) (λ g. g.name)

abbrev Frees : ℕ → Text → Product → Type 0
Frees = Names.Frees (λ g. g.id) (λ g. g.name)

create-HasNames :
    (env : Env) (name : Text) (actor : User) (db : Db)
    → IsFresh env
    → HasNames db.products
    → HasNames (create env name actor db).1.products
unfolding create store_product
create-HasNames env name actor db fresh v =
    checked_keeps (λ d. HasNames d.products)
      (raise_if (is_some (get_by_name name db.products)) AppError.conflict)
      (store_product env name actor) db v
      (λ _ e.
        append-HasNames (λ g. g.id) (λ g. g.name) db.products (new_product env name db)
          (fresh (map (λ g. g.id) db.products)) (not_raised _ e) v)

-- The guards of a renaming have seen that the name is free, or is the group's own.
update_checks-Frees :
    (key : ℕ) (name : Text) (db : Db) {g : Product}
    → HasNames db.products
    → update_checks key (some name) db ≡ ok g
    → All (Frees g.id name) db.products
unfolding update_checks
update_checks-Frees key name db {g} v h =
    let (x, found, h1) = or_raise-eq-ok (get_product key db.products) _ _ h in
    let (free, h2) =
      raise_if-eq-ok (renames (some name) x && taken (some name) db.products) _ _ h1 in
    subst (λ y. All (Frees y.id name) db.products) (ok-injective h2)
      (called-Frees (λ g. g.id) (λ g. g.name) key name db.products v found
        (elim (Bool-cases (text_eq name x.name)) [
          | inl own ↦ inl own
          | inr other ↦ inr (ground arith)
        ]))

update-HasNames :
    (key : ℕ) (name : Option Text) (actor : User) (db : Db)
    → HasNames db.products
    → HasNames (update key name actor db).1.products
unfolding update store_renamed
update-HasNames key none actor db v =
    checked_keeps (λ d. HasNames d.products) (update_checks key none db) (store_renamed none actor)
      db v
      (λ g _.
        keep-HasNames (λ g. g.id) (λ g. g.name) (λ x. x.id == g.id) (renamed none) (λ _. refl)
          db.products v)
update-HasNames key (some name) actor db v =
    checked_keeps (λ d. HasNames d.products) (update_checks key (some name) db)
      (store_renamed (some name) actor) db v
      (λ g e.
        rename-HasNames (λ g. g.id) (λ g. g.name) (λ t g. record g { name = t }) (λ _ _. refl)
          (λ _ _. refl) g.id name db.products (update_checks-Frees key name db v e) v)

delete-HasNames :
    (env : Env) (key : ℕ) (actor : User) (db : Db)
    → HasNames db.products
    → HasNames (delete env key actor db).1.products
unfolding delete store_deleted
delete-HasNames env key actor db v =
    checked_keeps (λ d. HasNames d.products) (delete_checks env key db) (store_deleted key actor) db
      v (λ _ _. select-HasNames (λ g. g.id) (λ g. g.name) (λ g. not (g.id == key)) db.products v)

-- A call of the service.
pub data Call : Type 0 where
  creates : Env → Text → Call
  updates : ℕ → Option Text → Call
  deletes : Env → ℕ → Call

-- The keys that this call is given are new.
abbrev pub Orderly : Call → Type 0
Orderly (creates env name) = IsFresh env
Orderly (updates key name) = Unit
Orderly (deletes env key) = Unit

pub serve_call : User → Call → Db → Db
serve_call actor (creates env name) db = (request (create env name actor) db).1
serve_call actor (updates key name) db = (request (update key name actor) db).1
serve_call actor (deletes env key) db = (request (delete env key actor) db).1

pub serve_calls : User → List Call → Db → Db
serve_calls actor [] db = db
serve_calls actor (e ∷ es) db = serve_calls actor es (serve_call actor e db)

serve_call-HasNames :
    (actor : User) (e : Call) (db : Db)
    → Orderly e
    → HasNames db.products
    → HasNames (serve_call actor e db).products
unfolding serve_call
serve_call-HasNames actor (creates env name) db o v =
    request_keeps (λ d. HasNames d.products) (create env name actor) db
      (create-HasNames env name actor db o v) v
serve_call-HasNames actor (updates key name) db o v =
    request_keeps (λ d. HasNames d.products) (update key name actor) db
      (update-HasNames key name actor db v) v
serve_call-HasNames actor (deletes env key) db o v =
    request_keeps (λ d. HasNames d.products) (delete env key actor) db
      (delete-HasNames env key actor db v) v

-- Whatever calls are made of the product service and in whatever order, when the engine gives fresh keys:
-- from products with different keys and names, no two products ever have the same key or the same name.
pub serve_calls-HasNames :
    (actor : User) (es : List Call) (db : Db)
    → All Orderly es
    → HasNames db.products
    → HasNames (serve_calls actor es db).products
unfolding serve_calls
serve_calls-HasNames actor [] db o v = v
serve_calls-HasNames actor (e ∷ es) db o v =
    serve_calls-HasNames actor es _ o.1 (serve_call-HasNames actor e db o.0 v)
