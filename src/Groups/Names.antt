-- ===== src/Groups/Names.antt =====
-- No two groups share a key or a name.
use reservation_tool.Base.{
  ℕ, ◌≡◌, refl, subst, inl, inr, not, ◌&&◌, Option, some, none, List, [], ◌∷◌, map, ◌==◌, arith,
  All, is_some, Text, text_eq, Bool-cases,
}
use reservation_tool.Core.Errors.{
  AppError, ok, ok-injective, raise_if, or_raise-eq-ok, raise_if-eq-ok,
}
use reservation_tool.Core.Settings.{Env, IsFresh}
use reservation_tool.Db.Rows.{User, Group, Db}
use reservation_tool.Db.Transaction.{checked_keeps, request, request_keeps}
use reservation_tool.Hierarchy.{get_group}
use reservation_tool.Names
use reservation_tool.Names.{
  not_raised, append-HasNames, keep-HasNames, select-HasNames, rename-HasNames, called-Frees,
}
use reservation_tool.Groups.{
  get_by_name, new_group, store_group, create, renames, taken, renamed, update, update_checks,
  store_renamed, delete, delete_checks, store_deleted,
}

abbrev pub HasNames : List Group → Type 0
HasNames = Names.HasNames (λ g. g.id) (λ g. g.name)

abbrev Frees : ℕ → Text → Group → Type 0
Frees = Names.Frees (λ g. g.id) (λ g. g.name)

create-HasNames :
    (env : Env) (name : Text) (actor : User) (db : Db)
    → IsFresh env
    → HasNames db.groups
    → HasNames (create env name actor db).1.groups
unfolding create store_group
create-HasNames env name actor db fresh v =
    checked_keeps (λ d. HasNames d.groups)
      (raise_if (is_some (get_by_name name db.groups)) AppError.conflict)
      (store_group env name actor) db v
      (λ _ e.
        append-HasNames (λ g. g.id) (λ g. g.name) db.groups (new_group env name db)
          (fresh (map (λ g. g.id) db.groups)) (not_raised _ e) v)

-- The guards of a renaming have seen that the name is free, or is the group's own.
update_checks-Frees :
    (key : ℕ) (name : Text) (db : Db) {g : Group}
    → HasNames db.groups
    → update_checks key (some name) db ≡ ok g
    → All (Frees g.id name) db.groups
unfolding update_checks
update_checks-Frees key name db {g} v h =
    let (x, found, h1) = or_raise-eq-ok (get_group key db.groups) _ _ h in
    let (free, h2) = raise_if-eq-ok (renames (some name) x && taken (some name) db.groups) _ _ h1 in
    subst (λ y. All (Frees y.id name) db.groups) (ok-injective h2)
      (called-Frees (λ g. g.id) (λ g. g.name) key name db.groups v found
        (elim (Bool-cases (text_eq name x.name)) [
          | inl own ↦ inl own
          | inr other ↦ inr (ground arith)
        ]))

update-HasNames :
    (key : ℕ) (name : Option Text) (actor : User) (db : Db)
    → HasNames db.groups
    → HasNames (update key name actor db).1.groups
unfolding update store_renamed
update-HasNames key none actor db v =
    checked_keeps (λ d. HasNames d.groups) (update_checks key none db) (store_renamed none actor) db
      v
      (λ g _.
        keep-HasNames (λ g. g.id) (λ g. g.name) (λ x. x.id == g.id) (renamed none) (λ _. refl)
          db.groups v)
update-HasNames key (some name) actor db v =
    checked_keeps (λ d. HasNames d.groups) (update_checks key (some name) db)
      (store_renamed (some name) actor) db v
      (λ g e.
        rename-HasNames (λ g. g.id) (λ g. g.name) (λ t g. record g { name = t }) (λ _ _. refl)
          (λ _ _. refl) g.id name db.groups (update_checks-Frees key name db v e) v)

delete-HasNames :
    (env : Env) (key : ℕ) (actor : User) (db : Db)
    → HasNames db.groups
    → HasNames (delete env key actor db).1.groups
unfolding delete store_deleted
delete-HasNames env key actor db v =
    checked_keeps (λ d. HasNames d.groups) (delete_checks env key db) (store_deleted key actor) db v
      (λ _ _. select-HasNames (λ g. g.id) (λ g. g.name) (λ g. not (g.id == key)) db.groups v)

-- A call of the service.
pub data Edit : Type 0 where
  creates : Env → Text → Edit
  updates : ℕ → Option Text → Edit
  deletes : Env → ℕ → Edit

-- The keys that this call is given are new.
abbrev pub Orderly : Edit → Type 0
Orderly (creates env name) = IsFresh env
Orderly (updates key name) = Unit
Orderly (deletes env key) = Unit

pub serve_edit : User → Edit → Db → Db
serve_edit actor (creates env name) db = (request (create env name actor) db).1
serve_edit actor (updates key name) db = (request (update key name actor) db).1
serve_edit actor (deletes env key) db = (request (delete env key actor) db).1

pub serve_edits : User → List Edit → Db → Db
serve_edits actor [] db = db
serve_edits actor (e ∷ es) db = serve_edits actor es (serve_edit actor e db)

serve_edit-HasNames :
    (actor : User) (e : Edit) (db : Db)
    → Orderly e
    → HasNames db.groups
    → HasNames (serve_edit actor e db).groups
unfolding serve_edit
serve_edit-HasNames actor (creates env name) db o v =
    request_keeps (λ d. HasNames d.groups) (create env name actor) db
      (create-HasNames env name actor db o v) v
serve_edit-HasNames actor (updates key name) db o v =
    request_keeps (λ d. HasNames d.groups) (update key name actor) db
      (update-HasNames key name actor db v) v
serve_edit-HasNames actor (deletes env key) db o v =
    request_keeps (λ d. HasNames d.groups) (delete env key actor) db
      (delete-HasNames env key actor db v) v

-- Whatever calls are made of the group service and in whatever order, when the engine gives fresh keys:
-- from groups with different keys and names, no two groups ever have the same key or the same name.
pub serve_edits-HasNames :
    (actor : User) (es : List Edit) (db : Db)
    → All Orderly es
    → HasNames db.groups
    → HasNames (serve_edits actor es db).groups
unfolding serve_edits
serve_edits-HasNames actor [] db o v = v
serve_edits-HasNames actor (e ∷ es) db o v =
    serve_edits-HasNames actor es _ o.1 (serve_edit-HasNames actor e db o.0 v)
