-- ===== src/Templates/Columns.antt =====
-- The columns of a product have different names, and none is a mandatory one.
use reservation_tool.Base.{
  if-keeps, suc, sym, subst, modify, not, ◌==◌, ◌&&◌, Bool, true, false, All-select, All-modify,
  Pairwise-modify, List, text_eq, if◌then◌else◌, ℕ, ◌≡◌, ◌≢◌, refl, Option, none, [], ◌∷◌, map,
  arith, All, All-zip, All-append, Pairwise, Pairwise-append, find-none, is_some, Text, text_in,
}
use reservation_tool.Core.Errors.{
  err, Result, ok, AppError, raise_if, or_raise-eq-ok, raise_if-eq-ok,
}
use reservation_tool.Core.Settings.{Env, IsFresh}
use reservation_tool.Db.Rows.{User, TemplateColumn, Db}
use reservation_tool.Db.Transaction.{checked_keeps}
use reservation_tool.Templates.{
  TemplateColumnUpdateRequest, TemplateColumnCreateRequest, mandatory_names, has_column_name,
  get_column_by_name, normalized_name, add_column, add_column_checks, store_column, new_column,
}
use reservation_tool.Templates.Editing.{
  passed_over, too_long, update_column, update_column_checks, store_edited, edited, delete_column,
  delete_column_checks, store_column_deleted, at_index, reindex, reorder_columns, reorder_checks,
  store_reordered, string_column, add_named, add_columns_from_names,
}
use reservation_tool.Keys.{Pairwise-select, fresh_key}
use reservation_tool.Products.{get_product}

-- Two columns with different keys, which are of different products or have different names.
abbrev pub Unlike : TemplateColumn → TemplateColumn → Type 0
Unlike a b = (a.id ≢ b.id) × (has_column_name b.product_id b.name a ≡ false)

abbrev pub IsProper : List TemplateColumn → Type 0
IsProper columns =
    Pairwise Unlike columns × All (λ c. text_in mandatory_names c.name ≡ false) columns

absent : (o : Option TemplateColumn) → is_some o ≡ false → o ≡ none
absent o h = ground arith

not_raised : (b : Bool) → raise_if b AppError.conflict ≡ ok tt → b ≡ false
not_raised b h = ground arith

pub add-IsProper :
    (env : Env) (product : ℕ) (p : TemplateColumnCreateRequest) (actor : User) (db : Db)
    → IsFresh env
    → IsProper db.columns
    → IsProper (add_column env product p actor db).1.columns
unfolding add_column add_column_checks store_column
add-IsProper env product p actor db fresh (v, w) =
    checked_keeps (λ d. IsProper d.columns) (add_column_checks product (normalized_name p.name) db)
      (store_column env product p actor) db (v, w)
      (λ _ e.
        let row = new_column env product p db in
        let (_, _, e1) = or_raise-eq-ok (get_product product db.products) _ _ e in
        let (allowed, e2) = raise_if-eq-ok (text_in mandatory_names row.name) _ _ e1 in
        let free = not_raised (is_some (get_column_by_name product row.name db.columns)) e2 in
        (
          Pairwise-append Unlike db.columns row v (
              All-zip (λ x. x.id ≢ row.id) (λ x. has_column_name product row.name x ≡ false)
                (λ x. Unlike x row) (λ x a b. (a, b)) db.columns
                (fresh_key (λ x. x.id) db.columns _ (fresh (map (λ x. x.id) db.columns)))
                (find-none (has_column_name product row.name) db.columns
                  (absent (get_column_by_name product row.name db.columns) free))),
          All-append (λ x. text_in mandatory_names x.name ≡ false) db.columns row w allowed,
        ))

-- What two columns are compared by.
abbrev identity : TemplateColumn → ℕ × ℕ × Text
identity c = (c.id, c.product_id, c.name)

abbrev UnlikeIdentity : ℕ × ℕ × Text → ℕ × ℕ × Text → Type 0
UnlikeIdentity a b = (a.0 ≢ b.0) × ((a.1 == b.1 && text_eq a.2 b.2) ≡ false)

-- A change that keeps the key, the product and the name.
kept-IsProper :
    (q : TemplateColumn → Bool) (f : TemplateColumn → TemplateColumn)
    → ((c : TemplateColumn) → identity (f c) ≡ identity c)
    → (rows : List TemplateColumn) → IsProper rows
    → IsProper (modify q f rows)
kept-IsProper q f same rows (v, w) = (
  Pairwise-modify Unlike q f
      (λ a b h.
        subst (λ k. UnlikeIdentity k (identity (if q b then f b else b))) (sym (branch (q a) a))
          (subst (λ k. UnlikeIdentity (identity a) k) (sym (branch (q b) b)) h))
      rows v,
  All-modify Allowed Allowed q f
      (λ a h.
        subst (λ (k : ℕ × ℕ × Text). text_in mandatory_names k.2 ≡ false) (sym (branch (q a) a)) h)
      rows w,
)
  where
    Allowed : TemplateColumn → Type 0
    Allowed c = text_in mandatory_names c.name ≡ false

    branch : (t : Bool) (c : TemplateColumn) → identity (if t then f c else c) ≡ identity c
    branch true c = same c
    branch false c = refl

pub update-IsProper :
    (product key : ℕ) (p : TemplateColumnUpdateRequest) (actor : User) (db : Db)
    → IsProper db.columns
    → IsProper (update_column product key p actor db).1.columns
unfolding update_column store_edited
update-IsProper product key p actor db v =
    checked_keeps (λ d. IsProper d.columns) (update_column_checks product key p db)
      (store_edited p actor) db v
      (λ c _. kept-IsProper (λ x. x.id == c.id) (edited p) (λ x. refl) db.columns v)

pub delete-IsProper :
    (env : Env) (product key : ℕ) (actor : User) (db : Db)
    → IsProper db.columns
    → IsProper (delete_column env product key actor db).1.columns
unfolding delete_column store_column_deleted
delete-IsProper env product key actor db v =
    checked_keeps (λ d. IsProper d.columns) (delete_column_checks env product key db)
      (store_column_deleted key actor) db v
      (λ _ _. (
        Pairwise-select Unlike (λ c. not (c.id == key)) db.columns v.0,
        All-select (λ c. text_in mandatory_names c.name ≡ false) (λ c. not (c.id == key)) db.columns
            v.1,
      ))

reindex-IsProper :
    (i : ℕ) (keys : List ℕ) (rows : List TemplateColumn)
    → IsProper rows
    → IsProper (reindex i keys rows)
reindex-IsProper i [] rows v = v
reindex-IsProper i (k ∷ ks) rows v =
    reindex-IsProper (suc i) ks (modify (λ c. c.id == k) (at_index i) rows)
      (kept-IsProper (λ c. c.id == k) (at_index i) (λ x. refl) rows v)

pub reorder-IsProper :
    (product : ℕ) (keys : List ℕ) (actor : User) (db : Db)
    → IsProper db.columns
    → IsProper (reorder_columns product keys actor db).1.columns
unfolding reorder_columns store_reordered
reorder-IsProper product keys actor db v =
    checked_keeps (λ d. IsProper d.columns) (reorder_checks product keys db)
      (store_reordered product keys actor) db v (λ _ _. reindex-IsProper 0 keys db.columns v)

-- One name of the bulk addition.
add_named-IsProper :
    (env : Env) (product : ℕ) (raw : Text) (actor : User) (db : Db)
    → IsFresh env
    → IsProper db.columns
    → IsProper (add_named env product raw actor db).1.columns
add_named-IsProper env product raw actor db fresh v =
    if-keeps Kept (passed_over product raw db) (ok tt, db) _ v
      (if-keeps Kept (too_long raw) (err AppError.internal, db) _ v
        (add-IsProper env product (string_column raw) actor db fresh v))
  where
    Kept : Result (Unit {0}) × Db → Type 0
    Kept r = IsProper r.1.columns

pub add_names-IsProper :
    (env : Env) (product : ℕ) (names : List Text) (actor : User) (db : Db)
    → IsFresh env
    → IsProper db.columns
    → IsProper (add_columns_from_names env product names actor db).1.columns
unfolding add_columns_from_names
add_names-IsProper env product [] actor db fresh v = v
add_names-IsProper env product (raw ∷ names) actor db fresh v =
    on (add_named env product raw actor db).0
      (add_names-IsProper env product names actor db1 fresh first)
  where
    db1 : Db
    db1 = (add_named env product raw actor db).1

    first : IsProper db1.columns
    first = add_named-IsProper env product raw actor db fresh v

    on :
        (r : Result (Unit {0}))
        → IsProper (add_columns_from_names env product names actor db1).1.columns
        → IsProper
            (elim r as (λ _. Result (Unit {0}) × Db) [
              | ok _ ↦ add_columns_from_names env product names actor db1
              | err e ↦ (err e, db1)
            ]).1.columns
    on (ok _) rest = rest
    on (err e) rest = first
