-- ===== src/Templates/Histories.antt =====
-- The calls of the template service in any order.
use reservation_tool.Base.{List, ℕ, [], ◌∷◌, All, Text}
use reservation_tool.Core.Settings.{Env, IsFresh}
use reservation_tool.Db.Rows.{User, Db}
use reservation_tool.Db.Transaction.{request, request_keeps}
use reservation_tool.Templates.{
  TemplateColumnUpdateRequest, TemplateColumnCreateRequest, add_column,
}
use reservation_tool.Templates.Editing.{
  update_column, delete_column, reorder_columns, add_columns_from_names,
}
use reservation_tool.Templates.Columns.{
  IsProper, add-IsProper, update-IsProper, delete-IsProper, reorder-IsProper, add_names-IsProper,
}

-- A call of the service that may change columns.
pub data Call : Type 0 where
  adds : Env → ℕ → TemplateColumnCreateRequest → Call
  edits : ℕ → ℕ → TemplateColumnUpdateRequest → Call
  drops : Env → ℕ → ℕ → Call
  orders : ℕ → List ℕ → Call
  detects : Env → ℕ → List Text → Call

-- The keys that this call is given are new.
abbrev pub Orderly : Call → Type 0
Orderly (adds env product p) = IsFresh env
Orderly (edits product key p) = Unit
Orderly (drops env product key) = Unit
Orderly (orders product keys) = Unit
Orderly (detects env product names) = IsFresh env

pub serve_call : User → Call → Db → Db
serve_call actor (adds env product p) db = (request (add_column env product p actor) db).1
serve_call actor (edits product key p) db = (request (update_column product key p actor) db).1
serve_call actor (drops env product key) db = (request (delete_column env product key actor) db).1
serve_call actor (orders product keys) db = (request (reorder_columns product keys actor) db).1
serve_call actor (detects env product names) db =
    (request (add_columns_from_names env product names actor) db).1

pub serve_columns : User → List Call → Db → Db
serve_columns actor [] db = db
serve_columns actor (c ∷ cs) db = serve_columns actor cs (serve_call actor c db)

serve_call-IsProper :
    (actor : User) (c : Call) (db : Db)
    → Orderly c
    → IsProper db.columns
    → IsProper (serve_call actor c db).columns
unfolding serve_call
serve_call-IsProper actor (adds env product p) db o v =
    request_keeps (λ d. IsProper d.columns) (add_column env product p actor) db
      (add-IsProper env product p actor db o v) v
serve_call-IsProper actor (edits product key p) db o v =
    request_keeps (λ d. IsProper d.columns) (update_column product key p actor) db
      (update-IsProper product key p actor db v) v
serve_call-IsProper actor (drops env product key) db o v =
    request_keeps (λ d. IsProper d.columns) (delete_column env product key actor) db
      (delete-IsProper env product key actor db v) v
serve_call-IsProper actor (orders product keys) db o v =
    request_keeps (λ d. IsProper d.columns) (reorder_columns product keys actor) db
      (reorder-IsProper product keys actor db v) v
serve_call-IsProper actor (detects env product names) db o v =
    request_keeps (λ d. IsProper d.columns) (add_columns_from_names env product names actor) db
      (add_names-IsProper env product names actor db o v) v

-- Whatever calls are made of the template service and in whatever order, when the engine gives fresh
-- keys: from proper columns no two columns ever have the same key, no two columns of one product ever
-- have the same name, and none ever has the name of a mandatory column.
pub serve_columns-IsProper :
    (actor : User) (cs : List Call) (db : Db)
    → All Orderly cs
    → IsProper db.columns
    → IsProper (serve_columns actor cs db).columns
unfolding serve_columns
serve_columns-IsProper actor [] db o v = v
serve_columns-IsProper actor (c ∷ cs) db o v =
    serve_columns-IsProper actor cs _ o.1 (serve_call-IsProper actor c db o.0 v)
