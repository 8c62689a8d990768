-- ===== src/Groups/Tests.antt =====
-- The theorem on the names of the groups at a concrete history.
use reservation_tool.Base.{none, some, List, [], ◌∷◌, text}
use reservation_tool.Db.Rows.{Db}
use reservation_tool.Samples.{env, next_key-IsFresh, dora, db}
use reservation_tool.Groups.Names.{
  HasNames, Edit, creates, updates, deletes, serve_edits, serve_edits-HasNames,
}

abbrev none_yet : Db
none_yet = record db { groups = [] }

abbrev calls : List Edit
calls =
    creates env (text "g")
    ∷ creates env (text "g")
    ∷ creates env (text "h")
    ∷ updates 2 (some (text "g"))
    ∷ updates 2 (some (text "k"))
    ∷ updates 1 none
    ∷ deletes env 2
    ∷ []

serve_edits-HasNames_example : HasNames (serve_edits dora calls none_yet).groups
serve_edits-HasNames_example =
    serve_edits-HasNames dora calls none_yet
      (next_key-IsFresh, (next_key-IsFresh, (next_key-IsFresh, (tt, (tt, (tt, (tt, tt))))))) tt
