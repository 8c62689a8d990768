-- ===== src/Hierarchy/Tests.antt =====
-- The theorem on the graph at a concrete history.
use reservation_tool.Base.{List, [], ◌∷◌, text}
use reservation_tool.Core.Status.{Scope}
use reservation_tool.Db.Rows.{Db}
use reservation_tool.Samples.{env, next_key-IsFresh, dora, db}
use reservation_tool.Hierarchy.Edges.{IsProper, Edit, adds, drops, edit_graph, edit_graph-IsProper}

abbrev two_groups : Db
two_groups = record db {
  groups = record { id = 1; name = text "g" } ∷ record { id = 2; name = text "h" } ∷ [];
}

abbrev edits : List Edit
edits = adds env 1 2 Scope.swap ∷ adds env 1 2 Scope.swap ∷ drops 1 2 Scope.swap ∷ []

edit_graph-IsProper_example : IsProper (edit_graph dora edits two_groups).edges
edit_graph-IsProper_example =
    edit_graph-IsProper dora edits two_groups (next_key-IsFresh, (next_key-IsFresh, (tt, tt)))
      (tt, tt)
