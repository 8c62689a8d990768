-- ===== src/Templates/Order.antt =====
-- The columns of a product, in their order, are those of the table.
use reservation_tool.Base.{
  if-keeps, both_values, ℕ, ◌≡◌, ◌≢◌, refl, sym, Bool, true, some, List, [], ◌∷◌, ◌==◌, ==_iff,
  arith, All, All-zip, Pairwise, select, select-All, Memᴰ, select-complete, text_eq_iff,
}
use reservation_tool.Keys.{Pairwise-select}
use reservation_tool.Db.Rows.{TemplateColumn}
use reservation_tool.Templates.{precedes, insert_column, ordered, list_columns_for_product}
use reservation_tool.Templates.Writing.{column_named}
use reservation_tool.Templates.Columns.{Unlike, IsProper}

module _ (P : TemplateColumn → Type 0) where
  All-insert :
      (c : TemplateColumn) (cs : List TemplateColumn) → P c → All P cs → All P (insert_column c cs)
  All-insert c [] p h = (p, tt)
  All-insert c (d ∷ ds) p h =
      if-keeps (All P) (precedes c d) _ _ (p, h) (h.0, All-insert c ds p h.1)

  pub All-ordered : (cs : List TemplateColumn) → All P cs → All P (ordered cs)
  All-ordered [] h = tt
  All-ordered (c ∷ cs) h = All-insert c (ordered cs) h.0 (All-ordered cs h.1)

module _ (R : TemplateColumn → TemplateColumn → Type 0)
    (sym_R : (a b : TemplateColumn) → R a b → R b a) where
  Pairwise-insert :
      (c : TemplateColumn) (cs : List TemplateColumn)
      → All (R c) cs
      → Pairwise R cs
      → Pairwise R (insert_column c cs)
  Pairwise-insert c [] h v = (tt, tt)
  Pairwise-insert c (d ∷ ds) h v =
      if-keeps (Pairwise R) (precedes c d) _ _ (h, v)
        (All-insert (R d) c ds (sym_R c d h.0) v.0, Pairwise-insert c ds h.1 v.1)

  pub Pairwise-ordered : (cs : List TemplateColumn) → Pairwise R cs → Pairwise R (ordered cs)
  Pairwise-ordered [] v = tt
  Pairwise-ordered (c ∷ cs) v =
      Pairwise-insert c (ordered cs) (All-ordered (R c) cs v.0) (Pairwise-ordered cs v.1)

-- Inserting a column into a list keeps what is in it.
Memᴰ-insert :
    (a c : TemplateColumn) (cs : List TemplateColumn)
    → Memᴰ a (c ∷ cs)
    → Memᴰ a (insert_column c cs)
Memᴰ-insert a c [] m = m
Memᴰ-insert a c (d ∷ ds) m =
    if-keeps (Memᴰ a) (precedes c d) _ _ m (swapped m (λ n. Memᴰ-insert a c ds n))
  where
    swapped :
        Memᴰ a (c ∷ d ∷ ds)
        → (Memᴰ a (c ∷ ds) → Memᴰ a (insert_column c ds))
        → Memᴰ a (d ∷ insert_column c ds)
    swapped (Memᴰ.head e) k = Memᴰ.tail (k (Memᴰ.head e))
    swapped (Memᴰ.tail (Memᴰ.head e)) k = Memᴰ.head e
    swapped (Memᴰ.tail (Memᴰ.tail n)) k = Memᴰ.tail (k (Memᴰ.tail n))

Memᴰ-ordered : (a : TemplateColumn) (cs : List TemplateColumn) → Memᴰ a cs → Memᴰ a (ordered cs)
Memᴰ-ordered a [] m = elim m [ ]
Memᴰ-ordered a (c ∷ cs) (Memᴰ.head e) = Memᴰ-insert a c (ordered cs) (Memᴰ.head e)
Memᴰ-ordered a (c ∷ cs) (Memᴰ.tail m) =
    Memᴰ-insert a c (ordered cs) (Memᴰ.tail (Memᴰ-ordered a cs m))

-- Two columns of one product, which have different keys and names.
abbrev pub Named : TemplateColumn → TemplateColumn → Type 0
Named a b = (a.id ≢ b.id) × (a.name ≢ b.name)

pub columns-Named :
    (product : ℕ) (rows : List TemplateColumn)
    → IsProper rows
    → Pairwise Named (list_columns_for_product product rows)
unfolding list_columns_for_product
columns-Named product rows v =
    Pairwise-ordered Named (λ a b h. (λ e. h.0 (sym e), λ e. h.1 (sym e))) mine
      (named mine (select-All here rows) (Pairwise-select Unlike here rows v.0))
  where
    here : TemplateColumn → Bool
    here c = c.product_id == product

    mine : List TemplateColumn
    mine = select here rows

    named :
        (cs : List TemplateColumn)
        → All (λ c. here c ≡ true) cs
        → Pairwise Unlike cs
        → Pairwise Named cs
    named [] h u = tt
    named (c ∷ cs) h u = (
      All-zip (λ d. here d ≡ true) (Unlike c) (Named c)
          (λ d t w.
            (w.0, λ e. both_values w.1 (ground (arith, h.0, t, (text_eq_iff c.name d.name).1 e))))
          cs h.1 u.0,
      named cs h.1 u.1,
    )

-- With different names every column is the one that its name finds.
pub Named-found :
    (cs : List TemplateColumn) → Pairwise Named cs → All (λ c. column_named c.name cs ≡ some c) cs
Named-found [] u = tt
Named-found (c ∷ cs) u = (
  rw ((text_eq_iff c.name c.name).1 refl) refl,
  All-zip (λ d. Named c d) (λ d. column_named d.name cs ≡ some d)
      (λ d. column_named d.name (c ∷ cs) ≡ some d) (λ d n e. later d n e) cs u.0
      (Named-found cs u.1),
)
  where
    later :
        (d : TemplateColumn)
        → Named c d
        → column_named d.name cs ≡ some d
        → column_named d.name (c ∷ cs) ≡ some d
    later d n e = ground (arith, text_eq_iff c.name d.name, n.1)

-- A column of the table is among those of its product.
pub Memᴰ-columns :
    (c : TemplateColumn) (rows : List TemplateColumn)
    → Memᴰ c rows
    → Memᴰ c (list_columns_for_product c.product_id rows)
unfolding list_columns_for_product
Memᴰ-columns c rows m =
    Memᴰ-ordered c _
      (select-complete (λ d. d.product_id == c.product_id) c rows m ((==_iff _ _).1 refl))
