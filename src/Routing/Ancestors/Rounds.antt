-- ===== src/Routing/Ancestors/Rounds.antt =====
-- What one round of the walk does to the visited groups and to the next frontier.
use reservation_tool.Base.{
  ℕ, ◌≡◌, sym, subst, ==_iff, ◌⊎◌, inl, inr, true, List, [], ◌∷◌, arith, ◌==◌, contains,
  contains-append, Within, Bool-cases,
}
use reservation_tool.Routing.{Walk, visit, visit_all, walk_round}

-- What holds while a round that began with `base` is on its way.
pub record Grows (base : List ℕ) (w : Walk) : Type 0 where
  pub keeps : Within base w.visited
  pub known : Within w.next w.visited
  pub split :
      (n : ℕ) → contains w.visited n ≡ true → (contains base n ≡ true) ⊎ (contains w.next n ≡ true)

-- Where a round begins.
pub start-Grows : (base : List ℕ) → Grows base (record { visited = base; next = [] })
start-Grows base = record { keeps = λ n h. h; known = λ n h. absurd (cc); split = λ n h. inl h }

visit-Grows : (base : List ℕ) (w : Walk) (p : ℕ) → Grows base w → Grows base (visit w p)
unfolding visit
visit-Grows base w p g = elim (Bool-cases (contains w.visited p)) [
  | inl old ↦ rw (old, visit) g
  | inr new ↦
      rw (new, visit)
        (record {
          keeps = λ n h. ground (arith, g.keeps n h);
          known = λ n h. ground (arith, g.known n, contains-append w.next (p ∷ []) n);
          split = λ n h. ground (arith, g.split n, contains-append w.next (p ∷ []) n);
        })
]

pub visit_all-Grows :
    (base : List ℕ) (ps : List ℕ) (w : Walk) → Grows base w → Grows base (visit_all w ps)
unfolding visit_all
visit_all-Grows base [] w g = g
visit_all-Grows base (p ∷ ps) w g = visit_all-Grows base ps (visit w p) (visit-Grows base w p g)

pub walk_round-Grows :
    (parents : ℕ → List ℕ) (base gs : List ℕ) (w : Walk)
    → Grows base w
    → Grows base (walk_round parents w gs)
unfolding walk_round
walk_round-Grows parents base [] w g = g
walk_round-Grows parents base (x ∷ gs) w g =
    walk_round-Grows parents base gs (visit_all w (parents x))
      (visit_all-Grows base (parents x) w g)

visit_keeps :
    (w : Walk) (p n : ℕ) → contains w.visited n ≡ true → contains (visit w p).visited n ≡ true
unfolding visit
visit_keeps w p n h = ground arith

visit_has : (w : Walk) (p : ℕ) → contains (visit w p).visited p ≡ true
unfolding visit
visit_has w p = ground arith

visit_all_keeps :
    (ps : List ℕ) (w : Walk) (n : ℕ)
    → contains w.visited n ≡ true
    → contains (visit_all w ps).visited n ≡ true
unfolding visit_all
visit_all_keeps [] w n h = h
visit_all_keeps (p ∷ ps) w n h = visit_all_keeps ps (visit w p) n (visit_keeps w p n h)

visit_all_has :
    (ps : List ℕ) (w : Walk) (n : ℕ)
    → contains ps n ≡ true
    → contains (visit_all w ps).visited n ≡ true
unfolding visit_all
visit_all_has [] w n h = absurd (cc)
visit_all_has (p ∷ ps) w n h = elim (Bool-cases (p == n)) [
  | inl same ↦
      visit_all_keeps ps (visit w p) n
        (subst (λ m. contains (visit w p).visited m ≡ true) ((==_iff p n).0 same) (visit_has w p))
  | inr other ↦ visit_all_has ps (visit w p) n (ground arith)
]

walk_round_keeps :
    (parents : ℕ → List ℕ) (gs : List ℕ) (w : Walk) (n : ℕ)
    → contains w.visited n ≡ true
    → contains (walk_round parents w gs).visited n ≡ true
unfolding walk_round
walk_round_keeps parents [] w n h = h
walk_round_keeps parents (g ∷ gs) w n h =
    walk_round_keeps parents gs (visit_all w (parents g)) n (visit_all_keeps (parents g) w n h)

-- After a round every parent of the frontier has been visited.
pub walk_round_has :
    (parents : ℕ → List ℕ) (gs : List ℕ) (w : Walk) (c n : ℕ)
    → contains gs c ≡ true
    → contains (parents c) n ≡ true
    → contains (walk_round parents w gs).visited n ≡ true
unfolding walk_round
walk_round_has parents [] w c n h k = absurd (cc)
walk_round_has parents (g ∷ gs) w c n h k = elim (Bool-cases (g == c)) [
  | inl same ↦ walk_round_keeps parents gs (visit_all w (parents g)) n (
      visit_all_has (parents g) w n
        (subst (λ m. contains (parents m) n ≡ true) (sym ((==_iff g c).0 same)) k))
  | inr other ↦ walk_round_has parents gs (visit_all w (parents g)) c n (ground arith) k
]
