-- ===== src/Ordering/Edges.antt =====
-- Which keys and which edges the graph of `OrderSpans` has, told from the spans alone.
use dapper_distributed_traci.Prelude.{
  ℕ, ◌+◌, ◌<◌, String, ◌≡◌, ◌∙◌, refl, sym, Bool, true, false, ◌&&◌, ◌||◌, not, List, [], ◌∷◌, ◌++◌,
  arith, ◌==◌, eq_iff, eqb, if◌then◌else◌, has, has-append, length-append, any, length, Bool-cases,
  inl, inr,
}
use mathlib.Core.List.{append_assoc}
use dapper_distributed_traci.Table.{lookup, insert, keys}
use dapper_distributed_traci.Table.Laws.{lookup-insert}
use dapper_distributed_traci.Wire.{Span}
use dapper_distributed_traci.Clock.Order.{compare_self}
use dapper_distributed_traci.Ordering.{
  Graph, neighbours, append_edge, init_graph, happens_before, clock_of, clock_edge, clock_edges,
  parent_edge, build_edges, build_graph,
}
use dapper_distributed_traci.Ordering.Flags.{has-keys-insert}

abbrev pub ids : List Span → List String
ids [] = []
ids (s ∷ rest) = s.span_id ∷ ids rest

-- The parents that the spans name.
abbrev pub parents : List Span → List String
parents [] = []
parents (s ∷ rest) =
    if s.parent_span_id == "" then parents rest else s.parent_span_id ∷ parents rest

-- Some span with id `b` names `a` as its parent.
abbrev pub parent_pair : String → String → List Span → Bool
parent_pair a b spans =
    any (λ s. not (s.parent_span_id == "") && s.parent_span_id == a && s.span_id == b) spans

abbrev pub clock_pair_from : Span → String → List Span → Bool
clock_pair_from s1 b spans = any (λ s2. s2.span_id == b && happens_before s1 s2) spans

-- Some span with id `a` has a clock before that of some span with id `b`.
abbrev pub clock_pair : String → String → List Span → List Span → Bool
clock_pair a b spans firsts = any (λ s1. s1.span_id == a && clock_pair_from s1 b spans) firsts

has-neighbours-append_edge :
    (from to a b : String) (g : Graph)
    → has b (neighbours a (append_edge from to g))
      ≡ has b (neighbours a g) || (from == a && to == b)
unfolding append_edge
has-neighbours-append_edge from to a b g = ground (
  arith,
  lookup-insert from a (neighbours from g ++ to ∷ []) g,
  eq_iff from a,
  has-append b (neighbours from g) (to ∷ []),
)

has-keys-append_edge :
    (from to j : String) (g : Graph)
    → has j (keys (append_edge from to g)) ≡ (if from == j then true else has j (keys g))
unfolding append_edge
has-keys-append_edge from to j g = has-keys-insert from j (neighbours from g ++ to ∷ []) g

has-keys-init_graph :
    (spans : List Span) (g : Graph) (j : String)
    → has j (keys (init_graph spans g)) ≡ has j (ids spans) || has j (keys g)
unfolding init_graph
has-keys-init_graph [] g j = refl
has-keys-init_graph (s ∷ rest) g j =
    ground
      (arith, has-keys-init_graph rest (insert s.span_id [] g) j, has-keys-insert s.span_id j [] g)

neighbours-init_graph :
    (spans : List Span) (g : Graph) (a b : String)
    → has b (neighbours a g) ≡ false
    → has b (neighbours a (init_graph spans g)) ≡ false
unfolding init_graph
neighbours-init_graph [] g a b h = h
neighbours-init_graph (s ∷ rest) g a b h =
    neighbours-init_graph rest (insert s.span_id [] g) a b
      (ground (arith, lookup-insert s.span_id a [] g))

-- No clock is before itself.
happens_before_irrefl : (s : Span) → happens_before s s ≡ false
unfolding happens_before
happens_before_irrefl s = ground (arith, compare_self (clock_of s))

-- Where the inner loop meets its own index, it meets the outer loop's span.
abbrev Meets : ℕ → Span → ℕ → List Span → Type 0
Meets i s1 j [] = Unit
Meets i s1 j (s2 ∷ rest) = (i ≡ j → s2 ≡ s1) × Meets i s1 (j + 1) rest

Meets-past : (i : ℕ) (s1 : Span) (j : ℕ) (rest : List Span) → i < j → Meets i s1 j rest
Meets-past i s1 j [] h = tt
Meets-past i s1 j (s2 ∷ rest) h =
    (λ e. absurd (omega arith), Meets-past i s1 (j + 1) rest (omega arith))

Meets-split :
    (i : ℕ) (s1 : Span) (j : ℕ) (front rest : List Span)
    → j + length front ≡ i
    → Meets i s1 j (front ++ s1 ∷ rest)
Meets-split i s1 j [] rest h = (λ e. refl, Meets-past i s1 (j + 1) rest (omega arith))
Meets-split i s1 j (s ∷ front) rest h =
    (λ e. absurd (omega arith), Meets-split i s1 (j + 1) front rest (omega arith))

edges_of_clock_edge :
    (i : ℕ) (s1 : Span) (j : ℕ) (s2 : Span) (g : Graph) (a b : String)
    → (i ≡ j → s2 ≡ s1)
    → has b (neighbours a (clock_edge i s1 j s2 g))
      ≡ has b (neighbours a g) || (s1.span_id == a && (s2.span_id == b && happens_before s1 s2))
unfolding clock_edge
edges_of_clock_edge i s1 j s2 g a b m = elim (Bool-cases (eqb i j)) [
  | inl e ↦ rw (e, m (ground arith), happens_before_irrefl s1) (ground arith)
  | inr e ↦ ground (arith, has-neighbours-append_edge s1.span_id s2.span_id a b g)
]

edges_of_clock_edges :
    (i : ℕ) (s1 : Span) (j : ℕ) (rest : List Span) (g : Graph) (a b : String)
    → Meets i s1 j rest
    → has b (neighbours a (clock_edges i s1 j rest g))
      ≡ has b (neighbours a g) || (s1.span_id == a && clock_pair_from s1 b rest)
unfolding clock_edges
edges_of_clock_edges i s1 j [] g a b m = ground arith
edges_of_clock_edges i s1 j (s2 ∷ rest) g a b m = ground (
  arith,
  edges_of_clock_edge i s1 j s2 g a b m.0,
  edges_of_clock_edges i s1 (j + 1) rest (clock_edge i s1 j s2 g) a b m.1,
)

edges_of_parent_edge :
    (s1 : Span) (g : Graph) (a b : String)
    → has b (neighbours a (parent_edge s1 g)) ≡ has b (neighbours a g) || parent_pair a b (s1 ∷ [])
unfolding parent_edge
edges_of_parent_edge s1 g a b =
    ground (arith, has-neighbours-append_edge s1.parent_span_id s1.span_id a b g)

module _ (spans : List Span) where
  -- The rest of a list, past one more element.
  split_next :
      (front : List Span) (s1 : Span) (rest : List Span)
      → spans ≡ front ++ s1 ∷ rest
      → spans ≡ (front ++ s1 ∷ []) ++ rest
  split_next front s1 rest e = e ∙ sym (append_assoc front (s1 ∷ []) rest)

  edges_of_build_edges :
      (front rest : List Span) (i : ℕ) (g : Graph) (a b : String)
      → spans ≡ front ++ rest
      → i ≡ length front
      → has b (neighbours a (build_edges spans i rest g))
        ≡ has b (neighbours a g) || (parent_pair a b rest || clock_pair a b spans rest)
  unfolding build_edges
  edges_of_build_edges front [] i g a b e n = ground arith
  edges_of_build_edges front (s1 ∷ rest) i g a b e n =
      let meets : Meets i s1 0 spans = rw e (Meets-split i s1 0 front rest (omega arith)) in
      let next : i + 1 ≡ length (front ++ s1 ∷ []) = omega (arith, length-append front (s1 ∷ [])) in
      let g' = parent_edge s1 g in
      ground (
        arith,
        edges_of_parent_edge s1 g a b,
        edges_of_clock_edges i s1 0 spans g' a b meets,
        edges_of_build_edges (front ++ s1 ∷ []) rest (i + 1) (clock_edges i s1 0 spans g') a b
            (split_next front s1 rest e) next,
      )

  -- The graph of the spans has an edge from id a to id b exactly when a span with id b names a as
  -- its parent, or the clock of a span with id a is before that of a span with id b.
  pub graph_edges :
      (a b : String)
      → has b (neighbours a (build_graph spans))
        ≡ parent_pair a b spans || clock_pair a b spans spans
  unfolding build_graph lookup
  graph_edges a b = ground (
    arith,
    edges_of_build_edges [] spans 0 (init_graph spans []) a b refl refl,
    neighbours-init_graph spans [] a b refl,
  )

keys_of_clock_edges :
    (i : ℕ) (s1 : Span) (j : ℕ) (rest : List Span) (g : Graph) (k : String)
    → has s1.span_id (keys g) ≡ true
    → has k (keys (clock_edges i s1 j rest g)) ≡ has k (keys g)
unfolding clock_edges clock_edge
keys_of_clock_edges i s1 j [] g k h = refl
keys_of_clock_edges i s1 j (s2 ∷ rest) g k h = ground (
  arith,
  eq_iff s1.span_id k,
  has-keys-append_edge s1.span_id s2.span_id k g,
  has-keys-append_edge s1.span_id s2.span_id s1.span_id g,
  keys_of_clock_edges i s1 (j + 1) rest (clock_edge i s1 j s2 g) k,
)

keys_of_parent_edge :
    (s1 : Span) (g : Graph) (k : String)
    → has k (keys (parent_edge s1 g)) ≡ has k (parents (s1 ∷ [])) || has k (keys g)
unfolding parent_edge
keys_of_parent_edge s1 g k = ground (arith, has-keys-append_edge s1.parent_span_id s1.span_id k g)

keys_of_build_edges :
    (spans : List Span) (i : ℕ) (rest : List Span) (g : Graph) (k : String)
    → ((j : String) → has j (ids rest) ≡ true → has j (keys g) ≡ true)
    → has k (keys (build_edges spans i rest g)) ≡ has k (parents rest) || has k (keys g)
unfolding build_edges
keys_of_build_edges spans i [] g k h = refl
keys_of_build_edges spans i (s1 ∷ rest) g k h =
    let g' = parent_edge s1 g in
    let own : has s1.span_id (keys g') ≡ true =
      ground
        (arith, keys_of_parent_edge s1 g s1.span_id, h s1.span_id, eq_iff s1.span_id s1.span_id) in
    ground (
      arith,
      keys_of_parent_edge s1 g k,
      keys_of_clock_edges i s1 0 spans g' k own,
      keys_of_build_edges spans (i + 1) rest (clock_edges i s1 0 spans g') k (λ j p.
          ground
            (arith, h j, keys_of_clock_edges i s1 0 spans g' j own, keys_of_parent_edge s1 g j)),
    )

-- The keys of the graph are the ids of the spans and the parents that they name.
pub graph_keys :
    (spans : List Span) (k : String)
    → has k (keys (build_graph spans)) ≡ has k (ids spans) || has k (parents spans)
unfolding build_graph
graph_keys spans k = ground (
  arith,
  has-keys-init_graph spans [] k,
  keys_of_build_edges spans 0 spans (init_graph spans []) k
      (λ j p. ground (arith, has-keys-init_graph spans [] j)),
)
