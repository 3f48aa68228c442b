-- ===== src/Ordering.antt =====
-- `OrderSpans` of pkg/clock.go: a graph of causal edges over span ids, a depth-first search, and
-- the reverse of the order in which it finishes. The two maps to `bool` and the result slice are
-- one record. `visit`'s own result is dropped by both callers and is left out.
-- Fuel bounds the depth of the search, and `none` says that it ran out.
mod Flags
mod Outcome
mod Search
pub mod Edges
mod Topology
pub mod Result
pub mod Causality
mod Tests
use dapper_distributed_traci.Prelude.{
  ℕ, zero, suc, ◌+◌, String, Bool, true, false, Option, none, some, List, [], ◌∷◌, ◌++◌, map,
  reverse, ◌==◌, eqb, leb, length, if◌then◌else◌,
}
use dapper_distributed_traci.Prelude.Int.{eqb_ℤ}
use dapper_distributed_traci.Table.{Table, lookup, insert, keys, is_set}
use dapper_distributed_traci.Wire.{Span}
use dapper_distributed_traci.Clock.{VectorClock, vector_clock_from_proto, compare, before}

abbrev pub Graph : Type 0
Graph = Table (List String)

abbrev pub or_empty : Option (List String) → List String
or_empty none = []
or_empty (some ids) = ids

-- `graph[id]`
abbrev pub neighbours : String → Graph → List String
neighbours id graph = or_empty (lookup id graph)

-- `graph[from] = append(graph[from], to)`
pub append_edge : String → String → Graph → Graph
append_edge from to graph = insert from (neighbours from graph ++ to ∷ []) graph

pub init_graph : List Span → Graph → Graph
init_graph [] graph = graph
init_graph (span ∷ rest) graph = init_graph rest (insert span.span_id [] graph)

pub init_span_map : List Span → Table Span → Table Span
init_span_map [] span_map = span_map
init_span_map (span ∷ rest) span_map = init_span_map rest (insert span.span_id span span_map)

abbrev pub clock_of : Span → VectorClock
clock_of span = vector_clock_from_proto span.vector_clock

unfoldable pub happens_before : Span → Span → Bool
unfolding compare vector_clock_from_proto
happens_before a b = eqb_ℤ (compare (clock_of a) (some (clock_of b))) before

-- One round of the inner loop: `i == j` is passed over.
pub clock_edge : ℕ → Span → ℕ → Span → Graph → Graph
clock_edge i span1 j span2 graph =
    if eqb i j
    then graph
    else if happens_before span1 span2
    then append_edge span1.span_id span2.span_id graph
    else graph

pub clock_edges : ℕ → Span → ℕ → List Span → Graph → Graph
clock_edges i span1 j [] graph = graph
clock_edges i span1 j (span2 ∷ rest) graph =
    clock_edges i span1 (j + 1) rest (clock_edge i span1 j span2 graph)

pub parent_edge : Span → Graph → Graph
parent_edge span1 graph =
    if span1.parent_span_id == ""
    then graph
    else append_edge span1.parent_span_id span1.span_id graph

-- The outer loop, over `i` and `span1`.
pub build_edges : List Span → ℕ → List Span → Graph → Graph
build_edges spans i [] graph = graph
build_edges spans i (span1 ∷ rest) graph =
    build_edges spans (i + 1) rest (clock_edges i span1 0 spans (parent_edge span1 graph))

pub build_graph : List Span → Graph
unfolding build_edges init_graph parent_edge clock_edges clock_edge append_edge happens_before
build_graph spans = build_edges spans 0 spans (init_graph spans [])

pub record Visit : Type 0 where
  pub temp : Table Bool
  pub visited : Table Bool
  pub ordered : List (Option Span)

pub visit_all : (String → Visit → Option Visit) → List String → Visit → Option Visit
visit_all step [] s = some s
visit_all step (id ∷ ids) s = elim (step id s) [ none ↦ none | some s' ↦ visit_all step ids s' ]

pub enter : String → Visit → Visit
enter id s = record s { temp = insert id true s.temp }

-- A missing key of `spanMap` reads as a nil pointer, and is appended all the same.
pub leave : Table Span → String → Visit → Visit
leave span_map id s = record {
  temp = insert id false s.temp;
  visited = insert id true s.visited;
  ordered = s.ordered ++ lookup id span_map ∷ [];
}

abbrev pub left : Table Span → String → Option Visit → Option Visit
left span_map id none = none
left span_map id (some s) = some (leave span_map id s)

pub visit : Graph → Table Span → ℕ → String → Visit → Option Visit
visit graph span_map zero id s = none
visit graph span_map (suc fuel) id s =
    if is_set id s.temp
    then some s
    else if is_set id s.visited
    then some s
    else left span_map id (visit_all (visit graph span_map fuel) (neighbours id graph) (enter id s))

-- The loop over the graph's keys, in the order of one iteration.
pub visit_roots : Graph → Table Span → ℕ → List String → Visit → Option Visit
visit_roots graph span_map fuel [] s = some s
visit_roots graph span_map fuel (id ∷ ids) s =
    elim (if is_set id s.visited then some s else visit graph span_map fuel id s) [
      | none ↦ none
      | some s' ↦ visit_roots graph span_map fuel ids s'
    ]

abbrev pub not_visited : Visit
not_visited = record { temp = []; visited = []; ordered = [] }

abbrev pub reversed : Option Visit → Option (List (Option Span))
reversed none = none
reversed (some s) = some (reverse s.ordered)

-- `order` is the order in which `range graph` gives the keys. A search is never deeper than the
-- graph has keys.
pub order_spans : List String → List Span → Option (List (Option Span))
unfolding build_graph init_span_map visit_roots visit visit_all enter leave
order_spans order spans =
    if leb (length spans) 1
    then some (map some spans)
    else let graph = build_graph spans in
      reversed
        (visit_roots graph (init_span_map spans []) (suc (length (keys graph))) order not_visited)
