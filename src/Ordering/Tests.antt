-- ===== src/Ordering/Tests.antt =====
-- `OrderSpans` on three spans of one trace, the theorems on it at that trace, and at a trace whose
-- parent is missing.
use dapper_distributed_traci.Prelude.{
  ℕ, ◌<◌, String, ◌≡◌, refl, true, not, ◌||◌, Option, some, none, List, [], ◌∷◌, map, arith, has,
  Distinct, any, eq_iff, ◌&&◌, sym, ◌∙◌, ◌==◌, if◌then◌else◌,
}
use dapper_distributed_traci.Table.{lookup, insert}
use dapper_distributed_traci.Wire
use dapper_distributed_traci.Wire.{Span, status_ok}
use dapper_distributed_traci.Ordering.{order_spans, neighbours, build_graph, happens_before}
use dapper_distributed_traci.Ordering.Edges.{ids, parents, parent_pair, clock_pair, graph_edges}
use dapper_distributed_traci.Ordering.Result.{span_of, IsOrder, order_spans_complete}
use dapper_distributed_traci.Ordering.Causality.{
  precedes, causes, order_spans_causal, is_nil, misses_parent, order_spans_nil,
}

abbrev span : String → String → Wire.VectorClock → Span
span id parent clock = record {
  span_id = id;
  trace_id = "t";
  parent_span_id = parent;
  service_name = "s";
  operation_name = "o";
  start_time = none;
  end_time = none;
  annotations = [];
  status = status_ok;
  vector_clock = some clock;
  node_id = "n";
}

-- The child comes first, and its parent last.
abbrev trace : List Span
trace =
    span "child" "root" (record { timestamps = ("n", 3) ∷ [] })
    ∷ span "other" "root" (record { timestamps = ("n", 4) ∷ [] })
    ∷ span "root" "" (record { timestamps = ("n", 2) ∷ [] })
    ∷ []

abbrev order : List String
order = "child" ∷ "other" ∷ "root" ∷ []

abbrev orphans : List Span
orphans =
    span "x" "gone" (record { timestamps = ("n", 2) ∷ [] })
    ∷ span "y" "x" (record { timestamps = ("n", 3) ∷ [] })
    ∷ []

abbrev orphan_order : List String
orphan_order = "x" ∷ "gone" ∷ "y" ∷ []

trace_ordered :
    order_spans order trace ≡ some (map (λ id. span_of id trace) ("root" ∷ "child" ∷ "other" ∷ []))
unfolding order_spans lookup insert
trace_ordered = refl

abbrev rank : String → ℕ
rank id = if "root" == id then 2 else if "child" == id then 1 else 0

trace-IsOrder : IsOrder order trace
trace-IsOrder id = ground arith

orphans-IsOrder : IsOrder orphan_order orphans
orphans-IsOrder id = ground arith

-- The clocks run from "root" over "child" to "other".
trace-causes :
    (a b : String)
    → causes a b trace
      ≡ ("root" == a && ("child" == b || "other" == b)) || ("child" == a && "other" == b)
unfolding happens_before lookup insert
trace-causes a b = ground arith

falls :
    (a b : String)
    → ("root" == a && ("child" == b || "other" == b)) || ("child" == a && "other" == b) ≡ true
    → rank b < rank a
falls a b h = ground (
  arith,
  eq_iff "root" a,
  eq_iff "child" a,
  eq_iff "root" b,
  eq_iff "child" b,
  eq_iff "other" b,
  eq_iff "root" "child",
  eq_iff "root" "other",
  eq_iff "child" "other",
)

ranked : (a b : String) → causes a b trace ≡ true → rank b < rank a
ranked a b h = falls a b (sym (trace-causes a b) ∙ h)

graph_edges_example :
    has "child" (neighbours "root" (build_graph trace))
    ≡ parent_pair "root" "child" trace || clock_pair "root" "child" trace trace
graph_edges_example = graph_edges trace "root" "child"

order_spans_complete_example :
    (l : List String) × (order_spans order trace ≡ some (map (λ id. span_of id trace) l))
    × Distinct l
    × ((id : String) → has id l ≡ has id (ids trace) || has id (parents trace))
order_spans_complete_example = order_spans_complete order trace trace-IsOrder (omega arith)

order_spans_causal_example :
    (l : List String) × (order_spans order trace ≡ some (map (λ id. span_of id trace) l))
    × Distinct l
    × ((a b : String) → not (causes a b trace) || precedes a b l ≡ true)
order_spans_causal_example = order_spans_causal order trace rank trace-IsOrder (omega arith) ranked

-- The parent that is missing is a nil pointer in the result.
abbrev orphans_ordered : List (Option Span)
orphans_ordered = map (λ id. span_of id orphans) ("gone" ∷ "x" ∷ "y" ∷ [])

orphans_result : order_spans orphan_order orphans ≡ some orphans_ordered
unfolding order_spans lookup insert
orphans_result = refl

order_spans_nil_example : any is_nil orphans_ordered ≡ misses_parent orphans
order_spans_nil_example =
    order_spans_nil orphan_order orphans orphans_ordered orphans-IsOrder (omega arith)
      orphans_result

orphans_miss_parent : misses_parent orphans ≡ true
orphans_miss_parent = refl
