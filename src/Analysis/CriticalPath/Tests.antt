-- ===== src/Analysis/CriticalPath/Tests.antt =====
-- The critical path of a trace with two calls, and a span that is its own parent.
use dapper_distributed_traci.Prelude.{
  ℕ, ◌<◌, ◌≤◌, String, ◌==◌, false, ◌≡◌, refl, ap, sym, ◌∙◌, none, some, List, [], ◌∷◌, inl, inr,
  arith, if◌then◌else◌,
}
use dapper_distributed_traci.Prelude.Int.{pos, ◌≤ℤ◌, max_int}
use dapper_distributed_traci.Table.{lookup, insert}
use dapper_distributed_traci.Wire.{Span, Trace}
use dapper_distributed_traci.Conversion.{milliseconds}
use dapper_distributed_traci.Analysis.{latency_ms}
use dapper_distributed_traci.Analysis.Examples.{as_time, call, trace_of}
use dapper_distributed_traci.Analysis.CriticalPath.{
  PathNode, path_node, leaf, child, build_child_map, build_tree, build_all, join_nodes, make_node,
  prepend, root_span, root_or_first, last_root, identify_critical_path, add_child, first_span,
}
use dapper_distributed_traci.Analysis.CriticalPath.Search.{room}
use dapper_distributed_traci.Analysis.CriticalPath.Tree.{IsAmong}
use dapper_distributed_traci.Analysis.CriticalPath.Chains.{Chain, total}
use dapper_distributed_traci.Analysis.CriticalPath.Optimal.{identify_critical_path-optimal}
use dapper_distributed_traci.Analysis.CriticalPath.Cycles.{identify_critical_path-cycle}

abbrev root : Span
root = call "web" "a" "" 0 10

abbrev trace : Trace Span
trace = trace_of (root ∷ call "web" "b" "a" 1 4 ∷ call "web" "c" "a" 2 9 ∷ [])

abbrev rank : String → ℕ
rank id = if id == "a" then 1 else 0

abbrev tree : PathNode
tree =
    path_node root (pos 10_000)
      (child (path_node (call "web" "b" "a" 1 4) (pos 3_000) leaf false)
        (child (path_node (call "web" "c" "a" 2 9) (pos 7_000) leaf false) leaf))
      false

tree_built : build_tree as_time 2 (build_child_map trace.spans []) root ≡ some (some tree)
unfolding build_tree build_child_map add_child lookup insert build_all join_nodes make_node prepend
    milliseconds
tree_built = refl

tree_fits : (node : PathNode) → some (some tree) ≡ some (some node) → room node ≤ max_int
unfolding room
tree_fits node e = let whole : tree ≡ node = cc in rw (sym whole) (ground arith)

ranked :
    (span : Span)
    → IsAmong span trace.spans
    → (span.parent_span_id == "") ≡ false
    → rank span.span_id < rank span.parent_span_id
ranked span (inl e) h = absurd (
    let whole : (root.parent_span_id == "") ≡ false = ap (λ s. s.parent_span_id == "") e ∙ h in
    ground (arith, whole))
ranked span (inr (inl e)) h = rw (sym e) (ground arith)
ranked span (inr (inr (inl e))) h = rw (sym e) (ground arith)
ranked span (inr (inr (inr no_more))) h = absurd no_more

identify_critical_path-optimal_example :
    (path : List Span) × (identify_critical_path as_time 2 (some trace) ≡ some path)
    × Chain as_time trace.spans root path
    × ((other : List Span)
        → Chain as_time trace.spans root other
        → total as_time other ≤ℤ total as_time path)
unfolding root_span root_or_first last_root milliseconds
identify_critical_path-optimal_example =
    identify_critical_path-optimal as_time trace root rank (pos 10_000) 2 refl refl ranked
      (ground arith) (λ node e. tree_fits node (sym tree_built ∙ e))

abbrev own_parent : Span
own_parent = call "web" "a" "a" 0 10

identify_critical_path-cycle_example :
    identify_critical_path as_time 1_000 (some (trace_of (own_parent ∷ []))) ≡ none
unfolding root_span root_or_first last_root milliseconds first_span
identify_critical_path-cycle_example =
    identify_critical_path-cycle as_time (own_parent ∷ []) (λ span. own_parent ≡ span)
      (λ span e. (pos 10_000, ap (λ s. latency_ms as_time s) (sym e)))
      (λ span e.
        (ap (λ s. s.span_id == "") (sym e), own_parent, inl refl, ap (λ s. s.span_id) e, refl))
      (trace_of (own_parent ∷ [])) own_parent 1_000 refl refl refl
