-- ===== src/Analysis/CriticalPath/Optimal.antt =====
-- The critical path next to all chains of calls from the root of a trace.
use dapper_distributed_traci.Prelude.{
  ℕ, ◌<◌, ◌≤◌, Bool, true, false, String, ◌==◌, ◌≡◌, refl, ap, ◌∙◌, some, List, [], ◌∷◌,
}
use dapper_distributed_traci.Prelude.Int.{ℤ, ◌≤ℤ◌, max_int}
use dapper_distributed_traci.Time.{Time}
use dapper_distributed_traci.Wire.{Timestamp, Span, Trace}
use dapper_distributed_traci.Analysis.{latency_ms}
use dapper_distributed_traci.Analysis.CriticalPath.{
  PathNode, PathNodes, path_node, build_child_map, build_tree, set_critical, critical_spans,
  extract_critical_path, find_critical_path, root_span, identify_critical_path, finished, from_root,
}
use dapper_distributed_traci.Analysis.CriticalPath.Search.{
  Descent, stop, down, is_critical, IsFresh, room, search_node,
}
use dapper_distributed_traci.Analysis.CriticalPath.Tree.{IsAmong}
use dapper_distributed_traci.Analysis.CriticalPath.Chains.{
  Chain, alone, total, tree_sound, tree_complete, built_node, tree-IsFresh, tree_ends,
}

module _ (as_time : Timestamp → Time) where
  remarked :
      {span : Span} {l : ℤ} {nodes : PathNodes} {a b : Bool} {path : List Span} {sum : ℤ}
      → Descent (path_node span l nodes a) path sum
      → Descent (path_node span l nodes b) path sum
  remarked stop = stop
  remarked (down c d) = down c d

  along :
      {node : PathNode} {p q : List Span} {sum : ℤ}
      → p ≡ q
      → Descent node p sum
      → Descent node q sum
  along e d = rw e at d

  set_critical-critical : (node : PathNode) → is_critical node ≡ true → set_critical node ≡ node
  set_critical-critical (path_node span l nodes true) h = refl
  set_critical-critical (path_node span l nodes false) h = absurd (cc)

  -- The search in a new tree finds one of its longest ways.
  critical_in :
      (node : PathNode)
      → IsFresh node
      → room node ≤ max_int
      → (sum : ℤ) × Descent node (critical_spans (some node)) sum
        × ((path : List Span) (other : ℤ) → Descent node path other → other ≤ℤ sum)
  unfolding critical_spans IsFresh room
  critical_in (path_node span l nodes critical) fresh small =
      let root = path_node span l nodes true in
      let (way, most, _, same) = search_node root fresh small in
      let changed = (find_critical_path root).1 in
      let marked_already : set_critical changed ≡ changed = set_critical-critical changed same in
      (
        (find_critical_path root).0,
        remarked (along (ap (λ n. extract_critical_path n) marked_already) way),
        λ path other d. most path other (remarked d),
      )

  -- The last span without a parent, or else the first span, is the root. Where each span that names
  -- a parent has a smaller rank than that parent, the root is timed, and the latencies of its tree
  -- do not overflow together, IdentifyCriticalPath ends: with more calls than the rank of the root
  -- it returns a chain of calls from the root, and no chain of calls from it has a larger sum of
  -- latencies.
  pub identify_critical_path-optimal :
      (trace : Trace Span) (root : Span) (rank : String → ℕ) (l : ℤ) (fuel : ℕ)
      → root_span trace.spans ≡ some root
      → latency_ms as_time root ≡ some l
      → ((span : Span)
          → IsAmong span trace.spans
          → (span.parent_span_id == "") ≡ false
          → rank span.span_id < rank span.parent_span_id)
      → rank root.span_id < fuel
      → ((node : PathNode)
          → build_tree as_time fuel (build_child_map trace.spans []) root ≡ some (some node)
          → room node ≤ max_int)
      → (path : List Span) × (identify_critical_path as_time fuel (some trace) ≡ some path)
        × Chain as_time trace.spans root path
        × ((other : List Span)
            → Chain as_time trace.spans root other
            → total as_time other ≤ℤ total as_time path)
  unfolding identify_critical_path from_root finished
  identify_critical_path-optimal trace root rank l fuel at timed lower enough fits =
      let spans = trace.spans in
      let (o, ended) = tree_ends as_time spans rank lower fuel root enough in
      let (node, there) = built_node as_time spans fuel root (root ∷ []) o ended (alone l timed) in
      let built = ended ∙ ap (λ x. some x) there in
      let (sum, way, most) =
        critical_in node (tree-IsFresh as_time spans fuel root node built).1 (fits node built) in
      let path = critical_spans (some node) in
      let (chain, same) = tree_sound as_time spans fuel root node path sum built way in
      (
        path,
        rw (at, built) refl,
        chain,
        λ other c. rw same at (
            most other (total as_time other)
              (tree_complete as_time spans fuel root node other built c)),
      )
