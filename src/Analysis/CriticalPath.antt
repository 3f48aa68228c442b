-- ===== src/Analysis/CriticalPath.antt =====
-- `IdentifyCriticalPath` of pkg/analysis.go. A node is changed while the tree is searched, so
-- that the search returns the changed node. `none` is a search that has not ended: `build_tree`
-- follows the parents that the spans name, on fuel.
pub mod Tree
pub mod Search
pub mod Chains
pub mod Optimal
pub mod Cycles
mod Tests
use dapper_distributed_traci.Prelude.{
  ℕ, zero, suc, ◌+◌, Bool, true, false, String, Option, none, some, List, [], ◌∷◌, ◌++◌, ◌==◌,
  if◌then◌else◌,
}
use dapper_distributed_traci.Prelude.Int.{ℤ, pos, ltb_ℤ, add_int64}
use dapper_distributed_traci.Table.{Table, lookup, insert}
use dapper_distributed_traci.Time.{Time}
use dapper_distributed_traci.Wire.{Timestamp, Span, Trace}
use dapper_distributed_traci.Analysis.{latency_ms}

-- The span, its latency, the children and whether the node is on the critical path.
mutual
  pub data PathNode : Type 0 where
    path_node : Span → ℤ → PathNodes → Bool → PathNode

  pub data PathNodes : Type 0 where
    leaf : PathNodes
    child : PathNode → PathNodes → PathNodes

abbrev pub or_no_spans : Option (List Span) → List Span
or_no_spans none = []
or_no_spans (some spans) = spans

-- `childMap[id]`
abbrev pub children_of : String → Table (List Span) → List Span
children_of id child_map = or_no_spans (lookup id child_map)

pub add_child : Span → Table (List Span) → Table (List Span)
add_child span child_map =
    if span.parent_span_id == ""
    then child_map
    else insert span.parent_span_id (children_of span.parent_span_id child_map ++ span ∷ [])
        child_map

pub build_child_map : List Span → Table (List Span) → Table (List Span)
unfolding add_child
build_child_map [] child_map = child_map
build_child_map (span ∷ rest) child_map = build_child_map rest (add_child span child_map)

-- The last span without a parent.
pub last_root : List Span → Option Span → Option Span
last_root [] root = root
last_root (span ∷ rest) root =
    last_root rest (if span.parent_span_id == "" then some span else root)

pub first_span : List Span → Option Span
first_span [] = none
first_span (span ∷ rest) = some span

root_or_first : Option Span → List Span → Option Span
unfolding first_span
root_or_first (some root) spans = some root
root_or_first none spans = first_span spans

pub root_span : List Span → Option Span
unfolding root_or_first last_root
root_span spans = root_or_first (last_root spans none) spans

-- A child that is nil is left out.
prepend : Option PathNode → PathNodes → PathNodes
prepend none nodes = nodes
prepend (some node) nodes = child node nodes

-- A node for a span with a latency, once the children are built.
pub make_node : Span → Option ℤ → Option PathNodes → Option (Option PathNode)
make_node span none children = some none
make_node span (some latency) none = none
make_node span (some latency) (some children) = some (some (path_node span latency children false))

join_nodes : Option (Option PathNode) → Option PathNodes → Option PathNodes
unfolding prepend
join_nodes none rest = none
join_nodes (some first) none = none
join_nodes (some first) (some rest) = some (prepend first rest)

-- The children of a list of spans, one after another.
pub build_all : (Span → Option (Option PathNode)) → List Span → Option PathNodes
unfolding join_nodes
build_all build [] = some leaf
build_all build (span ∷ rest) = join_nodes (build span) (build_all build rest)

module _ (as_time : Timestamp → Time) where
  pub build_tree : ℕ → Table (List Span) → Span → Option (Option PathNode)
  unfolding make_node build_all
  build_tree zero child_map span = none
  build_tree (suc fuel) child_map span =
      make_node span (latency_ms as_time span)
        (build_all (build_tree fuel child_map) (children_of span.span_id child_map))

abbrev pub set_critical : PathNode → PathNode
set_critical (path_node span latency children critical) = path_node span latency children true

-- `criticalChild.CriticalPath = true`, for the child at that place.
mark : Option ℕ → PathNodes → PathNodes
mark none nodes = nodes
mark (some i) leaf = leaf
mark (some zero) (child node rest) = child (set_critical node) rest
mark (some (suc i)) (child node rest) = child node (mark (some i) rest)

abbrev marked : Span → ℤ → Bool → ℤ × Option ℕ × PathNodes → ℤ × PathNode
marked span latency critical (best, place, children) =
    (add_int64 latency best, path_node span (add_int64 latency best) (mark place children) critical)

-- The loop over the children: the largest latency, the place of its child, the changed children.
mutual
  unfolding mark

  pub find_critical_path : PathNode → ℤ × PathNode
  find_critical_path (path_node span latency children critical) =
      marked span latency critical (find_in_children children (pos 0) 0 none)

  pub find_in_children : PathNodes → ℤ → ℕ → Option ℕ → ℤ × Option ℕ × PathNodes
  find_in_children leaf best i place = (best, place, leaf)
  find_in_children (child node rest) best i place =
      let (latency, changed) = find_critical_path node in
      let larger = ltb_ℤ best latency in
      let (last, at, nodes) =
        find_in_children rest (if larger then latency else best) (i + 1)
          (if larger then some i else place) in
      (last, at, child changed nodes)

mutual
  pub extract_critical_path : PathNode → List Span
  extract_critical_path (path_node span latency children true) = span ∷ extract_first children
  extract_critical_path (path_node span latency children false) = []

  pub extract_first : PathNodes → List Span
  extract_first leaf = []
  extract_first (child (path_node span latency children true) rest) =
      extract_critical_path (path_node span latency children true)
  extract_first (child (path_node span latency children false) rest) = extract_first rest

-- The search in the tree, whose root is critical.
pub critical_spans : Option PathNode → List Span
unfolding find_critical_path extract_critical_path
critical_spans none = []
critical_spans (some root) = extract_critical_path ((find_critical_path (set_critical root)).1)

module _ (as_time : Timestamp → Time) where
  -- With `fuel` calls of `buildTree` on top of one another.
  from_root : ℕ → List Span → Option Span → Option (Option PathNode)
  unfolding build_tree build_child_map
  from_root fuel spans none = some none
  from_root fuel spans (some root) = build_tree as_time fuel (build_child_map spans []) root

  pub finished : Option (Option PathNode) → Option (List Span)
  unfolding critical_spans
  finished none = none
  finished (some root) = some (critical_spans root)

  pub identify_critical_path : ℕ → Option (Trace Span) → Option (List Span)
  unfolding from_root finished root_span
  identify_critical_path fuel none = some []
  identify_critical_path fuel (some trace) =
      finished (from_root fuel trace.spans (root_span trace.spans))
