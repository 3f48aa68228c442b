-- ===== src/Analysis/CriticalPath/Cycles.antt =====
-- Traces on which `buildTree` calls itself without end.
use dapper_distributed_traci.Prelude.{
  ℕ, zero, suc, false, ◌==◌, ◌≡◌, refl, ap, ◌∙◌, Option, none, some, List, [], ◌∷◌, inl, inr,
}
use dapper_distributed_traci.Prelude.Int.{ℤ}
use dapper_distributed_traci.Time.{Time}
use dapper_distributed_traci.Wire.{Timestamp, Span, Trace}
use dapper_distributed_traci.Analysis.{latency_ms}
use dapper_distributed_traci.Analysis.CriticalPath.{
  PathNode, children_of, build_child_map, build_all, build_tree, make_node, join_nodes, root_span,
  identify_critical_path, finished, from_root,
}
use dapper_distributed_traci.Analysis.CriticalPath.Tree.{IsAmong, child_iff}

node_waits : (span : Span) (l : ℤ) (o : Option ℤ) → o ≡ some l → make_node span o none ≡ none
unfolding make_node
node_waits span l none h = absurd (cc)
node_waits span l (some l') h = refl

join_none : (first : Option (Option PathNode)) → join_nodes first none ≡ none
unfolding join_nodes
join_none none = refl
join_none (some o) = refl

-- A list of spans waits for each of them.
all_wait :
    (build : Span → Option (Option PathNode)) (span : Span) (spans : List Span)
    → IsAmong span spans
    → build span ≡ none
    → build_all build spans ≡ none
unfolding build_all join_nodes
all_wait build span [] a h = absurd a
all_wait build span (first ∷ rest) (inl e) h =
    let waits : build first ≡ none = ap (λ s. build s) e ∙ h in rw waits refl
all_wait build span (first ∷ rest) (inr later) h =
    rw (all_wait build span rest later h) (join_none (build first))

module _ (as_time : Timestamp → Time) (spans : List Span) (P : Span → Type 0)
    (timed : (span : Span) → P span → (l : ℤ) × (latency_ms as_time span ≡ some l))
    (goes_on : (span : Span)
      → P span
      → ((span.span_id == "") ≡ false)
        × (callee : Span) × IsAmong callee spans
        × (callee.parent_span_id ≡ span.span_id)
        × P callee) where
  never_built :
      (fuel : ℕ) (span : Span)
      → P span
      → build_tree as_time fuel (build_child_map spans []) span ≡ none
  unfolding build_tree
  never_built zero span p = refl
  never_built (suc fuel) span p =
      let m = build_child_map spans [] in
      let (nonempty, callee, there, named, q) = goes_on span p in
      let (l, at) = timed span p in
      let waits =
        all_wait (build_tree as_time fuel m) callee (children_of span.span_id m)
          ((child_iff span.span_id callee spans).1 (there, named, nonempty))
          (never_built fuel callee q) in
      rw waits (node_waits span l (latency_ms as_time span) at)

  -- Where the root of a trace is one of some timed spans each of which has a child, that is named by
  -- its own id, among them, such as a span that is its own parent, IdentifyCriticalPath does not end,
  -- however many calls it may make on top of one another.
  pub identify_critical_path-cycle :
      (trace : Trace Span) (root : Span) (fuel : ℕ)
      → trace.spans ≡ spans
      → root_span trace.spans ≡ some root
      → P root
      → identify_critical_path as_time fuel (some trace) ≡ none
  unfolding identify_critical_path from_root finished
  identify_critical_path-cycle trace root fuel same at p =
      rw (at, same, never_built fuel root p) refl
