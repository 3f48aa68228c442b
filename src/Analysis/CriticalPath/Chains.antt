-- ===== src/Analysis/CriticalPath/Chains.antt =====
-- The chains of calls of a trace, and the ways down the tree that `buildTree` makes of it.
use dapper_distributed_traci.Prelude.{
  ℕ, zero, suc, ◌<◌, false, String, ◌==◌, ◌≡◌, refl, ap, sym, ◌∙◌, Option, none, some, List, [],
  ◌∷◌, inl, inr, arith,
}
use dapper_distributed_traci.Prelude.Int.{ℤ, pos, ◌+ℤ◌}
use dapper_distributed_traci.Time.{Time}
use dapper_distributed_traci.Wire.{Timestamp, Span}
use dapper_distributed_traci.Analysis.{latency_ms}
use dapper_distributed_traci.Analysis.CriticalPath.{
  PathNode, PathNodes, path_node, leaf, child, children_of, build_child_map, build_all, build_tree,
}
use dapper_distributed_traci.Analysis.CriticalPath.Search.{
  IsChild, Descent, stop, down, is_critical, IsFresh, AreFresh, add_zero,
}
use dapper_distributed_traci.Analysis.CriticalPath.Tree.{
  IsAmong, child_iff, node_parts, built_children, node_there, node_ends, all_end,
}

abbrev pub or_zero : Option ℤ → ℤ
or_zero none = pos 0
or_zero (some latency) = latency

all-AreFresh :
    (nodes : PathNodes)
    → ((node : PathNode) → IsChild node nodes → (is_critical node ≡ false) × IsFresh node)
    → AreFresh nodes
unfolding IsFresh
all-AreFresh leaf each = tt
all-AreFresh (child node rest) each =
    let (plain, fresh) = each node (inl refl) in
    (plain, fresh, all-AreFresh rest (λ n c. each n (inr c)))

less : {a b c n : ℕ} → a < b → b ≡ c → c < suc n → a < n
less h e k = omega (arith, h, e, k)

module _ (as_time : Timestamp → Time) where
  -- A chain of calls: each span is timed, and is the parent that the next one names.
  pub data Chain (spans : List Span) : Span → List Span → Type 0 where
    alone : {span : Span} (l : ℤ) → latency_ms as_time span ≡ some l → Chain spans span (span ∷ [])
    calls :
        {span callee : Span} {rest : List Span} (l : ℤ)
        → latency_ms as_time span ≡ some l
        → IsAmong callee spans
        → callee.parent_span_id ≡ span.span_id
        → (span.span_id == "") ≡ false
        → Chain spans callee rest
        → Chain spans span (span ∷ rest)

  abbrev pub total : List Span → ℤ
  total [] = pos 0
  total (span ∷ rest) = or_zero (latency_ms as_time span) +ℤ total rest

  -- The spans below a node are chains, if they are for its children.
  node_sound :
      (spans : List Span) (span : Span) (l : ℤ) (nodes : PathNodes) (path : List Span) (sum : ℤ)
      → latency_ms as_time span ≡ some l
      → ((node : PathNode) (p : List Span) (v : ℤ)
          → IsChild node nodes
          → Descent node p v
          → (callee : Span) × IsAmong callee spans
            × (callee.parent_span_id ≡ span.span_id)
            × ((span.span_id == "") ≡ false)
            × Chain spans callee p
            × (v ≡ total p))
      → Descent (path_node span l nodes false) path sum
      → Chain spans span path × (sum ≡ total path)
  node_sound spans span l nodes _ _ timed each stop = (alone l timed, rw timed (sym (add_zero l)))
  node_sound spans span l nodes _ _ timed each (down {node = n} {spans = p} {sum = v} c d) =
      let (callee, there, named, nonempty, chain, same) = each n p v c d in
      (calls l timed there named nonempty chain, rw (timed, same) refl)

  pub tree_sound :
      (spans : List Span) (fuel : ℕ) (span : Span) (node : PathNode) (path : List Span) (sum : ℤ)
      → build_tree as_time fuel (build_child_map spans []) span ≡ some (some node)
      → Descent node path sum
      → Chain spans span path × (sum ≡ total path)
  unfolding build_tree
  tree_sound spans zero span node path sum h d = absurd (cc)
  tree_sound spans (suc fuel) span node path sum h d =
      let m = build_child_map spans [] in
      let (l, nodes, timed, children, whole) =
        node_parts span (latency_ms as_time span)
          (build_all (build_tree as_time fuel m) (children_of span.span_id m)) node h in
      let (sound, _) =
        built_children (build_tree as_time fuel m) (children_of span.span_id m) nodes children in
      node_sound spans span l nodes path sum timed
        (λ n p v c e.
          let (callee, among, made) = sound n c in
          let (there, named, nonempty) = (child_iff span.span_id callee spans).0 among in
          let (chain, same) = tree_sound spans fuel callee n p v made e in
          (callee, there, named, nonempty, chain, same))
        (rw (sym whole) at d)

  Chain-timed :
      (spans : List Span) (span : Span) (path : List Span)
      → Chain spans span path
      → (l : ℤ) × (latency_ms as_time span ≡ some l)
  Chain-timed spans span _ (alone l timed) = (l, timed)
  Chain-timed spans span _ (calls l timed there named nonempty rest) = (l, timed)

  node_complete :
      (spans : List Span) (span : Span) (l : ℤ) (nodes : PathNodes) (path : List Span)
      → latency_ms as_time span ≡ some l
      → ((callee : Span) (p : List Span)
          → IsAmong callee spans
          → callee.parent_span_id ≡ span.span_id
          → (span.span_id == "") ≡ false
          → Chain spans callee p
          → (node : PathNode) × IsChild node nodes × Descent node p (total p))
      → Chain spans span path
      → Descent (path_node span l nodes false) path (total path)
  node_complete spans span l nodes _ timed each (alone l' timed') = rw (timed, add_zero l) stop
  node_complete spans span l nodes _ timed each
        (calls {callee = callee} {rest = p} l' timed' there named nonempty chain) =
      let (n, c, d) = each callee p there named nonempty chain in rw timed (down c d)

  -- A span of a chain has a node.
  pub built_node :
      (spans : List Span) (fuel : ℕ) (span : Span) (path : List Span) (o : Option PathNode)
      → build_tree as_time fuel (build_child_map spans []) span ≡ some o
      → Chain spans span path
      → (node : PathNode) × (o ≡ some node)
  unfolding build_tree
  built_node spans zero span path o h chain = absurd (cc)
  built_node spans (suc fuel) span path o h chain =
      let m = build_child_map spans [] in
      let (l, timed) = Chain-timed spans span path chain in
      node_there span (latency_ms as_time span)
        (build_all (build_tree as_time fuel m) (children_of span.span_id m)) l o timed h

  pub tree_complete :
      (spans : List Span) (fuel : ℕ) (span : Span) (node : PathNode) (path : List Span)
      → build_tree as_time fuel (build_child_map spans []) span ≡ some (some node)
      → Chain spans span path
      → Descent node path (total path)
  unfolding build_tree
  tree_complete spans zero span node path h chain = absurd (cc)
  tree_complete spans (suc fuel) span node path h chain =
      let m = build_child_map spans [] in
      let (l, nodes, timed, children, whole) =
        node_parts span (latency_ms as_time span)
          (build_all (build_tree as_time fuel m) (children_of span.span_id m)) node h in
      let (_, complete) =
        built_children (build_tree as_time fuel m) (children_of span.span_id m) nodes children in
      rw (sym whole) (
        node_complete spans span l nodes path timed
          (λ callee p there named nonempty c.
            let (o, made, into) =
              complete callee ((child_iff span.span_id callee spans).1 (there, named, nonempty)) in
            let (n, is_node) = built_node spans fuel callee p o made c in
            (
              n,
              into n is_node,
              tree_complete spans fuel callee n p (made ∙ ap (λ x. some x) is_node) c,
            ))
          chain)

  -- Nothing is marked in a new tree.
  pub tree-IsFresh :
      (spans : List Span) (fuel : ℕ) (span : Span) (node : PathNode)
      → build_tree as_time fuel (build_child_map spans []) span ≡ some (some node)
      → (is_critical node ≡ false) × IsFresh node
  unfolding build_tree IsFresh
  tree-IsFresh spans zero span node h = absurd (cc)
  tree-IsFresh spans (suc fuel) span node h =
      let m = build_child_map spans [] in
      let (l, nodes, timed, children, whole) =
        node_parts span (latency_ms as_time span)
          (build_all (build_tree as_time fuel m) (children_of span.span_id m)) node h in
      let (sound, _) =
        built_children (build_tree as_time fuel m) (children_of span.span_id m) nodes children in
      rw (sym whole) (
        refl,
        all-AreFresh nodes
            (λ n c. let (callee, _, made) = sound n c in tree-IsFresh spans fuel callee n made),
      )

  -- With more fuel than the rank of the span, which is below that of its parent, the tree is built.
  pub tree_ends :
      (spans : List Span) (rank : String → ℕ)
      → ((span : Span)
          → IsAmong span spans
          → (span.parent_span_id == "") ≡ false
          → rank span.span_id < rank span.parent_span_id)
      → (fuel : ℕ) (span : Span) → rank span.span_id < fuel
      → (o : Option PathNode) × (build_tree as_time fuel (build_child_map spans []) span ≡ some o)
  unfolding build_tree
  tree_ends spans rank lower zero span small = absurd (ground arith)
  tree_ends spans rank lower (suc fuel) span small =
      let m = build_child_map spans [] in
      let (nodes, built) =
        all_end (build_tree as_time fuel m) (children_of span.span_id m) (λ callee among.
          let (there, named, nonempty) = (child_iff span.span_id callee spans).0 among in
          tree_ends spans rank lower fuel callee
            (less (lower callee there (rw named nonempty)) (ap rank named) small)) in
      rw built (node_ends span (latency_ms as_time span) nodes)
