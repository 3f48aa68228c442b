-- ===== src/Analysis/CriticalPath/Tree.antt =====
-- The tree that `buildTree` makes: its children are the spans of the trace that name their parent.
use mathlib.Core.List.{append_assoc, append-nil}
use dapper_distributed_traci.Prelude.{
  Bool, true, false, not, ◌&&◌, String, ◌==◌, eq_iff, ◌≡◌, refl, ap, sym, ◌∙◌, Option, none, some,
  List, [], ◌∷◌, ◌++◌, keep, ◌⊎◌, ◌↔◌, inl, inr, arith, Bool-cases, if◌then◌else◌,
}
use dapper_distributed_traci.Prelude.Int.{ℤ}
use dapper_distributed_traci.Table.{Table, lookup}
use dapper_distributed_traci.Table.Laws.{lookup-insert}
use dapper_distributed_traci.Wire.{Span}
use dapper_distributed_traci.Analysis.CriticalPath.{
  PathNode, PathNodes, path_node, leaf, child, children_of, add_child, build_child_map, make_node,
  join_nodes, prepend, build_all,
}
use dapper_distributed_traci.Analysis.CriticalPath.Search.{IsChild}

abbrev pub IsAmong : Span → List Span → Type 0
IsAmong a [] = ⊥
IsAmong a (x ∷ rest) = (x ≡ a) ⊎ IsAmong a rest

-- The spans that name the id as their parent.
abbrev names_parent : String → Span → Bool
names_parent id span = not (span.parent_span_id == "") && span.parent_span_id == id

children-add_child :
    (id : String) (span : Span) (m : Table (List Span))
    → children_of id (add_child span m)
      ≡ (if names_parent id span then children_of id m ++ span ∷ [] else children_of id m)
unfolding add_child
children-add_child id span m = ground (
  arith,
  eq_iff span.parent_span_id id,
  lookup-insert span.parent_span_id id (children_of span.parent_span_id m ++ span ∷ []) m,
)

pub children-build_child_map :
    (id : String) (spans : List Span) (m : Table (List Span))
    → children_of id (build_child_map spans m) ≡ children_of id m ++ keep (names_parent id) spans
unfolding build_child_map
children-build_child_map id [] m = sym (append-nil (children_of id m))
children-build_child_map id (span ∷ rest) m = elim (Bool-cases (names_parent id span)) [
  | inl named ↦
      children-build_child_map id rest (add_child span m)
      ∙ (rw (children-add_child id span m, named)
          (append_assoc (children_of id m) (span ∷ []) (keep (names_parent id) rest)))
  | inr other ↦
      children-build_child_map id rest (add_child span m)
      ∙ (rw (children-add_child id span m, other) refl)
]

-- Both ways: what is kept is in the list, and passes.
IsAmong-keep :
    (p : Span → Bool) (a : Span) (spans : List Span)
    → IsAmong a (keep p spans) ↔ (IsAmong a spans × (p a ≡ true))
IsAmong-keep p a [] = (λ h. absurd h, λ h. absurd h.0)
IsAmong-keep p a (span ∷ rest) =
    let (out, into) = IsAmong-keep p a rest in
    elim (Bool-cases (p span)) [
      | inl kept ↦ rw kept (
        λ h. elim h [
          | inl e ↦ (inl e, ap (λ s. p s) (sym e) ∙ kept)
          | inr later ↦ (inr (out later).0, (out later).1)
        ],
        λ h. elim h.0 [ inl e ↦ inl e | inr later ↦ inr (into (later, h.1)) ],
      )
      | inr dropped ↦ rw dropped (
        λ h. (inr (out h).0, (out h).1),
        λ h. elim h.0 [ inl e ↦ absurd (cc) | inr later ↦ into (later, h.1) ],
      )
    ]

-- The children of an id are the spans that name it.
pub child_iff :
    (id : String) (span : Span) (spans : List Span)
    → IsAmong span (children_of id (build_child_map spans []))
      ↔ (IsAmong span spans × (span.parent_span_id ≡ id) × ((id == "") ≡ false))
unfolding lookup
child_iff id span spans =
    let (out, into) = IsAmong-keep (names_parent id) span spans in
    rw (children-build_child_map id spans []) (
      λ h.
          let (there, named) = out h in
          (
            there,
            ground (arith, named, eq_iff span.parent_span_id id),
            ground (arith, named, eq_iff span.parent_span_id id),
          ),
      λ h. into (h.0, ground (arith, h.1, h.2, eq_iff span.parent_span_id id)),
    )

some-inj {ℓ} : {A : Type ℓ} {x y : A} → some x ≡ some y → x ≡ y
some-inj h = cc

-- A node has a latency and its children's nodes.
pub node_parts :
    (span : Span) (latency : Option ℤ) (children : Option PathNodes) (node : PathNode)
    → make_node span latency children ≡ some (some node)
    → (l : ℤ) × (nodes : PathNodes) × (latency ≡ some l)
      × (children ≡ some nodes)
      × (path_node span l nodes false ≡ node)
unfolding make_node
node_parts span none children node h = absurd (cc)
node_parts span (some l) none node h = absurd (cc)
node_parts span (some l) (some nodes) node h = (l, nodes, refl, refl, some-inj (some-inj h))

-- The nodes of a list of spans, where all have been built.
join_parts :
    (first : Option (Option PathNode)) (rest : Option PathNodes) (nodes : PathNodes)
    → join_nodes first rest ≡ some nodes
    → (o : Option PathNode) × (later : PathNodes) × (first ≡ some o)
      × (rest ≡ some later)
      × (prepend o later ≡ nodes)
unfolding join_nodes
join_parts none rest nodes h = absurd (cc)
join_parts (some o) none nodes h = absurd (cc)
join_parts (some o) (some later) nodes h = (o, later, refl, refl, some-inj h)

prepend_iff :
    (o : Option PathNode) (later : PathNodes) (node : PathNode)
    → IsChild node (prepend o later) ↔ ((o ≡ some node) ⊎ IsChild node later)
unfolding prepend
prepend_iff none later node = (λ c. inr c, λ h. elim h [ inl e ↦ absurd (cc) | inr c ↦ c ])
prepend_iff (some first) later node = (
  λ c. elim c [ inl e ↦ inl (ap (λ n. some n) e) | inr c' ↦ inr c' ],
  λ h. elim h [ inl e ↦ inl (some-inj e) | inr c ↦ inr c ],
)

-- The nodes are those of the spans, and each span has been built.
abbrev pub AreBuilt : (Span → Option (Option PathNode)) → List Span → PathNodes → Type 0
AreBuilt build spans nodes =
    ((node : PathNode)
      → IsChild node nodes
      → (span : Span) × IsAmong span spans × (build span ≡ some (some node)))
    × ((span : Span)
        → IsAmong span spans
        → (o : Option PathNode) × (build span ≡ some o)
          × ((node : PathNode) → o ≡ some node → IsChild node nodes))

built_first :
    (build : Span → Option (Option PathNode)) (span : Span) (rest : List Span) (o : Option PathNode)
    (later : PathNodes)
    → build span ≡ some o
    → AreBuilt build rest later
    → AreBuilt build (span ∷ rest) (prepend o later)
built_first build span rest o later built (sound, complete) = (
  λ node c. elim ((prepend_iff o later node).0 c) [
    | inl e ↦ (span, inl refl, built ∙ ap (λ x. some x) e)
    | inr c' ↦ let (s, there, made) = sound node c' in (s, inr there, made)
  ],
  λ s a. elim a [
    | inl e ↦ (o, ap (λ x. build x) (sym e) ∙ built, λ node h. (prepend_iff o later node).1 (inl h))
    | inr there ↦
        let (o', made, into) = complete s there in
        (o', made, λ node h. (prepend_iff o later node).1 (inr (into node h)))
  ],
)

pub built_children :
    (build : Span → Option (Option PathNode)) (spans : List Span) (nodes : PathNodes)
    → build_all build spans ≡ some nodes
    → AreBuilt build spans nodes
unfolding build_all
built_children build [] leaf h = (λ node c. absurd c, λ span a. absurd a)
built_children build [] (child first others) h = absurd (cc)
built_children build (span ∷ rest) nodes h =
    let (o, later, built, laters, whole) = join_parts (build span) (build_all build rest) nodes h in
    rw (sym whole)
      (built_first build span rest o later built (built_children build rest later laters))

-- A span with a latency has a node, once its children have.
pub node_there :
    (span : Span) (latency : Option ℤ) (children : Option PathNodes) (l : ℤ) (o : Option PathNode)
    → latency ≡ some l
    → make_node span latency children ≡ some o
    → (node : PathNode) × (o ≡ some node)
unfolding make_node
node_there span none children l o timed h = absurd (cc)
node_there span (some l') none l o timed h = absurd (cc)
node_there span (some l') (some nodes) l o timed h =
    (path_node span l' nodes false, sym (some-inj h))

pub node_ends :
    (span : Span) (latency : Option ℤ) (nodes : PathNodes)
    → (o : Option PathNode) × (make_node span latency (some nodes) ≡ some o)
unfolding make_node
node_ends span none nodes = (none, refl)
node_ends span (some l) nodes = (some (path_node span l nodes false), refl)

pub all_end :
    (build : Span → Option (Option PathNode)) (spans : List Span)
    → ((span : Span) → IsAmong span spans → (o : Option PathNode) × (build span ≡ some o))
    → (nodes : PathNodes) × (build_all build spans ≡ some nodes)
unfolding build_all join_nodes
all_end build [] each = (leaf, refl)
all_end build (span ∷ rest) each =
    let (o, built) = each span (inl refl) in
    let (later, laters) = all_end build rest (λ s a. each s (inr a)) in
    (prepend o later, rw (built, laters) refl)
