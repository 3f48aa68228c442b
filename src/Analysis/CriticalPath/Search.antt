-- ===== src/Analysis/CriticalPath/Search.antt =====
-- The search in the tree: its result next to all ways down the tree.
use dapper_distributed_traci.Prelude.{
  ℕ, suc, ◌+◌, ◌≤◌, Bool, false, ◌≡◌, refl, ap, sym, ◌∙◌, Option, none, some, List, [], ◌∷◌, ◌⊎◌,
  inl, inr, arith, Bool-cases, if◌then◌else◌,
}
use dapper_distributed_traci.Prelude.Int.{
  ℤ, pos, negsuc, ◌+ℤ◌, ◌≤ℤ◌, ltb_ℤ, pos_part, neg_part, size_ℤ, max_int, add_int64, add_int64-+ℤ,
  +ℤ-parts,
}
use dapper_distributed_traci.Wire.{Span}
use dapper_distributed_traci.Analysis.CriticalPath.{
  PathNode, PathNodes, path_node, leaf, child, set_critical, mark, marked, find_critical_path,
  find_in_children, extract_critical_path, extract_first,
}

abbrev pub IsChild : PathNode → PathNodes → Type 0
IsChild node leaf = ⊥
IsChild node (child first rest) = (first ≡ node) ⊎ IsChild node rest

-- A way from a node down the tree: its spans, and the sum of the latencies of its nodes.
pub data Descent : PathNode → List Span → ℤ → Type 0 where
  stop :
      {span : Span} {latency : ℤ} {children : PathNodes} {critical : Bool}
      → Descent (path_node span latency children critical) (span ∷ []) latency
  down :
      {span : Span} {latency : ℤ} {children : PathNodes} {critical : Bool} {node : PathNode}
      {spans : List Span} {sum : ℤ}
      → IsChild node children
      → Descent node spans sum
      → Descent (path_node span latency children critical) (span ∷ spans) (latency +ℤ sum)

abbrev pub is_critical : PathNode → Bool
is_critical (path_node span latency children critical) = critical

-- How far from 0 the sum of a way can be.
unfoldable mutual
  pub room : PathNode → ℕ
  room (path_node span latency children critical) = size_ℤ latency + rooms children

  pub rooms : PathNodes → ℕ
  rooms leaf = 0
  rooms (child node rest) = room node + rooms rest

-- No node below is marked.
unfoldable mutual
  pub IsFresh : PathNode → Type 0
  IsFresh (path_node span latency children critical) = AreFresh children

  pub AreFresh : PathNodes → Type 0
  AreFresh leaf = Unit
  AreFresh (child node rest) = (is_critical node ≡ false) × IsFresh node × AreFresh rest

-- No child is marked.
abbrev pub ArePlain : PathNodes → Type 0
ArePlain leaf = Unit
ArePlain (child node rest) = (is_critical node ≡ false) × ArePlain rest

first_marked :
    (node : PathNode) (rest : PathNodes)
    → extract_first (child (set_critical node) rest) ≡ extract_critical_path (set_critical node)
unfolding extract_critical_path
first_marked (path_node span latency children critical) rest = refl

first_plain :
    (node : PathNode) (rest : PathNodes)
    → is_critical node ≡ false
    → extract_first (child node rest) ≡ extract_first rest
unfolding extract_critical_path
first_plain (path_node span latency children critical) rest plain = rw plain refl

none_marked : (nodes : PathNodes) → ArePlain nodes → extract_first nodes ≡ []
unfolding extract_critical_path
none_marked leaf plain = refl
none_marked (child node rest) plain = first_plain node rest plain.0 ∙ none_marked rest plain.1

pub add_zero : (a : ℤ) → a +ℤ pos 0 ≡ a
unfolding ◌+ℤ◌
add_zero (pos n) = ground arith
add_zero (negsuc n) = ground arith

-- What a search of a node has found.
abbrev pub Found : PathNode → ℤ × PathNode → Type 0
Found node (sum, changed) =
    Descent node (extract_critical_path (set_critical changed)) sum
    × ((spans : List Span) (other : ℤ) → Descent node spans other → other ≤ℤ sum)
    × (size_ℤ sum ≤ room node)
    × (is_critical changed ≡ is_critical node)

-- What the loop over the children has found, from a largest latency, a place and a count.
abbrev AllFound : PathNodes → ℤ → ℕ → Option ℕ → ℤ × Option ℕ × PathNodes → Type 0
AllFound nodes best i place (last, at, changed) =
    ArePlain changed
    × ((node : PathNode) (spans : List Span) (other : ℤ)
        → IsChild node nodes
        → Descent node spans other
        → other ≤ℤ last)
    × (best ≤ℤ last)
    × (((last ≡ best) × (at ≡ place))
        ⊎ ((j : ℕ) × (node : PathNode) × (at ≡ some (i + j))
            × IsChild node nodes
            × Descent node (extract_first (mark (some j) changed)) last
            × (size_ℤ last ≤ rooms nodes)))

-- A way through a child, next to the largest of the children's.
below : (a b c : ℤ) → b ≤ℤ c → (a +ℤ b) ≤ℤ (a +ℤ c)
below a b c h = omega (arith, h, (+ℤ-parts a b).0, (+ℤ-parts a c).0)

above_zero : (a b : ℤ) → pos 0 ≤ℤ b → a ≤ℤ (a +ℤ b)
above_zero a b h = omega (arith, h, (+ℤ-parts a b).0)

no_longer :
    (span : Span) (latency best : ℤ) (children : PathNodes) (critical : Bool)
    → pos 0 ≤ℤ best
    → ((node : PathNode) (spans : List Span) (other : ℤ)
        → IsChild node children
        → Descent node spans other
        → other ≤ℤ best)
    → (spans : List Span) (other : ℤ)
    → Descent (path_node span latency children critical) spans other
    → other ≤ℤ (latency +ℤ best)
no_longer span latency best children critical h most _ _ stop = above_zero latency best h
no_longer span latency best children critical h most _ _
      (down {node = n} {spans = s} {sum = w} c d) =
    below latency w best (most n s w c d)

node_found :
    (span : Span) (latency : ℤ) (children : PathNodes) (critical : Bool) (best : ℤ)
    (place : Option ℕ) (changed : PathNodes)
    → size_ℤ latency + rooms children ≤ max_int
    → AllFound children (pos 0) 0 none (best, place, changed)
    → Found
        (path_node span latency children critical)
        (marked span latency critical (best, place, changed))
unfolding room extract_critical_path mark
node_found span latency children critical best place changed small
      (plain, most, up, inl (same, at)) =
    let whole : add_int64 latency best ≡ latency =
      rw same (add_int64-+ℤ latency (pos 0) (omega (arith, small)) ∙ add_zero latency) in
    let alone : extract_first changed ≡ [] = none_marked changed plain in
    rw (whole, at, alone)
      (
        stop,
        λ spans other d. omega (
          arith,
          no_longer span latency best children critical up most spans other d,
          (+ℤ-parts latency best).0,
          ap (λ x. pos_part x) same,
          ap (λ x. neg_part x) same,
        ),
        omega (arith, small),
        refl,
      )
node_found span latency children critical best place changed small
      (plain, most, up, inr (j, node, at, c, d, bound)) =
    let whole : add_int64 latency best ≡ latency +ℤ best =
      add_int64-+ℤ latency best (omega (arith, small, bound)) in
    let here : place ≡ some j = at ∙ ap some (omega arith) in
    rw (whole, here)
      (
        down c d,
        no_longer span latency best children critical up most,
        omega (arith, bound, (+ℤ-parts latency best).1),
        refl,
      )

child_found :
    (node : PathNode) (rest : PathNodes) (best : ℤ) (i : ℕ) (place : Option ℕ) (sum : ℤ)
    (changed : PathNode) (last : ℤ) (at : Option ℕ) (nodes : PathNodes)
    → is_critical node ≡ false
    → Found node (sum, changed)
    → (let larger = ltb_ℤ best sum in
        AllFound rest
          (if larger then sum else best)
          (i + 1)
          (if larger then some i else place)
          (last, at, nodes))
    → AllFound (child node rest) best i place (last, at, child changed nodes)
unfolding mark room
child_found node rest best i place sum changed last at nodes plain (way, most, bound, same)
      (all_plain, all_most, up, which) =
    let still : is_critical changed ≡ false = same ∙ plain in
    let higher : (sum ≤ℤ last) × (best ≤ℤ last) = ground (arith, up) in
    (
      (still, all_plain),
      λ n spans other c d. elim c [
        | inl e ↦ omega (arith, higher.0, most spans other (rw (sym e) at d))
        | inr c' ↦ all_most n spans other c' d
      ],
      higher.1,
      elim which [
        | inl (kept, place_kept) ↦ elim (Bool-cases (ltb_ℤ best sum)) [
          | inl larger ↦
              let whole : last ≡ sum = kept ∙ (rw larger refl) in
              let here : at ≡ some i = place_kept ∙ (rw larger refl) in
              inr (
                0,
                node,
                here ∙ ap some (omega arith),
                inl refl,
                rw (first_marked changed nodes, whole) way,
                rw whole (omega (arith, bound)),
              )
          | inr smaller ↦ inl (kept ∙ (rw smaller refl), place_kept ∙ (rw smaller refl))
        ]
        | inr (j, n, found, c, d, size) ↦ inr (
          suc j,
          n,
          found ∙ ap some (omega arith),
          inr c,
          rw (first_plain changed (mark (some j) nodes) still) d,
          omega (arith, size),
        )
      ],
    )

mutual
  unfolding find_critical_path IsFresh room

  pub search_node :
      (node : PathNode) → IsFresh node → room node ≤ max_int → Found node (find_critical_path node)
  search_node (path_node span latency children critical) fresh small =
      let r = find_in_children children (pos 0) 0 none in
      node_found span latency children critical r.0 r.1 r.2 small
        (search_children children (pos 0) 0 none fresh (omega (arith, small)))

  search_children :
      (nodes : PathNodes) (best : ℤ) (i : ℕ) (place : Option ℕ)
      → AreFresh nodes
      → rooms nodes ≤ max_int
      → AllFound nodes best i place (find_in_children nodes best i place)
  search_children leaf best i place fresh small =
      (tt, λ node spans other c d. absurd c, omega arith, inl (refl, refl))
  search_children (child node rest) best i place (plain, below_fresh, rest_fresh) small =
      let found = find_critical_path node in
      let larger = ltb_ℤ best found.0 in
      let b = if larger then found.0 else best in
      let p = if larger then some i else place in
      let r = find_in_children rest b (i + 1) p in
      child_found node rest best i place found.0 found.1 r.0 r.1 r.2 plain
        (search_node node below_fresh (omega (arith, small)))
        (search_children rest b (i + 1) p rest_fresh (omega (arith, small)))
