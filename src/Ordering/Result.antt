-- ===== src/Ordering/Result.antt =====
-- What `OrderSpans` returns: every id of the graph once, causes before effects, and a nil pointer
-- for a parent that no span of the trace has.
use dapper_distributed_traci.Prelude.{
  ℕ, suc, ◌≤◌, String, ◌≡◌, ◌∙◌, refl, sym, ap, true, false, ◌||◌, Option, none, some, List, [],
  ◌∷◌, map, reverse, arith, ◌==◌, if◌then◌else◌, has, has-reverse, Distinct, Distinct-reverse,
  length, leb,
}
use mathlib.Core.List.{map-append, reverse-append}
use mathlib.Core.Path.{fun_ext}
use dapper_distributed_traci.Table.{Table, lookup, insert, keys}
use dapper_distributed_traci.Table.Laws.{lookup-insert}
use dapper_distributed_traci.Wire.{Span}
use dapper_distributed_traci.Ordering.{
  init_span_map, build_graph, visit_roots, not_visited, order_spans,
}
use dapper_distributed_traci.Ordering.Flags.{free-le-length}
use dapper_distributed_traci.Ordering.Outcome.{IsSound, Outcome, finished, look}
use dapper_distributed_traci.Ordering.Search.{IsClosed, visit_roots_outcome}
use dapper_distributed_traci.Ordering.Topology.{IsTopological, IsRanked, visit_roots-InOrder}
use dapper_distributed_traci.Ordering.Edges.{
  ids, parents, parent_pair, clock_pair_from, clock_pair, graph_edges, graph_keys,
}

-- The last span with an id.
abbrev pub span_of : String → List Span → Option Span
span_of id [] = none
span_of id (s ∷ rest) = elim (span_of id rest) [
  | some t ↦ some t
  | none ↦ if s.span_id == id then some s else none
]

or_else : Option Span → Option Span → Option Span
or_else none o = o
or_else (some s) o = some s

lookup-init_span_map :
    (spans : List Span) (m : Table Span) (id : String)
    → lookup id (init_span_map spans m) ≡ or_else (span_of id spans) (lookup id m)
unfolding init_span_map or_else
lookup-init_span_map [] m id = refl
lookup-init_span_map (s ∷ rest) m id =
    ground
      (arith, lookup-init_span_map rest (insert s.span_id s m) id, lookup-insert s.span_id id s m)

parent_pair-has :
    (a b : String) (spans : List Span) → parent_pair a b spans ≡ true → has b (ids spans) ≡ true
parent_pair-has a b [] h = cc
parent_pair-has a b (s ∷ rest) h = ground (arith, parent_pair-has a b rest)

clock_pair_from-has :
    (s1 : Span) (b : String) (spans : List Span)
    → clock_pair_from s1 b spans ≡ true
    → has b (ids spans) ≡ true
clock_pair_from-has s1 b [] h = cc
clock_pair_from-has s1 b (s ∷ rest) h = ground (arith, clock_pair_from-has s1 b rest)

clock_pair-has :
    (a b : String) (spans firsts : List Span)
    → clock_pair a b spans firsts ≡ true
    → has b (ids spans) ≡ true
clock_pair-has a b spans [] h = cc
clock_pair-has a b spans (s ∷ rest) h =
    ground (arith, clock_pair-has a b spans rest, clock_pair_from-has s b spans)

graph-IsClosed : (spans : List Span) → IsClosed (keys (build_graph spans)) (build_graph spans)
graph-IsClosed spans a b h = ground (
  arith,
  graph_edges spans a b,
  graph_keys spans b,
  parent_pair-has a b spans,
  clock_pair-has a b spans spans,
)

map-reverse {ℓ κ} :
    {A : Type ℓ} {B : Type κ} (f : A → B) (xs : List A) → map f (reverse xs) ≡ reverse (map f xs)
map-reverse f [] = refl
map-reverse f (x ∷ xs) =
    simp (
      reverse-append (x ∷ []) xs,
      reverse-append (f x ∷ []) (map f xs),
      map-append,
      map-reverse f xs,
    )

look_is_span_of :
    (spans : List Span) (id : String) → look (init_span_map spans []) id ≡ span_of id spans
unfolding lookup or_else
look_is_span_of spans id = ground (arith, lookup-init_span_map spans [] id)

-- An iteration over the graph gives each key; the keys are the ids and the parents named.
abbrev pub IsOrder : List String → List Span → Type 0
IsOrder order spans = (id : String) → has id order ≡ has id (ids spans) || has id (parents spans)

module _ (order : List String) (spans : List Span) (full : IsOrder order spans) where
  abbrev pub U : List String
  U = keys (build_graph spans)

  IsSound-at_start : IsSound U (init_span_map spans []) not_visited
  unfolding lookup
  IsSound-at_start = record { in_step = refl; known = λ j p. cc; flags = λ j. refl; apart = tt }

  abbrev pub fuel : ℕ
  fuel = suc (length U)

  pub search :
      Outcome U
        (init_span_map spans [])
        order
        not_visited
        (visit_roots (build_graph spans) (init_span_map spans []) fuel order not_visited)
  search =
      visit_roots_outcome (build_graph spans) U (init_span_map spans []) (graph-IsClosed spans) fuel
        order not_visited (λ j p. graph_keys spans j ∙ (sym (full j) ∙ p))
        (omega (arith, free-le-length U [])) IsSound-at_start

  -- The ids of the result, in its order.
  abbrev pub result : List String
  result = reverse (finished search.final)

  pub has-result : (id : String) → has id result ≡ has id (ids spans) || has id (parents spans)
  unfolding lookup
  has-result id = ground (
    arith,
    has-reverse id (finished search.final),
    search.sound.known id,
    search.sound.flags id,
    search.reaches.done id,
    graph_keys spans id,
    full id,
  )

  pub result-Distinct : Distinct result
  result-Distinct = Distinct-reverse (finished search.final) search.sound.apart

  spans_of_result : reverse search.final.ordered ≡ map (λ id. span_of id spans) result
  spans_of_result =
      ap reverse search.sound.in_step
      ∙ sym (map-reverse (look (init_span_map spans [])) (finished search.final))
      ∙ ap (λ f. map f result) (fun_ext (look_is_span_of spans))

  pub order_spans_lem :
      leb (length spans) 1 ≡ false
      → order_spans order spans ≡ some (map (λ id. span_of id spans) result)
  unfolding order_spans
  order_spans_lem many = rw (many, search.at) (ap some spans_of_result)

  pub result-IsTopological :
      (rank : String → ℕ)
      → IsRanked (build_graph spans) rank
      → IsTopological (build_graph spans) result
  unfolding lookup
  result-IsTopological rank ranked =
      visit_roots-InOrder (build_graph spans) (init_span_map spans []) rank ranked U
        (graph-IsClosed spans) fuel order not_visited search.final
        (λ j p. graph_keys spans j ∙ (sym (full j) ∙ p)) (omega (arith, free-le-length U []))
        IsSound-at_start (λ j. refl) tt search.at

-- For a trace of two or more spans and any order of iteration over the graph's keys, `OrderSpans`
-- ends, and returns the spans of a list of ids that repeats none and holds exactly the ids of the
-- spans and the parents that they name; an id stands for the last span that has it, or for nil.
pub order_spans_complete :
    (order : List String) (spans : List Span)
    → IsOrder order spans
    → 2 ≤ length spans
    → (l : List String) × (order_spans order spans ≡ some (map (λ id. span_of id spans) l))
      × Distinct l
      × ((id : String) → has id l ≡ has id (ids spans) || has id (parents spans))
order_spans_complete order spans full many = (
  result order spans full,
  order_spans_lem order spans full (ground arith),
  result-Distinct order spans full,
  has-result order spans full,
)
