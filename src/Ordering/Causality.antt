-- ===== src/Ordering/Causality.antt =====
-- Causes come before effects in the result of `OrderSpans`, and which results hold a nil pointer.
use dapper_distributed_traci.Prelude.{
  ℕ, ◌≤◌, ◌<◌, String, ◌≡◌, ◌∙◌, refl, sym, Bool, true, false, ◌||◌, not, Option, none, some, List,
  [], ◌∷◌, map, arith, ◌==◌, eq_iff, if◌then◌else◌, has, any, length, Bool-cases, inl, inr,
  Distinct,
}
use dapper_distributed_traci.Wire.{Span}
use dapper_distributed_traci.Ordering.{neighbours, build_graph, order_spans}
use dapper_distributed_traci.Ordering.Topology.{IsTopological}
use dapper_distributed_traci.Ordering.Edges.{ids, parents, parent_pair, clock_pair, graph_edges}
use dapper_distributed_traci.Ordering.Result.{
  span_of, IsOrder, result, order_spans_lem, has-result, result-IsTopological, result-Distinct,
  order_spans_complete,
}

-- `a` stands in the list, and `b` after it.
abbrev pub precedes : String → String → List String → Bool
precedes a b [] = false
precedes a b (x ∷ xs) = if x == a then has b xs else precedes a b xs

-- The relation that the order has to respect: parent and child, or clocks in order.
abbrev pub causes : String → String → List Span → Bool
causes a b spans = parent_pair a b spans || clock_pair a b spans spans

precedes_of_edge :
    (spans : List Span) (a b : String) (l : List String)
    → IsTopological (build_graph spans) l
    → has a l ≡ true
    → has b (neighbours a (build_graph spans)) ≡ true
    → precedes a b l ≡ true
precedes_of_edge spans a b [] t h e = cc
precedes_of_edge spans a b (x ∷ xs) t h e = elim (Bool-cases (x == a)) [
  | inl same ↦ rw same (t.0 b (rw ((eq_iff x a).0 same) e))
  | inr other ↦ rw other (precedes_of_edge spans a b xs t.1 (rw other at h) e)
]

parent_pair-parents :
    (a b : String) (spans : List Span) → parent_pair a b spans ≡ true → has a (parents spans) ≡ true
parent_pair-parents a b [] h = cc
parent_pair-parents a b (s ∷ rest) h = ground (arith, parent_pair-parents a b rest)

clock_pair-ids :
    (a b : String) (spans firsts : List Span)
    → clock_pair a b spans firsts ≡ true
    → has a (ids firsts) ≡ true
clock_pair-ids a b spans [] h = cc
clock_pair-ids a b spans (s ∷ rest) h = ground (arith, clock_pair-ids a b spans rest)

implied : (b c : Bool) → (b ≡ true → c ≡ true) → not b || c ≡ true
implied true c h = h refl
implied false c h = refl

-- For a trace of two or more spans whose causes have no cycle (a rank falls from every cause to
-- its effect), and any order of iteration, `OrderSpans` returns the spans of a list of ids that
-- repeats none and in which every parent stands before its children, and every span before those
-- whose clock is later.
pub order_spans_causal :
    (order : List String) (spans : List Span) (rank : String → ℕ)
    → IsOrder order spans
    → 2 ≤ length spans
    → ((a b : String) → causes a b spans ≡ true → rank b < rank a)
    → (l : List String) × (order_spans order spans ≡ some (map (λ id. span_of id spans) l))
      × Distinct l
      × ((a b : String) → not (causes a b spans) || precedes a b l ≡ true)
order_spans_causal order spans rank full many ranked = (
  result order spans full,
  order_spans_lem order spans full (ground arith),
  result-Distinct order spans full,
  λ a b. implied (causes a b spans) (precedes a b (result order spans full)) λ h.
      precedes_of_edge spans a b (result order spans full)
        (result-IsTopological order spans full rank
          (λ x y e. ranked x y (sym (graph_edges spans x y) ∙ e)))
        (ground (
          arith,
          has-result order spans full a,
          parent_pair-parents a b spans,
          clock_pair-ids a b spans spans,
        ))
        (graph_edges spans a b ∙ h),
)

abbrev pub is_nil {ℓ} : {A : Type ℓ} → Option A → Bool
is_nil none = true
is_nil (some _) = false

-- A span names a parent that no span of the trace has.
abbrev pub misses_parent : List Span → Bool
misses_parent spans = any (λ p. not (has p (ids spans))) (parents spans)

is_nil-span_of :
    (id : String) (spans : List Span) → is_nil (span_of id spans) ≡ not (has id (ids spans))
is_nil-span_of id [] = refl
is_nil-span_of id (s ∷ rest) = ground (arith, is_nil-span_of id rest)

any_of_has :
    (q : String → Bool) (k : String) (l : List String)
    → has k l ≡ true
    → q k ≡ true
    → any q l ≡ true
any_of_has q k [] h e = cc
any_of_has q k (x ∷ xs) h e = ground (arith, eq_iff x k, any_of_has q k xs)

has_of_any :
    (q : String → Bool) (l : List String)
    → any q l ≡ true
    → (k : String) × (has k l ≡ true) × (q k ≡ true)
has_of_any q [] e = cc
has_of_any q (x ∷ xs) e = elim (Bool-cases (q x)) [
  | inl y ↦ (x, ground (arith, eq_iff x x), y)
  | inr n ↦ let (k, h, t) = has_of_any q xs (rw n at e) in (k, ground arith, t)
]

any-is_nil :
    (spans : List Span) (l : List String)
    → any is_nil (map (λ id. span_of id spans) l) ≡ any (λ id. not (has id (ids spans))) l
any-is_nil spans [] = refl
any-is_nil spans (x ∷ xs) = ground (arith, is_nil-span_of x spans, any-is_nil spans xs)

bool_eq : (b c : Bool) → (b ≡ true → c ≡ true) → (c ≡ true → b ≡ true) → b ≡ c
bool_eq b c f g = ground arith

-- For a trace of two or more spans and any order of iteration, the list that `OrderSpans` returns
-- holds a nil pointer exactly when some span names a parent that is no span of the trace.
pub order_spans_nil :
    (order : List String) (spans : List Span) (r : List (Option Span))
    → IsOrder order spans
    → 2 ≤ length spans
    → order_spans order spans ≡ some r
    → any is_nil r ≡ misses_parent spans
order_spans_nil order spans r full many e =
    let (l, at, _, members) = order_spans_complete order spans full many in
    let same : map (λ id. span_of id spans) l ≡ r = cc in
    let q : String → Bool = λ id. not (has id (ids spans)) in
    rw (← same) (
      any-is_nil spans l
      ∙ bool_eq (any q l) (any q (parents spans))
          (λ t.
            let (k, h, n) = has_of_any q l t in
            any_of_has q k (parents spans) (ground (arith, members k)) n)
          (λ t.
            let (k, h, n) = has_of_any q (parents spans) t in
            any_of_has q k l (ground (arith, members k)) n))
