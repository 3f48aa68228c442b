-- ===== src/Collector/Races.antt =====
-- How the order in which spans reach the collector, and two calls of `StoreSpan` at a time, show in
-- what is stored.
use dapper_distributed_traci.Prelude.{
  String, ◌≡◌, refl, ap, sym, ◌∙◌, true, false, Option, some, List, [], ◌∷◌, ◌++◌, ◌==◌, eq_iff,
  if◌then◌else◌, ok, err, Error, Bool-cases, inl, inr,
}
use dapper_distributed_traci.Time.{Time}
use dapper_distributed_traci.Wire.{Timestamp, Span, Trace}
use dapper_distributed_traci.Storage.{StorageInterface}
use dapper_distributed_traci.Storage.Laws.{IsStorage, IsKeyed}
use dapper_distributed_traci.Collector.{
  Collector, new_trace, opened, with_span, store_all, note_failure, replicate_spans, answer,
}
use dapper_distributed_traci.Collector.Storing.{
  spans_at, spans_in, opened_lem, store_span_lem, step-IsKeyed, with_span-trace_id,
}

-- The root that a trace shows.
abbrev pub SameRoot : Trace Span → Trace Span → Type 0
SameRoot a b =
    (a.root_service ≡ b.root_service)
    × (a.root_operation ≡ b.root_operation)
    × (a.start_time ≡ b.start_time)

with_span-SameRoot :
    (as_time : Option Timestamp → Time) (span : Span) (trace : Trace Span)
    → SameRoot (with_span as_time span trace) trace
unfolding with_span
with_span-SameRoot as_time span trace = (refl, refl, refl)

SameRoot-trans : (a b c : Trace Span) → SameRoot a b → SameRoot b c → SameRoot a c
SameRoot-trans a b c p q = (p.0 ∙ q.0, p.1 ∙ q.1, p.2 ∙ q.2)

module _ {S : Type 0} (store : StorageInterface S) (as_time : Option Timestamp → Time)
    (laws : IsStorage store) where
  -- A trace that is there keeps its root, whatever spans come.
  keeps_root :
      (spans : List Span) (failed : List String) (id : String) (trace : Trace Span)
      (c : Collector S)
      → IsKeyed store c.storage
      → store.get_trace id c.storage ≡ ok trace
      → (c' : Collector S) × (trace' : Trace Span) × (store_all store as_time spans failed c
          ≡ ok (c', failed))
        × (store.get_trace id c'.storage ≡ ok trace')
        × SameRoot trace' trace
  unfolding store_all note_failure opened
  keeps_root [] failed id trace c keyed e = (c, trace, refl, e, (refl, refl, refl))
  keeps_root (span ∷ rest) failed id trace c keyed e =
      let (t, c1, opens, own, grown, at, here, _) =
        store_span_lem store as_time laws span c keyed in
      let next = with_span as_time span t in
      let keyed1 =
        step-IsKeyed store as_time laws span next c.storage c1.storage keyed
          (with_span-trace_id store as_time laws span t ∙ own) here in
      elim (Bool-cases (span.trace_id == id)) [
        | inl same ↦
            let this : span.trace_id ≡ id = (eq_iff span.trace_id id).0 same in
            let found : store.get_trace span.trace_id c.storage ≡ ok trace =
              ap (λ k. store.get_trace k c.storage) this ∙ e in
            let as_read : ok trace ≡ ok t = rw found at opens in
            let t_is : t ≡ trace = cc in
            let (c2, t2, at2, e2, root) =
              keeps_root rest failed id next c1 keyed1 (here id ∙ rw same refl) in
            (
              c2,
              t2,
              rw at at2,
              e2,
              SameRoot-trans t2 next trace root (
                  SameRoot-trans next t trace (with_span-SameRoot as_time span t)
                    (rw t_is (refl, refl, refl))),
            )
        | inr other ↦
            let (c2, t2, at2, e2, root) =
              keeps_root rest failed id trace c1 keyed1 (here id ∙ rw other e) in
            (c2, t2, rw at at2, e2, root)
      ]

root_of_new :
    (span : Span)
    → ((new_trace span).root_service
        ≡ (if span.parent_span_id == "" then span.service_name else ""))
      × ((new_trace span).root_operation
          ≡ (if span.parent_span_id == "" then span.operation_name else ""))
unfolding new_trace
root_of_new span = elim (Bool-cases (span.parent_span_id == "")) [
  | inl root ↦ (rw root refl, rw root refl)
  | inr child ↦ (rw child refl, rw child refl)
]

-- Where spans of a trace that is not stored come in one `ReplicateSpans` of another collector, the
-- first of them being of that trace, the trace gets the service and the operation of the first
-- span as its root if that is a root span, and else none, whatever spans follow.
pub first_span_sets_root :
    {S : Type 0} (store : StorageInterface S) (as_time : Option Timestamp → Time)
    (collector_id : String) (first : Span) (rest : List Span) (c : Collector S) (e : Error)
    → IsStorage store
    → IsKeyed store c.storage
    → (collector_id == c.id) ≡ false
    → store.get_trace first.trace_id c.storage ≡ err e
    → (c' : Collector S) × (trace : Trace Span) × (replicate_spans store as_time collector_id
          (first ∷ rest)
          c
        ≡ ok (c', record { success = true; failed_span_ids = [] }))
      × (store.get_trace first.trace_id c'.storage ≡ ok trace)
      × (trace.root_service ≡ (if first.parent_span_id == "" then first.service_name else ""))
      × (trace.root_operation ≡ (if first.parent_span_id == "" then first.operation_name else ""))
unfolding replicate_spans answer store_all note_failure opened
first_span_sets_root store as_time collector_id first rest c e laws keyed other absent =
    let (t, c1, opens, own, grown, at, here, _) = store_span_lem store as_time laws first c keyed in
    let next = with_span as_time first t in
    let keyed1 =
      step-IsKeyed store as_time laws first next c.storage c1.storage keyed
        (with_span-trace_id store as_time laws first t ∙ own) here in
    let same : first.trace_id == first.trace_id ≡ true =
      (eq_iff first.trace_id first.trace_id).1 refl in
    let (c2, t2, at2, e2, root) =
      keeps_root store as_time laws rest [] first.trace_id next c1 keyed1
        (here first.trace_id ∙ rw same refl) in
    let as_new : ok (new_trace first) ≡ ok t = rw absent at opens in
    let t_is : t ≡ new_trace first = cc in
    let whole = SameRoot-trans t2 next t root (with_span-SameRoot as_time first t) in
    (
      c2,
      t2,
      rw (other, at, at2) refl,
      e2,
      whole.0 ∙ ap (λ x. x.root_service) t_is ∙ (root_of_new first).0,
      whole.1 ∙ ap (λ x. x.root_operation) t_is ∙ (root_of_new first).1,
    )

-- Two calls of `StoreSpan` for one trace that both read it before either stores it leave the spans
-- that were there and the span that is stored last: the other span is lost.
pub lost_span :
    {S : Type 0} (store : StorageInterface S) (as_time : Option Timestamp → Time) (a b : Span)
    (s : S) (ta tb : Trace Span)
    → IsStorage store
    → IsKeyed store s
    → a.trace_id ≡ b.trace_id
    → opened a (store.get_trace a.trace_id s) ≡ ok ta
    → opened b (store.get_trace b.trace_id s) ≡ ok tb
    → let s1 = (store.store_trace (some (with_span as_time a ta)) s).0 in
      let s2 = (store.store_trace (some (with_span as_time b tb)) s1).0 in
      spans_at store b.trace_id s2 ≡ spans_at store b.trace_id s ++ b ∷ []
unfolding with_span
lost_span store as_time a b s ta tb laws keyed same reads_a reads_b =
    let (t, opens, own, grown) = opened_lem store as_time laws b s keyed in
    let both : ok t ≡ ok tb = sym opens ∙ reads_b in
    let t_is : t ≡ tb = cc in
    let s1 = (store.store_trace (some (with_span as_time a ta)) s).0 in
    let this : (with_span as_time b tb).trace_id == b.trace_id ≡ true =
      (eq_iff tb.trace_id b.trace_id).1 (ap (λ x. x.trace_id) (sym t_is) ∙ own) in
    let s2 = (store.store_trace (some (with_span as_time b tb)) s1).0 in
    let now : store.get_trace b.trace_id s2 ≡ ok (with_span as_time b tb) =
      laws.returns (with_span as_time b tb) b.trace_id s1 ∙ rw this refl in
    ap (λ r. spans_in r) now ∙ ap (λ l. l ++ b ∷ []) (ap (λ x. x.spans) (sym t_is) ∙ grown)
