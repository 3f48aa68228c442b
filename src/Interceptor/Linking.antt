-- ===== src/Interceptor/Linking.antt =====
-- A call from one process to another: the span that the server's interceptor starts, next to the
-- span that the client's interceptor put in the metadata.
use dapper_distributed_traci.Prelude.{
  ℕ, ◌+◌, ◌<◌, String, ◌≡◌, refl, ap, ◌∙◌, Bool, false, Option, some, List, [], ◌∷◌, ◌==◌, arith,
}
use Prim.Native.String.{◌++◌ as concat}
use dapper_distributed_traci.Prelude.Int.{u64_mod}
use dapper_distributed_traci.Table.{Table, lookup}
use dapper_distributed_traci.Clock.{VectorClock, count_of, compare, before}
use dapper_distributed_traci.Clock.Entries.{rank}
use dapper_distributed_traci.Clock.Order.{IsClock, compare-before_iff}
use dapper_distributed_traci.Span.{Span, with_parent_span, add_annotation}
use dapper_distributed_traci.Tracer.{Tracer, start_span}
use dapper_distributed_traci.Tracer.Starting.{
  start_span_as_child, child_clock, child_clock-IsClock, twice_later,
}
use dapper_distributed_traci.Metadata.{inject_span_to_metadata, extract_span_from_metadata}
use dapper_distributed_traci.Metadata.RoundTrip.{
  received, extract_span_from_metadata-inject_span_to_metadata,
}
use dapper_distributed_traci.Interceptor.{Started, server_span, child_or_root, describe_call}

-- The server's span for a parent, up to its annotations.
server_span-child :
    (should_sample : String → String → Bool) (unmarshal : String → Option (Table ℕ)) (new : Started)
    (method : String) (md : Option (Table (List String))) (t : Tracer) (parent : Span)
    → extract_span_from_metadata unmarshal md ≡ some parent
    → let span = server_span should_sample unmarshal new method md t in
      let child =
        start_span should_sample new.span_id new.trace_id new.now
          (concat "grpc.server:" method)
          (with_parent_span (some parent) ∷ [])
          t in
      (span.vector_clock ≡ child.vector_clock)
      × (span.trace_id ≡ child.trace_id)
      × (span.parent_span_id ≡ child.parent_span_id)
unfolding server_span child_or_root describe_call add_annotation
server_span-child should_sample unmarshal new method md t parent found = rw found (refl, refl, refl)

-- Clocks that agree at each node are before the same clocks.
before-agree :
    (a b c : VectorClock)
    → IsClock a
    → IsClock b
    → IsClock c
    → ((n : String) → lookup n a.timestamps ≡ lookup n b.timestamps)
    → compare a (some c) ≡ before
    → compare b (some c) ≡ before
before-agree a b c ma mb mc same h =
    let (up, not_down) = (compare-before_iff a c ma mc).0 h in
    (compare-before_iff b c mb mc).1 (
      λ n. omega (arith, up n, ap (λ o. rank o) (same n)),
      λ down. not_down (λ n. omega (arith, down n, ap (λ o. rank o) (same n))),
    )

-- A span that a client puts in the metadata of a call, and whose clock comes through encoding/json
-- with the same counters, is the parent of the span that the server starts: the server's span has
-- its trace id and names it as the parent, and the client's clock is before the server's (`Compare`
-- gives -1). The ids are not empty, the clocks have distinct keys, and the client's counter for the
-- server's node is 2 or more below the largest `uint64`.
pub server_span-inject_span_to_metadata :
    (marshal : Table ℕ → Option String) (unmarshal : String → Option (Table ℕ))
    (should_sample : String → String → Bool) (new : Started) (method : String) (t : Tracer)
    (span : Span) (md : Option (Table (List String))) (vc vc' : VectorClock) (text : String)
    → span.vector_clock ≡ some vc
    → (span.span_id == "") ≡ false
    → (span.trace_id == "") ≡ false
    → marshal vc.timestamps ≡ some text
    → (text == "") ≡ false
    → unmarshal text ≡ some vc'.timestamps
    → ((node : String) → lookup node vc'.timestamps ≡ lookup node vc.timestamps)
    → IsClock vc
    → IsClock vc'
    → count_of (lookup t.node_id vc.timestamps) + 2 < u64_mod
    → (later : VectorClock) × (let served =
          server_span should_sample unmarshal new method
            (inject_span_to_metadata marshal (some span) md)
            t in
        (served.vector_clock ≡ some later)
        × (served.trace_id ≡ span.trace_id)
        × (served.parent_span_id ≡ span.span_id))
      × (compare vc (some later) ≡ before)
server_span-inject_span_to_metadata marshal unmarshal should_sample new method t span md vc vc' text
      clock s i made nonempty read same m m' small =
    let parent = received span md vc'.timestamps in
    let found =
      extract_span_from_metadata-inject_span_to_metadata marshal unmarshal span md vc text
        vc'.timestamps clock s i made nonempty read in
    let (c, tr, p) =
      server_span-child should_sample unmarshal new method
        (inject_span_to_metadata marshal (some span) md) t parent found in
    let (c1, tr1, p1, _) =
      start_span_as_child should_sample new.span_id new.trace_id new.now
        (concat "grpc.server:" method) t parent vc' refl in
    let later = child_clock t.node_id vc' in
    (
      later,
      (c ∙ c1, tr ∙ tr1, p ∙ p1),
      before-agree vc' vc later m' m (child_clock-IsClock t.node_id vc') same (
          twice_later t.node_id vc' m'
            (omega (arith, small, ap (λ o. count_of o) (same t.node_id)))),
    )
