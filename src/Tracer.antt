-- ===== src/Tracer.antt =====
-- The tracer of pkg/tracer.go: how spans are started and finished, the flush worker and `Close`.
-- The fields of its configuration that are read here stand in the record. The answers of the
-- collector, the times, the new ids and the sampler are arguments.
pub mod Starting
pub mod Outage
pub mod Offline
mod Tests
use dapper_distributed_traci.Prelude.{
  ℕ, String, Bool, true, false, Option, none, some, List, [], ◌∷◌, ◌++◌, ◌==◌, ◌||◌, ◌&&◌, not,
  if◌then◌else◌, Result, ok, err, panic, Error, no_collector, ◌>>=◌,
}
use dapper_distributed_traci.Prelude.Int.{ℤ, pos}
use dapper_distributed_traci.Table.{Table, lookup}
use dapper_distributed_traci.Time.{Time}
use dapper_distributed_traci.Wire.{Timestamp, status_ok}
use dapper_distributed_traci.Clock
use dapper_distributed_traci.Clock.{VectorClock, new_vector_clock}
use dapper_distributed_traci.Breaker.{CircuitBreaker, execute, is_open}
use dapper_distributed_traci.Span.{Span, SpanOption, add_annotation, to_proto}
use dapper_distributed_traci.Buffer.{SpanBuffer, Flushed, add, flush, size}

-- `has_client` is whether the client is not nil.
pub record Tracer : Type 0 where
  pub service_name : String
  pub node_id : String
  pub max_batch_size : ℤ
  pub buffer : SpanBuffer
  pub has_client : Bool
  pub cb : CircuitBreaker

pub apply_options : List SpanOption → Span → Span
apply_options [] span = span
apply_options (option ∷ rest) span = apply_options rest (option span)

-- `if span.VectorClock == nil`
clock_or_new : String → Option VectorClock → VectorClock
clock_or_new node_id none = new_vector_clock node_id
clock_or_new node_id (some vc) = vc

tick_clock : String → Span → Span
unfolding clock_or_new
tick_clock node_id span = record span {
  vector_clock = some (Clock.increment node_id (clock_or_new node_id span.vector_clock));
}

unfoldable pub start_span :
    (should_sample : String → String → Bool)
    → (span_id trace_id : String) → (now : Time) → (operation_name : String) → List SpanOption
    → Tracer
    → Span
unfolding apply_options tick_clock add_annotation
start_span should_sample span_id trace_id now operation_name options t =
    let blank : Span = record {
      span_id = span_id;
      trace_id = trace_id;
      parent_span_id = "";
      service_name = t.service_name;
      operation_name = operation_name;
      start_time = now;
      end_time = 0;
      annotations = [];
      status = status_ok;
      vector_clock = some (new_vector_clock t.node_id);
      node_id = t.node_id;
      has_tracer = true;
    } in
    let span = tick_clock t.node_id (apply_options options blank) in
    if should_sample operation_name span.trace_id
    then span
    else add_annotation "sampled" "false" span

-- `val, exists := span.Annotations["sampled"]; exists && val == "false"`
abbrev pub is_false : Option String → Bool
is_false none = false
is_false (some value) = value == "false"

unfoldable pub is_dropped : Span → Bool
is_dropped span = is_false (lookup "sampled" span.annotations)

module _ (new_timestamp : Time → Timestamp) where
  -- What `Execute` returned. The function it is given turns the span to a message first.
  submitted : Span → Tracer → CircuitBreaker × Option Error × Bool → Result (Tracer × Option Error)
  submitted span t (cb, e, true) = do
    message ← to_proto new_timestamp span
    ok (record t { cb = cb }, e)
  submitted span t (cb, e, false) = ok (record t { cb = cb }, e)

  -- `response` is the error of `CollectSpan`, `now` and `later` the times that the breaker reads.
  pub try_submit_span : Time → Time → Option Error → Span → Tracer → Result (Tracer × Option Error)
  unfolding submitted
  try_submit_span now later response span t =
      if not t.has_client || is_open t.cb
      then ok (t, some no_collector)
      else submitted span t (execute now later response t.cb)

  buffered : Span → Tracer × Option Error → Result Tracer
  buffered span (t, none) = ok t
  buffered span (t, some e) = do buffer ← add span t.buffer; ok (record t { buffer = buffer })

  pub finish_span : Time → Time → Option Error → Span → Tracer → Result Tracer
  unfolding try_submit_span buffered
  finish_span now later response span t =
      if is_dropped span then ok t else try_submit_span now later response span t >>= buffered span

  -- `Finish` of a span whose tracer, if it has one, is `t`.
  pub finish : Time → Time → Time → Option Error → Span → Tracer → Result (Span × Tracer)
  unfolding finish_span
  finish end now later response span t =
      let ended = record span { end_time = end } in
      if span.has_tracer
      then finish_span now later response ended t >>= (λ t'. ok (ended, t'))
      else ok (ended, t)

  keep_buffer : Tracer → Flushed → Tracer
  keep_buffer t r = record t { buffer = r.buffer }

  -- The second half of one turn of the flush worker.
  flush_turn : List Span → Option Error → Tracer → Result Tracer
  unfolding keep_buffer
  flush_turn meanwhile response t =
      if t.has_client && not (is_open t.cb)
      then flush new_timestamp true t.max_batch_size meanwhile response t.buffer
        >>= (λ r. ok (keep_buffer t r))
      else ok t

  -- One turn. `connects` is whether `connectToCollector` succeeds, `meanwhile` what is added while
  -- a batch is sent, and `response` the error of the send.
  pub worker_turn : Bool → List Span → Option Error → Tracer → Result Tracer
  unfolding flush_turn
  worker_turn connects meanwhile response t =
      if t.has_client
      then flush_turn meanwhile response t
      else if connects
      then flush_turn meanwhile response (record t { has_client = true })
      else ok t

  closed : Tracer → Flushed → Tracer × List Span
  closed t r = elim (r.error) [
    | none ↦ (record t { buffer = r.buffer }, [])
    | some e ↦ (record t { buffer = r.buffer }, r.buffer.spans)
  ]

  -- `Close`: the tracer, and the spans that are written to the log.
  pub close : List Span → Option Error → Tracer → Result (Tracer × List Span)
  unfolding closed size
  close meanwhile response t =
      if t.has_client
      then flush new_timestamp true (pos (size t.buffer)) meanwhile response t.buffer
        >>= (λ r. ok (closed t r))
      else ok (t, t.buffer.spans)
