-- ===== src/Interceptor.antt =====
-- The gRPC interceptors of pkg/interceptor.go. A span is shared with the handler of a call, which
-- may change and finish it: a handler takes the span and the tracer, and returns both. What the
-- invoker, the handler and the streams of gRPC return are arguments, as are the times and new ids.
-- A panic inside `Finish` is the result `panic`, which ends the call here even under `recovery`.
pub mod Streams
pub mod Finishing
pub mod Calls
pub mod Linking
mod Tests
use Prim.Native.String.{String, ◌++◌ as concat}
use dapper_distributed_traci.Prelude.{
  ℕ, Bool, true, false, Option, none, some, List, [], ◌∷◌, Result, ok, err, panic, Error, ◌>>=◌,
}
use dapper_distributed_traci.Table.{Table}
use dapper_distributed_traci.Time.{Time}
use dapper_distributed_traci.Wire.{Timestamp, status_ok, status_error}
use dapper_distributed_traci.Span.{Span, with_parent_span, add_annotation, set_status}
use dapper_distributed_traci.Tracer.{Tracer, start_span, finish}
use dapper_distributed_traci.Metadata.{inject_span_to_metadata, extract_span_from_metadata}

-- What a call of a handler comes to, with the span and the tracer at that time. The text is that
-- of the error, where there is one, or of the value of the panic.
pub data Handled : Type 0 where
  returned : Span → Tracer → Option String → Handled
  panicked : Span → Tracer → String → Handled

-- What `StartSpan` draws and reads.
pub record Started : Type 0 where
  pub span_id : String
  pub trace_id : String
  pub now : Time
  pub start_time : String

-- What `Finish` reads, and the answer of the collector to it.
pub record Ended : Type 0 where
  pub end : Time
  pub now : Time
  pub later : Time
  pub response : Option Error

unfoldable pub record_result : Option String → Span → Span
record_result none span = set_status status_ok span
record_result (some e) span = add_annotation "grpc.error" e (set_status status_error span)

describe_call : String → String → Span → Span
describe_call method start_time span =
    add_annotation "grpc.start_time" start_time (add_annotation "grpc.method" method span)

describe_stream : String → String → Span → Span
describe_stream method start_time span =
    add_annotation "grpc.start_time" start_time
      (add_annotation "grpc.streaming" "true" (add_annotation "grpc.method" method span))

module _ (should_sample : String → String → Bool) where
  -- `SpanFromContext(ctx)`, or a new span.
  current_or_start : Started → String → Option Span → Tracer → Span
  current_or_start new operation_name none t =
      start_span should_sample new.span_id new.trace_id new.now operation_name [] t
  current_or_start new operation_name (some span) t = span

  child_or_root : Started → String → Option Span → Tracer → Span
  child_or_root new operation_name none t =
      start_span should_sample new.span_id new.trace_id new.now operation_name [] t
  child_or_root new operation_name (some parent) t =
      start_span should_sample new.span_id new.trace_id new.now operation_name
        (with_parent_span (some parent) ∷ []) t

  module _ (unmarshal : String → Option (Table ℕ)) where
    -- The span of a call when its handler starts. `md` is the metadata of the incoming context.
    pub server_span : Started → String → Option (Table (List String)) → Tracer → Span
    unfolding child_or_root describe_call
    server_span new method md t = describe_call method new.start_time (
        child_or_root new (concat "grpc.server:" method) (extract_span_from_metadata unmarshal md)
          t)

    server_stream_span : Started → String → Option (Table (List String)) → Tracer → Span
    unfolding child_or_root describe_stream
    server_stream_span new method md t = describe_stream method new.start_time (
        child_or_root new (concat "grpc.server.stream:" method)
          (extract_span_from_metadata unmarshal md) t)

module _ (new_timestamp : Time → Timestamp) where
  unfoldable pub finish_with : Ended → Span → Tracer → Result (Span × Tracer)
  finish_with ended span t =
      finish new_timestamp ended.end ended.now ended.later ended.response span t

  -- What an interceptor does after the call. Nothing runs after a panic.
  pub finish_call : Ended → Handled → Result Handled
  unfolding record_result finish_with
  finish_call ended (returned span t e) =
      finish_with ended (record_result e span) t >>= (λ r. ok (returned (r.0) (r.1) e))
  finish_call ended (panicked span t reason) = ok (panicked span t reason)

  module _ (should_sample : String → String → Bool) where
    pub unary_server :
        (unmarshal : String → Option (Table ℕ))
        → Started
        → Ended
        → (handler : Span → Tracer → Result Handled) → (method : String)
        → Option (Table (List String))
        → Tracer
        → Result Handled
    unfolding server_span finish_call
    unary_server unmarshal new ended handler method md t =
        handler (server_span should_sample unmarshal new method md t) t >>= finish_call ended

    pub stream_server :
        (unmarshal : String → Option (Table ℕ))
        → Started
        → Ended
        → (handler : Span → Tracer → Result Handled) → (method : String)
        → Option (Table (List String))
        → Tracer
        → Result Handled
    unfolding server_stream_span finish_call
    stream_server unmarshal new ended handler method md t =
        handler (server_stream_span should_sample unmarshal new method md t) t >>= finish_call ended

    -- `current` is the span of the context, `md` its outgoing metadata, and `duration` the text of
    -- the milliseconds that the call took.
    pub unary_client :
        (marshal : Table ℕ → Option String)
        → Started
        → Ended
        → (duration : String) → (invoker : Option (Table (List String)) → Option String)
        → (method : String) → (current : Option Span) → (md : Option (Table (List String))) → Tracer
        → Result Handled
    unfolding current_or_start describe_call finish_call
    unary_client marshal new ended duration invoker method current md t =
        let span = current_or_start should_sample new (concat "grpc.client:" method) current t in
        let sent = inject_span_to_metadata marshal (some span) md in
        let after =
          add_annotation "grpc.duration_ms" duration (describe_call method new.start_time span) in
        finish_call ended (returned after t (invoker sent))

    stream_opened : Ended → Span → Tracer → Option String → Result Handled
    unfolding finish_call
    stream_opened ended span t none = ok (returned span t none)
    stream_opened ended span t (some e) = finish_call ended (returned span t (some e))

    -- With no error, the stream that comes back is wrapped with the span.
    pub stream_client :
        (marshal : Table ℕ → Option String)
        → Started
        → Ended
        → (streamer : Option (Table (List String)) → Option String) → (method : String)
        → (current : Option Span) → (md : Option (Table (List String))) → Tracer
        → Result Handled
    unfolding current_or_start describe_stream stream_opened
    stream_client marshal new ended streamer method current md t =
        let span =
          current_or_start should_sample new (concat "grpc.client.stream:" method) current t in
        stream_opened ended (describe_stream method new.start_time span) t
          (streamer (inject_span_to_metadata marshal (some span) md))

  -- The deferred function of `RecoveryInterceptor`; `in_context` is whether the context of the call
  -- holds the span, and `internal_error` the text of the error that `status.Errorf` makes with
  -- `codes.Internal`.
  module _ (internal_error : String → String) where
    recovered : Ended → (in_context : Bool) → Span → Tracer → String → Result Handled
    recovered ended false span t reason =
        ok (returned span t (some (internal_error (concat "panic: " reason))))
    recovered ended true span t reason =
        finish_with ended (add_annotation "panic" reason (set_status status_error span)) t
        >>= (λ r. ok (returned (r.0) (r.1) (some (internal_error (concat "panic: " reason)))))

    recover_from : Ended → Bool → Handled → Result Handled
    unfolding recovered
    recover_from ended in_context (returned span t e) = ok (returned span t e)
    recover_from ended in_context (panicked span t reason) =
        recovered ended in_context span t reason

    -- `RecoveryInterceptor` around a handler.
    pub recovery : Ended → Bool → (Span → Tracer → Result Handled) → Span → Tracer → Result Handled
    unfolding recover_from
    recovery ended in_context handler span t = handler span t >>= recover_from ended in_context
