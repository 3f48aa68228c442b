-- ===== src/Interceptor/Tests.antt =====
-- The theorems on the interceptors at a service that has lost its collector.
use Prim.Native.String.{◌++◌ as concat}
use dapper_distributed_traci.Prelude.{
  ℕ, ◌/◌, ◌%◌, String, ◌≡◌, refl, Bool, true, false, Option, none, some, [], ◌∷◌, arith, ◌==◌,
  if◌then◌else◌, ok,
}
use dapper_distributed_traci.Prelude.Int.{pos}
use dapper_distributed_traci.Table.{Table, lookup}
use dapper_distributed_traci.Time.{Time, second}
use dapper_distributed_traci.Wire.{Timestamp, status_ok, status_error}
use dapper_distributed_traci.Clock.{VectorClock, compare, before}
use dapper_distributed_traci.Breaker.{circuit_closed}
use dapper_distributed_traci.Span.{Span}
use dapper_distributed_traci.Tracer.{Tracer, is_dropped}
use dapper_distributed_traci.Tracer.Offline.{with_span}
use dapper_distributed_traci.Metadata.{inject_span_to_metadata}
use dapper_distributed_traci.Interceptor.{
  returned, panicked, Started, Ended, unary_server, unary_client, server_span, recovery,
}
use dapper_distributed_traci.Interceptor.Calls.{
  unary_server_lem, unary_server-unary_client, unary_server-recovery,
}
use dapper_distributed_traci.Interceptor.Linking.{server_span-inject_span_to_metadata}
use dapper_distributed_traci.Interceptor.Streams.{message, eof, broken, recv, send, client_stream}
use dapper_distributed_traci.Interceptor.Streams.Counting.{Gains, client_stream-finishes}

abbrev timestamp : Time → Timestamp
timestamp t = record { seconds = pos (t / second); nanos = pos (t % second) }

abbrev clock : VectorClock
clock = record { timestamps = ("n", 4) ∷ [] }

abbrev marshal : Table ℕ → Option String
marshal [] = some "{}"
marshal (entry ∷ rest) = some "{n:4}"

abbrev unmarshal : String → Option (Table ℕ)
unmarshal text = if text == "{n:4}" then some (("n", 4) ∷ []) else none

abbrev span : Span
span = record {
  span_id = "s";
  trace_id = "t";
  parent_span_id = "";
  service_name = "web";
  operation_name = "o";
  start_time = 0;
  end_time = 0;
  annotations = [];
  status = status_ok;
  vector_clock = some clock;
  node_id = "n";
  has_tracer = true;
}

abbrev tracer : Tracer
tracer = record {
  service_name = "web";
  node_id = "n";
  max_batch_size = pos 100;
  buffer = record { spans = []; config = record { size = pos 9 }; dirty = false };
  has_client = false;
  cb = record {
    state = circuit_closed;
    failure_count = pos 0;
    last_failure_time = 0;
    failure_threshold = pos 3;
    reset_timeout = pos 10_000_000_000;
    half_open_max_calls = pos 1;
    half_open_success_count = pos 0;
    half_open_call_count = pos 0;
  };
}

abbrev new : Started
new = record { span_id = "a"; trace_id = "b"; now = 7; start_time = "7" }

abbrev ended : Ended
ended = record { end = 9; now = 9; later = 9; response = none }

abbrev all : String → String → Bool
all operation_name trace_id = true

server_span-inject_span_to_metadata_example :
    (later : VectorClock) × (let served =
        server_span all unmarshal new "/Get"
          (inject_span_to_metadata marshal (some span) none)
          tracer in
      (served.vector_clock ≡ some later) × (served.trace_id ≡ "t") × (served.parent_span_id ≡ "s"))
    × (compare clock (some later) ≡ before)
unfolding lookup
server_span-inject_span_to_metadata_example =
    server_span-inject_span_to_metadata marshal unmarshal all new "/Get" tracer span none clock
      clock "{n:4}" refl refl refl refl refl refl (λ node. refl) (refl, tt) (refl, tt)
      (ground arith)

one_finish :
    ((last : Span) × (unary_server timestamp all unmarshal new ended
          (λ s u. ok (returned s u (some "no")))
          "/Get"
          none
          tracer
        ≡ ok (returned last (with_span last tracer) (some "no")))
      × (last.span_id ≡ "a")
      × (last.status ≡ status_error))
    × (unary_server timestamp all unmarshal new ended
          (λ s u. ok (panicked s u "nil"))
          "/Get"
          none
          tracer
        ≡ ok (panicked (server_span all unmarshal new "/Get" none tracer) tracer "nil"))
one_finish =
    unary_server_lem timestamp all unmarshal new ended "/Get" none tracer
      (λ operation_name trace_id. refl) (refl, refl) (some "no") "nil"

unary_server-unary_client_example :
    (first last : Span) × (e : Option String) × (unary_server timestamp all unmarshal new ended
        (λ s u.
          unary_client timestamp all marshal new ended "2" (λ md. none) "/Put" (some s) none u)
        "/Get"
        none
        tracer
      ≡ ok (returned last (with_span last (with_span first tracer)) e))
    × (first.span_id ≡ "a")
    × (last.span_id ≡ "a")
unary_server-unary_client_example =
    unary_server-unary_client timestamp all unmarshal new ended "/Get" none tracer
      (λ operation_name trace_id. refl) marshal new ended "2" (λ md. none) "/Put" (refl, refl)

-- A send that fails, and then the end of the stream: two.
client_stream-finishes_example : Gains 2 "s" tracer (
    client_stream timestamp
      ((ended, recv (broken "lost"))
        ∷ (ended, send (some "closed"))
        ∷ (ended, recv message)
        ∷ (ended, recv eof)
        ∷ [])
      (span, tracer))
unfolding is_dropped lookup
client_stream-finishes_example =
    client_stream-finishes timestamp
      ((ended, recv (broken "lost"))
        ∷ (ended, send (some "closed"))
        ∷ (ended, recv message)
        ∷ (ended, recv eof)
        ∷ [])
      "s" span tracer refl (refl, refl) (refl, refl)

-- The text of an error with the code `Internal`.
abbrev internal : String → String
internal text = concat "rpc error: code = Internal desc = " text

unary_server-recovery_example :
    ((first last : Span) × (unary_server timestamp all unmarshal new ended
          (recovery timestamp internal ended true (λ s u. ok (panicked s u "nil")))
          "/Get"
          none
          tracer
        ≡ ok (
            returned last
              (with_span last (with_span first tracer))
              (some "rpc error: code = Internal desc = panic: nil")))
      × (first.span_id ≡ "a")
      × (last.span_id ≡ "a"))
    × ((served : Span) × (recovery timestamp internal ended false
            (λ s u.
              unary_server timestamp all unmarshal new ended
                (λ r v. ok (panicked r v "nil"))
                "/Get"
                none
                u)
            span
            tracer
          ≡ ok (returned served tracer (some "rpc error: code = Internal desc = panic: nil"))))
unary_server-recovery_example =
    unary_server-recovery timestamp all unmarshal new ended "/Get" none tracer
      (λ operation_name trace_id. refl) (refl, refl) internal ended "nil" span
