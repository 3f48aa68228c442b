-- ===== src/Interceptor/Streams.antt =====
-- The streams that the interceptors wrap: `RecvMsg` and `SendMsg` of both wrappers in
-- pkg/interceptor.go, and a stream's life as the sequence of what these return.
pub mod Counting
use dapper_distributed_traci.Prelude.{
  ℕ, suc, String, Option, none, some, List, [], ◌∷◌, Result, ok, err, panic, ◌>>=◌,
}
use dapper_distributed_traci.Time.{Time}
use dapper_distributed_traci.Wire.{Timestamp}
use dapper_distributed_traci.Span.{Span}
use dapper_distributed_traci.Tracer.{Tracer}
use dapper_distributed_traci.Interceptor.{Ended, record_result, finish_with}

-- What `RecvMsg` of the stream returns: no error, `io.EOF`, or another error with its text.
pub data Received : Type 0 where
  message eof : Received
  broken : String → Received

module _ (new_timestamp : Time → Timestamp) where
  client_recv_msg : Ended → Received → Span → Tracer → Result (Span × Tracer)
  client_recv_msg ended message span t = ok (span, t)
  client_recv_msg ended eof span t = finish_with new_timestamp ended span t
  client_recv_msg ended (broken e) span t = ok (record_result (some e) span, t)

  client_send_msg : Ended → Option String → Span → Tracer → Result (Span × Tracer)
  client_send_msg ended none span t = ok (span, t)
  client_send_msg ended (some e) span t =
      finish_with new_timestamp ended (record_result (some e) span) t

server_recv_msg : Received → Span → Span
server_recv_msg message span = span
server_recv_msg eof span = span
server_recv_msg (broken e) span = record_result (some e) span

server_send_msg : Option String → Span → Span
server_send_msg none span = span
server_send_msg (some e) span = record_result (some e) span

-- One call on a wrapped stream, by what the stream below returned.
pub data StreamEvent : Type 0 where
  recv : Received → StreamEvent
  send : Option String → StreamEvent

module _ (new_timestamp : Time → Timestamp) where
  client_event : Ended → StreamEvent → Span → Tracer → Result (Span × Tracer)
  unfolding client_recv_msg client_send_msg
  client_event ended (recv r) span t = client_recv_msg new_timestamp ended r span t
  client_event ended (send e) span t = client_send_msg new_timestamp ended e span t

  -- Each event comes with what `Finish` would read then.
  pub client_stream : List (Ended × StreamEvent) → Span × Tracer → Result (Span × Tracer)
  unfolding client_event
  client_stream [] s = ok s
  client_stream ((ended, event) ∷ rest) s =
      client_event ended event (s.0) (s.1) >>= client_stream rest

server_event : StreamEvent → Span → Span
unfolding server_recv_msg server_send_msg
server_event (recv r) span = server_recv_msg r span
server_event (send e) span = server_send_msg e span

pub server_stream : List StreamEvent → Span → Span
unfolding server_event
server_stream [] span = span
server_stream (event ∷ rest) span = server_stream rest (server_event event span)
