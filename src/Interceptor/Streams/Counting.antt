-- ===== src/Interceptor/Streams/Counting.antt =====
-- How often the wrapper of a client's stream finishes its span.
use mathlib.Core.List.{append_assoc, append-nil}
use dapper_distributed_traci.Prelude.{
  ℕ, suc, ◌≡◌, refl, ap, sym, ◌∙◌, String, none, some, List, [], ◌∷◌, ◌++◌, length, Result, ok,
  arith,
}
use dapper_distributed_traci.Time.{Time}
use dapper_distributed_traci.Wire.{Timestamp}
use dapper_distributed_traci.Span.{Span}
use dapper_distributed_traci.Tracer.{Tracer}
use dapper_distributed_traci.Tracer.Offline.{
  IsKept, IsOffline, ended_at, with_span, ended_at-IsKept,
}
use dapper_distributed_traci.Interceptor.{Ended, record_result}
use dapper_distributed_traci.Interceptor.Finishing.{
  record_result-IsKept, finish_with-IsOffline, with_span-IsOffline,
}
use dapper_distributed_traci.Interceptor.Streams.{
  message, eof, broken, StreamEvent, recv, send, client_stream, client_event, client_recv_msg,
  client_send_msg,
}

-- The events at which `Finish` is called.
abbrev pub finishes : List (Ended × StreamEvent) → ℕ
finishes [] = 0
finishes ((ended, recv message) ∷ rest) = finishes rest
finishes ((ended, recv eof) ∷ rest) = suc (finishes rest)
finishes ((ended, recv (broken e)) ∷ rest) = finishes rest
finishes ((ended, send none) ∷ rest) = finishes rest
finishes ((ended, send (some e)) ∷ rest) = suc (finishes rest)

-- All have the id.
abbrev pub AreCopies : String → List Span → Type 0
AreCopies id [] = Unit
AreCopies id (span ∷ rest) = (span.span_id ≡ id) × AreCopies id rest

-- What a stream comes to: its span stands `n` times more in the buffer.
abbrev pub Gains : ℕ → String → Tracer → Result (Span × Tracer) → Type 0
Gains n id t r =
    (span : Span) × (t' : Tracer) × (added : List Span) × (r ≡ ok (span, t'))
    × (t'.buffer.spans ≡ t.buffer.spans ++ added)
    × (length added ≡ n)
    × AreCopies id added

module _ (nt : Time → Timestamp) where
  client_stream-finished :
      (ended : Ended) (event : StreamEvent) (rest : List (Ended × StreamEvent)) (n : ℕ)
      (id : String) (span : Span) (t : Tracer)
      → let last = ended_at ended.end span in
        span.span_id ≡ id
        → client_event nt ended event span t ≡ ok (last, with_span last t)
        → Gains n id (with_span last t) (client_stream nt rest (last, with_span last t))
        → Gains (suc n) id t (client_stream nt ((ended, event) ∷ rest) (span, t))
  unfolding client_stream
  client_stream-finished ended event rest n id span t same at
        (span', t', added, goes, grown, many, copies) =
      (
        span',
        t',
        ended_at ended.end span ∷ added,
        rw at goes,
        grown ∙ append_assoc t.buffer.spans (ended_at ended.end span ∷ []) added,
        ap suc many,
        (same, copies),
      )

  -- A stream of a client, whatever its calls return, puts its span in the buffer once for each
  -- `io.EOF` that it receives and once for each send that fails, and never when a receive fails,
  -- where the tracer has no client and the buffer room for them all.
  pub client_stream-finishes :
      (events : List (Ended × StreamEvent)) (id : String) (span : Span) (t : Tracer)
      → span.span_id ≡ id
      → IsKept span
      → IsOffline (finishes events) t
      → Gains (finishes events) id t (client_stream nt events (span, t))
  unfolding client_stream client_event client_recv_msg client_send_msg
  client_stream-finishes [] id span t same kept offline =
      (span, t, [], refl, sym (append-nil t.buffer.spans), refl, tt)
  client_stream-finishes ((ended, recv message) ∷ rest) id span t same kept offline =
      client_stream-finishes rest id span t same kept offline
  client_stream-finishes ((ended, recv eof) ∷ rest) id span t same kept (alone, room) =
      let last = ended_at ended.end span in
      client_stream-finished ended (recv eof) rest (finishes rest) id span t same
        (finish_with-IsOffline nt ended span t kept (alone, ground (arith, room)))
        (client_stream-finishes rest id last (with_span last t) same
          (ended_at-IsKept ended.end span kept)
          (with_span-IsOffline (finishes rest) last t (alone, ground (arith, room))))
  client_stream-finishes ((ended, recv (broken e)) ∷ rest) id span t same kept offline =
      client_stream-finishes rest id (record_result (some e) span) t
        ((record_result-IsKept (some e) span kept).1 ∙ same)
        (record_result-IsKept (some e) span kept).0 offline
  client_stream-finishes ((ended, send none) ∷ rest) id span t same kept offline =
      client_stream-finishes rest id span t same kept offline
  client_stream-finishes ((ended, send (some e)) ∷ rest) id span t same kept (alone, room) =
      let failed = record_result (some e) span in
      let failed_kept = (record_result-IsKept (some e) span kept).0 in
      let failed_same = (record_result-IsKept (some e) span kept).1 ∙ same in
      let last = ended_at ended.end failed in
      client_stream-finished ended (recv eof) rest (finishes rest) id failed t failed_same
        (finish_with-IsOffline nt ended failed t failed_kept (alone, ground (arith, room)))
        (client_stream-finishes rest id last (with_span last t) failed_same
          (ended_at-IsKept ended.end failed failed_kept)
          (with_span-IsOffline (finishes rest) last t (alone, ground (arith, room))))
