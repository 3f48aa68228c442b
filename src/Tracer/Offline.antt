-- ===== src/Tracer/Offline.antt =====
-- `Finish` when the tracer has no client: the span goes to the buffer.
use dapper_distributed_traci.Prelude.{
  ℕ, ◌+◌, String, ◌≡◌, refl, ap, ◌∙◌, Bool, true, false, Option, some, [], ◌∷◌, ◌++◌, length, arith,
  ◌==◌, ok, Error,
}
use dapper_distributed_traci.Prelude.Int.{pos, leb_ℤ}
use dapper_distributed_traci.Table.{lookup, insert}
use dapper_distributed_traci.Table.Laws.{lookup-insert}
use dapper_distributed_traci.Time.{Time}
use dapper_distributed_traci.Wire.{Timestamp, Status}
use dapper_distributed_traci.Span.{Span, with_parent_span, add_annotation, set_status}
use dapper_distributed_traci.Buffer.{add}
use dapper_distributed_traci.Tracer.{
  Tracer, start_span, finish, is_dropped, is_false, try_submit_span, buffered, finish_span,
}

-- A span that `Finish` sends or buffers.
abbrev pub IsKept : Span → Type 0
IsKept span = (is_dropped span ≡ false) × (span.has_tracer ≡ true)

-- The tracer has no client, and its buffer has room for `n` spans and one more.
abbrev pub IsOffline : ℕ → Tracer → Type 0
IsOffline n t =
    (t.has_client ≡ false) × (leb_ℤ t.buffer.config.size (pos (length t.buffer.spans + n)) ≡ false)

abbrev pub ended_at : Time → Span → Span
ended_at end span = record span { end_time = end }

abbrev pub with_span : Span → Tracer → Tracer
with_span span t = record t {
  buffer = record (t.buffer) { spans = t.buffer.spans ++ span ∷ []; dirty = true };
}

pub annotated-IsKept :
    (key value : String) (span : Span)
    → (key == "sampled") ≡ false
    → IsKept span
    → IsKept (add_annotation key value span)
unfolding is_dropped add_annotation
annotated-IsKept key value span other (kept, traced) =
    let same : lookup "sampled" (insert key value span.annotations)
        ≡ lookup "sampled" span.annotations =
      ground (arith, lookup-insert key "sampled" value span.annotations) in
    (ap (λ o. is_false o) same ∙ kept, traced)

pub status-IsKept : (status : Status) (span : Span) → IsKept span → IsKept (set_status status span)
unfolding is_dropped set_status
status-IsKept status span kept = kept

pub ended_at-IsKept : (end : Time) (span : Span) → IsKept span → IsKept (ended_at end span)
unfolding is_dropped
ended_at-IsKept end span kept = kept

-- Neither changes the id.
pub annotated-span_id :
    (key value : String) (span : Span) → (add_annotation key value span).span_id ≡ span.span_id
unfolding add_annotation
annotated-span_id key value span = refl

pub finish-IsOffline :
    (nt : Time → Timestamp) (end now later : Time) (response : Option Error) (span : Span)
    (t : Tracer)
    → IsKept span
    → IsOffline 0 t
    → finish nt end now later response span t
      ≡ ok (ended_at end span, with_span (ended_at end span) t)
unfolding finish finish_span try_submit_span buffered add is_dropped
finish-IsOffline nt end now later response span t (kept, traced) (alone, room) =
    let here : leb_ℤ t.buffer.config.size (pos (length t.buffer.spans)) ≡ false =
      ground (arith, room) in
    rw (traced, kept, alone, here) refl

-- A span that the sampler takes.
pub start_span-IsKept :
    (should_sample : String → String → Bool) (span_id trace_id : String) (now : Time)
    (operation_name : String) (t : Tracer)
    → should_sample operation_name trace_id ≡ true
    → IsKept (start_span should_sample span_id trace_id now operation_name [] t)
      × ((start_span should_sample span_id trace_id now operation_name [] t).span_id ≡ span_id)
unfolding start_span is_dropped lookup
start_span-IsKept should_sample span_id trace_id now operation_name t sampled =
    rw sampled ((refl, refl), refl)

pub child-IsKept :
    (should_sample : String → String → Bool) (span_id trace_id : String) (now : Time)
    (operation_name : String) (parent : Span) (t : Tracer)
    → should_sample operation_name parent.trace_id ≡ true
    → let child =
        start_span should_sample span_id trace_id now operation_name
          (with_parent_span (some parent) ∷ [])
          t in
      IsKept child × (child.span_id ≡ span_id)
unfolding start_span is_dropped with_parent_span lookup
child-IsKept should_sample span_id trace_id now operation_name parent t sampled =
    rw sampled ((refl, refl), refl)
