-- ===== src/Interceptor/Finishing.antt =====
-- Where the spans of the interceptors end up when the tracer cannot reach the collector: in its
-- buffer, once for each `Finish`.
use Prim.Native.String.{String, ◌++◌ as concat}
use dapper_distributed_traci.Prelude.{
  ℕ, ◌+◌, ◌≡◌, refl, ◌∙◌, Bool, true, Option, none, some, List, [], ◌∷◌, length-append, arith, ok,
}
use dapper_distributed_traci.Table.{Table}
use dapper_distributed_traci.Time.{Time}
use dapper_distributed_traci.Wire.{Timestamp}
use dapper_distributed_traci.Span.{Span, add_annotation, set_status}
use dapper_distributed_traci.Tracer.{Tracer}
use dapper_distributed_traci.Tracer.Offline.{
  IsKept, IsOffline, ended_at, with_span, annotated-IsKept, annotated-span_id, status-IsKept,
  ended_at-IsKept, finish-IsOffline, start_span-IsKept, child-IsKept,
}
use dapper_distributed_traci.Metadata.{extract_span_from_metadata, inject_span_to_metadata}
use dapper_distributed_traci.Interceptor.{
  returned, Started, Ended, record_result, finish_with, finish_call, unary_client, server_span,
  child_or_root, describe_call, current_or_start,
}

pub record_result-IsKept :
    (e : Option String) (span : Span)
    → IsKept span
    → IsKept (record_result e span) × ((record_result e span).span_id ≡ span.span_id)
unfolding record_result set_status add_annotation
record_result-IsKept none span kept = (status-IsKept _ span kept, refl)
record_result-IsKept (some e) span kept =
    (annotated-IsKept "grpc.error" e (set_status _ span) refl (status-IsKept _ span kept), refl)

describe_call-IsKept :
    (method start_time : String) (span : Span)
    → IsKept span
    → IsKept (describe_call method start_time span)
      × ((describe_call method start_time span).span_id ≡ span.span_id)
unfolding describe_call add_annotation
describe_call-IsKept method start_time span kept = (
  annotated-IsKept "grpc.start_time" start_time (add_annotation "grpc.method" method span) refl
      (annotated-IsKept "grpc.method" method span refl kept),
  refl,
)

-- A span that is finished goes to the buffer.
pub finish_with-IsOffline :
    (nt : Time → Timestamp) (ended : Ended) (span : Span) (t : Tracer)
    → IsKept span
    → IsOffline 0 t
    → finish_with nt ended span t
      ≡ ok (ended_at ended.end span, with_span (ended_at ended.end span) t)
unfolding finish_with
finish_with-IsOffline nt ended span t kept offline =
    finish-IsOffline nt ended.end ended.now ended.later ended.response span t kept offline

-- After one of them there is room for one less.
pub with_span-IsOffline :
    (n : ℕ) (span : Span) (t : Tracer) → IsOffline (n + 1) t → IsOffline n (with_span span t)
with_span-IsOffline n span t (alone, room) =
    (alone, ground (arith, length-append t.buffer.spans (span ∷ []), room))

module _ (should_sample : String → String → Bool)
    (all_sampled : (operation_name trace_id : String)
      → should_sample operation_name trace_id ≡ true) where
  child_or_root-IsKept :
      (new : Started) (operation_name : String) (parent : Option Span) (t : Tracer)
      → let span = child_or_root should_sample new operation_name parent t in
        IsKept span × (span.span_id ≡ new.span_id)
  unfolding child_or_root
  child_or_root-IsKept new operation_name none t =
      start_span-IsKept should_sample new.span_id new.trace_id new.now operation_name t
        (all_sampled operation_name new.trace_id)
  child_or_root-IsKept new operation_name (some parent) t =
      child-IsKept should_sample new.span_id new.trace_id new.now operation_name parent t
        (all_sampled operation_name parent.trace_id)

  pub server_span-IsKept :
      (unmarshal : String → Option (Table ℕ)) (new : Started) (method : String)
      (md : Option (Table (List String))) (t : Tracer)
      → let span = server_span should_sample unmarshal new method md t in
        IsKept span × (span.span_id ≡ new.span_id)
  unfolding server_span
  server_span-IsKept unmarshal new method md t =
      let parent = extract_span_from_metadata unmarshal md in
      let span = child_or_root should_sample new (concat "grpc.server:" method) parent t in
      let (kept, id) = child_or_root-IsKept new (concat "grpc.server:" method) parent t in
      let (still, same) = describe_call-IsKept method new.start_time span kept in (still, same ∙ id)

pub finish_call-IsOffline :
    (nt : Time → Timestamp) (ended : Ended) (span : Span) (t : Tracer) (e : Option String)
    → IsKept span
    → IsOffline 0 t
    → let last = ended_at ended.end (record_result e span) in
      finish_call nt ended (returned span t e) ≡ ok (returned last (with_span last t) e)
unfolding finish_call
finish_call-IsOffline nt ended span t e kept offline =
    rw
      (finish_with-IsOffline nt ended (record_result e span) t (record_result-IsKept e span kept).0
        offline)
      refl

-- A call that is made with a span in its context finishes that span.
pub unary_client-current :
    (nt : Time → Timestamp) (should_sample : String → String → Bool)
    (marshal : Table ℕ → Option String) (new : Started) (ended : Ended) (duration : String)
    (invoker : Option (Table (List String)) → Option String) (method : String) (span : Span)
    (md : Option (Table (List String))) (t : Tracer)
    → IsKept span
    → IsOffline 0 t
    → (last : Span) × (e : Option String) × IsKept last
      × (last.span_id ≡ span.span_id)
      × (unary_client nt should_sample marshal new ended duration invoker method (some span) md t
          ≡ ok (returned last (with_span last t) e))
unfolding unary_client current_or_start
unary_client-current nt should_sample marshal new ended duration invoker method span md t kept
      offline =
    let described = describe_call method new.start_time span in
    let after = add_annotation "grpc.duration_ms" duration described in
    let e = invoker (inject_span_to_metadata marshal (some span) md) in
    let (described_kept, same) = describe_call-IsKept method new.start_time span kept in
    let after_kept : IsKept after =
      annotated-IsKept "grpc.duration_ms" duration described refl described_kept in
    let (kept_last, last_same) = record_result-IsKept e after after_kept in
    (
      ended_at ended.end (record_result e after),
      e,
      ended_at-IsKept ended.end (record_result e after) kept_last,
      last_same ∙ (annotated-span_id "grpc.duration_ms" duration described ∙ same),
      finish_call-IsOffline nt ended after t e after_kept offline,
    )
