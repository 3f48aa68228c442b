-- ===== src/Context/Linking.antt =====
-- The ids of a span that is started for an incoming call.
use dapper_distributed_traci.Prelude.{
  String, ◌≡◌, refl, Bool, none, some, List, [], ◌==◌, ◌||◌, if◌then◌else◌, Bool-cases, inl, inr,
}
use dapper_distributed_traci.Table.{Table}
use dapper_distributed_traci.Time.{Time}
use dapper_distributed_traci.Span.{with_parent_span, add_annotation}
use dapper_distributed_traci.Tracer.{Tracer, start_span}
use dapper_distributed_traci.Context.{
  span_id_header, trace_id_header, get_string_from_metadata, start_span_from_context,
}

-- The trace and the parent of a span that is started without a span in its context and without
-- options: those that the metadata of the call names, if it names both a span and a trace, and else
-- the new trace id and no parent, whatever the sampler decides.
pub start_span_from_context_lem :
    (should_sample : String → String → Bool) (span_id trace_id : String) (now : Time)
    (md : Table (List String)) (operation_name : String) (t : Tracer)
    → let span =
        start_span_from_context should_sample span_id trace_id now none
          (some md)
          operation_name
          []
          t in
      let its_span = get_string_from_metadata md span_id_header in
      let its_trace = get_string_from_metadata md trace_id_header in
      (span.trace_id ≡ (if its_span == "" || its_trace == "" then trace_id else its_trace))
      × (span.parent_span_id ≡ (if its_span == "" || its_trace == "" then "" else its_span))
      × (span.span_id ≡ span_id)
unfolding start_span_from_context start_span with_parent_span add_annotation
start_span_from_context_lem should_sample span_id trace_id now md operation_name t =
    let its_span = get_string_from_metadata md span_id_header in
    let its_trace = get_string_from_metadata md trace_id_header in
    elim (Bool-cases (its_span == "" || its_trace == "")) [
      | inl none_named ↦ elim (Bool-cases (should_sample operation_name trace_id)) [
        | inl sampled ↦ (
          rw (none_named, sampled) refl,
          rw (none_named, sampled) refl,
          rw (none_named, sampled) refl,
        )
        | inr dropped ↦ (
          rw (none_named, dropped) refl,
          rw (none_named, dropped) refl,
          rw (none_named, dropped) refl,
        )
      ]
      | inr named ↦ elim (Bool-cases (should_sample operation_name its_trace)) [
        | inl sampled ↦
            (rw (named, sampled) refl, rw (named, sampled) refl, rw (named, sampled) refl)
        | inr dropped ↦
            (rw (named, dropped) refl, rw (named, dropped) refl, rw (named, dropped) refl)
      ]
    ]
