-- ===== src/Index.antt =====
-- The index of `FileStorage` in pkg/storage.go: the entry of a trace, its place in the index, and the
-- filter on entries. Files models its file.
pub mod Updating
mod Tests
use dapper_distributed_traci.Prelude.{
  ℕ, String, Bool, true, false, Option, none, some, List, [], ◌∷◌, ◌==◌, ◌&&◌, not, any,
  if◌then◌else◌,
}
use dapper_distributed_traci.Prelude.Int.{ℤ, ltb_ℤ, eqb_ℤ}
use dapper_distributed_traci.Time.{Time, is_zero, is_before, is_after}
use dapper_distributed_traci.Wire.{
  Timestamp, Span, Trace, FilterCriteria, status_ok, status_unspecified,
}

pub record TraceIndexEntry : Type 0 where
  pub trace_id : String
  pub root_service : String
  pub root_operation : String
  pub start_time : Time
  pub end_time : Time
  pub status : ℤ

-- The highest status of all spans.
highest_status : List Span → ℤ → ℤ
highest_status [] status = status
highest_status (span ∷ rest) status =
    highest_status rest (if ltb_ℤ status span.status then span.status else status)

-- The first entry of the trace is replaced, or else one is added at the end.
pub put_entry : TraceIndexEntry → List TraceIndexEntry → List TraceIndexEntry
put_entry entry [] = entry ∷ []
put_entry entry (e ∷ rest) =
    if e.trace_id == entry.trace_id then entry ∷ rest else e ∷ put_entry entry rest

no_entry_service : List String → String → Bool
no_entry_service [] root = false
no_entry_service services root = not (any (λ service. root == service) services)

module _ (as_time : Option Timestamp → Time) where
  -- A nil pointer leaves the zero `time.Time`.
  time_or_zero : Option Timestamp → Time
  time_or_zero none = 0
  time_or_zero (some t) = as_time (some t)

  pub entry_of : Trace Span → TraceIndexEntry
  unfolding time_or_zero highest_status
  entry_of trace = record {
    trace_id = trace.trace_id;
    root_service = trace.root_service;
    root_operation = trace.root_operation;
    start_time = time_or_zero trace.start_time;
    end_time = time_or_zero trace.end_time;
    status = highest_status trace.spans status_ok;
  }

  pub update_trace_index : Trace Span → List TraceIndexEntry → List TraceIndexEntry
  unfolding put_entry entry_of
  update_trace_index trace index = put_entry (entry_of trace) index

  entry_early : Option Timestamp → Time → Bool
  entry_early none start = false
  entry_early (some bound) start = not (is_zero start) && is_before start (as_time (some bound))

  entry_late : Option Timestamp → Time → Bool
  entry_late none end = false
  entry_late (some bound) end = not (is_zero end) && is_after end (as_time (some bound))

  pub matches_filter_entry : Option FilterCriteria → TraceIndexEntry → Bool
  unfolding entry_early entry_late no_entry_service
  matches_filter_entry none entry = true
  matches_filter_entry (some filter) entry =
      if entry_early filter.start_time entry.start_time
      then false
      else if entry_late filter.end_time entry.end_time
      then false
      else if no_entry_service filter.services entry.root_service
      then false
      else if not (eqb_ℤ filter.status status_unspecified) && not (eqb_ℤ filter.status entry.status)
      then false
      else if not (filter.operation_name == "")
          && not (entry.root_operation == filter.operation_name)
      then false
      else true
