-- ===== src/Collector.antt =====
-- The collector of pkg/collector.go over any storage: `StoreSpan`, `GetTrace`, `BuildTraceTree`,
-- the merge of one replica's traces, and the handlers of the server. A collector's methods share no
-- lock over what they do with the storage, so that each use of it is a step of its own. What
-- `ReplicateToBackups` sends to others changes nothing here, and is left out.
pub mod Storing
pub mod Merging
pub mod Races
pub mod LogFile
mod Tests
use dapper_distributed_traci.Prelude.{
  ℕ, String, Bool, true, false, Option, none, some, List, [], ◌∷◌, ◌++◌, map, if◌then◌else◌, length,
  leb, any, not, ◌==◌, Result, ok, err, panic, Error, nil_span, no_span, empty_trace_id, ◌>>=◌,
}
use dapper_distributed_traci.Prelude.Int.{ℤ, pos, next_int32, to_int32}
use dapper_distributed_traci.Table.{Table, insert, is_set}
use dapper_distributed_traci.Time.{Time, is_after, sub}
use dapper_distributed_traci.Conversion.{add_duration, negated, milliseconds}
use dapper_distributed_traci.Wire.{Timestamp, Span, Trace, FilterCriteria, status_unspecified}
use dapper_distributed_traci.Ordering.{order_spans}
use dapper_distributed_traci.Storage.{StorageInterface}

-- `config.ID`, the storage and the counters, which are `int32`.
pub record Collector (S : Type 0) : Type 0 where
  pub id : String
  pub storage : S
  pub spans_processed : ℤ
  pub traces_stored : ℤ
  pub queue_depth : ℤ
  pub start_time : Time

pub new_trace : Span → Trace Span
new_trace span =
    let trace : Trace Span = record {
      trace_id = span.trace_id;
      spans = [];
      start_time = none;
      end_time = none;
      root_service = "";
      root_operation = "";
    } in
    if span.parent_span_id == ""
    then record trace {
      root_service = span.service_name;
      root_operation = span.operation_name;
      start_time = span.start_time;
    }
    else trace

-- The trace that was read, or a new one.
pub opened : Span → Result (Trace Span) → Result (Trace Span)
opened span (ok trace) = ok trace
opened span (err e) = ok (new_trace span)
opened span panic = panic

-- What `ReplicateSpans` answers.
pub record ReplicateSpansResponse : Type 0 where
  pub success : Bool
  pub failed_span_ids : List String

pub record GetCollectorStatusResponse : Type 0 where
  pub healthy : Bool
  pub spans_processed : ℤ
  pub traces_stored : ℤ
  pub up_since : Time
  pub queue_depth : ℤ

pub get_collector_status : {S : Type 0} → Collector S → GetCollectorStatusResponse
get_collector_status c = record {
  healthy = true;
  spans_processed = c.spans_processed;
  traces_stored = c.traces_stored;
  up_since = c.start_time;
  queue_depth = c.queue_depth;
}

pub record ListTracesResponse : Type 0 where
  pub traces : List (Trace Span)
  pub total_count : ℤ

-- The filter of a request that has none.
pub filter_or_default : Option FilterCriteria → FilterCriteria
filter_or_default (some filter) = filter
filter_or_default none = record {
  start_time = none;
  end_time = none;
  services = [];
  status = status_unspecified;
  operation_name = "";
  limit = pos 100;
  offset = pos 0;
}

-- `order` is the order of iteration over the graph of `OrderSpans`.
pub build_trace_tree : List String → Trace Span → Option (Trace (Option Span))
build_trace_tree order trace = tree (
    if leb (length trace.spans) 1
    then some (map some trace.spans)
    else order_spans order trace.spans)
  where
    tree : Option (List (Option Span)) → Option (Trace (Option Span))
    tree none = none
    tree (some spans) = some (record {
      trace_id = trace.trace_id;
      spans = spans;
      start_time = trace.start_time;
      end_time = trace.end_time;
      root_service = trace.root_service;
      root_operation = trace.root_operation;
    })

-- The ids of the local spans, as a set.
pub ids_in : List Span → Table Bool → Table Bool
ids_in [] m = m
ids_in (span ∷ rest) m = ids_in rest (insert span.span_id true m)

pub add_missing : Table Bool → List Span → List Span → List Span
add_missing known [] spans = spans
add_missing known (span ∷ rest) spans =
    add_missing known rest (if is_set span.span_id known then spans else spans ++ span ∷ [])

module _ (as_time : Option Timestamp → Time) where
  pub later_end : Option Timestamp → Option Timestamp → Option Timestamp
  later_end none new = new
  later_end (some old) new = if is_after (as_time new) (as_time (some old)) then new else some old

  pub with_span : Span → Trace Span → Trace Span
  with_span span trace = record trace {
    spans = trace.spans ++ span ∷ [];
    end_time = later_end trace.end_time span.end_time;
  }

  -- A replica's trace and the local one, in `MergeFromReplicas`.
  pub merge_trace : Trace Span → Trace Span → Trace Span
  unfolding ids_in add_missing
  merge_trace trace local = record local {
    spans = add_missing (ids_in local.spans []) trace.spans local.spans;
    end_time =
        if is_after (as_time trace.end_time) (as_time local.end_time)
        then trace.end_time
        else local.end_time;
  }

  pub merge_into : Trace Span → Result (Trace Span) → Result (Trace Span)
  merge_into trace (ok local) = ok (merge_trace trace local)
  merge_into trace (err e) = ok trace
  merge_into trace panic = panic

module _ {S : Type 0} (store : StorageInterface S) (as_time : Option Timestamp → Time) where
  stored : S × Option Error → Collector S → Collector S × Option Error
  stored (s, some e) c = (record c { storage = s }, some e)
  stored (s, none) c = (record c { storage = s; traces_stored = next_int32 c.traces_stored }, none)

  pub store_span : Option Span → Collector S → Result (Collector S × Option Error)
  unfolding opened with_span stored
  store_span none c = ok (c, some nil_span)
  store_span (some span) c = do
    trace ← opened span (store.get_trace span.trace_id c.storage)
    ok (stored (store.store_trace (some (with_span as_time span trace)) c.storage) c)

  -- `CollectSpan`. The status that wraps an error of `StoreSpan` is left out.
  pub collect_span : Option Span → Collector S → Result (Collector S × Option Error)
  unfolding store_span
  collect_span none c = ok (c, some no_span)
  collect_span (some span) c = store_span (some span) c

  -- The loop of `ReplicateSpans`, with the ids that failed so far.
  note_failure : Span → Option Error → List String → List String
  note_failure span none failed = failed
  note_failure span (some e) failed = failed ++ span.span_id ∷ []

  pub store_all : List Span → List String → Collector S → Result (Collector S × List String)
  unfolding note_failure
  store_all [] failed c = ok (c, failed)
  store_all (span ∷ rest) failed c = do
    r ← store_span (some span) c
    store_all rest (note_failure span r.1 failed) r.0

  answer : Collector S × List String → Collector S × ReplicateSpansResponse
  answer (c, failed) = (c, record { success = leb (length failed) 0; failed_span_ids = failed })

  pub replicate_spans :
      String → List Span → Collector S → Result (Collector S × ReplicateSpansResponse)
  unfolding store_all answer
  replicate_spans collector_id spans c =
      if collector_id == c.id
      then ok (c, record { success = true; failed_span_ids = [] })
      else do r ← store_all spans [] c; ok (answer r)

  -- `GetTrace` of the collector. The result holds no trace if the search ran out of fuel.
  pub get_trace : List String → String → Collector S → Result (Option (Trace (Option Span)))
  unfolding build_trace_tree
  get_trace order trace_id c = do
    trace ← store.get_trace trace_id c.storage
    ok (build_trace_tree order trace)

  -- `GetTrace` of the server.
  pub serve_trace : List String → String → Collector S → Result (Option (Trace (Option Span)))
  unfolding get_trace
  serve_trace order trace_id c =
      if trace_id == "" then err empty_trace_id else get_trace order trace_id c

  -- The traces that one replica answers. An error of `StoreTrace` is printed.
  pub merge_traces : List (Trace Span) → S → Result S
  unfolding merge_into merge_trace
  merge_traces [] s = ok s
  merge_traces (trace ∷ rest) s = do
    merged ← merge_into as_time trace (store.get_trace trace.trace_id s)
    merge_traces rest (store.store_trace (some merged) s).0

  pub list_traces : Option FilterCriteria → Collector S → Result (List (Trace Span))
  list_traces filter c = store.list_traces filter c.storage

  -- `ListTraces` of the server. A count of traces that fits an `int32` is as it is.
  pub serve_list : Option FilterCriteria → Collector S → Result ListTracesResponse
  unfolding filter_or_default list_traces
  serve_list filter c = do
    traces ← list_traces (some (filter_or_default filter)) c
    ok (record { traces = traces; total_count = to_int32 (length traces) })

  pruned : S × Option Error → Collector S → Collector S × Option Error
  pruned (s, e) c = (record c { storage = s }, e)

  pub prune_old_traces : Time → ℤ → Collector S → Collector S × Option Error
  unfolding pruned
  prune_old_traces now retention_period c =
      pruned (store.prune_traces (add_duration now (negated retention_period)) c.storage) c

-- `SyncClock`, with the collector's time and the client's; the drift is in milliseconds.
pub sync_clock : Time → Time → Time × ℤ
sync_clock local_time client_time = (local_time, milliseconds (sub client_time local_time))
