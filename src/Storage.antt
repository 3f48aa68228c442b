-- ===== src/Storage.antt =====
-- `StorageInterface`, `matchesFilter` and `MemoryStorage` of pkg/storage.go. The mutex makes each
-- method one step. A trace that comes back is a copy, so what is stored is changed by a store alone.
-- `as_time` is `AsTime` of timestamppb, which a nil pointer has too, and `sort_slice` is
-- `sort.Slice`, whose result for this comparison is not determined where times are nil.
pub mod Paging
pub mod Memory
pub mod Laws
mod Tests
use Prim.Native.String.{compare}
use Prim.Native.Nat.{Ordering}
use dapper_distributed_traci.Prelude.{
  ℕ, String, Bool, true, false, Option, none, some, List, [], ◌∷◌, map, if◌then◌else◌, length, any,
  keep, not, ltb, leb, drop, take, ◌==◌, ◌&&◌, Result, ok, err, panic, Error, nil_trace, not_found,
  ◌>>=◌,
}
use dapper_distributed_traci.Prelude.Int.{ℤ, pos, negsuc, ◌+ℤ◌, ltb_ℤ, leb_ℤ, eqb_ℤ}
use dapper_distributed_traci.Table.{Table, lookup, insert, delete}
use dapper_distributed_traci.Time.{Time, is_before, is_after}
use dapper_distributed_traci.Wire.{Timestamp, Span, Trace, FilterCriteria, status_unspecified}

-- A method returns the new state and the error, or the value and the error.
pub record StorageInterface (S : Type 0) : Type 0 where
  pub store_trace : Option (Trace Span) → S → S × Option Error
  pub get_trace : String → S → Result (Trace Span)
  pub list_traces : Option FilterCriteria → S → Result (List (Trace Span))
  pub prune_traces : Time → S → S × Option Error

pub record MemoryStorage : Type 0 where
  pub traces : Table (Trace Span)

pub new_memory_storage : MemoryStorage
new_memory_storage = record { traces = [] }

pub store_in_memory : Option (Trace Span) → MemoryStorage → MemoryStorage × Option Error
store_in_memory none s = (s, some nil_trace)
store_in_memory (some trace) s = (record { traces = insert trace.trace_id trace s.traces }, none)

-- `&proto.Trace{...}` with a copy of the list.
abbrev copy_trace : Trace Span → Trace Span
copy_trace trace = record {
  trace_id = trace.trace_id;
  spans = trace.spans;
  start_time = trace.start_time;
  end_time = trace.end_time;
  root_service = trace.root_service;
  root_operation = trace.root_operation;
}

pub found : String → Option (Trace Span) → Result (Trace Span)
found trace_id none = err (not_found trace_id)
found trace_id (some trace) = ok (copy_trace trace)

pub get_from_memory : String → MemoryStorage → Result (Trace Span)
unfolding found
get_from_memory trace_id s = found trace_id (lookup trace_id s.traces)

-- `xs[low:high]`, for a slice whose capacity is its length.
pub slice {ℓ} : {A : Type ℓ} → ℤ → ℤ → List A → Result (List A)
slice (pos low) (pos high) xs =
    if leb low high && leb high (length xs) then ok (drop low (take high xs)) else panic
slice _ _ xs = panic

-- The limit and the offset at the end of `ListTraces`. They are `int32`, so that the sum fits.
pub page {ℓ} : {A : Type ℓ} → Option FilterCriteria → List A → Result (List A)
unfolding slice
page none xs = ok xs
page (some filter) xs =
    let size = pos (length xs) in
    let limit = if leb_ℤ filter.limit (pos 0) then size else filter.limit in
    let end = filter.offset +ℤ limit in
    if leb_ℤ size filter.offset
    then ok []
    else slice filter.offset (if ltb_ℤ size end then size else end) xs

module _ (as_time : Option Timestamp → Time) where
  -- Each test of `matchesFilter`: is the trace turned down?
  starts_early : Option Timestamp → Option Timestamp → Bool
  starts_early (some bound) (some start) = is_before (as_time (some start)) (as_time (some bound))
  starts_early _ _ = false

  ends_late : Option Timestamp → Option Timestamp → Bool
  ends_late (some bound) (some end) = is_after (as_time (some end)) (as_time (some bound))
  ends_late _ _ = false

  no_service : List String → List Span → Bool
  no_service [] spans = false
  no_service services spans =
      not (any (λ span. any (λ service. span.service_name == service) services) spans)

  pub matches_filter : Option FilterCriteria → Trace Span → Bool
  unfolding starts_early ends_late no_service
  matches_filter none trace = true
  matches_filter (some filter) trace =
      if starts_early filter.start_time trace.start_time
      then false
      else if ends_late filter.end_time trace.end_time
      then false
      else if no_service filter.services trace.spans
      then false
      else if not (eqb_ℤ filter.status status_unspecified)
          && not (any (λ span. eqb_ℤ span.status filter.status) trace.spans)
      then false
      else if not (filter.operation_name == "")
          && not (any (λ span. span.operation_name == filter.operation_name) trace.spans)
      then false
      else true

  -- The comparison that `sort.Slice` is given: by start time, or else by id.
  newer : Option Timestamp → Option Timestamp → Ordering → Bool
  newer (some s) (some t) ids = is_after (as_time (some s)) (as_time (some t))
  newer _ _ Ordering.gt = true
  newer _ _ _ = false

  pub comes_first : Trace Span → Trace Span → Bool
  unfolding newer
  comes_first a b = newer a.start_time b.start_time (compare a.trace_id b.trace_id)

  pub values : Table (Trace Span) → List (Trace Span)
  values [] = []
  values ((id, trace) ∷ rest) = trace ∷ values rest

  pub list_in_memory :
      ((Trace Span → Trace Span → Bool) → List (Trace Span) → List (Trace Span))
      → Option FilterCriteria
      → MemoryStorage
      → Result (List (Trace Span))
  unfolding comes_first values
  list_in_memory sort_slice filter s =
      page filter (sort_slice comes_first (keep (matches_filter filter) (values s.traces)))

  pub is_expired : Time → Trace Span → Bool
  is_expired older_than trace = elim (trace.end_time) [
    | none ↦ false
    | some end ↦ is_before (as_time (some end)) older_than
  ]

  -- The loop of `PruneTraces`, over the entries that the map had.
  pub prune_loop : Time → Table (Trace Span) → Table (Trace Span) → Table (Trace Span)
  prune_loop older_than [] traces = traces
  prune_loop older_than ((id, trace) ∷ rest) traces =
      prune_loop older_than rest (if is_expired older_than trace then delete id traces else traces)

  pub prune_memory : Time → MemoryStorage → MemoryStorage × Option Error
  unfolding is_expired prune_loop
  prune_memory older_than s = (record { traces = prune_loop older_than s.traces s.traces }, none)

  pub memory_storage :
      ((Trace Span → Trace Span → Bool) → List (Trace Span) → List (Trace Span))
      → StorageInterface MemoryStorage
  unfolding store_in_memory get_from_memory list_in_memory prune_memory
  memory_storage sort_slice = record {
    store_trace = store_in_memory;
    get_trace = get_from_memory;
    list_traces = list_in_memory sort_slice;
    prune_traces = prune_memory;
  }
