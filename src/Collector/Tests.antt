-- ===== src/Collector/Tests.antt =====
-- Runs of the collector over the storage in memory, and the theorems on it.
use dapper_distributed_traci.Prelude.{
  false, ◌⊎◌, ℕ, ◌+◌, ◌*◌, ◌≡◌, ap, refl, String, true, Option, some, none, List, [], ◌∷◌, ◌++◌,
  ◌==◌, if◌then◌else◌, ok, err, not_found, keep, max,
}
use dapper_distributed_traci.Prelude.Int.{pos, pos_part}
use dapper_distributed_traci.Time.{Time, second}
use dapper_distributed_traci.Wire.{Timestamp, Span, Trace, status_ok}
use dapper_distributed_traci.Storage.{
  StorageInterface, MemoryStorage, memory_storage, new_memory_storage,
}
use dapper_distributed_traci.Storage.Laws.{
  IsStorage, IsKeyed, memory_storage-IsStorage, get-new, new-IsKeyed,
}
use dapper_distributed_traci.Collector.{
  Collector, opened, new_trace, with_span, replicate_spans, merge_trace,
}
use dapper_distributed_traci.Collector.Storing.{spans_at, replicate_spans_lem}
use dapper_distributed_traci.Collector.Merging.{merge_trace_lem}
use dapper_distributed_traci.Collector.Races.{first_span_sets_root, lost_span}

-- The Unix epoch counts this many seconds from the year 1.
abbrev as_time : Option Timestamp → Time
as_time none = 62_135_596_800 * second
as_time (some t) = (62_135_596_800 + pos_part t.seconds) * second + pos_part t.nanos

abbrev at_second : ℕ → Option Timestamp
at_second n = some (record { seconds = pos n; nanos = pos 0 })

abbrev span : String → String → ℕ → Span
span id parent end = record {
  span_id = id;
  trace_id = "t";
  parent_span_id = parent;
  service_name = "web";
  operation_name = "o";
  start_time = at_second 1;
  end_time = at_second end;
  annotations = [];
  status = status_ok;
  vector_clock = none;
  node_id = "n";
}

-- The child finishes, and comes, first.
abbrev child : Span
child = span "child" "root" 3

abbrev root : Span
root = span "root" "" 4

abbrev memory : StorageInterface MemoryStorage
memory = memory_storage as_time (λ less traces. traces)

abbrev empty : Collector MemoryStorage
empty = record {
  id = "c1";
  storage = new_memory_storage;
  spans_processed = pos 0;
  traces_stored = pos 0;
  queue_depth = pos 0;
  start_time = 0;
}

laws : IsStorage memory
laws = memory_storage-IsStorage as_time (λ less traces. traces)

absent : memory.get_trace "t" new_memory_storage ≡ err (not_found "t")
absent = get-new as_time (λ less traces. traces) "t"

empty-IsKeyed : IsKeyed memory new_memory_storage
empty-IsKeyed = new-IsKeyed as_time (λ less traces. traces)

replicate_spans_lem_example :
    (c' : Collector MemoryStorage) × (replicate_spans memory as_time "c2" (child ∷ root ∷ []) empty
      ≡ ok (c', record { success = true; failed_span_ids = [] }))
    × ((id : String)
        → spans_at memory id c'.storage
          ≡ spans_at memory id empty.storage
            ++ (if "c2" == "c1"
                then []
                else keep (λ span. span.trace_id == id) (child ∷ root ∷ [])))
    × IsKeyed memory c'.storage
    × ((("c2" == "c1") ≡ false) ⊎ (c' ≡ empty))
replicate_spans_lem_example =
    replicate_spans_lem memory as_time "c2" (child ∷ root ∷ []) empty laws empty-IsKeyed

first_span_sets_root_example :
    (c' : Collector MemoryStorage) × (trace : Trace Span) × (replicate_spans memory as_time "c2"
        (child ∷ root ∷ [])
        empty
      ≡ ok (c', record { success = true; failed_span_ids = [] }))
    × (memory.get_trace "t" c'.storage ≡ ok trace)
    × (trace.root_service ≡ "")
    × (trace.root_operation ≡ "")
first_span_sets_root_example =
    first_span_sets_root memory as_time "c2" child (root ∷ []) empty (not_found "t") laws
      empty-IsKeyed refl absent

read_by_child : opened child (memory.get_trace "t" new_memory_storage) ≡ ok (new_trace child)
unfolding opened
read_by_child = ap (opened child) absent

read_by_root : opened root (memory.get_trace "t" new_memory_storage) ≡ ok (new_trace root)
unfolding opened
read_by_root = ap (opened root) absent

lost_span_example :
    let s1 =
      (memory.store_trace (some (with_span as_time child (new_trace child))) empty.storage).0 in
    let s2 = (memory.store_trace (some (with_span as_time root (new_trace root))) s1).0 in
    spans_at memory "t" s2 ≡ spans_at memory "t" empty.storage ++ root ∷ []
lost_span_example =
    lost_span memory as_time child root empty.storage (new_trace child) (new_trace root) laws
      empty-IsKeyed refl read_by_child read_by_root

abbrev trace_of : List Span → ℕ → Trace Span
trace_of spans end = record {
  trace_id = "t";
  spans = spans;
  start_time = at_second 1;
  end_time = at_second end;
  root_service = "web";
  root_operation = "o";
}

merge_trace_lem_example :
    let merged = merge_trace as_time (trace_of (child ∷ root ∷ []) 4) (trace_of (child ∷ []) 3) in
    (merged.spans ≡ child ∷ root ∷ [])
    × (as_time merged.end_time ≡ max (as_time (at_second 3)) (as_time (at_second 4)))
    × ((merged.trace_id ≡ "t")
        × (merged.root_service ≡ "web")
        × (merged.root_operation ≡ "o")
        × (merged.start_time ≡ at_second 1))
    × (merge_trace as_time (trace_of (child ∷ root ∷ []) 4) merged ≡ merged)
merge_trace_lem_example =
    merge_trace_lem as_time (trace_of (child ∷ root ∷ []) 4) (trace_of (child ∷ []) 3)
