-- ===== src/Storage/Tests.antt =====
-- Runs of the storage in memory, and the theorems on it, with two traces.
use dapper_distributed_traci.Prelude.{
  ℕ, ◌+◌, ◌*◌, ◌≡◌, refl, String, true, Option, some, none, List, [], ◌∷◌, ok, panic,
}
use dapper_distributed_traci.Prelude.Int.{ℤ, pos, negsuc, pos_part, ◌+ℤ◌}
use dapper_distributed_traci.Table.{lookup, insert}
use dapper_distributed_traci.Time.{Time, second}
use dapper_distributed_traci.Wire.{
  Timestamp, Span, Trace, FilterCriteria, status_unspecified, status_ok,
}
use dapper_distributed_traci.Storage.{
  MemoryStorage, store_in_memory, get_from_memory, matches_filter, page, values, list_in_memory,
  memory_storage, is_expired, prune_memory, new_memory_storage,
}
use dapper_distributed_traci.Storage.Paging.{page_window}
use dapper_distributed_traci.Storage.Memory.{IsMemory, get-store, unexpired, prune_memory_lem}
use dapper_distributed_traci.Storage.Laws.{IsStorage, memory_storage-IsStorage}

-- The Unix epoch counts this many seconds from the year 1.
abbrev as_time : Option Timestamp → Time
as_time none = 62_135_596_800 * second
as_time (some t) = (62_135_596_800 + pos_part t.seconds) * second + pos_part t.nanos

abbrev at_second : ℕ → Option Timestamp
at_second n = some (record { seconds = pos n; nanos = pos 0 })

abbrev span : String → String → Span
span id service = record {
  span_id = id;
  trace_id = "t";
  parent_span_id = "";
  service_name = service;
  operation_name = "o";
  start_time = none;
  end_time = at_second 5;
  annotations = [];
  status = status_ok;
  vector_clock = none;
  node_id = "n";
}

abbrev trace : String → ℕ → Trace Span
trace id end = record {
  trace_id = id;
  spans = span "a" "web" ∷ [];
  start_time = at_second 1;
  end_time = at_second end;
  root_service = "web";
  root_operation = "o";
}

abbrev two : MemoryStorage
two = record { traces = ("old", trace "old" 5) ∷ ("new", trace "new" 9) ∷ [] }

two-IsMemory : IsMemory two
unfolding lookup
two-IsMemory = (refl, (refl, tt))

abbrev filter : ℤ → ℤ → FilterCriteria
filter offset limit = record {
  start_time = none;
  end_time = none;
  services = "web" ∷ [];
  status = status_unspecified;
  operation_name = "";
  limit = limit;
  offset = offset;
}

stored_twice :
    (store_in_memory
      (some (trace "new" 9))
      (store_in_memory (some (trace "old" 5)) new_memory_storage).0).0
    ≡ two
unfolding store_in_memory new_memory_storage insert
stored_twice = refl

web_matches : matches_filter as_time (some (filter (pos 0) (pos 0))) (trace "old" 5) ≡ true
unfolding matches_filter
web_matches = refl

abbrev numbers : List ℕ
numbers = 7 ∷ 8 ∷ 9 ∷ []

negative_offset : page (some (filter (negsuc 0) (pos 10))) numbers ≡ panic
unfolding page ◌+ℤ◌
negative_offset = refl

page_window_example :
    list_in_memory as_time (λ less traces. traces) (some (filter (pos 1) (pos 1))) two
    ≡ ok (trace "new" 9 ∷ [])
unfolding values matches_filter
page_window_example = page_window as_time (λ less traces. traces) (filter (pos 1) (pos 1)) two

get-store_example :
    get_from_memory "old" (store_in_memory (some (trace "old" 7)) two).0 ≡ ok (trace "old" 7)
get-store_example = get-store (trace "old" 7) "old" two

prune_memory_lem_example :
    ((id : String)
      → lookup id (prune_memory as_time (62_135_596_807 * second) two).0.traces
        ≡ unexpired (is_expired as_time (62_135_596_807 * second)) (lookup id two.traces))
    × IsMemory (prune_memory as_time (62_135_596_807 * second) two).0
    × ((prune_memory as_time (62_135_596_807 * second) two).1 ≡ none)
prune_memory_lem_example = prune_memory_lem as_time (62_135_596_807 * second) two two-IsMemory

memory_storage-IsStorage_example : IsStorage (memory_storage as_time (λ less traces. traces))
memory_storage-IsStorage_example = memory_storage-IsStorage as_time (λ less traces. traces)
