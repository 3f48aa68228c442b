-- ===== src/Storage/Memory.antt =====
-- What the in-memory storage returns after it stored and pruned traces.
use dapper_distributed_traci.Prelude.{
  String, ◌≡◌, refl, ◌∙◌, Bool, Option, none, some, [], ◌∷◌, arith, ◌==◌, eq_iff, if◌then◌else◌, ok,
  Bool-cases, inl, inr,
}
use dapper_distributed_traci.Table.{Table, lookup, delete, IsMap}
use dapper_distributed_traci.Table.Laws.{lookup-insert, lookup-delete, delete-IsMap}
use dapper_distributed_traci.Time.{Time}
use dapper_distributed_traci.Wire.{Timestamp, Span, Trace}
use dapper_distributed_traci.Storage.{
  MemoryStorage, store_in_memory, get_from_memory, is_expired, prune_loop, prune_memory,
}

-- The keys of the map are distinct.
abbrev pub IsMemory : MemoryStorage → Type 0
IsMemory s = IsMap s.traces

-- A trace that is stored is returned for its id, and no other trace changes.
pub get-store :
    (trace : Trace Span) (id : String) (s : MemoryStorage)
    → get_from_memory id (store_in_memory (some trace) s).0
      ≡ (if trace.trace_id == id then ok trace else get_from_memory id s)
unfolding get_from_memory store_in_memory
get-store trace id s = rw (lookup-insert trace.trace_id id trace s.traces) (ground arith)

-- What is left of an entry.
abbrev pub unexpired : (Trace Span → Bool) → Option (Trace Span) → Option (Trace Span)
unexpired expired none = none
unexpired expired (some trace) = if expired trace then none else some trace

module _ (as_time : Option Timestamp → Time) (older_than : Time) where
  lookup-prune_loop :
      (id : String) (entries traces : Table (Trace Span))
      → IsMap entries
      → lookup id (prune_loop as_time older_than entries traces) ≡ elim (lookup id entries) [
        | none ↦ lookup id traces
        | some trace ↦ if is_expired as_time older_than trace then none else lookup id traces
      ]
  unfolding prune_loop lookup
  lookup-prune_loop id [] traces m = refl
  lookup-prune_loop id ((key, trace) ∷ rest) traces m = ground (
    arith,
    eq_iff key id,
    lookup-delete key id traces,
    lookup-prune_loop id rest
        (if is_expired as_time older_than trace then delete key traces else traces) m.1,
  )

  prune_loop-IsMap :
      (entries traces : Table (Trace Span))
      → IsMap traces
      → IsMap (prune_loop as_time older_than entries traces)
  unfolding prune_loop
  prune_loop-IsMap [] traces m = m
  prune_loop-IsMap ((key, trace) ∷ rest) traces m =
      elim (Bool-cases (is_expired as_time older_than trace)) [
        | inl old ↦ rw old (prune_loop-IsMap rest (delete key traces) (delete-IsMap key traces m))
        | inr new ↦ rw new (prune_loop-IsMap rest traces m)
      ]

-- `PruneTraces` removes exactly the traces that ended before the given time: of a map with distinct
-- keys, a trace without an end time, or with one that is not before it, is left as it was. The keys
-- are distinct after it, and it returns no error.
pub prune_memory_lem :
    (as_time : Option Timestamp → Time) (older_than : Time) (s : MemoryStorage)
    → IsMemory s
    → ((id : String)
        → lookup id (prune_memory as_time older_than s).0.traces
          ≡ unexpired (is_expired as_time older_than) (lookup id s.traces))
      × IsMemory (prune_memory as_time older_than s).0
      × ((prune_memory as_time older_than s).1 ≡ none)
unfolding prune_memory
prune_memory_lem as_time older_than s m = (
  λ id. lookup-prune_loop as_time older_than id s.traces s.traces m ∙ ground arith,
  prune_loop-IsMap as_time older_than s.traces s.traces m,
  refl,
)
