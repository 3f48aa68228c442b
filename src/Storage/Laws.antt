-- ===== src/Storage/Laws.antt =====
-- What the collector asks of a storage, and that the one in memory gives it.
use dapper_distributed_traci.Prelude.{
  String, ◌≡◌, refl, sym, ◌∙◌, ◌⊎◌, inl, inr, Bool, Option, none, some, List, arith, ◌==◌,
  if◌then◌else◌, ok, err, Error, not_found,
}
use dapper_distributed_traci.Table.{lookup}
use dapper_distributed_traci.Time.{Time}
use dapper_distributed_traci.Wire.{Timestamp, Span, Trace}
use dapper_distributed_traci.Storage.{
  StorageInterface, memory_storage, store_in_memory, get_from_memory, found, copy_trace,
  new_memory_storage,
}
use dapper_distributed_traci.Storage.Memory.{get-store}

-- A storage whose reads give a trace or an error, which takes every trace, and returns it for its id.
pub record IsStorage {S : Type 0} (store : StorageInterface S) : Type 0 where
  pub reads :
      (id : String) (s : S)
      → ((trace : Trace Span) × (store.get_trace id s ≡ ok trace))
        ⊎ ((e : Error) × (store.get_trace id s ≡ err e))
  pub takes : (trace : Trace Span) (s : S) → (store.store_trace (some trace) s).1 ≡ none
  pub returns :
      (trace : Trace Span) (id : String) (s : S)
      → store.get_trace id (store.store_trace (some trace) s).0
        ≡ (if trace.trace_id == id then ok trace else store.get_trace id s)

-- A trace that is found has the id that it was asked for.
abbrev pub IsKeyed : {S : Type 0} → StorageInterface S → S → Type 0
IsKeyed store s =
    (id : String) (trace : Trace Span) → store.get_trace id s ≡ ok trace → trace.trace_id ≡ id

found_or_not :
    (id : String) (o : Option (Trace Span))
    → ((trace : Trace Span) × (found id o ≡ ok trace)) ⊎ ((e : Error) × (found id o ≡ err e))
unfolding found
found_or_not id none = inr (not_found id, refl)
found_or_not id (some trace) = inl (copy_trace trace, refl)

module _ (as_time : Option Timestamp → Time)
    (sort_slice : (Trace Span → Trace Span → Bool) → List (Trace Span) → List (Trace Span)) where
  pub get-new :
      (id : String)
      → (memory_storage as_time sort_slice).get_trace id new_memory_storage ≡ err (not_found id)
  unfolding memory_storage get_from_memory found new_memory_storage lookup
  get-new id = refl

  pub new-IsKeyed : IsKeyed (memory_storage as_time sort_slice) new_memory_storage
  new-IsKeyed id trace e =
      let clash : err (not_found id) ≡ ok trace = sym (get-new id) ∙ e in absurd (ground arith)

-- The storage in memory reads a trace or an error, takes every trace, and returns it for its id,
-- with no other trace changed.
pub memory_storage-IsStorage :
    (as_time : Option Timestamp → Time)
    (sort_slice : (Trace Span → Trace Span → Bool) → List (Trace Span) → List (Trace Span))
    → IsStorage (memory_storage as_time sort_slice)
unfolding memory_storage get_from_memory store_in_memory
memory_storage-IsStorage as_time sort_slice = record {
  reads = λ id s. found_or_not id (lookup id s.traces);
  takes = λ trace s. refl;
  returns = λ trace id s. get-store trace id s;
}
