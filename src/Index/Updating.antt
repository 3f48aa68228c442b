-- ===== src/Index/Updating.antt =====
-- The index after a trace was stored.
use dapper_distributed_traci.Prelude.{
  String, ◌≡◌, refl, Option, none, some, List, [], ◌∷◌, arith, ◌==◌, eq_iff, if◌then◌else◌,
}
use dapper_distributed_traci.Time.{Time}
use dapper_distributed_traci.Wire.{Timestamp, Span, Trace}
use dapper_distributed_traci.Index.{TraceIndexEntry, put_entry, entry_of, update_trace_index}

-- The first entry of a trace.
abbrev pub entry_at : String → List TraceIndexEntry → Option TraceIndexEntry
entry_at id [] = none
entry_at id (e ∷ rest) = if e.trace_id == id then some e else entry_at id rest

entry_at-put_entry :
    (id : String) (entry : TraceIndexEntry) (index : List TraceIndexEntry)
    → entry_at id (put_entry entry index)
      ≡ (if entry.trace_id == id then some entry else entry_at id index)
unfolding put_entry
entry_at-put_entry id entry [] = refl
entry_at-put_entry id entry (e ∷ rest) = ground (
  arith,
  eq_iff entry.trace_id id,
  eq_iff e.trace_id id,
  eq_iff e.trace_id entry.trace_id,
  entry_at-put_entry id entry rest,
)

-- After a trace was stored, the index has the trace's own entry for its id, whether there was one
-- before or not, and for every other id the entry that it had, or none.
pub update_trace_index_lem :
    (as_time : Option Timestamp → Time) (trace : Trace Span) (index : List TraceIndexEntry)
    (id : String)
    → entry_at id (update_trace_index as_time trace index)
      ≡ (if trace.trace_id == id then some (entry_of as_time trace) else entry_at id index)
unfolding update_trace_index entry_of
update_trace_index_lem as_time trace index id = entry_at-put_entry id (entry_of as_time trace) index
