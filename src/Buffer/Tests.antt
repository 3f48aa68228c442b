-- ===== src/Buffer/Tests.antt =====
-- Runs of the span buffer, and the theorems on it, with buffers of three spans.
use dapper_distributed_traci.Prelude.{
  ◌⊎◌, ◌≤◌, ◌≡◌, refl, String, true, false, some, none, [], ◌∷◌, ◌++◌, map, All, arith, length,
  drop, ok, panic, ◌/◌, ◌%◌, ◌==◌, if◌then◌else◌,
}
use dapper_distributed_traci.Prelude.Int.{pos}
use dapper_distributed_traci.Time.{Time, second}
use dapper_distributed_traci.Wire.{Timestamp, status_ok}
use dapper_distributed_traci.Clock.{VectorClock}
use dapper_distributed_traci.Span.{Span}
use dapper_distributed_traci.Buffer.{
  BufferConfig, SpanBuffer, add, Flushed, flush, persist_to_disk, new_span_buffer, BufferJson,
}
use dapper_distributed_traci.Table.{Table, lookup, insert, delete}
use dapper_distributed_traci.Files.Texts.{texts, texts-FileLaws}
use dapper_distributed_traci.Buffer.Adding.{add_newest}
use dapper_distributed_traci.Buffer.Flushing.{HasClock, delivered, flush_exactly_once}
use dapper_distributed_traci.Buffer.Losses.{
  flush_drops_unsent, persist-restart, flush-restart, holding, spans_in, without_tracer,
}

abbrev timestamp : Time → Timestamp
timestamp t = record { seconds = pos (t / second); nanos = pos (t % second) }

abbrev clock : VectorClock
clock = record { timestamps = ("n", 1) ∷ [] }

abbrev span : String → Span
span id = record {
  span_id = id;
  trace_id = "t";
  parent_span_id = "";
  service_name = "s";
  operation_name = "o";
  start_time = 0;
  end_time = 0;
  annotations = [];
  status = status_ok;
  vector_clock = some clock;
  node_id = "n";
  has_tracer = true;
}

abbrev config : BufferConfig
config = record { size = pos 3 }

abbrev two : SpanBuffer
two = record { spans = span "a" ∷ span "b" ∷ []; config = config; dirty = true }

abbrev three : SpanBuffer
three = record two { spans = span "a" ∷ span "b" ∷ span "c" ∷ [] }

two_clocks : All HasClock two.spans
two_clocks = ((clock, refl), ((clock, refl), tt))

three_clocks : All HasClock three.spans
three_clocks = ((clock, refl), two_clocks)

add_full : add (span "d") three ≡ ok (record three { spans = span "b" ∷ span "c" ∷ span "d" ∷ [] })
unfolding add
add_full = refl

add_without_room :
    add (span "a") (record { spans = []; config = record { size = pos 0 }; dirty = false }) ≡ panic
unfolding add
add_without_room = refl

add_newest_example :
    (b' : SpanBuffer) × (add (span "d") three ≡ ok b')
    × (b'.spans ≡ drop 1 (three.spans ++ span "d" ∷ []))
    × (length b'.spans ≤ 3)
    × (b'.config ≡ config)
add_newest_example = add_newest (span "d") three 3 refl (omega arith) (omega arith)

flush_exactly_once_example :
    (r : Flushed) × (flush timestamp true (pos 1) (span "c" ∷ []) none two ≡ ok r)
    × (delivered none r.batch ++ r.buffer.spans ≡ two.spans ++ span "c" ∷ [])
    × (r.batch ≡ span "a" ∷ [])
    × (r.error ≡ none)
flush_exactly_once_example =
    flush_exactly_once timestamp 1 3 two (span "c" ∷ []) none refl (omega arith) (omega arith)
      two_clocks

flush_drops_unsent_example :
    (r : Flushed) × (flush timestamp true (pos 1) (span "d" ∷ []) none three ≡ ok r)
    × (r.batch ≡ span "a" ∷ [])
    × (r.buffer.spans ≡ span "c" ∷ span "d" ∷ [])
    × (r.error ≡ none)
flush_drops_unsent_example =
    flush_drops_unsent timestamp 1 3 three (span "d") refl refl (omega arith) three_clocks

-- What the two spans are in the file.
abbrev json : BufferJson
json = record {
  marshal = λ spans. some "[a, b]";
  unmarshal = λ text. if text == "[a, b]" then some (map without_tracer two.spans) else none;
}

abbrev path : String
path = "logs/span-buffer.json"

persist-restart_example :
    (new_span_buffer texts json path config (persist_to_disk texts json path two [])
      ≡ ok (holding config (map without_tracer two.spans)))
    × ((disk : Table String)
        → new_span_buffer texts json path config disk
          ≡ ok (holding config (spans_in json (texts.read_file path disk))))
    × ((disk : Table String)
        → let w = texts.write_file "logs/span-buffer.json.tmp" "[a, b]" disk in
          (w.1 ≡ true) ⊎ (persist_to_disk texts json path two disk ≡ w.0))
unfolding lookup insert delete
persist-restart_example =
    persist-restart texts json path two 3 "[a, b]" [] texts-FileLaws refl (omega arith) refl refl
      (refl, refl)

flush-restart_example :
    let persisted = persist_to_disk texts json path two [] in
    (r : Flushed) × (b' : SpanBuffer) × (flush timestamp true (pos 50) [] none two ≡ ok r)
    × (r.batch ≡ two.spans)
    × (persist_to_disk texts json path r.buffer persisted ≡ persisted)
    × (new_span_buffer texts json path config (persist_to_disk texts json path r.buffer persisted)
        ≡ ok b')
    × (b'.spans ≡ map without_tracer two.spans)
unfolding lookup insert delete
flush-restart_example =
    flush-restart texts json path timestamp 50 3 two "[a, b]" [] texts-FileLaws refl (omega arith)
      (omega arith) (omega arith) two_clocks refl refl (refl, refl)
