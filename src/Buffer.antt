-- ===== src/Buffer.antt =====
-- The span buffer of pkg/reliability.go. The mutex makes each method one step, but for `Flush`,
-- which gives it up while it sends: what other goroutines add meanwhile is an argument. The file
-- span-buffer.json is on a disk, whose calls and encoding/json are arguments. The persist timer is
-- left out, since persisting may happen at any time.
pub mod Adding
pub mod Flushing
pub mod Losses
mod Tests
use dapper_distributed_traci.Prelude.{
  ℕ, String, Bool, true, false, Option, none, some, List, [], ◌∷◌, ◌++◌, map, if◌then◌else◌, length,
  eqb, take, drop, keep, not, Result, ok, err, panic, Error, nil_client, ◌>>=◌,
}
use dapper_distributed_traci.Prelude.Int.{ℤ, pos, negsuc, ltb_ℤ, leb_ℤ}
use dapper_distributed_traci.Table.{Table, insert, is_set}
use dapper_distributed_traci.Time.{Time}
use dapper_distributed_traci.Wire
use dapper_distributed_traci.Wire.{Timestamp}
use dapper_distributed_traci.Span.{Span, to_protos}
use dapper_distributed_traci.Files.{Read, missing, unreadable, content, FileSystem, temp_path}

pub record BufferConfig : Type 0 where
  pub size : ℤ

pub record SpanBuffer : Type 0 where
  pub spans : List Span
  pub config : BufferConfig
  pub dirty : Bool

-- `spans[1:]` panics on an empty slice.
drop_oldest : List Span → Result (List Span)
drop_oldest [] = panic
drop_oldest (_ ∷ rest) = ok rest

unfoldable pub add : Span → SpanBuffer → Result SpanBuffer
unfolding drop_oldest
add span b = do
  room ← if leb_ℤ b.config.size (pos (length b.spans)) then drop_oldest b.spans else ok b.spans
  ok (record b { spans = room ++ span ∷ []; dirty = true })

-- Several goroutines' calls of `Add`, one after another.
pub add_all : List Span → SpanBuffer → Result SpanBuffer
add_all [] b = ok b
add_all (span ∷ rest) b = add span b >>= add_all rest

unfoldable pub size : SpanBuffer → ℕ
size b = length b.spans

pub min_int : ℤ → ℤ → ℤ
min_int a b = if ltb_ℤ a b then a else b

-- `make([]*Span, count)` and `spans[:count]` panic below 0.
split_count : ℤ → Result ℕ
split_count (pos n) = ok n
split_count (negsuc n) = panic

-- The ids of a batch, as a set.
sent_ids : List Span → Table Bool → Table Bool
sent_ids [] m = m
sent_ids (span ∷ rest) m = sent_ids rest (insert span.span_id true m)

-- After the send: what the lock protects the second time.
pub remove_sent : ℕ → List Span → SpanBuffer → SpanBuffer
unfolding sent_ids
remove_sent count batch b = record b {
  spans =
      if leb_ℤ (pos count) (pos (length b.spans))
      then drop count b.spans
      else keep (λ span. not (is_set span.span_id (sent_ids batch []))) b.spans;
  dirty = true;
}

-- What a call of `Flush` leaves: the buffer, the batch that was sent, and the error.
pub record Flushed : Type 0 where
  pub buffer : SpanBuffer
  pub batch : List Span
  pub error : Option Error

-- The response to `ReplicateSpans` is read for its error alone.
pub settle_flush : Option Error → ℕ → List Span → SpanBuffer → Flushed
settle_flush (some e) count batch b = record { buffer = b; batch = batch; error = some e }
settle_flush none count batch b = record {
  buffer = remove_sent count batch b;
  batch = batch;
  error = none;
}

abbrev no_batch : Option Error → SpanBuffer → Flushed
no_batch e b = record { buffer = b; batch = []; error = e }

module _ (new_timestamp : Time → Timestamp) where
  -- From the batch on, for a buffer that is not empty.
  pub send_batch : ℤ → List Span → Option Error → SpanBuffer → Result Flushed
  unfolding min_int split_count
  send_batch batch_size meanwhile response b = do
    count ← split_count (min_int (pos (length b.spans)) batch_size)
    let batch = take count b.spans
    proto_spans ← to_protos new_timestamp batch
    b' ← add_all meanwhile b
    ok (settle_flush response count batch b')

  -- `client` is whether the client is not nil, `meanwhile` what is added while the batch is sent,
  -- and `response` the error of `ReplicateSpans`.
  pub flush : Bool → ℤ → List Span → Option Error → SpanBuffer → Result Flushed
  flush client batch_size meanwhile response b =
      if not client
      then ok (no_batch (some nil_client) b)
      else if eqb (length b.spans) 0
      then ok (no_batch none b)
      else send_batch batch_size meanwhile response b

-- `json.Marshal` and `json.Unmarshal` on the list of spans, which holds no null pointer: `Add` is
-- given spans, and the program writes the file.
pub record BufferJson : Type 0 where
  pub marshal : List Span → Option String
  pub unmarshal : String → Option (List Span)

-- A list that is read from the file takes the place of the buffer's.
load_spans : Option (List Span) → SpanBuffer → SpanBuffer
load_spans none b = b
load_spans (some spans) b = record b { spans = spans }

-- `buffer_path` is span-buffer.json in the log directory.
module _ {D : Type 0} (fs : FileSystem D) (json : BufferJson) (buffer_path : String) where
  -- The temporary file takes the place of the file. An error of either call is only printed.
  finalize : D × Bool → D
  finalize (d, true) = (fs.rename (temp_path buffer_path) buffer_path d).0
  finalize (d, false) = d

  write_buffer : Option String → D → D
  unfolding finalize
  write_buffer none d = d
  write_buffer (some text) d = finalize (fs.write_file (temp_path buffer_path) text d)

  -- An empty buffer writes nothing.
  pub persist_to_disk : SpanBuffer → D → D
  unfolding write_buffer
  persist_to_disk b d = elim (b.spans) [
    | [] ↦ d
    | first ∷ rest ↦ write_buffer (json.marshal b.spans) d
  ]

  load_file : Read → SpanBuffer → SpanBuffer
  unfolding load_spans
  load_file missing b = b
  load_file unreadable b = b
  load_file (content text) b = load_spans (json.unmarshal text) b

  pub load_from_disk : D → SpanBuffer → SpanBuffer
  unfolding load_file
  load_from_disk d b = load_file (fs.read_file buffer_path d) b

  -- A negative capacity panics.
  pub new_span_buffer : BufferConfig → D → Result SpanBuffer
  unfolding split_count load_from_disk
  new_span_buffer config d = do
    capacity ← split_count config.size
    ok (load_from_disk d (record { spans = []; config = config; dirty = false }))
