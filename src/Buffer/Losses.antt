-- ===== src/Buffer/Losses.antt =====
-- Where `Flush` and the file of the buffer lose spans or send them twice.
use dapper_distributed_traci.Prelude.{
  ◌⊎◌, inl, inr, ◌>>=◌, String, ℕ, zero, suc, ◌+◌, ◌-◌, ◌≤◌, ◌<◌, ◌≡◌, ◌∙◌, refl, ap, sym, Bool,
  true, false, Option, none, some, List, [], ◌∷◌, ◌++◌, map, arith, length, drop, take, All,
  length-append, length-drop, ok,
}
use mathlib.Core.List.{append-nil}
use dapper_distributed_traci.Prelude.Int.{pos}
use dapper_distributed_traci.Time.{Time}
use dapper_distributed_traci.Wire.{Timestamp}
use dapper_distributed_traci.Span.{Span}
use dapper_distributed_traci.Buffer.{
  BufferConfig, BufferJson, SpanBuffer, add_all, Flushed, flush, settle_flush, persist_to_disk,
  load_from_disk, load_file, load_spans, write_buffer, finalize, new_span_buffer, split_count,
}
use dapper_distributed_traci.Files.{Read, missing, unreadable, content, FileSystem, temp_path}
use dapper_distributed_traci.Files.Storing.{FileLaws}
use dapper_distributed_traci.Buffer.Adding.{add_newest, drop_snoc}
use dapper_distributed_traci.Buffer.Flushing.{
  HasClock, flush_lem, flush_exactly_once, take_all, count_of, remove_sent_lem,
}

drop_none {ℓ} : {A : Type ℓ} (m : ℕ) → drop {A = A} m [] ≡ []
drop_none zero = refl
drop_none (suc m) = refl

drop_tail {ℓ} : {A : Type ℓ} (m : ℕ) (xs : List A) → drop m (drop 1 xs) ≡ drop (m + 1) xs
drop_tail m [] = drop_none m ∙ sym (drop_none (m + 1))
drop_tail m (x ∷ xs) = let e : suc m ≡ m + 1 = omega arith in ap (λ k. drop k (x ∷ xs)) e

-- From a full buffer with more than c spans, whose spans have clocks, `Flush` with a batch size of
-- c sends the first c spans. If one span is added while the batch is sent, and the send succeeds,
-- the buffer is left without the first c + 1 of the old spans: the span at index c is neither
-- sent nor kept.
pub flush_drops_unsent :
    (nt : Time → Timestamp) (c n : ℕ) (b : SpanBuffer) (span : Span)
    → b.config.size ≡ pos n
    → length b.spans ≡ n
    → c < n
    → All HasClock b.spans
    → (r : Flushed) × (flush nt true (pos c) (span ∷ []) none b ≡ ok r)
      × (r.batch ≡ take c b.spans)
      × (r.buffer.spans ≡ drop (c + 1) b.spans ++ span ∷ [])
      × (r.error ≡ none)
unfolding add_all settle_flush
flush_drops_unsent nt c n b span s full more clocks =
    let (b', added, spans', _, _) = add_newest span b n s (omega arith) (omega arith) in
    let count : count_of (length b.spans) c ≡ c = ground arith in
    let one : length b.spans + 1 - n ≡ 1 = omega arith in
    let kept : b'.spans ≡ drop 1 b.spans ++ span ∷ [] =
      spans'
      ∙ ap (λ k. drop k (b.spans ++ span ∷ [])) one
      ∙ drop_snoc 1 b.spans span (omega arith) in
    let l : length b'.spans ≡ length b.spans =
      ap (λ xs. length xs) kept
      ∙ length-append {0} (drop 1 b.spans) (span ∷ [])
      ∙ omega (arith, length-drop {0} 1 b.spans) in
    let gone = remove_sent_lem c (take c b.spans) b' (omega arith) in
    (
      settle_flush none c (take c b.spans) b',
      flush_lem nt c b b' (span ∷ []) none (omega arith) clocks (rw added refl)
          ∙ ap (λ k. ok (settle_flush none k (take k b.spans) b')) count,
      refl,
      gone
          ∙ ap (λ xs. drop c xs) kept
          ∙ drop_snoc c (drop 1 b.spans) span (omega (arith, length-drop {0} 1 b.spans))
          ∙ ap (λ xs. xs ++ span ∷ []) (drop_tail c b.spans),
      refl,
    )

same_front {ℓ} : {A : Type ℓ} (xs ys : List A) → xs ++ ys ≡ xs → ys ≡ []
same_front xs [] e = refl
same_front xs (y ∷ ys) e = absurd (omega (arith, ap (λ l. length l) e, length-append xs (y ∷ ys)))

-- What JSON keeps of a span: the pointer to the tracer is no exported field.
abbrev pub without_tracer : Span → Span
without_tracer span = record span { has_tracer = false }

abbrev pub or_nothing {ℓ} : {A : Type ℓ} → Option (List A) → List A
or_nothing none = []
or_nothing (some xs) = xs

-- The spans in a file: none where it is missing, cannot be read, or is not JSON of spans.
abbrev pub spans_in : BufferJson → Read → List Span
spans_in json missing = []
spans_in json unreadable = []
spans_in json (content text) = or_nothing (json.unmarshal text)

-- A new buffer that holds the spans.
abbrev pub holding : BufferConfig → List Span → SpanBuffer
holding config spans = record { spans = spans; config = config; dirty = false }

load_spans_lem :
    (o : Option (List Span)) (config : BufferConfig)
    → load_spans o (holding config []) ≡ holding config (or_nothing o)
unfolding load_spans
load_spans_lem none config = refl
load_spans_lem (some spans) config = refl

persist-empty :
    {D : Type 0} (fs : FileSystem D) (json : BufferJson) (path : String) (b : SpanBuffer) (d : D)
    → b.spans ≡ []
    → persist_to_disk fs json path b d ≡ d
unfolding persist_to_disk
persist-empty fs json path b d e = rw e refl

-- The calls that write the text report no error.
abbrev pub IsWritten : {D : Type 0} → FileSystem D → String → String → D → Type 0
IsWritten fs path text d =
    let w = fs.write_file (temp_path path) text d in
    (w.1 ≡ true) × ((fs.rename (temp_path path) path w.0).1 ≡ true)

module _ {D : Type 0} (fs : FileSystem D) (json : BufferJson) (path : String) where
  load_file_lem :
      (r : Read) (config : BufferConfig)
      → load_file fs json path r (holding config []) ≡ holding config (spans_in json r)
  unfolding load_file
  load_file_lem missing config = refl
  load_file_lem unreadable config = refl
  load_file_lem (content text) config = load_spans_lem (json.unmarshal text) config

  new_span_buffer_lem :
      (config : BufferConfig) (n : ℕ) (d : D)
      → config.size ≡ pos n
      → new_span_buffer fs json path config d
        ≡ ok (holding config (spans_in json (fs.read_file path d)))
  unfolding new_span_buffer split_count load_from_disk
  new_span_buffer_lem config n d s =
      ap
        (λ size.
          split_count size
          >>= (λ capacity. ok (load_file fs json path (fs.read_file path d) (holding config []))))
        s
      ∙ ap (λ b. ok b) (load_file_lem (fs.read_file path d) config)

  finalize_lem :
      (w : D × Bool)
      → w.1 ≡ true
      → finalize fs json path w ≡ (fs.rename (temp_path path) path w.0).0
  unfolding finalize
  finalize_lem (d, true) h = refl
  finalize_lem (d, false) h = absurd (cc)

  finalize_failed : (w : D × Bool) → (w.1 ≡ true) ⊎ (finalize fs json path w ≡ w.0)
  unfolding finalize
  finalize_failed (d, true) = inl refl
  finalize_failed (d, false) = inr refl

  persist-marshal :
      (xs : List Span) (b : SpanBuffer) (text : String) (d : D)
      → b.spans ≡ xs
      → 1 ≤ length xs
      → json.marshal xs ≡ some text
      → persist_to_disk fs json path b d
        ≡ finalize fs json path (fs.write_file (temp_path path) text d)
  unfolding persist_to_disk write_buffer
  persist-marshal [] b text d e h m = absurd (omega arith)
  persist-marshal (x ∷ xs) b text d e h m = rw (e, m) refl

  read-persist :
      FileLaws fs
      → (b : SpanBuffer) (text : String) (d : D) → 1 ≤ length b.spans
      → json.marshal b.spans ≡ some text
      → IsWritten fs path text d
      → fs.read_file path (persist_to_disk fs json path b d) ≡ content text
  read-persist laws b text d some_left m (fine, moved) =
      let w = fs.write_file (temp_path path) text d in
      ap (λ x. fs.read_file path x)
        (persist-marshal b.spans b text d refl some_left m ∙ finalize_lem w fine)
      ∙ laws.read-rename (temp_path path) path w.0 moved
      ∙ laws.read-write_file (temp_path path) text d fine

-- Over a file system that does what it reports, where writing reports no error, and encoding/json
-- makes a text of the buffer's spans and brings these back from it, each without its tracer: a
-- buffer that is not empty, once it is written to the file, is read back by a new buffer of the same
-- size, which is not negative, the same spans in the same order. Of any disk, a new buffer holds
-- the spans in the file, or none where it is missing, cannot be read, or is not JSON of spans. On any
-- disk where writing the temporary file reports an error, nothing is renamed.
pub persist-restart :
    {D : Type 0} (fs : FileSystem D) (json : BufferJson) (path : String) (b : SpanBuffer) (n : ℕ)
    (text : String) (d : D)
    → FileLaws fs
    → b.config.size ≡ pos n
    → 1 ≤ length b.spans
    → json.marshal b.spans ≡ some text
    → json.unmarshal text ≡ some (map without_tracer b.spans)
    → IsWritten fs path text d
    → (new_span_buffer fs json path b.config (persist_to_disk fs json path b d)
        ≡ ok (holding b.config (map without_tracer b.spans)))
      × ((disk : D)
          → new_span_buffer fs json path b.config disk
            ≡ ok (holding b.config (spans_in json (fs.read_file path disk))))
      × ((disk : D)
          → let w = fs.write_file (temp_path path) text disk in
            (w.1 ≡ true) ⊎ (persist_to_disk fs json path b disk ≡ w.0))
persist-restart fs json path b n text d laws s some_left m u fine = (
  new_span_buffer_lem fs json path b.config n (persist_to_disk fs json path b d) s
      ∙ ap (λ r. ok (holding b.config (spans_in json r)))
          (read-persist fs json path laws b text d some_left m fine)
      ∙ ap (λ o. ok (holding b.config (or_nothing o))) u,
  λ disk. new_span_buffer_lem fs json path b.config n disk s,
  λ disk.
      rw (persist-marshal fs json path b.spans b text disk refl some_left m)
        (finalize_failed fs json path (fs.write_file (temp_path path) text disk)),
)

-- Over a file system that does what it reports, where writing reports no error, and encoding/json
-- makes a text of the buffer's spans and brings these back from it, each without its tracer: of a
-- buffer that is not empty and that was written to the file, whose spans have clocks, `Flush` with
-- a batch size of at least their number sends all spans if the send succeeds. Writing the buffer
-- then, as `Flush` does, leaves the file as it was, so that a new buffer of the same size holds all
-- the spans that were sent.
pub flush-restart :
    {D : Type 0} (fs : FileSystem D) (json : BufferJson) (path : String) (nt : Time → Timestamp)
    (c n : ℕ) (b : SpanBuffer) (text : String) (d : D)
    → FileLaws fs
    → b.config.size ≡ pos n
    → 1 ≤ length b.spans
    → length b.spans ≤ n
    → length b.spans ≤ c
    → All HasClock b.spans
    → json.marshal b.spans ≡ some text
    → json.unmarshal text ≡ some (map without_tracer b.spans)
    → IsWritten fs path text d
    → let persisted = persist_to_disk fs json path b d in
      (r : Flushed) × (b' : SpanBuffer) × (flush nt true (pos c) [] none b ≡ ok r)
      × (r.batch ≡ b.spans)
      × (persist_to_disk fs json path r.buffer persisted ≡ persisted)
      × (new_span_buffer fs json path b.config (persist_to_disk fs json path r.buffer persisted)
          ≡ ok b')
      × (b'.spans ≡ map without_tracer b.spans)
flush-restart fs json path nt c n b text d laws s some_left room all clocks m u fine =
    let persisted = persist_to_disk fs json path b d in
    let (r, at, whole, batch, _) =
      flush_exactly_once nt c n b [] none s some_left (omega arith) clocks in
    let (back, _, _) = persist-restart fs json path b n text d laws s some_left m u fine in
    let sent : r.batch ≡ b.spans = batch ∙ take_all c b.spans all in
    let none_left : r.buffer.spans ≡ [] =
      same_front b.spans r.buffer.spans
        (ap (λ xs. xs ++ r.buffer.spans) (sym sent) ∙ whole ∙ append-nil b.spans) in
    let kept = persist-empty fs json path r.buffer persisted none_left in
    (
      r,
      holding b.config (map without_tracer b.spans),
      at,
      sent,
      kept,
      ap (λ x. new_span_buffer fs json path b.config x) kept ∙ back,
      refl,
    )
