-- ===== src/Buffer/Flushing.antt =====
-- What `Flush` sends and what it leaves, with and without spans that are added while it sends; and
-- what a restart finds in the file.
use dapper_distributed_traci.Prelude.{
  ℕ, zero, suc, ◌+◌, ◌≤◌, ◌≡◌, ◌∙◌, refl, ap, sym, true, false, Option, none, some, List, [], ◌∷◌,
  ◌++◌, arith, length, drop, take, All, take-append-drop, length-append, length-take, ok,
  if◌then◌else◌, ltb, eqb, Bool-cases, inl, inr, Error,
}
use mathlib.Core.List.{append_assoc}
use dapper_distributed_traci.Prelude.Int.{pos, leb_ℤ}
use dapper_distributed_traci.Time.{Time}
use dapper_distributed_traci.Wire
use dapper_distributed_traci.Wire.{Timestamp}
use dapper_distributed_traci.Clock
use dapper_distributed_traci.Clock.{VectorClock}
use dapper_distributed_traci.Span.{Span, message, to_proto, to_protos}
use dapper_distributed_traci.Buffer.{
  SpanBuffer, add_all, Flushed, flush, send_batch, remove_sent, settle_flush, min_int, split_count,
}
use dapper_distributed_traci.Buffer.Adding.{add_all_room}

abbrev pub HasClock : Span → Type 0
HasClock s = (vc : VectorClock) × (s.vector_clock ≡ some vc)

module _ (nt : Time → Timestamp) where
  to_proto_total : (s : Span) → HasClock s → (p : Wire.Span) × (to_proto nt s ≡ ok p)
  unfolding to_proto
  to_proto_total s h = (message nt s (Clock.to_proto h.0), rw (h.1) refl)

  pub to_protos_total :
      (spans : List Span)
      → All HasClock spans
      → (ps : List Wire.Span) × (to_protos nt spans ≡ ok ps)
  unfolding to_protos
  to_protos_total [] h = ([], refl)
  to_protos_total (s ∷ rest) h =
      let (p, e) = to_proto_total s h.0 in
      let (ps, es) = to_protos_total rest h.1 in (p ∷ ps, rw (e, es) refl)

All-take {ℓ κ} : {A : Type ℓ} (P : A → Type κ) (n : ℕ) (xs : List A) → All P xs → All P (take n xs)
All-take P zero xs h = tt
All-take P (suc n) [] h = tt
All-take P (suc n) (x ∷ xs) h = (h.0, All-take P n xs h.1)

pub take_all {ℓ} : {A : Type ℓ} (n : ℕ) (xs : List A) → length xs ≤ n → take n xs ≡ xs
take_all zero [] h = refl
take_all zero (x ∷ xs) h = absurd (omega arith)
take_all (suc n) [] h = refl
take_all (suc n) (x ∷ xs) h = ap (λ l. x ∷ l) (take_all n xs (omega arith))

-- What has left the buffer for good: the batch, where the send succeeded.
abbrev pub delivered : Option Error → List Span → List Span
delivered none batch = batch
delivered (some e) batch = []

length-take_le {ℓ} : {A : Type ℓ} (n : ℕ) (xs : List A) → length (take n xs) ≤ length xs
length-take_le n xs = omega (arith, length-take n xs)

-- The number of spans in a batch.
abbrev pub count_of : ℕ → ℕ → ℕ
count_of l c = if ltb l c then l else c

split_count_min : (l c : ℕ) → split_count (min_int (pos l) (pos c)) ≡ ok (count_of l c)
unfolding split_count min_int
split_count_min l c = ground arith

pub take-count_of {ℓ} :
    {A : Type ℓ} (c : ℕ) (xs : List A) → take (count_of (length xs) c) xs ≡ take c xs
take-count_of c xs = elim (Bool-cases (ltb (length xs) c)) [
  | inl low ↦ rw low (take_all (length xs) xs (omega arith) ∙ sym (take_all c xs (ground arith)))
  | inr high ↦ rw high refl
]

module _ (nt : Time → Timestamp) where
  -- The steps of `Flush` on a buffer that is not empty.
  pub flush_lem :
      (c : ℕ) (b b' : SpanBuffer) (new : List Span) (response : Option Error)
      → 1 ≤ length b.spans
      → All HasClock b.spans
      → add_all new b ≡ ok b'
      → flush nt true (pos c) new response b
        ≡ ok (
            settle_flush response
              (count_of (length b.spans) c)
              (take (count_of (length b.spans) c) b.spans)
              b')
  unfolding flush send_batch
  flush_lem c b b' new response n clocks added =
      let some_left : eqb (length b.spans) 0 ≡ false = ground arith in
      let (ps, sent) =
        to_protos_total nt (take (count_of (length b.spans) c) b.spans)
          (All-take HasClock (count_of (length b.spans) c) b.spans clocks) in
      rw (some_left, split_count_min (length b.spans) c, sent, added) refl

pub remove_sent_lem :
    (count : ℕ) (batch : List Span) (b : SpanBuffer)
    → count ≤ length b.spans
    → (remove_sent count batch b).spans ≡ drop count b.spans
unfolding remove_sent
remove_sent_lem count batch b h =
    let fits : leb_ℤ (pos count) (pos (length b.spans)) ≡ true = ground arith in rw fits refl

drop-append {ℓ} :
    {A : Type ℓ} (n : ℕ) (xs ys : List A) → n ≤ length xs → drop n (xs ++ ys) ≡ drop n xs ++ ys
drop-append zero xs ys h = refl
drop-append (suc n) [] ys h = absurd (omega arith)
drop-append (suc n) (x ∷ xs) ys h = drop-append n xs ys (omega arith)

-- The first spans, and what is left once they are gone, are all of the spans.
left_behind :
    (count : ℕ) (b b' : SpanBuffer) (new : List Span)
    → count ≤ length b.spans
    → b'.spans ≡ b.spans ++ new
    → take count b.spans ++ (remove_sent count (take count b.spans) b').spans ≡ b.spans ++ new
left_behind count b b' new h e =
    let l : length b'.spans ≡ length b.spans + length new =
      ap (λ xs. length xs) e ∙ length-append b.spans new in
    let gone = remove_sent_lem count (take count b.spans) b' (omega arith) in
    let split : drop count b'.spans ≡ drop count b.spans ++ new =
      ap (λ xs. drop count xs) e ∙ drop-append count b.spans new h in
    ap (λ xs. take count b.spans ++ xs) (gone ∙ split)
    ∙ sym (append_assoc (take count b.spans) (drop count b.spans) new)
    ∙ ap (λ xs. xs ++ new) (take-append-drop count b.spans)

pub count_of_le : (l c : ℕ) → count_of l c ≤ l
count_of_le l c = ground arith

settle_lem :
    (response : Option Error) (count : ℕ) (b b' : SpanBuffer) (new : List Span)
    → count ≤ length b.spans
    → b'.spans ≡ b.spans ++ new
    → let r = settle_flush response count (take count b.spans) b' in
      (delivered response r.batch ++ r.buffer.spans ≡ b.spans ++ new)
      × (r.batch ≡ take count b.spans)
      × (r.error ≡ response)
unfolding settle_flush
settle_lem none count b b' new h e = (left_behind count b b' new h e, refl, refl)
settle_lem (some x) count b b' new h e = (e, refl, refl)

-- Of a buffer that is not empty, with room for the spans that are added while the batch is sent,
-- and whose spans have clocks, `Flush` with a batch size of c sends the first c spans, or all. If
-- the send succeeds, the batch and what is left make up the old spans and the added ones, in
-- order; if it fails, all of these are left. It returns the error of the send.
pub flush_exactly_once :
    (nt : Time → Timestamp) (c n : ℕ) (b : SpanBuffer) (new : List Span) (response : Option Error)
    → b.config.size ≡ pos n
    → 1 ≤ length b.spans
    → length b.spans + length new ≤ n
    → All HasClock b.spans
    → (r : Flushed) × (flush nt true (pos c) new response b ≡ ok r)
      × (delivered response r.batch ++ r.buffer.spans ≡ b.spans ++ new)
      × (r.batch ≡ take c b.spans)
      × (r.error ≡ response)
flush_exactly_once nt c n b new response s some_left room clocks =
    let (b', added, spans') = add_all_room new b n s (omega arith) room in
    let count = count_of (length b.spans) c in
    let (whole, batch, error) =
      settle_lem response count b b' new (count_of_le (length b.spans) c) spans' in
    (
      settle_flush response count (take count b.spans) b',
      flush_lem nt c b b' new response some_left clocks added,
      whole,
      batch ∙ take-count_of c b.spans,
      error,
    )
