-- ===== src/Tracer/Outage.antt =====
-- The tracer once its circuit breaker is open.
use dapper_distributed_traci.Prelude.{
  ◌≡◌, refl, ap, sym, ◌∙◌, Bool, true, false, not, ◌||◌, ◌&&◌, Option, List, arith, Result, ok, err,
  panic, Error, ◌>>=◌, Bool-cases, inl, inr,
}
use dapper_distributed_traci.Time.{Time}
use dapper_distributed_traci.Wire.{Timestamp}
use dapper_distributed_traci.Breaker.{is_open}
use dapper_distributed_traci.Span.{Span}
use dapper_distributed_traci.Buffer.{SpanBuffer, add}
use dapper_distributed_traci.Tracer.{
  Tracer, is_dropped, try_submit_span, buffered, finish_span, flush_turn, worker_turn,
}

-- What goes on in a tracer between its start and `Close`: a span is finished, or the worker has
-- a turn.
pub data Step (nt : Time → Timestamp) : Tracer → Tracer → Type 0 where
  finishes :
      (now later : Time) (response : Option Error) (span : Span) {t t' : Tracer}
      → finish_span nt now later response span t ≡ ok t'
      → Step nt t t'
  turns :
      (connects : Bool) (meanwhile : List Span) (response : Option Error) {t t' : Tracer}
      → worker_turn nt connects meanwhile response t ≡ ok t'
      → Step nt t t'

pub data Steps (nt : Time → Timestamp) : Tracer → Tracer → Type 0 where
  stay : {t : Tracer} → Steps nt t t
  next : {t t' t'' : Tracer} → Step nt t t' → Steps nt t' t'' → Steps nt t t''

-- A `do` step that yields a value had one to go on with.
ok-inj {ℓ} : {A : Type ℓ} {x y : A} → ok x ≡ ok y → x ≡ y
ok-inj h = cc

or_true : (b c : Bool) → c ≡ true → b || c ≡ true
or_true b c h = ground arith

and_not-true : (b c : Bool) → c ≡ true → b && not c ≡ false
and_not-true b c h = ground arith

module _ (nt : Time → Timestamp) where
  with_buffer :
      (r : Result SpanBuffer) (t t' : Tracer)
      → (r >>= λ buffer. ok (record t { buffer = buffer })) ≡ ok t'
      → t'.cb ≡ t.cb
  with_buffer (ok b) t t' h =
      let whole : record t { buffer = b } ≡ t' = ok-inj h in ap (λ x. x.cb) (sym whole)
  with_buffer (err e) t t' h = absurd (ground arith)
  with_buffer panic t t' h = absurd (ground arith)

  -- A finished span goes to the buffer, whatever the collector would answer.
  finish-is_open :
      (now later : Time) (response : Option Error) (span : Span) (t : Tracer)
      → is_open t.cb ≡ true
      → is_dropped span ≡ false
      → finish_span nt now later response span t
        ≡ (add span t.buffer >>= λ buffer. ok (record t { buffer = buffer }))
  unfolding finish_span try_submit_span buffered
  finish-is_open now later response span t opened kept =
      rw (kept, or_true (not t.has_client) (is_open t.cb) opened) refl

  finish_keeps_cb :
      (now later : Time) (response : Option Error) (span : Span) (t t' : Tracer)
      → is_open t.cb ≡ true
      → finish_span nt now later response span t ≡ ok t'
      → t'.cb ≡ t.cb
  unfolding finish_span
  finish_keeps_cb now later response span t t' opened e = elim (Bool-cases (is_dropped span)) [
    | inl dropped ↦
        let same : finish_span nt now later response span t ≡ ok t = rw dropped refl in
        let whole : t ≡ t' = ok-inj (sym same ∙ e) in ap (λ x. x.cb) (sym whole)
    | inr kept ↦
        with_buffer (add span t.buffer) t t'
          (sym (finish-is_open now later response span t opened kept) ∙ e)
  ]

  -- The worker sends nothing, and leaves the breaker and the buffer as they are.
  turn-is_open :
      (connects : Bool) (meanwhile : List Span) (response : Option Error) (t : Tracer)
      → is_open t.cb ≡ true
      → (t' : Tracer) × (worker_turn nt connects meanwhile response t ≡ ok t')
        × (t'.cb ≡ t.cb)
        × (t'.buffer ≡ t.buffer)
  unfolding worker_turn flush_turn
  turn-is_open connects meanwhile response t opened = elim (Bool-cases t.has_client) [
    | inl there ↦ (t, rw (there, opened) refl, refl, refl)
    | inr gone ↦ elim (Bool-cases connects) [
      | inl yet ↦ (record t { has_client = true }, rw (gone, yet, opened) refl, refl, refl)
      | inr not_yet ↦ (t, rw (gone, not_yet) refl, refl, refl)
    ]
  ]

  Step-keeps_cb : (t t' : Tracer) → is_open t.cb ≡ true → Step nt t t' → t'.cb ≡ t.cb
  Step-keeps_cb t t' opened (finishes now later response span e) =
      finish_keeps_cb now later response span t t' opened e
  Step-keeps_cb t t' opened (turns connects meanwhile response e) =
      let (u, at, same, _) = turn-is_open connects meanwhile response t opened in
      let whole : u ≡ t' = ok-inj (sym at ∙ e) in ap (λ x. x.cb) (sym whole) ∙ same

-- Once the breaker of a tracer is open, it stays as it is, open, for good: no sequence of finished
-- spans and turns of the worker changes it, whatever the times and the answers of the collector.
pub Steps-stay_open :
    (nt : Time → Timestamp) (t t' : Tracer)
    → is_open t.cb ≡ true
    → Steps nt t t'
    → (t'.cb ≡ t.cb) × (is_open t'.cb ≡ true)
Steps-stay_open nt t t' opened stay = (refl, opened)
Steps-stay_open nt t t' opened (next {t' = u} first rest) =
    let same = Step-keeps_cb nt t u opened first in
    let (kept, still) = Steps-stay_open nt u t' (ap (λ cb. is_open cb) same ∙ opened) rest in
    (kept ∙ same, still)
