-- ===== src/Collector/Storing.antt =====
-- What the collector stores, over any storage that returns what it was given: spans are added to
-- their traces in the order in which they come.
use dapper_distributed_traci.Prelude.{
  false, ◌⊎◌, String, ◌≡◌, refl, ap, sym, ◌∙◌, inl, inr, Bool, true, Option, none, some, List, [],
  ◌∷◌, ◌++◌, arith, ◌==◌, eq_iff, if◌then◌else◌, Result, ok, err, panic, Error, keep, Bool-cases,
}
use mathlib.Core.List.{append-nil, append_assoc}
use dapper_distributed_traci.Prelude.Int.{next_int32}
use dapper_distributed_traci.Time.{Time}
use dapper_distributed_traci.Wire.{Timestamp, Span, Trace}
use dapper_distributed_traci.Storage.{StorageInterface}
use dapper_distributed_traci.Storage.Laws.{IsStorage, IsKeyed}
use dapper_distributed_traci.Collector.{
  Collector, new_trace, opened, with_span, stored, store_span, store_all, note_failure, answer,
  replicate_spans,
}

-- The spans of the trace that was read.
abbrev pub spans_in : Result (Trace Span) → List Span
spans_in (ok trace) = trace.spans
spans_in (err e) = []
spans_in panic = []

abbrev pub spans_at : {S : Type 0} → StorageInterface S → String → S → List Span
spans_at store id s = spans_in (store.get_trace id s)

new_trace_lem :
    (span : Span) → ((new_trace span).spans ≡ []) × ((new_trace span).trace_id ≡ span.trace_id)
unfolding new_trace
new_trace_lem span = elim (Bool-cases (span.parent_span_id == "")) [
  | inl root ↦ (rw root refl, rw root refl)
  | inr child ↦ (rw child refl, rw child refl)
]

keep_first {ℓ} :
    {A : Type ℓ} (p : A → Bool) (x : A) (xs : List A)
    → keep p (x ∷ []) ++ keep p xs ≡ keep p (x ∷ xs)
keep_first p x xs = elim (Bool-cases (p x)) [ inl hit ↦ rw hit refl | inr miss ↦ rw miss refl ]

module _ {S : Type 0} (store : StorageInterface S) (as_time : Option Timestamp → Time)
    (laws : IsStorage store) where
  pub opened_lem :
      (span : Span) (s : S)
      → IsKeyed store s
      → (trace : Trace Span) × (opened span (store.get_trace span.trace_id s) ≡ ok trace)
        × (trace.trace_id ≡ span.trace_id)
        × (trace.spans ≡ spans_in (store.get_trace span.trace_id s))
  unfolding opened
  opened_lem span s keyed = elim (laws.reads span.trace_id s) [
    | inl (trace, e) ↦ (trace, rw e refl, keyed span.trace_id trace e, rw e refl)
    | inr (x, e) ↦
        (new_trace span, rw e refl, (new_trace_lem span).1, (new_trace_lem span).0 ∙ rw e refl)
  ]

  stored_lem :
      (r : S × Option Error) (c : Collector S)
      → r.1 ≡ none
      → stored store as_time r c
        ≡ (record c { storage = r.0; traces_stored = next_int32 c.traces_stored }, none)
  unfolding stored
  stored_lem (s, none) c h = refl
  stored_lem (s, some e) c h = absurd (ground arith)

  -- A span that is stored: its trace is read, the span added, and the trace stored.
  pub store_span_lem :
      (span : Span) (c : Collector S)
      → IsKeyed store c.storage
      → (trace : Trace Span) × (c' : Collector S) × (opened span
            (store.get_trace span.trace_id c.storage)
          ≡ ok trace)
        × (trace.trace_id ≡ span.trace_id)
        × (trace.spans ≡ spans_in (store.get_trace span.trace_id c.storage))
        × (store_span store as_time (some span) c ≡ ok (c', none))
        × ((id : String)
            → store.get_trace id c'.storage ≡ (
                if span.trace_id == id
                then ok (with_span as_time span trace)
                else store.get_trace id c.storage))
        × (c'.traces_stored ≡ next_int32 c.traces_stored)
  unfolding store_span with_span
  store_span_lem span c keyed =
      let (trace, at, own, spans) = opened_lem span c.storage keyed in
      let r = store.store_trace (some (with_span as_time span trace)) c.storage in
      (
        trace,
        record c { storage = r.0; traces_stored = next_int32 c.traces_stored },
        at,
        own,
        spans,
        rw at (ap ok (stored_lem r c (laws.takes (with_span as_time span trace) c.storage))),
        λ id.
            laws.returns (with_span as_time span trace) id c.storage
            ∙ ap
                (λ k.
                  if k == id
                  then ok (with_span as_time span trace)
                  else store.get_trace id c.storage)
                own,
        refl,
      )

  pub step-IsKeyed :
      (span : Span) (trace : Trace Span) (s s' : S)
      → IsKeyed store s
      → trace.trace_id ≡ span.trace_id
      → ((id : String)
          → store.get_trace id s'
            ≡ (if span.trace_id == id then ok trace else store.get_trace id s))
      → IsKeyed store s'
  step-IsKeyed span trace s s' keyed own at id found e = elim (Bool-cases (span.trace_id == id)) [
    | inl same ↦
        let now : store.get_trace id s' ≡ ok trace = at id ∙ rw same refl in
        let this : span.trace_id ≡ id = (eq_iff span.trace_id id).0 same in cc
    | inr other ↦ keyed id found (sym (at id ∙ rw other refl) ∙ e)
  ]

  pub step-spans_at :
      (span : Span) (trace : Trace Span) (s s' : S) (id : String)
      → trace.spans ≡ spans_at store span.trace_id s ++ span ∷ []
      → store.get_trace id s' ≡ (if span.trace_id == id then ok trace else store.get_trace id s)
      → spans_at store id s' ≡ spans_at store id s ++ keep (λ x. x.trace_id == id) (span ∷ [])
  step-spans_at span trace s s' id grown at = elim (Bool-cases (span.trace_id == id)) [
    | inl same ↦
        let this : span.trace_id ≡ id = (eq_iff span.trace_id id).0 same in
        let now : store.get_trace id s' ≡ ok trace = at ∙ rw same refl in
        rw same (ap (λ r. spans_in r) now ∙ grown ∙ ap (λ k. spans_at store k s ++ span ∷ []) this)
    | inr other ↦
        let now : store.get_trace id s' ≡ store.get_trace id s = at ∙ rw other refl in
        rw other (ap (λ r. spans_in r) now ∙ sym (append-nil (spans_at store id s)))
  ]

  pub with_span-trace_id :
      (span : Span) (trace : Trace Span) → (with_span as_time span trace).trace_id ≡ trace.trace_id
  unfolding with_span
  with_span-trace_id span trace = refl

  pub store_all_lem :
      (spans : List Span) (failed : List String) (c : Collector S)
      → IsKeyed store c.storage
      → (c' : Collector S) × (store_all store as_time spans failed c ≡ ok (c', failed))
        × ((id : String)
            → spans_at store id c'.storage
              ≡ spans_at store id c.storage ++ keep (λ span. span.trace_id == id) spans)
        × IsKeyed store c'.storage
  unfolding store_all note_failure with_span
  store_all_lem [] failed c keyed =
      (c, refl, λ id. sym (append-nil (spans_at store id c.storage)), keyed)
  store_all_lem (span ∷ rest) failed c keyed =
      let (trace, c1, opens, own, grown, at, here, _) = store_span_lem span c keyed in
      let next = with_span as_time span trace in
      let keyed1 =
        step-IsKeyed span next c.storage c1.storage keyed (with_span-trace_id span trace ∙ own)
          here in
      let (c2, at2, all, keyed2) = store_all_lem rest failed c1 keyed1 in
      (
        c2,
        rw at at2,
        λ id.
            all id
            ∙ ap (λ l. l ++ keep (λ x. x.trace_id == id) rest)
                (step-spans_at span next c.storage c1.storage id (ap (λ l. l ++ span ∷ []) grown)
                  (here id))
            ∙ append_assoc (spans_at store id c.storage) (keep (λ x. x.trace_id == id) (span ∷ []))
                (keep (λ x. x.trace_id == id) rest)
            ∙ ap (λ l. spans_at store id c.storage ++ l)
                (keep_first (λ x. x.trace_id == id) span rest),
        keyed2,
      )

-- Over a storage that returns what it was given, and whose traces have the ids that they are found
-- under, `ReplicateSpans` from another collector adds to each trace the spans that name it, in their
-- order, whether the trace was there or not, and answers success. From the collector itself it
-- leaves the collector as it was.
pub replicate_spans_lem :
    {S : Type 0} (store : StorageInterface S) (as_time : Option Timestamp → Time)
    (collector_id : String) (spans : List Span) (c : Collector S)
    → IsStorage store
    → IsKeyed store c.storage
    → (c' : Collector S) × (replicate_spans store as_time collector_id spans c
        ≡ ok (c', record { success = true; failed_span_ids = [] }))
      × ((id : String)
          → spans_at store id c'.storage
            ≡ spans_at store id c.storage
              ++ (if collector_id == c.id then [] else keep (λ span. span.trace_id == id) spans))
      × IsKeyed store c'.storage
      × (((collector_id == c.id) ≡ false) ⊎ (c' ≡ c))
unfolding replicate_spans answer
replicate_spans_lem store as_time collector_id spans c laws keyed =
    elim (Bool-cases (collector_id == c.id)) [
      | inl same ↦ (
        c,
        rw same refl,
        λ id. rw same (sym (append-nil (spans_at store id c.storage))),
        keyed,
        inr refl,
      )
      | inr other ↦
          let (c', at, all, keyed') = store_all_lem store as_time laws spans [] c keyed in
          (c', rw (other, at) refl, λ id. rw other (all id), keyed', inl other)
    ]
