-- ===== src/Analysis/Latency/Measuring.antt =====
-- What `AnalyzeLatency` counts and measures for one operation.
use dapper_distributed_traci.Prelude.{
  ℕ, ◌+◌, ◌≤◌, Bool, true, false, String, ◌==◌, eq_iff, ◌≡◌, refl, ap, sym, ◌∙◌, Option, none, some,
  List, [], ◌∷◌, length, ◌⊎◌, inl, inr, arith, Bool-cases,
}
use dapper_distributed_traci.Prelude.Int.{ℤ, pos, ltb_ℤ, ◌≤ℤ◌, max_int}
use dapper_distributed_traci.Table.{Table, lookup}
use dapper_distributed_traci.Table.Laws.{lookup-insert}
use dapper_distributed_traci.Time.{Time}
use dapper_distributed_traci.Wire.{Timestamp, Span}
use dapper_distributed_traci.Analysis.{Floats, latency_ms, operation_key}
use dapper_distributed_traci.Analysis.Latency.{
  LatencyInfo, or_new_info, measure, record_call, group_calls,
}

abbrev key_of : Span → String
key_of span = operation_key span.service_name span.operation_name

abbrev add_call : Bool → Option ℤ → Span → List (ℤ × Span) → List (ℤ × Span)
add_call false latency span rest = rest
add_call true none span rest = rest
add_call true (some latency) span rest = (latency, span) ∷ rest

-- The timed spans of a key, with their latencies.
abbrev pub calls_of : (Timestamp → Time) → String → List Span → List (ℤ × Span)
calls_of as_time key [] = []
calls_of as_time key (span ∷ rest) =
    add_call (key_of span == key) (latency_ms as_time span) span (calls_of as_time key rest)

-- One of the latencies.
abbrev pub IsOne : ℤ → List (ℤ × Span) → Type 0
IsOne l [] = ⊥
IsOne l ((latency, span) ∷ rest) = (latency ≡ l) ⊎ IsOne l rest

module _ {F : Type 0} (floats : Floats F) where
  abbrev pub measure_all : List (ℤ × Span) → Option (LatencyInfo F) → Option (LatencyInfo F)
  measure_all [] o = o
  measure_all ((latency, span) ∷ rest) o =
      measure_all rest (some (measure floats latency span (or_new_info floats span o)))

  lookup-record_call :
      (latency : Option ℤ) (span : Span) (key : String) (infos : Table (LatencyInfo F))
      (rest : List (ℤ × Span))
      → measure_all rest (lookup key (record_call floats latency span infos))
        ≡ measure_all (add_call (key_of span == key) latency span rest) (lookup key infos)
  unfolding record_call
  lookup-record_call none span key infos rest = elim (Bool-cases (key_of span == key)) [
    | inl same ↦ rw same refl
    | inr other ↦ rw other refl
  ]
  lookup-record_call (some l) span key infos rest =
      let new = measure floats l span (or_new_info floats span (lookup (key_of span) infos)) in
      let read = lookup-insert (key_of span) key new infos in
      elim (Bool-cases (key_of span == key)) [
        | inl same ↦
            let named : key_of span ≡ key = (eq_iff (key_of span) key).0 same in
            let there : lookup (key_of span) infos ≡ lookup key infos =
              ap (λ k. lookup k infos) named in
            rw (read, same, there) refl
        | inr other ↦ rw (read, other) refl
      ]

  -- The entry of each key is that of its calls, in order.
  pub group_calls-measure_all :
      (as_time : Timestamp → Time) (key : String) (spans : List Span)
      (infos : Table (LatencyInfo F))
      → lookup key (group_calls floats as_time spans infos)
        ≡ measure_all (calls_of as_time key spans) (lookup key infos)
  unfolding group_calls
  group_calls-measure_all as_time key [] infos = refl
  group_calls-measure_all as_time key (span ∷ rest) infos =
      group_calls-measure_all as_time key rest
        (record_call floats (latency_ms as_time span) span infos)
      ∙ lookup-record_call (latency_ms as_time span) span key infos (calls_of as_time key rest)

  -- How the figures of an operation have changed with some more calls.
  abbrev pub IsMeasured : List (ℤ × Span) → LatencyInfo F → LatencyInfo F → Type 0
  IsMeasured calls info last =
      (last.min_latency_ms ≤ℤ info.min_latency_ms)
      × (info.max_latency_ms ≤ℤ last.max_latency_ms)
      × ((l : ℤ) → IsOne l calls → (last.min_latency_ms ≤ℤ l) × (l ≤ℤ last.max_latency_ms))
      × ((last.min_latency_ms ≡ info.min_latency_ms) ⊎ IsOne last.min_latency_ms calls)
      × ((last.max_latency_ms ≡ info.max_latency_ms) ⊎ IsOne last.max_latency_ms calls)
      × ((n : ℕ)
          → info.total_invocations ≡ pos n
          → n + length calls ≤ max_int
          → last.total_invocations ≡ pos (n + length calls))

  measure-IsMeasured :
      (latency : ℤ) (span : Span) (info : LatencyInfo F)
      → IsMeasured ((latency, span) ∷ []) info (measure floats latency span info)
  unfolding measure
  measure-IsMeasured latency span info =
      let small = Bool-cases (ltb_ℤ latency info.min_latency_ms) in
      let large = Bool-cases (ltb_ℤ info.max_latency_ms latency) in
      (
        ground arith,
        ground arith,
        λ l one. elim one [ inl e ↦ rw (sym e) (ground arith) | inr none_left ↦ absurd none_left ],
        elim small [ inl h ↦ inr (inl (rw h refl)) | inr h ↦ inl (rw h refl) ],
        elim large [ inl h ↦ inr (inl (rw h refl)) | inr h ↦ inl (rw h refl) ],
        λ n e fits. rw e (ground (arith, fits)),
      )

  IsMeasured-next :
      (latency : ℤ) (span : Span) (rest : List (ℤ × Span)) (info mid last : LatencyInfo F)
      → IsMeasured ((latency, span) ∷ []) info mid
      → IsMeasured rest mid last
      → IsMeasured ((latency, span) ∷ rest) info last
  IsMeasured-next latency span rest info mid last (down, up, each, least, most, count)
        (down', up', each', least', most', count') =
      (
        omega (arith, down, down'),
        omega (arith, up, up'),
        λ l one. elim one [
          | inl e ↦
              let (low, high) = each l (inl e) in
              (omega (arith, low, down'), omega (arith, high, up'))
          | inr later ↦ each' l later
        ],
        elim least' [
          | inl kept ↦ elim least [
            | inl before ↦ inl (kept ∙ before)
            | inr here ↦ elim here [
              | inl e ↦ inr (inl (e ∙ sym kept))
              | inr none_left ↦ absurd none_left
            ]
          ]
          | inr later ↦ inr (inr later)
        ],
        elim most' [
          | inl kept ↦ elim most [
            | inl before ↦ inl (kept ∙ before)
            | inr here ↦ elim here [
              | inl e ↦ inr (inl (e ∙ sym kept))
              | inr none_left ↦ absurd none_left
            ]
          ]
          | inr later ↦ inr (inr later)
        ],
        λ n e fits.
            count' (n + 1) (count n e (omega (arith, fits))) (omega (arith, fits))
            ∙ ap (λ k. pos k) (omega arith),
      )

  pub measure_all-IsMeasured :
      (calls : List (ℤ × Span)) (info : LatencyInfo F)
      → (last : LatencyInfo F) × (measure_all calls (some info) ≡ some last)
        × IsMeasured calls info last
  unfolding or_new_info
  measure_all-IsMeasured [] info = (
    info,
    refl,
    (
      omega arith,
      omega arith,
      λ l one. absurd one,
      inl refl,
      inl refl,
      λ n e fits. e ∙ ap (λ k. pos k) (omega arith),
    ),
  )
  measure_all-IsMeasured ((latency, span) ∷ rest) info =
      let mid = measure floats latency span info in
      let (last, at, measured) = measure_all-IsMeasured rest mid in
      (
        last,
        at,
        IsMeasured-next latency span rest info mid last (measure-IsMeasured latency span info)
            measured,
      )
