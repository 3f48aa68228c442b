-- ===== src/Analysis/Dependencies/Calls.antt =====
-- How many calls the graph of services counts.
use dapper_distributed_traci.Prelude.{
  ℕ, suc, ◌+◌, ◌≤◌, ◌<◌, Bool, true, false, not, ◌&&◌, String, ◌==◌, eq_iff, ◌≡◌, refl, ap, sym,
  ◌∙◌, Option, none, some, List, [], ◌∷◌, inl, inr, arith, Bool-cases, if◌then◌else◌,
}
use dapper_distributed_traci.Prelude.Int.{ℤ, pos, next_int, max_int, eqb_ℤ}
use dapper_distributed_traci.Table.{Table, lookup, insert}
use dapper_distributed_traci.Table.Laws.{lookup-insert}
use dapper_distributed_traci.Wire.{Span, Trace, status_error}
use dapper_distributed_traci.Analysis.{Floats}
use dapper_distributed_traci.Analysis.Dependencies.{
  ServiceDependency, or_empty_table, inner, service_of, DepMap, dependency_at, put_dependency,
  new_dependency, or_new_dependency, count_call, record_dependency,
}

-- The span is a call of the operation of `to`, and the span it names as its parent is of `from`.
abbrev pub is_call : String → String → String → List Span → Span → Bool
is_call from to operation spans span =
    not (span.parent_span_id == "")
    && service_of span.parent_span_id spans == from
    && span.service_name == to
    && span.operation_name == operation

abbrev pub is_failed_call : String → String → String → List Span → Span → Bool
is_failed_call from to operation spans span =
    is_call from to operation spans span && eqb_ℤ span.status status_error

abbrev pub count_if : (Span → Bool) → List Span → ℕ
count_if p [] = 0
count_if p (span ∷ rest) = if p span then suc (count_if p rest) else count_if p rest

abbrev pub calls_in : String → String → String → List (Trace Span) → ℕ
calls_in from to operation [] = 0
calls_in from to operation (trace ∷ rest) =
    count_if (is_call from to operation trace.spans) trace.spans + calls_in from to operation rest

abbrev pub failed_calls_in : String → String → String → List (Trace Span) → ℕ
failed_calls_in from to operation [] = 0
failed_calls_in from to operation (trace ∷ rest) =
    count_if (is_failed_call from to operation trace.spans) trace.spans
    + failed_calls_in from to operation rest

inner-insert {ℓ} :
    {V : Type ℓ} (key read : String) (new : Table V) (m : Table (Table V))
    → inner read (insert key new m) ≡ (if key == read then new else inner read m)
inner-insert key read new m = elim (Bool-cases (key == read)) [
  | inl same ↦
      let at : lookup read (insert key new m) ≡ some new =
        lookup-insert key read new m ∙ (rw same refl) in
      rw same (ap (λ o. or_empty_table o) at)
  | inr other ↦
      let at : lookup read (insert key new m) ≡ lookup read m =
        lookup-insert key read new m ∙ (rw other refl) in
      rw other (ap (λ o. or_empty_table o) at)
]

module _ {F : Type 0} (floats : Floats F) where
  dependency-put :
      (f t o from to operation : String) (dep : ServiceDependency F) (deps : DepMap floats)
      → dependency_at floats f t o (put_dependency floats from to operation dep deps) ≡ (
          if from == f && to == t && operation == o
          then some dep
          else dependency_at floats f t o deps)
  dependency-put f t o from to operation dep deps =
      let ops = insert operation dep (inner to (inner from deps)) in
      let tos = insert to ops (inner from deps) in
      let outer = inner-insert from f tos deps in
      elim (Bool-cases (from == f)) [
        | inr other ↦ rw (outer, other) refl
        | inl same ↦
            let f_same : from ≡ f = (eq_iff from f).0 same in
            elim (Bool-cases (to == t)) [
              | inr other_to ↦
                  rw (outer, same, inner-insert to t ops (inner from deps), other_to)
                    (ap (λ k. lookup o (inner t (inner k deps))) f_same)
              | inl same_to ↦
                  let t_same : to ≡ t = (eq_iff to t).0 same_to in
                  rw
                    (
                      outer,
                      same,
                      inner-insert to t ops (inner from deps),
                      same_to,
                      lookup-insert operation o dep (inner to (inner from deps)),
                    )
                    (elim (Bool-cases (operation == o)) [
                      | inl same_op ↦ rw same_op refl
                      | inr other_op ↦ rw other_op (
                          ap (λ k. lookup o (inner to (inner k deps))) f_same
                          ∙ ap (λ k. lookup o (inner k (inner f deps))) t_same)
                    ])
            ]
      ]

  -- A dependency counts `n` calls, of which `e` failed; without a call there is none.
  abbrev pub Counts : String → String → String → ℕ → ℕ → Option (ServiceDependency F) → Type 0
  Counts from to operation n e none = (n ≡ 0) × (e ≡ 0)
  Counts from to operation n e (some dep) =
      (dep.from_service ≡ from)
      × (dep.to_service ≡ to)
      × (dep.operation_name ≡ operation)
      × (e ≤ n)
      × (0 < n)
      × (n ≤ max_int → (dep.call_count ≡ pos n) × (dep.error_count ≡ pos e))

  one_more : (n : ℕ) → n < max_int → next_int (pos n) ≡ pos (n + 1)
  one_more n h = ground (arith, h)

  -- One more call, which has failed or not.
  count_call-Counts :
      (latency : Option ℤ) (from operation : String) (span : Span) (n e : ℕ)
      (o : Option (ServiceDependency F))
      → Counts from span.service_name span.operation_name n e o
      → Counts from span.service_name span.operation_name
          (n + 1)
          (if eqb_ℤ span.status status_error then e + 1 else e)
          (some (count_call floats latency span (or_new_dependency floats from span o)))
  unfolding count_call or_new_dependency new_dependency
  count_call-Counts latency from operation span n e none (none_yet, no_error) =
      elim (Bool-cases (eqb_ℤ span.status status_error)) [
        | inl failed ↦ rw failed (
          refl,
          refl,
          refl,
          omega (arith, none_yet, no_error),
          omega arith,
          λ fits. (
            ap (λ k. pos k) (omega (arith, none_yet)),
            ap (λ k. pos k) (omega (arith, no_error)),
          ),
        )
        | inr passed ↦ rw passed (
          refl,
          refl,
          refl,
          omega (arith, none_yet, no_error),
          omega arith,
          λ fits. (
            ap (λ k. pos k) (omega (arith, none_yet)),
            ap (λ k. pos k) (omega (arith, no_error)),
          ),
        )
      ]
  count_call-Counts latency from operation span n e (some dep) (f, t, op, few, some_call, count) =
      elim (Bool-cases (eqb_ℤ span.status status_error)) [
        | inl failed ↦ rw failed (
          f,
          t,
          op,
          omega (arith, few),
          omega arith,
          λ fits.
              let (calls, errors) = count (omega (arith, fits)) in
              (
                ap next_int calls ∙ one_more n (omega (arith, fits)),
                ap next_int errors ∙ one_more e (omega (arith, fits, few)),
              ),
        )
        | inr passed ↦ rw passed (
          f,
          t,
          op,
          omega (arith, few),
          omega arith,
          λ fits.
              let (calls, errors) = count (omega (arith, fits)) in
              (ap next_int calls ∙ one_more n (omega (arith, fits)), errors),
        )
      ]

  -- The same, for names that are equal to those of the span.
  named-Counts :
      (f t o from : String) (latency : Option ℤ) (span : Span) (n e : ℕ) (deps : DepMap floats)
      → from ≡ f
      → span.service_name ≡ t
      → span.operation_name ≡ o
      → Counts f t o n e (dependency_at floats f t o deps)
      → Counts f t o (n + 1) (if eqb_ℤ span.status status_error then e + 1 else e) (
          some (
            count_call floats latency span (
              or_new_dependency floats from span
                (dependency_at floats from span.service_name span.operation_name deps))))
  named-Counts f t o from latency span n e deps from_f s_t op_o counts =
      rw (sym from_f, sym s_t, sym op_o)
        (count_call-Counts latency from span.operation_name span n e
          (dependency_at floats from span.service_name span.operation_name deps)
          (rw (sym from_f, sym s_t, sym op_o) at counts))

  -- One span, whose parent is of `from`.
  pub record_dependency-Counts :
      (f t o from : String) (latency : Option ℤ) (span : Span) (n e : ℕ) (deps : DepMap floats)
      → (f == "") ≡ false
      → (f == t) ≡ false
      → Counts f t o n e (dependency_at floats f t o deps)
      → let call = from == f && span.service_name == t && span.operation_name == o in
        Counts f t o
          (if call then n + 1 else n)
          (if call then (if eqb_ℤ span.status status_error then e + 1 else e) else e)
          (dependency_at floats f t o (record_dependency floats latency from span deps))
  unfolding record_dependency
  record_dependency-Counts f t o from latency span n e deps nonempty distinct counts =
      let s = span.service_name in
      let old = dependency_at floats from s span.operation_name deps in
      let new = count_call floats latency span (or_new_dependency floats from span old) in
      let put = dependency-put f t o from s span.operation_name new deps in
      elim (Bool-cases (from == f && s == t && span.operation_name == o)) [
        | inl call ↦
            let from_f : from ≡ f = (eq_iff from f).0 (ground (arith, call)) in
            let s_t : s ≡ t = (eq_iff s t).0 (ground (arith, call)) in
            let op_o : span.operation_name ≡ o =
              (eq_iff span.operation_name o).0 (ground (arith, call)) in
            let told : not (from == "") && not (from == s) ≡ true =
              rw (from_f, s_t, nonempty, distinct) refl in
            rw (call, told, put, call)
              (named-Counts f t o from latency span n e deps from_f s_t op_o counts)
        | inr other ↦ elim (Bool-cases (not (from == "") && not (from == s))) [
          | inl told ↦ rw (other, told, put, other) counts
          | inr untold ↦ rw (other, untold) counts
        ]
      ]
