-- ===== src/Collector/Merging.antt =====
-- The merge of a replica's trace into the local one.
use dapper_distributed_traci.Prelude.{
  String, ◌≡◌, refl, ap, sym, ◌∙◌, Bool, true, not, ◌||◌, Option, List, [], ◌∷◌, ◌++◌, arith, ◌==◌,
  eq_iff, if◌then◌else◌, keep, has, has-append, max, Bool-cases, inl, inr,
}
use mathlib.Core.List.{append-nil, append_assoc}
use dapper_distributed_traci.Table.{Table, lookup, insert, is_set}
use dapper_distributed_traci.Table.Laws.{lookup-insert}
use dapper_distributed_traci.Time.{Time, is_after}
use dapper_distributed_traci.Wire.{Timestamp, Span, Trace}
use dapper_distributed_traci.Collector.{ids_in, add_missing, merge_trace}

abbrev pub span_ids : List Span → List String
span_ids [] = []
span_ids (span ∷ rest) = span.span_id ∷ span_ids rest

-- The spans whose ids are not in a list.
abbrev pub missing_from : List String → List Span → List Span
missing_from known spans = keep (λ span. not (has span.span_id known)) spans

is_set-ids_in :
    (k : String) (spans : List Span) (m : Table Bool)
    → is_set k (ids_in spans m) ≡ has k (span_ids spans) || is_set k m
unfolding ids_in
is_set-ids_in k [] m = refl
is_set-ids_in k (span ∷ rest) m =
    ground (
      arith,
      is_set-ids_in k rest (insert span.span_id true m),
      lookup-insert span.span_id k true m,
    )

add_missing_lem :
    (known : List Span) (spans acc : List Span)
    → add_missing (ids_in known []) spans acc ≡ acc ++ missing_from (span_ids known) spans
unfolding add_missing lookup
add_missing_lem known [] acc = sym (append-nil acc)
add_missing_lem known (span ∷ rest) acc =
    let test : is_set span.span_id (ids_in known []) ≡ has span.span_id (span_ids known) =
      ground (arith, is_set-ids_in span.span_id known []) in
    elim (Bool-cases (has span.span_id (span_ids known))) [
      | inl there ↦ rw (test, there) (add_missing_lem known rest acc)
      | inr gone ↦
          rw (test, gone)
            (add_missing_lem known rest (acc ++ span ∷ [])
              ∙ append_assoc acc (span ∷ []) (missing_from (span_ids known) rest))
    ]

span_ids-append : (xs ys : List Span) → span_ids (xs ++ ys) ≡ span_ids xs ++ span_ids ys
span_ids-append [] ys = refl
span_ids-append (x ∷ xs) ys = ap (λ l. x.span_id ∷ l) (span_ids-append xs ys)

covered :
    (k : String) (known : List String) (spans : List Span)
    → has k (span_ids spans) ≡ true
    → has k (known ++ span_ids (missing_from known spans)) ≡ true
covered k known [] h = ground arith
covered k known (span ∷ rest) h = elim (Bool-cases (has span.span_id known)) [
  | inl there ↦ rw there (elim (Bool-cases (span.span_id == k)) [
    | inl same ↦
        ground
          (arith, eq_iff span.span_id k, has-append k known (span_ids (missing_from known rest)))
    | inr other ↦ covered k known rest (rw other at h)
  ])
  | inr gone ↦ rw gone (
      ground (
        arith,
        has-append k known (span.span_id ∷ span_ids (missing_from known rest)),
        has-append k known (span_ids (missing_from known rest)),
        covered k known rest,
      ))
]

-- Once the missing spans are added, none is missing.
none_missing :
    (known : List String) (spans : List Span)
    → ((k : String) → has k (span_ids spans) ≡ true → has k known ≡ true)
    → missing_from known spans ≡ []
none_missing known [] h = refl
none_missing known (span ∷ rest) h =
    let there : has span.span_id known ≡ true =
      h span.span_id (ground (arith, eq_iff span.span_id span.span_id)) in
    rw there (none_missing known rest (λ k t. h k (ground arith)))

-- The later of two ends, and that taking it twice is taking it once.
abbrev later : (Option Timestamp → Time) → Option Timestamp → Option Timestamp → Option Timestamp
later as_time new old = if is_after (as_time new) (as_time old) then new else old

later-max :
    (as_time : Option Timestamp → Time) (new old : Option Timestamp)
    → as_time (later as_time new old) ≡ max (as_time old) (as_time new)
later-max as_time new old = elim (Bool-cases (is_after (as_time new) (as_time old))) [
  | inl after ↦ rw after (ground arith)
  | inr before ↦ rw before (ground arith)
]

later_idem :
    (as_time : Option Timestamp → Time) (new old : Option Timestamp)
    → later as_time new (later as_time new old) ≡ later as_time new old
later_idem as_time new old =
    elim (Bool-cases (is_after (as_time new) (as_time (later as_time new old)))) [
      | inl after ↦ absurd (ground (arith, later-max as_time new old))
      | inr before ↦ rw before refl
    ]

add_missing_again :
    (local spans : List Span)
    → let merged = local ++ missing_from (span_ids local) spans in
      add_missing (ids_in merged []) spans merged ≡ merged
add_missing_again local spans =
    let new = missing_from (span_ids local) spans in
    let none_left : missing_from (span_ids (local ++ new)) spans ≡ [] =
      none_missing (span_ids (local ++ new)) spans
        (λ k t. rw (span_ids-append local new) (covered k (span_ids local) spans t)) in
    add_missing_lem (local ++ new) spans (local ++ new)
    ∙ ap (λ l. (local ++ new) ++ l) none_left
    ∙ append-nil (local ++ new)

-- The merge of a replica's trace keeps the local spans and adds those whose ids are missing, in
-- order; it keeps the local id, root service and operation, and start time, and its end time is the
-- later one. A second merge of the same trace changes nothing.
pub merge_trace_lem :
    (as_time : Option Timestamp → Time) (trace local : Trace Span)
    → let merged = merge_trace as_time trace local in
      (merged.spans ≡ local.spans ++ missing_from (span_ids local.spans) trace.spans)
      × (as_time merged.end_time ≡ max (as_time local.end_time) (as_time trace.end_time))
      × ((merged.trace_id ≡ local.trace_id)
          × (merged.root_service ≡ local.root_service)
          × (merged.root_operation ≡ local.root_operation)
          × (merged.start_time ≡ local.start_time))
      × (merge_trace as_time trace merged ≡ merged)
unfolding merge_trace
merge_trace_lem as_time trace local =
    let merged = merge_trace as_time trace local in
    let spans : merged.spans ≡ local.spans ++ missing_from (span_ids local.spans) trace.spans =
      add_missing_lem local.spans trace.spans local.spans in
    (
      spans,
      later-max as_time trace.end_time local.end_time,
      (refl, refl, refl, refl),
      ap
            (λ l. record local {
              spans = add_missing (ids_in l []) trace.spans l;
              end_time = later as_time trace.end_time (later as_time trace.end_time local.end_time);
            })
            spans
          ∙ ap
              (λ l. record local {
                spans = l;
                end_time =
                    later as_time trace.end_time (later as_time trace.end_time local.end_time);
              })
              (add_missing_again local.spans trace.spans ∙ sym spans)
          ∙ ap (λ e. record local { spans = merged.spans; end_time = e })
              (later_idem as_time trace.end_time local.end_time),
    )
