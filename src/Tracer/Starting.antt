-- ===== src/Tracer/Starting.antt =====
-- What `StartSpan` makes of a span and its parent.
use dapper_distributed_traci.Prelude.{
  ◌+◌, ◌<◌, String, ◌≡◌, refl, ap, Bool, some, [], ◌∷◌, arith, Bool-cases, inl, inr, eq_iff,
}
use dapper_distributed_traci.Prelude.Int.{u64_mod}
use dapper_distributed_traci.Table.{lookup}
use dapper_distributed_traci.Time.{Time}
use dapper_distributed_traci.Clock.{VectorClock, count_of, increment, copy, compare, before}
use dapper_distributed_traci.Clock.Entries.{rank}
use dapper_distributed_traci.Clock.Order.{
  IsClock, copies_agree, compare-before_iff, compare-increment, increment-IsClock, before_trans,
  level-increment, copy-IsClock,
}
use dapper_distributed_traci.Span.{Span, with_parent_span, add_annotation}
use dapper_distributed_traci.Tracer.{Tracer, start_span}

-- The clock of a child: the parent's, copied and incremented twice.
pub twice_later :
    (node_id : String) (vc : VectorClock)
    → IsClock vc
    → count_of (lookup node_id vc.timestamps) + 2 < u64_mod
    → compare vc (some (increment node_id (increment node_id (copy (some vc))))) ≡ before
twice_later node_id vc m h =
    let c0 = copy (some vc) in
    let c1 = increment node_id c0 in
    let m0 = copy-IsClock vc in
    let m1 = increment-IsClock node_id c0 m0 in
    let m2 = increment-IsClock node_id c1 m1 in
    let same = λ (n : String). (copies_agree vc m n).0 in
    let small : count_of (lookup node_id c0.timestamps) + 1 < u64_mod =
      omega (arith, ap (λ o. count_of o) (same node_id)) in
    let small1 : count_of (lookup node_id c1.timestamps) + 1 < u64_mod = ground (
      arith,
      level-increment node_id node_id c0 small,
      eq_iff node_id node_id,
      ap (λ o. count_of o) (same node_id),
    ) in
    let (up, down) =
      (compare-before_iff c0 (increment node_id c1) m0 m2).0
        (before_trans c0 c1 (increment node_id c1) m0 m1 m2 (compare-increment node_id c0 m0 small)
          (compare-increment node_id c1 m1 small1)).0 in
    (compare-before_iff vc (increment node_id c1) m m2).1 (
      λ n. omega (arith, up n, ap (λ o. rank o) (same n)),
      λ back. down (λ n. omega (arith, back n, ap (λ o. rank o) (same n))),
    )

-- The clock of a child, and that its keys are distinct.
abbrev pub child_clock : String → VectorClock → VectorClock
child_clock node_id vc = increment node_id (increment node_id (copy (some vc)))

pub child_clock-IsClock : (node_id : String) (vc : VectorClock) → IsClock (child_clock node_id vc)
child_clock-IsClock node_id vc =
    let c = copy (some vc) in
    increment-IsClock node_id (increment node_id c) (increment-IsClock node_id c (copy-IsClock vc))

pub start_span_as_child :
    (should_sample : String → String → Bool) (span_id trace_id : String) (now : Time)
    (operation_name : String) (t : Tracer) (parent : Span) (vc : VectorClock)
    → parent.vector_clock ≡ some vc
    → let child =
        start_span should_sample span_id trace_id now operation_name
          (with_parent_span (some parent) ∷ [])
          t in
      (child.vector_clock ≡ some (child_clock t.node_id vc))
      × (child.trace_id ≡ parent.trace_id)
      × (child.parent_span_id ≡ parent.span_id)
      × (child.span_id ≡ span_id)
unfolding start_span with_parent_span add_annotation
start_span_as_child should_sample span_id trace_id now operation_name t parent vc e =
    elim (Bool-cases (should_sample operation_name parent.trace_id)) [
      | inl sampled ↦ (rw (sampled, e) refl, rw sampled refl, rw sampled refl, rw sampled refl)
      | inr dropped ↦ (rw (dropped, e) refl, rw dropped refl, rw dropped refl, rw dropped refl)
    ]

-- A span that is started with a parent, whose clock has distinct keys and is, at the tracer's node,
-- 2 or more below the largest `uint64`, has the parent's trace and names the parent; the parent's
-- clock is before its clock (`Compare` gives -1), whatever the sampler decides.
pub start_span-with_parent_span :
    (should_sample : String → String → Bool) (span_id trace_id : String) (now : Time)
    (operation_name : String) (t : Tracer) (parent : Span) (vc : VectorClock)
    → parent.vector_clock ≡ some vc
    → IsClock vc
    → count_of (lookup t.node_id vc.timestamps) + 2 < u64_mod
    → (vc' : VectorClock) × (let child =
          start_span should_sample span_id trace_id now operation_name
            (with_parent_span (some parent) ∷ [])
            t in
        (child.vector_clock ≡ some vc')
        × (child.trace_id ≡ parent.trace_id)
        × (child.parent_span_id ≡ parent.span_id)
        × (child.span_id ≡ span_id))
      × (compare vc (some vc') ≡ before)
start_span-with_parent_span should_sample span_id trace_id now operation_name t parent vc e m h = (
  child_clock t.node_id vc,
  start_span_as_child should_sample span_id trace_id now operation_name t parent vc e,
  twice_later t.node_id vc m h,
)
