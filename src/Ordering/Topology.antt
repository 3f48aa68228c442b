-- ===== src/Ordering/Topology.antt =====
-- Where the edges of the graph have no cycle, the search of `OrderSpans` finishes an id after all
-- its neighbours. That there is no cycle is said by a rank that falls along every edge.
use dapper_distributed_traci.Prelude.{
  ℕ, zero, suc, ◌<◌, String, ◌≡◌, ◌∙◌, inl, inr, refl, sym, true, false, Option, some, List, [],
  ◌∷◌, reverse, arith, eq_iff, if◌then◌else◌, has, has-reverse, Bool-cases,
}
use mathlib.Core.Path.{subst}
use mathlib.Core.List.{reverse-append}
use dapper_distributed_traci.Table.{Table, is_set}
use dapper_distributed_traci.Wire.{Span}
use dapper_distributed_traci.Ordering.{
  Graph, neighbours, Visit, enter, leave, visit_all, visit, visit_roots,
}
use dapper_distributed_traci.Ordering.Flags.{
  is_set-insert, keys-insert_new, free, free-congr, free-insert_lt,
}
use dapper_distributed_traci.Ordering.Outcome.{IsSound, IsSound-enter, Reaches, finished}
use dapper_distributed_traci.Ordering.Search.{
  IsClosed, Works, visit_all_outcome, visit_outcome, root, visit_all_cons, visit_roots_cons,
}

-- Every id stands before all its neighbours.
abbrev pub IsTopological : Graph → List String → Type 0
IsTopological graph [] = Unit
IsTopological graph (x ∷ xs) =
    ((b : String) → has b (neighbours x graph) ≡ true → has b xs ≡ true) × IsTopological graph xs

abbrev pub IsRanked : Graph → (String → ℕ) → Type 0
IsRanked graph rank = (a b : String) → has b (neighbours a graph) ≡ true → rank b < rank a

-- Two results of one call agree.
same_result : (r : Option Visit) (s t : Visit) → r ≡ some s → r ≡ some t → s ≡ t
same_result r s t p q = cc

module _ (graph : Graph) (span_map : Table Span) (rank : String → ℕ)
    (ranked : IsRanked graph rank) where
  -- The ids on the stack rank above `id`.
  abbrev Above : String → Visit → Type 0
  Above id s = (j : String) → is_set j s.temp ≡ true → rank id < rank j

  abbrev InOrder : Visit → Type 0
  InOrder s = IsTopological graph (reverse (finished s))

  leave-InOrder :
      (U : List String) (id : String) (s t : Visit)
      → Above id s
      → Reaches (neighbours id graph) (enter id s) t
      → IsSound U span_map t
      → is_set id t.visited ≡ false
      → InOrder t
      → InOrder (leave span_map id t)
  unfolding leave enter
  leave-InOrder U id s t above a sound fresh h =
      rw
        (
          keys-insert_new id true t.visited (sym (sound.flags id) ∙ fresh),
          reverse-append (finished t) (id ∷ []),
        )
        (
          λ b e. ground (
            arith,
            eq_iff id b,
            has-reverse b (finished t),
            sound.flags b,
            a.done b e,
            is_set-insert id b true s.temp,
            ranked id b e,
            above b,
          ),
          h,
        )

  module _ (U : List String) (closed : IsClosed U graph) where
    -- One call on an id that ranks below the stack.
    abbrev KeepsOrder : ℕ → (String → Visit → Option Visit) → Type 0
    KeepsOrder fuel step =
        (id : String) (s t : Visit)
        → has id U ≡ true
        → free U s.temp < fuel
        → IsSound U span_map s
        → Above id s
        → InOrder s
        → step id s ≡ some t
        → InOrder t

    visit_all-InOrder :
        (fuel : ℕ) (step : String → Visit → Option Visit)
        → Works U span_map fuel step
        → KeepsOrder fuel step
        → (ids : List String) (s t : Visit) → ((j : String) → has j ids ≡ true → has j U ≡ true)
        → ((j : String) → has j ids ≡ true → Above j s)
        → free U s.temp < fuel
        → IsSound U span_map s
        → InOrder s
        → visit_all step ids s ≡ some t
        → InOrder t
    unfolding visit_all
    visit_all-InOrder fuel step works keeps [] s t inside above room sound h e =
        subst InOrder (same_result (visit_all step [] s) s t refl e) h
    visit_all-InOrder fuel step works keeps (id ∷ ids) s t inside above room sound h e =
        let here : has id (id ∷ ids) ≡ true = ground (arith, eq_iff id id) in
        let o = works id s (inside id here) room sound in
        let room' : free U o.final.temp < fuel =
          omega (arith, free-congr U s.temp o.final.temp o.reaches.same_temp) in
        visit_all-InOrder fuel step works keeps ids o.final t (λ j q. inside j (ground arith))
          (λ j q k p. above j (ground arith) k (sym (o.reaches.same_temp k) ∙ p)) room' o.sound
          (keeps id s o.final (inside id here) room sound (above id here) h o.at)
          (sym (visit_all_cons step id ids s o.final o.at) ∙ e)

    Above-enter :
        (id : String) (s : Visit) (n : String)
        → has n (neighbours id graph) ≡ true
        → Above id s
        → Above n (enter id s)
    unfolding enter
    Above-enter id s n e above j p =
        ground (arith, eq_iff id j, is_set-insert id j true s.temp, ranked id n e, above j)

    visit_fresh-InOrder :
        (fuel : ℕ)
        → KeepsOrder fuel (visit graph span_map fuel)
        → (id : String) (s t : Visit) → has id U ≡ true
        → free U s.temp < suc fuel
        → IsSound U span_map s
        → Above id s
        → InOrder s
        → is_set id s.temp ≡ false
        → is_set id s.visited ≡ false
        → visit graph span_map (suc fuel) id s ≡ some t
        → InOrder t
    unfolding visit enter
    visit_fresh-InOrder fuel keeps id s t u room sound above h off fresh e =
        let inner : free U (enter id s).temp < fuel =
          omega (arith, free-insert_lt U id s.temp u off) in
        let sound' = IsSound-enter U span_map id s sound in
        let works = visit_outcome graph U span_map closed fuel in
        let o =
          visit_all_outcome U span_map fuel (visit graph span_map fuel) works (neighbours id graph)
            (enter id s) (closed id) inner sound' in
        let ordered : InOrder o.final =
          visit_all-InOrder fuel (visit graph span_map fuel) works keeps (neighbours id graph)
            (enter id s) o.final (closed id) (λ n p. Above-enter id s n p above) inner sound' h
            o.at in
        let on_stack : is_set id (enter id s).temp ≡ true =
          ground (arith, is_set-insert id id true s.temp, eq_iff id id) in
        let left_at : visit graph span_map (suc fuel) id s ≡ some (leave span_map id o.final) =
          rw (off, fresh, o.at) refl in
        subst InOrder
          (same_result (visit graph span_map (suc fuel) id s) (leave span_map id o.final) t left_at
            e)
          (leave-InOrder U id s o.final above o.reaches o.sound (o.reaches.kept id on_stack ∙ fresh)
            ordered)

    visit_in_order : (fuel : ℕ) → KeepsOrder fuel (visit graph span_map fuel)
    unfolding visit
    visit_in_order zero id s t u room sound above h e = absurd (omega arith)
    visit_in_order (suc fuel) id s t u room sound above h e = elim (Bool-cases (is_set id s.temp)) [
      | inl on ↦
          subst InOrder (same_result (visit graph span_map (suc fuel) id s) s t (rw on refl) e) h
      | inr off ↦ elim (Bool-cases (is_set id s.visited)) [
        | inl old ↦
            subst InOrder
              (same_result (visit graph span_map (suc fuel) id s) s t (rw (off, old) refl) e) h
        | inr fresh ↦
            visit_fresh-InOrder fuel (visit_in_order fuel) id s t u room sound above h off fresh e
      ]
    ]

    root-InOrder :
        (fuel : ℕ) (id : String) (s t : Visit)
        → has id U ≡ true
        → free U s.temp < fuel
        → IsSound U span_map s
        → ((j : String) → is_set j s.temp ≡ false)
        → InOrder s
        → (if is_set id s.visited then some s else visit graph span_map fuel id s) ≡ some t
        → InOrder t
    root-InOrder fuel id s t u room sound empty h e = elim (Bool-cases (is_set id s.visited)) [
      | inl old ↦ subst InOrder (same_result (some s) s t refl (rw old at e)) h
      | inr new ↦ visit_in_order fuel id s t u room sound (λ j p. cc (empty j)) h (rw new at e)
    ]

    -- The search as a whole, from an empty stack.
    pub visit_roots-InOrder :
        (fuel : ℕ) (ids : List String) (s t : Visit)
        → ((j : String) → has j ids ≡ true → has j U ≡ true)
        → free U s.temp < fuel
        → IsSound U span_map s
        → ((j : String) → is_set j s.temp ≡ false)
        → InOrder s
        → visit_roots graph span_map fuel ids s ≡ some t
        → InOrder t
    unfolding visit_roots
    visit_roots-InOrder fuel [] s t inside room sound empty h e =
        subst InOrder (same_result (visit_roots graph span_map fuel [] s) s t refl e) h
    visit_roots-InOrder fuel (id ∷ ids) s t inside room sound empty h e =
        let u : has id U ≡ true = inside id (ground (arith, eq_iff id id)) in
        let o = root graph U span_map closed fuel id s u room sound in
        let room' : free U o.final.temp < fuel =
          omega (arith, free-congr U s.temp o.final.temp o.reaches.same_temp) in
        visit_roots-InOrder fuel ids o.final t (λ j q. inside j (ground arith)) room' o.sound
          (λ j. o.reaches.same_temp j ∙ empty j)
          (root-InOrder fuel id s o.final u room sound empty h o.at)
          (sym (visit_roots_cons graph span_map fuel id ids s o.final o.at) ∙ e)
