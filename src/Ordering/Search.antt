-- ===== src/Ordering/Search.antt =====
-- The depth-first search of `OrderSpans` terminates, and what it has visited when it ends.
use dapper_distributed_traci.Prelude.{
  ℕ, zero, suc, ◌<◌, String, ◌≡◌, ◌∙◌, ◌⊎◌, inl, inr, refl, true, false, Option, some, List, [],
  ◌∷◌, arith, eq_iff, if◌then◌else◌, has, Bool-cases,
}
use dapper_distributed_traci.Table.{Table, is_set}
use dapper_distributed_traci.Wire.{Span}
use dapper_distributed_traci.Ordering.{
  Graph, neighbours, Visit, enter, leave, visit_all, visit, visit_roots,
}
use dapper_distributed_traci.Ordering.Flags.{is_set-insert, free, free-congr, free-insert_lt}
use dapper_distributed_traci.Ordering.Outcome.{
  IsSound, Outcome, Reaches-refl, Reaches-cons, Reaches-leave, IsSound-enter, IsSound-leave,
}

-- Every neighbour in the graph is one of the ids.
abbrev pub IsClosed : List String → Graph → Type 0
IsClosed U graph = (a b : String) → has b (neighbours a graph) ≡ true → has b U ≡ true

pub visit_all_cons :
    (step : String → Visit → Option Visit) (id : String) (ids : List String) (s t : Visit)
    → step id s ≡ some t
    → visit_all step (id ∷ ids) s ≡ visit_all step ids t
unfolding visit_all
visit_all_cons step id ids s t e = rw (e, visit_all) refl

module _ (U : List String) (span_map : Table Span) where
  -- One call on an id, as the loops need it.
  abbrev pub Works : ℕ → (String → Visit → Option Visit) → Type 0
  Works fuel step =
      (id : String) (s : Visit)
      → has id U ≡ true
      → free U s.temp < fuel
      → IsSound U span_map s
      → Outcome U span_map (id ∷ []) s (step id s)

  pub visit_all_outcome :
      (fuel : ℕ) (step : String → Visit → Option Visit)
      → Works fuel step
      → (ids : List String) (s : Visit) → ((j : String) → has j ids ≡ true → has j U ≡ true)
      → free U s.temp < fuel
      → IsSound U span_map s
      → Outcome U span_map ids s (visit_all step ids s)
  unfolding visit_all
  visit_all_outcome fuel step works [] s inside room sound = record {
    final = s;
    at = refl;
    reaches = Reaches-refl [] s (λ j p. absurd (ground arith));
    sound = sound;
  }
  visit_all_outcome fuel step works (id ∷ ids) s inside room sound =
      let o = works id s (inside id (ground (arith, eq_iff id id))) room sound in
      let room' : free U o.final.temp < fuel =
        omega (arith, free-congr U s.temp o.final.temp o.reaches.same_temp) in
      let p =
        visit_all_outcome fuel step works ids o.final (λ j q. inside j (ground arith)) room'
          o.sound in
      record {
        final = p.final;
        at = visit_all_cons step id ids s o.final o.at ∙ p.at;
        reaches = Reaches-cons id ids s o.final p.final o.reaches p.reaches;
        sound = p.sound;
      }

pub visit_roots_cons :
    (graph : Graph) (span_map : Table Span) (fuel : ℕ) (id : String) (ids : List String)
    (s t : Visit)
    → (if is_set id s.visited then some s else visit graph span_map fuel id s) ≡ some t
    → visit_roots graph span_map fuel (id ∷ ids) s ≡ visit_roots graph span_map fuel ids t
unfolding visit_roots
visit_roots_cons graph span_map fuel id ids s t e = rw (e, visit_roots) refl

module _ (graph : Graph) (U : List String) (span_map : Table Span) (closed : IsClosed U graph) where
  -- The body of `visit`, for an id that is on neither map.
  visit_fresh :
      (fuel : ℕ) (id : String) (s : Visit)
      → Works U span_map fuel (visit graph span_map fuel)
      → has id U ≡ true
      → free U s.temp < suc fuel
      → IsSound U span_map s
      → is_set id s.temp ≡ false
      → is_set id s.visited ≡ false
      → Outcome U span_map (id ∷ []) s (visit graph span_map (suc fuel) id s)
  unfolding visit enter
  visit_fresh fuel id s works u room sound t v =
      let inner : free U (enter id s).temp < fuel = omega (arith, free-insert_lt U id s.temp u t) in
      let o =
        visit_all_outcome U span_map fuel (visit graph span_map fuel) works (neighbours id graph)
          (enter id s) (closed id) inner (IsSound-enter U span_map id s sound) in
      let on_stack : is_set id (enter id s).temp ≡ true =
        ground (arith, is_set-insert id id true s.temp, eq_iff id id) in
      record {
        final = leave span_map id o.final;
        at = rw (t, v, o.at) refl;
        reaches = Reaches-leave span_map id (neighbours id graph) s o.final t o.reaches;
        sound = IsSound-leave U span_map id o.final u (o.reaches.kept id on_stack ∙ v) o.sound;
      }

  -- An id that is on the stack, or was visited, changes nothing.
  visit_seen :
      (fuel : ℕ) (id : String) (s : Visit)
      → IsSound U span_map s
      → (is_set id s.temp ≡ true) ⊎ (is_set id s.visited ≡ true)
      → Outcome U span_map (id ∷ []) s (visit graph span_map (suc fuel) id s)
  unfolding visit
  visit_seen fuel id s sound seen = record {
    final = s;
    at = ground arith;
    reaches = Reaches-refl (id ∷ []) s (λ j p. ground (arith, eq_iff id j));
    sound = sound;
  }

  -- With more fuel than there are ids off the stack, a call ends, and has reached its id.
  pub visit_outcome : (fuel : ℕ) → Works U span_map fuel (visit graph span_map fuel)
  visit_outcome zero id s u room sound = absurd (omega arith)
  visit_outcome (suc fuel) id s u room sound = elim (Bool-cases (is_set id s.temp)) [
    | inl t ↦ visit_seen fuel id s sound (inl t)
    | inr t ↦ elim (Bool-cases (is_set id s.visited)) [
      | inl v ↦ visit_seen fuel id s sound (inr v)
      | inr v ↦ visit_fresh fuel id s (visit_outcome fuel) u room sound t v
    ]
  ]

  pub root :
      (fuel : ℕ) (id : String) (s : Visit)
      → has id U ≡ true
      → free U s.temp < fuel
      → IsSound U span_map s
      → Outcome U span_map
          (id ∷ [])
          s
          (if is_set id s.visited then some s else visit graph span_map fuel id s)
  root fuel id s u room sound = elim (Bool-cases (is_set id s.visited)) [
    | inl v ↦ rw v (record {
      final = s;
      at = refl;
      reaches = Reaches-refl (id ∷ []) s (λ j p. ground (arith, eq_iff id j));
      sound = sound;
    })
    | inr v ↦ rw v (visit_outcome fuel id s u room sound)
  ]

  -- The loop over the keys, between whose calls the stack is empty, visits each of them.
  pub visit_roots_outcome :
      (fuel : ℕ) (ids : List String) (s : Visit)
      → ((j : String) → has j ids ≡ true → has j U ≡ true)
      → free U s.temp < fuel
      → IsSound U span_map s
      → Outcome U span_map ids s (visit_roots graph span_map fuel ids s)
  unfolding visit_roots
  visit_roots_outcome fuel [] s inside room sound = record {
    final = s;
    at = refl;
    reaches = Reaches-refl [] s (λ j p. absurd (ground arith));
    sound = sound;
  }
  visit_roots_outcome fuel (id ∷ ids) s inside room sound =
      let o = root fuel id s (inside id (ground (arith, eq_iff id id))) room sound in
      let room' : free U o.final.temp < fuel =
        omega (arith, free-congr U s.temp o.final.temp o.reaches.same_temp) in
      let p = visit_roots_outcome fuel ids o.final (λ j q. inside j (ground arith)) room' o.sound in
      record {
        final = p.final;
        at = visit_roots_cons graph span_map fuel id ids s o.final o.at ∙ p.at;
        reaches = Reaches-cons id ids s o.final p.final o.reaches p.reaches;
        sound = p.sound;
      }
