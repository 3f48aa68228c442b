-- ===== src/Ordering/Outcome.antt =====
-- What one call of the search promises, for the ids it was asked to reach.
use dapper_distributed_traci.Prelude.{
  String, ◌≡◌, ◌∙◌, ◌⊎◌, refl, true, false, Option, some, List, [], ◌∷◌, map, arith, eq_iff, has,
  Distinct, Distinct-snoc,
}
use mathlib.Core.List.{map-append}
use dapper_distributed_traci.Table.{Table, lookup, keys, is_set}
use dapper_distributed_traci.Wire.{Span}
use dapper_distributed_traci.Ordering.{Visit, enter, leave}
use dapper_distributed_traci.Ordering.Flags.{is_set-insert, keys-insert_new, has-keys-insert}

-- The span that stands for an id in the result, nil where the id belongs to no span.
abbrev pub look : Table Span → String → Option Span
look span_map id = lookup id span_map

-- The ids in the order in which they were finished.
abbrev pub finished : Visit → List String
finished s = keys s.visited

-- `U` holds the ids of the graph.
pub record IsSound (U : List String) (span_map : Table Span) (s : Visit) : Type 0 where
  pub in_step : s.ordered ≡ map (look span_map) (finished s)
  pub known : (j : String) → has j (finished s) ≡ true → has j U ≡ true
  pub flags : (j : String) → is_set j s.visited ≡ has j (finished s)
  pub apart : Distinct (finished s)

-- What the step from `s` to `t` keeps, and that it has reached each of the ids.
pub record Reaches (ids : List String) (s t : Visit) : Type 0 where
  pub same_temp : (j : String) → is_set j t.temp ≡ is_set j s.temp
  pub grows : (j : String) → is_set j s.visited ≡ true → is_set j t.visited ≡ true
  pub kept : (j : String) → is_set j s.temp ≡ true → is_set j t.visited ≡ is_set j s.visited
  pub done :
      (j : String) → has j ids ≡ true → (is_set j s.temp ≡ true) ⊎ (is_set j t.visited ≡ true)

pub record Outcome (U : List String) (span_map : Table Span) (ids : List String) (s : Visit)
    (r : Option Visit) : Type 0 where
  pub final : Visit
  pub at : r ≡ some final
  pub reaches : Reaches ids s final
  pub sound : IsSound U span_map final

pub Reaches-refl :
    (ids : List String) (s : Visit)
    → ((j : String) → has j ids ≡ true → (is_set j s.temp ≡ true) ⊎ (is_set j s.visited ≡ true))
    → Reaches ids s s
Reaches-refl ids s h = record {
  same_temp = λ j. refl;
  grows = λ j p. p;
  kept = λ j p. refl;
  done = h;
}

pub Reaches-cons :
    (id : String) (ids : List String) (s t u : Visit)
    → Reaches (id ∷ []) s t
    → Reaches ids t u
    → Reaches (id ∷ ids) s u
Reaches-cons id ids s t u a b = record {
  same_temp = λ j. b.same_temp j ∙ a.same_temp j;
  grows = λ j p. b.grows j (a.grows j p);
  kept = λ j p. b.kept j (a.same_temp j ∙ p) ∙ a.kept j p;
  done = λ j p. ground (arith, eq_iff id j, a.done j, b.done j, a.same_temp j, b.grows j);
}

-- The body of `visit`: an id that is on neither map is entered, its neighbours are searched, and
-- it is left.
pub Reaches-leave :
    (span_map : Table Span) (id : String) (ids : List String) (s t : Visit)
    → is_set id s.temp ≡ false
    → Reaches ids (enter id s) t
    → Reaches (id ∷ []) s (leave span_map id t)
unfolding enter leave
Reaches-leave span_map id ids s t e a = record {
  same_temp = λ j. ground (
    arith,
    eq_iff id j,
    is_set-insert id j false t.temp,
    is_set-insert id j true s.temp,
    a.same_temp j,
  );
  grows = λ j p. ground (arith, is_set-insert id j true t.visited, a.grows j);
  kept = λ j p. ground (
    arith,
    eq_iff id j,
    is_set-insert id j true t.visited,
    is_set-insert id j true s.temp,
    a.kept j,
  );
  done = λ j p. ground (arith, eq_iff id j, is_set-insert id j true t.visited);
}

pub IsSound-enter :
    (U : List String) (span_map : Table Span) (id : String) (s : Visit)
    → IsSound U span_map s
    → IsSound U span_map (enter id s)
unfolding enter
IsSound-enter U span_map id s h = record {
  in_step = h.in_step;
  known = h.known;
  flags = h.flags;
  apart = h.apart;
}

pub IsSound-leave :
    (U : List String) (span_map : Table Span) (id : String) (t : Visit)
    → has id U ≡ true
    → is_set id t.visited ≡ false
    → IsSound U span_map t
    → IsSound U span_map (leave span_map id t)
unfolding leave
IsSound-leave U span_map id t u v h =
    let fresh : has id (finished t) ≡ false = cc (h.flags id) in
    record {
      in_step = rw (keys-insert_new id true t.visited fresh, h.in_step, map-append);
      known = λ j p. ground (arith, eq_iff id j, has-keys-insert id j true t.visited, h.known j);
      flags = λ j. ground (
        arith,
        has-keys-insert id j true t.visited,
        is_set-insert id j true t.visited,
        h.flags j,
      );
      apart =
          rw (keys-insert_new id true t.visited fresh)
            (Distinct-snoc (finished t) id h.apart fresh);
    }
