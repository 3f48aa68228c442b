-- ===== src/Concurrent.antt =====
-- `DetectConcurrentEvents` of pkg/clock.go: groups of spans whose clocks are concurrent with that
-- of the group's first span. The map from ids to spans that it builds is never read, and left out.
pub mod Groups
mod Tests
use dapper_distributed_traci.Prelude.{
  ℕ, String, Bool, true, false, List, [], ◌∷◌, ◌++◌, ◌==◌, ◌||◌, length, ltb, if◌then◌else◌, none,
  some,
}
use dapper_distributed_traci.Prelude.Int.{eqb_ℤ}
use dapper_distributed_traci.Table.{Table, lookup, insert, is_set}
use dapper_distributed_traci.Wire.{Span}
use dapper_distributed_traci.Clock.{compare, concurrent}
use dapper_distributed_traci.Ordering.{clock_of}

pub is_concurrent : Span → Span → Bool
is_concurrent a b = eqb_ℤ (compare (clock_of a) (some (clock_of b))) concurrent

-- The inner loop: the group so far, and the map `processed`.
pub record Group : Type 0 where
  pub members : List Span
  pub processed : Table Bool

pub join : Span → Span → Group → Group
join span1 span2 g =
    if span1.span_id == span2.span_id || is_set span2.span_id g.processed
    then g
    else if is_concurrent span1 span2
    then record {
      members = g.members ++ span2 ∷ [];
      processed = insert span2.span_id true g.processed;
    }
    else g

pub join_all : Span → List Span → Group → Group
join_all span1 [] g = g
join_all span1 (span2 ∷ rest) g = join_all span1 rest (join span1 span2 g)

-- The outer loop: the groups so far, and the map `processed`.
pub record Found : Type 0 where
  pub found : List (List Span)
  pub processed : Table Bool

pub start_group : Span → Table Bool → Group
start_group span1 processed = record {
  members = span1 ∷ [];
  processed = insert span1.span_id true processed;
}

-- Only a group with more than one span is kept.
pub add_group : List (List Span) → List Span → List (List Span)
add_group found group = if ltb 1 (length group) then found ++ group ∷ [] else found

pub group_span : List Span → Span → Found → Found
group_span spans span1 s =
    if is_set span1.span_id s.processed
    then s
    else let g = join_all span1 spans (start_group span1 s.processed) in
      record { found = add_group s.found g.members; processed = g.processed }

pub group_all : List Span → List Span → Found → Found
group_all spans [] s = s
group_all spans (span1 ∷ rest) s = group_all spans rest (group_span spans span1 s)

pub detect_concurrent_events : List Span → List (List Span)
detect_concurrent_events spans =
    (group_all spans spans (record { found = []; processed = [] })).found
