-- ===== src/Concurrent/Groups.antt =====
-- The groups of `DetectConcurrentEvents` have two spans or more, are concurrent with their first
-- span, and share no id.
use dapper_distributed_traci.Prelude.{
  suc, ◌≤◌, String, ◌≡◌, refl, Bool, true, false, ◌||◌, List, [], ◌∷◌, ◌++◌, arith, ◌==◌,
  if◌then◌else◌, length, All, All-append, has, has-append, Distinct, Distinct-snoc, ap, Bool-cases,
  inl, inr, ltb,
}
use mathlib.Core.List.{append_assoc, append-nil}
use dapper_distributed_traci.Table.{Table, insert, is_set}
use dapper_distributed_traci.Table.Laws.{lookup-insert}
use dapper_distributed_traci.Wire.{Span}
use dapper_distributed_traci.Concurrent.{
  is_concurrent, Group, join, join_all, Found, start_group, add_group, group_span, group_all,
  detect_concurrent_events,
}

abbrev pub ids_of : List Span → List String
ids_of [] = []
ids_of (s ∷ rest) = s.span_id ∷ ids_of rest

abbrev pub ids_of_all : List (List Span) → List String
ids_of_all [] = []
ids_of_all (g ∷ rest) = ids_of g ++ ids_of_all rest

-- A first span, with which every other of at least one more is concurrent.
abbrev pub IsGroup : List Span → Type 0
IsGroup [] = ⊥
IsGroup (first ∷ others) = (1 ≤ length others) × All (λ s. is_concurrent first s ≡ true) others

set_insert :
    (k j : String) (m : Table Bool)
    → is_set j (insert k true m) ≡ (if k == j then true else is_set j m)
set_insert k j m = ground (arith, lookup-insert k j true m)

-- The group under construction: `first` leads, all else is concurrent with it, and what it and the
-- groups before it hold has been processed and is held once.
record IsPartial (first : Span) (before : List String) (g : Group) : Type 0 where
  others : List Span
  leads : g.members ≡ first ∷ others
  agrees : All (λ s. is_concurrent first s ≡ true) others
  once : Distinct (before ++ ids_of g.members)
  seen : (k : String) → has k (before ++ ids_of g.members) ≡ true → is_set k g.processed ≡ true

ids_of-append : (xs ys : List Span) → ids_of (xs ++ ys) ≡ ids_of xs ++ ids_of ys
ids_of-append [] ys = refl
ids_of-append (x ∷ xs) ys = ground (arith, ids_of-append xs ys)

held-snoc :
    (before : List String) (xs : List Span) (s : Span)
    → before ++ ids_of (xs ++ s ∷ []) ≡ (before ++ ids_of xs) ++ s.span_id ∷ []
held-snoc before xs s = simp (ids_of-append xs (s ∷ []), append_assoc)

joined :
    (first : Span) (before : List String) (s : Span) (g : Group)
    → IsPartial first before g
    → is_set s.span_id g.processed ≡ false
    → is_concurrent first s ≡ true
    → IsPartial first before
        (record { members = g.members ++ s ∷ []; processed = insert s.span_id true g.processed })
joined first before s g h new agree =
    let fresh : has s.span_id (before ++ ids_of g.members) ≡ false =
      ground (arith, h.seen s.span_id) in
    record {
      others = h.others ++ s ∷ [];
      leads = ap (λ l. l ++ s ∷ []) h.leads;
      agrees =
          All-append (λ t. is_concurrent first t ≡ true) h.others (s ∷ []) h.agrees (agree, tt);
      once =
          rw (held-snoc before g.members s)
            (Distinct-snoc (before ++ ids_of g.members) s.span_id h.once fresh);
      seen = λ k. rw (held-snoc before g.members s) λ e. ground (
        arith,
        has-append k (before ++ ids_of g.members) (s.span_id ∷ []),
        h.seen k,
        set_insert s.span_id k g.processed,
      );
    }

join-IsPartial :
    (first : Span) (before : List String) (s : Span) (g : Group)
    → IsPartial first before g
    → IsPartial first before (join first s g)
unfolding join
join-IsPartial first before s g h =
    elim (Bool-cases (first.span_id == s.span_id || is_set s.span_id g.processed)) [
      | inl skip ↦ rw skip h
      | inr new ↦ elim (Bool-cases (is_concurrent first s)) [
        | inl agree ↦ rw (new, agree) (joined first before s g h (ground arith) agree)
        | inr differ ↦ rw (new, differ) h
      ]
    ]

join_all-IsPartial :
    (first : Span) (before : List String) (spans : List Span) (g : Group)
    → IsPartial first before g
    → IsPartial first before (join_all first spans g)
unfolding join_all
join_all-IsPartial first before [] g h = h
join_all-IsPartial first before (s ∷ rest) g h =
    join_all-IsPartial first before rest (join first s g) (join-IsPartial first before s g h)

-- The groups that were found, between two rounds of the outer loop.
record IsFound (s : Found) : Type 0 where
  each : All IsGroup s.found
  once : Distinct (ids_of_all s.found)
  seen : (k : String) → has k (ids_of_all s.found) ≡ true → is_set k s.processed ≡ true

start_group-IsPartial :
    (first : Span) (s : Found)
    → IsFound s
    → is_set first.span_id s.processed ≡ false
    → IsPartial first (ids_of_all s.found) (start_group first s.processed)
unfolding start_group
start_group-IsPartial first s h new = record {
  others = [];
  leads = refl;
  agrees = tt;
  once =
      Distinct-snoc (ids_of_all s.found) first.span_id h.once
        (ground (arith, h.seen first.span_id));
  seen = λ k e. ground (
    arith,
    has-append k (ids_of_all s.found) (first.span_id ∷ []),
    h.seen k,
    set_insert first.span_id k s.processed,
  );
}

ids_of_all-snoc :
    (found : List (List Span)) (g : List Span)
    → ids_of_all (found ++ g ∷ []) ≡ ids_of_all found ++ ids_of g
ids_of_all-snoc [] g = append-nil (ids_of g)
ids_of_all-snoc (x ∷ rest) g = simp (ids_of_all-snoc rest g, append_assoc)

partial-IsGroup :
    (first : Span) (before : List String) (g : Group)
    → IsPartial first before g
    → ltb 1 (length g.members) ≡ true
    → IsGroup g.members
partial-IsGroup first before g h many =
    let n : length g.members ≡ suc (length h.others) = ap (λ l. length l) h.leads in
    rw h.leads (ground arith, h.agrees)

group_span-IsFound :
    (spans : List Span) (first : Span) (s : Found) → IsFound s → IsFound (group_span spans first s)
unfolding group_span add_group
group_span-IsFound spans first s h = elim (Bool-cases (is_set first.span_id s.processed)) [
  | inl old ↦ rw old h
  | inr new ↦
      let g = join_all first spans (start_group first s.processed) in
      let p =
        join_all-IsPartial first (ids_of_all s.found) spans (start_group first s.processed)
          (start_group-IsPartial first s h new) in
      elim (Bool-cases (ltb 1 (length g.members))) [
        | inl many ↦
            rw (new, many)
              (record {
                each =
                    All-append IsGroup s.found (g.members ∷ []) h.each
                      (partial-IsGroup first (ids_of_all s.found) g p many, tt);
                once = rw (ids_of_all-snoc s.found g.members) p.once;
                seen = λ k. rw (ids_of_all-snoc s.found g.members) (p.seen k);
              })
        | inr single ↦
            rw (new, single)
              (record {
                each = h.each;
                once = h.once;
                seen = λ k e.
                    p.seen k (ground (arith, has-append k (ids_of_all s.found) (ids_of g.members)));
              })
      ]
]

group_all-IsFound :
    (spans rest : List Span) (s : Found) → IsFound s → IsFound (group_all spans rest s)
unfolding group_all
group_all-IsFound spans [] s h = h
group_all-IsFound spans (first ∷ rest) s h =
    group_all-IsFound spans rest (group_span spans first s) (group_span-IsFound spans first s h)

-- Every group that `DetectConcurrentEvents` returns has two spans or more, the clock of each is
-- concurrent with that of the first (`Compare` gives 0), and no id stands twice in all groups.
pub detect_concurrent_events_groups :
    (spans : List Span)
    → All IsGroup (detect_concurrent_events spans)
      × Distinct (ids_of_all (detect_concurrent_events spans))
unfolding detect_concurrent_events
detect_concurrent_events_groups spans =
    let h =
      group_all-IsFound spans spans (record { found = []; processed = [] })
        (record { each = tt; once = tt; seen = λ k e. cc }) in
    (h.each, h.once)
