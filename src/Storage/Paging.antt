-- ===== src/Storage/Paging.antt =====
-- The window that the limit and the offset cut out of a list of traces.
use dapper_distributed_traci.Prelude.{
  ℕ, zero, suc, ◌+◌, ◌≤◌, ◌≡◌, refl, ap, sym, ◌∙◌, true, false, some, List, [], ◌∷◌, arith, length,
  drop, take, Result, ok, panic, Bool, Option, keep, if◌then◌else◌, leb, ltb, Bool-cases, inl, inr,
}
use dapper_distributed_traci.Prelude.Int.{ℤ, pos, negsuc, leb_ℤ, ltb_ℤ, ◌+ℤ◌}
use dapper_distributed_traci.Time.{Time}
use dapper_distributed_traci.Wire.{Timestamp, Span, Trace, FilterCriteria}
use dapper_distributed_traci.Storage.{
  MemoryStorage, page, slice, comes_first, matches_filter, values, list_in_memory,
}

drop_past {ℓ} : {A : Type ℓ} (n : ℕ) (xs : List A) → length xs ≤ n → drop n xs ≡ []
drop_past zero [] h = refl
drop_past zero (x ∷ xs) h = absurd (omega arith)
drop_past (suc n) [] h = refl
drop_past (suc n) (x ∷ xs) h = drop_past n xs (omega arith)

take_nothing {ℓ} : {A : Type ℓ} (n : ℕ) (xs : List A) → xs ≡ [] → take n xs ≡ []
take_nothing zero xs e = refl
take_nothing (suc n) xs e = rw e refl

drop-take {ℓ} :
    {A : Type ℓ} (o e l : ℕ) (xs : List A) → e ≡ o + l → drop o (take e xs) ≡ take l (drop o xs)
drop-take zero e l xs h = let same : e ≡ l = omega arith in ap (λ n. take n xs) same
drop-take (suc o) zero l xs h = absurd (omega arith)
drop-take (suc o) (suc e) l [] h = sym (take_nothing l [] refl)
drop-take (suc o) (suc e) l (x ∷ xs) h = drop-take o e l xs (omega arith)

take_past {ℓ} : {A : Type ℓ} (n : ℕ) (xs : List A) → length xs ≤ n → take n xs ≡ xs
take_past zero [] h = refl
take_past zero (x ∷ xs) h = absurd (omega arith)
take_past (suc n) [] h = refl
take_past (suc n) (x ∷ xs) h = ap (λ r. x ∷ r) (take_past n xs (omega arith))

-- How many traces a limit lets through: all, where it is not positive.
abbrev pub window : ℤ → ℕ → ℕ
window (pos zero) n = n
window (pos (suc l)) n = suc l
window (negsuc l) n = n

-- What a limit and an offset make of all the traces that match.
abbrev pub windowed {ℓ} : {A : Type ℓ} → ℤ → ℤ → List A → Result (List A)
windowed (pos o) limit xs = ok (take (window limit (length xs)) (drop o xs))
windowed (negsuc o) limit xs = panic

-- The first traces of a window that starts at o and has room for l.
cut_lem {ℓ} :
    {A : Type ℓ} (o l : ℕ) (xs : List A)
    → (if leb (length xs) o
        then ok []
        else slice (pos o) (if ltb (length xs) (o + l) then pos (length xs) else pos (o + l)) xs)
      ≡ ok (take l (drop o xs))
unfolding slice
cut_lem o l xs = elim (Bool-cases (leb (length xs) o)) [
  | inl past ↦ rw past (ap ok (sym (take_nothing l (drop o xs) (drop_past o xs (ground arith)))))
  | inr inside ↦ elim (Bool-cases (ltb (length xs) (o + l))) [
    | inl short ↦
        let low : leb o (length xs) ≡ true = ground arith in
        let high : leb (length xs) (length xs) ≡ true = ground arith in
        rw (inside, short, low, high)
          (ap (λ ys. ok (drop o ys))
              (take_past (length xs) xs (omega arith) ∙ sym (take_past (o + l) xs (ground arith)))
            ∙ ap ok (drop-take o (o + l) l xs refl))
    | inr long ↦
        let low : leb o (o + l) ≡ true = ground arith in
        let high : leb (o + l) (length xs) ≡ true = ground arith in
        rw (inside, long, low, high) (ap ok (drop-take o (o + l) l xs refl))
  ]
]

add_pos : (a b : ℕ) → pos a +ℤ pos b ≡ pos (a + b)
unfolding ◌+ℤ◌
add_pos a b = ground arith

leb_pos : (a b : ℕ) → leb_ℤ (pos a) (pos b) ≡ leb a b
leb_pos a b = ground arith

ltb_pos : (a b : ℕ) → ltb_ℤ (pos a) (pos b) ≡ ltb a b
ltb_pos a b = ground arith

-- `cut_lem` for the integers that the program computes with.
cut_pos {ℓ} :
    {A : Type ℓ} (o l : ℕ) (xs : List A)
    → (let end = pos o +ℤ pos l in
        if leb_ℤ (pos (length xs)) (pos o)
        then ok []
        else slice (pos o) (if ltb_ℤ (pos (length xs)) end then pos (length xs) else end) xs)
      ≡ ok (take l (drop o xs))
cut_pos o l xs =
    rw (add_pos o l, leb_pos (length xs) o, ltb_pos (length xs) (o + l)) (cut_lem o l xs)

cut-windowed {ℓ} :
    {A : Type ℓ} (offset limit : ℤ) (xs : List A)
    → (let size = pos (length xs) in
        let limit' = if leb_ℤ limit (pos 0) then size else limit in
        let end = offset +ℤ limit' in
        if leb_ℤ size offset then ok [] else slice offset (if ltb_ℤ size end then size else end) xs)
      ≡ windowed offset limit xs
unfolding slice
cut-windowed (pos o) (pos zero) xs = cut_pos o (length xs) xs
cut-windowed (pos o) (pos (suc l)) xs =
    let limited : leb_ℤ (pos (suc l)) (pos 0) ≡ false = ground arith in
    rw limited (cut_pos o (suc l) xs)
cut-windowed (pos o) (negsuc l) xs =
    let all : leb_ℤ (negsuc l) (pos 0) ≡ true = ground arith in rw all (cut_pos o (length xs) xs)
cut-windowed (negsuc o) limit xs =
    let inside : leb_ℤ (pos (length xs)) (negsuc o) ≡ false = ground arith in rw inside refl

pub page-windowed {ℓ} :
    {A : Type ℓ} (filter : FilterCriteria) (xs : List A)
    → page (some filter) xs ≡ windowed filter.offset filter.limit xs
unfolding page
page-windowed filter xs = cut-windowed filter.offset filter.limit xs

-- `ListTraces` of the storage in memory, with a filter, answers a window of the traces that match,
-- as `sort.Slice` leaves them: those from the offset on, and of these as many as the limit says, or
-- all, where it is not positive. A negative offset panics.
pub page_window :
    (as_time : Option Timestamp → Time)
    (sort_slice : (Trace Span → Trace Span → Bool) → List (Trace Span) → List (Trace Span))
    (filter : FilterCriteria) (s : MemoryStorage)
    → list_in_memory as_time sort_slice (some filter) s
      ≡ windowed filter.offset filter.limit (
          sort_slice
            (comes_first as_time)
            (keep (matches_filter as_time (some filter)) (values as_time s.traces)))
unfolding list_in_memory
page_window as_time sort_slice filter s = page-windowed filter (
    sort_slice (comes_first as_time)
      (keep (matches_filter as_time (some filter)) (values as_time s.traces)))
