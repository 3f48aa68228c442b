-- ===== src/Buffer/Adding.antt =====
-- `Add` keeps the newest spans, in their order, within the size.
use dapper_distributed_traci.Prelude.{
  ℕ, zero, suc, ◌+◌, ◌-◌, ◌≤◌, ◌≡◌, refl, ap, sym, ◌∙◌, true, List, [], ◌∷◌, ◌++◌, arith, length,
  drop, length-append, length-drop, ok, if◌then◌else◌, leb,
}
use dapper_distributed_traci.Prelude.Int.{pos, leb_ℤ}
use mathlib.Core.List.{append-nil, append_assoc}
use dapper_distributed_traci.Span.{Span}
use dapper_distributed_traci.Buffer.{SpanBuffer, add, add_all, drop_oldest}

pub drop_snoc {ℓ} :
    {A : Type ℓ} (n : ℕ) (xs : List A) (x : A)
    → n ≤ length xs
    → drop n (xs ++ x ∷ []) ≡ drop n xs ++ x ∷ []
drop_snoc zero xs x h = refl
drop_snoc (suc n) [] x h = absurd (omega arith)
drop_snoc (suc n) (y ∷ ys) x h = drop_snoc n ys x (omega arith)

-- How many spans the oldest part holds that has to go: none, or one where the buffer is full.
excess : (l n : ℕ) → l ≤ n → 1 ≤ n → l + 1 - n ≡ (if leb n l then 1 else 0)
excess l n h p = ground arith

room : (spans : List Span) (n : ℕ) → List Span
room spans n = drop (length spans + 1 - n) spans

room_lem :
    (spans : List Span) (n : ℕ)
    → 1 ≤ n
    → length spans ≤ n
    → (if leb n (length spans) then drop_oldest spans else ok spans) ≡ ok (room spans n)
unfolding room drop_oldest
room_lem [] n p h = rw (excess 0 n h p) (ground arith)
room_lem (x ∷ rest) n p h = rw (excess (suc (length rest)) n h p) (ground arith)

add_lem :
    (span : Span) (b : SpanBuffer) (n : ℕ)
    → b.config.size ≡ pos n
    → 1 ≤ n
    → length b.spans ≤ n
    → add span b ≡ ok (record b { spans = room b.spans n ++ span ∷ []; dirty = true })
unfolding add
add_lem span b n s p h =
    let e : (if leb_ℤ b.config.size (pos (length b.spans)) then drop_oldest b.spans else ok b.spans)
        ≡ ok (room b.spans n) =
      rw s (ground (arith, room_lem b.spans n p h)) in
    rw e refl

-- In a buffer of size n, at least 1, that holds no more than n spans, `Add` leaves the last n of
-- the spans and the new one, in their order; it does not panic.
pub add_newest :
    (span : Span) (b : SpanBuffer) (n : ℕ)
    → b.config.size ≡ pos n
    → 1 ≤ n
    → length b.spans ≤ n
    → (b' : SpanBuffer) × (add span b ≡ ok b')
      × (b'.spans ≡ drop (length b.spans + 1 - n) (b.spans ++ span ∷ []))
      × (length b'.spans ≤ n)
      × (b'.config ≡ b.config)
unfolding room
add_newest span b n s p h = (
  record b { spans = room b.spans n ++ span ∷ []; dirty = true },
  add_lem span b n s p h,
  sym (drop_snoc (length b.spans + 1 - n) b.spans span (omega arith)),
  omega (
    arith,
    length-append {0} (drop (length b.spans + 1 - n) b.spans) (span ∷ []),
    length-drop {0} (length b.spans + 1 - n) b.spans,
  ),
  refl,
)

-- Where there is room for all of them, the spans that are added stand behind the old ones.
pub add_all_room :
    (new : List Span) (b : SpanBuffer) (n : ℕ)
    → b.config.size ≡ pos n
    → 1 ≤ n
    → length b.spans + length new ≤ n
    → (b' : SpanBuffer) × (add_all new b ≡ ok b') × (b'.spans ≡ b.spans ++ new)
unfolding add_all
add_all_room [] b n s p h = (b, refl, sym (append-nil b.spans))
add_all_room (x ∷ rest) b n s p h =
    let (b1, at, spans1, short, same) = add_newest x b n s p (omega arith) in
    let none_go : length b.spans + 1 - n ≡ 0 = omega arith in
    let grown : b1.spans ≡ b.spans ++ x ∷ [] = rw none_go at spans1 in
    let count : length b1.spans ≡ length b.spans + 1 =
      ap (λ l. length l) grown ∙ length-append b.spans (x ∷ []) in
    let (b2, at2, spans2) = add_all_room rest b1 n (rw same s) p (omega arith) in
    (b2, rw at at2, spans2 ∙ rw grown (append_assoc b.spans (x ∷ []) rest))
