-- ===== src/Queue/Playback.antt =====
-- The items that are played, and the current item after a removal (internal/p2p/queue.go).
use p2ptogether.Prelude.{
  ℕ, zero, suc, ◌+◌, ◌-◌, ◌≤◌, ◌<◌, ◌≡◌, refl, none, some, List, [], ◌∷◌, arith, length, drop,
  get_elem?, length-erase_at, get_elem?-erase_at_lt, get_elem?-erase_at_ge, Option-cases, inl, inr,
  get_elem?-lt, ap, nat_eq, ltb, ◌==◌, if◌then◌else◌, ◌∙◌,
}
use native.Mathlib.Numerals.{add-one}
use p2ptogether.Prelude.Int.{pos, minus_one}
use p2ptogether.Queue.{QueueItem, Queue, head, advance_cursor, remove}
use p2ptogether.Queue.Cursor.{at}

-- The items that repeated calls of `AdvanceCursor` return, until one returns false.
unfoldable pub play : ℕ → Queue → List QueueItem × Queue
play zero q = ([], q)
play (suc fuel) q =
    let (item, q') = advance_cursor q in
    elim item [
      | none ↦ ([], q')
      | some item ↦ let (items, end) = play fuel q' in (item ∷ items, end)
    ]

drop_step {ℓ} :
    {A : Type ℓ} (xs : List A) (i : ℕ) {x : A}
    → get_elem? xs i ≡ some x
    → drop i xs ≡ x ∷ drop (suc i) xs
drop_step [] i e = cc
drop_step (y ∷ xs) zero e = ground arith
drop_step (y ∷ xs) (suc i) e = drop_step xs i e

drop_past {ℓ} : {A : Type ℓ} (xs : List A) (i : ℕ) → length xs ≤ i → drop i xs ≡ []
drop_past [] zero h = refl
drop_past [] (suc i) h = refl
drop_past (x ∷ xs) zero h = absurd (omega arith)
drop_past (x ∷ xs) (suc i) h = drop_past xs i (omega arith)

get_elem?-none_le {ℓ} : {A : Type ℓ} (xs : List A) (i : ℕ) → get_elem? xs i ≡ none → length xs ≤ i
get_elem?-none_le [] i e = omega arith
get_elem?-none_le (x ∷ xs) zero e = cc
get_elem?-none_le (x ∷ xs) (suc i) e = omega (arith, get_elem?-none_le xs i e)

advance_inside :
    (items : List QueueItem) (i : ℕ) {item : QueueItem}
    → get_elem? items (suc i) ≡ some item
    → advance_cursor (at items (pos i)) ≡ (some item, at items (pos (suc i)))
unfolding advance_cursor
advance_inside items i e =
    let inside = get_elem?-lt items (suc i) e in ground (arith, ap (get_elem? items) (add-one i))

pub advance_last :
    (items : List QueueItem) (i : ℕ)
    → length items ≤ suc i
    → advance_cursor (at items (pos i)) ≡ (none, at items minus_one)
unfolding advance_cursor
advance_last items i h = ground arith

play_end :
    (fuel : ℕ) (q : Queue) {q' : Queue}
    → advance_cursor q ≡ (none, q')
    → play (suc fuel) q ≡ ([], q')
unfolding play
play_end fuel q e = ground (arith, e)

play_next :
    (fuel : ℕ) (q : Queue) {q' : Queue} {item : QueueItem}
    → advance_cursor q ≡ (some item, q')
    → play (suc fuel) q ≡ (item ∷ (play fuel q').0, (play fuel q').1)
unfolding play
play_next fuel q e = ground (arith, e)

-- From the item at the cursor, repeated advances return all later items in order, each once, and end
-- with no current item; as many calls as there are items are enough.
pub play_lem :
    (fuel : ℕ) (items : List QueueItem) (i : ℕ)
    → length items ≤ i + fuel
    → 0 < fuel
    → i < length items
    → play fuel (at items (pos i)) ≡ (drop (suc i) items, at items minus_one)
play_lem zero items i h k l = absurd (omega arith)
play_lem (suc fuel) items i h k l = elim (Option-cases (get_elem? items (suc i))) [
  | inl e ↦
      let past = get_elem?-none_le items (suc i) e in
      play_end fuel (at items (pos i)) (advance_last items i past)
      ∙ rw (drop_past items (suc i) past)
  | inr (item, e) ↦
      let inside = get_elem?-lt items (suc i) e in
      let rest = play_lem fuel items (suc i) (omega arith) (omega arith) inside in
      play_next fuel (at items (pos i)) (advance_inside items i e)
      ∙ rw (rest, drop_step items (suc i) e)
]

-- Removing the item at an index: another current item stays current; for the current one the next
-- item becomes current, or the one before it if it was the last, or none if it was the only one.
pub head-remove :
    (items : List QueueItem) (c i : ℕ)
    → c < length items
    → i < length items
    → head (remove (pos i) (at items (pos c))).1 ≡ (
        if i == c
        then (if ltb (c + 1) (length items)
            then get_elem? items (c + 1)
            else if c == 0
            then none
            else get_elem? items (c - 1))
        else get_elem? items c)
unfolding head remove
head-remove items zero i h k = ground (
  arith,
  length-erase_at items i,
  get_elem?-erase_at_lt items i 0,
  get_elem?-erase_at_ge items i 0,
  ap (get_elem? items) (add-one 0),
)
head-remove items (suc c) i h k =
    let before : suc c - 1 ≡ c = omega arith in
    ground (
      arith,
      length-erase_at items i,
      get_elem?-erase_at_lt items i (suc c),
      get_elem?-erase_at_lt items i c,
      get_elem?-erase_at_ge items i c,
      get_elem?-erase_at_ge items i (suc c),
      ap (get_elem? items) (add-one (suc c)),
      ap (get_elem? items) before,
    )
