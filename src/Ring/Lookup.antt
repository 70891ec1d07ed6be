-- ===== src/Ring/Lookup.antt =====
-- Lookups by sequence number after a write (internal/media/ring_buffer.go).
use p2ptogether.Prelude.{
  ℕ, zero, suc, ◌+◌, ◌*◌, ◌/◌, ◌%◌, ◌^◌, ◌≤◌, ◌<◌, ◌≡◌, ◌≢◌, refl, Option, none, some, arith, ltb,
  ◌==◌, nat_eq, if◌then◌else◌, length, set, get_elem?, sym, ap, ◌∙◌, get_elem?-set_self,
  get_elem?-set_ne, inl, inr, Option-cases, ◌⊎◌,
}
use p2ptogether.Names.{is_empty}
use p2ptogether.Ring.{
  Segment, RingBuffer, u32, slot, find, idx_for, write_at, raise_next, place, publish_event, holds,
}
use p2ptogether.Ring.Window.{IsValid, Raised, raise_next_lem, raise_next-IsValid, u32_small}

le_or_lt : (m n : ℕ) → (m ≤ n) ⊎ (n < m)
le_or_lt m n = ground arith

-- Two numbers of one window share no slot.
same_quotient : (c p q r : ℕ) → c * p + r < c * q + r + c → p ≤ q
same_quotient c zero zero r h = omega arith
same_quotient c (suc p) zero r h = absurd (omega arith)
same_quotient c zero (suc q) r h = omega arith
same_quotient c (suc p) (suc q) r h = omega (arith, same_quotient c p q r (omega arith))

mod_inj : (c i j : ℕ) → i < j + c → j < i + c → i % c ≡ j % c → i ≡ j
mod_inj c i j h k e =
    let p = same_quotient c (i / c) (j / c) (i % c) (omega arith) in
    let q = same_quotient c (j / c) (i / c) (i % c) (omega arith) in
    let same : i / c ≡ j / c = omega arith in omega (arith, ap (λ d. c * d) same)

-- What `find` makes of the content of the slot.
found : ℕ → Option Segment → Option Segment
found seq o = if holds seq o then o else none

find_inside :
    (seq : ℕ) (rb : RingBuffer)
    → rb.base_seq ≤ seq
    → seq < rb.next_seq
    → find seq rb ≡ found seq (get_elem? rb.buf (slot seq rb))
unfolding find idx_for found
find_inside seq rb h k = ground arith

pub find_outside :
    (seq : ℕ) (rb : RingBuffer) → (seq < rb.base_seq) ⊎ (rb.next_seq ≤ seq) → find seq rb ≡ none
unfolding find idx_for
find_outside seq rb h = ground arith

-- A slot holds no number that was never reached.
found_unreached :
    (seq i : ℕ) (rb : RingBuffer)
    → IsValid rb
    → rb.next_seq ≤ seq
    → found seq (get_elem? rb.buf i) ≡ none
unfolding found holds
found_unreached seq i rb v h = elim (Option-cases (get_elem? rb.buf i)) [
  | inl e ↦ rw e
  | inr (s, e) ↦ ground (arith, v.stored i s e)
]

find_grown :
    (j : ℕ) (rb after : RingBuffer)
    → IsValid rb
    → after.capacity ≡ rb.capacity
    → rb.base_seq ≤ after.base_seq
    → rb.next_seq ≤ after.next_seq
    → after.base_seq ≤ j
    → (j < after.next_seq → get_elem? after.buf (slot j rb) ≡ get_elem? rb.buf (slot j rb))
    → find j after ≡ find j rb
find_grown j rb after v c b n h same = elim (le_or_lt after.next_seq j) [
  | inl past ↦ find_outside j after (inr past) ∙ sym (find_outside j rb (inr (omega arith)))
  | inr inside ↦
      let slots : slot j after ≡ slot j rb = ap (λ k. j % u32 k) c in
      let now = find_inside j after h inside ∙ ap (λ i. found j (get_elem? after.buf i)) slots in
      let kept = now ∙ ap (found j) (same inside) in
      elim (le_or_lt rb.next_seq j) [
        | inl new ↦
            kept ∙ found_unreached j (slot j rb) rb v new ∙ sym (find_outside j rb (inr new))
        | inr old ↦ kept ∙ sym (find_inside j rb (omega arith) old)
      ]
]

-- Placing a segment changes no other slot of the window.
other_slot :
    (i j c base : ℕ)
    → c < 2 ^ 32
    → base ≤ i
    → base ≤ j
    → i < base + c
    → j < base + c
    → j ≢ i
    → i % u32 c ≢ j % u32 c
other_slot i j c base small h h' k k' ne e =
    let width = u32_small c small in
    ne (sym (mod_inj c i j (omega arith) (omega arith) (rw (← width) e)))

write_at_dropped :
    (new : Segment) (rb : RingBuffer)
    → IsValid rb
    → new.seq < (raise_next new.seq rb).base_seq
    → write_at new.seq new.payload new.pts new.actual_duration new.time rb ≡ raise_next new.seq rb
unfolding write_at
write_at_dropped new rb v h = ground (arith, v.capacity_pos)

write_at_placed :
    (new : Segment) (rb : RingBuffer)
    → IsValid rb
    → (raise_next new.seq rb).base_seq ≤ new.seq
    → write_at new.seq new.payload new.pts new.actual_duration new.time rb
      ≡ publish_event new.seq (place new (raise_next new.seq rb))
unfolding write_at
write_at_placed new rb v h = ground (arith, v.capacity_pos)

find-publish_event : (j seq : ℕ) (rb : RingBuffer) → find j (publish_event seq rb) ≡ find j rb
unfolding find idx_for publish_event
find-publish_event j seq rb = ground arith

base_seq-publish_event : (seq : ℕ) (rb : RingBuffer) → (publish_event seq rb).base_seq ≡ rb.base_seq
unfolding publish_event
base_seq-publish_event seq rb = ground arith

base_seq-place : (new : Segment) (rb : RingBuffer) → (place new rb).base_seq ≡ rb.base_seq
unfolding place
base_seq-place new rb = refl

find-place_self :
    (new : Segment) (rb : RingBuffer)
    → IsValid rb
    → rb.base_seq ≤ new.seq
    → new.seq < rb.next_seq
    → find new.seq (place new rb) ≡ (if is_empty new.payload then none else some new)
unfolding place found holds
find-place_self new rb v h k =
    let room : slot new.seq rb < length rb.buf =
      omega (arith, v.capacity_pos, v.full_length, v.capacity_fits) in
    find_inside new.seq (place new rb) h k
    ∙ ap (found new.seq) (get_elem?-set_self rb.buf (slot new.seq rb) new room)
    ∙ ground arith

find-place_other :
    (j : ℕ) (new : Segment) (rb : RingBuffer)
    → IsValid rb
    → IsValid (raise_next new.seq rb)
    → Raised new.seq rb (raise_next new.seq rb)
    → (raise_next new.seq rb).base_seq ≤ new.seq
    → (raise_next new.seq rb).base_seq ≤ j
    → j ≢ new.seq
    → find j (place new (raise_next new.seq rb)) ≡ find j rb
unfolding place
find-place_other j new rb v v' r h k ne =
    let after = raise_next new.seq rb in
    let width = r.same_capacity in
    find_grown j rb (place new after) v width r.base_grows r.next_grows k (λ inside.
      let apart =
        other_slot new.seq j after.capacity after.base_seq v'.capacity_fits h k
          (omega (arith, r.next_covers, r.window_fits)) (omega (arith, r.window_fits)) ne in
      ap (λ c. get_elem? (set after.buf (slot new.seq after) new) (j % u32 c)) (sym width)
      ∙ get_elem?-set_ne after.buf (slot new.seq after) (slot j after) new apart
      ∙ rw (r.same_buf, width))

find_after_placing :
    (j : ℕ) (new : Segment) (rb : RingBuffer)
    → IsValid rb
    → IsValid (raise_next new.seq rb)
    → Raised new.seq rb (raise_next new.seq rb)
    → (raise_next new.seq rb).base_seq ≤ new.seq
    → find j (publish_event new.seq (place new (raise_next new.seq rb))) ≡ (
        if ltb j (publish_event new.seq (place new (raise_next new.seq rb))).base_seq
        then none
        else if j == new.seq
        then (if is_empty new.payload then none else some new)
        else find j rb)
find_after_placing j new rb v v' r live =
    let after = raise_next new.seq rb in
    let placed = place new after in
    let base = base_seq-publish_event new.seq placed ∙ base_seq-place new after in
    find-publish_event j new.seq placed
    ∙ ground (
      arith,
      base,
      λ (e : j ≡ new.seq). ap (λ i. find i placed) e,
      find-place_self new after v' live r.next_covers,
      find-place_other j new rb v v' r live,
      λ (low : j < after.base_seq).
          find_outside j placed (inl (omega (arith, base_seq-place new after))),
    )

find_after_dropping :
    (j : ℕ) (new : Segment) (rb : RingBuffer)
    → IsValid rb
    → Raised new.seq rb (raise_next new.seq rb)
    → new.seq < (raise_next new.seq rb).base_seq
    → find j (raise_next new.seq rb) ≡ (
        if ltb j (raise_next new.seq rb).base_seq
        then none
        else if j == new.seq
        then (if is_empty new.payload then none else some new)
        else find j rb)
find_after_dropping j new rb v r late =
    let after = raise_next new.seq rb in
    let grown = λ (high : after.base_seq ≤ j).
      find_grown j rb after v r.same_capacity r.base_grows r.next_grows high
        (λ inside. ap (λ b. get_elem? b (slot j rb)) r.same_buf) in
    let low = λ (low : j < after.base_seq). find_outside j after (inl low) in
    ground (arith, grown, low)

-- After a write at a number below 2^32 - 1, a number below the live window finds nothing, the
-- written number finds the new segment if it has data, and every other number what it found before.
pub find-write_at :
    (j : ℕ) (new : Segment) (rb : RingBuffer)
    → IsValid rb
    → new.seq + 1 < 2 ^ 32
    → let after = write_at new.seq new.payload new.pts new.actual_duration new.time rb in
      find j after ≡ (
        if ltb j after.base_seq
        then none
        else if j == new.seq
        then (if is_empty new.payload then none else some new)
        else find j rb)
find-write_at j new rb v h =
    let after = raise_next new.seq rb in
    let r = raise_next_lem new.seq rb v h in
    let v' = raise_next-IsValid new.seq rb v h in
    elim (le_or_lt after.base_seq new.seq) [
      | inl live ↦ rw (write_at_placed new rb v live, find_after_placing j new rb v v' r live)
      | inr late ↦ rw (write_at_dropped new rb v late, find_after_dropping j new rb v r late)
    ]
