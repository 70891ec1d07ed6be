-- ===== src/Ring/Window.antt =====
-- The live window of a ring buffer, `[baseSeq, nextSeq)` (internal/media/ring_buffer.go).
use p2ptogether.Prelude.{
  ℕ, zero, suc, ◌+◌, ◌^◌, ◌≤◌, ◌<◌, ◌≡◌, ◌≢◌, some, List, [], arith, length, get_elem?, length-set,
  length-replicate, nat_eq, sym, ap, ◌∙◌, inl, inr, replicate, zero, get_elem?-set_cases,
}
use p2ptogether.Ring.{
  Segment, RingBuffer, Float64, u32, slot, write, write_at, reset, raise_next, maybe_advance_base,
  place, publish_event, no_segment,
}

-- The window fits the buffer, and a slot with a payload holds a number below `nextSeq`.
pub record IsValid (rb : RingBuffer) : Type 0 where
  pub capacity_pos : 0 < rb.capacity
  pub capacity_fits : rb.capacity < 2 ^ 32
  pub full_length : length rb.buf ≡ rb.capacity
  pub ordered : rb.base_seq ≤ rb.next_seq
  pub bounded : rb.next_seq ≤ rb.base_seq + rb.capacity
  pub next_fits : rb.next_seq < 2 ^ 32
  pub stored :
      (i : ℕ) (s : Segment) → get_elem? rb.buf i ≡ some s → s.payload ≢ [] → s.seq < rb.next_seq

pub u32_small : (n : ℕ) → n < 2 ^ 32 → u32 n ≡ n
u32_small n h = omega arith

-- The window after a write at `seq`.
pub record Raised (seq : ℕ) (rb after : RingBuffer) : Type 0 where
  pub same_capacity : after.capacity ≡ rb.capacity
  pub same_buf : after.buf ≡ rb.buf
  pub next_covers : seq < after.next_seq
  pub next_grows : rb.next_seq ≤ after.next_seq
  pub next_small : after.next_seq < 2 ^ 32
  pub base_grows : rb.base_seq ≤ after.base_seq
  pub base_le_next : after.base_seq ≤ after.next_seq
  pub window_fits : after.next_seq ≤ after.base_seq + after.capacity

pub raise_next_lem :
    (seq : ℕ) (rb : RingBuffer) → IsValid rb → seq + 1 < 2 ^ 32 → Raised seq rb (raise_next seq rb)
unfolding raise_next maybe_advance_base
raise_next_lem seq rb v h =
    let c1 = v.capacity_pos in
    let c2 = v.capacity_fits in
    let c3 = v.ordered in
    let c4 = v.bounded in
    let c5 = v.next_fits in ground (arith, u32_small (seq + 1) h, u32_small rb.capacity c2)

pub raise_next-IsValid :
    (seq : ℕ) (rb : RingBuffer) → IsValid rb → seq + 1 < 2 ^ 32 → IsValid (raise_next seq rb)
raise_next-IsValid seq rb v h =
    let r = raise_next_lem seq rb v h in
    let c1 = v.capacity_pos in
    let c2 = v.capacity_fits in
    let n = r.next_grows in
    let c = r.same_capacity in
    record {
      capacity_pos = omega arith;
      capacity_fits = omega arith;
      full_length = ap length r.same_buf ∙ v.full_length ∙ sym c;
      ordered = r.base_le_next;
      bounded = r.window_fits;
      next_fits = r.next_small;
      stored =
          λ i s e p. omega (arith, v.stored i s (sym (ap (λ b. get_elem? b i) r.same_buf) ∙ e) p);
    }

place-IsValid :
    (new : Segment) (rb : RingBuffer) → IsValid rb → new.seq < rb.next_seq → IsValid (place new rb)
unfolding place
place-IsValid new rb v h = record {
  capacity_pos = v.capacity_pos;
  capacity_fits = v.capacity_fits;
  full_length = length-set rb.buf (slot new.seq rb) new ∙ v.full_length;
  ordered = v.ordered;
  bounded = v.bounded;
  next_fits = v.next_fits;
  stored = λ i s e p. elim (get_elem?-set_cases rb.buf (slot new.seq rb) i new e) [
    | inl written ↦ omega (arith, ap (λ x. x.seq) written)
    | inr kept ↦ v.stored i s kept p
  ];
}

publish_event-IsValid : (seq : ℕ) (rb : RingBuffer) → IsValid rb → IsValid (publish_event seq rb)
unfolding publish_event
publish_event-IsValid seq rb v = ground arith

pub replicate-payload :
    (n i : ℕ) {s : Segment} → get_elem? (replicate n no_segment) i ≡ some s → s.payload ≡ []
replicate-payload zero i e = cc
replicate-payload (suc n) zero e = ground arith
replicate-payload (suc n) (suc i) e = replicate-payload n i e

-- A write at a number below 2^32 - 1 keeps the window within the buffer.
pub write_at-IsValid :
    (seq : ℕ) (payload : List ℕ) (pts duration : Float64) (now : ℕ) (rb : RingBuffer)
    → IsValid rb
    → seq + 1 < 2 ^ 32
    → IsValid (write_at seq payload pts duration now rb)
unfolding write_at
write_at-IsValid seq payload pts duration now rb v h =
    let r = raise_next_lem seq rb v h in
    let v' = raise_next-IsValid seq rb v h in
    let new : Segment = record {
      seq = seq;
      payload = payload;
      pts = pts;
      time = now;
      actual_duration = duration;
    } in
    let placed =
      publish_event-IsValid seq _ (place-IsValid new (raise_next seq rb) v' r.next_covers) in
    ground (arith, v', placed)

-- A local write takes the next number and, but for the event, does what a write at that number does.
pub write-write_at :
    (payload : List ℕ) (pts duration : Float64) (now : ℕ) (rb : RingBuffer)
    → IsValid rb
    → rb.next_seq + 1 < 2 ^ 32
    → let (seq, after) = write payload pts duration now rb in
      (seq ≡ rb.next_seq)
      × (write_at rb.next_seq payload pts duration now rb ≡ publish_event rb.next_seq after)
unfolding write write_at raise_next maybe_advance_base publish_event place
write-write_at payload pts duration now rb v h =
    let c1 = v.capacity_pos in
    let c2 = v.capacity_fits in let c3 = v.ordered in let c4 = v.bounded in ground arith

pub reset-IsValid :
    (base : ℕ) (rb : RingBuffer) → IsValid rb → base < 2 ^ 32 → IsValid (reset base rb)
unfolding reset
reset-IsValid base rb v h = record {
  capacity_pos = v.capacity_pos;
  capacity_fits = v.capacity_fits;
  full_length = length-replicate (length rb.buf) no_segment ∙ v.full_length;
  ordered = omega arith;
  bounded = omega arith;
  next_fits = h;
  stored = λ i s e p. absurd (p (replicate-payload (length rb.buf) i e));
}
