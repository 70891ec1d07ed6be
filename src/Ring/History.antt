-- ===== src/Ring/History.antt =====
-- A ring buffer from its creation on (internal/media/ring_buffer.go).
use p2ptogether.Prelude.{
  ℕ, ◌+◌, ◌<◌, ◌^◌, ◌/◌, ◌%◌, ◌≡◌, subst, Bool, some, List, [], true, not, ◌||◌, ◌==◌, nat_eq,
  Bool-cases, inl, inr, arith, length-replicate, replicate,
}
use p2ptogether.Ring.{
  RingBuffer, Float64, new_ring_buffer, write, write_at, reset, set_publish_events, publish_event,
  no_segment,
}
use p2ptogether.Ring.Window.{
  IsValid, write_at-IsValid, write-write_at, reset-IsValid, replicate-payload,
}
use p2ptogether.Ring.Quiet.{set_publish_events-IsValid}

-- Windows below 2^33 seconds; sequence numbers below 2^32 - 1.
pub data Reached : RingBuffer → Type 0 where
  starts :
      (window : ℕ) {rb : RingBuffer}
      → new_ring_buffer window ≡ some rb
      → window < 2 ^ 33
      → Reached rb
  writes :
      {rb : RingBuffer} (payload : List ℕ) (pts duration : Float64) (now : ℕ)
      → Reached rb
      → rb.next_seq + 1 < 2 ^ 32
      → Reached (write payload pts duration now rb).1
  writes_at :
      {rb : RingBuffer} (seq : ℕ) (payload : List ℕ) (pts duration : Float64) (now : ℕ)
      → Reached rb
      → seq + 1 < 2 ^ 32
      → Reached (write_at seq payload pts duration now rb)
  resets : {rb : RingBuffer} (base : ℕ) → Reached rb → base < 2 ^ 32 → Reached (reset base rb)
  switches :
      {rb : RingBuffer} (publish : Bool) → Reached rb → Reached (set_publish_events publish rb)

without_event : (seq : ℕ) (rb : RingBuffer) → IsValid (publish_event seq rb) → IsValid rb
unfolding publish_event
without_event seq rb v = ground (arith, v)

fresh : ℕ → RingBuffer
fresh n = record {
  capacity = n;
  base_seq = 0;
  next_seq = 0;
  buf = replicate n no_segment;
  head = 0;
  events = [];
  publish_events = true;
}

fresh-IsValid : (n : ℕ) → 0 < n → n < 2 ^ 32 → IsValid (fresh n)
unfolding fresh
fresh-IsValid n h k = record {
  capacity_pos = h;
  capacity_fits = k;
  full_length = length-replicate n no_segment;
  ordered = omega arith;
  bounded = omega arith;
  next_fits = omega arith;
  stored = λ i s e p. absurd (p (replicate-payload n i e));
}

new_ring_buffer-IsValid :
    (window : ℕ) {rb : RingBuffer} → new_ring_buffer window ≡ some rb → window < 2 ^ 33 → IsValid rb
unfolding new_ring_buffer fresh
new_ring_buffer-IsValid window {rb} e h = elim (Bool-cases (not (window % 2 == 0) || window == 0)) [
  | inl bad ↦ absurd (ground arith)
  | inr good ↦
      let same : fresh (window / 2) ≡ rb = ground arith in
      subst IsValid same (fresh-IsValid (window / 2) (ground arith) (omega arith))
]

-- A ring buffer of a window below 2^33 seconds that was filled and reset in any order, with segments
-- whose numbers are below 2^32 - 1, is valid: its window fits the buffer, and a slot with data holds
-- a number below the next one.
pub Reached-IsValid : {rb : RingBuffer} → Reached rb → IsValid rb
Reached-IsValid (starts window e h) = new_ring_buffer-IsValid window e h
Reached-IsValid (writes {rb} payload pts duration now r h) =
    let v = Reached-IsValid r in
    let after = (write payload pts duration now rb).1 in
    let same = (write-write_at payload pts duration now rb v h).1 in
    let placed = write_at-IsValid rb.next_seq payload pts duration now rb v h in
    without_event rb.next_seq after (subst IsValid same placed)
Reached-IsValid (writes_at {rb} seq payload pts duration now r h) =
    write_at-IsValid seq payload pts duration now rb (Reached-IsValid r) h
Reached-IsValid (resets {rb} base r h) = reset-IsValid base rb (Reached-IsValid r) h
Reached-IsValid (switches {rb} publish r) =
    set_publish_events-IsValid publish rb (Reached-IsValid r)
