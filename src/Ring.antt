-- ===== src/Ring.antt =====
-- peer_service/internal/media/ring_buffer.go: the segments of the live window, by sequence number.
--
-- Locks and log lines are left out: each method is one step. Sequence numbers are uint32, with the
-- wrap-around written out. A float64 is only stored and returned, so it stands by its bits, and
-- `now` is an argument. The channel of segment events is a list, oldest first.
pub mod Window
pub mod Lookup
pub mod Snapshot
pub mod Quiet
pub mod History
use p2ptogether.Prelude.{
  ℕ, zero, suc, ◌+◌, ◌-◌, ◌/◌, ◌%◌, ◌^◌, Bool, true, false, not, ◌||◌, Option, none, some, List, [],
  ◌∷◌, ◌++◌, ltb, leb, ◌==◌, nat_eq, if◌then◌else◌, length, set, get_elem?, replicate,
}
use p2ptogether.Names.{is_empty}

abbrev pub Float64 : Type 0
Float64 = ℕ

pub record Segment : Type 0 where
  pub seq : ℕ
  pub payload : List ℕ
  pub pts : Float64
  pub time : ℕ
  pub actual_duration : Float64

pub record RingBuffer : Type 0 where
  pub capacity : ℕ
  pub base_seq : ℕ
  pub next_seq : ℕ
  pub buf : List Segment
  pub head : ℕ
  pub events : List ℕ
  pub publish_events : Bool

-- A conversion to uint32.
abbrev pub u32 : ℕ → ℕ
u32 n = n % 2 ^ 32

-- `Segment{}`
abbrev pub no_segment : Segment
no_segment = record { seq = 0; payload = []; pts = 0; time = 0; actual_duration = 0 }

abbrev pub event_capacity : ℕ
event_capacity = 10

-- Segments of two seconds; `none` is the panic.
unfoldable pub new_ring_buffer : ℕ → Option RingBuffer
new_ring_buffer window =
    if not (window % 2 == 0) || window == 0
    then none
    else some (record {
      capacity = window / 2;
      base_seq = 0;
      next_seq = 0;
      buf = replicate (window / 2) no_segment;
      head = 0;
      events = [];
      publish_events = true;
    })

unfoldable pub maybe_advance_base : RingBuffer → RingBuffer
maybe_advance_base rb =
    let candidate = rb.next_seq - u32 rb.capacity in
    if rb.capacity == 0 || leb rb.next_seq (u32 rb.capacity)
    then rb
    else if ltb rb.base_seq candidate
    then record rb { base_seq = candidate }
    else rb

unfoldable pub set_publish_events : Bool → RingBuffer → RingBuffer
set_publish_events publish rb = record rb { publish_events = publish }

unfoldable pub len : RingBuffer → ℕ
len rb =
    let count = rb.next_seq - rb.base_seq in
    if leb rb.next_seq rb.base_seq then 0 else if ltb rb.capacity count then rb.capacity else count

-- The slot of a sequence number.
abbrev pub slot : ℕ → RingBuffer → ℕ
slot seq rb = seq % u32 rb.capacity

pub holds : ℕ → Option Segment → Bool
holds seq none = false
holds seq (some s) = not (not (s.seq == seq) || is_empty s.payload)

-- `none` is the index -1.
unfoldable pub idx_for : ℕ → RingBuffer → Option ℕ
unfolding holds
idx_for seq rb =
    if ltb seq rb.base_seq || leb rb.next_seq seq
    then none
    else if holds seq (get_elem? rb.buf (slot seq rb))
    then some (slot seq rb)
    else none

-- The segment at the index that `idxFor` gives: `buf[idx]`.
unfoldable pub find : ℕ → RingBuffer → Option Segment
find seq rb = elim (idx_for seq rb) [ none ↦ none | some i ↦ get_elem? rb.buf i ]

-- The segment in the slot of its number, with the write cursor.
pub place : Segment → RingBuffer → RingBuffer
place segment rb = record rb {
  buf = set rb.buf (slot segment.seq rb) segment;
  head = rb.next_seq % u32 rb.capacity;
}

unfoldable pub write : List ℕ → Float64 → Float64 → ℕ → RingBuffer → ℕ × RingBuffer
unfolding maybe_advance_base place
write payload pts duration now rb =
    let seq = rb.next_seq in
    let next = u32 (rb.next_seq + 1) in
    let segment : Segment = record {
      seq = seq;
      payload = payload;
      pts = pts;
      time = now;
      actual_duration = duration;
    } in
    (seq, maybe_advance_base (place segment (record rb { next_seq = next })))

-- The first `run` segments from `seq` on, up to a gap.
pub run : ℕ → ℕ → RingBuffer → List Segment
run zero seq rb = []
run (suc n) seq rb = elim (find seq rb) [ none ↦ [] | some s ↦ s ∷ run n (seq + 1) rb ]

pub scan : ℕ → ℕ → RingBuffer → ℕ × List Segment
unfolding run
scan zero seq rb = (rb.base_seq, [])
scan (suc n) seq rb = elim (find seq rb) [
  | none ↦ scan n (seq + 1) rb
  | some s ↦ (seq, s ∷ run n (seq + 1) rb)
]

unfoldable pub snapshot : RingBuffer → ℕ × List Segment
unfolding scan
snapshot rb = scan (rb.next_seq - rb.base_seq) rb.base_seq rb

payload_of : Option Segment → Option (List ℕ)
payload_of none = none
payload_of (some s) = some s.payload

unfoldable pub get : ℕ → RingBuffer → Option (List ℕ)
unfolding payload_of
get seq rb = payload_of (find seq rb)

duration_of : Option Segment → Float64
duration_of none = 0
duration_of (some s) = s.actual_duration

unfoldable pub get_segment_actual_duration : ℕ → RingBuffer → Float64
unfolding duration_of
get_segment_actual_duration seq rb = duration_of (find seq rb)

-- The send of an event; on a full channel it is dropped.
pub publish_event : ℕ → RingBuffer → RingBuffer
publish_event seq rb =
    if rb.publish_events
    then (if ltb (length rb.events) event_capacity
        then record rb { events = rb.events ++ seq ∷ [] }
        else rb)
    else rb

-- `nextSeq` after a write at `seq`, with the base that follows.
pub raise_next : ℕ → RingBuffer → RingBuffer
unfolding maybe_advance_base
raise_next seq rb =
    maybe_advance_base
      (record rb { next_seq = if leb rb.next_seq seq then u32 (seq + 1) else rb.next_seq })

unfoldable pub write_at : ℕ → List ℕ → Float64 → Float64 → ℕ → RingBuffer → RingBuffer
unfolding raise_next publish_event place
write_at seq payload pts duration now rb =
    let raised = raise_next seq rb in
    let segment : Segment = record {
      seq = seq;
      payload = payload;
      pts = pts;
      time = now;
      actual_duration = duration;
    } in
    if rb.capacity == 0
    then rb
    else if ltb seq raised.base_seq
    then raised
    else publish_event seq (place segment raised)

unfoldable pub reset : ℕ → RingBuffer → RingBuffer
reset base rb = record rb {
  base_seq = base;
  next_seq = base;
  head = 0;
  buf = replicate (length rb.buf) no_segment;
}
