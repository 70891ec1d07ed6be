-- ===== src/Ring/Quiet.antt =====
-- Writes while the publishing of events is switched off (internal/media/ring_buffer.go).
use p2ptogether.Prelude.{ℕ, ◌≡◌, refl, Bool, false, arith}
use p2ptogether.Ring.{
  Segment, RingBuffer, find, idx_for, raise_next, publish_event, place, maybe_advance_base,
  write_at, set_publish_events,
}
use p2ptogether.Ring.Window.{IsValid}

pub find-set_publish_events :
    (j : ℕ) (b : Bool) (rb : RingBuffer) → find j (set_publish_events b rb) ≡ find j rb
unfolding find set_publish_events idx_for
find-set_publish_events j b rb = refl

pub set_publish_events-IsValid :
    (b : Bool) (rb : RingBuffer) → IsValid rb → IsValid (set_publish_events b rb)
unfolding set_publish_events
set_publish_events-IsValid b rb v = record {
  capacity_pos = v.capacity_pos;
  capacity_fits = v.capacity_fits;
  full_length = v.full_length;
  ordered = v.ordered;
  bounded = v.bounded;
  next_fits = v.next_fits;
  stored = v.stored;
}

-- With publishing switched off, a write queues no event.
pub write_at_quiet :
    (new : Segment) (rb : RingBuffer)
    → rb.publish_events ≡ false
    → (write_at new.seq new.payload new.pts new.actual_duration new.time rb).events ≡ rb.events
unfolding write_at raise_next publish_event place maybe_advance_base
write_at_quiet new rb h = ground arith

-- A write leaves the switch as it is.
pub publish_events-write_at :
    (new : Segment) (rb : RingBuffer)
    → (write_at new.seq new.payload new.pts new.actual_duration new.time rb).publish_events
      ≡ rb.publish_events
unfolding write_at raise_next publish_event place maybe_advance_base
publish_events-write_at new rb = ground arith
