-- ===== src/Gossip/Video.antt =====
-- Segments received from other peers (main.go).
use p2ptogether.Prelude.{
  ℕ, [], ◌∷◌, ◌+◌, ◌%◌, ◌<◌, ◌^◌, ◌≡◌, refl, ◌∙◌, true, false, none, some, List, ltb, ◌==◌, nat_eq,
  if◌then◌else◌,
}
use p2ptogether.Names.{is_empty}
use p2ptogether.Permissions.{perm_view}
use p2ptogether.Ring.{Segment, RingBuffer, find, idx_for, write_at, set_publish_events}
use p2ptogether.Ring.Window.{IsValid}
use p2ptogether.Ring.Lookup.{find-write_at}
use p2ptogether.Ring.Quiet.{find-set_publish_events, set_publish_events-IsValid, write_at_quiet}
use p2ptogether.Server.{Server, allowed}
use p2ptogether.Gossip.{receive_video_segment}

-- Writes by `WriteAt`, in this order.
abbrev pub writes : List Segment → RingBuffer → RingBuffer
writes [] rb = rb
writes (new ∷ news) rb =
    writes news (write_at new.seq new.payload new.pts new.actual_duration new.time rb)

-- A peer that may view and receives a segment of another peer stores it as `WriteAt` does, counts
-- its bytes, and queues no event that would publish it again; publishing is on afterwards. No other
-- goroutine uses the buffer between the three calls, the buffer is valid, and the number of the
-- segment is below 2^32 - 1.
pub receive_video_segment_lem :
    (from seq : ℕ) (payload : List ℕ) (duration size time : ℕ) (s : Server)
    → IsValid s.node.ring_buffer
    → seq + 1 < 2 ^ 32
    → (from == s.node.id) ≡ false
    → allowed s s.node.id perm_view ≡ true
    → let after =
        (receive_video_segment
          (writes [])
          (writes [])
          from
          seq
          payload
          duration
          size
          time
          s).node in
      let before = s.node.ring_buffer in
      let new : Segment = record {
        seq = seq;
        payload = payload;
        pts = 0;
        time = time;
        actual_duration = duration;
      } in
      (after.ring_buffer.events ≡ before.events)
      × (after.ring_buffer.publish_events ≡ true)
      × (after.bytes_down ≡ (s.node.bytes_down + size) % 2 ^ 64)
      × ((j : ℕ)
          → find j after.ring_buffer ≡ (
              if ltb j after.ring_buffer.base_seq
              then none
              else if j == seq
              then (if is_empty payload then none else some new)
              else find j before))
unfolding receive_video_segment set_publish_events find idx_for
receive_video_segment_lem from seq payload duration size time s v fits other may =
    let rb = s.node.ring_buffer in
    let quiet = set_publish_events false rb in
    let new : Segment = record {
      seq = seq;
      payload = payload;
      pts = 0;
      time = time;
      actual_duration = duration;
    } in
    let stored : RingBuffer = write_at seq payload 0 duration time quiet in
    let silent = write_at_quiet new quiet refl in
    let found = λ (j : ℕ). find-write_at j new quiet (set_publish_events-IsValid false rb v) fits in
    rw (other, may) (silent, refl, refl, λ j. find-set_publish_events j true stored ∙ found j)
