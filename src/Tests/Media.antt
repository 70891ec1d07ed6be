-- ===== src/Tests/Media.antt =====
-- Runs of the queue and of the ring buffer.
use p2ptogether.Prelude.{◌≡◌, refl, none, some, [], ◌∷◌, arith, drop, if◌then◌else◌, nat_eq, ltb}
use p2ptogether.Prelude.Int.{pos, minus_one}
use p2ptogether.Names.{text}
use p2ptogether.Queue.{head, remove}
use p2ptogether.Queue.Cursor.{IsValid, at, call, removes, call-IsValid}
use p2ptogether.Queue.Playback.{play, play_lem, head-remove}
use p2ptogether.Ring.{RingBuffer, new_ring_buffer, write_at, reset, find, snapshot}
use p2ptogether.Ring.Window as Window
use p2ptogether.Ring.Window.{write-write_at}
use p2ptogether.Ring.Lookup.{find-write_at}
use p2ptogether.Ring.Snapshot.{FirstRun, snapshot-FirstRun}
use p2ptogether.Ring.History.{Reached, starts, writes_at, resets, Reached-IsValid}
use p2ptogether.Tests.Samples.{two_items, item, ring, segment}

call-IsValid_example : IsValid (call (removes (pos 1)) (at two_items (pos 1)))
call-IsValid_example =
    call-IsValid (removes (pos 1)) (at two_items (pos 1)) (record { cursor_in = omega arith })

play_example : play 2 (at two_items (pos 0)) ≡ (drop 1 two_items, at two_items minus_one)
play_example = play_lem 2 two_items 0 (omega arith) (omega arith) (omega arith)

head-remove_example : head (remove (pos 0) (at two_items (pos 0))).1 ≡ some (item (text "b.mkv") 2)
head-remove_example = head-remove two_items 0 0 (omega arith) (omega arith)

abbrev filled : RingBuffer
filled = write_at 3 (7 ∷ 8 ∷ []) 0 2 3 ring

ring-Reached : Reached ring
ring-Reached = starts 4 made (omega arith)
  where
    made : new_ring_buffer 4 ≡ some ring
    made = unfold new_ring_buffer in refl

Reached-IsValid_example : Window.IsValid (reset 9 filled)
Reached-IsValid_example =
    Reached-IsValid
      (resets 9 (writes_at 3 (7 ∷ 8 ∷ []) 0 2 3 ring-Reached (omega arith)) (omega arith))

ring-IsValid : Window.IsValid ring
ring-IsValid = Reached-IsValid ring-Reached

filled-IsValid : Window.IsValid filled
filled-IsValid = Reached-IsValid (writes_at 3 (7 ∷ 8 ∷ []) 0 2 3 ring-Reached (omega arith))

find-write_at_example : find 3 filled ≡ (if ltb 3 filled.base_seq then none else some (segment 3))
find-write_at_example = find-write_at 3 (segment 3) ring ring-IsValid (omega arith)

snapshot-FirstRun_example : FirstRun filled (snapshot filled).0 (snapshot filled).1
snapshot-FirstRun_example = snapshot-FirstRun filled filled-IsValid
