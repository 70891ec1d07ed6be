-- ===== src/Queue.antt =====
-- peer_service/internal/p2p/queue.go: the session's playlist with its cursor.
--
-- The lock is left out: each method is one step. `none` beside the new queue stands for the zero
-- item with `false`.
pub mod Cursor
pub mod Playback
use p2ptogether.Prelude.{
  ℕ, ◌-◌, Bool, true, false, not, ◌&&◌, ◌||◌, Option, none, some, List, [], ◌∷◌, ◌++◌, ltb, ◌==◌,
  nat_eq, if◌then◌else◌, length, set, erase_at, drop,
}
use p2ptogether.Prelude.Int.{
  ℤ, pos, negsuc, minus_one, int_ltb, int_beq, increment, decrement, get_at,
}
use p2ptogether.Names.{Text}
use p2ptogether.Peers.{PeerId}

pub record QueueItem : Type 0 where
  pub file_path : Text
  pub stored_by : PeerId
  pub added_by : PeerId
  pub first_seq : ℕ
  pub num_segs : ℕ
  pub hlc_ts : ℕ

pub record Queue : Type 0 where
  pub items : List QueueItem
  pub cursor : ℤ

abbrev pub len : Queue → ℤ
len q = pos (length q.items)

-- The cursor points to an item: `cursor >= 0 && cursor < len(items)`.
abbrev pub in_range : ℤ → List QueueItem → Bool
in_range i items = not (int_ltb i (pos 0)) && int_ltb i (pos (length items))

unfoldable pub new_queue : Queue
new_queue = record { items = []; cursor = minus_one }

unfoldable pub update_cursor_after_mutation : Queue → Queue
update_cursor_after_mutation q =
    let n = length q.items in
    let capped = if int_ltb q.cursor (pos n) then q.cursor else pos (n - 1) in
    let started = if int_beq capped minus_one && ltb 0 n then pos 0 else capped in
    record q { cursor = if n == 0 then minus_one else started }

unfoldable pub replace_items : List QueueItem → Queue → Queue
unfolding update_cursor_after_mutation
replace_items items q = update_cursor_after_mutation (record q { items = items })

-- The inner option is the panic of `items[cursor]`.
unfoldable pub head_no_lock : Queue → Option (Option QueueItem × Bool)
head_no_lock q =
    if length q.items == 0 then some (none, false) else elim (get_at q.items q.cursor) [
      | none ↦ none
      | some item ↦ some (some item, in_range q.cursor q.items)
    ]

unfoldable pub pop_head_no_lock : Queue → Bool × Queue
pop_head_no_lock q =
    if ltb 0 (length q.items) then (true, record q { items = drop 1 q.items }) else (false, q)

unfoldable pub append : QueueItem → Queue → Queue
append item q =
    let items = q.items ++ (item ∷ []) in
    record {
      items = items;
      cursor =
          if int_beq q.cursor minus_one && ltb 0 (length items)
          then pos (length items - 1)
          else q.cursor;
    }

cursor_after_remove : ℕ → List QueueItem → ℤ → ℤ
cursor_after_remove idx items cursor =
    if length items == 0
    then minus_one
    else if int_beq cursor (pos idx)
    then (if ltb idx (length items) then cursor else pos (length items - 1))
    else if int_ltb (pos idx) cursor
    then decrement cursor
    else cursor

unfoldable pub remove : ℤ → Queue → Bool × Queue
unfolding cursor_after_remove
remove (negsuc i) q = (false, q)
remove (pos i) q =
    let items = erase_at q.items i in
    if ltb i (length q.items)
    then (true, record { items = items; cursor = cursor_after_remove i items q.cursor })
    else (false, q)

unfoldable pub clear : Queue → Queue
clear q = record { items = []; cursor = minus_one }

unfoldable pub head : Queue → Option QueueItem
head q =
    if int_ltb q.cursor (pos 0) || not (int_ltb q.cursor (len q))
    then none
    else get_at q.items q.cursor

unfoldable pub advance_cursor : Queue → Option QueueItem × Queue
advance_cursor q =
    let next = increment q.cursor in
    if int_ltb q.cursor (pos 0) || not (int_ltb next (len q))
    then (none, record q { cursor = minus_one })
    else (get_at q.items next, record q { cursor = next })

unfoldable pub set_item_at_cursor : QueueItem → Queue → Bool × Queue
set_item_at_cursor item q = elim q.cursor [
  | negsuc i ↦ (false, q)
  | pos i ↦
      if ltb i (length q.items) then (true, record q { items = set q.items i item }) else (false, q)
]

unfoldable pub set_cursor : ℤ → Queue → Bool × Queue
set_cursor idx q =
    if int_beq idx minus_one || in_range idx q.items
    then (true, record q { cursor = idx })
    else (false, q)

unfoldable pub rewind_cursor : Queue → Option QueueItem × Queue
rewind_cursor q =
    let previous = decrement q.cursor in
    if not (int_ltb (pos 0) q.cursor) || (length q.items == 0)
    then (none, record q { cursor = minus_one })
    else (get_at q.items previous, record q { cursor = previous })
