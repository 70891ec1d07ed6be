-- ===== src/Queue/Cursor.antt =====
-- The cursor of a queue under its methods (internal/p2p/queue.go).
use p2ptogether.Prelude.{
  ℕ, zero, suc, ◌<◌, ◌≡◌, refl, List, [], ◌∷◌, arith, length, length-append, length-erase_at,
  length-set,
}
use p2ptogether.Prelude.Int.{ℤ, pos, negsuc}
use p2ptogether.Queue.{
  QueueItem, Queue, replace_items, append, remove, clear, advance_cursor, set_item_at_cursor,
  set_cursor, rewind_cursor,
}

abbrev pub PointsInto : ℤ → ℕ → Type 0
PointsInto (pos i) n = i < n
PointsInto (negsuc k) n = k ≡ 0

pub record IsValid (q : Queue) : Type 0 where
  pub cursor_in : PointsInto q.cursor (length q.items)

-- The methods that change a queue, but PopHeadNoLock.
pub data Method : Type 0 where
  replaces : List QueueItem → Method
  appends : QueueItem → Method
  removes : ℤ → Method
  clears advances rewinds : Method
  sets_item : QueueItem → Method
  sets_cursor : ℤ → Method

unfoldable pub call : Method → Queue → Queue
call (replaces items) q = replace_items items q
call (appends item) q = append item q
call (removes i) q = (remove i q).1
call clears q = clear q
call advances q = (advance_cursor q).1
call rewinds q = (rewind_cursor q).1
call (sets_item item) q = (set_item_at_cursor item q).1
call (sets_cursor i) q = (set_cursor i q).1

abbrev pub at : List QueueItem → ℤ → Queue
at items c = record { items = items; cursor = c }

replace_items-IsValid :
    (new items : List QueueItem) (c : ℤ)
    → PointsInto c (length items)
    → IsValid (replace_items new (at items c))
unfolding replace_items
replace_items-IsValid new items (pos i) h = ground arith
replace_items-IsValid new items (negsuc k) h = ground arith

append-IsValid :
    (item : QueueItem) (items : List QueueItem) (c : ℤ)
    → PointsInto c (length items)
    → IsValid (append item (at items c))
unfolding append
append-IsValid item items (pos i) h = ground (arith, length-append items (item ∷ []))
append-IsValid item items (negsuc k) h = ground (arith, length-append items (item ∷ []))

remove-IsValid :
    (idx : ℤ) (items : List QueueItem) (c : ℤ)
    → PointsInto c (length items)
    → IsValid (remove idx (at items c)).1
unfolding remove
remove-IsValid (negsuc i) items c h = record { cursor_in = h }
remove-IsValid (pos i) items (negsuc k) h = ground (arith, length-erase_at items i)
remove-IsValid (pos i) items (pos zero) h = ground (arith, length-erase_at items i)
remove-IsValid (pos i) items (pos (suc c)) h = ground (arith, length-erase_at items i)

advance_cursor-IsValid :
    (items : List QueueItem) (c : ℤ)
    → PointsInto c (length items)
    → IsValid (advance_cursor (at items c)).1
unfolding advance_cursor
advance_cursor-IsValid items (pos i) h = ground arith
advance_cursor-IsValid items (negsuc k) h = ground arith

rewind_cursor-IsValid :
    (items : List QueueItem) (c : ℤ)
    → PointsInto c (length items)
    → IsValid (rewind_cursor (at items c)).1
unfolding rewind_cursor
rewind_cursor-IsValid items (pos zero) h = ground arith
rewind_cursor-IsValid items (pos (suc i)) h = ground arith
rewind_cursor-IsValid items (negsuc k) h = ground arith

set_item_at_cursor-IsValid :
    (item : QueueItem) (items : List QueueItem) (c : ℤ)
    → PointsInto c (length items)
    → IsValid (set_item_at_cursor item (at items c)).1
unfolding set_item_at_cursor
set_item_at_cursor-IsValid item items (pos i) h = ground (arith, length-set items i item)
set_item_at_cursor-IsValid item items (negsuc k) h = record { cursor_in = h }

set_cursor-IsValid :
    (i : ℤ) (items : List QueueItem) (c : ℤ)
    → PointsInto c (length items)
    → IsValid (set_cursor i (at items c)).1
unfolding set_cursor
set_cursor-IsValid (pos i) items c h = ground arith
set_cursor-IsValid (negsuc k) items c h = ground arith

-- Every method that changes a queue keeps its cursor at -1 or at an item, except PopHeadNoLock,
-- which nothing calls.
pub call-IsValid : (m : Method) (q : Queue) → IsValid q → IsValid (call m q)
unfolding call clear
call-IsValid (replaces items) q v = replace_items-IsValid items q.items q.cursor v.cursor_in
call-IsValid (appends item) q v = append-IsValid item q.items q.cursor v.cursor_in
call-IsValid (removes i) q v = remove-IsValid i q.items q.cursor v.cursor_in
call-IsValid clears q v = record { cursor_in = refl }
call-IsValid advances q v = advance_cursor-IsValid q.items q.cursor v.cursor_in
call-IsValid rewinds q v = rewind_cursor-IsValid q.items q.cursor v.cursor_in
call-IsValid (sets_item item) q v = set_item_at_cursor-IsValid item q.items q.cursor v.cursor_in
call-IsValid (sets_cursor i) q v = set_cursor-IsValid i q.items q.cursor v.cursor_in
