-- ===== src/Controller/Sequence.antt =====
-- Queue commands, the cursor and the media sequence (internal/p2p/queue_controller.go).
use p2ptogether.Prelude.{
  ℕ, ◌≤◌, refl, sym, subst, Bool, true, false, Option, none, some, arith, length, nat_eq, Result,
  ok, err, Bool-cases, inl, inr, is_some,
}
use p2ptogether.Names.{Text, is_empty}
use p2ptogether.Peers.{PeerId, PeerCodec}
use p2ptogether.Queue.{QueueItem, head, advance_cursor}
use p2ptogether.Queue.Cursor.{
  IsValid, PointsInto, Method, appends, removes, clears, advances, rewinds, call, call-IsValid,
}
use p2ptogether.Server.{Server}
use p2ptogether.Streaming.{snapshot}
use p2ptogether.Streaming.Frame.{Keeps, react_to_queue_update-Keeps, stop_current_encoder-Keeps}
use p2ptogether.Controller.{
  QueueCmdType, append_cmd, remove_cmd, clear_cmd, next_cmd, skip_prev_cmd, skip_next_cmd,
  unknown_cmd, Error, apply_cmd, finish_cmd, share_queue, handle, after_skipped, with_queue,
  update_global_media_sequence,
}

-- The later state has a valid queue and no lower sequence.
record Good (s s' : Server) : Type 0 where
  valid : IsValid s'.queue_ctrl.q
  grows : s.queue_ctrl.current_media_sequence ≤ s'.queue_ctrl.current_media_sequence

IsValid-Keeps : (s s' : Server) → Keeps s s' → IsValid s.queue_ctrl.q → IsValid s'.queue_ctrl.q
IsValid-Keeps s s' k v = record {
  cursor_in =
      subst (λ c. PointsInto c (length s'.queue_ctrl.q.items)) (sym k.same_cursor)
        (subst (PointsInto s.queue_ctrl.q.cursor) (sym k.same_length) v.cursor_in);
}

Good-Keeps : {s s' s'' : Server} → Good s s' → Keeps s' s'' → Good s s''
Good-Keeps {s} {s'} {s''} g k = record {
  valid = IsValid-Keeps s' s'' k g.valid;
  grows = omega (arith, g.grows, k.same_sequence);
}

Good-refl : (s : Server) → IsValid s.queue_ctrl.q → Good s s
Good-refl s v = record { valid = v; grows = omega arith }

Good-call :
    {s s' : Server} (m : Method) → Good s s' → Good s (with_queue (call m s'.queue_ctrl.q) s')
Good-call {s} {s'} m g = record { valid = call-IsValid m s'.queue_ctrl.q g.valid; grows = g.grows }

after_skipped-Good :
    {s s' : Server} (item : Option QueueItem) → Good s s' → Good s (after_skipped s' item)
unfolding after_skipped update_global_media_sequence
after_skipped-Good none g = g
after_skipped-Good {s} {s'} (some item) g = let v = g.valid in let n = g.grows in ground arith

-- An error leaves no state to judge.
GoodResult : Server → Result Error (Bool × Server) → Type 0
GoodResult s (ok (changed, s')) = Good s s'
GoodResult s (err e) = Unit

module _ ⦃codec : PeerCodec⦄ (duration_of : Text → Option ℕ) where
  apply_cmd-Good :
      (cmd : QueueCmdType) (sender : PeerId) (s : Server)
      → IsValid s.queue_ctrl.q
      → GoodResult s (apply_cmd duration_of cmd sender s)
  unfolding apply_cmd call GoodResult
  apply_cmd-Good (append_cmd file ts) sender s v = elim (Bool-cases (is_empty file)) [
    | inl e ↦ rw e (Good-refl s v)
    | inr e ↦ rw e (Good-call (appends _) (Good-refl s v))
  ]
  apply_cmd-Good (remove_cmd i) sender s v = Good-call (removes i) (Good-refl s v)
  apply_cmd-Good clear_cmd sender s v =
      Good-Keeps (Good-call clears (Good-refl s v)) (stop_current_encoder-Keeps _)
  apply_cmd-Good next_cmd sender s v =
      let advanced = Good-call advances (Good-refl s v) in
      elim (Bool-cases (is_some (advance_cursor s.queue_ctrl.q).0)) [
        | inl e ↦ rw e advanced
        | inr e ↦ rw e (Good-Keeps advanced (stop_current_encoder-Keeps _))
      ]
  apply_cmd-Good skip_prev_cmd sender s v =
      let stopped = Good-Keeps (Good-refl s v) (stop_current_encoder-Keeps s) in
      Good-call rewinds (after_skipped-Good (head s.queue_ctrl.q) stopped)
  apply_cmd-Good skip_next_cmd sender s v =
      let stopped = Good-Keeps (Good-refl s v) (stop_current_encoder-Keeps s) in
      Good-call advances (after_skipped-Good (head s.queue_ctrl.q) stopped)
  apply_cmd-Good unknown_cmd sender s v = tt

  share_queue-Keeps : (s : Server) → Keeps s (share_queue duration_of s)
  unfolding share_queue snapshot
  share_queue-Keeps s = record {
    same_cursor = refl;
    same_length = refl;
    same_sequence = refl;
    same_reports = refl;
    same_id = refl;
    same_sessions = refl;
    same_roles = refl;
    same_session = refl;
    same_topics = refl;
  }

  finish_cmd-Good :
      (s : Server) (r : Result Error (Bool × Server))
      → IsValid s.queue_ctrl.q
      → GoodResult s r
      → Good s (finish_cmd duration_of s r).1
  unfolding finish_cmd GoodResult
  finish_cmd-Good s (err e) v g = Good-refl s v
  finish_cmd-Good s (ok (true, s')) v g =
      Good-Keeps (Good-Keeps g (share_queue-Keeps s')) (react_to_queue_update-Keeps _)
  finish_cmd-Good s (ok (false, s')) v g = Good-Keeps g (react_to_queue_update-Keeps s')

  handle-Good :
      (cmd : QueueCmdType) (sender : PeerId) (s : Server)
      → IsValid s.queue_ctrl.q
      → Good s (handle duration_of cmd sender s).1
  unfolding handle
  handle-Good cmd sender s v = ground (
    arith,
    finish_cmd-Good s (apply_cmd duration_of cmd sender s) v (apply_cmd-Good cmd sender s v),
    Good-refl s v,
  )

  -- A queue command, accepted or not, keeps the cursor at -1 or at an item and never lowers the number
  -- at which the next stream starts.
  pub handle_lem :
      (cmd : QueueCmdType) (sender : PeerId) (s : Server)
      → IsValid s.queue_ctrl.q
      → let after = (handle duration_of cmd sender s).1 in
        IsValid after.queue_ctrl.q
        × (s.queue_ctrl.current_media_sequence ≤ after.queue_ctrl.current_media_sequence)
  handle_lem cmd sender s v = let g = handle-Good cmd sender s v in (g.valid, g.grows)
