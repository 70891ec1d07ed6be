-- ===== src/Controller/Advance.antt =====
-- The reports of the end of a stream (internal/p2p/queue_controller.go).
use p2ptogether.Prelude.{
  ℕ, ◌≡◌, refl, ap, ◌∙◌, Bool, true, false, ◌&&◌, Option, none, some, ◌==◌, nat_eq, if◌then◌else◌,
  ==_refl, Bool-cases, Option-cases, inl, inr, is_some,
}
use p2ptogether.Prelude.Maps.{lookup, insert, lookup-insert_self}
use p2ptogether.Names.{Text}
use p2ptogether.Peers.{PeerId, PeerCodec}
use p2ptogether.Queue.{QueueItem, head, advance_cursor}
use p2ptogether.Server.{Server, PlaybackCompletionState, now}
use p2ptogether.Streaming.{stop_current_encoder, snapshot}
use p2ptogether.Streaming.Frame.{react_to_queue_update-Keeps, stop_current_encoder-Keeps}
use p2ptogether.Controller.{
  next_cmd, apply_cmd, finish_cmd, share_queue, handle, with_queue, advance_from, both_done, forget,
  completion_of, check_and_attempt_queue_advance, notify_encoder_finished, is_next,
  with_completions,
}

-- Whether the player of the peer has reported the end.
abbrev pub reported : PeerId → PlaybackCompletionState → Bool
reported peer state = elim (lookup peer state.player_completed_by_peer) [
  | none ↦ false
  | some b ↦ b
]

-- The reports in a stream's entry, if it has one.
abbrev pub encoder_reported : Option PlaybackCompletionState → Bool
encoder_reported none = false
encoder_reported (some state) = state.encoder_finished

abbrev pub player_reported : PeerId → Option PlaybackCompletionState → Bool
player_reported peer none = false
player_reported peer (some state) = reported peer state

module _ ⦃codec : PeerCodec⦄ (duration_of : Text → Option ℕ) where
  cursor-finish_next :
      (s : Server)
      → (finish_cmd duration_of s
          (apply_cmd duration_of next_cmd s.node.id s)).1.queue_ctrl.q.cursor
        ≡ (advance_cursor s.queue_ctrl.q).1.cursor
  unfolding apply_cmd finish_cmd share_queue snapshot
  cursor-finish_next s =
      let advanced = with_queue (advance_cursor s.queue_ctrl.q).1 s in
      elim (Bool-cases (is_some (advance_cursor s.queue_ctrl.q).0)) [
        | inl e ↦
            rw e ((react_to_queue_update-Keeps (share_queue duration_of advanced)).same_cursor)
        | inr e ↦ rw e (
            (react_to_queue_update-Keeps (stop_current_encoder advanced)).same_cursor
            ∙ (stop_current_encoder-Keeps advanced).same_cursor)
      ]

  -- The NEXT that the node sends itself moves the cursor as `AdvanceCursor` does.
  cursor-handle_next :
      (s : Server)
      → (handle duration_of next_cmd s.node.id s).1.queue_ctrl.q.cursor
        ≡ (advance_cursor s.queue_ctrl.q).1.cursor
  unfolding handle is_next
  cursor-handle_next s = rw (==_refl s.node.id, handle) (cursor-finish_next s)

  cursor-advance_from :
      (stream : ℕ) (s : Server) (state : PlaybackCompletionState) (item : QueueItem)
      → item.first_seq ≡ stream
      → (advance_from duration_of stream s state (some item)).queue_ctrl.q.cursor ≡ (
          if state.encoder_finished && reported item.stored_by state
          then (advance_cursor s.queue_ctrl.q).1.cursor
          else s.queue_ctrl.q.cursor)
  unfolding advance_from both_done forget
  cursor-advance_from stream s state item e =
      let same : (item.first_seq == stream) ≡ true = ap (λ n. n == stream) e ∙ ==_refl stream in
      elim (Bool-cases (state.encoder_finished && reported item.stored_by state)) [
        | inl d ↦ rw (same, d, advance_from) (cursor-handle_next (now s).1)
        | inr d ↦ rw (same, d, advance_from) refl
      ]

  check_found :
      (stream : ℕ) (s : Server) {state : PlaybackCompletionState}
      → lookup stream s.queue_ctrl.stream_completion_states ≡ some state
      → check_and_attempt_queue_advance duration_of stream s
        ≡ advance_from duration_of stream s state (head s.queue_ctrl.q)
  unfolding check_and_attempt_queue_advance
  check_found stream s e = rw (e, check_and_attempt_queue_advance) refl

  -- The entry that a report works on: the one that is there, or a new one without a report.
  completion_lem :
      (stream : ℕ) (peer : PeerId) (s : Server)
      → let known = lookup stream s.queue_ctrl.stream_completion_states in
        ((completion_of duration_of stream s).encoder_finished ≡ encoder_reported known)
        × (reported peer (completion_of duration_of stream s) ≡ player_reported peer known)
  unfolding completion_of lookup
  completion_lem stream peer s =
      elim (Option-cases (lookup stream s.queue_ctrl.stream_completion_states)) [
        | inl e ↦ rw (e, completion_of) (refl, refl)
        | inr (state, e) ↦ rw (e, completion_of) (refl, refl)
      ]

  -- When the encoder of the current stream finishes, the same holds with the report of the encoder.
  notify_encoder_lem :
      (stream : ℕ) (s : Server) (item : QueueItem)
      → head s.queue_ctrl.q ≡ some item
      → item.first_seq ≡ stream
      → (notify_encoder_finished duration_of stream s).queue_ctrl.q.cursor ≡ (
          if player_reported item.stored_by (lookup stream s.queue_ctrl.stream_completion_states)
          then (advance_cursor s.queue_ctrl.q).1.cursor
          else s.queue_ctrl.q.cursor)
  unfolding notify_encoder_finished
  notify_encoder_lem stream s item at_head first =
      let states = s.queue_ctrl.stream_completion_states in
      let (ts, later) = now s in
      let done : PlaybackCompletionState = record (completion_of duration_of stream s) {
        encoder_finished = true;
        hlc_ts_encoder_finished = ts;
      } in
      let s' = with_completions (insert stream done states) later in
      ap (λ t. t.queue_ctrl.q.cursor)
        (check_found stream s' (lookup-insert_self stream done states)
          ∙ ap (advance_from duration_of stream s' done) at_head)
      ∙ cursor-advance_from stream s' done item first
      ∙ rw ((completion_lem stream item.stored_by s).1) refl
