-- ===== src/Controller/Silent.antt =====
-- A skip past the last item (internal/p2p/queue_controller.go).
use p2ptogether.Prelude.{
  ℕ, suc, ◌≤◌, ◌≡◌, ok, refl, sym, ap, subst, ◌∙◌, true, false, Option, none, some, List, arith,
  length,
}
use p2ptogether.Prelude.Int.{pos, minus_one}
use p2ptogether.Names.{Text}
use p2ptogether.Permissions.{perm_queue}
use p2ptogether.Peers.{PeerId, PeerCodec}
use p2ptogether.Queue.{QueueItem, Queue, head, advance_cursor}
use p2ptogether.Queue.Cursor.{at}
use p2ptogether.Queue.Playback.{advance_last}
use p2ptogether.Server.{Server, allowed}
use p2ptogether.Streaming.{stop_current_encoder}
use p2ptogether.Streaming.Frame.{react-idle}
use p2ptogether.Controller.{
  skip_next_cmd, apply_cmd, finish_cmd, handle, is_next, after_skipped, with_queue,
  update_global_media_sequence,
}

skipped_same :
    (s : Server) (item : Option QueueItem)
    → ((after_skipped s item).sent ≡ s.sent)
      × ((after_skipped s item).queue_ctrl.q ≡ s.queue_ctrl.q)
unfolding after_skipped update_global_media_sequence
skipped_same s none = (refl, refl)
skipped_same s (some item) = ground arith

module _ ⦃codec : PeerCodec⦄ where
  stopped_same :
      (s : Server)
      → ((stop_current_encoder s).sent ≡ s.sent)
        × ((stop_current_encoder s).queue_ctrl.q ≡ s.queue_ctrl.q)
  unfolding stop_current_encoder
  stopped_same s = ground arith

module _ ⦃codec : PeerCodec⦄ (duration_of : Text → Option ℕ) where
  skip_past_end :
      (s : Server) (sender : PeerId) (after : Queue)
      → advance_cursor (after_skipped (stop_current_encoder s) (head s.queue_ctrl.q)).queue_ctrl.q
        ≡ (none, after)
      → apply_cmd duration_of skip_next_cmd sender s
        ≡ ok
            (false, with_queue after (after_skipped (stop_current_encoder s) (head s.queue_ctrl.q)))
  unfolding apply_cmd
  skip_past_end s sender after e = rw (e, apply_cmd) refl

  handle-allowed :
      (s : Server) (sender : PeerId)
      → allowed s sender perm_queue ≡ true
      → handle duration_of skip_next_cmd sender s
        ≡ finish_cmd duration_of s (apply_cmd duration_of skip_next_cmd sender s)
  unfolding handle is_next
  handle-allowed s sender a = rw (a, handle) refl

  -- SKIP_NEXT by a permitted peer while the last item is current leaves no item current, and sends no
  -- message of it to anyone.
  pub skip_next_last :
      (s : Server) (sender : PeerId) (items : List QueueItem) (i : ℕ)
      → allowed s sender perm_queue ≡ true
      → s.queue_ctrl.q ≡ at items (pos i)
      → length items ≤ suc i
      → let (error, after) = handle duration_of skip_next_cmd sender s in
        (error ≡ none) × (head after.queue_ctrl.q ≡ none) × (after.sent ≡ s.sent)
  unfolding finish_cmd head
  skip_next_last s sender items i a e last =
      let stopped = stop_current_encoder s in
      let skipped = after_skipped stopped (head s.queue_ctrl.q) in
      let same = stopped_same s in
      let same' = skipped_same stopped (head s.queue_ctrl.q) in
      let moved = ap advance_cursor (same'.1 ∙ same.1 ∙ e) ∙ advance_last items i last in
      let end = with_queue (at items minus_one) skipped in
      let idle = react-idle end refl in
      let handled =
        handle-allowed s sender a
        ∙ ap (finish_cmd duration_of s) (skip_past_end s sender (at items minus_one) moved) in
      subst (λ r. (r.0 ≡ none) × (head r.1.queue_ctrl.q ≡ none) × (r.1.sent ≡ s.sent)) (sym handled)
        (refl, ap head idle.1, idle.0 ∙ same'.0 ∙ same.0)
