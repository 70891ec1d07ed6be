-- ===== src/Streaming/Start.antt =====
-- The start and the stop of a peer's encoder (internal/p2p/node.go).
use p2ptogether.Prelude.{
  not, ◌||◌, ◌+◌, ◌⊎◌, inl, inr, Option, none, List, [], ◌∷◌, ◌++◌, Option-cases, Bool-cases, ◌≡◌,
  refl, Bool, true, false, ◌&&◌, some, ◌==◌, nat_eq, list_eq, ==_refl,
}
use p2ptogether.Names.{is_empty}
use p2ptogether.Permissions.{perm_stream}
use p2ptogether.Peers.{PeerCodec}
use p2ptogether.Queue.{QueueItem, head}
use p2ptogether.Ring.{reset}
use p2ptogether.Messages.{Effect, start_encoder}
use p2ptogether.Server.{Server, allowed}
use p2ptogether.Streaming.{
  stop_runner, ensure_runner_state, react_to, running, react_to_queue_update, streams, runs,
}

-- The item is this peer's to stream.
abbrev pub mine : Server → QueueItem → Bool
mine s item = (item.stored_by == s.node.id) && allowed s s.node.id perm_stream

module _ ⦃codec : PeerCodec⦄ where
  -- The item is there, has a file, and is this peer's to stream.
  abbrev pub wanted : Server → Option QueueItem → Bool
  wanted s none = false
  wanted s (some item) = mine s item && not (is_empty item.file_path)

  abbrev pub encodes : Server → Option QueueItem → Bool
  encodes s none = false
  encodes s (some item) = runs s.node.runner item.file_path s.queue_ctrl.current_media_sequence

  -- No start, no live encoder, and the context of a running encoder is cancelled.
  pub record Stopped (s after : Server) : Type 0 where
    pub not_live : after.node.encoder_live ≡ false
    pub cancelled :
        after.node.cancelled ≡ (s.node.cancelled || (running s.node.runner && s.node.has_cancel))
    pub nothing_sent : after.sent ≡ s.sent
    pub same_ring : after.node.ring_buffer ≡ s.node.ring_buffer
    pub same_context : after.node.runner_ctx ≡ s.node.runner_ctx

  -- The last effect is the start of an encoder in a new context, on an empty buffer.
  pub record Started (s after : Server) : Type 0 where
    pub live : after.node.encoder_live ≡ true
    pub not_cancelled : after.node.cancelled ≡ false
    pub new_context : after.node.runner_ctx ≡ s.node.runner_ctx + 1
    pub base : after.node.ring_buffer.base_seq ≡ s.queue_ctrl.current_media_sequence
    pub next : after.node.ring_buffer.next_seq ≡ s.queue_ctrl.current_media_sequence
    pub started :
        (item : QueueItem) × (before : List Effect) × (head s.queue_ctrl.q ≡ some item)
        × (after.sent
            ≡ before
              ++ start_encoder
                  (s.node.runner_ctx + 1)
                  item.file_path
                  s.queue_ctrl.current_media_sequence
                ∷ [])

  stopped : (s : Server) → Stopped s (stop_runner s)
  unfolding stop_runner
  stopped s = record {
    not_live = refl;
    cancelled = refl;
    nothing_sent = refl;
    same_ring = refl;
    same_context = refl;
  }

  streams_head :
      (s : Server) (item : QueueItem)
      → mine s item ≡ true
      → streams item.file_path s (some item) ≡ true
  unfolding streams
  streams_head s item m = rw (==_refl item.file_path) m

  -- After a reaction to the queue a peer that has no current item with a file to stream, as it stores
  -- none or may not, is stopped: nothing is sent, it has no live encoder, and the context of an encoder
  -- that runs with a cancel function is cancelled; a peer that has one and already encodes it from the
  -- current media sequence is unchanged; a peer that has one and does not starts an encoder for its file
  -- in a new context, and its buffer is empty and starts at that sequence.
  pub react_lem :
      (s : Server)
      → let item = head s.queue_ctrl.q in
        let after = react_to_queue_update s in
        ((wanted s item ≡ false) × Stopped s after)
        ⊎ ((wanted s item ≡ true) × (encodes s item ≡ true) × (after ≡ s))
        ⊎ ((wanted s item ≡ true) × (encodes s item ≡ false) × Started s after)
  unfolding react_to_queue_update react_to ensure_runner_state reset
  react_lem s = elim (Option-cases (head s.queue_ctrl.q)) [
    | inl e ↦ rw (e, react_to_queue_update) (inl (refl, stopped s))
    | inr (item, e) ↦ elim (Bool-cases (mine s item)) [
      | inl own ↦ elim (Bool-cases (is_empty item.file_path)) [
        | inl blank ↦
            rw (e, react_to_queue_update) (rw (own, blank, react_to) (inl (refl, stopped s)))
        | inr named ↦ elim (Bool-cases (encodes s (some item))) [
          | inl busy ↦
              rw (e, react_to_queue_update)
                (rw (own, react_to)
                  (rw (e, ensure_runner_state)
                    (rw (named, streams_head s item own, busy, ensure_runner_state)
                      (inr (inl (refl, refl, refl))))))
          | inr idle ↦
              rw (e, react_to_queue_update)
                (rw (own, react_to)
                  (rw (e, ensure_runner_state)
                    (rw (named, streams_head s item own, idle, ensure_runner_state)
                      (inr (
                        inr (
                          refl,
                          refl,
                          record {
                            live = refl;
                            not_cancelled = refl;
                            new_context = refl;
                            base = refl;
                            next = refl;
                            started = (item, _, e, refl);
                          },
                        ))))))
        ]
      ]
      | inr other ↦ rw (e, react_to_queue_update) (rw (other, react_to) (inl (refl, stopped s)))
    ]
  ]
