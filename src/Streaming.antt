-- ===== src/Streaming.antt =====
-- peer_service/internal/p2p/node.go: which peer encodes the current item, and the start and stop of
-- its encoder; with the parts of queue_controller.go that a start uses.
--
-- The mutex is left out. The goroutine of a start is the effect `start_encoder` with the number of
-- its context; what it does when the encoder returns is `encoder_returned` of Controller. `cancelled`
-- records the call of the context's cancel function.
pub mod Frame
pub mod Start
use p2ptogether.Prelude.{
  ℕ, ◌+◌, ◌*◌, Bool, true, false, not, ◌&&◌, ◌||◌, Option, none, some, List, [], map, ◌==◌, nat_eq,
  list_eq, if◌then◌else◌,
}
use p2ptogether.Names.{Text, is_empty}
use p2ptogether.Permissions.{perm_stream}
use p2ptogether.Peers.{PeerCodec, encode}
use p2ptogether.Queue.{QueueItem, head, set_item_at_cursor}
use p2ptogether.Ring.{reset}
use p2ptogether.Messages.{
  WireItem, ServerMsg, queue_update, playlist_reset, broadcast, publish_control, discontinuity,
  start_encoder,
}
use p2ptogether.Server.{Server, allowed, now, send, announce}

module _ ⦃codec : PeerCodec⦄ where
  abbrev pub wire_items : List QueueItem → List WireItem
  wire_items items =
      map
        (λ x. record {
          file_path = x.file_path;
          stored_by = encode x.stored_by;
          added_by = encode x.added_by;
          first_seq = x.first_seq;
          num_segs = x.num_segs;
          hlc_ts = x.hlc_ts;
        })
        items

  unfoldable pub snapshot : Server → ServerMsg × Server
  snapshot s = let (ts, s') = now s in (queue_update (wire_items s.queue_ctrl.q.items) ts, s')

  -- The node stores the head, which has this file, and may stream.
  streams : Text → Server → Option QueueItem → Bool
  streams file s none = false
  streams file s (some item) =
      (item.file_path == file) && (item.stored_by == s.node.id) && allowed s s.node.id perm_stream

  pub runs : Option (Text × ℕ) → Text → ℕ → Bool
  runs none file seq = false
  runs (some (current_file, current_seq)) file seq = (current_file == file) && (current_seq == seq)

  pub running : Option (Text × ℕ) → Bool
  running none = false
  running (some current) = true

  -- The head gets its first number, and the clients and the other peers learn it.
  set_first_seq : ℕ → Server → Option QueueItem → Server
  unfolding snapshot
  set_first_seq seq s none = s
  set_first_seq seq s (some item) =
      let (_, q) = set_item_at_cursor (record item { first_seq = seq }) s.queue_ctrl.q in
      let (msg, s1) = snapshot (record s { queue_ctrl = record s.queue_ctrl { q = q } }) in
      let (msg', s2) = snapshot (send (broadcast msg) s1) in send (publish_control msg') s2

  abbrev reset_ring : ℕ → Server → Server
  reset_ring seq s =
      send discontinuity
        (record s { node = record s.node { ring_buffer = reset seq s.node.ring_buffer } })

  announce_reset : ℕ → Server → Server
  announce_reset seq s =
      let (ts, s') = now s in
      announce
        (playlist_reset
          (record { sequence = seq; start_pts = 0; origin_sec = seq * 2; hlc_ts = ts }))
        s'

  -- A new context, not cancelled; the old one is cancelled and is not the newest any more.
  abbrev launch : Text → ℕ → Server → Server
  launch file seq s = send (start_encoder (s.node.runner_ctx + 1) file seq) (record s {
    node = record s.node {
      runner_ctx = s.node.runner_ctx + 1;
      has_cancel = true;
      cancelled = false;
      encoder_live = true;
    };
  })

  start_runner : Text → ℕ → Server → Server
  unfolding set_first_seq announce_reset
  start_runner file seq s =
      launch file seq
        (announce_reset seq (reset_ring seq (set_first_seq seq s (head s.queue_ctrl.q))))

  -- Only a running encoder is cancelled.
  stop_runner : Server → Server
  unfolding running
  stop_runner s = record s {
    node = record s.node {
      cancelled = s.node.cancelled || (running s.node.runner && s.node.has_cancel);
      encoder_live = false;
    };
  }

  unfoldable pub ensure_runner_state : Text → ℕ → Server → Server
  unfolding streams runs start_runner stop_runner
  ensure_runner_state file seq s =
      if not (is_empty file) && streams file s (head s.queue_ctrl.q)
      then (if runs s.node.runner file seq then s else start_runner file seq s)
      else stop_runner s

  unfoldable pub stop_current_encoder : Server → Server
  stop_current_encoder s =
      if s.node.has_cancel
      then record s { node = record s.node { cancelled = true } }
      else record s { node = record s.node { encoder_live = false } }

  react_to : Server → Option QueueItem → Server
  unfolding ensure_runner_state
  react_to s none = ensure_runner_state [] 0 s
  react_to s (some item) =
      if (item.stored_by == s.node.id) && allowed s s.node.id perm_stream
      then ensure_runner_state item.file_path s.queue_ctrl.current_media_sequence s
      else ensure_runner_state [] 0 s

  unfoldable pub react_to_queue_update : Server → Server
  unfolding react_to
  react_to_queue_update s = react_to s (head s.queue_ctrl.q)
