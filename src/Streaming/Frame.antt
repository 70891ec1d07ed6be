-- ===== src/Streaming/Frame.antt =====
-- The parts of the state that internal/p2p/node.go does not touch.
use p2ptogether.Prelude.{
  ℕ, ◌≡◌, refl, true, false, Option, none, some, List, [], arith, length, length-set,
}
use p2ptogether.Prelude.Int.{ℤ, pos, negsuc}
use p2ptogether.Names.{Text}
use p2ptogether.Peers.{PeerCodec}
use p2ptogether.Queue.{QueueItem, Queue, head, set_item_at_cursor}
use p2ptogether.Server.{Server, Node, role_manager, sessions}
use p2ptogether.Streaming.{
  set_first_seq, announce_reset, start_runner, stop_runner, ensure_runner_state, react_to,
  react_to_queue_update, stop_current_encoder, snapshot,
}

-- The queue's cursor and length, the sequence, the reports, the roles, the sessions and the topics.
pub record Keeps (s s' : Server) : Type 0 where
  pub same_cursor : s'.queue_ctrl.q.cursor ≡ s.queue_ctrl.q.cursor
  pub same_length : length s'.queue_ctrl.q.items ≡ length s.queue_ctrl.q.items
  pub same_sequence : s'.queue_ctrl.current_media_sequence ≡ s.queue_ctrl.current_media_sequence
  pub same_reports : s'.queue_ctrl.stream_completion_states ≡ s.queue_ctrl.stream_completion_states
  pub same_id : s'.node.id ≡ s.node.id
  pub same_sessions : sessions s' ≡ sessions s
  pub same_roles : role_manager s' ≡ role_manager s
  pub same_session : s'.node.current_session_id ≡ s.node.current_session_id
  pub same_topics : s'.node.topics ≡ s.node.topics

pub Keeps-refl : (s : Server) → Keeps s s
Keeps-refl s = record {
  same_cursor = refl;
  same_length = refl;
  same_sequence = refl;
  same_reports = refl;
  same_id = refl;
  same_sessions = refl;
  same_roles = refl;
  same_session = refl;
  same_topics = refl;
}

pub with_node-Keeps :
    (s : Server) (node : Node)
    → node.id ≡ s.node.id
    → node.current_session_id ≡ s.node.current_session_id
    → node.topics ≡ s.node.topics
    → Keeps s (record s { node = node })
with_node-Keeps s node e c t = record {
  same_cursor = refl;
  same_length = refl;
  same_sequence = refl;
  same_reports = refl;
  same_id = e;
  same_sessions = refl;
  same_roles = refl;
  same_session = c;
  same_topics = t;
}

set_item_at_cursor_keeps :
    (item : QueueItem) (q : Queue)
    → let q' = (set_item_at_cursor item q).1 in
      (q'.cursor ≡ q.cursor) × (length q'.items ≡ length q.items)
unfolding set_item_at_cursor
set_item_at_cursor_keeps item q = by_cursor q.items q.cursor
  where
    by_cursor :
        (items : List QueueItem) (c : ℤ)
        → let q' = (set_item_at_cursor item (record { items = items; cursor = c })).1 in
          (q'.cursor ≡ c) × (length q'.items ≡ length items)
    by_cursor items (pos i) = ground (arith, length-set items i item)
    by_cursor items (negsuc k) = (refl, refl)

module _ ⦃codec : PeerCodec⦄ where
  set_first_seq_keeps :
      (seq : ℕ) (s : Server) (item : Option QueueItem)
      → let q' = (set_first_seq seq s item).queue_ctrl.q in
        (q'.cursor ≡ s.queue_ctrl.q.cursor) × (length q'.items ≡ length s.queue_ctrl.q.items)
  unfolding set_first_seq snapshot
  set_first_seq_keeps seq s none = (refl, refl)
  set_first_seq_keeps seq s (some item) =
      set_item_at_cursor_keeps (record item { first_seq = seq }) s.queue_ctrl.q

  set_first_seq-Keeps :
      (seq : ℕ) (s : Server) (item : Option QueueItem) → Keeps s (set_first_seq seq s item)
  unfolding set_first_seq snapshot
  set_first_seq-Keeps seq s none = Keeps-refl s
  set_first_seq-Keeps seq s (some item) =
      let kept = set_first_seq_keeps seq s (some item) in
      record {
        same_cursor = kept.0;
        same_length = kept.1;
        same_sequence = refl;
        same_reports = refl;
        same_id = refl;
        same_sessions = refl;
        same_roles = refl;
        same_session = refl;
        same_topics = refl;
      }

  start_runner-Keeps : (file : Text) (seq : ℕ) (s : Server) → Keeps s (start_runner file seq s)
  unfolding start_runner announce_reset
  start_runner-Keeps file seq s =
      let k = set_first_seq-Keeps seq s (head s.queue_ctrl.q) in
      record {
        same_cursor = k.same_cursor;
        same_length = k.same_length;
        same_sequence = k.same_sequence;
        same_reports = k.same_reports;
        same_id = k.same_id;
        same_sessions = k.same_sessions;
        same_roles = k.same_roles;
        same_session = k.same_session;
        same_topics = k.same_topics;
      }

  stop_runner-Keeps : (s : Server) → Keeps s (stop_runner s)
  unfolding stop_runner
  stop_runner-Keeps s = with_node-Keeps s _ refl refl refl

  pub stop_current_encoder-Keeps : (s : Server) → Keeps s (stop_current_encoder s)
  unfolding stop_current_encoder
  stop_current_encoder-Keeps s = ground (
    arith,
    with_node-Keeps s (record s.node { cancelled = true }) refl refl refl,
    with_node-Keeps s (record s.node { encoder_live = false }) refl refl refl,
  )

  ensure_runner_state-Keeps :
      (file : Text) (seq : ℕ) (s : Server) → Keeps s (ensure_runner_state file seq s)
  unfolding ensure_runner_state
  ensure_runner_state-Keeps file seq s =
      ground (arith, Keeps-refl s, start_runner-Keeps file seq s, stop_runner-Keeps s)

  react_to-Keeps : (s : Server) (item : Option QueueItem) → Keeps s (react_to s item)
  unfolding react_to
  react_to-Keeps s none = ensure_runner_state-Keeps [] 0 s
  react_to-Keeps s (some item) = ground (
    arith,
    ensure_runner_state-Keeps item.file_path s.queue_ctrl.current_media_sequence s,
    ensure_runner_state-Keeps [] 0 s,
  )

  pub react_to_queue_update-Keeps : (s : Server) → Keeps s (react_to_queue_update s)
  unfolding react_to_queue_update
  react_to_queue_update-Keeps s = react_to-Keeps s (head s.queue_ctrl.q)

  -- Without a current item a reaction sends nothing.
  pub react-idle :
      (s : Server)
      → head s.queue_ctrl.q ≡ none
      → ((react_to_queue_update s).sent ≡ s.sent)
        × ((react_to_queue_update s).queue_ctrl.q ≡ s.queue_ctrl.q)
  unfolding react_to_queue_update react_to ensure_runner_state stop_runner
  react-idle s e = rw (e, react_to_queue_update) (refl, refl)
