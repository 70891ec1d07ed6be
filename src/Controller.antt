-- ===== src/Controller.antt =====
-- peer_service/internal/p2p/queue_controller.go: queue commands, updates of the queue from other
-- peers, and the advance to the next item when the current one has been played.
pub mod Advance
pub mod Sequence
pub mod Silent
use p2ptogether.Prelude.{
  ℕ, ◌+◌, ◌-◌, ◌/◌, ◌%◌, ◌^◌, Bool, true, false, not, ◌&&◌, ◌||◌, Option, none, some, List, [], ◌∷◌,
  ltb, ◌==◌, nat_eq, list_eq, if◌then◌else◌, Result, ok, err, is_some,
}
use p2ptogether.Prelude.Int.{ℤ}
use p2ptogether.Prelude.Maps.{Map, lookup, insert, delete}
use p2ptogether.Names.{Text, is_empty}
use p2ptogether.Permissions.{perm_queue}
use p2ptogether.Peers.{PeerId, PeerCodec, decode}
use p2ptogether.Queue.{
  QueueItem, Queue, append, remove, clear, head, advance_cursor, rewind_cursor, replace_items,
}
use p2ptogether.Messages.{WireItem, SetPlaybackStateCmd, broadcast, publish_control}
use p2ptogether.Server.{Server, PlaybackStateInfo, PlaybackCompletionState, allowed, now, send}
use p2ptogether.Streaming.{snapshot, stop_current_encoder, react_to_queue_update}

-- `QueueCmd.Type`, with the fields of the command that the type reads.
pub data QueueCmdType : Type 0 where
  append_cmd : Text → ℕ → QueueCmdType
  remove_cmd : ℤ → QueueCmdType
  clear_cmd next_cmd skip_prev_cmd skip_next_cmd unknown_cmd : QueueCmdType

pub data Error : Type 0 where
  permission_denied unknown_type : Error

abbrev pub with_queue : Queue → Server → Server
with_queue q s = record s { queue_ctrl = record s.queue_ctrl { q = q } }

abbrev with_completions : Map ℕ PlaybackCompletionState → Server → Server
with_completions states s = record s {
  queue_ctrl = record s.queue_ctrl { stream_completion_states = states };
}

unfoldable pub update_global_media_sequence : ℕ → Server → Server
update_global_media_sequence next s =
    if ltb s.queue_ctrl.current_media_sequence next
    then record s { queue_ctrl = record s.queue_ctrl { current_media_sequence = next } }
    else s

unfoldable pub update_last_known_playback_state : SetPlaybackStateCmd → Server → Server
update_last_known_playback_state cmd s =
    let known = s.queue_ctrl.last_known_playback_state in
    let state : PlaybackStateInfo = record {
      stream_sequence_id = cmd.stream_sequence_id;
      is_playing = cmd.target_is_playing;
      hlc_ts = cmd.hlc_ts;
    } in
    if ltb known.hlc_ts cmd.hlc_ts || not (cmd.stream_sequence_id == known.stream_sequence_id)
    then record s { queue_ctrl = record s.queue_ctrl { last_known_playback_state = state } }
    else s

-- Segments of two seconds; the duration is in microseconds, as ffprobe prints it.
num_segments : Option ℕ → ℕ
num_segments none = 0
num_segments (some duration) = ((duration + 1999999) / 2000000) % 2 ^ 32

-- If this peer streamed the item that is skipped, the next stream starts after its segments.
after_skipped : Server → Option QueueItem → Server
unfolding update_global_media_sequence
after_skipped s none = s
after_skipped s (some item) =
    if item.stored_by == s.node.id
    then update_global_media_sequence s.node.ring_buffer.next_seq s
    else s

unfoldable pub is_next : QueueCmdType → Bool
is_next next_cmd = true
is_next (append_cmd file ts) = false
is_next (remove_cmd i) = false
is_next clear_cmd = false
is_next skip_prev_cmd = false
is_next skip_next_cmd = false
is_next unknown_cmd = false

-- `getDurationSeconds` runs ffprobe: an argument.
module _ ⦃codec : PeerCodec⦄ (duration_of : Text → Option ℕ) where
  -- The switch: `madeChange` and the state, or the error of an unknown type.
  apply_cmd : QueueCmdType → PeerId → Server → Result Error (Bool × Server)
  unfolding num_segments after_skipped
  apply_cmd (append_cmd file ts) sender s =
      let item : QueueItem = record {
        file_path = file;
        stored_by = sender;
        added_by = sender;
        first_seq = 0;
        num_segs = num_segments (duration_of file);
        hlc_ts = ts;
      } in
      if is_empty file then ok (false, s) else ok (true, with_queue (append item s.queue_ctrl.q) s)
  apply_cmd (remove_cmd i) sender s =
      let (removed, q) = remove i s.queue_ctrl.q in ok (removed, with_queue q s)
  apply_cmd clear_cmd sender s =
      ok (true, stop_current_encoder (with_queue (clear s.queue_ctrl.q) s))
  apply_cmd next_cmd sender s =
      let (item, q) = advance_cursor s.queue_ctrl.q in
      if is_some item
      then ok (true, with_queue q s)
      else ok (false, stop_current_encoder (with_queue q s))
  apply_cmd skip_prev_cmd sender s =
      let s' = after_skipped (stop_current_encoder s) (head s.queue_ctrl.q) in
      let (item, q) = rewind_cursor s'.queue_ctrl.q in ok (is_some item, with_queue q s')
  apply_cmd skip_next_cmd sender s =
      let s' = after_skipped (stop_current_encoder s) (head s.queue_ctrl.q) in
      let (item, q) = advance_cursor s'.queue_ctrl.q in ok (is_some item, with_queue q s')
  apply_cmd unknown_cmd sender s = err unknown_type

  -- One snapshot for the clients and the other peers.
  share_queue : Server → Server
  share_queue s = let (msg, s') = snapshot s in send (publish_control msg) (send (broadcast msg) s')

  finish_cmd : Server → Result Error (Bool × Server) → Option Error × Server
  unfolding share_queue
  finish_cmd s (err e) = (some e, s)
  finish_cmd s (ok (changed, s')) =
      (none, react_to_queue_update (if changed then share_queue s' else s'))

  unfoldable pub handle : QueueCmdType → PeerId → Server → Option Error × Server
  unfolding is_next apply_cmd finish_cmd
  handle cmd sender s =
      if not (is_next cmd && (sender == s.node.id)) && not (allowed s sender perm_queue)
      then (some permission_denied, s)
      else finish_cmd s (apply_cmd cmd sender s)

  -- A stream's entry, made on the first report.
  completion_of : ℕ → Server → PlaybackCompletionState
  completion_of stream s = elim (lookup stream s.queue_ctrl.stream_completion_states) [
    | some state ↦ state
    | none ↦ record {
      encoder_finished = false;
      player_completed_by_peer = [];
      hlc_ts_encoder_finished = 0;
    }
  ]

  forget : ℕ → Server → Server
  forget stream s = with_completions (delete stream s.queue_ctrl.stream_completion_states) s

  -- The encoder and the player of the peer that streams the item are done.
  both_done : PlaybackCompletionState → QueueItem → Bool
  both_done state item =
      state.encoder_finished
      && (elim (lookup item.stored_by state.player_completed_by_peer) [ none ↦ false | some b ↦ b ])

  advance_from : ℕ → Server → PlaybackCompletionState → Option QueueItem → Server
  unfolding forget both_done
  advance_from stream s state none = forget stream s
  advance_from stream s state (some item) =
      if not (item.first_seq == stream)
      then forget stream s
      else if both_done state item
      then (let (_, s') = now s in forget stream (handle next_cmd s.node.id s').1)
      else s

  unfoldable pub check_and_attempt_queue_advance : ℕ → Server → Server
  unfolding advance_from
  check_and_attempt_queue_advance stream s =
      elim (lookup stream s.queue_ctrl.stream_completion_states) [
        | none ↦ s
        | some state ↦ advance_from stream s state (head s.queue_ctrl.q)
      ]

  unfoldable pub notify_encoder_finished : ℕ → Server → Server
  unfolding completion_of
  notify_encoder_finished stream s =
      let state = completion_of stream s in
      let (ts, s') = now s in
      let done : PlaybackCompletionState = record state {
        encoder_finished = true;
        hlc_ts_encoder_finished = ts;
      } in
      check_and_attempt_queue_advance stream
        (with_completions (insert stream done s'.queue_ctrl.stream_completion_states) s')

  unfoldable pub notify_player_stream_completed : ℕ → PeerId → Server → Server
  unfolding completion_of
  notify_player_stream_completed stream peer s =
      let state = completion_of stream s in
      let done : PlaybackCompletionState = record state {
        player_completed_by_peer = insert peer true state.player_completed_by_peer;
      } in
      check_and_attempt_queue_advance stream
        (with_completions (insert stream done s.queue_ctrl.stream_completion_states) s)

  -- The rest of the goroutine of a start, once `runner.Start` has returned for the context `ctx`.
  unfoldable pub encoder_returned : ℕ → ℕ → Bool → Server → Server
  encoder_returned ctx seq eof s =
      let s' : Server = record s { node = record s.node { encoder_live = false } } in
      if not (s.node.runner_ctx == ctx)
      then s
      else if eof && not s.node.cancelled
      then notify_encoder_finished seq (update_global_media_sequence s.node.ring_buffer.next_seq s')
      else s'

module _ ⦃codec : PeerCodec⦄ where
  received_item : WireItem → Option PeerId → Option PeerId → List QueueItem → List QueueItem
  received_item x none by rest = rest
  received_item x (some stored_by) none rest = rest
  received_item x (some stored_by) (some added_by) rest =
      record {
        file_path = x.file_path;
        stored_by = stored_by;
        added_by = added_by;
        first_seq = x.first_seq;
        num_segs = x.num_segs;
        hlc_ts = x.hlc_ts;
      }
      ∷ rest

  received_items : List WireItem → List QueueItem
  unfolding received_item
  received_items [] = []
  received_items (x ∷ xs) =
      received_item x (decode x.stored_by) (decode x.added_by) (received_items xs)

  unfoldable pub apply_update : List WireItem → PeerId → Server → Option Error × Server
  unfolding received_items
  apply_update items from s =
      let s1 = with_queue (replace_items (received_items items) s.queue_ctrl.q) s in
      let (msg, s2) = snapshot s1 in
      if allowed s from perm_queue
      then (none, react_to_queue_update (send (broadcast msg) s2))
      else (some permission_denied, s)
