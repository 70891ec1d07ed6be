-- ===== src/Gossip.antt =====
-- peer_service/main.go: what a peer does with the messages of the other peers, and with the segments
-- of its own encoder.
--
-- A message is one that was unmarshalled; `now_time` is the `time.Now` of the ring buffer, and
-- `size` the length of the marshalled message.
pub mod Video
use p2ptogether.Prelude.{
  ℕ, ◌+◌, ◌%◌, ◌^◌, Bool, true, false, not, ◌&&◌, ◌||◌, Option, none, some, List, [], ◌==◌, nat_eq,
  list_eq, if◌then◌else◌, Result, ok, err,
}
use p2ptogether.Names.{Text, text, is_empty}
use p2ptogether.Permissions.{perm_stream, perm_view}
use p2ptogether.Peers.{PeerId, PeerCodec, decode}
use p2ptogether.Roles
use p2ptogether.Roles.{PeerRoleAssignment, RoleDefinition}
use p2ptogether.Roles.Updates.{
  apply_definitions_update, apply_peer_assignment, apply_all_assignments_snapshot,
}
use p2ptogether.Sessions.{remove_peer_from_session}
use p2ptogether.Queue.{QueueItem, head}
use p2ptogether.Ring.{
  Float64, RingBuffer, reset, write_at, set_publish_events, get, get_segment_actual_duration,
}
use p2ptogether.Messages.{
  WireItem, PeerLeft, PlaylistReset, SetPlaybackStateCmd, broadcast, role_definitions_update,
  peer_role_assignment, all_peer_role_assignments, playlist_reset, playback_state,
  local_peer_identity, peer_left, discontinuity, publish_video,
}
use p2ptogether.Server.{
  Server, role_manager, sessions, allowed, with_role_manager, with_sessions, observe, send,
}
use p2ptogether.Streaming.{react_to_queue_update}
use p2ptogether.Controller.{apply_update, update_last_known_playback_state}

module _ ⦃codec : PeerCodec⦄ where
  unfoldable pub handle_gossip_queue_update : List WireItem → ℕ → PeerId → Server → Server
  handle_gossip_queue_update items ts from s = (apply_update items from (observe ts s)).1

  unfoldable pub handle_gossip_role_definitions_update :
      List (Option RoleDefinition) → ℕ → Server → Server
  handle_gossip_role_definitions_update defs ts s =
      let s' = observe ts s in
      let (result, rm) = apply_definitions_update (role_manager s') (some defs) in
      elim result [
        | err e ↦ s'
        | ok unit ↦
            react_to_queue_update
              (send (broadcast (role_definitions_update defs ts)) (with_role_manager rm s'))
      ]

  assignment_applied :
      PeerRoleAssignment → PeerId → Result p2ptogether.Roles.Error Bool → Server → Server
  assignment_applied a peer (err e) s = s
  assignment_applied a peer (ok false) s = s
  assignment_applied a peer (ok true) s =
      let s' = send (broadcast (peer_role_assignment a)) s in
      if peer == s.node.id then react_to_queue_update s' else s'

  unfoldable pub handle_gossip_peer_role_assignment : PeerRoleAssignment → Server → Server
  unfolding assignment_applied
  handle_gossip_peer_role_assignment a s =
      let s' = observe a.hlc_ts s in
      elim (decode a.peer_id) [
        | none ↦ s'
        | some peer ↦
            let (result, rm) =
              apply_peer_assignment (role_manager s') peer a.assigned_role_names a.hlc_ts in
            assignment_applied a peer result (with_role_manager rm s')
      ]

  leave_session : PeerId → Server → Server
  leave_session peer s =
      let id = s.node.current_session_id in
      let (_, sessions') = remove_peer_from_session (sessions s) id peer in
      if is_empty id || (id == text "default") then s else with_sessions sessions' s

  unfoldable pub handle_gossip_peer_left : PeerLeft → Server → Server
  unfolding leave_session
  handle_gossip_peer_left left s =
      let s' = observe left.hlc_ts s in
      elim (decode left.peer_id) [
        | none ↦ s'
        | some peer ↦
            let (_, rm) = apply_peer_assignment (role_manager s') peer [] left.hlc_ts in
            send (broadcast (peer_left left)) (leave_session peer (with_role_manager rm s'))
      ]

  unfoldable pub handle_gossip_all_peer_role_assignments :
      List (Option PeerRoleAssignment) → ℕ → Server → Server
  handle_gossip_all_peer_role_assignments entries ts s =
      let s' = observe ts s in
      let (result, rm) = apply_all_assignments_snapshot (role_manager s') (some entries) in
      elim result [
        | err e ↦ s'
        | ok unit ↦
            react_to_queue_update
              (send (broadcast (all_peer_role_assignments entries ts)) (with_role_manager rm s'))
      ]

unfoldable pub handle_gossip_playlist_reset : PlaylistReset → Server → Server
handle_gossip_playlist_reset cmd s =
    let s' = observe cmd.hlc_ts s in
    let ring = reset cmd.sequence s'.node.ring_buffer in
    send (broadcast (playlist_reset cmd))
      (send discontinuity (record s' { node = record s'.node { ring_buffer = ring } }))

unfoldable pub handle_gossip_playback_state_cmd : SetPlaybackStateCmd → Server → Server
handle_gossip_playback_state_cmd cmd s =
    send (broadcast (playback_state cmd))
      (update_last_known_playback_state cmd (observe cmd.hlc_ts s))

unfoldable pub handle_gossip_local_peer_identity : Text → Text → Server → Server
handle_gossip_local_peer_identity peer_id username s =
    send (broadcast (local_peer_identity peer_id username)) s

-- One message of `processVideoSegmentMessages`. The buffer is locked three times: `between` and
-- `later` are what other goroutines do to it before and after the write.
unfoldable pub receive_video_segment :
    (RingBuffer → RingBuffer)
    → (RingBuffer → RingBuffer)
    → PeerId
    → ℕ
    → List ℕ
    → Float64
    → ℕ
    → ℕ
    → Server
    → Server
receive_video_segment between later from seq payload duration size now_time s =
    let quiet = between (set_publish_events false s.node.ring_buffer) in
    let written = later (write_at seq payload 0 duration now_time quiet) in
    let ring = set_publish_events true written in
    if (from == s.node.id) || not (allowed s s.node.id perm_view) then s else record s {
      node = record s.node { ring_buffer = ring; bytes_down = (s.node.bytes_down + size) % 2 ^ 64 };
    }

-- Whether this peer streams the current item.
designated : Server → Option QueueItem → Bool
designated s none = false
designated s (some item) = (item.stored_by == s.node.id) && allowed s s.node.id perm_stream

publish_segment : ℕ → ℕ → Server → Option (List ℕ) → Server
publish_segment seq size s none = s
publish_segment seq size s (some payload) =
    let duration = get_segment_actual_duration seq s.node.ring_buffer in
    record (send (publish_video seq payload duration) s) {
      node = record s.node { bytes_up = (s.node.bytes_up + size) % 2 ^ 64 };
    }

-- One event of `processSegmentEvents`, of a publish that succeeds.
unfoldable pub process_segment_event : ℕ → ℕ → Server → Server
unfolding designated publish_segment
process_segment_event seq size s =
    if designated s (head s.queue_ctrl.q)
    then publish_segment seq size s (get seq s.node.ring_buffer)
    else s
