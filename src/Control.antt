-- ===== src/Control.antt =====
-- peer_service/main.go: the dispatch of the control topic and of the chat topic, with what a peer does
-- when it is kicked or banned itself.
--
-- A message is one that was received and unmarshalled, with the peer that it was received from.
pub mod Expelled
use p2ptogether.Prelude.{
  ℕ, Bool, Option, none, some, [], ◌∷◌, ◌==◌, nat_eq, list_eq, if◌then◌else◌, Result, ok, err,
}
use p2ptogether.Names.{Text, text}
use p2ptogether.Peers.{PeerId, PeerCodec, encode}
use p2ptogether.Roles
use p2ptogether.Roles.{PeerRoleAssignment}
use p2ptogether.Messages.{
  Expulsion, ServerMsg, queue_update, role_definitions_update, peer_role_assignment,
  all_peer_role_assignments, playlist_reset, playback_state, local_peer_identity, peer_left,
  peer_kicked, peer_banned, chat_delete_msg, chat_msg, create_session_response,
  join_session_response, broadcast,
}
use p2ptogether.Server.{Server, now, observe, send, assign_roles}
use p2ptogether.Gossip.{
  handle_gossip_queue_update, handle_gossip_role_definitions_update,
  handle_gossip_peer_role_assignment, handle_gossip_all_peer_role_assignments,
  handle_gossip_playlist_reset, handle_gossip_playback_state_cmd, handle_gossip_local_peer_identity,
  handle_gossip_peer_left,
}
use p2ptogether.Membership.{go_default}

module _ ⦃codec : PeerCodec⦄ (join : ℕ → Text → Bool) where
  -- The clients learn the own role of a peer that was expelled.
  own_role_assigned : Result p2ptogether.Roles.Error (Option PeerRoleAssignment) × Server → Server
  own_role_assigned (ok (some a), s) =
      let (ts, s') = now s in send (broadcast (peer_role_assignment (record a { hlc_ts = ts }))) s'
  own_role_assigned (ok none, s) = s
  own_role_assigned (err e, s) = s

  -- A kick and a ban are handled alike.
  handle_expulsion : Expulsion → ServerMsg → Server → Server
  unfolding own_role_assigned
  handle_expulsion e msg s =
      let home = go_default join s in
      let s' =
        if e.peer_id == encode s.node.id
        then own_role_assigned (assign_roles s.node.id (text "Admin" ∷ []) home)
        else s in
      send (broadcast msg) s'

  control_payload : ServerMsg → PeerId → Server → Server
  unfolding handle_expulsion
  control_payload (queue_update items ts) from s = handle_gossip_queue_update items ts from s
  control_payload (role_definitions_update defs ts) from s =
      handle_gossip_role_definitions_update defs ts s
  control_payload (peer_role_assignment a) from s = handle_gossip_peer_role_assignment a s
  control_payload (all_peer_role_assignments entries ts) from s =
      handle_gossip_all_peer_role_assignments entries ts s
  control_payload (playlist_reset cmd) from s = handle_gossip_playlist_reset cmd s
  control_payload (playback_state cmd) from s = handle_gossip_playback_state_cmd cmd s
  control_payload (local_peer_identity peer name) from s =
      handle_gossip_local_peer_identity peer name s
  control_payload (peer_kicked e) from s = handle_expulsion e (peer_kicked e) s
  control_payload (peer_banned e) from s = handle_expulsion e (peer_banned e) s
  control_payload (peer_left left) from s = handle_gossip_peer_left left s
  control_payload (chat_delete_msg msg) from s = s
  control_payload (chat_msg msg) from s = s
  control_payload (create_session_response response) from s = s
  control_payload (join_session_response response) from s = s

  -- One round of `processControlTopicMessages`.
  unfoldable pub receive_control : ServerMsg → PeerId → Server → Server
  unfolding control_payload
  receive_control msg from s = if from == s.node.id then s else control_payload msg from s

chat_payload : ServerMsg → Server → Server
chat_payload (chat_msg msg) s = send (broadcast (chat_msg msg)) (observe msg.hlc_ts s)
chat_payload (chat_delete_msg msg) s = send (broadcast (chat_delete_msg msg)) (observe msg.hlc_ts s)
chat_payload (queue_update items ts) s = s
chat_payload (role_definitions_update defs ts) s = s
chat_payload (peer_role_assignment a) s = s
chat_payload (all_peer_role_assignments entries ts) s = s
chat_payload (playlist_reset cmd) s = s
chat_payload (playback_state cmd) s = s
chat_payload (local_peer_identity peer name) s = s
chat_payload (peer_kicked e) s = s
chat_payload (peer_banned e) s = s
chat_payload (peer_left left) s = s
chat_payload (create_session_response response) s = s
chat_payload (join_session_response response) s = s

-- One round of `processChatTopicMessages`.
unfoldable pub receive_chat : ServerMsg → PeerId → Server → Server
unfolding chat_payload
receive_chat msg from s = if from == s.node.id then s else chat_payload msg s
