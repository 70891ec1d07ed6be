-- ===== src/Client.antt =====
-- peer_service/main.go: `ControlStream`, the messages of the local client.
--
-- A message is one that `Recv` returned; the UUIDs that the source makes stand in the messages.
pub mod Denied
use p2ptogether.Prelude.{ℕ, Bool, ◌||◌, Option, none, some, List, nat_eq, list_eq, if◌then◌else◌}
use p2ptogether.Names.{Text, text, is_empty}
use p2ptogether.Permissions.{perm_play_pause, perm_seek, perm_set_speed}
use p2ptogether.Peers.{PeerCodec, encode}
use p2ptogether.Roles.{RoleDefinition}
use p2ptogether.Messages.{
  SetPlaybackStateCmd, playback_state, chat_msg, broadcast, publish_control, publish_chat,
}
use p2ptogether.Server.{Server, allowed, observe, send}
use p2ptogether.Controller.{
  QueueCmdType, handle, update_last_known_playback_state, notify_player_stream_completed,
}
use p2ptogether.Moderation.{
  handle_set_peer_roles_cmd, handle_update_role_cmd, handle_remove_role_cmd, handle_chat_delete_cmd,
  handle_kick_peer_cmd, handle_ban_peer_cmd,
}
use p2ptogether.Membership.{handle_create_session, handle_leave_session}
use p2ptogether.Discovery.{Network, handle_join_session}

-- The payloads, each with its stamp; those without one have 0.
pub data ClientMsg : Type 0 where
  create_session_request : Text → Text → Text → ClientMsg
  leave_session_request : Text → ClientMsg
  join_session_request : Text → Text → ClientMsg
  queue_cmd : QueueCmdType → ℕ → ClientMsg
  playback_state_cmd : SetPlaybackStateCmd → ClientMsg
  set_peer_roles_cmd : Text → List Text → ℕ → ClientMsg
  update_role_cmd : Option RoleDefinition → ℕ → ClientMsg
  remove_role_cmd : Text → ℕ → ClientMsg
  playback_stream_completed_cmd : ℕ → ℕ → ClientMsg
  chat_cmd : Text → Text → ℕ → ClientMsg
  chat_delete_cmd : Text → ℕ → ClientMsg
  kick_peer_cmd ban_peer_cmd : Text → Text → ℕ → ClientMsg

unfoldable pub stamp_of : ClientMsg → ℕ
stamp_of (create_session_request uuid username name) = 0
stamp_of (leave_session_request id) = 0
stamp_of (join_session_request invite username) = 0
stamp_of (queue_cmd cmd ts) = ts
stamp_of (playback_state_cmd cmd) = cmd.hlc_ts
stamp_of (set_peer_roles_cmd target names ts) = ts
stamp_of (update_role_cmd d ts) = ts
stamp_of (remove_role_cmd name ts) = ts
stamp_of (playback_stream_completed_cmd seq ts) = ts
stamp_of (chat_cmd uuid message ts) = ts
stamp_of (chat_delete_cmd id ts) = ts
stamp_of (kick_peer_cmd target reason ts) = ts
stamp_of (ban_peer_cmd target reason ts) = ts

module _ ⦃codec : PeerCodec⦄ where
  publish_chat_cmd : Text → Text → ℕ → Server → Server
  publish_chat_cmd uuid message ts s =
      let msg =
        chat_msg
          (record { message_id = uuid; sender = encode s.node.id; text = message; hlc_ts = ts }) in
      send (publish_chat msg) (send (broadcast msg) s)

  unfoldable pub handle_playback_state_cmd : SetPlaybackStateCmd → Server → Server
  handle_playback_state_cmd cmd s =
      let s' = update_last_known_playback_state cmd s in
      if allowed s' s.node.id perm_play_pause
        || allowed s' s.node.id perm_seek
        || allowed s' s.node.id perm_set_speed
      then send (publish_control (playback_state cmd)) s'
      else s'

  module _ (join : ℕ → Text → Bool) (net : Network) (duration_of : Text → Option ℕ) where
    -- The `switch`; `none` is the panic on a missing role definition, which the log line reads.
    dispatch : ClientMsg → Server → Option Server
    unfolding handle_create_session handle_leave_session handle_playback_state_cmd publish_chat_cmd
    dispatch (create_session_request uuid username name) s =
        some (handle_create_session join uuid username name s)
    dispatch (leave_session_request id) s = some (handle_leave_session join id s)
    dispatch (join_session_request invite username) s =
        some (handle_join_session join net invite username s)
    dispatch (queue_cmd cmd ts) s =
        some
          (if is_empty s.node.current_session_id then s else (handle duration_of cmd s.node.id s).1)
    dispatch (playback_state_cmd cmd) s = some (handle_playback_state_cmd cmd s)
    dispatch (set_peer_roles_cmd target names ts) s =
        some (handle_set_peer_roles_cmd target names s.node.id s)
    dispatch (update_role_cmd none ts) s = none
    dispatch (update_role_cmd (some d) ts) s = some (handle_update_role_cmd (some d) s.node.id s)
    dispatch (remove_role_cmd name ts) s = some (handle_remove_role_cmd name s.node.id s)
    dispatch (playback_stream_completed_cmd seq ts) s =
        some (notify_player_stream_completed duration_of seq s.node.id s)
    dispatch (chat_cmd uuid message ts) s = some (publish_chat_cmd uuid message ts s)
    dispatch (chat_delete_cmd id ts) s = some (handle_chat_delete_cmd id ts s.node.id s)
    dispatch (kick_peer_cmd target reason ts) s =
        some (handle_kick_peer_cmd target reason ts s.node.id s)
    dispatch (ban_peer_cmd target reason ts) s =
        some (handle_ban_peer_cmd target reason ts s.node.id s)

    -- One round of the loop.
    unfoldable pub receive : ClientMsg → Server → Option Server
    unfolding stamp_of dispatch
    receive msg s = dispatch msg (observe (stamp_of msg) s)
