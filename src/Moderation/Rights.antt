-- ===== src/Moderation/Rights.antt =====
-- The permission that each command of a local client needs (main.go).
use p2ptogether.Prelude.{ℕ, ◌≡◌, refl, Bool, false, ◌&&◌, Option, some, List, ap, ◌==◌, nat_eq}
use p2ptogether.Names.{Text}
use p2ptogether.Permissions.{
  Permission, perm_manage_user_roles, perm_add_remove_roles, perm_moderate_chat, perm_kick_user,
  perm_ban_user, perm_queue,
}
use p2ptogether.Peers.{PeerId, PeerCodec}
use p2ptogether.Roles.{RoleDefinition}
use p2ptogether.Server.{Server, allowed}
use p2ptogether.Controller.{QueueCmdType, handle, is_next, permission_denied}
use p2ptogether.Moderation.{
  handle_set_peer_roles_cmd, handle_update_role_cmd, handle_remove_role_cmd, handle_chat_delete_cmd,
  handle_kick_peer_cmd, handle_ban_peer_cmd,
}

-- The commands that a handler of their own checks and may drop. An `UpdateRoleCmd` without a
-- definition does not reach its handler, and a `SetPlaybackStateCmd` has its check behind a change.
pub data Command : Type 0 where
  set_peer_roles : Text → List Text → Command
  update_role : RoleDefinition → Command
  remove_role : Text → Command
  chat_delete : Text → ℕ → Command
  kick_peer ban_peer : Text → Text → ℕ → Command
  queue_cmd : QueueCmdType → Command

unfoldable pub required : Command → Permission
required (set_peer_roles target names) = perm_manage_user_roles
required (update_role d) = perm_add_remove_roles
required (remove_role name) = perm_add_remove_roles
required (chat_delete id ts) = perm_moderate_chat
required (kick_peer target reason ts) = perm_kick_user
required (ban_peer target reason ts) = perm_ban_user
required (queue_cmd cmd) = perm_queue

-- The NEXT that the node sends itself at the end of a stream needs none.
unfoldable pub exempt : Command → PeerId → Server → Bool
exempt (queue_cmd cmd) sender s = is_next cmd && (sender == s.node.id)
exempt (set_peer_roles target names) sender s = false
exempt (update_role d) sender s = false
exempt (remove_role name) sender s = false
exempt (chat_delete id ts) sender s = false
exempt (kick_peer target reason ts) sender s = false
exempt (ban_peer target reason ts) sender s = false

module _ ⦃codec : PeerCodec⦄ (duration_of : Text → Option ℕ) where
  -- The dispatch of `ControlStream` for these commands.
  unfoldable pub perform : Command → PeerId → Server → Server
  perform (set_peer_roles target names) sender s = handle_set_peer_roles_cmd target names sender s
  perform (update_role d) sender s = handle_update_role_cmd (some d) sender s
  perform (remove_role name) sender s = handle_remove_role_cmd name sender s
  perform (chat_delete id ts) sender s = handle_chat_delete_cmd id ts sender s
  perform (kick_peer target reason ts) sender s = handle_kick_peer_cmd target reason ts sender s
  perform (ban_peer target reason ts) sender s = handle_ban_peer_cmd target reason ts sender s
  perform (queue_cmd cmd) sender s = (handle duration_of cmd sender s).1

  handle_denied :
      (cmd : QueueCmdType) (sender : PeerId) (s : Server)
      → allowed s sender perm_queue ≡ false
      → (is_next cmd && (sender == s.node.id)) ≡ false
      → handle duration_of cmd sender s ≡ (some permission_denied, s)
  unfolding handle
  handle_denied cmd sender s d x = rw (x, d, handle) refl

  -- The handler of a queue command, or of a command to assign, define or remove a role, to delete a
  -- chat message, to kick or to ban leaves the whole service as it is and sends nothing if the sender
  -- lacks the permission of the command; of these only the NEXT that the node sends itself is exempt.
  -- The command to define a role has a definition.
  pub perform_denied :
      (c : Command) (sender : PeerId) (s : Server)
      → allowed s sender (required c) ≡ false
      → exempt c sender s ≡ false
      → perform c sender s ≡ s
  unfolding perform exempt required handle_set_peer_roles_cmd handle_update_role_cmd
      handle_remove_role_cmd handle_chat_delete_cmd handle_kick_peer_cmd handle_ban_peer_cmd
  perform_denied (set_peer_roles target names) sender s d x = rw d
  perform_denied (update_role r) sender s d x = rw d
  perform_denied (remove_role name) sender s d x = rw d
  perform_denied (chat_delete id ts) sender s d x = rw d
  perform_denied (kick_peer target reason ts) sender s d x = rw d
  perform_denied (ban_peer target reason ts) sender s d x = rw d
  perform_denied (queue_cmd cmd) sender s d x = ap (λ r. r.1) (handle_denied cmd sender s d x)
