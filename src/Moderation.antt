-- ===== src/Moderation.antt =====
-- peer_service/main.go: the commands of a local client that need a permission.
--
-- Commands that the source logs and drops leave the state as it is. `proto.Marshal` of a message
-- built here does not fail.
pub mod Rights
pub mod Expel
pub mod Kick
use p2ptogether.Prelude.{
  ℕ, Bool, true, false, not, ◌&&◌, ◌||◌, Option, none, some, List, [], ◌∷◌, map, ◌==◌, nat_eq,
  list_eq, if◌then◌else◌, Result, ok, err,
}
use p2ptogether.Names.{Text, text, is_empty}
use p2ptogether.Permissions.{
  perm_manage_user_roles, perm_add_remove_roles, perm_moderate_chat, perm_kick_user, perm_ban_user,
}
use p2ptogether.Peers.{PeerId, PeerCodec, encode, decode}
use p2ptogether.Roles
use p2ptogether.Roles.{PeerRoleAssignment, RoleDefinition}
use p2ptogether.Roles.Updates.{update_definition, remove_definition}
use p2ptogether.Sessions.{
  Session, UserInfo, BanInfo, get_session, is_peer_in_session, remove_peer_from_session, ban_peer,
}
use p2ptogether.Sessions
use p2ptogether.Messages.{
  Expulsion, role_definitions_update, peer_kicked, peer_banned, chat_delete_msg, broadcast,
  publish_chat,
}
use p2ptogether.Server.{
  Server, role_manager, sessions, allowed, with_role_manager, with_clock, with_sessions, now, send,
  announce, assign_roles, announce_assignment,
}

-- The stamp of a command, or a new one where the command has none.
abbrev stamp_or_now : ℕ → Server → ℕ × Server
stamp_or_now ts s = if ts == 0 then now s else (ts, s)

module _ ⦃codec : PeerCodec⦄ where
  decoded_or : PeerId → Option PeerId → PeerId
  decoded_or sender none = sender
  decoded_or sender (some peer) = peer

  target_of : Text → PeerId → PeerId
  unfolding decoded_or
  target_of target sender =
      if (target == encode sender) || (target == text "defaultPeerId") || is_empty target
      then sender
      else decoded_or sender (decode target)

  announce_assigned : Result p2ptogether.Roles.Error (Option PeerRoleAssignment) × Server → Server
  announce_assigned (ok (some a), s) = announce_assignment a s
  announce_assigned (ok none, s) = s
  announce_assigned (err e, s) = s

  unfoldable pub handle_set_peer_roles_cmd : Text → List Text → PeerId → Server → Server
  unfolding target_of announce_assigned
  handle_set_peer_roles_cmd target role_names sender s =
      if not (allowed s sender perm_manage_user_roles)
      then s
      else announce_assigned (assign_roles (target_of target sender) role_names s)

  announce_definitions : List RoleDefinition → Server → Server
  announce_definitions defs s =
      let (ts, s') = now s in announce (role_definitions_update (map some defs) ts) s'

  unfoldable pub handle_update_role_cmd : Option RoleDefinition → PeerId → Server → Server
  unfolding announce_definitions
  handle_update_role_cmd none sender s = s
  handle_update_role_cmd (some d) sender s =
      let (result, rm) = update_definition (role_manager s) d.name d.permissions in
      if not (allowed s sender perm_add_remove_roles)
      then s
      else elim result [ err e ↦ s | ok defs ↦ announce_definitions defs (with_role_manager rm s) ]

  announce_assignments : List PeerRoleAssignment → Server → Server
  announce_assignments [] s = s
  announce_assignments (a ∷ rest) s = announce_assignments rest (announce_assignment a s)

  unfoldable pub handle_remove_role_cmd : Text → PeerId → Server → Server
  unfolding announce_definitions announce_assignments
  handle_remove_role_cmd role_name sender s =
      let (result, rm, c) = remove_definition (role_manager s) s.session_manager.clock role_name in
      if not (allowed s sender perm_add_remove_roles) then s else elim result [
        | err e ↦ s
        | ok (defs, affected) ↦
            announce_assignments affected
              (announce_definitions defs (with_clock c (with_role_manager rm s)))
      ]

  unfoldable pub handle_chat_delete_cmd : Text → ℕ → PeerId → Server → Server
  handle_chat_delete_cmd message_id ts sender s =
      let (hlc, s') = stamp_or_now ts s in
      let msg =
        chat_delete_msg
          (record { message_id = message_id; deleted_by = encode sender; hlc_ts = hlc }) in
      if not (allowed s sender perm_moderate_chat) || is_empty message_id
      then s
      else send (publish_chat msg) (send (broadcast msg) s')

  -- Whom the sender may expel from which session: the checks after the permission.
  unfoldable pub expelled_in : PeerId → PeerId → Text → Option Session → Bool → Option PeerId
  expelled_in sender peer id none member = none
  expelled_in sender peer id (some session) member =
      if ((session.admin_peer_id == peer) && not (sender == session.admin_peer_id)) || not member
      then none
      else some peer

  unfoldable pub expellable : Server → PeerId → Option PeerId → Option PeerId
  unfolding expelled_in
  expellable s sender none = none
  expellable s sender (some peer) =
      let id = s.node.current_session_id in
      if is_empty id || (id == text "default")
      then none
      else expelled_in sender peer id (get_session (sessions s) id)
          (is_peer_in_session (sessions s) id peer)

  unfoldable pub expel_target : Server → PeerId → Text → Option PeerId
  unfolding expellable
  expel_target s sender target =
      if is_empty target || (target == encode sender)
      then none
      else expellable s sender (decode target)

  abbrev expulsion : PeerId → PeerId → Text → ℕ → Expulsion
  expulsion peer sender reason ts = record {
    peer_id = encode peer;
    issued_by = encode sender;
    reason = reason;
    hlc_ts = ts;
  }

  -- The roles of an expelled peer are taken away.
  pub revoke : PeerId → Server → Server
  unfolding announce_assigned
  revoke peer s = announce_assigned (assign_roles peer [] s)

  kick :
      Text
      → ℕ
      → PeerId
      → Server
      → PeerId
      → Result p2ptogether.Sessions.Error (UserInfo × Bool)
      → Server
      → Server
  unfolding revoke
  kick reason ts sender before peer (err e) s = before
  kick reason ts sender before peer (ok (info, false)) s = before
  kick reason ts sender before peer (ok (info, true)) s =
      let (hlc, s') = stamp_or_now ts (revoke peer s) in
      announce (peer_kicked (expulsion peer sender reason hlc)) s'

  unfoldable pub handle_kick_peer_cmd : Text → Text → ℕ → PeerId → Server → Server
  unfolding expel_target kick
  handle_kick_peer_cmd target reason ts sender s =
      if not (allowed s sender perm_kick_user) then s else elim (expel_target s sender target) [
        | none ↦ s
        | some peer ↦
            let (result, sessions') =
              remove_peer_from_session (sessions s) s.node.current_session_id peer in
            kick reason ts sender s peer result (with_sessions sessions' s)
      ]

  ban : Text → ℕ → PeerId → PeerId → Result p2ptogether.Sessions.Error BanInfo → Server → Server
  unfolding revoke
  ban reason hlc sender peer (err e) s = s
  ban reason hlc sender peer (ok info) s =
      announce (peer_banned (expulsion peer sender reason hlc)) (revoke peer s)

  ban_target : Text → ℕ → PeerId → Server → PeerId → Server
  unfolding ban
  ban_target reason ts sender s peer =
      let (hlc, s') = stamp_or_now ts s in
      let (result, sessions') =
        ban_peer (sessions s') s'.node.current_session_id peer sender reason hlc in
      ban reason hlc sender peer result (with_sessions sessions' s')

  unfoldable pub handle_ban_peer_cmd : Text → Text → ℕ → PeerId → Server → Server
  unfolding expel_target ban_target
  handle_ban_peer_cmd target reason ts sender s =
      if not (allowed s sender perm_ban_user) then s else elim (expel_target s sender target) [
        | none ↦ s
        | some peer ↦ ban_target reason ts sender s peer
      ]
