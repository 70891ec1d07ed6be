-- ===== src/Admission.antt =====
-- `handleAuthStream` of peer_service/main.go: the answer to a peer that asks to join a session.
--
-- `proto.Marshal` of a message built here does not fail, and the result of a stream write is dropped.
pub mod Refusal
pub mod Probe
pub mod Welcome
use p2ptogether.Prelude.{
  not, Option, none, some, List, [], ◌∷◌, ◌++◌, map, ◌==◌, nat_eq, list_eq, if◌then◌else◌, Result,
  ok, err,
}
use p2ptogether.Names.{Text, text, is_empty}
use p2ptogether.Peers.{PeerId, PeerCodec, encode}
use p2ptogether.Roles.{get_all_assignments}
use p2ptogether.Sessions.{
  Session, UserInfo, get_session, is_peer_banned, add_peer_to_session, SessionManager,
  session_not_found, id_collision,
}
use p2ptogether.Sessions
use p2ptogether.Messages.{
  refused, accepted, peer_role_assignment, local_peer_identity, broadcast, answer, publish_control,
}
use p2ptogether.Server.{Server, role_manager, sessions, now, send}
use p2ptogether.Streaming.{wire_items}

module _ ⦃codec : PeerCodec⦄ where
  refuse : Text → Server → Server
  refuse message s = send (answer (refused message)) s

  abbrev ban_message : Text → Text
  ban_message reason =
      if is_empty reason
      then text "You are banned from this session."
      else text "You are banned from this session. Reason: " ++ reason

  identities : Session → List (Text × Text)
  identities session = map (λ entry. (encode entry.0, entry.1.username)) session.members

  -- The answer with the snapshot, and the news of the new member.
  pub welcome : PeerId → Text → Session → Server → Server
  unfolding identities
  welcome remote username session s =
      let assignments = get_all_assignments (role_manager s) in
      let (_, s1) = now s in
      let items = wire_items s1.queue_ctrl.q.items in
      let (_, s2) = now s1 in
      let s3 =
        send (answer (accepted session.id session.name assignments items (identities session)))
          s2 in
      let (ts, s4) = now s3 in
      let assigned = peer_role_assignment (record {
        peer_id = encode remote;
        assigned_role_names = text "Viewer" ∷ [];
        hlc_ts = ts;
      }) in
      let identity = local_peer_identity (encode remote) username in
      send (publish_control identity)
        (send (publish_control assigned) (send (broadcast identity) (send (broadcast assigned) s4)))

  -- The text of the error, printed with `%v`.
  pub error_text : p2ptogether.Sessions.Error → Text
  error_text (session_not_found id) = text "session " ++ id ++ text " not found"
  error_text (id_collision id) = text "session ID " ++ id ++ text " already exists (collision)"

  admitted :
      PeerId → Text → Result p2ptogether.Sessions.Error (Session × UserInfo) → Server → Server
  unfolding refuse welcome error_text
  admitted remote username (err e) s =
      refuse (text "Failed to add peer to session: " ++ error_text e) s
  admitted remote username (ok (session, info)) s = welcome remote username session s

  abbrev with_session_manager : SessionManager → Server → Server
  with_session_manager sm s = record s { session_manager = sm }

  authorize : PeerId → Text → Server → Option Session → Server
  unfolding refuse admitted
  authorize remote username s none = refuse (text "Session not found.") s
  authorize remote username s (some session) =
      let (banned, info) = is_peer_banned (sessions s) session.id remote in
      let (result, sm) =
        add_peer_to_session s.session_manager session.id remote username (text "Viewer" ∷ []) in
      if not (session.admin_peer_id == s.node.id)
      then refuse (text "Authorization failed: not session admin.") s
      else if banned
      then refuse (ban_message info.reason) s
      else admitted remote username result (with_session_manager sm s)

  -- `AuthRequest`, read and unmarshalled.
  unfoldable pub handle_auth_stream : PeerId → Text → Text → Server → Server
  unfolding authorize
  handle_auth_stream remote session_id username s =
      authorize remote username s (get_session (sessions s) session_id)
