-- ===== src/Admission/Probe.antt =====
-- A peer that asks again to join a session (main.go, session_manager.go).
use p2ptogether.Prelude.{
  ◌≡◌, refl, true, false, some, ◌==◌, nat_eq, list_eq, ==_refl, ap, ◌∙◌, [], ◌∷◌,
}
use p2ptogether.Prelude.Maps.{lookup}
use p2ptogether.Names.{Text, text}
use p2ptogether.Peers.{PeerId, PeerCodec}
use p2ptogether.Sessions.{Session, UserInfo, get_session, is_peer_banned}
use p2ptogether.Sessions.Members.{add_peer_to_session-member}
use p2ptogether.Server.{Server, sessions, role_manager}
use p2ptogether.Admission.{authorize, admitted, welcome, handle_auth_stream}

module _ ⦃codec : PeerCodec⦄ where
  pub welcome_keeps :
      (remote : PeerId) (username : Text) (session : Session) (s : Server)
      → (sessions (welcome remote username session s) ≡ sessions s)
        × (role_manager (welcome remote username session s) ≡ role_manager s)
  unfolding welcome
  welcome_keeps remote username session s = (refl, refl)

  authorize-member :
      (remote : PeerId) (username : Text) (s : Server) (session : Session) (info : UserInfo)
      → get_session (sessions s) session.id ≡ some session
      → (session.admin_peer_id == s.node.id) ≡ true
      → (is_peer_banned (sessions s) session.id remote).0 ≡ false
      → lookup remote session.members ≡ some info
      → authorize remote username s (some session) ≡ welcome remote username session s
  unfolding authorize admitted get_session
  authorize-member remote username s session info stored admin free member =
      let again =
        add_peer_to_session-member s.session_manager session.id remote username (text "Viewer" ∷ [])
          stored member in
      rw (admin, free, again) refl

  -- A member that asks to join again, under any name, is welcomed by the admin, and the sessions and
  -- the roles stay as they are: it keeps the name of its first request. The session is stored under
  -- its ID, this peer is its admin, and the member is not banned.
  pub handle_auth_stream-member :
      (remote : PeerId) (id username : Text) (s : Server) (session : Session) (info : UserInfo)
      → get_session (sessions s) id ≡ some session
      → session.id ≡ id
      → session.admin_peer_id ≡ s.node.id
      → (is_peer_banned (sessions s) id remote).0 ≡ false
      → lookup remote session.members ≡ some info
      → let after = handle_auth_stream remote id username s in
        (after ≡ welcome remote username session s)
        × (sessions after ≡ sessions s)
        × (role_manager after ≡ role_manager s)
  unfolding handle_auth_stream
  handle_auth_stream-member remote id username s session info stored named admin free member =
      let is_admin = ap (λ p. p == s.node.id) admin ∙ ==_refl s.node.id in
      let not_banned = ap (λ i. (is_peer_banned (sessions s) i remote).0) named ∙ free in
      let here = ap (get_session (sessions s)) named ∙ stored in
      let welcomed =
        ap (authorize remote username s) stored
        ∙ authorize-member remote username s session info here is_admin not_banned member in
      (
        welcomed,
        ap sessions welcomed ∙ (welcome_keeps remote username session s).0,
        ap role_manager welcomed ∙ (welcome_keeps remote username session s).1,
      )
