-- ===== src/Admission/Refusal.antt =====
-- Banned peers that ask to join (main.go).
use p2ptogether.Prelude.{
  ◌≡◌, refl, ap, ◌∙◌, true, some, [], ◌∷◌, ◌++◌, ◌==◌, nat_eq, list_eq, Bool-cases, inl, inr,
}
use p2ptogether.Names.{Text, text}
use p2ptogether.Peers.{PeerId, PeerCodec}
use p2ptogether.Sessions.{Session, get_session, is_peer_banned}
use p2ptogether.Messages.{answer, refused}
use p2ptogether.Server.{Server, sessions}
use p2ptogether.Admission.{handle_auth_stream, authorize, refuse, ban_message}

module _ ⦃codec : PeerCodec⦄ where
  authorize_banned :
      (remote : PeerId) (username : Text) (s : Server) (session : Session)
      → (is_peer_banned (sessions s) session.id remote).0 ≡ true
      → (message : Text) × (authorize remote username s (some session)
          ≡ record s { sent = s.sent ++ answer (refused message) ∷ [] })
  unfolding authorize refuse
  authorize_banned remote username s session b =
      elim (Bool-cases (session.admin_peer_id == s.node.id)) [
        | inl a ↦
            let info = (is_peer_banned (sessions s) session.id remote).1 in
            (ban_message info.reason, rw (a, b, authorize) refl)
        | inr a ↦ (text "Authorization failed: not session admin.", rw (a, authorize) refl)
      ]

  -- A peer that is banned from a session is refused: nothing changes but for the answer.
  handle_auth_stream_banned :
      (remote : PeerId) (id username : Text) (s : Server) {session : Session}
      → get_session (sessions s) id ≡ some session
      → session.id ≡ id
      → (is_peer_banned (sessions s) id remote).0 ≡ true
      → (message : Text) × (handle_auth_stream remote id username s
          ≡ record s { sent = s.sent ++ answer (refused message) ∷ [] })
  unfolding handle_auth_stream
  handle_auth_stream_banned remote id username s {session} found key banned =
      let b = ap (λ i. (is_peer_banned (sessions s) i remote).0) key ∙ banned in
      let (message, e) = authorize_banned remote username s session b in
      (message, ap (authorize remote username s) found ∙ e)
