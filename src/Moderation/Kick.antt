-- ===== src/Moderation/Kick.antt =====
-- Kicks by command (main.go).
use p2ptogether.Prelude.{
  ℕ, ◌≡◌, refl, ap, subst, ◌∙◌, Bool, true, false, ◌||◌, Option, none, some, arith, ◌==◌, nat_eq,
  list_eq, ok, Bool-cases, inl, inr,
}
use p2ptogether.Names.{Text, text, is_empty}
use p2ptogether.Permissions.{perm_kick_user}
use p2ptogether.Peers.{PeerId, PeerCodec, encode, decode}
use p2ptogether.Roles.{get_permissions_for_peer}
use p2ptogether.Sessions.{
  Session, UserInfo, get_session, is_peer_banned, is_peer_in_session, remove_peer_from_session,
}
use p2ptogether.Sessions.Removals.{remove_peer_from_session_lem}
use p2ptogether.Server.{Server, role_manager, sessions, allowed, with_sessions}
use p2ptogether.Moderation.{handle_kick_peer_cmd, expel_target, expellable, expelled_in, kick}
use p2ptogether.Moderation.Expel.{expel_target_found, revoke_lem}

module _ ⦃codec : PeerCodec⦄ where
  kick_sessions :
      (reason : Text) (ts : ℕ) (sender : PeerId) (before : Server) (peer : PeerId) (info : UserInfo)
      (s : Server)
      → let after = kick reason ts sender before peer (ok (info, true)) s in
        (sessions after ≡ sessions s) × (get_permissions_for_peer (role_manager after) peer ≡ 0)
  unfolding kick
  kick_sessions reason ts sender before peer info s =
      let r = revoke_lem peer s in elim (Bool-cases (ts == 0)) [ inl z ↦ rw z r | inr z ↦ rw z r ]

  expelled_in_member :
      (sender p : PeerId) (id : Text) (o : Option Session) (member : Bool) {q : PeerId}
      → expelled_in sender p id o member ≡ some q
      → (member ≡ true) × (p ≡ q)
  unfolding expelled_in
  expelled_in_member sender p id none member h = absurd (ground arith)
  expelled_in_member sender p id (some session) true h = ground arith
  expelled_in_member sender p id (some session) false h = absurd (ground arith)

  expellable_member :
      (s : Server) (sender : PeerId) (o : Option PeerId) {q : PeerId}
      → expellable s sender o ≡ some q
      → is_peer_in_session (sessions s) s.node.current_session_id q ≡ true
  unfolding expellable
  expellable_member s sender none h = absurd (ground arith)
  expellable_member s sender (some p) {q} h =
      let id = s.node.current_session_id in
      elim (Bool-cases (is_empty id || (id == text "default"))) [
        | inl bad ↦ absurd (ground (arith, bad, h))
        | inr good ↦
            let member = is_peer_in_session (sessions s) id p in
            let r =
              expelled_in_member sender p id (get_session (sessions s) id) member (rw good at h) in
            subst (λ q. is_peer_in_session (sessions s) id q ≡ true) r.1 r.0
      ]

  expel_target_member :
      (s : Server) (sender : PeerId) (target : Text) {peer : PeerId}
      → expel_target s sender target ≡ some peer
      → is_peer_in_session (sessions s) s.node.current_session_id peer ≡ true
  unfolding expel_target
  expel_target_member s sender target h =
      elim (Bool-cases (is_empty target || (target == encode sender))) [
        | inl bad ↦ absurd (ground (arith, bad, h))
        | inr good ↦ expellable_member s sender (decode target) (rw good at h)
      ]

  handle_kick_found :
      (target reason : Text) (ts : ℕ) (sender peer : PeerId) (s : Server) {info : UserInfo}
      → allowed s sender perm_kick_user ≡ true
      → expel_target s sender target ≡ some peer
      → let (result, sessions') =
          remove_peer_from_session (sessions s) s.node.current_session_id peer in
        result ≡ ok (info, true)
        → handle_kick_peer_cmd target reason ts sender s
          ≡ kick reason ts sender s peer (ok (info, true)) (with_sessions sessions' s)
  unfolding handle_kick_peer_cmd
  handle_kick_found target reason ts sender peer s a e r = rw (a, e, r, handle_kick_peer_cmd) refl

  -- A kick command of a sender with the permission, whose target passes the checks, leaves the target
  -- no member of the session and with no permission at all, and changes no ban of the session.
  pub handle_kick_peer_cmd_lem :
      (target reason : Text) (ts : ℕ) (sender peer : PeerId) (s : Server)
      → allowed s sender perm_kick_user ≡ true
      → expel_target s sender target ≡ some peer
      → let id = s.node.current_session_id in
        let after = handle_kick_peer_cmd target reason ts sender s in
        (is_peer_in_session (sessions after) id peer ≡ false)
        × (get_permissions_for_peer (role_manager after) peer ≡ 0)
        × ((other : PeerId)
            → is_peer_banned (sessions after) id other ≡ is_peer_banned (sessions s) id other)
  unfolding get_session
  handle_kick_peer_cmd_lem target reason ts sender peer s a e =
      let id = s.node.current_session_id in
      let (session, found) = expel_target_found s sender target e in
      let member = expel_target_member s sender target e in
      let gone =
        remove_peer_from_session_lem (sessions s) id peer {session = session} found member in
      let sessions' = (remove_peer_from_session (sessions s) id peer).1 in
      let info = gone.0.0 in
      let k = kick_sessions reason ts sender s peer info (with_sessions sessions' s) in
      rw (handle_kick_found target reason ts sender peer s {info = info} a e gone.0.1) (
        ap (λ m. is_peer_in_session m id peer) k.0 ∙ gone.1,
        k.1,
        λ other. ap (λ m. is_peer_banned m id other) k.0 ∙ gone.2 other,
      )
