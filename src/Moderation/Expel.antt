-- ===== src/Moderation/Expel.antt =====
-- Bans by command (main.go).
use p2ptogether.Prelude.{
  ℕ, ◌≡◌, refl, ap, ◌∙◌, true, false, Option, none, some, [], arith, ◌==◌, nat_eq, list_eq,
  if◌then◌else◌, Result, ok, err, Option-cases, Bool-cases, ==_refl, inl, inr,
}
use p2ptogether.Names.{Text}
use p2ptogether.Permissions.{perm_ban_user}
use p2ptogether.Peers.{PeerId, PeerCodec}
use p2ptogether.Roles
use p2ptogether.Roles.{
  RoleManager, PeerRoleAssignment, get_assigned_roles, get_permissions_for_peer, set_peer_roles,
  normalize_names,
}
use p2ptogether.Roles.Access.{get_assigned_roles-set_peer_roles}
use p2ptogether.Sessions.{Session, get_session, is_peer_banned, is_peer_in_session, ban_peer}
use p2ptogether.Sessions.Bans.{ban_peer_lem}
use p2ptogether.Server.{Server, role_manager, sessions, allowed, now, assign_roles, with_sessions}
use p2ptogether.Moderation.{
  handle_ban_peer_cmd, expel_target, expellable, expelled_in, ban_target, revoke, announce_assigned,
  ban,
}

module _ ⦃codec : PeerCodec⦄ where
  announce_assigned_sessions :
      (r : Result p2ptogether.Roles.Error (Option PeerRoleAssignment)) (s : Server)
      → (sessions (announce_assigned (r, s)) ≡ sessions s)
        × (role_manager (announce_assigned (r, s)) ≡ role_manager s)
  unfolding announce_assigned
  announce_assigned_sessions (ok (some a)) s = (refl, refl)
  announce_assigned_sessions (ok none) s = (refl, refl)
  announce_assigned_sessions (err e) s = (refl, refl)

  normalize_names_none : (rm : RoleManager) → normalize_names rm.definitions [] ≡ ok []
  unfolding normalize_names
  normalize_names_none rm = refl

  no_permissions :
      (rm : RoleManager) (peer : PeerId)
      → (get_assigned_roles rm peer).0 ≡ []
      → get_permissions_for_peer rm peer ≡ 0
  unfolding get_permissions_for_peer
  no_permissions rm peer e = rw e

  pub revoke_lem :
      (peer : PeerId) (s : Server)
      → (sessions (revoke peer s) ≡ sessions s)
        × (get_permissions_for_peer (role_manager (revoke peer s)) peer ≡ 0)
  unfolding revoke
  revoke_lem peer s =
      let (result, s') = assign_roles peer [] s in
      let (same_sessions, same_roles) = announce_assigned_sessions result s' in
      let rm = role_manager s in
      let c = s.session_manager.clock in
      let assigned =
        get_assigned_roles-set_peer_roles rm c peer peer [] (normalize_names_none rm) in
      let none_left = ap (λ b. if b then [] else (get_assigned_roles rm peer).0) (==_refl peer) in
      (
        same_sessions,
        ap (λ rm. get_permissions_for_peer rm peer) same_roles
            ∙ no_permissions (role_manager s') peer (assigned ∙ none_left),
      )

  -- Only a peer of an existing session is expelled.
  pub expel_target_found :
      (s : Server) (sender : PeerId) (target : Text) {peer : PeerId}
      → expel_target s sender target ≡ some peer
      → (session : Session) × (get_session (sessions s) s.node.current_session_id ≡ some session)
  unfolding expel_target expellable expelled_in
  expel_target_found s sender target h =
      elim (Option-cases (get_session (sessions s) s.node.current_session_id)) [
        | inr (session, e) ↦ (session, e)
        | inl e ↦ absurd (ground (arith, e))
      ]

  -- The state after the guards, with the stamp of the ban and the clock that gave it.
  ban_lem :
      (reason : Text) (hlc : ℕ) (sender peer : PeerId) (s : Server) {session : Session}
      → get_session (sessions s) s.node.current_session_id ≡ some session
      → let id = s.node.current_session_id in
        let (result, sessions') = ban_peer (sessions s) id peer sender reason hlc in
        let after = ban reason hlc sender peer result (with_sessions sessions' s) in
        ((is_peer_banned (sessions after) id peer).0 ≡ true)
        × (is_peer_in_session (sessions after) id peer ≡ false)
        × (get_permissions_for_peer (role_manager after) peer ≡ 0)
  unfolding ban get_session
  ban_lem reason hlc sender peer s found =
      let id = s.node.current_session_id in
      let sessions' = (ban_peer (sessions s) id peer sender reason hlc).1 in
      let b = ban_peer_lem (sessions s) id peer sender reason hlc found in
      let (kept, powerless) = revoke_lem peer (with_sessions sessions' s) in
      rw (b.0) (
        ap (λ m. (is_peer_banned m id peer).0) kept ∙ b.1,
        ap (λ m. is_peer_in_session m id peer) kept ∙ b.2,
        powerless,
      )

  handle_ban_found :
      (target reason : Text) (ts : ℕ) (sender peer : PeerId) (s : Server)
      → allowed s sender perm_ban_user ≡ true
      → expel_target s sender target ≡ some peer
      → handle_ban_peer_cmd target reason ts sender s ≡ ban_target reason ts sender s peer
  unfolding handle_ban_peer_cmd
  handle_ban_found target reason ts sender peer s a e = rw (a, e, handle_ban_peer_cmd) refl

  -- A ban command of a sender with the permission, whose target passes the checks, leaves the target
  -- banned from the session, no member of it, and with no permission at all.
  pub handle_ban_peer_cmd_lem :
      (target reason : Text) (ts : ℕ) (sender peer : PeerId) (s : Server)
      → allowed s sender perm_ban_user ≡ true
      → expel_target s sender target ≡ some peer
      → let id = s.node.current_session_id in
        let after = handle_ban_peer_cmd target reason ts sender s in
        ((is_peer_banned (sessions after) id peer).0 ≡ true)
        × (is_peer_in_session (sessions after) id peer ≡ false)
        × (get_permissions_for_peer (role_manager after) peer ≡ 0)
  unfolding ban_target
  handle_ban_peer_cmd_lem target reason ts sender peer s a e =
      let (session, found) = expel_target_found s sender target e in
      rw (handle_ban_found target reason ts sender peer s a e) (elim (Bool-cases (ts == 0)) [
        | inl z ↦
            rw (z, ban_target)
              (ban_lem reason (now s).0 sender peer (now s).1 {session = session} found)
        | inr z ↦ rw (z, ban_target) (ban_lem reason ts sender peer s {session = session} found)
      ])
