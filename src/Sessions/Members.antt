-- ===== src/Sessions/Members.antt =====
-- A member that is added again (session_manager.go).
use p2ptogether.Prelude.{
  ◌≡◌, refl, Option, none, some, List, ok, nat_eq, list_eq, Option-cases, inl, inr,
}
use p2ptogether.Prelude.Maps.{lookup}
use p2ptogether.Names.{Text}
use p2ptogether.Peers.{PeerId, PeerCodec}
use p2ptogether.Roles.History.{Reach, next, sets}
use p2ptogether.Roles.Access.{definitions-set_peer_roles}
use p2ptogether.Sessions.{
  Session, SessionManager, UserInfo, get_session, give_roles, initial_roles, add_member,
  add_peer_to_session,
}

module _ ⦃codec : PeerCodec⦄ where
  pub add_peer_to_session-member :
      (sm : SessionManager) (id : Text) (peer : PeerId) (username : Text) (roles : List Text)
      {session : Session} {info : UserInfo}
      → lookup id sm.sessions ≡ some session
      → lookup peer session.members ≡ some info
      → add_peer_to_session sm id peer username roles ≡ (ok (session, info), sm)
  unfolding add_peer_to_session add_member
  add_peer_to_session-member sm id peer username roles stored member =
      rw (stored, add_peer_to_session) (rw (member, add_member) refl)

  -- Adding a peer sets roles at most.
  pub add_peer_to_session-Reach :
      (sm : SessionManager) (id : Text) (peer : PeerId) (username : Text) (roles : List Text)
      → Reach sm.role_manager
      → let rm = (add_peer_to_session sm id peer username roles).1.role_manager in
        Reach rm × (rm.definitions ≡ sm.role_manager.definitions)
  unfolding add_peer_to_session add_member give_roles initial_roles
  add_peer_to_session-Reach sm id peer username roles r =
      elim (Option-cases (lookup id sm.sessions)) [
        | inl e ↦ rw (e, add_peer_to_session) (r, refl)
        | inr (session, e) ↦
            rw (e, add_peer_to_session) (added session (lookup peer session.members))
      ]
    where
      added :
          (session : Session) (known : Option UserInfo)
          → let rm = (add_member sm id session peer username roles known).1.role_manager in
            Reach rm × (rm.definitions ≡ sm.role_manager.definitions)
      added session none = (
        next r (sets sm.role_manager sm.clock peer (initial_roles roles)),
        definitions-set_peer_roles sm.role_manager sm.clock peer (initial_roles roles),
      )
      added session (some info) = (r, refl)

  -- A stored session takes every peer.
  pub add_peer_to_session-ok :
      (sm : SessionManager) (id : Text) (peer : PeerId) (username : Text) (roles : List Text)
      {session : Session}
      → get_session sm.sessions id ≡ some session
      → (joined : Session) × (info : UserInfo) × (joined.id ≡ session.id)
        × ((add_peer_to_session sm id peer username roles).0 ≡ ok (joined, info))
  unfolding add_peer_to_session add_member get_session
  add_peer_to_session-ok sm id peer username roles {session} stored =
      elim (Option-cases (lookup peer session.members)) [
        | inl e ↦ rw (stored, add_peer_to_session) (rw (e, add_member) (_, _, refl, refl))
        | inr (info, e) ↦
            rw (stored, add_peer_to_session) (rw (e, add_member) (session, info, refl, refl))
      ]
