-- ===== src/Sessions/Removals.antt =====
-- The removal of a member (internal/session/session_manager.go).
use p2ptogether.Prelude.{
  ◌≡◌, refl, true, false, some, arith, nat_eq, list_eq, ok, Option-cases, inl, inr,
}
use p2ptogether.Prelude.Maps.{lookup, insert, delete, lookup-insert_self, lookup-delete_self}
use p2ptogether.Names.{Text}
use p2ptogether.Peers.{PeerId}
use p2ptogether.Sessions.{
  Session, Sessions, UserInfo, remove_peer_from_session, is_peer_in_session, is_peer_banned,
  member_in, ban_in,
}

remove_peer_found :
    (sessions : Sessions) (id : Text) (peer : PeerId) {session : Session} {info : UserInfo}
    → lookup id sessions ≡ some session
    → lookup peer session.members ≡ some info
    → remove_peer_from_session sessions id peer ≡ (
      ok (info, true),
      insert id (record session { members = delete peer session.members }) sessions,
    )
unfolding remove_peer_from_session
remove_peer_found sessions id peer e f = rw (e, f, remove_peer_from_session) refl

member_found :
    (sessions : Sessions) (id : Text) (peer : PeerId) {session : Session}
    → lookup id sessions ≡ some session
    → is_peer_in_session sessions id peer ≡ true
    → (info : UserInfo) × (lookup peer session.members ≡ some info)
unfolding is_peer_in_session member_in
member_found sessions id peer {session} e m = elim (Option-cases (lookup peer session.members)) [
  | inr found ↦ found
  | inl absent ↦ absurd (ground (arith, e, absent, m))
]

-- Removing a member reports that it was there; it is then no member, and the session's bans are what
-- they were.
pub remove_peer_from_session_lem :
    (sessions : Sessions) (id : Text) (peer : PeerId) {session : Session}
    → lookup id sessions ≡ some session
    → is_peer_in_session sessions id peer ≡ true
    → let (result, after) = remove_peer_from_session sessions id peer in
      ((info : UserInfo) × (result ≡ ok (info, true)))
      × (is_peer_in_session after id peer ≡ false)
      × ((other : PeerId) → is_peer_banned after id other ≡ is_peer_banned sessions id other)
unfolding is_peer_in_session is_peer_banned member_in ban_in
remove_peer_from_session_lem sessions id peer {session} e m =
    let (info, f) = member_found sessions id peer e m in
    let session' : Session = record session { members = delete peer session.members } in
    let stored = lookup-insert_self id session' sessions in
    rw (remove_peer_found sessions id peer e f) (
      (info, refl),
      rw (stored, lookup-delete_self peer session.members),
      (λ other. rw (stored, e) refl),
    )
