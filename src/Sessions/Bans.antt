-- ===== src/Sessions/Bans.antt =====
-- Members and bans of a session (internal/session/session_manager.go).
use p2ptogether.Prelude.{
  ℕ, ◌≡◌, true, false, none, some, List, arith, nat_eq, list_eq, nat_beq_iff, ◌==◌, if◌then◌else◌,
  ==_refl, Option-cases, inl, inr, ok,
}
use p2ptogether.Prelude.Maps.{
  lookup, insert, delete, has_key, lookup-insert, lookup-delete, lookup-insert_self, AllValues,
  insert-AllValues, lookup-AllValues,
}
use p2ptogether.Names.{Text}
use p2ptogether.Peers.{PeerId, PeerCodec}
use p2ptogether.Sessions.{
  Session, Sessions, SessionManager, UserInfo, create_session, add_peer_to_session,
  remove_peer_from_session, ban_peer, is_peer_banned, is_peer_in_session, ban_in, member_in,
  with_ban, new_session,
}

ban_in-with_ban :
    (session : Session) (peer by other : PeerId) (reason : Text) (at : ℕ)
    → ban_in (some (with_ban session peer by reason at).1) other ≡ (
        if peer == other
        then (true, (with_ban session peer by reason at).0)
        else ban_in (some session) other)
unfolding ban_in with_ban
ban_in-with_ban session peer by other reason at =
    ground (arith, lookup-insert peer other (with_ban session peer by reason at).0 session.banned)

member_in-with_ban :
    (session : Session) (peer by other : PeerId) (reason : Text) (at : ℕ)
    → member_in (some (with_ban session peer by reason at).1) other
      ≡ (if peer == other then false else member_in (some session) other)
unfolding member_in with_ban
member_in-with_ban session peer by other reason at =
    ground (arith, lookup-delete peer other session.members, nat_beq_iff peer other)

ban_peer_found :
    (sessions : Sessions) (id : Text) (peer by : PeerId) (reason : Text) (at : ℕ)
    {session : Session}
    → lookup id sessions ≡ some session
    → ban_peer sessions id peer by reason at ≡ (
      ok (with_ban session peer by reason at).0,
      insert id (with_ban session peer by reason at).1 sessions,
    )
unfolding ban_peer
ban_peer_found sessions id peer by reason at e = rw (e, ban_peer)

-- After a ban in an existing session the peer is banned there with the recorded ban and is no
-- member; another peer's ban and membership are what they were, and so is every other session.
pub ban_peer_lem :
    (sessions : Sessions) (id : Text) (peer by : PeerId) (reason : Text) (at : ℕ)
    {session : Session}
    → lookup id sessions ≡ some session
    → let (result, after) = ban_peer sessions id peer by reason at in
      (result ≡ ok (is_peer_banned after id peer).1)
      × ((is_peer_banned after id peer).0 ≡ true)
      × (is_peer_in_session after id peer ≡ false)
      × ((other : PeerId)
          → (peer == other) ≡ false
          → (is_peer_banned after id other ≡ is_peer_banned sessions id other)
            × (is_peer_in_session after id other ≡ is_peer_in_session sessions id other))
      × ((id' : Text) → (id == id') ≡ false → lookup id' after ≡ lookup id' sessions)
unfolding is_peer_banned is_peer_in_session
ban_peer_lem sessions id peer by reason at {session} e =
    let session' = (with_ban session peer by reason at).1 in
    let stored = lookup-insert_self id session' sessions in
    let same = ==_refl peer in
    rw (ban_peer_found sessions id peer by reason at e) (
      rw (stored, ban_in-with_ban session peer by peer reason at, same),
      rw (stored, ban_in-with_ban session peer by peer reason at, same),
      rw (stored, member_in-with_ban session peer by peer reason at, same),
      (λ other ne. (
        rw (stored, ban_in-with_ban session peer by other reason at, ne, e),
        rw (stored, member_in-with_ban session peer by other reason at, ne, e),
      )),
      (λ id' ne. rw (lookup-insert id id' session' sessions, ne)),
    )

-- The banned peers of each session are none of its members.
abbrev pub Disjoint : Session → Type 0
Disjoint session =
    (peer : PeerId) → has_key peer session.banned ≡ true → has_key peer session.members ≡ false

pub record IsValid (sessions : Sessions) : Type 0 where
  pub disjoint : AllValues Disjoint sessions

with_ban-Disjoint :
    (session : Session) (peer by : PeerId) (reason : Text) (at : ℕ)
    → Disjoint session
    → Disjoint (with_ban session peer by reason at).1
unfolding with_ban
with_ban-Disjoint session peer by reason at d other banned = ground (
  arith,
  d other,
  lookup-insert peer other (with_ban session peer by reason at).0 session.banned,
  lookup-delete peer other session.members,
  nat_beq_iff peer other,
)

-- A ban keeps every session's banned peers out of its members.
pub ban_peer-IsValid :
    (sessions : Sessions) (id : Text) (peer by : PeerId) (reason : Text) (at : ℕ)
    → IsValid sessions
    → IsValid (ban_peer sessions id peer by reason at).1
unfolding ban_peer
ban_peer-IsValid sessions id peer by reason at v = elim (Option-cases (lookup id sessions)) [
  | inl e ↦ rw (e, ban_peer) v
  | inr (session, e) ↦
      let d = lookup-AllValues Disjoint id sessions e v.disjoint in
      let d' = with_ban-Disjoint session peer by reason at d in
      rw (e, ban_peer) (record { disjoint = insert-AllValues Disjoint id _ sessions d' v.disjoint })
]

delete-Disjoint :
    (session : Session) (peer : PeerId)
    → Disjoint session
    → Disjoint (record session { members = delete peer session.members })
delete-Disjoint session peer d other banned =
    ground (arith, d other, lookup-delete peer other session.members, nat_beq_iff peer other)

-- A removal keeps every session's banned peers out of its members.
pub remove_peer_from_session-IsValid :
    (sessions : Sessions) (id : Text) (peer : PeerId)
    → IsValid sessions
    → IsValid (remove_peer_from_session sessions id peer).1
unfolding remove_peer_from_session
remove_peer_from_session-IsValid sessions id peer v = elim (Option-cases (lookup id sessions)) [
  | inl e ↦ rw (e, remove_peer_from_session) v
  | inr (session, e) ↦
      let d = lookup-AllValues Disjoint id sessions e v.disjoint in
      elim (Option-cases (lookup peer session.members)) [
        | inl f ↦ rw (e, f, remove_peer_from_session) v
        | inr (info, f) ↦
            rw (e, f, remove_peer_from_session)
              (record {
                disjoint =
                    insert-AllValues Disjoint id _ sessions (delete-Disjoint session peer d)
                      v.disjoint;
              })
      ]
]

free_of_ban :
    (session : Session) (peer : PeerId)
    → (ban_in (some session) peer).0 ≡ false
    → lookup peer session.banned ≡ none
unfolding ban_in
free_of_ban session peer h = ground arith

insert-Disjoint :
    (session : Session) (peer : PeerId) (info : UserInfo)
    → lookup peer session.banned ≡ none
    → Disjoint session
    → Disjoint (record session { members = insert peer info session.members })
insert-Disjoint session peer info unbanned d other banned =
    ground (arith, d other, lookup-insert peer other info session.members, nat_beq_iff peer other)

module _ ⦃codec : PeerCodec⦄ where
  new_session-Disjoint :
      (id : Text) (admin : PeerId) (username name : Text)
      → Disjoint (new_session id admin username name)
  unfolding new_session lookup
  new_session-Disjoint id admin username name peer banned = cc

  -- A new session starts with its creator as only member and nobody banned.
  pub create_session-IsValid :
      (sm : SessionManager) (id : Text) (admin : PeerId) (username name : Text)
      → IsValid sm.sessions
      → IsValid (create_session sm id admin username name).1.sessions
  unfolding create_session
  create_session-IsValid sm id admin username name v =
      let fresh = new_session id admin username name in
      let alone = new_session-Disjoint id admin username name in
      let stored = insert-AllValues Disjoint id fresh sm.sessions alone v.disjoint in ground arith

  -- Adding a peer that is not banned from the session keeps every session's banned peers out of its
  -- members.
  pub add_peer_to_session-IsValid :
      (sm : SessionManager) (id : Text) (peer : PeerId) (username : Text) (roles : List Text)
      → (is_peer_banned sm.sessions id peer).0 ≡ false
      → IsValid sm.sessions
      → IsValid (add_peer_to_session sm id peer username roles).1.sessions
  unfolding add_peer_to_session is_peer_banned
  add_peer_to_session-IsValid sm id peer username roles free v =
      elim (Option-cases (lookup id sm.sessions)) [
        | inl e ↦ rw (e, add_peer_to_session) v
        | inr (session, e) ↦
            let d = lookup-AllValues Disjoint id sm.sessions e v.disjoint in
            elim (Option-cases (lookup peer session.members)) [
              | inr (info, f) ↦ rw (e, f, add_peer_to_session) v
              | inl f ↦
                  let banned_free : lookup peer session.banned ≡ none =
                    free_of_ban session peer (rw e at free) in
                  rw (e, f, add_peer_to_session)
                    (record {
                      disjoint =
                          insert-AllValues Disjoint id _ sm.sessions
                            (insert-Disjoint session peer _ banned_free d) v.disjoint;
                    })
            ]
      ]
