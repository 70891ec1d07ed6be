-- ===== src/Membership.antt =====
-- peer_service/main.go: how a peer enters and leaves a session: create, leave, disconnect, and what it
-- does with the answer to its request to join.
--
-- Writes to the stream are effects and their errors are dropped, as in the source, so the first write
-- of `sendInitialState` does not fail. The UUID of a new session is an argument. Left out: the
-- advertisement on the DHT and mDNS, which do not touch the state of the service.
pub mod Admission
use p2ptogether.Prelude.{
  ℕ, Bool, not, ◌&&◌, Option, none, some, List, [], ◌++◌, map, ◌==◌, nat_eq, list_eq, if◌then◌else◌,
  Result, ok, err,
}
use p2ptogether.Prelude.Maps.{lookup}
use p2ptogether.Names.{Text, text, is_empty}
use p2ptogether.Peers.{PeerId, PeerCodec, encode}
use p2ptogether.Roles.{PeerRoleAssignment, get_all_assignments}
use p2ptogether.Roles.Updates.{definitions_message, apply_all_assignments_snapshot}
use p2ptogether.Sessions
use p2ptogether.Sessions.{Session, UserInfo, get_session, create_session, remove_peer_from_session}
use p2ptogether.Topics
use p2ptogether.Topics.{join_session_topics, default_session}
use p2ptogether.Messages.{
  WireItem, PeerLeft, created, not_created, queue_update, role_definitions_update,
  all_peer_role_assignments, local_peer_identity, peer_left, create_session_response,
  publish_control, reply,
}
use p2ptogether.Server.{Server, role_manager, sessions, with_role_manager, with_sessions, now, send}
use p2ptogether.Streaming.{wire_items, snapshot}
use p2ptogether.Controller.{apply_update}
use p2ptogether.Admission.{error_text}

-- `SetCurrentSessionID`
abbrev pub set_current_session_id : Text → Server → Server
set_current_session_id id s = record s { node = record s.node { current_session_id = id } }

-- A session that is not the default one.
unfoldable pub in_session : Server → Bool
in_session s =
    not (is_empty s.node.current_session_id) && not (s.node.current_session_id == default_session)

username_of : Option UserInfo → Text
username_of none = []
username_of (some info) = info.username

username_in : PeerId → Option Session → Text
unfolding username_of
username_in peer none = []
username_in peer (some session) = username_of (lookup peer session.members)

unfoldable pub local_username : Server → Text
unfolding username_in in_session
local_username s =
    if in_session s
    then username_in s.node.id (get_session (sessions s) s.node.current_session_id)
    else []

module _ (join : ℕ → Text → Bool) where
  -- `s.node.JoinSessionTopics`
  unfoldable pub join_topics : Text → Server → Option p2ptogether.Topics.Error × Server
  join_topics id s =
      let (e, current, topics) =
        join_session_topics join id s.node.current_session_id s.node.topics in
      (e, record s { node = record s.node { current_session_id = current; topics = topics } })

module _ ⦃codec : PeerCodec⦄ where
  unfoldable pub send_initial_state : Server → Server
  unfolding local_username snapshot
  send_initial_state s =
      let s1 = send (reply (local_peer_identity (encode s.node.id) (local_username s))) s in
      let (ts, s2) = now s1 in
      let defs = map some (definitions_message (role_manager s2).definitions) in
      let s3 = send (reply (role_definitions_update defs ts)) s2 in
      let entries = map some (get_all_assignments (role_manager s3)) in
      let (ts', s4) = now s3 in
      let s5 = send (reply (all_peer_role_assignments entries ts')) s4 in
      let (msg, s6) = snapshot s5 in
      let (ts'', s7) = now s6 in
      send (reply (queue_update (wire_items s7.queue_ctrl.q.items) ts'')) s7

  -- `PeerLeft` of this peer, published.
  publish_peer_left : Text → Server → Server
  publish_peer_left reason s =
      let (ts, s') = now s in
      send
        (publish_control
          (peer_left (record { peer_id = encode s.node.id; reason = reason; hlc_ts = ts })))
        s'

  -- The deferred call at the end of the stream.
  unfoldable pub disconnect : Server → Server
  unfolding in_session publish_peer_left
  disconnect s = if in_session s then publish_peer_left (text "disconnect") s else s

  leave_members : Server → Server
  leave_members s =
      let (result, sessions') =
        remove_peer_from_session (sessions s) s.node.current_session_id s.node.id in
      with_sessions sessions' s

  apply_role_snapshot : Option (List (Option PeerRoleAssignment)) → Server → Server
  apply_role_snapshot none s = s
  apply_role_snapshot (some entries) s =
      let (result, rm) = apply_all_assignments_snapshot (role_manager s) (some entries) in
      with_role_manager rm s

  apply_queue_snapshot : PeerId → Option (List WireItem) → Server → Server
  apply_queue_snapshot admin none s = s
  apply_queue_snapshot admin (some items) s = (apply_update items admin s).1

  module _ (join : ℕ → Text → Bool) where
    session_created : Result p2ptogether.Sessions.Error Session → Server → Server
    unfolding join_topics send_initial_state
    session_created (err e) s =
        send
          (reply (
            create_session_response
              (not_created (text "Failed to create session: " ++ error_text e))))
          s
    session_created (ok session) s =
        send (reply (create_session_response (created session.id session.invite_code)))
          (send_initial_state (join_topics join session.id s).1)

    unfoldable pub handle_create_session : Text → Text → Text → Server → Server
    unfolding session_created
    handle_create_session uuid username name s =
        let (result, sm) = create_session s.session_manager uuid s.node.id username name in
        session_created result (record s { session_manager = sm })

    -- The topics of the default session, and its name whether they were joined or not.
    unfoldable pub go_default : Server → Server
    unfolding join_topics
    go_default s = set_current_session_id default_session (join_topics join default_session s).1

    unfoldable pub handle_leave_session : Text → Server → Server
    unfolding in_session leave_members publish_peer_left go_default
    handle_leave_session id s =
        if not (is_empty id) && not (s.node.current_session_id == id)
        then s
        else if in_session s
        then go_default (publish_peer_left (text "leave") (leave_members s))
        else go_default s

    -- `processAdminJoinResponse`, with the parts of a snapshot that was unmarshalled.
    unfoldable pub process_admin_join_response :
        Text
        → Option (List (Option PeerRoleAssignment))
        → Option (List WireItem)
        → PeerId
        → Server
        → Server
    unfolding apply_role_snapshot apply_queue_snapshot join_topics
    process_admin_join_response id entries items admin s =
        (join_topics join id (
          apply_queue_snapshot admin items
            (apply_role_snapshot entries (set_current_session_id id s)))).1
