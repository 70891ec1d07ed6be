-- ===== src/Tests/Service.antt =====
-- Runs of the service: bans, commands, the queue, and segments.
use p2ptogether.Prelude.{◌⊎◌, ◌≤◌, ◌≡◌, refl, true, false, some, [], ◌∷◌, arith, nat_eq, list_eq}
use p2ptogether.Prelude.Int.{pos}
use p2ptogether.Prelude.Maps.{lookup}
use p2ptogether.Names.{text}
use p2ptogether.Permissions.{has, perm_ban_user, perm_kick_user, perm_view, perm_queue}
use p2ptogether.Roles.{get_permissions_for_peer, get_assigned_roles}
use p2ptogether.Sessions.{Session, SessionManager, get_session, is_peer_banned, is_peer_in_session}
use p2ptogether.Sessions.Bans as Bans
use p2ptogether.Sessions.Bans.{ban_peer_lem, ban_peer-IsValid, add_peer_to_session-IsValid}
use p2ptogether.Queue.{head}
use p2ptogether.Queue.Cursor as Cursor
use p2ptogether.Ring.Window as Window
use p2ptogether.Server.{Server, allowed, role_manager, sessions, with_sessions}
use p2ptogether.Streaming.{react_to_queue_update}
use p2ptogether.Streaming.Start.{wanted, encodes, Stopped, Started, react_lem}
use p2ptogether.Controller.{handle, skip_next_cmd}
use p2ptogether.Controller.Sequence.{handle_lem}
use p2ptogether.Moderation.{handle_ban_peer_cmd, expel_target, expellable, expelled_in}
use p2ptogether.Moderation.Rights.{kick_peer, required, exempt, perform, perform_denied}
use p2ptogether.Tests.Samples.{
  two_items, one_letter, clock, manager, session, one_session, ring, server, no_duration,
}
use p2ptogether.Controller.Silent.{skip_next_last}
use p2ptogether.Moderation.Expel.{handle_ban_peer_cmd_lem}
use p2ptogether.Gossip.{receive_video_segment}
use p2ptogether.Gossip.Video.{writes, receive_video_segment_lem}
use p2ptogether.Ring.History.{Reached-IsValid, starts}
use p2ptogether.Ring.{new_ring_buffer}

one_session-IsValid : Bans.IsValid one_session
unfolding lookup
one_session-IsValid = record { disjoint = (λ peer banned. cc, tt) }

found : lookup (text "s1") one_session ≡ some session
unfolding lookup
found = refl

abbrev managed : SessionManager
managed = record { sessions = one_session; role_manager = manager; clock = clock }

free : (is_peer_banned one_session (text "s1") 3).0 ≡ false
unfolding is_peer_banned lookup
free = refl

may_not_kick : allowed server 2 perm_kick_user ≡ false
unfolding has get_permissions_for_peer lookup get_assigned_roles
may_not_kick = refl

perform_denied_example : perform no_duration (kick_peer (1 ∷ []) [] 0) 2 server ≡ server
perform_denied_example = perform_denied no_duration (kick_peer (1 ∷ []) [] 0) 2 server denied plain
  where
    denied : allowed server 2 (required (kick_peer (1 ∷ []) [] 0)) ≡ false
    denied = unfold required in may_not_kick

    plain : exempt (kick_peer (1 ∷ []) [] 0) 2 server ≡ false
    plain = unfold exempt in refl

may_ban : allowed server 1 perm_ban_user ≡ true
unfolding has get_permissions_for_peer lookup get_assigned_roles
may_ban = refl

targets : expel_target server 1 (2 ∷ []) ≡ some 2
unfolding expel_target expellable expelled_in get_session is_peer_in_session lookup
targets = refl

handle_ban_peer_cmd_example :
    ((is_peer_banned (sessions (handle_ban_peer_cmd (2 ∷ []) [] 0 1 server)) (text "s1") 2).0
      ≡ true)
    × (is_peer_in_session (sessions (handle_ban_peer_cmd (2 ∷ []) [] 0 1 server)) (text "s1") 2
        ≡ false)
    × (get_permissions_for_peer (role_manager (handle_ban_peer_cmd (2 ∷ []) [] 0 1 server)) 2 ≡ 0)
handle_ban_peer_cmd_example = handle_ban_peer_cmd_lem (2 ∷ []) [] 0 1 2 server may_ban targets

abbrev banned_session : Session
banned_session = record session {
  members = [];
  banned =
      (2, record { peer_id = 2; username = []; banned_by = 1; reason = []; banned_at = 7 }) ∷ [];
}

abbrev after_ban : Server
after_ban = with_sessions ((text "s1", banned_session) ∷ []) server

handle_example :
    Cursor.IsValid (handle no_duration skip_next_cmd 1 server).1.queue_ctrl.q
    × (9 ≤ (handle no_duration skip_next_cmd 1 server).1.queue_ctrl.current_media_sequence)
handle_example = handle_lem no_duration skip_next_cmd 1 server (record { cursor_in = omega arith })

ring-IsValid : Window.IsValid ring
unfolding new_ring_buffer
ring-IsValid = Reached-IsValid (starts 4 refl (omega arith))

may_view : allowed server 1 perm_view ≡ true
unfolding has get_permissions_for_peer lookup get_assigned_roles
may_view = refl

receive_video_segment_example :
    (receive_video_segment (writes []) (writes []) 2 0 (7 ∷ 8 ∷ []) 2 30 3 server).node.bytes_down
    ≡ 30
receive_video_segment_example =
    (receive_video_segment_lem 2 0 (7 ∷ 8 ∷ []) 2 30 3 server ring-IsValid (omega arith) refl
      may_view).2

react_example :
    ((wanted server (head server.queue_ctrl.q) ≡ false)
      × Stopped server (react_to_queue_update server))
    ⊎ ((wanted server (head server.queue_ctrl.q) ≡ true)
        × (encodes server (head server.queue_ctrl.q) ≡ true)
        × (react_to_queue_update server ≡ server))
    ⊎ ((wanted server (head server.queue_ctrl.q) ≡ true)
        × (encodes server (head server.queue_ctrl.q) ≡ false)
        × Started server (react_to_queue_update server))
react_example = react_lem server

may_kick : allowed server 1 perm_kick_user ≡ true
unfolding has get_permissions_for_peer lookup get_assigned_roles
may_kick = refl

abbrev at_last : Server
at_last = record server {
  queue_ctrl = record server.queue_ctrl { q = Cursor.at two_items (pos 1) };
}

may_queue : allowed at_last 1 perm_queue ≡ true
unfolding has get_permissions_for_peer lookup get_assigned_roles
may_queue = refl

skip_next_last_example : (handle no_duration skip_next_cmd 1 at_last).1.sent ≡ []
skip_next_last_example =
    (skip_next_last no_duration at_last 1 two_items 1 may_queue refl (omega arith)).2
