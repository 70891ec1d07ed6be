-- ===== src/Tests/Joining.antt =====
-- Runs of joining and leaving a session.
use p2ptogether.Prelude.{
  ℕ, ◌≡◌, ◌≢◌, refl, arith, true, false, Bool, none, some, [], ◌∷◌, nat_eq, list_eq, ◌⊎◌, ok, any,
}
use p2ptogether.Prelude.Maps.{lookup}
use p2ptogether.Names.{Text, text, normalize}
use p2ptogether.Names.Decimal.{cut_suffix}
use p2ptogether.Permissions.{has}
use p2ptogether.Roles.{normalize_names, get_permissions_for_peer, get_assigned_roles}
use p2ptogether.Sessions.{get_session, is_peer_banned}
use p2ptogether.Topics.{
  default_session, join_session_topics, already_joined, leave_topics, reusable,
}
use p2ptogether.Topics.Slots.{IsSound}
use p2ptogether.Topics.Joined.{Joined, join_session_topics-Joined}
use p2ptogether.Topics.Defaults.{create_and_leave}
use p2ptogether.Messages.{Expulsion, peer_kicked, refused}
use p2ptogether.Server.{Server, role_manager, sessions, allowed}
use p2ptogether.Admission.{handle_auth_stream, welcome}
use p2ptogether.Admission.Probe.{handle_auth_stream-member}
use p2ptogether.Client.{kick_peer_cmd, receive}
use p2ptogether.Client.Denied.{needed, IsRefused, receive_denied}
use p2ptogether.Control.{receive_control}
use p2ptogether.Control.Expelled.{kicked, Home, Rejoins, receive_control-Home}
use p2ptogether.Discovery.{Network, answered, handle_join_session}
use p2ptogether.Discovery.Addresses.{Multiaddr, sort_addresses_local_first, merge_addresses}
use p2ptogether.Discovery.Addresses.Tried.{Tried, sort-merge-Tried}
use p2ptogether.Discovery.Outcome.{Answered, Refused, handle_join_session_outcome}
use p2ptogether.Tests.Samples.{
  one_letter, manager, session, user, server, default_topics, session_topics, no_duration,
}

-- Every `Join` succeeds.
abbrev always : ℕ → Text → Bool
always number name = true

default-IsSound : IsSound default_session default_topics
default-IsSound = record {
  chat = record {
    topic = record { named = refl; made = omega arith; not_closed = refl };
    cached = record { named = refl; made = omega arith; not_closed = refl };
    closed = tt;
    apart = λ ne. absurd (ne refl);
  };
  ctrl = record {
    topic = record { named = refl; made = omega arith; not_closed = refl };
    cached = record { named = refl; made = omega arith; not_closed = refl };
    closed = tt;
    apart = λ ne. absurd (ne refl);
  };
  video = record {
    topic = record { named = refl; made = omega arith; not_closed = refl };
    cached = record { named = refl; made = omega arith; not_closed = refl };
    closed = tt;
    apart = λ ne. absurd (ne refl);
  };
}

session-IsSound : IsSound (text "s1") session_topics
session-IsSound = record {
  chat = record {
    topic = record { named = refl; made = omega arith; not_closed = refl };
    cached = record { named = refl; made = omega arith; not_closed = refl };
    closed = tt;
    apart = λ ne e. absurd (omega arith);
  };
  ctrl = record {
    topic = record { named = refl; made = omega arith; not_closed = refl };
    cached = record { named = refl; made = omega arith; not_closed = refl };
    closed = tt;
    apart = λ ne e. absurd (omega arith);
  };
  video = record {
    topic = record { named = refl; made = omega arith; not_closed = refl };
    cached = record { named = refl; made = omega arith; not_closed = refl };
    closed = tt;
    apart = λ ne e. absurd (omega arith);
  };
}

joins : (join_session_topics always (text "s1") default_session default_topics).0 ≡ none
unfolding join_session_topics already_joined leave_topics reusable cut_suffix
joins = refl

join_session_topics_example :
    Joined (text "s1") (join_session_topics always (text "s1") default_session default_topics)
join_session_topics_example =
    join_session_topics-Joined always (text "s1") default_session default_topics default-IsSound
      joins

create_and_leave_example :
    let (e, current, joined) =
      join_session_topics always (text "s1") default_session default_topics in
    let (e', current', back) = join_session_topics always default_session current joined in
    (e' ≡ none)
    × (current' ≡ default_session)
    × (back.joins ≡ joined.joins)
    × (back.chat.topic ≡ default_topics.chat.topic)
    × (back.ctrl.topic ≡ default_topics.ctrl.topic)
    × (back.video.topic ≡ default_topics.video.topic)
create_and_leave_example =
    create_and_leave always (text "s1") default_topics refl (λ e. cc) refl joins

-- A peer in the default session.
abbrev at_home : Server
at_home = record server {
  node = record server.node { current_session_id = default_session; topics = default_topics };
}

moves : already_joined (text "s1") (text "s1") default_topics ≡ false
unfolding already_joined cut_suffix
moves = refl

abbrev as_viewer : Server
as_viewer = record server { node = record server.node { id = 2 } }

abbrev lan : Multiaddr
lan = record { string = text "/ip4/10.0.0.2/udp/1/quic-v1"; is_private = true }

abbrev wan : Multiaddr
wan = record { string = text "/ip4/8.8.8.8/tcp/1"; is_private = false }

-- Peer 2 provides the session at once and refuses.
abbrev network : Network
network = record {
  find_peers = λ attempt. some (record { id = 2; addrs = wan ∷ [] } ∷ []);
  peers = 2 ∷ 3 ∷ [];
  protocols = λ peer. none;
  ask = λ peer. none;
  conns = [];
  ask_local = λ peer. none;
  peer_info = λ peer. record { id = peer; addrs = [] };
  bootstrap = false;
  stored = λ peer. lan ∷ [];
  connect = λ attempt info. true;
  relay_peers = 2 ∷ 3 ∷ 4 ∷ 5 ∷ [];
  relay_info = λ relay admin. none;
  relay = λ relay info. false;
  auth = λ admin invite username. answered (refused (text "Session not found."));
}

denied_example :
    IsRefused
      (kick_peer_cmd (1 ∷ []) [] 0)
      as_viewer
      (receive always network no_duration (kick_peer_cmd (1 ∷ []) [] 0) as_viewer)
denied_example =
    receive_denied always network no_duration (kick_peer_cmd (1 ∷ []) [] 0) as_viewer needs may_not
  where
    needs : needed (kick_peer_cmd (1 ∷ []) [] 0) ≢ []
    needs = unfold needed in λ e. cc

    may_not : any (λ p. allowed as_viewer 2 p) (needed (kick_peer_cmd (1 ∷ []) [] 0)) ≡ false
    may_not = unfold needed has get_permissions_for_peer lookup get_assigned_roles in refl

abbrev expulsion : Expulsion
expulsion = record { peer_id = 1 ∷ []; issued_by = 2 ∷ []; reason = []; hlc_ts = 0 }

admin_defined : normalize_names manager.definitions (text "Admin" ∷ []) ≡ ok (text "admin" ∷ [])
unfolding normalize_names normalize lookup
admin_defined = refl

Home_example :
    Home server
      (receive_control always (peer_kicked expulsion) 2 server)
      (text "admin" ∷ [])
      (Rejoins always server)
Home_example =
    receive_control-Home always expulsion (peer_kicked expulsion) 2 server kicked refl refl
      admin_defined session-IsSound

Tried_example :
    Tried
      (wan ∷ [])
      (lan ∷ wan ∷ [])
      (sort_addresses_local_first (merge_addresses (wan ∷ []) (lan ∷ wan ∷ [])))
Tried_example = sort-merge-Tried (wan ∷ []) (lan ∷ wan ∷ [])

outcome_example :
    Refused always network
      (text "s1")
      []
      at_home
      (handle_join_session always network (text "s1") [] at_home)
    ⊎ Answered always network
        (text "s1")
        []
        at_home
        (handle_join_session always network (text "s1") [] at_home)
outcome_example = handle_join_session_outcome always network (text "s1") [] at_home

member_example :
    (handle_auth_stream 2 (text "s1") (text "bob") server ≡ welcome 2 (text "bob") session server)
    × (sessions (handle_auth_stream 2 (text "s1") (text "bob") server) ≡ sessions server)
    × (role_manager (handle_auth_stream 2 (text "s1") (text "bob") server) ≡ role_manager server)
member_example =
    handle_auth_stream-member 2 (text "s1") (text "bob") server session (user 2 (text "Viewer"))
      stored refl refl free member
  where
    stored : get_session (sessions server) (text "s1") ≡ some session
    stored = unfold get_session lookup in refl

    free : (is_peer_banned (sessions server) (text "s1") 2).0 ≡ false
    free = unfold is_peer_banned lookup in refl

    member : lookup 2 session.members ≡ some (user 2 (text "Viewer"))
    member = unfold lookup in refl
