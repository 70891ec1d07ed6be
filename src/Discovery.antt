-- ===== src/Discovery.antt =====
-- peer_service/main.go: `JoinSessionRequest`: how the admin of a session is found, reached and asked.
--
-- What libp2p answers to the calls of one request is the parameter `Network`; waits and timeouts are
-- left out. The channel of `FindPeers` is the list of what comes out of it before it closes. A probe
-- is a `AuthRequest` with the username "discovery-test"; its answer is `none` where the stream, the
-- write, the read or the unmarshalling fails.
pub mod Addresses
pub mod Outcome
pub mod Handshake
use p2ptogether.Prelude.{
  ℕ, zero, suc, ◌+◌, Bool, true, false, not, ◌&&◌, ◌||◌, Option, none, some, List, [], ◌∷◌, ◌++◌,
  map, any, filter, leb, ◌==◌, nat_eq, list_eq, if◌then◌else◌,
}
use p2ptogether.Names.{Text, text, is_empty}
use p2ptogether.Peers.{PeerId, PeerCodec, encode}
use p2ptogether.Messages.{JoinSessionResponse, refused, accepted, join_session_response, reply}
use p2ptogether.Server.{Server, send}
use p2ptogether.Membership.{process_admin_join_response}
use p2ptogether.Discovery.Addresses.{
  Multiaddr, contains_text, sort_addresses_local_first, merge_addresses,
}

pub record AddrInfo : Type 0 where
  pub id : PeerId
  pub addrs : List Multiaddr

-- How the exchange with the admin ends: at one of its steps, with the error of the library, or with
-- an answer.
pub data Auth : Type 0 where
  not_opened not_written not_read bad_response : Text → Auth
  empty_response : Auth
  answered : JoinSessionResponse → Auth

-- `find_peers` is by the number of the call, `connect` by the attempt, `relay` by the relay.
pub record Network : Type 0 where
  pub find_peers : ℕ → Option (List AddrInfo)
  pub peers : List PeerId
  pub protocols : PeerId → Option (List Text)
  pub ask : PeerId → Option (Option Text)
  pub conns : List PeerId
  pub ask_local : PeerId → Option (Option Text)
  pub peer_info : PeerId → AddrInfo
  pub bootstrap : Bool
  pub stored : PeerId → List Multiaddr
  pub connect : ℕ → AddrInfo → Bool
  pub relay_peers : List PeerId
  pub relay_info : PeerId → PeerId → Option AddrInfo
  pub relay : PeerId → AddrInfo → Bool
  pub auth : PeerId → Text → Text → Auth

abbrev pub take {ℓ} : {A : Type ℓ} → ℕ → List A → List A
take zero xs = []
take (suc n) [] = []
take (suc n) (x ∷ xs) = x ∷ take n xs

-- The first provider that is not this peer.
unfoldable pub first_other : PeerId → List AddrInfo → Option AddrInfo
first_other self [] = none
first_other self (info ∷ infos) =
    let rest = first_other self infos in if info.id == self then rest else some info

provider : PeerId → Option (List AddrInfo) → Option AddrInfo
unfolding first_other
provider self none = none
provider self (some infos) = first_other self infos

abbrev pub or_try : Option AddrInfo → Option AddrInfo → Option AddrInfo
or_try none later = later
or_try (some info) later = some info

-- The attempts from the given one on.
unfoldable pub discover : Network → PeerId → ℕ → ℕ → Option AddrInfo
unfolding provider
discover net self zero attempt = none
discover net self (suc rounds) attempt =
    or_try (provider self (net.find_peers attempt)) (discover net self rounds (attempt + 1))

speaks : Option (List Text) → Bool
speaks none = false
speaks (some protocols) = any (contains_text (text "p2ptogether")) protocols

unfoldable pub peers_to_try : Network → List PeerId
unfolding speaks
peers_to_try net =
    let app_peers = filter (λ p. speaks (net.protocols p)) net.peers in
    if is_empty app_peers then take 5 net.peers else app_peers

unfoldable pub first_that : (PeerId → Bool) → List PeerId → Option PeerId
first_that p [] = none
first_that p (x ∷ xs) = let rest = first_that p xs in if p x then some x else rest

-- The peer exchange takes an error other than the missing session for the sign of the admin.
unfoldable pub acknowledges : Option (Option Text) → Bool
acknowledges none = false
acknowledges (some none) = false
acknowledges (some (some message)) = not (contains_text (text "Session not found") message)

-- The local discovery takes a missing error for it too.
unfoldable pub acknowledges_local : Option (Option Text) → Bool
acknowledges_local none = false
acknowledges_local (some none) = true
acknowledges_local (some (some message)) = not (contains_text (text "Session not found") message)

info_of : Network → Option PeerId → Option AddrInfo
info_of net none = none
info_of net (some peer) = some (net.peer_info peer)

unfoldable pub exchange : Network → Option PeerId
unfolding peers_to_try first_that acknowledges
exchange net = first_that (λ p. acknowledges (net.ask p)) (take 10 (peers_to_try net))

unfoldable pub local : Network → PeerId → Option PeerId
unfolding first_that acknowledges_local
local net self = first_that (λ p. not (p == self) && acknowledges_local (net.ask_local p)) net.conns

unfoldable pub after_bootstrap : Network → PeerId → Option AddrInfo
unfolding provider
after_bootstrap net self = if net.bootstrap then provider self (net.find_peers 5) else none

-- Four calls of `FindPeers`, then the three fallbacks.
unfoldable pub find_admin : Network → PeerId → Option AddrInfo
unfolding discover exchange local after_bootstrap info_of
find_admin net self = or_try (discover net self 4 1) (
    or_try (info_of net (exchange net))
      (or_try (info_of net (local net self)) (after_bootstrap net self)))

unfoldable pub connect_direct : Network → AddrInfo → ℕ → ℕ → Bool
connect_direct net info zero attempt = false
connect_direct net info (suc rounds) attempt =
    net.connect attempt info || connect_direct net info rounds (attempt + 1)

through : Network → PeerId → Option AddrInfo → Bool
through net relay none = false
through net relay (some info) = net.relay relay info

-- The relays that are tried, and whether one connects; `attempts` have been made.
unfoldable pub try_relays : Network → PeerId → PeerId → ℕ → List PeerId → List PeerId × Bool
unfolding through
try_relays net self admin attempts [] = ([], false)
try_relays net self admin attempts (relay ∷ relays) =
    let skipped = try_relays net self admin attempts relays in
    let (tried, connected) = try_relays net self admin (attempts + 1) relays in
    if (relay == self) || (relay == admin)
    then skipped
    else if leb 2 attempts
    then ([], false)
    else if through net relay (net.relay_info relay admin)
    then (relay ∷ [], true)
    else (relay ∷ tried, connected)

unfoldable pub connected : Network → PeerId → AddrInfo → Bool
unfolding connect_direct try_relays
connected net self info =
    connect_direct net info 3 1 || (try_relays net self info.id 0 net.relay_peers).1

-- The addresses of the admin as they are tried.
unfoldable pub with_addresses : Network → AddrInfo → AddrInfo
with_addresses net info = record info {
  addrs = sort_addresses_local_first (merge_addresses info.addrs (net.stored info.id));
}

refuse_join : Text → Server → Server
refuse_join message s = send (reply (join_session_response (refused message))) s

no_providers : Text → Text
no_providers id =
    text "No providers found for session "
    ++ id
    ++ text " on the DHT after exhaustive search (standard DHT + peer exchange + bootstrap)."

module _ ⦃codec : PeerCodec⦄ where
  not_connected : PeerId → Text
  not_connected admin =
      text "Failed to establish connection to session Admin "
      ++ encode admin
      ++ text " after trying direct and relay methods. Both peers may be behind symmetric NATs."

  failed : Text → PeerId → Text → Text
  failed action admin error = text "Failed to " ++ action ++ encode admin ++ text ": " ++ error

  module _ (join : ℕ → Text → Bool) where
    pub process_response : PeerId → JoinSessionResponse → Server → Server
    process_response admin (refused message) s =
        if is_empty message then process_admin_join_response join [] none none admin s else s
    process_response admin (accepted id name assignments items identities) s =
        process_admin_join_response join id (some (map some assignments)) (some items) admin s

    finish_auth : PeerId → Auth → Server → Server
    unfolding refuse_join failed process_response
    finish_auth admin (not_opened error) s =
        refuse_join (failed (text "open /auth/1 stream to Admin ") admin error) s
    finish_auth admin (not_written error) s =
        refuse_join (failed (text "write AuthRequest to Admin ") admin error) s
    finish_auth admin (not_read error) s =
        refuse_join (failed (text "read JoinSessionResponse from Admin ") admin error) s
    finish_auth admin empty_response s =
        refuse_join
          (failed (text "read JoinSessionResponse from Admin ") admin (text "empty response")) s
    finish_auth admin (bad_response error) s =
        refuse_join (failed (text "unmarshal JoinSessionResponse from Admin ") admin error) s
    finish_auth admin (answered response) s =
        send (reply (join_session_response response)) (process_response admin response s)

    reach : Network → Text → Text → Option AddrInfo → Server → Server
    unfolding refuse_join no_providers not_connected finish_auth
    reach net invite username none s = refuse_join (no_providers invite) s
    reach net invite username (some info) s =
        if connected net s.node.id (with_addresses net info)
        then finish_auth info.id (net.auth info.id invite username) s
        else refuse_join (not_connected info.id) s

    unfoldable pub handle_join_session : Network → Text → Text → Server → Server
    unfolding reach
    handle_join_session net invite username s =
        reach net invite username (find_admin net s.node.id) s
