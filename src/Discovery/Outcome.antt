-- ===== src/Discovery/Outcome.antt =====
-- How a request to join ends, and which relays it tries (main.go).
use p2ptogether.Prelude.{
  ℕ, ◌+◌, ◌≤◌, ◌≡◌, ◌≢◌, refl, arith, Bool, true, false, ◌||◌, some, List, [], ◌∷◌, ◌==◌, nat_eq,
  if◌then◌else◌, length, All, ◌⊎◌, inl, inr, Option-cases, Bool-cases, leb,
}
use p2ptogether.Names.{Text}
use p2ptogether.Peers.{PeerId, PeerCodec}
use p2ptogether.Messages.{JoinSessionResponse, refused, join_session_response, reply}
use p2ptogether.Server.{Server, send}
use p2ptogether.Discovery.{
  AddrInfo, Auth, answered, not_opened, not_written, not_read, bad_response, empty_response,
  Network, find_admin, connected, with_addresses, through, try_relays, refuse_join,
  process_response, finish_auth, reach, handle_join_session,
}

module _ ⦃codec : PeerCodec⦄ (join : ℕ → Text → Bool) (net : Network) (invite username : Text) where
  -- The admin was found, reached and asked, and its answer was processed and handed on.
  pub record Answered (s after : Server) : Type 0 where
    pub info : AddrInfo
    pub response : JoinSessionResponse
    pub found : find_admin net s.node.id ≡ some info
    pub reached : connected net s.node.id (with_addresses net info) ≡ true
    pub asked : net.auth info.id invite username ≡ answered response
    pub processed :
        after
        ≡ send (reply (join_session_response response)) (process_response join info.id response s)

  -- The client got an error, and nothing else happened.
  abbrev pub Refused : Server → Server → Type 0
  Refused s after =
      (message : Text) × (after ≡ send (reply (join_session_response (refused message))) s)

  finish_auth_outcome :
      (s : Server) (info : AddrInfo) (auth : Auth)
      → find_admin net s.node.id ≡ some info
      → connected net s.node.id (with_addresses net info) ≡ true
      → net.auth info.id invite username ≡ auth
      → Refused s (finish_auth join info.id auth s) ⊎ Answered s (finish_auth join info.id auth s)
  unfolding finish_auth refuse_join
  finish_auth_outcome s info (not_opened error) f c a = inl (_, refl)
  finish_auth_outcome s info (not_written error) f c a = inl (_, refl)
  finish_auth_outcome s info (not_read error) f c a = inl (_, refl)
  finish_auth_outcome s info (bad_response error) f c a = inl (_, refl)
  finish_auth_outcome s info empty_response f c a = inl (_, refl)
  finish_auth_outcome s info (answered response) f c a = inr (record {
    info = info;
    response = response;
    found = f;
    reached = c;
    asked = a;
    processed = refl;
  })

  -- A request to join is answered with exactly one message: either an error, and then nothing else
  -- changes, or what the admin answered, after its answer was processed; and then the admin was
  -- found, a connection to it made, and the request sent to it.
  pub handle_join_session_outcome :
      (s : Server)
      → Refused s (handle_join_session join net invite username s)
        ⊎ Answered s (handle_join_session join net invite username s)
  unfolding handle_join_session reach refuse_join
  handle_join_session_outcome s = elim (Option-cases (find_admin net s.node.id)) [
    | inl nobody ↦ rw (nobody, reach) (inl (_, refl))
    | inr (info, found) ↦ elim (Bool-cases (connected net s.node.id (with_addresses net info))) [
      | inl linked ↦
          rw (found, reach)
            (rw linked
              (finish_auth_outcome s info (net.auth info.id invite username) found linked refl))
      | inr cut ↦ rw (found, reach) (rw cut (inl (_, refl)))
    ]
  ]

-- Few relays, and neither this peer nor the admin.
pub record Modest (self admin : PeerId) (attempts : ℕ) (tried : List PeerId) : Type 0 where
  pub few : attempts + length tried ≤ 2
  pub foreign : All (λ p. (p ≢ self) × (p ≢ admin)) tried

-- The four ways of a round.
way {ℓ} :
    (P : List PeerId → Type ℓ) (skips full links : Bool) (a b c d : List PeerId × Bool)
    → P a.0
    → P b.0
    → (skips ≡ false → full ≡ false → P c.0)
    → (skips ≡ false → full ≡ false → P d.0)
    → P (if skips then a else if full then b else if links then c else d).0
way P true full links a b c d ha hb hc hd = ha
way P false true links a b c d ha hb hc hd = hb
way P false false true a b c d ha hb hc hd = hc refl refl
way P false false false a b c d ha hb hc hd = hd refl refl

differs : (p self admin : PeerId) → ((p == self) || (p == admin)) ≡ false → (p ≢ self) × (p ≢ admin)
differs p self admin h =
    (λ e. ground (arith, nat_eq.same_iff p self), λ e. ground (arith, nat_eq.same_iff p admin))

-- Behind `attempts` of the two attempts, the relays that are tried make two at most with them, and
-- none is this peer or the admin, whichever peers are connected.
pub try_relays-Modest :
    (net : Network) (self admin : PeerId) (attempts : ℕ) (relays : List PeerId)
    → attempts ≤ 2
    → Modest self admin attempts (try_relays net self admin attempts relays).0
unfolding try_relays
try_relays-Modest net self admin attempts [] h = record { few = omega arith; foreign = tt }
try_relays-Modest net self admin attempts (relay ∷ relays) h =
    let rest = try_relays net self admin (attempts + 1) relays in
    way (Modest self admin attempts) ((relay == self) || (relay == admin)) (leb 2 attempts)
      (through net relay (net.relay_info relay admin)) _ ([], false) (relay ∷ [], true)
      (relay ∷ rest.0, rest.1) (try_relays-Modest net self admin attempts relays h)
      (record { few = omega arith; foreign = tt })
      (λ other room. record {
        few = ground (arith, room);
        foreign = (differs relay self admin other, tt);
      })
      (λ other room.
        let below : attempts + 1 ≤ 2 = ground (arith, room) in
        let m = try_relays-Modest net self admin (attempts + 1) relays below in
        record {
          few = (let n = m.few in omega arith);
          foreign = (differs relay self admin other, m.foreign);
        })
