-- ===== src/StartUp/Fresh.antt =====
-- The service as `main` starts it (main.go).
use p2ptogether.Prelude.{
  ℕ, ◌≡◌, refl, arith, Bool, true, List, [], ◌∷◌, map, ◌==◌, nat_eq, list_eq, ok, ◌>>=◌,
  if◌then◌else◌, ap, ◌∙◌,
}
use p2ptogether.Prelude.Maps.{lookup}
use p2ptogether.Hlc.{Clock}
use p2ptogether.Names.{Text}
use p2ptogether.Permissions.{Role}
use p2ptogether.Peers.{PeerId, PeerCodec}
use p2ptogether.Roles.{
  RoleManager, new_role_manager, normalize_names, set_peer_roles, get_assigned_roles,
}
use p2ptogether.Roles.Updates.{parse_role_names}
use p2ptogether.Roles.History.{Reach, start, next, sets}
use p2ptogether.Roles.Access.{get_assigned_roles-set_peer_roles, set_peer_roles-ok}
use p2ptogether.Ring.{RingBuffer}
use p2ptogether.Queue.{new_queue}
use p2ptogether.Topics.{default_session, join_session_topics}
use p2ptogether.Topics.Joined.{
  all_there, Joined, join_session_topics-all, join_session_topics-Joined,
}
use p2ptogether.Topics.Slots.{IsSound}
use p2ptogether.Server.{Server, role_manager, sessions}
use p2ptogether.Membership.{join_topics}
use p2ptogether.StartUp.{
  new_topics, new_node, new_queue_controller, give_initial_roles, initial_roles, started, start_up,
}

module _ ⦃codec : PeerCodec⦄ where
  -- The roles that only one peer has.
  pub record OnlyOwn (id : PeerId) (names : List Text) (rm : RoleManager) : Type 0 where
    pub reached : Reach rm
    pub assigned :
        (peer : PeerId) → (get_assigned_roles rm peer).0 ≡ (if id == peer then names else [])

  pub record Fresh (id : PeerId) (names : List Text) (s : Server) : Type 0 where
    pub roles : OnlyOwn id names (role_manager s)
    pub named : s.node.id ≡ id
    pub no_session : sessions s ≡ []
    pub no_item : s.queue_ctrl.q ≡ new_queue
    pub nothing_sent : s.sent ≡ []
    pub home : s.node.current_session_id ≡ default_session
    pub there : all_there s.node.topics ≡ true

  none_assigned :
      (id peer : PeerId) {names : List Text}
      → normalize_names new_role_manager.definitions [] ≡ ok names
      → (get_assigned_roles new_role_manager peer).0 ≡ (if id == peer then names else [])
  unfolding normalize_names get_assigned_roles new_role_manager lookup
  none_assigned id peer h = ground arith

  give_initial_roles-OnlyOwn :
      (id : PeerId) (roles : List Role) (clock : Clock) {names : List Text}
      → normalize_names new_role_manager.definitions (map (λ r. r.name) roles) ≡ ok names
      → (set : RoleManager × Clock) × (give_initial_roles id roles new_role_manager clock ≡ ok set)
        × OnlyOwn id names set.0
  unfolding give_initial_roles get_assigned_roles lookup new_role_manager
  give_initial_roles-OnlyOwn id [] clock h = (
    (new_role_manager, clock),
    refl,
    record { reached = start; assigned = λ peer. none_assigned id peer h },
  )
  give_initial_roles-OnlyOwn id (role ∷ roles) clock {names} h =
      let given = map (λ r. r.name) (role ∷ roles) in
      let (message, accepted) = set_peer_roles-ok new_role_manager clock id given h in
      let (result, rm, later) = set_peer_roles new_role_manager clock id given in
      (
        (rm, later),
        ap (λ r. r >>= λ m. ok (rm, later)) accepted,
        record {
          reached = next start (sets new_role_manager clock id given);
          assigned =
              λ peer. get_assigned_roles-set_peer_roles new_role_manager clock id peer given h;
        },
      )

  new_topics-Joined :
      (join : ℕ → Text → Bool)
      → ((n : ℕ) (name : Text) → join n name ≡ true)
      → Joined default_session (join_session_topics join default_session [] new_topics)
  new_topics-Joined join all =
      join_session_topics-Joined join default_session [] new_topics sound
        (join_session_topics-all join default_session [] new_topics refl all)
    where
      sound : IsSound [] new_topics
      sound = ground arith

  -- With a flag whose roles are defined, and topics that can be joined, the service starts: only it
  -- has roles, those of the flag, by a history of the role manager; it is in the default session with
  -- its three topics, has no session and no queue item, and has sent nothing.
  pub start_up-Fresh :
      (join : ℕ → Text → Bool) (id : PeerId) (ring : RingBuffer) (flag : Text) (clock : Clock)
      (roles : List Role) (names : List Text)
      → ((n : ℕ) (name : Text) → join n name ≡ true)
      → parse_role_names new_role_manager flag ≡ ok roles
      → normalize_names new_role_manager.definitions (map (λ r. r.name) roles) ≡ ok names
      → (s : Server) × (start_up join id ring flag clock ≡ ok s) × Fresh id names s
  unfolding start_up started initial_roles join_topics new_node new_queue_controller
  start_up-Fresh join id ring flag clock roles names all parsed defined =
      let (set, given, own) = give_initial_roles-OnlyOwn id roles clock defined in
      let home = new_topics-Joined join all in
      (
        started join id ring set,
        ap
              (λ r. r >>= (λ roles. give_initial_roles id roles new_role_manager clock) >>= λ set.
                ok (started join id ring set))
              parsed
            ∙ ap (λ r. r >>= λ set. ok (started join id ring set)) given,
        record {
          roles = own;
          named = refl;
          no_session = refl;
          no_item = refl;
          nothing_sent = refl;
          home = home.in_session;
          there = home.there;
        },
      )
