-- ===== src/StartUp.antt =====
-- peer_service/main.go: the state in which `main` starts the service, and the three loops that keep
-- one subscription to the current control, chat and video topic. `new_node` is `NewNode` of
-- peer_service/internal/p2p/node.go, and the queue controller is `NewQueueController`.
--
-- Left out: flags, listeners, the libp2p host and the DHT, which are calls of libraries. A fatal log
-- is an error. `SetDependencies` only stores references, which are fields of `Server` here. A
-- subscription is known by the number of its `Subscribe`; whether the n-th one succeeds is outside.
pub mod Fresh
pub mod Subscriptions
use p2ptogether.Prelude.{
  ℕ, ◌+◌, Bool, true, false, not, ◌||◌, Option, none, some, List, [], ◌∷◌, map, ◌==◌, nat_eq,
  list_eq, if◌then◌else◌, is_some, Result, ok, ◌>>=◌,
}
use p2ptogether.Hlc.{Clock}
use p2ptogether.Names.{Text}
use p2ptogether.Permissions.{Role}
use p2ptogether.Peers.{PeerId, PeerCodec}
use p2ptogether.Roles.{RoleManager, Error, new_role_manager, set_peer_roles}
use p2ptogether.Roles.Updates.{parse_role_names}
use p2ptogether.Sessions.{SessionManager}
use p2ptogether.Queue.{new_queue}
use p2ptogether.Ring.{RingBuffer}
use p2ptogether.Topics.{Slot, Topics, default_session}
use p2ptogether.Server.{Node, QueueController, Server}
use p2ptogether.Membership.{join_topics}

abbrev no_slot : Slot
no_slot = record { topic = none; cached = none; closed = []; held = [] }

-- The pubsub instance is there: without it `main` has ended before.
abbrev pub new_topics : Topics
new_topics = record { pubsub = true; chat = no_slot; ctrl = no_slot; video = no_slot; joins = 0 }

unfoldable pub new_node : PeerId → RingBuffer → Node
new_node id ring = record {
  id = id;
  current_session_id = [];
  topics = new_topics;
  ring_buffer = ring;
  encoder_live = false;
  runner = none;
  runner_ctx = 0;
  has_cancel = false;
  cancelled = false;
  bytes_up = 0;
  bytes_down = 0;
}

unfoldable pub new_queue_controller : QueueController
unfolding new_queue
new_queue_controller = record {
  q = new_queue;
  current_media_sequence = 0;
  last_known_playback_state = record { stream_sequence_id = 0; is_playing = false; hlc_ts = 0 };
  stream_completion_states = [];
}

abbrev pub new_session_manager : RoleManager → Clock → SessionManager
new_session_manager rm clock = record { sessions = []; role_manager = rm; clock = clock }

module _ ⦃codec : PeerCodec⦄ where
  -- The roles of the flag, set for the node itself; the message is dropped.
  give_initial_roles : PeerId → List Role → RoleManager → Clock → Result Error (RoleManager × Clock)
  give_initial_roles id [] rm clock = ok (rm, clock)
  give_initial_roles id (role ∷ roles) rm clock =
      let (result, rm', clock') = set_peer_roles rm clock id (map (λ r. r.name) (role ∷ roles)) in
      result >>= λ message. ok (rm', clock')

  unfoldable pub initial_roles : PeerId → Text → Clock → Result Error (RoleManager × Clock)
  unfolding give_initial_roles
  initial_roles id flag clock = parse_role_names new_role_manager flag >>= λ roles.
      give_initial_roles id roles new_role_manager clock

  module _ (join : ℕ → Text → Bool) where
    started : PeerId → RingBuffer → RoleManager × Clock → Server
    unfolding join_topics new_node new_queue_controller
    started id ring (rm, clock) =
        (join_topics join default_session (record {
          node = new_node id ring;
          queue_ctrl = new_queue_controller;
          session_manager = new_session_manager rm clock;
          sent = [];
        })).1

    -- The service before the first client and the first message.
    unfoldable pub start_up : PeerId → RingBuffer → Text → Clock → Result Error Server
    unfolding started initial_roles
    start_up id ring flag clock = initial_roles id flag clock >>= λ set. ok (started id ring set)

-- A loop's variables, with the number of its `Subscribe` calls, the subscriptions that these gave and
-- those that were cancelled, newest first.
pub record Loop : Type 0 where
  pub sub : Option ℕ
  pub current_topic_name : Text
  pub calls : ℕ
  pub opened : List ℕ
  pub cancelled : List ℕ

unfoldable pub new_loop : Loop
new_loop = record { sub = none; current_topic_name = []; calls = 0; opened = []; cancelled = [] }

-- `if sub != nil { sub.Cancel() }`
unfoldable pub cancel_sub : Loop → Loop
cancel_sub l = elim l.sub [ none ↦ l | some n ↦ record l { cancelled = n ∷ l.cancelled } ]

-- A new subscription, if it succeeds; else none is kept, and the name stays.
unfoldable pub resubscribe : Bool → Text → Loop → Loop
unfolding cancel_sub
resubscribe subscribed name l =
    let l' = cancel_sub l in
    if subscribed
    then record l' {
      sub = some l.calls;
      current_topic_name = name;
      calls = l.calls + 1;
      opened = l.calls ∷ l.opened;
    }
    else record l' { sub = none; calls = l.calls + 1 }

outdated : Text → Loop → Bool
outdated name l = not (is_some l.sub) || not (name == l.current_topic_name)

-- One round of the loop of the control topic.
unfoldable pub poll_control : Bool → Option Text → Loop → Loop
unfolding resubscribe outdated
poll_control subscribed none l = l
poll_control subscribed (some name) l = if outdated name l then resubscribe subscribed name l else l

-- The loops of the chat and the video topic, which also give up a subscription without a topic.
unfoldable pub poll : Bool → Option Text → Loop → Loop
unfolding resubscribe outdated cancel_sub
poll subscribed none l =
    if is_some l.sub then record (cancel_sub l) { sub = none; current_topic_name = [] } else l
poll subscribed (some name) l = if outdated name l then resubscribe subscribed name l else l
