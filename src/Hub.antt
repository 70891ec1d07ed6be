-- ===== src/Hub.antt =====
-- peer_service/internal/p2p/hub.go, and its use by `ControlStream` of peer_service/main.go.
--
-- A stream is known by its number. Whether a Send fails comes from outside with each broadcast. The
-- goroutines that `Broadcast` launches for failed streams are kept as a list of the IDs that they
-- will remove; the scheduler picks any of them at any later time.
pub mod Slot
use p2ptogether.Prelude.{
  ℕ, Bool, none, some, List, [], ◌∷◌, ◌++◌, nat_eq, list_eq, if◌then◌else◌, get_elem?, erase_at,
}
use p2ptogether.Prelude.Maps.{Map, insert, delete}
use p2ptogether.Names.{Text}

pub record Subscriber : Type 0 where
  pub peer_id : Text
  pub stream : ℕ

pub record Hub : Type 0 where
  pub subs : Map Text Subscriber

unfoldable pub new_hub : Hub
new_hub = record { subs = [] }

unfoldable pub add : Text → ℕ → Hub → Hub
add id stream hub = record hub {
  subs = insert id (record { peer_id = id; stream = stream }) hub.subs;
}

unfoldable pub remove : Text → Hub → Hub
remove id hub = record hub { subs = delete id hub.subs }

-- The loop of `Broadcast`: the streams that got the message, and the IDs whose Send failed.
unfoldable pub send_all : (ℕ → Bool) → Map Text Subscriber → List ℕ × List Text
send_all fails [] = ([], [])
send_all fails ((id, sub) ∷ subs) =
    let (sent, failed) = send_all fails subs in
    if fails sub.stream then (sent, id ∷ failed) else (sub.stream ∷ sent, failed)

unfoldable pub broadcast : (ℕ → Bool) → Hub → List ℕ × List Text
broadcast fails hub = send_all fails hub.subs

-- The hub with the removals that are still to run.
pub record Service : Type 0 where
  pub hub : Hub
  pub removals : List Text

-- A call of `ControlStream`, its return, a broadcast, and the run of a launched removal.
pub data Event : Type 0 where
  opens : ℕ → Event
  closes : Event
  broadcasts : (ℕ → Bool) → Event
  removes : ℕ → Event

-- One event at the node with the given ID.
unfoldable pub step : Text → Event → Service → Service
step node_id (opens stream) s = record s { hub = add node_id stream s.hub }
step node_id closes s = record s { hub = remove node_id s.hub }
step node_id (broadcasts fails) s =
    let (sent, failed) = broadcast fails s.hub in record s { removals = s.removals ++ failed }
step node_id (removes i) s = elim (get_elem? s.removals i) [
  | none ↦ s
  | some id ↦ record { hub = remove id s.hub; removals = erase_at s.removals i }
]

unfoldable pub steps : Text → List Event → Service → Service
steps node_id [] s = s
steps node_id (e ∷ es) s = steps node_id es (step node_id e s)
