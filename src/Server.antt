-- ===== src/Server.antt =====
-- The state of one peer service: main.go's `server` with the `Node` and the `QueueController` it
-- holds, and what the service has sent, in order.
--
-- The references between server, node and controller are never nil after `SetDependencies`, so they
-- are fields of one state. A publish stands for the call of `publishToControlTopic`, whose error
-- the callers drop.
use p2ptogether.Prelude.{ℕ, ltb, if◌then◌else◌, Bool, Option, List, [], ◌∷◌, ◌++◌, Result}
use p2ptogether.Prelude.Maps.{Map}
use p2ptogether.Hlc.{Clock, get_current_hlc, update_hlc}
use p2ptogether.Names.{Text}
use p2ptogether.Permissions.{Permission, has}
use p2ptogether.Peers.{PeerId, PeerCodec}
use p2ptogether.Roles.{RoleManager, PeerRoleAssignment, get_permissions_for_peer, set_peer_roles}
use p2ptogether.Roles
use p2ptogether.Sessions.{Sessions, SessionManager}
use p2ptogether.Queue.{Queue}
use p2ptogether.Topics.{Topics}
use p2ptogether.Ring.{RingBuffer}
use p2ptogether.Messages.{ServerMsg, Effect, broadcast, publish_control, peer_role_assignment}

pub record PlaybackCompletionState : Type 0 where
  pub encoder_finished : Bool
  pub player_completed_by_peer : Map PeerId Bool
  pub hlc_ts_encoder_finished : ℕ

pub record PlaybackStateInfo : Type 0 where
  pub stream_sequence_id : ℕ
  pub is_playing : Bool
  pub hlc_ts : ℕ

pub record QueueController : Type 0 where
  pub q : Queue
  pub current_media_sequence : ℕ
  pub last_known_playback_state : PlaybackStateInfo
  pub stream_completion_states : Map ℕ PlaybackCompletionState

-- `runner` is the live state of the `EncoderRunner`: its file and base, if it runs. A context is
-- known by its number; `cancelled` is that of the newest one, and `has_cancel` whether there is one.
pub record Node : Type 0 where
  pub id : PeerId
  pub current_session_id : Text
  pub topics : Topics
  pub ring_buffer : RingBuffer
  pub encoder_live : Bool
  pub runner : Option (Text × ℕ)
  pub runner_ctx : ℕ
  pub has_cancel : Bool
  pub cancelled : Bool
  pub bytes_up : ℕ
  pub bytes_down : ℕ

pub record Server : Type 0 where
  pub node : Node
  pub queue_ctrl : QueueController
  pub session_manager : SessionManager
  pub sent : List Effect

abbrev pub role_manager : Server → RoleManager
role_manager s = s.session_manager.role_manager

abbrev pub sessions : Server → Sessions
sessions s = s.session_manager.sessions

-- `perms.Has(required)` of the sender.
abbrev pub allowed : Server → PeerId → Permission → Bool
allowed s peer required = has (get_permissions_for_peer (role_manager s) peer) required

abbrev pub with_role_manager : RoleManager → Server → Server
with_role_manager rm s = record s {
  session_manager = record s.session_manager { role_manager = rm };
}

abbrev pub with_clock : Clock → Server → Server
with_clock c s = record s { session_manager = record s.session_manager { clock = c } }

abbrev pub with_sessions : Sessions → Server → Server
with_sessions sessions s = record s {
  session_manager = record s.session_manager { sessions = sessions };
}

-- `common.GetCurrentHLC()`
abbrev pub now : Server → ℕ × Server
now s = let (ts, c) = get_current_hlc s.session_manager.clock in (ts, with_clock c s)

-- `if msg.HlcTs > 0 { common.UpdateHLC(msg.HlcTs) }`
abbrev pub observe : ℕ → Server → Server
observe ts s = if ltb 0 ts then with_clock (update_hlc ts s.session_manager.clock).1 s else s

abbrev pub send : Effect → Server → Server
send effect s = record s { sent = s.sent ++ effect ∷ [] }

-- `hub.Broadcast` and then `publishToControlTopic`.
abbrev pub announce : ServerMsg → Server → Server
announce msg s = send (publish_control msg) (send (broadcast msg) s)

module _ ⦃codec : PeerCodec⦄ where
  -- `roleManager.SetPeerRoles`
  abbrev pub assign_roles :
      PeerId
      → List Text
      → Server
      → Result p2ptogether.Roles.Error (Option PeerRoleAssignment) × Server
  assign_roles peer names s =
      let (result, rm, c) = set_peer_roles (role_manager s) s.session_manager.clock peer names in
      (result, with_clock c (with_role_manager rm s))

  -- The message of an assignment that changed, with a stamp of its own.
  abbrev pub announce_assignment : PeerRoleAssignment → Server → Server
  announce_assignment a s =
      let (ts, s') = now s in announce (peer_role_assignment (record a { hlc_ts = ts })) s'
