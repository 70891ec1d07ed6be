-- ===== src/Messages.antt =====
-- The messages of proto/*.proto that the peer service sends, as the Go code fills them.
use p2ptogether.Prelude.{ℕ, Bool, Option, List}
use p2ptogether.Names.{Text}
use p2ptogether.Roles.{PeerRoleAssignment, RoleDefinition}

-- A `p2ppb.QueueItem`: peer IDs as text.
pub record WireItem : Type 0 where
  pub file_path : Text
  pub stored_by : Text
  pub added_by : Text
  pub first_seq : ℕ
  pub num_segs : ℕ
  pub hlc_ts : ℕ

-- `PeerKicked` and `PeerBanned` have the same fields.
pub record Expulsion : Type 0 where
  pub peer_id : Text
  pub issued_by : Text
  pub reason : Text
  pub hlc_ts : ℕ

pub record PeerLeft : Type 0 where
  pub peer_id : Text
  pub reason : Text
  pub hlc_ts : ℕ

pub record ChatDelete : Type 0 where
  pub message_id : Text
  pub deleted_by : Text
  pub hlc_ts : ℕ

pub record ChatMsg : Type 0 where
  pub message_id : Text
  pub sender : Text
  pub text : Text
  pub hlc_ts : ℕ

pub record SetPlaybackStateCmd : Type 0 where
  pub target_time_pos : ℕ
  pub target_is_playing : Bool
  pub target_speed : ℕ
  pub stream_sequence_id : ℕ
  pub hlc_ts : ℕ

-- `StartPts` and `OriginSec` are whole numbers of seconds in every message that is made.
pub record PlaylistReset : Type 0 where
  pub sequence : ℕ
  pub start_pts : ℕ
  pub origin_sec : ℕ
  pub hlc_ts : ℕ

-- The error text, or the session and its invite code.
pub data CreateSessionResponse : Type 0 where
  not_created : Text → CreateSessionResponse
  created : Text → Text → CreateSessionResponse

-- The answer to an `AuthRequest`: the error text, or the session, its name, and a snapshot of the
-- assignments, the queue and the members.
pub data JoinSessionResponse : Type 0 where
  refused : Text → JoinSessionResponse
  accepted :
      Text
      → Text
      → List PeerRoleAssignment
      → List WireItem
      → List (Text × Text)
      → JoinSessionResponse

pub data ServerMsg : Type 0 where
  queue_update : List WireItem → ℕ → ServerMsg
  role_definitions_update : List (Option RoleDefinition) → ℕ → ServerMsg
  peer_role_assignment : PeerRoleAssignment → ServerMsg
  all_peer_role_assignments : List (Option PeerRoleAssignment) → ℕ → ServerMsg
  playlist_reset : PlaylistReset → ServerMsg
  playback_state : SetPlaybackStateCmd → ServerMsg
  local_peer_identity : Text → Text → ServerMsg
  peer_left : PeerLeft → ServerMsg
  peer_kicked : Expulsion → ServerMsg
  peer_banned : Expulsion → ServerMsg
  chat_delete_msg : ChatDelete → ServerMsg
  chat_msg : ChatMsg → ServerMsg
  create_session_response : CreateSessionResponse → ServerMsg
  join_session_response : JoinSessionResponse → ServerMsg

-- What leaves the service: a message to the local clients, one to the control or the chat topic, an
-- answer on an auth stream, a message on the stream of the client that sent a command, a segment to the video topic, a discontinuity mark in the HLS playlist, the start of an encoder.
pub data Effect : Type 0 where
  broadcast : ServerMsg → Effect
  publish_control : ServerMsg → Effect
  publish_chat : ServerMsg → Effect
  answer : JoinSessionResponse → Effect
  reply : ServerMsg → Effect
  publish_video : ℕ → List ℕ → ℕ → Effect
  discontinuity : Effect
  start_encoder : ℕ → Text → ℕ → Effect
