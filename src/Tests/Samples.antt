-- ===== src/Tests/Samples.antt =====
-- Two peers in one session: peer 1 is its admin and runs the service, peer 2 views.
use p2ptogether.Prelude.{ℕ, ◌+◌, refl, true, false, Option, none, some, List, [], ◌∷◌}
use p2ptogether.Prelude.Int.{pos}
use p2ptogether.Hlc.{Clock}
use p2ptogether.Names.{Text, text}
use p2ptogether.Peers.{PeerId, PeerCodec}
use p2ptogether.Roles.{RoleManager, PeerAssignmentState, admin_role, viewer_role}
use p2ptogether.Sessions.{Session, UserInfo, Sessions}
use p2ptogether.Queue.{QueueItem}
use p2ptogether.Ring.{Segment, RingBuffer, no_segment}
use p2ptogether.Topics.{Topic, Slot, Topics, topic_name, default_session}
use p2ptogether.Server.{Server, PlaybackCompletionState}

abbrev pub decode_one : Text → Option PeerId
decode_one [] = none
decode_one (p ∷ []) = some p
decode_one (p ∷ q ∷ s) = none

instance abbrev pub one_letter : PeerCodec
one_letter = record { encode = λ p. p ∷ []; decode = decode_one; decode-encode = λ p. refl }

abbrev pub clock : Clock
clock = record { wall = λ n. 1000 + n; reads = 0; time = 0; logical = 0 }

abbrev pub assigned : Text → ℕ → PeerAssignmentState
assigned role ts = record { role_names = role ∷ []; hlc_ts = ts }

abbrev pub manager : RoleManager
manager = record {
  definitions = (text "admin", admin_role) ∷ (text "viewer", viewer_role) ∷ [];
  assignments = (1, assigned (text "admin") 5) ∷ (2, assigned (text "viewer") 6) ∷ [];
}

abbrev pub user : PeerId → Text → UserInfo
user peer role = record { username = text "user"; roles = role ∷ []; peer_id = peer }

abbrev pub session : Session
session = record {
  id = text "s1";
  admin_peer_id = 1;
  name = text "film";
  is_private = false;
  invite_code = text "s1";
  members = (1, user 1 (text "Admin")) ∷ (2, user 2 (text "Viewer")) ∷ [];
  banned = [];
}

abbrev pub one_session : Sessions
one_session = (text "s1", session) ∷ []

abbrev pub item : Text → PeerId → QueueItem
item file peer = record {
  file_path = file;
  stored_by = peer;
  added_by = peer;
  first_seq = 0;
  num_segs = 4;
  hlc_ts = 1;
}

abbrev pub two_items : List QueueItem
two_items = item (text "a.mkv") 1 ∷ item (text "b.mkv") 2 ∷ []

abbrev pub segment : ℕ → Segment
segment seq = record { seq = seq; payload = 7 ∷ 8 ∷ []; pts = 0; time = 3; actual_duration = 2 }

abbrev pub ring : RingBuffer
ring = record {
  capacity = 2;
  base_seq = 0;
  next_seq = 0;
  buf = no_segment ∷ no_segment ∷ [];
  head = 0;
  events = [];
  publish_events = true;
}

abbrev pub reports : PlaybackCompletionState
reports = record {
  encoder_finished = true;
  player_completed_by_peer = [];
  hlc_ts_encoder_finished = 4;
}

abbrev pub named : Text → ℕ → Topic
named kind number = record { number = number; name = topic_name kind (text "s1") }

abbrev pub default_named : Text → ℕ → Topic
default_named kind number = record { number = number; name = topic_name kind default_session }

abbrev pub session_slot : Text → ℕ → Slot
session_slot kind number = record {
  topic = some (named kind (number + 3));
  cached = some (default_named kind number);
  closed = [];
  held = [];
}

abbrev pub session_topics : Topics
session_topics = record {
  pubsub = true;
  chat = session_slot (text "chat") 0;
  ctrl = session_slot (text "control") 1;
  video = session_slot (text "video") 2;
  joins = 6;
}

abbrev pub default_slot : Text → ℕ → Slot
default_slot kind number = record {
  topic = some (default_named kind number);
  cached = some (default_named kind number);
  closed = [];
  held = [];
}

-- After the start.
abbrev pub default_topics : Topics
default_topics = record {
  pubsub = true;
  chat = default_slot (text "chat") 0;
  ctrl = default_slot (text "control") 1;
  video = default_slot (text "video") 2;
  joins = 3;
}

abbrev pub server : Server
server = record {
  node = record {
    id = 1;
    current_session_id = text "s1";
    topics = session_topics;
    ring_buffer = ring;
    encoder_live = false;
    runner = none;
    runner_ctx = 0;
    has_cancel = false;
    cancelled = false;
    bytes_up = 0;
    bytes_down = 0;
  };
  queue_ctrl = record {
    q = record { items = two_items; cursor = pos 0 };
    current_media_sequence = 9;
    last_known_playback_state = record { stream_sequence_id = 0; is_playing = false; hlc_ts = 0 };
    stream_completion_states = (0, reports) ∷ [];
  };
  session_manager = record { sessions = one_session; role_manager = manager; clock = clock };
  sent = [];
}

-- No ffprobe answers.
abbrev pub no_duration : Text → Option ℕ
no_duration file = none
