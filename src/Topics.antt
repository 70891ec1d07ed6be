-- ===== src/Topics.antt =====
-- peer_service/internal/p2p/node.go: the pubsub topics of a session.
--
-- A topic handle is known by the number of the `Join` that made it. For each of chat, control and
-- video a slot holds the node's topic, the cached topic of the default session, and the numbers of
-- the handles that were closed. `held` has the handles with a subscription that is not cancelled:
-- pubsub's `Close` returns an error for them, which is ignored, and leaves them open. Whether the n-th `Join`, of a name, succeeds is the parameter `join`.
pub mod Slots
pub mod Joined
pub mod Caches
pub mod Defaults
use p2ptogether.Prelude.{
  ℕ, ◌+◌, Bool, false, not, ◌&&◌, Option, none, some, List, ◌∷◌, ◌++◌, ◌==◌, nat_eq, list_eq,
  if◌then◌else◌, is_some, contains,
}
use p2ptogether.Names.{Text, text}
use p2ptogether.Names.Decimal.{cut_suffix}

pub record Topic : Type 0 where
  pub number : ℕ
  pub name : Text

pub record Slot : Type 0 where
  pub topic : Option Topic
  pub cached : Option Topic
  pub closed : List ℕ
  pub held : List ℕ

pub record Topics : Type 0 where
  pub pubsub : Bool
  pub chat : Slot
  pub ctrl : Slot
  pub video : Slot
  pub joins : ℕ

pub data Error : Type 0 where
  no_pubsub chat_failed ctrl_failed video_failed : Error

abbrev pub default_session : Text
default_session = text "default"

abbrev pub topic_name : Text → Text → Text
topic_name kind id = text "/p2ptogether/" ++ kind ++ text "/" ++ id

-- The topic is there and its name ends in the kind and the session.
is_of : Text → Text → Option Topic → Bool
is_of kind id none = false
is_of kind id (some t) = is_some (cut_suffix (text "/" ++ kind ++ text "/" ++ id) t.name)

-- All three topics are those of the session already.
unfoldable pub already_joined : Text → Text → Topics → Bool
unfolding is_of
already_joined id current t =
    (current == id)
    && is_of (text "chat") id t.chat.topic
    && is_of (text "control") id t.ctrl.topic
    && is_of (text "video") id t.video.topic

preserve : Slot → Slot
preserve slot = record slot { cached = slot.topic; topic = none }

-- `Close` of a topic that is kept.
close_number : List ℕ → Option Topic → List ℕ → List ℕ
close_number held none closed = closed
close_number held (some t) closed = if contains t.number held then closed else t.number ∷ closed

close_topic : Slot → Slot
unfolding close_number
close_topic slot = record slot { closed = close_number slot.held slot.topic slot.closed }

clear_topic : Slot → Slot
clear_topic slot = record slot { topic = none }

-- The default topics are kept for later, those of a session are closed.
pub leave_slot : Bool → Slot → Slot
unfolding preserve close_topic clear_topic
leave_slot is_default slot = if is_default then preserve slot else clear_topic (close_topic slot)

unfoldable pub leave_topics : Text → Topics → Topics
unfolding leave_slot
leave_topics current t =
    let is_default = current == default_session in
    record t {
      chat = leave_slot is_default t.chat;
      ctrl = leave_slot is_default t.ctrl;
      video = leave_slot is_default t.video;
    }

pub reuse_slot : Slot → Slot
reuse_slot slot = record slot { topic = slot.cached }

unfoldable pub reusable : Text → Topics → Bool
reusable id t =
    (id == default_session)
    && is_some t.chat.cached
    && is_some t.ctrl.cached
    && is_some t.video.cached

unfoldable pub reuse_topics : Topics → Topics
unfolding reuse_slot
reuse_topics t = record t {
  chat = reuse_slot t.chat;
  ctrl = reuse_slot t.ctrl;
  video = reuse_slot t.video;
}

pub open_slot : ℕ → Text → Slot → Slot
open_slot number name slot = record slot { topic = some (record { number = number; name = name }) }

pub cache_slot : Bool → Slot → Slot
cache_slot is_default slot = if is_default then record slot { cached = slot.topic } else slot

cache_topics : Bool → Topics → Topics
unfolding cache_slot
cache_topics is_default t = record t {
  chat = cache_slot is_default t.chat;
  ctrl = cache_slot is_default t.ctrl;
  video = cache_slot is_default t.video;
}

module _ (join : ℕ → Text → Bool) where
  join_video : Text → Text → Topics → Option Error × Text × Topics
  unfolding open_slot clear_topic close_topic cache_topics
  join_video id current t =
      let name = topic_name (text "video") id in
      let called = record t { joins = t.joins + 1 } in
      if join t.joins name
      then (
        none,
        id,
        cache_topics (id == default_session)
            (record called { video = open_slot t.joins name t.video }),
      )
      else (
        some video_failed,
        current,
        record called {
          video = clear_topic t.video;
          chat = close_topic t.chat;
          ctrl = close_topic t.ctrl;
        },
      )

  join_ctrl : Text → Text → Topics → Option Error × Text × Topics
  unfolding join_video
  join_ctrl id current t =
      let name = topic_name (text "control") id in
      let called = record t { joins = t.joins + 1 } in
      if join t.joins name
      then join_video id current (record called { ctrl = open_slot t.joins name t.ctrl })
      else (
        some ctrl_failed,
        current,
        record called { ctrl = clear_topic t.ctrl; chat = close_topic t.chat },
      )

  pub join_chat : Text → Text → Topics → Option Error × Text × Topics
  unfolding join_ctrl
  join_chat id current t =
      let name = topic_name (text "chat") id in
      let called = record t { joins = t.joins + 1 } in
      if join t.joins name
      then join_ctrl id current (record called { chat = open_slot t.joins name t.chat })
      else (some chat_failed, current, record called { chat = clear_topic t.chat })

  -- The error, the current session and the topics afterwards.
  unfoldable pub join_session_topics : Text → Text → Topics → Option Error × Text × Topics
  unfolding join_chat
  join_session_topics id current t =
      let left = leave_topics current t in
      if not t.pubsub
      then (some no_pubsub, current, t)
      else if already_joined id current t
      then (none, current, t)
      else if reusable id left
      then (none, id, reuse_topics left)
      else join_chat id current left
