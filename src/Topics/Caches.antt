-- ===== src/Topics/Caches.antt =====
-- The cached default topics through a session (internal/p2p/node.go).
use p2ptogether.Prelude.{
  ◌≡◌, ◌≢◌, refl, Bool, true, false, ◌==◌, nat_eq, list_eq, is_some, Bool-cases, inl, inr,
  list_beq_iff, sym, if◌then◌else◌, not, ◌&&◌,
}
use p2ptogether.Names.{Text}
use p2ptogether.Topics.{
  Topics, default_session, already_joined, leave_slot, leave_topics, preserve, close_topic,
  clear_topic, reuse_slot, reusable, reuse_topics, open_slot, cache_slot, cache_topics,
}
use p2ptogether.Topics.Joined.{all_there, all_joined}

pub away : (id : Text) → id ≢ default_session → (id == default_session) ≡ false
away id h = elim (Bool-cases (id == default_session)) [
  | inl home ↦ absurd (h ((list_beq_iff id default_session).0 home))
  | inr other ↦ other
]

pub elsewhere : (id : Text) → id ≢ default_session → (default_session == id) ≡ false
elsewhere id h = elim (Bool-cases (default_session == id)) [
  | inl home ↦ absurd (h (sym ((list_beq_iff default_session id).0 home)))
  | inr other ↦ other
]

pub already_joined-elsewhere :
    (id current : Text) (t : Topics) → (current == id) ≡ false → already_joined id current t ≡ false
unfolding already_joined
already_joined-elsewhere id current t h = rw h refl

pub reusable-elsewhere :
    (id : Text) (t : Topics) → (id == default_session) ≡ false → reusable id t ≡ false
unfolding reusable
reusable-elsewhere id t h = rw h refl

pub way :
    {A : Type 0} (on stays cached : Bool) (off same again new : A)
    → on ≡ true
    → stays ≡ false
    → (if not on then off else if stays then same else if cached then again else new)
      ≡ (if cached then again else new)
way on stays cached off same again new h k = rw (h, k) refl

abbrev pub all_cached : Topics → Bool
all_cached t = is_some t.chat.cached && is_some t.ctrl.cached && is_some t.video.cached

pub reusable-leave_topics :
    (id : Text) (t : Topics)
    → (id == default_session) ≡ false
    → all_cached t ≡ true
    → reusable default_session (leave_topics id t) ≡ true
unfolding reusable leave_topics leave_slot close_topic clear_topic
reusable-leave_topics id t other there = rw other there

-- What a session leaves in the caches, and the default topics that come back from there.
pub all_cached-all_joined :
    (id : Text) (left : Topics)
    → (id == default_session) ≡ false
    → all_cached (all_joined id left) ≡ all_cached left
unfolding all_joined cache_topics cache_slot open_slot
all_cached-all_joined id left other = rw other refl

pub all_cached-preserved :
    (t : Topics) → all_there t ≡ true → all_cached (leave_topics default_session t) ≡ true
unfolding leave_topics leave_slot preserve
all_cached-preserved t h = h

pub cached-preserved :
    (t : Topics)
    → let left = leave_topics default_session t in
      (left.chat.cached ≡ t.chat.topic)
      × (left.ctrl.cached ≡ t.ctrl.topic)
      × (left.video.cached ≡ t.video.topic)
unfolding leave_topics leave_slot preserve
cached-preserved t = (refl, refl, refl)

pub record Back (left joined back : Topics) : Type 0 where
  pub no_join : back.joins ≡ joined.joins
  pub chat : back.chat.topic ≡ left.chat.cached
  pub ctrl : back.ctrl.topic ≡ left.ctrl.cached
  pub video : back.video.topic ≡ left.video.cached

pub all_joined-Back :
    (id : Text) (left : Topics)
    → (id == default_session) ≡ false
    → Back left (all_joined id left) (reuse_topics (leave_topics id (all_joined id left)))
unfolding reuse_topics reuse_slot leave_topics leave_slot close_topic clear_topic all_joined
    cache_topics cache_slot open_slot
all_joined-Back id left other =
    rw other (record { no_join = refl; chat = refl; ctrl = refl; video = refl })

pub still_on :
    (id current : Text) (t : Topics)
    → t.pubsub ≡ true
    → (all_joined id (leave_topics current t)).pubsub ≡ true
unfolding all_joined leave_topics cache_topics
still_on id current t on = on
