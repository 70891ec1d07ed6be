-- ===== src/Topics/Joined.antt =====
-- What holds of the topics after `JoinSessionTopics` (internal/p2p/node.go).
use p2ptogether.Prelude.{
  ℕ, ◌+◌, ◌≡◌, refl, arith, Bool, true, false, Option, none, some, ◌==◌, nat_eq, list_eq, ◌&&◌, not,
  is_some, if◌then◌else◌, Bool-cases, subst, inl, inr, sym, list_beq_iff,
}
use p2ptogether.Names.{Text, text}
use p2ptogether.Topics.{
  Topic, Topics, Error, no_pubsub, default_session, topic_name, already_joined, is_of, leave_topics,
  reuse_slot, reusable, reuse_topics, open_slot, cache_slot, cache_topics, join_video, join_ctrl,
  join_chat, join_session_topics,
}
use p2ptogether.Topics.Slots.{IsSound, leave_slot-Left, opened, reused}

abbrev pub all_there : Topics → Bool
all_there t = is_some t.chat.topic && is_some t.ctrl.topic && is_some t.video.topic

-- The topics after three joins that succeed.
unfoldable pub all_joined : Text → Topics → Topics
unfolding cache_topics open_slot
all_joined id t = cache_topics (id == default_session) (record t {
  chat = open_slot t.joins (topic_name (text "chat") id) t.chat;
  ctrl = open_slot (t.joins + 1) (topic_name (text "control") id) t.ctrl;
  video = open_slot (t.joins + 1 + 1) (topic_name (text "video") id) t.video;
  joins = t.joins + 1 + 1 + 1;
})

all_there-all_joined : (id : Text) (t : Topics) → all_there (all_joined id t) ≡ true
unfolding all_joined cache_topics cache_slot open_slot
all_there-all_joined id t = elim (Bool-cases (id == default_session)) [
  | inl home ↦ rw home refl
  | inr away ↦ rw away refl
]

is_of-some : (kind id : Text) (o : Option Topic) → is_of kind id o ≡ true → is_some o ≡ true
unfolding is_of
is_of-some kind id none h = h
is_of-some kind id (some t) h = refl

already_joined-there :
    (id current : Text) (t : Topics)
    → already_joined id current t ≡ true
    → (current ≡ id) × (all_there t ≡ true)
unfolding already_joined
already_joined-there id current t h = ground (
  arith,
  list_beq_iff current id,
  is_of-some (text "chat") id t.chat.topic,
  is_of-some (text "control") id t.ctrl.topic,
  is_of-some (text "video") id t.video.topic,
)

reuse_topics-there :
    (id : Text) (t : Topics)
    → reusable id t ≡ true
    → (id ≡ default_session) × (all_there (reuse_topics t) ≡ true)
unfolding reusable reuse_topics reuse_slot
reuse_topics-there id t h = ground (arith, list_beq_iff id default_session)

reuse_topics-IsSound :
    (current : Text) (t : Topics)
    → IsSound current t
    → IsSound default_session (reuse_topics (leave_topics current t))
unfolding reuse_topics leave_topics
reuse_topics-IsSound current t s = record {
  chat = reused _ t.joins _ (leave_slot-Left _ current t.joins t.chat s.chat);
  ctrl = reused _ t.joins _ (leave_slot-Left _ current t.joins t.ctrl s.ctrl);
  video = reused _ t.joins _ (leave_slot-Left _ current t.joins t.video s.video);
}

-- The four ways of `JoinSessionTopics`.
pub decided {ℓ κ} :
    {A : Type ℓ} (P : A → Type κ) (on stays cached : Bool) (off same again new : A)
    → P off
    → (stays ≡ true → P same)
    → (cached ≡ true → P again)
    → P new
    → P (if not on then off else if stays then same else if cached then again else new)
decided P false stays cached off same again new o s r n = o
decided P true true cached off same again new o s r n = s refl
decided P true false true off same again new o s r n = r refl
decided P true false false off same again new o s r n = n

without_error :
    {A B : Type 0} (on stays cached : Bool) (off same again new : Option Error × A × B)
    → on ≡ true
    → same.0 ≡ none
    → again.0 ≡ none
    → new.0 ≡ none
    → (if not on then off else if stays then same else if cached then again else new).0 ≡ none
without_error on stays cached off same again new h a b c = ground arith

-- What a join that returned no error promises.
pub record Joined (id : Text) (result : Option Error × Text × Topics) : Type 0 where
  pub in_session : result.1 ≡ id
  pub sound : IsSound id result.2
  pub there : all_there result.2 ≡ true

module _ (join : ℕ → Text → Bool) where
  pub join_chat-ok :
      (id current : Text) (t : Topics)
      → (join_chat join id current t).0 ≡ none
      → join_chat join id current t ≡ (none, id, all_joined id t)
  unfolding join_chat join_ctrl join_video all_joined
  join_chat-ok id current t h = ground arith

  join_chat-all :
      (id current : Text) (t : Topics)
      → ((n : ℕ) (name : Text) → join n name ≡ true)
      → (join_chat join id current t).0 ≡ none
  unfolding join_chat join_ctrl join_video
  join_chat-all id current t all =
      rw (all t.joins _, all (t.joins + 1) _, all (t.joins + 1 + 1) _) refl

  -- With a pubsub instance whose joins succeed, no error is returned.
  pub join_session_topics-all :
      (id current : Text) (t : Topics)
      → t.pubsub ≡ true
      → ((n : ℕ) (name : Text) → join n name ≡ true)
      → (join_session_topics join id current t).0 ≡ none
  unfolding join_session_topics
  join_session_topics-all id current t on all =
      let left = leave_topics current t in
      without_error t.pubsub (already_joined id current t) (reusable id left)
        (some no_pubsub, current, t) (none, current, t) (none, id, reuse_topics left)
        (join_chat join id current left) on refl refl (join_chat-all id current left all)

  joined-IsSound :
      (id current : Text) (t : Topics)
      → IsSound current t
      → IsSound id (all_joined id (leave_topics current t))
        × (all_there (all_joined id (leave_topics current t)) ≡ true)
  unfolding all_joined cache_topics leave_topics
  joined-IsSound id current t s = (
    record {
      chat =
          opened (text "chat") id t.joins t.joins _ _ (omega arith) (omega arith)
            (leave_slot-Left _ current t.joins t.chat s.chat);
      ctrl =
          opened (text "control") id t.joins (t.joins + 1) _ _ (omega arith) (omega arith)
            (leave_slot-Left _ current t.joins t.ctrl s.ctrl);
      video =
          opened (text "video") id t.joins (t.joins + 1 + 1) _ _ (omega arith) (omega arith)
            (leave_slot-Left _ current t.joins t.video s.video);
    },
    all_there-all_joined id (leave_topics current t),
  )

  join_chat-Joined :
      (id current : Text) (t : Topics)
      → IsSound current t
      → (join_chat join id current (leave_topics current t)).0 ≡ none
      → Joined id (join_chat join id current (leave_topics current t))
  join_chat-Joined id current t s h =
      let (sound, there) = joined-IsSound id current t s in
      subst (Joined id) (sym (join_chat-ok id current (leave_topics current t) h))
        (record { in_session = refl; sound = sound; there = there })

  -- If `JoinSessionTopics` returns no error, the node is in the session, and its three topics are
  -- there, named for the session and not closed; the cached default topics stay open. The topics
  -- before the call must be sound: named for the current session and not closed.
  pub join_session_topics-Joined :
      (id current : Text) (t : Topics)
      → IsSound current t
      → (join_session_topics join id current t).0 ≡ none
      → Joined id (join_session_topics join id current t)
  unfolding join_session_topics
  join_session_topics-Joined id current t s =
      let left = leave_topics current t in
      decided (λ r. r.0 ≡ none → Joined id r) t.pubsub (already_joined id current t)
        (reusable id left) (some no_pubsub, current, t) (none, current, t)
        (none, id, reuse_topics left) (join_chat join id current left) (λ h. cc)
        (λ stays h.
          let (same, there) = already_joined-there id current t stays in
          record { in_session = same; sound = subst (λ k. IsSound k t) same s; there = there })
        (λ cached h.
          let (home, there) = reuse_topics-there id left cached in
          record {
            in_session = refl;
            sound =
                subst (λ k. IsSound k (reuse_topics left)) (sym home)
                  (reuse_topics-IsSound current t s);
            there = there;
          })
        (join_chat-Joined id current t s)

  join_chat-in_place : (id : Text) (t : Topics) → (join_chat join id id t).1 ≡ id
  unfolding join_chat join_ctrl join_video
  join_chat-in_place id t = ground arith

  -- A node that is in the session by name stays in it, even if a join fails.
  pub join_session_topics-in_place :
      (id : Text) (t : Topics) → (join_session_topics join id id t).1 ≡ id
  unfolding join_session_topics
  join_session_topics-in_place id t =
      let left = leave_topics id t in
      decided (λ r. r.1 ≡ id) t.pubsub (already_joined id id t) (reusable id left)
        (some no_pubsub, id, t) (none, id, t) (none, id, reuse_topics left)
        (join_chat join id id left) refl (λ h. refl) (λ h. refl) (join_chat-in_place id left)
