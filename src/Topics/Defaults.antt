-- ===== src/Topics/Defaults.antt =====
-- Leaving a session for the default one, after creating it (internal/p2p/node.go).
use p2ptogether.Prelude.{
  ℕ, ◌≡◌, ◌≢◌, refl, Bool, true, false, none, some, ◌==◌, nat_eq, list_eq, subst, ◌∙◌,
}
use p2ptogether.Names.{Text}
use p2ptogether.Topics.{
  Topics, no_pubsub, default_session, already_joined, leave_topics, reusable, reuse_topics,
  join_chat, join_session_topics,
}
use p2ptogether.Topics.Joined.{all_there, all_joined, join_chat-ok}
use p2ptogether.Topics.Caches.{
  away, elsewhere, already_joined-elsewhere, reusable-elsewhere, way, reusable-leave_topics,
  all_cached, all_cached-all_joined, all_cached-preserved, cached-preserved, all_joined-Back,
  still_on,
}

module _ (join : ℕ → Text → Bool) where
  join_new :
      (id current : Text) (t : Topics)
      → t.pubsub ≡ true
      → already_joined id current t ≡ false
      → (id == default_session) ≡ false
      → join_session_topics join id current t ≡ join_chat join id current (leave_topics current t)
  unfolding join_session_topics
  join_new id current t on moves other =
      let left = leave_topics current t in
      way t.pubsub (already_joined id current t) (reusable id left) (some no_pubsub, current, t)
        (none, current, t) (none, id, reuse_topics left) (join_chat join id current left) on moves
      ∙ rw (reusable-elsewhere id left other) refl

  return_home :
      (id : Text) (t : Topics)
      → t.pubsub ≡ true
      → (id == default_session) ≡ false
      → all_cached t ≡ true
      → join_session_topics join default_session id t
        ≡ (none, default_session, reuse_topics (leave_topics id t))
  unfolding join_session_topics
  return_home id t on other there =
      let left = leave_topics id t in
      way t.pubsub (already_joined default_session id t) (reusable default_session left)
        (some no_pubsub, id, t) (none, id, t) (none, default_session, reuse_topics left)
        (join_chat join default_session id left) on
        (already_joined-elsewhere default_session id t other)
      ∙ rw (reusable-leave_topics id t other there) refl

  -- A node that creates a session joins its topics from the default session; if that returns no
  -- error, then leaving it returns none either, makes no new handle, and the node has the same three
  -- default topics as before. All three must be there, and the session is not the default one.
  pub create_and_leave :
      (id : Text) (t : Topics)
      → t.pubsub ≡ true
      → id ≢ default_session
      → all_there t ≡ true
      → (join_session_topics join id default_session t).0 ≡ none
      → let (e, current, joined) = join_session_topics join id default_session t in
        let (e', current', back) = join_session_topics join default_session current joined in
        (e' ≡ none)
        × (current' ≡ default_session)
        × (back.joins ≡ joined.joins)
        × (back.chat.topic ≡ t.chat.topic)
        × (back.ctrl.topic ≡ t.ctrl.topic)
        × (back.video.topic ≡ t.video.topic)
  create_and_leave id t on h there success =
      let other = away id h in
      let left = leave_topics default_session t in
      let moves = already_joined-elsewhere id default_session t (elsewhere id h) in
      let new = join_new id default_session t on moves other in
      let joined =
        new ∙ join_chat-ok join id default_session left (subst (λ r. r.0 ≡ none) new success) in
      let (chat, ctrl, video) = cached-preserved t in
      let cached = all_cached-all_joined id left other ∙ all_cached-preserved t there in
      let home = return_home id (all_joined id left) (still_on id _ t on) other cached in
      let back = all_joined-Back id left other in
      rw (joined, home)
        (refl, refl, back.no_join, back.chat ∙ chat, back.ctrl ∙ ctrl, back.video ∙ video)
