-- ===== src/Topics/Slots.antt =====
-- One kind of topic when a session is left and another is joined (internal/p2p/node.go).
use p2ptogether.Prelude.{
  ℕ, ◌<◌, ◌≤◌, ◌≡◌, ◌≢◌, refl, arith, false, Option, none, some, List, [], ◌∷◌, All, ◌==◌, nat_eq,
  list_eq, contains, Bool-cases, subst, inl, inr, list_beq_iff,
}
use p2ptogether.Names.{Text, text}
use p2ptogether.Topics.{
  Topic, Slot, Topics, default_session, topic_name, preserve, close_number, close_topic,
  clear_topic, leave_slot, reuse_slot, open_slot, cache_slot,
}

abbrev pub On : (Topic → Type 0) → Option Topic → Type 0
On P none = Unit
On P (some t) = P t

-- A handle that was made for the name, and is not closed.
pub record Open (name : Text) (joins : ℕ) (closed : List ℕ) (t : Topic) : Type 0 where
  pub named : t.name ≡ name
  pub made : t.number < joins
  pub not_closed : contains t.number closed ≡ false

abbrev pub Apart : Option Topic → Option Topic → Type 0
Apart none cached = Unit
Apart (some t) none = Unit
Apart (some t) (some c) = c.number ≢ t.number

pub record SlotSound (kind current : Text) (joins : ℕ) (slot : Slot) : Type 0 where
  pub topic : On (Open (topic_name kind current) joins slot.closed) slot.topic
  pub cached : On (Open (topic_name kind default_session) joins slot.closed) slot.cached
  pub closed : All (λ n. n < joins) slot.closed
  pub apart : current ≢ default_session → Apart slot.topic slot.cached

pub record IsSound (current : Text) (t : Topics) : Type 0 where
  pub chat : SlotSound (text "chat") current t.joins t.chat
  pub ctrl : SlotSound (text "control") current t.joins t.ctrl
  pub video : SlotSound (text "video") current t.joins t.video

-- A slot without a topic, between two sessions.
pub record Left (kind : Text) (joins : ℕ) (slot : Slot) : Type 0 where
  pub gone : slot.topic ≡ none
  pub kept : On (Open (topic_name kind default_session) joins slot.closed) slot.cached
  pub old : All (λ n. n < joins) slot.closed

Open-mono :
    {name : Text} {m n : ℕ} {closed : List ℕ} (t : Topic)
    → m ≤ n
    → Open name m closed t
    → Open name n closed t
Open-mono t h o = record {
  named = o.named;
  made = omega (arith, o.made);
  not_closed = o.not_closed;
}

On-mono :
    (name : Text) {m n : ℕ} (closed : List ℕ) (o : Option Topic)
    → m ≤ n
    → On (Open name m closed) o
    → On (Open name n closed) o
On-mono name closed none h o = tt
On-mono name closed (some t) h o = Open-mono t h o

All-lt_mono : {m n : ℕ} (ns : List ℕ) → m ≤ n → All (λ k. k < m) ns → All (λ k. k < n) ns
All-lt_mono [] h a = tt
All-lt_mono (k ∷ ns) h a = (omega (arith, a.0), All-lt_mono ns h a.1)

-- The cached handle stays open when another one is closed.
close_other :
    (name : Text) (joins : ℕ) (held : List ℕ) (topic cached : Option Topic) (closed : List ℕ)
    → Apart topic cached
    → On (Open name joins closed) cached
    → On (Open name joins (close_number held topic closed)) cached
unfolding close_number
close_other name joins held none cached closed a o = o
close_other name joins held (some t) none closed a o = tt
close_other name joins held (some t) (some c) closed a o = record {
  named = o.named;
  made = o.made;
  not_closed = (let open_still = o.not_closed in ground (arith, nat_eq.same_iff t.number c.number));
}

close_old :
    (name : Text) (joins : ℕ) (held : List ℕ) (topic : Option Topic) (closed : List ℕ)
    → On (Open name joins closed) topic
    → All (λ n. n < joins) closed
    → All (λ n. n < joins) (close_number held topic closed)
unfolding close_number
close_old name joins held none closed o a = a
close_old name joins held (some t) closed o a = elim (Bool-cases (contains t.number held)) [
  | inl kept ↦ rw kept a
  | inr free ↦ rw free (o.made, a)
]

differs : (a b : Text) → (a == b) ≡ false → a ≢ b
differs a b h e = ground (arith, list_beq_iff a b)

pub leave_slot-Left :
    (kind current : Text) (joins : ℕ) (slot : Slot)
    → SlotSound kind current joins slot
    → Left kind joins (leave_slot (current == default_session) slot)
unfolding leave_slot preserve clear_topic close_topic
leave_slot-Left kind current joins slot s = elim (Bool-cases (current == default_session)) [
  | inl home ↦
      (let same : current ≡ default_session = (list_beq_iff current default_session).0 home in
        rw home (record {
          gone = refl;
          kept =
              subst (λ id. On (Open (topic_name kind id) joins slot.closed) slot.topic) same
                s.topic;
          old = s.closed;
        }))
  | inr away ↦ rw away (record {
    gone = refl;
    kept =
        close_other (topic_name kind default_session) joins slot.held slot.topic slot.cached
          slot.closed (s.apart (differs current default_session away)) s.cached;
    old =
        close_old (topic_name kind current) joins slot.held slot.topic slot.closed s.topic s.closed;
  })
]

below_fresh : (n : ℕ) (closed : List ℕ) → All (λ k. k < n) closed → contains n closed ≡ false
below_fresh n [] h = refl
below_fresh n (k ∷ closed) h = ground (arith, below_fresh n closed h.1)

fresh-Apart :
    (name : Text) (n : ℕ) (id : Text) (cached : Option Topic) (joins : ℕ) (closed : List ℕ)
    → joins ≤ n
    → On (Open name joins closed) cached
    → Apart (some (record { number = n; name = id })) cached
fresh-Apart name n id none joins closed h o = tt
fresh-Apart name n id (some c) joins closed h o = λ e. (let m = o.made in absurd (omega arith))

-- A new topic in a slot that was left, cached if the session is the default one.
pub opened :
    (kind id : Text) (before n after : ℕ) (slot : Slot)
    → before ≤ n
    → n < after
    → Left kind before slot
    → SlotSound kind id after
        (cache_slot (id == default_session) (open_slot n (topic_name kind id) slot))
unfolding cache_slot open_slot
opened kind id before n after slot h k l =
    let new : Topic = record { number = n; name = topic_name kind id } in
    let longer : before ≤ after = omega arith in
    let later = All-lt_mono slot.closed longer l.old in
    let made : Open (topic_name kind id) after slot.closed new = record {
      named = refl;
      made = k;
      not_closed = below_fresh n slot.closed (All-lt_mono slot.closed h l.old);
    } in
    elim (Bool-cases (id == default_session)) [
      | inl home ↦
          (let same : id ≡ default_session = (list_beq_iff id default_session).0 home in
            rw home (record {
              topic = made;
              cached = subst (λ d. Open (topic_name kind d) after slot.closed new) same made;
              closed = later;
              apart = λ ne. absurd (ne same);
            }))
      | inr away ↦ rw away (record {
        topic = made;
        cached = On-mono (topic_name kind default_session) slot.closed slot.cached longer l.kept;
        closed = later;
        apart = λ ne.
            fresh-Apart (topic_name kind default_session) n (topic_name kind id) slot.cached before
              slot.closed h l.kept;
      })
    ]

-- The default topic again.
pub reused :
    (kind : Text) (joins : ℕ) (slot : Slot)
    → Left kind joins slot
    → SlotSound kind default_session joins (reuse_slot slot)
unfolding reuse_slot
reused kind joins slot l = record {
  topic = l.kept;
  cached = l.kept;
  closed = l.old;
  apart = λ ne. absurd (ne refl);
}
