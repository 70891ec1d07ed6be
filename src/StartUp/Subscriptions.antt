-- ===== src/StartUp/Subscriptions.antt =====
-- The subscriptions that the loops of `main` make and cancel (main.go).
use p2ptogether.Prelude.{
  ℕ, ◌+◌, ◌<◌, ◌≡◌, refl, arith, Bool, true, Option, none, some, List, [], ◌∷◌, ◌++◌, nat_eq,
  list_eq, list_beq_iff, inl, inr, Option-cases, is_some,
}
use p2ptogether.Names.{Text}
use p2ptogether.StartUp.{Loop, new_loop, cancel_sub, resubscribe, outdated, poll_control, poll}

-- What a loop does in one round: with the topic it finds and whether `Subscribe` succeeds.
pub data Polled : Loop → Type 0 where
  begins : Polled new_loop
  controls :
      (subscribed : Bool) (topic : Option Text) {l : Loop}
      → Polled l
      → Polled (poll_control subscribed topic l)
  polls :
      (subscribed : Bool) (topic : Option Text) {l : Loop}
      → Polled l
      → Polled (poll subscribed topic l)

abbrev pub held : Option ℕ → List ℕ
held none = []
held (some n) = n ∷ []

-- Strictly falling numbers, all below the bound.
abbrev pub Falling : ℕ → List ℕ → Type 0
Falling bound [] = Unit
Falling bound (n ∷ ns) = (n < bound) × Falling n ns

Falling-mono : (a b : ℕ) (ns : List ℕ) → a < b → Falling a ns → Falling b ns
Falling-mono a b [] h f = tt
Falling-mono a b (n ∷ ns) h f = (omega arith, f.1)

-- Every subscription that was made is the one that is held, or was cancelled, and not both.
pub record IsTidy (l : Loop) : Type 0 where
  pub accounted : l.opened ≡ held l.sub ++ l.cancelled
  pub distinct : Falling l.calls l.opened

-- The loop is subscribed to the topic by its name, or to none.
abbrev pub Follows : Option Text → Loop → Type 0
Follows none l = l.sub ≡ none
Follows (some name) l = (is_some l.sub ≡ true) × (l.current_topic_name ≡ name)

cancel_sub-accounted :
    (l : Loop) → l.opened ≡ held l.sub ++ l.cancelled → (cancel_sub l).cancelled ≡ l.opened
unfolding cancel_sub
cancel_sub-accounted l h = elim (Option-cases l.sub) [
  | inl e ↦ rw (e, cancel_sub) (ground arith)
  | inr (n, e) ↦ rw (e, cancel_sub) (ground arith)
]

resubscribe-IsTidy :
    (subscribed : Bool) (name : Text) (l : Loop) → IsTidy l → IsTidy (resubscribe subscribed name l)
unfolding resubscribe cancel_sub
resubscribe-IsTidy subscribed name l v =
    let old = Falling-mono l.calls (l.calls + 1) l.opened (omega arith) v.distinct in
    ground (arith, cancel_sub-accounted l v.accounted, Option-cases l.sub)

poll_control-IsTidy :
    (subscribed : Bool) (topic : Option Text) (l : Loop)
    → IsTidy l
    → IsTidy (poll_control subscribed topic l)
unfolding poll_control
poll_control-IsTidy subscribed none l v = v
poll_control-IsTidy subscribed (some name) l v =
    ground (arith, resubscribe-IsTidy subscribed name l v)

poll-IsTidy :
    (subscribed : Bool) (topic : Option Text) (l : Loop)
    → IsTidy l
    → IsTidy (poll subscribed topic l)
unfolding poll cancel_sub
poll-IsTidy subscribed none l v =
    ground (arith, cancel_sub-accounted l v.accounted, Option-cases l.sub)
poll-IsTidy subscribed (some name) l v = ground (arith, resubscribe-IsTidy subscribed name l v)

pub Polled-IsTidy : {l : Loop} → Polled l → IsTidy l
unfolding new_loop
Polled-IsTidy begins = record { accounted = refl; distinct = tt }
Polled-IsTidy (controls subscribed topic {l} h) =
    poll_control-IsTidy subscribed topic l (Polled-IsTidy h)
Polled-IsTidy (polls subscribed topic {l} h) = poll-IsTidy subscribed topic l (Polled-IsTidy h)

poll-Follows : (topic : Option Text) (l : Loop) → Follows topic (poll true topic l)
unfolding poll resubscribe cancel_sub outdated
poll-Follows none l = ground (arith, Option-cases l.sub)
poll-Follows (some name) l = ground (arith, list_beq_iff name l.current_topic_name)

poll_control-Follows :
    (name : Text) (l : Loop) → Follows (some name) (poll_control true (some name) l)
unfolding poll_control resubscribe cancel_sub outdated
poll_control-Follows name l = ground (arith, list_beq_iff name l.current_topic_name)

-- A round of a loop whose `Subscribe` succeeds, after any rounds, leaves the loop subscribed to the
-- topic that it found, or, for chat and video, to none if there is none; and every subscription
-- that was ever made is either the one that is held or was cancelled, so that none is leaked.
pub poll_lem :
    (topic : Option Text) (name : Text) {l : Loop}
    → Polled l
    → Follows topic (poll true topic l)
      × IsTidy (poll true topic l)
      × Follows (some name) (poll_control true (some name) l)
      × IsTidy (poll_control true (some name) l)
poll_lem topic name {l} h =
    let v = Polled-IsTidy h in
    (
      poll-Follows topic l,
      poll-IsTidy true topic l v,
      poll_control-Follows name l,
      poll_control-IsTidy true (some name) l v,
    )
