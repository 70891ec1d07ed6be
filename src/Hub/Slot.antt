-- ===== src/Hub/Slot.antt =====
-- The hub of a node as one slot (internal/p2p/hub.go, `ControlStream` of main.go).
use p2ptogether.Prelude.{
  ℕ, zero, suc, ◌≡◌, refl, ap, ◌∙◌, arith, Bool, Option, none, some, List, [], ◌∷◌, ◌++◌, ==_refl,
  list_eq, nat_eq, if◌then◌else◌, ltb, ◌<◌, ◌-◌, get_elem?, erase_at,
}
use mathlib.Core.List.{append-nil}
use p2ptogether.Prelude.Maps.{Map, insert, delete}
use p2ptogether.Names.{Text}
use p2ptogether.Hub.{
  Subscriber, new_hub, add, remove, send_all, broadcast, Service, Event, opens, closes, broadcasts,
  removes, step, steps,
}

-- The stream that is served, and the number of removals that are still to run.
pub record Slot : Type 0 where
  pub held : Option ℕ
  pub due : ℕ

-- What a slot does: a new stream takes the place of the one before, the return of any
-- `ControlStream` and the run of any removal empty it.
abbrev pub turn : Event → Slot → Slot
turn (opens stream) c = record c { held = some stream }
turn closes c = record c { held = none }
turn (broadcasts fails) c = elim c.held [
  | none ↦ c
  | some stream ↦ if fails stream then record c { due = suc c.due } else c
]
turn (removes i) c = if ltb i c.due then record { held = none; due = c.due - 1 } else c

abbrev pub turns : List Event → Slot → Slot
turns [] c = c
turns (e ∷ es) c = turns es (turn e c)

abbrev pub receivers : (ℕ → Bool) → Option ℕ → List ℕ
receivers fails none = []
receivers fails (some stream) = if fails stream then [] else stream ∷ []

abbrev repeat : ℕ → Text → List Text
repeat zero id = []
repeat (suc n) id = id ∷ repeat n id

abbrev subs_of : Text → Option ℕ → Map Text Subscriber
subs_of id none = []
subs_of id (some stream) = (id, record { peer_id = id; stream = stream }) ∷ []

-- The hub that a slot stands for.
abbrev shown : Text → Slot → Service
shown id c = record { hub = record { subs = subs_of id c.held }; removals = repeat c.due id }

append-repeat : (n : ℕ) (id : Text) → repeat n id ++ (id ∷ []) ≡ repeat (suc n) id
append-repeat zero id = refl
append-repeat (suc n) id = ap (λ ids. id ∷ ids) (append-repeat n id)

get_elem?-repeat :
    (n i : ℕ) (id : Text) → get_elem? (repeat n id) i ≡ (if ltb i n then some id else none)
get_elem?-repeat zero i id = ground arith
get_elem?-repeat (suc n) zero id = ground arith
get_elem?-repeat (suc n) (suc i) id = ground (arith, get_elem?-repeat n i id)

erase_at-repeat : (n i : ℕ) (id : Text) → i < suc n → erase_at (repeat (suc n) id) i ≡ repeat n id
erase_at-repeat n zero id h = refl
erase_at-repeat zero (suc i) id h = absurd (omega arith)
erase_at-repeat (suc n) (suc i) id h = ap (λ ids. id ∷ ids) (erase_at-repeat n i id (omega arith))

add-shown :
    (id : Text) (stream : ℕ) (held : Option ℕ)
    → add id stream (record { subs = subs_of id held }) ≡ record { subs = subs_of id (some stream) }
unfolding add insert
add-shown id stream none = refl
add-shown id stream (some old) = ground (arith, ==_refl id)

remove-shown :
    (id : Text) (held : Option ℕ)
    → remove id (record { subs = subs_of id held }) ≡ record { subs = subs_of id none }
unfolding remove delete
remove-shown id none = refl
remove-shown id (some old) = ground (arith, ==_refl id)

send_all-shown :
    (id : Text) (fails : ℕ → Bool) (held : Option ℕ)
    → (send_all fails (subs_of id held)).0 ≡ receivers fails held
unfolding send_all
send_all-shown id fails none = refl
send_all-shown id fails (some stream) = ground arith

broadcasts-shown :
    (id : Text) (fails : ℕ → Bool) (held : Option ℕ) (due : ℕ)
    → let c : Slot = record { held = held; due = due } in
      step id (broadcasts fails) (shown id c) ≡ shown id (turn (broadcasts fails) c)
unfolding step broadcast send_all
broadcasts-shown id fails none due =
    ap (λ ids. record { hub = record { subs = [] }; removals = ids }) (append-nil (repeat due id))
broadcasts-shown id fails (some stream) due =
    ground (arith, append-nil (repeat due id), append-repeat due id)

removes-shown :
    (id : Text) (i : ℕ) (held : Option ℕ) (due : ℕ)
    → let c : Slot = record { held = held; due = due } in
      step id (removes i) (shown id c) ≡ shown id (turn (removes i) c)
unfolding step
removes-shown id i held zero = ground arith
removes-shown id i held (suc due) =
    ground (arith, get_elem?-repeat (suc due) i id, erase_at-repeat due i id, remove-shown id held)

step-shown : (id : Text) (e : Event) (c : Slot) → step id e (shown id c) ≡ shown id (turn e c)
unfolding step
step-shown id (opens stream) c =
    ap (λ hub. record { hub = hub; removals = repeat c.due id }) (add-shown id stream c.held)
step-shown id closes c =
    ap (λ hub. record { hub = hub; removals = repeat c.due id }) (remove-shown id c.held)
step-shown id (broadcasts fails) c = broadcasts-shown id fails c.held c.due
step-shown id (removes i) c = removes-shown id i c.held c.due

steps-shown :
    (id : Text) (es : List Event) (c : Slot) → steps id es (shown id c) ≡ shown id (turns es c)
unfolding steps
steps-shown id [] c = refl
steps-shown id (e ∷ es) c = ap (steps id es) (step-shown id e c) ∙ steps-shown id es (turn e c)

-- After any calls and returns of `ControlStream`, broadcasts and runs of launched removals at one
-- node, starting with an empty hub, a broadcast reaches what a single slot holds, unless its Send
-- fails, and nothing else. A call puts its stream into the slot, in place of the one before; a return
-- of any call and the run of any launched removal empty it.
pub broadcast-steps :
    (id : Text) (es : List Event) (fails : ℕ → Bool)
    → (broadcast fails (steps id es (record { hub = new_hub; removals = [] })).hub).0
      ≡ receivers fails (turns es (record { held = none; due = 0 })).held
unfolding broadcast new_hub
broadcast-steps id es fails =
    ap (λ s. (send_all fails s.hub.subs).0) (steps-shown id es (record { held = none; due = 0 }))
    ∙ send_all-shown id fails (turns es (record { held = none; due = 0 })).held
