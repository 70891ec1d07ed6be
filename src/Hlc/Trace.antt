-- ===== src/Hlc/Trace.antt =====
-- A peer's history on its clock: local events and received stamps, in any order
-- (internal/common/time.go).
use p2ptogether.Prelude.{ℕ, ◌^◌, ◌<◌, List, [], ◌∷◌}
use p2ptogether.Hlc.{Clock, stamp, get_current_hlc, update_hlc}
use p2ptogether.Hlc.Order.{Fits, lt-get_current_hlc, lt-update_hlc}

pub data Event : Type 0 where
  happens : Event
  receives : ℕ → Event

-- Each event calls the clock once.
unfoldable pub step : Event → Clock → ℕ × Clock
step happens c = get_current_hlc c
step (receives remote) c = update_hlc remote c

-- The stamps of a history.
unfoldable pub stamps : Clock → List Event → List ℕ
unfolding step
stamps c [] = []
stamps c (e ∷ es) = let (s, c') = step e c in s ∷ stamps c' es

abbrev pub FitsAlong : Clock → List Event → Type 0
FitsAlong c [] = Fits c
FitsAlong c (e ∷ es) = Fits c × FitsAlong (step e c).1 es

abbrev pub Positive63 : List Event → Type 0
Positive63 [] = Unit
Positive63 (happens ∷ es) = Positive63 es
Positive63 (receives remote ∷ es) = (remote < 2 ^ 63) × Positive63 es

-- Each stamp is later than the one before it, and than the stamp just received.
abbrev pub Rises : ℕ → List Event → List ℕ → Type 0
Rises last [] [] = Unit
Rises last [] (s ∷ ss) = ⊥
Rises last (e ∷ es) [] = ⊥
Rises last (happens ∷ es) (s ∷ ss) = (last < s) × Rises s es ss
Rises last (receives remote ∷ es) (s ∷ ss) = (last < s) × (remote < s) × Rises s es ss

Fits-here : (c : Clock) (es : List Event) → FitsAlong c es → Fits c
Fits-here c [] f = f
Fits-here c (e ∷ es) f = f.0

-- In every history of local events and received stamps, the stamps that the clock gives rise
-- strictly, and each is later than the stamp received with it, as long as the counters fit.
pub stamps-Rises :
    (c : Clock) (es : List Event)
    → Positive63 es
    → FitsAlong c es
    → Rises (stamp c) es (stamps c es)
unfolding stamps get_current_hlc update_hlc
stamps-Rises c [] p f = tt
stamps-Rises c (happens ∷ es) p f =
    let c' = (get_current_hlc c).1 in
    (lt-get_current_hlc c f.0 (Fits-here c' es f.1), stamps-Rises c' es p f.1)
stamps-Rises c (receives remote ∷ es) p f =
    let c' = (update_hlc remote c).1 in
    let later = lt-update_hlc remote c p.0 f.0 (Fits-here c' es f.1) in
    (later.0, later.1, stamps-Rises c' es p.1 f.1)
