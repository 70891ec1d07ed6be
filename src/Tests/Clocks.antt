-- ===== src/Tests/Clocks.antt =====
-- Runs of the clock.
use p2ptogether.Prelude.{◌<◌, refl, List, [], ◌∷◌, arith}
use p2ptogether.Hlc.{Clock, stamp, get_current_hlc, update_hlc}
use p2ptogether.Hlc.Order.{Fits, get_current_hlc-overflow}
use p2ptogether.Hlc.Trace.{Event, happens, receives, stamps, FitsAlong, Rises, step, stamps-Rises}
use p2ptogether.Tests.Samples.{clock}

abbrev history : List Event
history = happens ∷ receives 131072000 ∷ happens ∷ []

history-FitsAlong : FitsAlong clock history
unfolding step get_current_hlc update_hlc
history-FitsAlong = (
  record { time_fits = omega arith; logical_fits = omega arith },
  (
    record { time_fits = omega arith; logical_fits = omega arith },
    (
      record { time_fits = omega arith; logical_fits = omega arith },
      record { time_fits = omega arith; logical_fits = omega arith },
    ),
  ),
)

stamps-Rises_example : Rises (stamp clock) history (stamps clock history)
stamps-Rises_example = stamps-Rises clock history (omega arith, tt) history-FitsAlong

after_receipt-Fits : Fits (update_hlc 131072000 clock).1
unfolding update_hlc
after_receipt-Fits = record { time_fits = omega arith; logical_fits = omega arith }

abbrev full : Clock
full = record { wall = λ n. 1000; reads = 0; time = 1000; logical = 65535 }

get_current_hlc-overflow_example : (get_current_hlc full).0 < stamp full
get_current_hlc-overflow_example = get_current_hlc-overflow full (omega arith) refl (omega arith)
