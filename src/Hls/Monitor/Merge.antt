-- ===== src/Hls/Monitor/Merge.antt =====
-- The findings of one scan and the durations known before (internal/media/m3u8_monitor.go).
use p2ptogether.Prelude.{
  ℕ, zero, suc, ◌+◌, ◌<◌, ◌≡◌, refl, arith, Bool, Option, none, some, [], ◌∷◌, nat_eq,
  if◌then◌else◌, inl, inr, ◌⊎◌,
}
use p2ptogether.Prelude.Maps.{Map, lookup, insert, lookup-insert, Unique}
use p2ptogether.Ring.{Float64}
use p2ptogether.Hls.Monitor.{merge}

-- The found value, or the other one.
abbrev pub or_else : Option Float64 → Option Float64 → Option Float64
or_else none old = old
or_else (some d) old = some d

pub lookup-merge :
    (k : ℕ) (found durations : Map ℕ Float64)
    → Unique found
    → lookup k (merge found durations) ≡ or_else (lookup k found) (lookup k durations)
unfolding merge lookup
lookup-merge k [] durations h = refl
lookup-merge k ((j, v) ∷ found) durations h = ground (
  arith,
  lookup-merge k found (insert j v durations) h.1,
  lookup-insert j k v durations,
  nat_eq.same_iff j k,
)

pub or_else-if :
    (b : Bool) (new old : Option Float64)
    → or_else (if b then none else or_else new none) old ≡ (if b then old else or_else new old)
or_else-if b new old = ground arith

pub position : (k first : ℕ) → (k < first) ⊎ ((k ≡ first) ⊎ ((n : ℕ) × (k ≡ first + suc n)))
position zero zero = inr (inl refl)
position zero (suc first) = inl (omega arith)
position (suc k) zero = inr (inr (k, omega arith))
position (suc k) (suc first) = ground (arith, position k first)
