-- ===== src/Prelude/Bits.antt =====
-- `|` and `&` on permission masks: the lowest digit, and when a mask meets a union.
use Prim.Native.Nat.{
  ℕ, zero, suc, ◌+◌, ◌*◌, ◌/◌, ◌%◌, ◌≤◌, min, max, bit_and, bit_or, digits, bitwise,
  bit_and-bitwise, bit_or-bitwise,
}
use mathlib.Core.Path.{◌≡◌, refl}
use native.Mathlib.Omega.{arith}

module _ (rest : ℕ → ℕ) (op : ℕ → ℕ → ℕ) where
  digits_irrelevant :
      (fuel more x y : ℕ) → x ≤ fuel → x ≤ more → digits rest op fuel x y ≡ digits rest op more x y
  digits_irrelevant (suc fuel) (suc more) (suc x) y h k =
      rw (digits_irrelevant fuel more (suc x / 2) (y / 2) (omega arith) (omega arith))
  digits_irrelevant zero zero zero y h k = refl
  digits_irrelevant zero (suc more) zero y h k = refl
  digits_irrelevant (suc fuel) zero zero y h k = refl
  digits_irrelevant (suc fuel) (suc more) zero y h k = refl
  digits_irrelevant zero more (suc x) y h k = absurd (omega arith)
  digits_irrelevant (suc fuel) zero (suc x) y h k = absurd (omega arith)

  bitwise_low :
      (x y : ℕ)
      → bitwise rest op (suc x) y ≡ bitwise rest op (suc x / 2) (y / 2) * 2 + op (suc x % 2) (y % 2)
  bitwise_low x y =
      let half : ℕ = suc x / 2 in
      omega (arith, digits_irrelevant x half half (y / 2) (omega arith) (omega arith))

or_low : (x y : ℕ) → bit_or x y ≡ bit_or (x / 2) (y / 2) * 2 + max (x % 2) (y % 2)
or_low zero y = simp bit_or-bitwise (omega arith)
or_low (suc x) y = simp bit_or-bitwise (bitwise_low (λ d. d) max x y)

and_low : (x y : ℕ) → bit_and x y ≡ bit_and (x / 2) (y / 2) * 2 + min (x % 2) (y % 2)
and_low zero y = simp bit_and-bitwise (omega arith)
and_low (suc x) y = simp bit_and-bitwise (bitwise_low (λ d. 0) min x y)

and_nothing : (fuel x : ℕ) → x ≤ fuel → bit_and x 0 ≡ 0
and_nothing fuel zero h = refl
and_nothing zero (suc x) h = absurd (omega arith)
and_nothing (suc fuel) (suc x) h =
    omega (arith, and_low (suc x) 0, and_nothing fuel (suc x / 2) (omega arith))

-- A union misses a mask exactly when both parts miss it.
abbrev Misses : ℕ → ℕ → ℕ → Type 0
Misses a b r =
    (bit_and (bit_or a b) r ≡ 0 → (bit_and a r ≡ 0) × (bit_and b r ≡ 0))
    × (bit_and a r ≡ 0 → bit_and b r ≡ 0 → bit_and (bit_or a b) r ≡ 0)

or_halves :
    (a b : ℕ) → (bit_or a b / 2 ≡ bit_or (a / 2) (b / 2)) × (bit_or a b % 2 ≡ max (a % 2) (b % 2))
or_halves a b = omega (arith, or_low a b)

union-Misses_fuel : (fuel a b r : ℕ) → r ≤ fuel → Misses a b r
union-Misses_fuel fuel a b zero h = (
  λ e. (and_nothing a a (omega arith), and_nothing b b (omega arith)),
  λ e e'. and_nothing (bit_or a b) (bit_or a b) (omega arith),
)
union-Misses_fuel zero a b (suc r) h = absurd (omega arith)
union-Misses_fuel (suc fuel) a b (suc r) h =
    let ih = union-Misses_fuel fuel (a / 2) (b / 2) (suc r / 2) (omega arith) in
    let top = and_low (bit_or a b) (suc r) in
    let halves = or_halves a b in
    ground (arith, ih, top, halves, and_low a (suc r), and_low b (suc r))

pub union-Misses : (a b r : ℕ) → Misses a b r
union-Misses a b r = union-Misses_fuel r a b r (omega arith)

pub zero_and : (r : ℕ) → bit_and 0 r ≡ 0
zero_and r = bit_and-bitwise 0 r
