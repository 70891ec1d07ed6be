-- ===== src/Prelude/Int.antt =====
-- Go's signed `int` where the source uses negative values: an index or a cursor.
use Prim.Native.Nat.{ℕ, zero, suc, ◌+◌}
use mathlib.Core.Bool.{Bool, true, false}
use mathlib.Core.Option.{Option, none}
use mathlib.Core.List.{List}
use p2ptogether.Prelude.Tests.{ltb, nat_beq}
use p2ptogether.Prelude.Lists.{get_elem?}

-- `negsuc n` is -(n + 1).
pub data ℤ : Type 0 where
  pos : ℕ → ℤ
  negsuc : ℕ → ℤ

abbrev pub minus_one : ℤ
minus_one = negsuc 0

abbrev pub int_ltb : ℤ → ℤ → Bool
int_ltb (pos a) (pos b) = ltb a b
int_ltb (pos a) (negsuc b) = false
int_ltb (negsuc a) (pos b) = true
int_ltb (negsuc a) (negsuc b) = ltb b a

abbrev pub int_beq : ℤ → ℤ → Bool
int_beq (pos a) (pos b) = nat_beq a b
int_beq (pos a) (negsuc b) = false
int_beq (negsuc a) (pos b) = false
int_beq (negsuc a) (negsuc b) = nat_beq a b

-- `i++` and `i--`
abbrev pub increment : ℤ → ℤ
increment (pos a) = pos (a + 1)
increment (negsuc zero) = pos 0
increment (negsuc (suc a)) = negsuc a

abbrev pub decrement : ℤ → ℤ
decrement (pos zero) = negsuc 0
decrement (pos (suc a)) = pos a
decrement (negsuc a) = negsuc (a + 1)

-- `xs[i]`; `none` is the panic of an index out of range.
abbrev pub get_at {ℓ} : {A : Type ℓ} → List A → ℤ → Option A
get_at xs (pos i) = get_elem? xs i
get_at xs (negsuc i) = none
