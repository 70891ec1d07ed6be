-- ===== src/Prelude/Lists.antt =====
-- Lists with native lengths and indices, and predicates over lists by recursion.
use Prim.Native.Nat.{ℕ, zero, suc, ◌+◌, ◌≤◌, ◌<◌}
use mathlib.Core.Path.{◌≡◌, refl, ap}
use mathlib.Core.Logic.{◌≢◌, ◌⊎◌, inl, inr}
use mathlib.Core.Bool.{Bool, false, ◌||◌}
use mathlib.Core.Option.{Option, none, some}
use mathlib.Core.List.{List, [], ◌∷◌, ◌++◌}
use native.Mathlib.Omega.{arith}
use p2ptogether.Prelude.Tests.{Eq, ◌==◌, if◌then◌else◌}

module _ {ℓ} {A : Type ℓ} where
  abbrev pub length : List A → ℕ
  length [] = 0
  length (x ∷ xs) = suc (length xs)

  abbrev pub get_elem? : List A → ℕ → Option A
  get_elem? [] i = none
  get_elem? (x ∷ xs) zero = some x
  get_elem? (x ∷ xs) (suc i) = get_elem? xs i

  -- A write out of bounds changes nothing.
  abbrev pub set : List A → ℕ → A → List A
  set [] i v = []
  set (x ∷ xs) zero v = v ∷ xs
  set (x ∷ xs) (suc i) v = x ∷ set xs i v

  -- `append(xs[:i], xs[i+1:]...)`
  abbrev pub erase_at : List A → ℕ → List A
  erase_at [] i = []
  erase_at (x ∷ xs) zero = xs
  erase_at (x ∷ xs) (suc i) = x ∷ erase_at xs i

  abbrev pub replicate : ℕ → A → List A
  replicate zero a = []
  replicate (suc n) a = a ∷ replicate n a

  abbrev pub drop : ℕ → List A → List A
  drop zero xs = xs
  drop (suc n) [] = []
  drop (suc n) (x ∷ xs) = drop n xs

  abbrev pub filter : (A → Bool) → List A → List A
  filter p [] = []
  filter p (x ∷ xs) = if p x then x ∷ filter p xs else filter p xs

  abbrev pub any : (A → Bool) → List A → Bool
  any p [] = false
  any p (x ∷ xs) = p x || any p xs

  abbrev pub All {κ} : (A → Type κ) → List A → Type κ
  All P [] = Unit
  All P (x ∷ xs) = P x × All P xs

  pub length-append : (xs ys : List A) → length (xs ++ ys) ≡ length xs + length ys
  length-append [] ys = omega arith
  length-append (x ∷ xs) ys = omega (arith, length-append xs ys)

  pub length-set : (xs : List A) (i : ℕ) (v : A) → length (set xs i v) ≡ length xs
  length-set [] i v = refl
  length-set (x ∷ xs) zero v = refl
  length-set (x ∷ xs) (suc i) v = ap suc (length-set xs i v)

  pub length-replicate : (n : ℕ) (a : A) → length (replicate n a) ≡ n
  length-replicate zero a = refl
  length-replicate (suc n) a = ap suc (length-replicate n a)

  pub length-erase_at :
      (xs : List A) (i : ℕ) → i < length xs → length (erase_at xs i) + 1 ≡ length xs
  length-erase_at [] i h = absurd (omega arith)
  length-erase_at (x ∷ xs) zero h = omega arith
  length-erase_at (x ∷ xs) (suc i) h = omega (arith, length-erase_at xs i (omega arith))

  pub get_elem?-set_self :
      (xs : List A) (i : ℕ) (v : A) → i < length xs → get_elem? (set xs i v) i ≡ some v
  get_elem?-set_self [] i v h = absurd (omega arith)
  get_elem?-set_self (x ∷ xs) zero v h = refl
  get_elem?-set_self (x ∷ xs) (suc i) v h = get_elem?-set_self xs i v (omega arith)

  pub get_elem?-set_ne :
      (xs : List A) (i j : ℕ) (v : A) → i ≢ j → get_elem? (set xs i v) j ≡ get_elem? xs j
  get_elem?-set_ne [] i j v h = refl
  get_elem?-set_ne (x ∷ xs) zero zero v h = absurd (h refl)
  get_elem?-set_ne (x ∷ xs) zero (suc j) v h = refl
  get_elem?-set_ne (x ∷ xs) (suc i) zero v h = refl
  get_elem?-set_ne (x ∷ xs) (suc i) (suc j) v h = get_elem?-set_ne xs i j v (λ e. h (ap suc e))

  -- What is at an index after a write was there before, or is the value written.
  pub get_elem?-set_cases :
      (xs : List A) (i j : ℕ) (v : A) {a : A}
      → get_elem? (set xs i v) j ≡ some a
      → (a ≡ v) ⊎ (get_elem? xs j ≡ some a)
  get_elem?-set_cases [] i j v e = inr e
  get_elem?-set_cases (x ∷ xs) zero zero v e = inl (ground arith)
  get_elem?-set_cases (x ∷ xs) zero (suc j) v e = inr e
  get_elem?-set_cases (x ∷ xs) (suc i) zero v e = inr e
  get_elem?-set_cases (x ∷ xs) (suc i) (suc j) v e = get_elem?-set_cases xs i j v e

  pub get_elem?_total : (xs : List A) (i : ℕ) → i < length xs → (a : A) × (get_elem? xs i ≡ some a)
  get_elem?_total [] i h = absurd (omega arith)
  get_elem?_total (x ∷ xs) zero h = (x, refl)
  get_elem?_total (x ∷ xs) (suc i) h = get_elem?_total xs i (omega arith)

  pub get_elem?-lt : (xs : List A) (i : ℕ) {a : A} → get_elem? xs i ≡ some a → i < length xs
  get_elem?-lt [] i h = absurd (ground arith)
  get_elem?-lt (x ∷ xs) zero h = omega arith
  get_elem?-lt (x ∷ xs) (suc i) h = omega (arith, get_elem?-lt xs i h)

  pub get_elem?_out : (xs : List A) (i : ℕ) → length xs ≤ i → get_elem? xs i ≡ none
  get_elem?_out [] i h = refl
  get_elem?_out (x ∷ xs) zero h = absurd (omega arith)
  get_elem?_out (x ∷ xs) (suc i) h = get_elem?_out xs i (omega arith)

  pub get_elem?-erase_at_lt :
      (xs : List A) (i j : ℕ) → j < i → get_elem? (erase_at xs i) j ≡ get_elem? xs j
  get_elem?-erase_at_lt [] i j h = refl
  get_elem?-erase_at_lt (x ∷ xs) zero j h = absurd (omega arith)
  get_elem?-erase_at_lt (x ∷ xs) (suc i) zero h = refl
  get_elem?-erase_at_lt (x ∷ xs) (suc i) (suc j) h = get_elem?-erase_at_lt xs i j (omega arith)

  pub get_elem?-erase_at_ge :
      (xs : List A) (i j : ℕ) → i ≤ j → get_elem? (erase_at xs i) j ≡ get_elem? xs (suc j)
  get_elem?-erase_at_ge [] i j h = refl
  get_elem?-erase_at_ge (x ∷ xs) zero j h = refl
  get_elem?-erase_at_ge (x ∷ xs) (suc i) zero h = absurd (omega arith)
  get_elem?-erase_at_ge (x ∷ xs) (suc i) (suc j) h = get_elem?-erase_at_ge xs i j (omega arith)

  pub get_elem?-replicate : (n i : ℕ) (a : A) → i < n → get_elem? (replicate n a) i ≡ some a
  get_elem?-replicate zero i a h = absurd (omega arith)
  get_elem?-replicate (suc n) zero a h = refl
  get_elem?-replicate (suc n) (suc i) a h = get_elem?-replicate n i a (omega arith)

  pub get_elem?-append_lt :
      (xs ys : List A) (i : ℕ) → i < length xs → get_elem? (xs ++ ys) i ≡ get_elem? xs i
  get_elem?-append_lt [] ys i h = absurd (omega arith)
  get_elem?-append_lt (x ∷ xs) ys zero h = refl
  get_elem?-append_lt (x ∷ xs) ys (suc i) h = get_elem?-append_lt xs ys i (omega arith)

  pub get_elem?-append_self : (xs : List A) (a : A) → get_elem? (xs ++ a ∷ []) (length xs) ≡ some a
  get_elem?-append_self [] a = refl
  get_elem?-append_self (x ∷ xs) a = get_elem?-append_self xs a

  pub All-filter {κ} :
      (P : A → Type κ) (p : A → Bool) (xs : List A) → All P xs → All P (filter p xs)
  All-filter P p [] h = tt
  All-filter P p (x ∷ xs) h = ground (arith, All-filter P p xs h.1)

-- Membership by the test of the key type.
abbrev pub contains {ℓ} : {A : Type ℓ} ⦃e : Eq A⦄ → A → List A → Bool
contains a [] = false
contains a (x ∷ xs) = (x == a) || contains a xs
