-- ===== src/Prelude/Tests.antt =====
-- Boolean tests on numbers, the conditional, and equality of keys as an interface.
use Prim.Native.Nat.{ℕ, compare, Ordering, ◌<◌}
use mathlib.Core.Path.{◌≡◌, refl}
use mathlib.Core.Logic.{◌↔◌, ◌⊎◌, inl, inr}
use mathlib.Core.Bool.{Bool, true, false, ◌&&◌}
use mathlib.Core.Option.{Option, none, some}
use mathlib.Core.List.{List, [], ◌∷◌}
use native.Mathlib.Omega.{arith}

abbrev pub ltb : ℕ → ℕ → Bool
ltb a b = elim (compare a b) [ Ordering.lt ↦ true | _ ↦ false ]

abbrev pub leb : ℕ → ℕ → Bool
leb a b = elim (compare a b) [ Ordering.gt ↦ false | _ ↦ true ]

abbrev pub nat_beq : ℕ → ℕ → Bool
nat_beq a b = elim (compare a b) [ Ordering.eq ↦ true | _ ↦ false ]

infix 1 if◌then◌else◌
abbrev pub if◌then◌else◌ {ℓ} : {A : Type ℓ} → Bool → A → A → A
if true then x else y = x
if false then x else y = y

pub ltb→lt : (a b : ℕ) → ltb a b ≡ true → a < b
ltb→lt a b h = ground arith

pub lt→ltb : (a b : ℕ) → a < b → ltb a b ≡ true
lt→ltb a b h = ground arith

pub Bool-cases : (b : Bool) → (b ≡ true) ⊎ (b ≡ false)
Bool-cases true = inl refl
Bool-cases false = inr refl

pub Option-cases {ℓ} : {A : Type ℓ} (o : Option A) → (o ≡ none) ⊎ ((a : A) × (o ≡ some a))
Option-cases none = inl refl
Option-cases (some a) = inr (a, refl)

abbrev pub is_some {ℓ} : {A : Type ℓ} → Option A → Bool
is_some none = false
is_some (some a) = true

-- A key type: a Boolean test that decides equality.
pub record Eq {ℓ} (A : Type ℓ) : Type ℓ where
  pub same : A → A → Bool
  pub same_iff : (a b : A) → (same a b ≡ true) ↔ (a ≡ b)

infix 50 ◌==◌
abbrev pub ◌==◌ {ℓ} : {A : Type ℓ} ⦃e : Eq A⦄ → A → A → Bool
◌==◌ ⦃e⦄ = e.same

pub nat_beq_iff : (a b : ℕ) → (nat_beq a b ≡ true) ↔ (a ≡ b)
nat_beq_iff a b = (λ h. ground arith, λ h. ground arith)

instance abbrev pub nat_eq : Eq ℕ
nat_eq = record { same = nat_beq; same_iff = nat_beq_iff }

abbrev pub list_beq {ℓ} : {A : Type ℓ} ⦃e : Eq A⦄ → List A → List A → Bool
list_beq [] [] = true
list_beq [] (y ∷ ys) = false
list_beq (x ∷ xs) [] = false
list_beq (x ∷ xs) (y ∷ ys) = (x == y) && list_beq xs ys

pub list_beq_iff {ℓ} :
    {A : Type ℓ} ⦃e : Eq A⦄ (xs ys : List A) → (list_beq xs ys ≡ true) ↔ (xs ≡ ys)
list_beq_iff [] [] = (λ h. refl, λ h. refl)
list_beq_iff [] (y ∷ ys) = (λ h. cc, λ h. cc)
list_beq_iff (x ∷ xs) [] = (λ h. cc, λ h. cc)
list_beq_iff ⦃e⦄ (x ∷ xs) (y ∷ ys) = (
  λ h. ground (arith, e.same_iff x y, list_beq_iff xs ys),
  λ h. ground (arith, e.same_iff x y, list_beq_iff xs ys),
)

instance abbrev pub list_eq {ℓ} : {A : Type ℓ} ⦃e : Eq A⦄ → Eq (List A)
list_eq = record { same = list_beq; same_iff = list_beq_iff }

pub ==_refl {ℓ} : {A : Type ℓ} ⦃e : Eq A⦄ (a : A) → (a == a) ≡ true
==_refl ⦃e⦄ a = (e.same_iff a a).1 refl
