-- ===== src/Prelude/Maps.antt =====
-- Go maps as association lists; the list's order stands for one order of iteration.
use p2ptogether.Prelude.Tests.{Eq, ◌==◌, if◌then◌else◌, is_some, Bool-cases, ==_refl}
use mathlib.Core.Path.{◌≡◌, refl, subst}
use mathlib.Core.Logic.{inl, inr}
use mathlib.Core.Bool.{Bool, true}
use mathlib.Core.Option.{Option, none, some}
use mathlib.Core.List.{List, [], ◌∷◌, ◌++◌}
use native.Mathlib.Omega.{arith}

abbrev pub Map {ℓ κ} : Type ℓ → Type κ → Type (ℓ ⊔ κ)
Map K V = List (K × V)

module _ {ℓ κ} {K : Type ℓ} {V : Type κ} ⦃e : Eq K⦄ where
  -- `v, ok := kvs[k]`
  unfoldable pub lookup : K → Map K V → Option V
  lookup k [] = none
  lookup k ((j, v) ∷ kvs) = if j == k then some v else lookup k kvs

  -- `kvs[k] = v`
  unfoldable pub insert : K → V → Map K V → Map K V
  insert k v [] = (k, v) ∷ []
  insert k v ((j, u) ∷ kvs) = if j == k then (k, v) ∷ kvs else (j, u) ∷ insert k v kvs

  -- `delete(kvs, k)`
  unfoldable pub delete : K → Map K V → Map K V
  delete k [] = []
  delete k ((j, v) ∷ kvs) = if j == k then delete k kvs else (j, v) ∷ delete k kvs

  abbrev pub has_key : K → Map K V → Bool
  has_key k kvs = is_some (lookup k kvs)

  pub lookup-insert :
      (k j : K) (v : V) (kvs : Map K V)
      → lookup j (insert k v kvs) ≡ (if k == j then some v else lookup j kvs)
  unfolding lookup insert
  lookup-insert k j v [] = refl
  lookup-insert k j v ((i, u) ∷ kvs) =
      ground (arith, e.same_iff k j, e.same_iff i k, e.same_iff i j, lookup-insert k j v kvs)

  pub lookup-delete :
      (k j : K) (kvs : Map K V) → lookup j (delete k kvs) ≡ (if k == j then none else lookup j kvs)
  unfolding lookup delete
  lookup-delete k j [] = ground arith
  lookup-delete k j ((i, u) ∷ kvs) =
      ground (arith, e.same_iff k j, e.same_iff i k, e.same_iff i j, lookup-delete k j kvs)

  pub lookup-insert_self : (k : K) (v : V) (kvs : Map K V) → lookup k (insert k v kvs) ≡ some v
  lookup-insert_self k v kvs = ground (arith, lookup-insert k k v kvs, ==_refl k)

  pub lookup-delete_self : (k : K) (kvs : Map K V) → lookup k (delete k kvs) ≡ none
  lookup-delete_self k kvs = ground (arith, lookup-delete k k kvs, ==_refl k)

module _ {ℓ κ} {K : Type ℓ} {V : Type κ} ⦃e : Eq K⦄ where
  -- No key twice.
  abbrev pub Unique : Map K V → Type κ
  Unique [] = Unit
  Unique ((k, v) ∷ kvs) = (lookup k kvs ≡ none) × Unique kvs

  pub insert-Unique : (k : K) (v : V) (kvs : Map K V) → Unique kvs → Unique (insert k v kvs)
  unfolding insert
  insert-Unique k v [] h = unfold lookup in (refl, tt)
  insert-Unique k v ((j, u) ∷ kvs) h =
      ground
        (arith, insert-Unique k v kvs h.1, lookup-insert k j v kvs, e.same_iff j k, e.same_iff k j)

  pub delete-Unique : (k : K) (kvs : Map K V) → Unique kvs → Unique (delete k kvs)
  unfolding delete
  delete-Unique k [] h = tt
  delete-Unique k ((j, u) ∷ kvs) h = ground (arith, delete-Unique k kvs h.1, lookup-delete k j kvs)

  -- A new key comes last.
  pub insert-absent :
      (k : K) (v : V) (kvs : Map K V) → lookup k kvs ≡ none → insert k v kvs ≡ kvs ++ ((k, v) ∷ [])
  unfolding insert lookup
  insert-absent k v [] h = refl
  insert-absent k v ((j, u) ∷ kvs) h = ground (arith, insert-absent k v kvs)

  has_key-append :
      (k : K) (v : V) (front kvs : Map K V) → has_key k (front ++ ((k, v) ∷ kvs)) ≡ true
  unfolding lookup
  has_key-append k v [] kvs = ground (arith, ==_refl k)
  has_key-append k v ((j, u) ∷ front) kvs = ground (arith, has_key-append k v front kvs)

  -- In a map without repetition no key stands twice.
  pub lookup-Unique_append :
      (k : K) (v : V) (front kvs : Map K V)
      → Unique (front ++ ((k, v) ∷ kvs))
      → lookup k front ≡ none
  unfolding lookup
  lookup-Unique_append k v [] kvs h = refl
  lookup-Unique_append k v ((j, u) ∷ front) kvs h = ground (
    arith,
    lookup-Unique_append k v front kvs h.1,
    has_key-append k v front kvs,
    e.same_iff j k,
    h.0,
  )

-- Every value of the map has the property.
abbrev pub AllValues {ℓ κ μ} : {K : Type ℓ} {V : Type κ} → (V → Type μ) → Map K V → Type μ
AllValues P [] = Unit
AllValues P ((k, v) ∷ kvs) = P v × AllValues P kvs

pub AllValues-mono {ℓ κ μ ν} :
    {K : Type ℓ} {V : Type κ} (P : V → Type μ) (Q : V → Type ν) (kvs : Map K V)
    → ((v : V) → P v → Q v)
    → AllValues P kvs
    → AllValues Q kvs
AllValues-mono P Q [] f h = tt
AllValues-mono P Q ((k, v) ∷ kvs) f h = (f v h.0, AllValues-mono P Q kvs f h.1)

module _ {ℓ κ μ} {K : Type ℓ} {V : Type κ} ⦃e : Eq K⦄ (P : V → Type μ) where
  pub insert-AllValues :
      (k : K) (v : V) (kvs : Map K V) → P v → AllValues P kvs → AllValues P (insert k v kvs)
  unfolding insert
  insert-AllValues k v [] p h = (p, tt)
  insert-AllValues k v ((j, u) ∷ kvs) p h = ground (arith, insert-AllValues k v kvs p h.1)

  pub delete-AllValues : (k : K) (kvs : Map K V) → AllValues P kvs → AllValues P (delete k kvs)
  unfolding delete
  delete-AllValues k [] h = tt
  delete-AllValues k ((j, u) ∷ kvs) h = ground (arith, delete-AllValues k kvs h.1)

  pub lookup-AllValues :
      (k : K) (kvs : Map K V) {v : V} → lookup k kvs ≡ some v → AllValues P kvs → P v
  unfolding lookup
  lookup-AllValues k [] q h = cc
  lookup-AllValues k ((j, u) ∷ kvs) {v} q h = elim (Bool-cases (j == k)) [
    | inl same ↦ (let found : u ≡ v = ground arith in subst P found h.0)
    | inr other ↦ lookup-AllValues k kvs (ground arith) h.1
  ]
