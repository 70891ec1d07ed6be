-- ===== src/Names/Decimal/Affixes.antt =====
-- A prefix and a suffix that were put on come off.
use p2ptogether.Prelude.{
  ℕ, ◌≡◌, ◌≢◌, refl, arith, some, [], ◌∷◌, ◌++◌, length, ◌==◌, ==_refl, list_eq, nat_eq,
  length-append, Bool-cases, inl, inr, list_beq_iff, ap, false,
}
use p2ptogether.Names.{Text}
use p2ptogether.Names.Decimal.{cut_prefix, cut_suffix}

pub cut_prefix-append : (prefix s : Text) → cut_prefix prefix (prefix ++ s) ≡ some s
unfolding cut_prefix
cut_prefix-append [] s = refl
cut_prefix-append (c ∷ prefix) s = ground (arith, cut_prefix-append prefix s)

longer_differs : (c : ℕ) (s suffix : Text) → (suffix == (c ∷ s ++ suffix)) ≡ false
longer_differs c s suffix = elim (Bool-cases (suffix == (c ∷ s ++ suffix))) [
  | inl same ↦
      (let equal : suffix ≡ c ∷ s ++ suffix = (list_beq_iff suffix (c ∷ s ++ suffix)).0 same in
        absurd (omega (arith, ap length equal, length-append s suffix)))
  | inr other ↦ other
]

pub cut_suffix-append : (s suffix : Text) → suffix ≢ [] → cut_suffix suffix (s ++ suffix) ≡ some s
unfolding cut_suffix
cut_suffix-append [] [] h = absurd (h refl)
cut_suffix-append [] (c ∷ suffix) h = rw (==_refl (c ∷ suffix)) refl
cut_suffix-append (c ∷ s) suffix h =
    rw (longer_differs c s suffix, cut_suffix-append s suffix h) refl
