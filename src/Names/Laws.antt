-- ===== src/Names/Laws.antt =====
-- Trimming and lowering of role names.
use p2ptogether.Prelude.{ℕ, ◌≤◌, ◌≡◌, refl, ap, [], ◌∷◌, arith, length}
use p2ptogether.Names.{
  Text, lower_char, to_lower, is_space, is_empty, trim_left, trim_right, trim_space, normalize,
}

lower_char-lower_char : (c : ℕ) → lower_char (lower_char c) ≡ lower_char c
unfolding lower_char
lower_char-lower_char c = ground arith

is_space-lower_char : (c : ℕ) → is_space (lower_char c) ≡ is_space c
unfolding lower_char is_space
is_space-lower_char c = ground arith

to_lower-to_lower : (s : Text) → to_lower (to_lower s) ≡ to_lower s
unfolding to_lower
to_lower-to_lower [] = refl
to_lower-to_lower (c ∷ s) = ground (arith, lower_char-lower_char c, to_lower-to_lower s)

is_empty-to_lower : (s : Text) → is_empty (to_lower s) ≡ is_empty s
unfolding to_lower
is_empty-to_lower [] = refl
is_empty-to_lower (c ∷ s) = refl

trim_left-to_lower : (s : Text) → trim_left (to_lower s) ≡ to_lower (trim_left s)
unfolding trim_left to_lower
trim_left-to_lower [] = refl
trim_left-to_lower (c ∷ s) = ground (arith, is_space-lower_char c, trim_left-to_lower s)

trim_right-to_lower : (s : Text) → trim_right (to_lower s) ≡ to_lower (trim_right s)
unfolding trim_right to_lower
trim_right-to_lower [] = refl
trim_right-to_lower (c ∷ s) =
    ground (arith, is_space-lower_char c, trim_right-to_lower s, is_empty-to_lower (trim_right s))

trim_right-trim_right : (s : Text) → trim_right (trim_right s) ≡ trim_right s
unfolding trim_right
trim_right-trim_right [] = refl
trim_right-trim_right (c ∷ s) = ground (arith, trim_right-trim_right s)

trim_left-trim_left : (s : Text) → trim_left (trim_left s) ≡ trim_left s
unfolding trim_left
trim_left-trim_left [] = refl
trim_left-trim_left (c ∷ s) = ground (arith, trim_left-trim_left s)

length-trim_left-le : (s : Text) → length (trim_left s) ≤ length s
unfolding trim_left
length-trim_left-le [] = omega arith
length-trim_left-le (c ∷ s) = ground (arith, length-trim_left-le s)

-- Trimming on the right leaves a text with no leading space so.
trim_left-trim_right : (s : Text) → trim_left s ≡ s → trim_left (trim_right s) ≡ trim_right s
unfolding trim_left trim_right
trim_left-trim_right [] h = refl
trim_left-trim_right (c ∷ s) h = ground (arith, length-trim_left-le s, ap length h)

trim_space-trim_space : (s : Text) → trim_space (trim_space s) ≡ trim_space s
unfolding trim_space
trim_space-trim_space s =
    rw (trim_left-trim_right (trim_left s) (trim_left-trim_left s))
      (trim_right-trim_right (trim_left s))

trim_space-to_lower : (s : Text) → trim_space (to_lower s) ≡ to_lower (trim_space s)
unfolding trim_space
trim_space-to_lower s = rw (trim_left-to_lower s) (trim_right-to_lower (trim_left s))

-- Normalising a name that is already normalised changes nothing.
pub normalize-normalize : (s : Text) → normalize (normalize s) ≡ normalize s
unfolding normalize
normalize-normalize s =
    rw (trim_space-to_lower (trim_space s), trim_space-trim_space s)
      (to_lower-to_lower (trim_space s))
