-- ===== src/Names.antt =====
-- Role names and other texts of the peer service, as lists of code points, and what
-- `strings.ToLower` and `strings.TrimSpace` do to texts of ASCII letters.
pub mod Laws
pub mod Decimal
use Prim.Native.Char.{code}
use Prim.Native.String.{String}
use p2ptogether.Prelude.{
  ℕ, ◌+◌, Bool, true, false, ◌&&◌, ◌||◌, List, [], ◌∷◌, leb, ◌==◌, nat_eq, if◌then◌else◌,
}

abbrev pub Text : Type 0
Text = List ℕ

-- A text literal.
abbrev pub text : String → Text
text String.[] = []
text (String.◌∷◌ c s) = code c ∷ text s

unfoldable pub lower_char : ℕ → ℕ
lower_char c = if leb b'A' c && leb c b'Z' then c + 32 else c

unfoldable pub to_lower : Text → Text
unfolding lower_char
to_lower [] = []
to_lower (c ∷ s) = lower_char c ∷ to_lower s

-- `unicode.IsSpace` up to U+00FF.
unfoldable pub is_space : ℕ → Bool
is_space c = (leb 9 c && leb c 13) || (c == 32) || (c == 0x85) || (c == 0xa0)

abbrev pub is_empty {ℓ} : {A : Type ℓ} → List A → Bool
is_empty [] = true
is_empty (x ∷ xs) = false

unfoldable pub trim_left : Text → Text
unfolding is_space
trim_left [] = []
trim_left (c ∷ s) = if is_space c then trim_left s else c ∷ s

unfoldable pub trim_right : Text → Text
unfolding is_space
trim_right [] = []
trim_right (c ∷ s) = let rest = trim_right s in if is_space c && is_empty rest then [] else c ∷ rest

unfoldable pub trim_space : Text → Text
unfolding trim_left trim_right
trim_space s = trim_right (trim_left s)

-- `strings.ToLower(strings.TrimSpace(name))`, the key of a role.
unfoldable pub normalize : Text → Text
unfolding to_lower trim_space
normalize name = to_lower (trim_space name)
