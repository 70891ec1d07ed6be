-- ===== src/Names/Decimal.antt =====
-- Decimal numbers and affixes in texts: `fmt`'s `%d` and `%06d`, `strconv.ParseUint(s, 10, 32)`,
-- and the functions of package strings that cut a prefix or a suffix.
--
-- A number below 2^32 has at most ten digits, so printing takes ten rounds at most.
pub mod RoundTrip
pub mod Affixes
use p2ptogether.Prelude.{
  ℕ, zero, suc, ◌+◌, ◌-◌, ◌*◌, ◌/◌, ◌%◌, ◌^◌, Bool, ◌&&◌, Option, none, some, [], ◌∷◌, ◌++◌, leb,
  ◌==◌, nat_eq, list_eq, if◌then◌else◌, length, replicate,
}
use p2ptogether.Names.{Text}

unfoldable pub digits : ℕ → ℕ → Text → Text
digits zero n tail = tail
digits (suc rounds) n tail =
    let longer = (b'0' + n % 10) ∷ tail in
    let rest = digits rounds (n / 10) longer in if n / 10 == 0 then longer else rest

-- `%d` of a uint32.
unfoldable pub format_uint : ℕ → Text
unfolding digits
format_uint n = digits 10 n []

-- `%06d` of a uint32.
unfoldable pub format_padded : ℕ → Text
unfolding format_uint
format_padded n = let s = format_uint n in replicate (6 - length s) b'0' ++ s

abbrev pub is_digit : ℕ → Bool
is_digit c = leb b'0' c && leb c b'9'

abbrev pub max_u32 : ℕ
max_u32 = 2 ^ 32 - 1

-- The sum is below 2^64, so it does not wrap before the test.
unfoldable pub read : ℕ → Text → Option ℕ
read n [] = some n
read n (c ∷ s) =
    let next = n * 10 + (c - b'0') in
    let rest = read next s in if is_digit c && leb next max_u32 then rest else none

unfoldable pub parse_uint : Text → Option ℕ
unfolding read
parse_uint [] = none
parse_uint (c ∷ s) = read 0 (c ∷ s)

-- The text behind a prefix, `none` without it.
unfoldable pub cut_prefix : Text → Text → Option Text
cut_prefix [] s = some s
cut_prefix (p ∷ prefix) [] = none
cut_prefix (p ∷ prefix) (c ∷ s) = let rest = cut_prefix prefix s in if p == c then rest else none

abbrev cons_to : ℕ → Option Text → Option Text
cons_to c none = none
cons_to c (some s) = some (c ∷ s)

-- The text before a suffix, `none` without it.
unfoldable pub cut_suffix : Text → Text → Option Text
cut_suffix suffix [] = if suffix == [] then some [] else none
cut_suffix suffix (c ∷ s) =
    let rest = cut_suffix suffix s in if suffix == c ∷ s then some [] else cons_to c rest

abbrev pub or_else {ℓ} : {A : Type ℓ} → A → Option A → A
or_else a none = a
or_else a (some b) = b

-- `strings.TrimPrefix`
abbrev pub trim_prefix : Text → Text → Text
trim_prefix prefix s = or_else s (cut_prefix prefix s)

-- `strings.TrimSuffix`
abbrev pub trim_suffix : Text → Text → Text
trim_suffix suffix s = or_else s (cut_suffix suffix s)
