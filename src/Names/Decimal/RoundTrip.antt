-- ===== src/Names/Decimal/RoundTrip.antt =====
-- A uint32 is read back from its decimal print, padded or not.
use p2ptogether.Prelude.{
  ℕ, zero, suc, ◌+◌, ◌-◌, ◌*◌, ◌/◌, ◌%◌, ◌^◌, ◌≤◌, ◌<◌, ◌≡◌, ◌≢◌, refl, arith, some, [], ◌∷◌, ◌++◌,
  All, length, replicate, ◌∙◌,
}
use p2ptogether.Names.{Text}
use p2ptogether.Names.Decimal.{digits, format_uint, format_padded, max_u32, read, parse_uint}

abbrev pub IsDigit : ℕ → Type 0
IsDigit c = (b'0' ≤ c) × (c ≤ b'9')

-- One more digit is read behind a number.
read-digit :
    (n d : ℕ) (tail : Text)
    → d < 10
    → n * 10 + d ≤ max_u32
    → read n ((b'0' + d) ∷ tail) ≡ read (n * 10 + d) tail
unfolding read
read-digit n d tail h fits = ground arith

read-digits :
    (rounds n : ℕ) (tail : Text)
    → n ≤ max_u32
    → n < 10 ^ suc rounds
    → read 0 (digits (suc rounds) n tail) ≡ read n tail
unfolding digits
read-digits zero n tail fits h = ground (arith, read-digit 0 n tail)
read-digits (suc rounds) n tail fits h =
    ground (
      arith,
      read-digits rounds (n / 10) ((b'0' + n % 10) ∷ tail),
      read-digit (n / 10) (n % 10) tail,
    )

digits_more : (rounds n d : ℕ) (tail : Text) → digits rounds n (d ∷ tail) ≢ []
unfolding digits
digits_more zero n d tail = λ e. cc
digits_more (suc rounds) n d tail =
    λ e. ground (arith, digits_more rounds (n / 10) (b'0' + n % 10) (d ∷ tail))

pub format_uint-ne-nil : (n : ℕ) → format_uint n ≢ []
unfolding format_uint digits
format_uint-ne-nil n = λ e. ground (arith, digits_more 9 (n / 10) (b'0' + n % 10) [])

parse_uint-read : (s : Text) → s ≢ [] → parse_uint s ≡ read 0 s
unfolding parse_uint
parse_uint-read [] h = absurd (h refl)
parse_uint-read (c ∷ s) h = refl

read_zeros : (zeros : ℕ) (s : Text) → read 0 (replicate zeros b'0' ++ s) ≡ read 0 s
unfolding read
read_zeros zero s = refl
read_zeros (suc zeros) s = ground (arith, read_zeros zeros s)

append-ne-nil : (s t : Text) → t ≢ [] → s ++ t ≢ []
append-ne-nil [] t h = h
append-ne-nil (c ∷ s) t h = λ e. cc

read-format_uint : (n : ℕ) → n ≤ max_u32 → read 0 (format_uint n) ≡ some n
unfolding format_uint read
read-format_uint n h = read-digits 9 n [] h (omega arith)

pub parse_uint-format_uint : (n : ℕ) → n ≤ max_u32 → parse_uint (format_uint n) ≡ some n
parse_uint-format_uint n h =
    rw (parse_uint-read (format_uint n) (format_uint-ne-nil n)) (read-format_uint n h)

pub parse_uint-format_padded : (n : ℕ) → n ≤ max_u32 → parse_uint (format_padded n) ≡ some n
unfolding format_padded
parse_uint-format_padded n h =
    let zeros = 6 - length (format_uint n) in
    parse_uint-read _ (append-ne-nil (replicate zeros b'0') (format_uint n) (format_uint-ne-nil n))
    ∙ read_zeros zeros (format_uint n)
    ∙ read-format_uint n h

digits-IsDigit :
    (rounds n : ℕ) (tail : Text) → All IsDigit tail → All IsDigit (digits rounds n tail)
unfolding digits
digits-IsDigit zero n tail h = h
digits-IsDigit (suc rounds) n tail h =
    ground (arith, digits-IsDigit rounds (n / 10) ((b'0' + n % 10) ∷ tail))

pub format_uint-IsDigit : (n : ℕ) → All IsDigit (format_uint n)
unfolding format_uint
format_uint-IsDigit n = digits-IsDigit 10 n [] tt
