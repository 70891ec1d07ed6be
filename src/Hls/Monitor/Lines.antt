-- ===== src/Hls/Monitor/Lines.antt =====
-- What the monitor makes of each line that the playlist handler writes (internal/media/hls.go,
-- m3u8_monitor.go).
use p2ptogether.Prelude.{
  ℕ, ◌≤◌, ◌≡◌, ◌≢◌, refl, arith, true, false, Bool, some, List, [], ◌∷◌, ◌++◌, All, ◌==◌, nat_eq,
  ◌&&◌, not,
}
use p2ptogether.Names.{Text, text, is_space, trim_left, trim_right, trim_space}
use p2ptogether.Names.Decimal.{format_uint, max_u32, cut_prefix, is_digit}
use p2ptogether.Names.Decimal.RoundTrip.{
  IsDigit, format_uint-IsDigit, parse_uint-format_uint, format_uint-ne-nil,
}
use p2ptogether.Ring.{Float64}
use p2ptogether.Hls.{FloatText, IsFinite, is_number_char}
use p2ptogether.Hls.Monitor.{
  Scan, lines, span, nonempty, before_comma, media_digits, media_sequence, extinf_number, extinf,
  is_file_line, set_base, set_pending, file_line, other_line, sequence_line, scan_line,
}

abbrev pub Solid : ℕ → Type 0
Solid c = is_space c ≡ false

pub All-append {ℓ κ} :
    {A : Type ℓ} (P : A → Type κ) (xs ys : List A) → All P xs → All P ys → All P (xs ++ ys)
All-append P [] ys h k = k
All-append P (x ∷ xs) ys h k = (h.0, All-append P xs ys h.1 k)

pub All-mono {ℓ κ μ} :
    {A : Type ℓ} (P : A → Type κ) (Q : A → Type μ) (xs : List A)
    → ((a : A) → P a → Q a)
    → All P xs
    → All Q xs
All-mono P Q [] f h = tt
All-mono P Q (x ∷ xs) f h = (f x h.0, All-mono P Q xs f h.1)

number-Solid : (c : ℕ) → is_number_char c ≡ true → Solid c
unfolding is_space
number-Solid c h = ground arith

digit-Solid : (c : ℕ) → IsDigit c → Solid c
unfolding is_space
digit-Solid c h = ground arith

space-newline : (c : ℕ) → Solid c → (c == 10) ≡ false
unfolding is_space
space-newline c h = ground arith

pub lines-Solid : (s t : Text) → All Solid s → lines (s ++ 10 ∷ t) ≡ s ∷ lines t
unfolding lines
lines-Solid [] t h = refl
lines-Solid (c ∷ s) t h = rw (space-newline c h.0, lines-Solid s t h.1) refl

trim_right-Solid : (s : Text) → All Solid s → trim_right s ≡ s
unfolding trim_right
trim_right-Solid [] h = refl
trim_right-Solid (c ∷ s) h = rw (h.0, trim_right-Solid s h.1) refl

pub trim_space-Solid : (s : Text) → All Solid s → trim_space s ≡ s
unfolding trim_space trim_left
trim_space-Solid [] h = unfold trim_right in refl
trim_space-Solid (c ∷ s) h = rw (h.0) (trim_right-Solid (c ∷ s) h)

span-All : (p : ℕ → Bool) (s : Text) → All (λ c. p c ≡ true) s → span p s ≡ (s, [])
unfolding span
span-All p [] h = refl
span-All p (c ∷ s) h = rw (span-All p s h.1, h.0) refl

span-stop :
    (p : ℕ → Bool) (s : Text) (d : ℕ) (rest : Text)
    → All (λ c. p c ≡ true) s
    → p d ≡ false
    → span p (s ++ d ∷ rest) ≡ (s, d ∷ rest)
unfolding span
span-stop p [] d rest h k = rw k refl
span-stop p (c ∷ s) d rest h k = rw (span-stop p s d rest h.1 k, h.0) refl

number_line : (d : Text) → d ≢ [] → nonempty (d, []) ≡ some d
unfolding nonempty
number_line [] h = absurd (h refl)
number_line (c ∷ d) h = refl

comma_line : (d : Text) → d ≢ [] → before_comma (d, b',' ∷ []) ≡ some d
unfolding before_comma
comma_line [] h = absurd (h refl)
comma_line (c ∷ d) h = refl

abbrev pub sequence_text : ℕ → Text
sequence_text base = text "#EXT-X-MEDIA-SEQUENCE:" ++ format_uint base

abbrev pub file_text : ℕ → Text
file_text seq = text "seg_" ++ format_uint seq ++ text ".ts"

abbrev is_solid : Text → Bool
is_solid [] = true
is_solid (c ∷ s) = not (is_space c) && is_solid s

is_solid-Solid : (s : Text) → is_solid s ≡ true → All Solid s
is_solid-Solid [] h = tt
is_solid-Solid (c ∷ s) h = ground (arith, is_solid-Solid s)

literal-Solid :
    (front body back : Text)
    → is_solid front ≡ true
    → All Solid body
    → is_solid back ≡ true
    → All Solid (front ++ (body ++ back))
literal-Solid front body back f b k =
    All-append Solid front (body ++ back) (is_solid-Solid front f)
      (All-append Solid body back b (is_solid-Solid back k))

digits-Solid : (n : ℕ) → All Solid (format_uint n)
digits-Solid n = All-mono IsDigit Solid (format_uint n) digit-Solid (format_uint-IsDigit n)

digits-is_digit : (n : ℕ) → All (λ c. is_digit c ≡ true) (format_uint n)
digits-is_digit n = All-mono IsDigit _ (format_uint n) (λ c h. ground arith) (format_uint-IsDigit n)

pub sequence_text-Solid : (base : ℕ) → All Solid (sequence_text base)
unfolding is_space
sequence_text-Solid base =
    All-append Solid (text "#EXT-X-MEDIA-SEQUENCE:") (format_uint base)
      (is_solid-Solid (text "#EXT-X-MEDIA-SEQUENCE:") refl) (digits-Solid base)

pub file_text-Solid : (seq : ℕ) → All Solid (file_text seq)
unfolding is_space
file_text-Solid seq =
    literal-Solid (text "seg_") (format_uint seq) (text ".ts") refl (digits-Solid seq) refl

module _ ⦃float : FloatText⦄ where
  abbrev pub extinf_text : Float64 → Text
  extinf_text d = text "#EXTINF:" ++ float.format d ++ text ","

  pub extinf_text-Solid : (d : Float64) → IsFinite d → All Solid (extinf_text d)
  unfolding is_space
  extinf_text-Solid d f =
      literal-Solid (text "#EXTINF:") (float.format d) (text ",") refl
        (All-mono _ Solid (float.format d) number-Solid (float.format_number d f)) refl

  pub scan_line-sequence :
      (base : ℕ) (scan : Scan)
      → base ≤ max_u32
      → scan_line (sequence_text base) scan ≡ record scan { latest_base = base; index = 0 }
  unfolding scan_line sequence_line set_base media_sequence media_digits cut_prefix
  scan_line-sequence base scan h =
      rw
        (
          trim_space-Solid (sequence_text base) (sequence_text-Solid base),
          span-All is_digit (format_uint base) (digits-is_digit base),
          number_line (format_uint base) (format_uint-ne-nil base),
          parse_uint-format_uint base h,
        )
        refl

  pub scan_line-extinf :
      (d : Float64) (scan : Scan)
      → IsFinite d
      → scan_line (extinf_text d) scan ≡ record scan { pending = some (float.rounded d) }
  unfolding scan_line sequence_line other_line set_pending media_sequence media_digits extinf
      extinf_number cut_prefix
  scan_line-extinf d scan f =
      rw
        (
          trim_space-Solid (extinf_text d) (extinf_text-Solid d f),
          span-stop is_number_char (float.format d) b',' [] (float.format_number d f) refl,
          comma_line (float.format d) (float.format-ne-nil d f),
          float.parse-format d f,
        )
        refl

  pub scan_line-file :
      (seq : ℕ) (scan : Scan) → scan_line (file_text seq) scan ≡ file_line scan.pending scan
  unfolding scan_line sequence_line other_line media_sequence media_digits extinf extinf_number
      cut_prefix is_file_line
  scan_line-file seq scan = rw (trim_space-Solid (file_text seq) (file_text-Solid seq)) refl
