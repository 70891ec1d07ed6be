-- ===== src/Encoder/Put.antt =====
-- Where ffmpeg puts its segments (internal/media/encoder.go), and what is then served
-- (internal/media/hls.go, ingest.go).
use p2ptogether.Prelude.{
  ℕ, suc, ◌+◌, ◌^◌, ◌≤◌, ◌<◌, ◌≡◌, refl, ap, ◌∙◌, arith, Bool, true, not, ◌&&◌, sym, Option, some,
  List, [], ◌∷◌, ◌++◌, All, ltb, ◌==◌, nat_eq, if◌then◌else◌, list_eq,
}
use mathlib.Core.List.{append_assoc}
use p2ptogether.Prelude.Int.{ℤ, pos, negsuc}
use p2ptogether.Prelude.Maps.{Map, lookup}
use p2ptogether.Names.{Text, text}
use p2ptogether.Names.Decimal.{format_uint, format_padded, max_u32, parse_uint, cut_prefix}
use p2ptogether.Names.Decimal.RoundTrip.{parse_uint-format_uint, IsDigit, format_uint-IsDigit}
use p2ptogether.Names.Decimal.Affixes.{cut_prefix-append}
use p2ptogether.Ring.{Float64, RingBuffer}
use p2ptogether.Ring.Window.{IsValid}
use p2ptogether.Hls.{segment_handler, ingest_handler, not_found}
use p2ptogether.Hls.Service.{segment_path, ingest_path, served, segment_handler-ingest_handler}
use p2ptogether.Encoder.{stream_of_task, ingest_base_url, format_int}

abbrev pub no_percent : Text → Bool
no_percent [] = true
no_percent (c ∷ s) = not (c == b'%') && no_percent s

-- The name that ffmpeg gives a segment: `%06d` stands for its number.
pub record Expands (expand : Text → ℕ → Text) : Type 0 where
  pub padded :
      (before after : Text) (n : ℕ)
      → no_percent before ≡ true
      → no_percent after ≡ true
      → expand (before ++ text "%06d" ++ after) n ≡ before ++ format_padded n ++ after

no_percent-digits : (s : Text) → All IsDigit s → no_percent s ≡ true
no_percent-digits [] h = refl
no_percent-digits (c ∷ s) h = ground (arith, h.0, no_percent-digits s h.1)

no_percent-append :
    (s t : Text) → no_percent s ≡ true → no_percent t ≡ true → no_percent (s ++ t) ≡ true
no_percent-append [] t h k = k
no_percent-append (c ∷ s) t h k = ground (arith, no_percent-append s t)

no_percent-format_int : (n : ℤ) → no_percent (format_int n) ≡ true
unfolding format_int
no_percent-format_int (pos n) = no_percent-digits (format_uint n) (format_uint-IsDigit n)
no_percent-format_int (negsuc n) =
    no_percent-digits (format_uint (suc n)) (format_uint-IsDigit (suc n))

no_percent-base : (hls_port : ℤ) → no_percent (ingest_base_url hls_port) ≡ true
unfolding ingest_base_url
no_percent-base hls_port =
    no_percent-append (text "http://127.0.0.1:") (format_int hls_port) refl
      (no_percent-format_int hls_port)

-- The URL of a segment.
expanded :
    (expand : Text → ℕ → Text) (hls_port : ℤ) (seq : ℕ)
    → Expands expand
    → expand (ingest_base_url hls_port ++ text "/ingest/%06d.ts") seq
      ≡ ingest_base_url hls_port ++ ingest_path seq
expanded expand hls_port seq law =
    let base = ingest_base_url hls_port in
    let before = base ++ text "/ingest/" in
    ap (λ p. expand p seq)
      (sym (
        append_assoc before (text "%06d") (text ".ts")
        ∙ append_assoc base (text "/ingest/") (text "%06d.ts")))
    ∙ law.padded before (text ".ts") seq
        (no_percent-append base (text "/ingest/") (no_percent-base hls_port) refl) refl
    ∙ append_assoc before (format_padded seq) (text ".ts")
    ∙ append_assoc base (text "/ingest/") (format_padded seq ++ text ".ts")

-- The arguments with which ffmpeg puts its segments.
abbrev pub output_args_of : (Text → Text) → Text → ℤ → Text → ℕ → Map Text Text
output_args_of join nanos hls_port file_path seq_base =
    (stream_of_task join nanos hls_port file_path seq_base).output_args

method_found :
    (join : Text → Text) (nanos : Text) (hls_port : ℤ) (file_path : Text) (seq_base : ℕ)
    → lookup (text "method") (output_args_of join nanos hls_port file_path seq_base)
      ≡ some (text "PUT")
unfolding stream_of_task lookup
method_found join nanos hls_port file_path seq_base = refl

start_found :
    (join : Text → Text) (nanos : Text) (hls_port : ℤ) (file_path : Text) (seq_base : ℕ)
    → lookup (text "start_number") (output_args_of join nanos hls_port file_path seq_base)
      ≡ some (format_uint seq_base)
unfolding stream_of_task lookup
start_found join nanos hls_port file_path seq_base = refl

pattern_found :
    (join : Text → Text) (nanos : Text) (hls_port : ℤ) (file_path : Text) (seq_base : ℕ)
    → lookup (text "hls_segment_filename") (output_args_of join nanos hls_port file_path seq_base)
      ≡ some (ingest_base_url hls_port ++ text "/ingest/%06d.ts")
unfolding stream_of_task lookup
pattern_found join nanos hls_port file_path seq_base = refl

-- ffmpeg, run with the arguments of a task, counts its segments from the number of the task, and
-- sends each by the method and to the URL that the arguments say; the ingest handler accepts it at
-- the part of the URL behind the base, and then the path of a number in the playlist answers with
-- the bytes of that segment if it is the number put, and as before otherwise; below the base of the
-- window, and for an empty body, the answer is 404. The number put is below 2^32 - 1, the others fit uint32, the
-- buffer is valid, and ffmpeg writes the number of the segment, padded to six digits, in the place of
-- `%06d`.
pub segment_handler_put :
    (expand : Text → ℕ → Text) (join : Text → Text) (nanos : Text) (hls_port : ℤ) (file_path : Text)
    (seq_base j seq : ℕ) (payload : List ℕ) (durations : ℕ → Option Float64) (now : ℕ)
    (rb : RingBuffer)
    → Expands expand
    → IsValid rb
    → seq_base ≤ max_u32
    → j ≤ max_u32
    → seq + 1 < 2 ^ 32
    → let args = output_args_of join nanos hls_port file_path seq_base in
      (start : Text) × (method : Text) × (pattern : Text) × (path : Text) × (lookup
          (text "start_number")
          args
        ≡ some start)
      × (parse_uint start ≡ some seq_base)
      × (lookup (text "method") args ≡ some method)
      × (lookup (text "hls_segment_filename") args ≡ some pattern)
      × (cut_prefix (ingest_base_url hls_port) (expand pattern seq) ≡ some path)
      × (let (status, after) = ingest_handler method path (some payload) durations now rb in
          (status ≡ 202)
          × (segment_handler (segment_path j) after ≡ (
              if ltb j after.base_seq
              then not_found
              else if j == seq
              then served payload
              else segment_handler (segment_path j) rb)))
segment_handler_put expand join nanos hls_port file_path seq_base j seq payload durations now rb law
      v start_fits small fits =
    (
      format_uint seq_base,
      text "PUT",
      ingest_base_url hls_port ++ text "/ingest/%06d.ts",
      ingest_path seq,
      start_found join nanos hls_port file_path seq_base,
      parse_uint-format_uint seq_base start_fits,
      method_found join nanos hls_port file_path seq_base,
      pattern_found join nanos hls_port file_path seq_base,
      ap (cut_prefix (ingest_base_url hls_port)) (expanded expand hls_port seq law)
          ∙ cut_prefix-append (ingest_base_url hls_port) (ingest_path seq),
      segment_handler-ingest_handler j seq payload durations now rb v small fits,
    )
