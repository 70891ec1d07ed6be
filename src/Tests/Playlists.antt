-- ===== src/Tests/Playlists.antt =====
-- Runs of the HLS server, the monitor, the encoder runner and the hub.
use p2ptogether.Prelude.{
  ℕ, ◌++◌, ◌≡◌, refl, arith, true, false, Option, none, some, [], ◌∷◌, All, Bool-cases, inl, inr,
  ◌==◌, nat_eq, list_eq, if◌then◌else◌, ltb, ◌-◌, ◌≢◌, get_elem?,
}
use p2ptogether.Prelude.Int.{pos}
use p2ptogether.Prelude.Maps.{Map, lookup}
use p2ptogether.Names.{Text, text}
use p2ptogether.Names.Decimal.{cut_prefix, format_padded, parse_uint}
use p2ptogether.Encoder.{ingest_base_url}
use p2ptogether.Encoder.Put.{Expands, no_percent, output_args_of, segment_handler_put}
use p2ptogether.Ring.{Float64, new_ring_buffer}
use p2ptogether.Ring.Window as Window
use p2ptogether.Ring.History.{Reached-IsValid, starts}
use p2ptogether.Hls.{
  FloatText, IsFinite, nominal, is_number_char, playlist_text, ingest_handler, segment_handler,
  not_found,
}
use p2ptogether.Hls.Service.{segment_path, served}
use p2ptogether.Hls.Monitor.{Monitor, parse_playlist, get_segment_duration}
use p2ptogether.Hls.Monitor.Merge.{or_else}
use p2ptogether.Hls.Monitor.Playlist.{read_back, parse_playlist-playlist_text}
use p2ptogether.Runner.{World, new_encoder_runner, start, begin}
use p2ptogether.Hub.{new_hub, broadcast, steps, opens, closes}
use p2ptogether.Hub.Slot.{broadcast-steps}
use p2ptogether.Runner.Live as Live
use p2ptogether.Runner.Live.{Owner, Reached-Owner}
use p2ptogether.Tests.Samples.{ring, segment}

abbrev one : Float64
one = 0x3ff0000000000000

abbrev two_text : Text
two_text = text "2.000000"

abbrev one_text : Text
one_text = text "1.000000"

-- Two seconds, and one second for every other duration.
abbrev print : Float64 → Text
print d = if d == nominal then two_text else one_text

abbrev scan : Text → Option Float64
scan s = if s == two_text then some nominal else some one

digits_and_point :
    All (λ c. is_number_char c ≡ true) two_text × All (λ c. is_number_char c ≡ true) one_text
digits_and_point = (
  (refl, (refl, (refl, (refl, (refl, (refl, (refl, (refl, tt)))))))),
  (refl, (refl, (refl, (refl, (refl, (refl, (refl, (refl, tt)))))))),
)

print_numbers : (d : Float64) → IsFinite d → All (λ c. is_number_char c ≡ true) (print d)
print_numbers d f = elim (Bool-cases (d == nominal)) [
  | inl e ↦ rw e (digits_and_point.0)
  | inr e ↦ rw e (digits_and_point.1)
]

print_there : (d : Float64) → IsFinite d → print d ≢ []
print_there d f = elim (Bool-cases (d == nominal)) [
  | inl e ↦ rw e (λ h. cc)
  | inr e ↦ rw e (λ h. cc)
]

scan-print :
    (d : Float64) → IsFinite d → scan (print d) ≡ some (if d == nominal then nominal else one)
scan-print d f = elim (Bool-cases (d == nominal)) [ inl e ↦ rw e refl | inr e ↦ rw e refl ]

instance abbrev two_or_one : FloatText
two_or_one = record {
  format = print;
  parse = scan;
  rounded = λ d. if d == nominal then nominal else one;
  format-ne-nil = print_there;
  format_number = print_numbers;
  parse-format = scan-print;
}

abbrev monitor : Monitor
monitor = record { segment_durations = (2, one) ∷ []; current_media_base = 0; ffmpeg_start_num = 0 }

parse_playlist_example :
    let after = parse_playlist (some (playlist_text 3 true (segment 3 ∷ []))) monitor in
    (after.current_media_base ≡ 3)
    × ((k : ℕ)
        → get_segment_duration k after ≡ (
            if ltb k 3
            then get_segment_duration k monitor
            else or_else
                (read_back (get_elem? (segment 3 ∷ []) (k - 3)))
                (get_segment_duration k monitor)))
parse_playlist_example =
    parse_playlist-playlist_text 3 true (segment 3 ∷ []) monitor ((λ e. ground arith), tt)
      (omega arith) (omega arith)

empty-IsValid : Window.IsValid ring
empty-IsValid = Reached-IsValid (starts 4 made (omega arith))
  where
    made : new_ring_buffer 4 ≡ some ring
    made = unfold new_ring_buffer in refl

-- The writing of segment names: the first `%06d` of a pattern.
abbrev put_number : Text → ℕ → Text
put_number [] n = []
put_number (c ∷ s) n =
    let rest = put_number s n in
    elim (cut_prefix (text "%06d") (c ∷ s)) [
      | none ↦ c ∷ rest
      | some after ↦ format_padded n ++ after
    ]

put_number_lem :
    (before after : Text) (n : ℕ)
    → no_percent before ≡ true
    → put_number (before ++ text "%06d" ++ after) n ≡ before ++ format_padded n ++ after
unfolding cut_prefix
put_number_lem [] after n h = refl
put_number_lem (c ∷ before) after n h = ground (arith, put_number_lem before after n)

put_number-Expands : Expands put_number
put_number-Expands = record { padded = λ before after n h k. put_number_lem before after n h }

abbrev args : Map Text Text
args = output_args_of (λ name. name) (text "1") (pos 8080) (text "a.mkv") 3

segment_handler_put_example :
    (start : Text) × (method : Text) × (pattern : Text) × (path : Text) × (lookup
        (text "start_number")
        args
      ≡ some start)
    × (parse_uint start ≡ some 3)
    × (lookup (text "method") args ≡ some method)
    × (lookup (text "hls_segment_filename") args ≡ some pattern)
    × (cut_prefix (ingest_base_url (pos 8080)) (put_number pattern 3) ≡ some path)
    × (let (status, after) = ingest_handler method path (some (7 ∷ 8 ∷ [])) (λ seq. none) 3 ring in
        (status ≡ 202)
        × (segment_handler (segment_path 3) after
            ≡ (if ltb 3 after.base_seq then not_found else served (7 ∷ 8 ∷ []))))
segment_handler_put_example =
    segment_handler_put put_number (λ name. name) (text "1") (pos 8080) (text "a.mkv") 3 3 3
      (7 ∷ 8 ∷ []) (λ seq. none) 3 ring put_number-Expands empty-IsValid (omega arith) (omega arith)
      (omega arith)

abbrev started : World
started = start (text "a.mkv") 0 (record { runner = new_encoder_runner; routines = [] })

runs_now : started.runner.is_running ≡ true
unfolding start begin new_encoder_runner
runs_now = refl

Reached-Owner_example : Owner started
Reached-Owner_example = Reached-Owner (Live.starts (text "a.mkv") 0 Live.fresh) runs_now

broadcast-steps_example :
    (broadcast
      (λ stream. false)
      (steps
        (text "node")
        (opens 1 ∷ opens 2 ∷ closes ∷ [])
        (record { hub = new_hub; removals = [] })).hub).0
    ≡ []
broadcast-steps_example =
    broadcast-steps (text "node") (opens 1 ∷ opens 2 ∷ closes ∷ []) (λ stream. false)
