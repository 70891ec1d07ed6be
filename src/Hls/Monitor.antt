-- ===== src/Hls/Monitor.antt =====
-- peer_service/internal/media/m3u8_monitor.go: the durations that are read from the playlist of the
-- encoder.
--
-- The file is an argument, `none` when it cannot be opened because it does not exist; other read
-- errors, the watcher and the polling are left out. A pending duration of -1 is `none`: the pattern
-- of EXTINF has no sign, so no line sets it to -1.
pub mod Lines
pub mod Merge
pub mod Playlist
use p2ptogether.Prelude.{
  ℕ, ◌+◌, Bool, false, not, Option, none, some, List, [], ◌∷◌, ◌==◌, nat_eq, if◌then◌else◌,
}
use p2ptogether.Prelude.Maps.{Map, lookup, insert}
use p2ptogether.Names.{Text, text, trim_space}
use p2ptogether.Names.Decimal.{parse_uint, cut_prefix, is_digit}
use p2ptogether.Ring.{Float64, u32}
use p2ptogether.Hls.{FloatText, is_number_char}

pub record Monitor : Type 0 where
  pub segment_durations : Map ℕ Float64
  pub current_media_base : ℕ
  pub ffmpeg_start_num : ℕ

-- What the loop keeps: the base, the index in the playlist, the pending duration, the findings.
pub record Scan : Type 0 where
  pub latest_base : ℕ
  pub index : ℕ
  pub pending : Option Float64
  pub found : Map ℕ Float64

abbrev onto : ℕ → List Text → List Text
onto c [] = (c ∷ []) ∷ []
onto c (line ∷ lines) = (c ∷ line) ∷ lines

-- `ReadString('\n')` up to the end of the file: what is behind the last newline is a line.
unfoldable pub lines : Text → List Text
lines [] = [] ∷ []
lines (c ∷ s) = let rest = lines s in if c == 10 then [] ∷ rest else onto c rest

-- The longest start of characters that pass the test, and the rest.
unfoldable pub span : (ℕ → Bool) → Text → Text × Text
span p [] = ([], [])
span p (c ∷ s) = let (front, rest) = span p s in if p c then (c ∷ front, rest) else ([], c ∷ s)

nonempty : Text × Text → Option Text
nonempty ([], rest) = none
nonempty (c ∷ front, rest) = some (c ∷ front)

before_comma : Text × Text → Option Text
before_comma ([], rest) = none
before_comma (c ∷ front, []) = none
before_comma (c ∷ front, d ∷ rest) = if d == b',' then some (c ∷ front) else none

media_digits : Option Text → Option Text
unfolding span nonempty
media_digits none = none
media_digits (some s) = nonempty (span is_digit s)

-- The group of `mediaSequenceRegex`.
unfoldable pub media_sequence : Text → Option Text
unfolding media_digits
media_sequence line = media_digits (cut_prefix (text "#EXT-X-MEDIA-SEQUENCE:") line)

extinf_number : Option Text → Option Text
unfolding span before_comma
extinf_number none = none
extinf_number (some s) = before_comma (span is_number_char s)

-- The group of `extinfRegex`.
unfoldable pub extinf : Text → Option Text
unfolding extinf_number
extinf line = extinf_number (cut_prefix (text "#EXTINF:") line)

-- `segmentFileRegex`
unfoldable pub is_file_line : Text → Bool
is_file_line [] = false
is_file_line (c ∷ s) = not (c == b'#')

set_base : Option ℕ → Scan → Scan
set_base none scan = scan
set_base (some seq) scan = record scan { latest_base = seq; index = 0 }

set_pending : Option Float64 → Scan → Scan
set_pending none scan = scan
set_pending (some duration) scan = record scan { pending = some duration }

pub file_line : Option Float64 → Scan → Scan
file_line none scan = scan
file_line (some duration) scan = record scan {
  found = insert (u32 (scan.latest_base + u32 scan.index)) duration scan.found;
  pending = none;
  index = scan.index + 1;
}

unfoldable pub merge : Map ℕ Float64 → Map ℕ Float64 → Map ℕ Float64
merge [] durations = durations
merge ((seq, duration) ∷ found) durations = merge found (insert seq duration durations)

module _ ⦃float : FloatText⦄ where
  other_line : Option Text → Text → Scan → Scan
  unfolding set_pending file_line
  other_line (some number) line scan = set_pending (float.parse number) scan
  other_line none line scan = if is_file_line line then file_line scan.pending scan else scan

  sequence_line : Option Text → Text → Scan → Scan
  unfolding set_base other_line
  sequence_line (some seq) line scan = set_base (parse_uint seq) scan
  sequence_line none line scan = other_line (extinf line) line scan

  unfoldable pub scan_line : Text → Scan → Scan
  unfolding sequence_line
  scan_line raw scan = let line = trim_space raw in sequence_line (media_sequence line) line scan

  unfoldable pub scan_lines : List Text → Scan → Scan
  scan_lines [] scan = scan
  scan_lines (line ∷ rest) scan = scan_lines rest (scan_line line scan)

  unfoldable pub parse_playlist : Option Text → Monitor → Monitor
  unfolding merge scan_lines
  parse_playlist none m = m
  parse_playlist (some file) m =
      let scan =
        scan_lines (lines file)
          (record { latest_base = m.ffmpeg_start_num; index = 0; pending = none; found = [] }) in
      record m {
        segment_durations = merge scan.found m.segment_durations;
        current_media_base = scan.latest_base;
      }

  -- `NewM3U8Monitor`, of a watcher that is created.
  unfoldable pub new_monitor : Option Text → ℕ → Monitor
  new_monitor file start =
      parse_playlist file
        (record { segment_durations = []; current_media_base = start; ffmpeg_start_num = start })

unfoldable pub get_segment_duration : ℕ → Monitor → Option Float64
get_segment_duration seq m = lookup seq m.segment_durations
