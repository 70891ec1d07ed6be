-- ===== src/Hls.antt =====
-- peer_service/internal/media/hls.go, ingest.go and status.go: the small HTTP server between the
-- encoder, the ring buffer and the player.
--
-- A text is a list of code points, a body a list of bytes. Headers and log lines are left out, and a
-- handler runs alone. A float64 stands by its bits; `fmt`'s `%.6f` and `strconv.ParseFloat` are the
-- parameter `FloatText`, with what the code needs of them.
pub mod Service
pub mod Monitor
use p2ptogether.Prelude.{
  ℕ, zero, ◌<◌, ◌+◌, ◌%◌, ◌≡◌, ◌≢◌, Bool, true, false, not, ◌&&◌, ◌||◌, Option, none, some, List,
  [], ◌∷◌, ◌++◌, All, ltb, leb, ◌==◌, nat_eq, list_eq, if◌then◌else◌,
}
use p2ptogether.Names.{Text, text}
use p2ptogether.Names.Decimal.{
  format_uint, parse_uint, cut_prefix, cut_suffix, trim_prefix, trim_suffix, is_digit,
}
use p2ptogether.Ring.{Float64, Segment, RingBuffer, snapshot, get, write_at}

-- The characters of `[0-9\.]`.
abbrev pub is_number_char : ℕ → Bool
is_number_char c = is_digit c || (c == b'.')

abbrev pub infinity : Float64
infinity = 0x7ff0000000000000

-- No sign bit, not infinite and not a NaN.
abbrev pub IsFinite : Float64 → Type 0
IsFinite d = d < infinity

-- `%.6f` prints such a number in digits and a point, and `ParseFloat` reads it as the number rounded
-- to six places.
pub record FloatText : Type 0 where
  pub format : Float64 → Text
  pub parse : Text → Option Float64
  pub rounded : Float64 → Float64
  pub format-ne-nil : (d : Float64) → IsFinite d → format d ≢ []
  pub format_number : (d : Float64) → IsFinite d → All (λ c. is_number_char c ≡ true) (format d)
  pub parse-format : (d : Float64) → IsFinite d → parse (format d) ≡ some (rounded d)

-- `SegmentDuration.Seconds()`, 2.0.
abbrev pub nominal : Float64
nominal = 0x4000000000000000

-- `d > 0`: no sign bit, not zero and not a NaN.
abbrev pub positive : Float64 → Bool
positive d = ltb 0 d && leb d infinity

unfoldable pub duration_to_use : Segment → Float64
duration_to_use s = if positive s.actual_duration then s.actual_duration else nominal

abbrev pub newline : Text
newline = 10 ∷ []

module _ ⦃float : FloatText⦄ where
  -- The two lines of a segment.
  unfoldable pub segment_lines : List Segment → Text
  unfolding duration_to_use
  segment_lines [] = []
  segment_lines (s ∷ segs) =
      text "#EXTINF:"
      ++ float.format (duration_to_use s)
      ++ text ",\n"
      ++ text "seg_"
      ++ format_uint s.seq
      ++ text ".ts\n"
      ++ segment_lines segs

  unfoldable pub playlist_text : ℕ → Bool → List Segment → Text
  unfolding segment_lines
  playlist_text base discontinuity segs =
      text "#EXTM3U\n"
      ++ text "#EXT-X-VERSION:3\n"
      ++ text "#EXT-X-PLAYLIST-TYPE:EVENT\n"
      ++ text "#EXT-X-START:TIME-OFFSET=0,PRECISE=YES\n"
      ++ text "#EXT-X-TARGETDURATION:2\n"
      ++ text "#EXT-X-MEDIA-SEQUENCE:"
      ++ format_uint base
      ++ newline
      ++ (if discontinuity then text "#EXT-X-DISCONTINUITY\n" else [])
      ++ segment_lines segs

-- A status and a body.
pub record Response : Type 0 where
  pub status : ℕ
  pub body : List ℕ

abbrev pub not_found : Response
not_found = record { status = 404; body = text "404 page not found\n" }

-- `/stream.m3u8`: the answer, and `pendingDiscont` afterwards.
unfoldable pub playlist_handler : ⦃float : FloatText⦄ → Bool → RingBuffer → Response × Bool
unfolding playlist_text
playlist_handler pending rb =
    let (base, segs) = snapshot rb in
    (record { status = 200; body = playlist_text base pending segs }, false)

found_or_not : Option (List ℕ) → Response
found_or_not none = not_found
found_or_not (some payload) = record { status = 200; body = payload }

numbered : Option ℕ → RingBuffer → Response
unfolding found_or_not
numbered none rb = not_found
numbered (some seq) rb = found_or_not (get seq rb)

stem : Option Text → Option Text
stem none = none
stem (some s) = cut_suffix (text ".ts") s

segment_of : Option Text → RingBuffer → Response
unfolding numbered
segment_of none rb = not_found
segment_of (some s) rb = numbered (parse_uint s) rb

-- The handler of `/` with the segment handler: the slice between prefix and suffix is in range, as
-- the path has both and they do not overlap.
unfoldable pub segment_handler : Text → RingBuffer → Response
unfolding segment_of stem
segment_handler path rb = segment_of (stem (cut_prefix (text "/seg_") path)) rb

-- `GetActualSegmentDuration` of the encoder, if it is positive.
unfoldable pub ingest_duration : Option Float64 → Float64
ingest_duration none = nominal
ingest_duration (some d) = if positive d then d else nominal

ingest_segment : Option ℕ → Option (List ℕ) → (ℕ → Option Float64) → ℕ → RingBuffer → ℕ × RingBuffer
unfolding ingest_duration
ingest_segment none body durations now rb = (404, rb)
ingest_segment (some seq) none durations now rb = (400, rb)
ingest_segment (some seq) (some payload) durations now rb =
    (202, write_at seq payload 0 (ingest_duration (durations seq)) now rb)

-- `IngestHandler`: the status, and the buffer; the body is `none` where reading it fails.
unfoldable pub ingest_handler :
    Text → Text → Option (List ℕ) → (ℕ → Option Float64) → ℕ → RingBuffer → ℕ × RingBuffer
unfolding ingest_segment
ingest_handler method path body durations now rb =
    if not (method == text "PUT") && not (method == text "POST")
    then (405, rb)
    else ingest_segment (parse_uint (trim_suffix (text ".ts") (trim_prefix (text "/ingest/") path)))
        body durations now rb

-- What is sent to the client of a service that is live.
pub record StreamStatus : Type 0 where
  pub sequence : ℕ
  pub is_live : Bool

-- A tick of `StartStatusTicker`.
status_tick : RingBuffer → Option StreamStatus
status_tick rb =
    let (base, segs) = snapshot rb in
    if base == 0 then none else some (record { sequence = base; is_live = true })
