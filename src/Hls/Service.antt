-- ===== src/Hls/Service.antt =====
-- A segment that the encoder puts under its padded number is served under the number of the playlist
-- (internal/media/hls.go, ingest.go).
use p2ptogether.Prelude.{
  ℕ, ◌+◌, ◌^◌, ◌≤◌, ◌<◌, ◌≡◌, refl, arith, Bool, Option, none, some, List, ◌++◌, ltb, ◌==◌, nat_eq,
  if◌then◌else◌, list_eq,
}
use p2ptogether.Names.{Text, text, is_empty}
use p2ptogether.Names.Decimal.{format_uint, format_padded, max_u32}
use p2ptogether.Names.Decimal.RoundTrip.{parse_uint-format_uint, parse_uint-format_padded}
use p2ptogether.Names.Decimal.Affixes.{cut_prefix-append, cut_suffix-append}
use p2ptogether.Ring.{Float64, Segment, RingBuffer, find, get, write_at}
use p2ptogether.Ring.Window.{IsValid}
use p2ptogether.Ring.Lookup.{find-write_at}
use p2ptogether.Hls.{
  Response, not_found, found_or_not, numbered, stem, segment_of, segment_handler, ingest_duration,
  ingest_segment, ingest_handler,
}

-- The path of a segment in the playlist.
abbrev pub segment_path : ℕ → Text
segment_path seq = text "/seg_" ++ format_uint seq ++ text ".ts"

-- The path where ffmpeg puts a segment, `/ingest/%06d.ts`.
abbrev pub ingest_path : ℕ → Text
ingest_path seq = text "/ingest/" ++ format_padded seq ++ text ".ts"

segment_handler-path :
    (seq : ℕ) (rb : RingBuffer)
    → seq ≤ max_u32
    → segment_handler (segment_path seq) rb ≡ found_or_not (get seq rb)
unfolding segment_handler segment_of numbered stem
segment_handler-path seq rb h =
    rw
      (
        cut_prefix-append (text "/seg_") (format_uint seq ++ text ".ts"),
        cut_suffix-append (format_uint seq) (text ".ts") (λ e. cc),
        parse_uint-format_uint seq h,
      )
      refl

ingest_handler-path :
    (seq : ℕ) (payload : List ℕ) (durations : ℕ → Option Float64) (now : ℕ) (rb : RingBuffer)
    → seq ≤ max_u32
    → ingest_handler (text "PUT") (ingest_path seq) (some payload) durations now rb
      ≡ (202, write_at seq payload 0 (ingest_duration (durations seq)) now rb)
unfolding ingest_handler ingest_segment
ingest_handler-path seq payload durations now rb h =
    rw
      (
        cut_prefix-append (text "/ingest/") (format_padded seq ++ text ".ts"),
        cut_suffix-append (format_padded seq) (text ".ts") (λ e. cc),
        parse_uint-format_padded seq h,
      )
      refl

-- What is served for a stored segment.
abbrev pub served : List ℕ → Response
served payload = if is_empty payload then not_found else record { status = 200; body = payload }

found_or_not-get :
    (j : ℕ) (new : Segment) (rb after : RingBuffer) (evicted here : Bool)
    → find j after ≡ (
        if evicted
        then none
        else if here
        then (if is_empty new.payload then none else some new)
        else find j rb)
    → found_or_not (get j after) ≡ (
        if evicted then not_found else if here then served new.payload else found_or_not (get j rb))
unfolding get found_or_not
found_or_not-get j new rb after evicted here e = rw e (ground arith)

-- ffmpeg's PUT of a segment under its padded number is accepted, and then the path of a number
-- answers with the bytes of that segment if it is the number put, and as before otherwise; below
-- the base of the window, and for an empty body, the answer is 404. The number put is below 2^32 - 1,
-- the other fits uint32, and the buffer is valid.
pub segment_handler-ingest_handler :
    (j seq : ℕ) (payload : List ℕ) (durations : ℕ → Option Float64) (now : ℕ) (rb : RingBuffer)
    → IsValid rb
    → j ≤ max_u32
    → seq + 1 < 2 ^ 32
    → let (status, after) =
        ingest_handler (text "PUT") (ingest_path seq) (some payload) durations now rb in
      (status ≡ 202)
      × (segment_handler (segment_path j) after ≡ (
          if ltb j after.base_seq
          then not_found
          else if j == seq
          then served payload
          else segment_handler (segment_path j) rb))
segment_handler-ingest_handler j seq payload durations now rb v small fits =
    let new : Segment = record {
      seq = seq;
      payload = payload;
      pts = 0;
      time = now;
      actual_duration = ingest_duration (durations seq);
    } in
    let after = write_at seq payload 0 new.actual_duration now rb in
    rw
      (
        ingest_handler-path seq payload durations now rb (omega arith),
        segment_handler-path j after small,
        segment_handler-path j rb small,
      )
      (
        refl,
        found_or_not-get j new rb after (ltb j after.base_seq) (j == seq)
            (find-write_at j new rb v fits),
      )
