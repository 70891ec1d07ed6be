-- ===== src/Hls/Monitor/Playlist.antt =====
-- What the parser of the monitor makes of a playlist (internal/media/hls.go, m3u8_monitor.go).
use p2ptogether.Prelude.{
  ℕ, suc, ◌+◌, ◌-◌, ◌^◌, ◌≤◌, ◌≡◌, ◌≢◌, All, refl, arith, true, false, Bool, Option, none, some,
  List, [], ◌∷◌, ◌++◌, length, get_elem?, ltb, nat_eq, if◌then◌else◌, ap, ◌∙◌, inl, inr,
}
use mathlib.Core.List.{append_assoc}
use p2ptogether.Prelude.Maps.{Map, lookup, insert, lookup-insert, Unique, insert-Unique}
use p2ptogether.Names.{Text, text, is_space, trim_left, trim_right, trim_space}
use p2ptogether.Names.Decimal.{max_u32, format_uint, cut_prefix}
use p2ptogether.Ring.{Float64, Segment, u32}
use p2ptogether.Hls.{FloatText, IsFinite, infinity, duration_to_use, segment_lines, playlist_text}
use p2ptogether.Hls.Monitor.{
  Monitor, Scan, lines, file_line, scan_lines, scan_line, parse_playlist, get_segment_duration,
  sequence_line, other_line, media_sequence, media_digits, extinf, extinf_number, is_file_line,
}
use p2ptogether.Hls.Monitor.Lines.{
  lines-Solid, sequence_text, sequence_text-Solid, file_text, file_text-Solid, extinf_text,
  extinf_text-Solid, scan_line-sequence, scan_line-extinf, scan_line-file,
}
use p2ptogether.Hls.Monitor.Merge.{or_else, lookup-merge, or_else-if, position}

abbrev pub NotInfinite : Segment → Type 0
NotInfinite s = s.actual_duration ≢ infinity

duration_to_use-IsFinite : (s : Segment) → NotInfinite s → IsFinite (duration_to_use s)
unfolding duration_to_use
duration_to_use-IsFinite s h = ground arith

module _ ⦃float : FloatText⦄ where
  abbrev pub read_back : Option Segment → Option Float64
  read_back none = none
  read_back (some s) = some (float.rounded (duration_to_use s))

  abbrev pub after_file : Float64 → Scan → Scan
  after_file d scan = record scan {
    found = insert (u32 (scan.latest_base + u32 scan.index)) d scan.found;
    pending = none;
    index = scan.index + 1;
  }

  filled : List Segment → Scan → Scan
  filled [] scan = scan
  filled (s ∷ segs) scan = filled segs (after_file (float.rounded (duration_to_use s)) scan)

  segment_text :
      (number seq rest : Text)
      → text "#EXTINF:" ++ number ++ text ",\n" ++ text "seg_" ++ seq ++ text ".ts\n" ++ rest
        ≡ (text "#EXTINF:" ++ number ++ text ",")
          ++ 10 ∷ ((text "seg_" ++ seq ++ text ".ts") ++ 10 ∷ rest)
  segment_text number seq rest = simp (append_assoc)

  lines-segment :
      (s : Segment) (segs : List Segment)
      → NotInfinite s
      → lines (segment_lines (s ∷ segs))
        ≡ extinf_text (duration_to_use s) ∷ file_text s.seq ∷ lines (segment_lines segs)
  unfolding segment_lines
  lines-segment s segs f =
      let d = duration_to_use s in
      ap lines (segment_text (float.format d) (format_uint s.seq) (segment_lines segs))
      ∙ lines-Solid (extinf_text d) (file_text s.seq ++ 10 ∷ segment_lines segs)
          (extinf_text-Solid d (duration_to_use-IsFinite s f))
      ∙ ap (λ ls. extinf_text d ∷ ls)
          (lines-Solid (file_text s.seq) (segment_lines segs) (file_text-Solid s.seq))

  scan_line-nil : (scan : Scan) → scan_line [] scan ≡ scan
  unfolding scan_line sequence_line other_line media_sequence media_digits extinf extinf_number
      cut_prefix is_file_line trim_space trim_left trim_right
  scan_line-nil scan = refl

  scan_lines-segments :
      (segs : List Segment) (scan : Scan)
      → All NotInfinite segs
      → scan.pending ≡ none
      → scan_lines (lines (segment_lines segs)) scan ≡ filled segs scan
  unfolding filled scan_lines file_line
  scan_lines-segments [] scan f h = unfold segment_lines lines scan_line in scan_line-nil scan
  scan_lines-segments (s ∷ segs) scan f h =
      let d = duration_to_use s in
      let rest = lines (segment_lines segs) in
      ap (λ ls. scan_lines ls scan) (lines-segment s segs f.0)
      ∙ ap (λ m. scan_lines rest (scan_line (file_text s.seq) m))
          (scan_line-extinf d scan (duration_to_use-IsFinite s f.0))
      ∙ ap (scan_lines rest) (scan_line-file s.seq _)
      ∙ scan_lines-segments segs (after_file (float.rounded d) scan) f.1 refl

  looked_up_step :
      (k first next key : ℕ) (s : Segment) (segs : List Segment) (found : Map ℕ Float64)
      → next ≡ first + 1
      → key ≡ first
      → let found' = insert key (float.rounded (duration_to_use s)) found in
        (if ltb k next
          then lookup k found'
          else or_else (read_back (get_elem? segs (k - next))) (lookup k found'))
        ≡ (if ltb k first
            then lookup k found
            else or_else (read_back (get_elem? (s ∷ segs) (k - first))) (lookup k found))
  looked_up_step k first next key s segs found e e' =
      let inserted = lookup-insert key k (float.rounded (duration_to_use s)) found in
      let d = float.rounded (duration_to_use s) in
      elim (position k first) [
        | inl below ↦ ground (arith, inserted)
        | inr (inl same) ↦
            (let zero_left : k - first ≡ 0 = omega arith in rw zero_left (ground (arith, inserted)))
        | inr (inr (n, far)) ↦
            (let left : k - first ≡ suc n = omega arith in
              let left' : k - next ≡ n = omega arith in rw (left, left') (ground (arith, inserted)))
      ]

  record Filled (segs : List Segment) (scan after : Scan) : Type 0 where
    same_base : after.latest_base ≡ scan.latest_base
    unique : Unique after.found
    looked_up :
        (k : ℕ)
        → lookup k after.found ≡ (
            let first = scan.latest_base + scan.index in
            if ltb k first
            then lookup k scan.found
            else or_else (read_back (get_elem? segs (k - first))) (lookup k scan.found))

  filled-Filled :
      (segs : List Segment) (scan : Scan)
      → scan.latest_base + scan.index + length segs ≤ 2 ^ 32
      → Unique scan.found
      → Filled segs scan (filled segs scan)
  unfolding filled
  filled-Filled [] scan fits u = record {
    same_base = refl;
    unique = u;
    looked_up = λ k. ground arith;
  }
  filled-Filled (s ∷ segs) scan fits u =
      let d = float.rounded (duration_to_use s) in
      let f =
        filled-Filled segs (after_file d scan) (omega arith) (insert-Unique _ d scan.found u) in
      let in_u32 : u32 (scan.latest_base + u32 scan.index) ≡ scan.latest_base + scan.index =
        omega arith in
      record {
        same_base = f.same_base;
        unique = f.unique;
        looked_up = λ k.
            f.looked_up k
            ∙ looked_up_step k (scan.latest_base + scan.index) _ _ s segs scan.found (omega arith)
                in_u32;
      }

  abbrev head_text : Text
  head_text =
      text
        "#EXTM3U\n#EXT-X-VERSION:3\n#EXT-X-PLAYLIST-TYPE:EVENT\n#EXT-X-START:TIME-OFFSET=0,PRECISE=YES\n#EXT-X-TARGETDURATION:2\n"

  playlist_parts :
      (base : ℕ) (pending : Bool) (segs : List Segment)
      → playlist_text base pending segs
        ≡ head_text
          ++ (sequence_text base
              ++ 10
                ∷ ((if pending then text "#EXT-X-DISCONTINUITY\n" else []) ++ segment_lines segs))
  unfolding playlist_text
  playlist_parts base pending segs = simp (append_assoc)

  scan_lines-head :
      (s : Text) (scan : Scan)
      → scan_lines (lines (head_text ++ s)) scan ≡ scan_lines (lines s) scan
  unfolding scan_lines lines scan_line sequence_line other_line media_sequence media_digits extinf
      extinf_number cut_prefix is_file_line trim_space trim_left trim_right is_space
  scan_lines-head s scan = refl

  scan_lines-mark :
      (pending : Bool) (s : Text) (scan : Scan)
      → scan_lines (lines ((if pending then text "#EXT-X-DISCONTINUITY\n" else []) ++ s)) scan
        ≡ scan_lines (lines s) scan
  unfolding scan_lines lines scan_line sequence_line other_line media_sequence media_digits extinf
      extinf_number cut_prefix is_file_line trim_space trim_left trim_right is_space
  scan_lines-mark true s scan = refl
  scan_lines-mark false s scan = refl

  scan_lines-playlist :
      (base : ℕ) (pending : Bool) (segs : List Segment) (scan : Scan)
      → All NotInfinite segs
      → base ≤ max_u32
      → scan.pending ≡ none
      → scan_lines (lines (playlist_text base pending segs)) scan
        ≡ filled segs (record scan { latest_base = base; index = 0 })
  unfolding scan_lines
  scan_lines-playlist base pending segs scan f h e =
      let mark = (if pending then text "#EXT-X-DISCONTINUITY\n" else []) ++ segment_lines segs in
      let started : Scan = record scan { latest_base = base; index = 0 } in
      ap (λ t. scan_lines (lines t) scan) (playlist_parts base pending segs)
      ∙ scan_lines-head (sequence_text base ++ 10 ∷ mark) scan
      ∙ ap (λ ls. scan_lines ls scan)
          (lines-Solid (sequence_text base) mark (sequence_text-Solid base))
      ∙ ap (scan_lines (lines mark)) (scan_line-sequence base scan h)
      ∙ scan_lines-mark pending (segment_lines segs) started
      ∙ scan_lines-segments segs started f e

  -- The parser of the monitor, which the service runs on the playlist file of ffmpeg, reads a text in
  -- the form that the HLS handler prints, with or without a discontinuity mark, as it was meant: its
  -- base becomes that of the text, a number of the text gets the duration printed for its segment,
  -- rounded as print and parse round it, and every other number keeps what was known. No duration is
  -- infinite, and the base and the numbers of the text fit uint32.
  pub parse_playlist-playlist_text :
      (base : ℕ) (pending : Bool) (segs : List Segment) (m : Monitor)
      → All NotInfinite segs
      → base ≤ max_u32
      → base + length segs ≤ 2 ^ 32
      → let after = parse_playlist (some (playlist_text base pending segs)) m in
        (after.current_media_base ≡ base)
        × ((k : ℕ)
            → get_segment_duration k after ≡ (
                if ltb k base
                then get_segment_duration k m
                else or_else (read_back (get_elem? segs (k - base))) (get_segment_duration k m)))
  unfolding parse_playlist get_segment_duration lookup
  parse_playlist-playlist_text base pending segs m finite small fits =
      let start : Scan = record {
        latest_base = m.ffmpeg_start_num;
        index = 0;
        pending = none;
        found = [];
      } in
      let begun : Scan = record start { latest_base = base } in
      let zero_index : base + 0 ≡ base = omega arith in
      let f = filled-Filled segs begun (omega arith) tt in
      rw (scan_lines-playlist base pending segs start finite small refl) (
        f.same_base,
        λ k.
            lookup-merge k (filled segs begun).found m.segment_durations f.unique
            ∙ ap (λ o. or_else o (lookup k m.segment_durations)) (f.looked_up k)
            ∙ rw (zero_index) (
                or_else-if (ltb k base) (read_back (get_elem? segs (k - base)))
                  (lookup k m.segment_durations)),
      )
