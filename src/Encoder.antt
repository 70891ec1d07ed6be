-- ===== src/Encoder.antt =====
-- peer_service/internal/media/encoder.go: the arguments with which ffmpeg is run, and how
-- encode_runner.go fills them.
--
-- A stream of ffmpeg-go is the record of what it is built from; its keyword arguments are a map. An
-- int that is printed here is below 2^32 in size. `math.Round` of a whole number is that number.
pub mod Put
use p2ptogether.Prelude.{ℕ, suc, ◌+◌, ◌-◌, ◌*◌, Bool, false, List, [], ◌∷◌, ◌++◌, if◌then◌else◌}
use p2ptogether.Prelude.Int.{ℤ, pos, negsuc}
use p2ptogether.Prelude.Maps.{Map}
use p2ptogether.Names.{Text, text}
use p2ptogether.Names.Decimal.{format_uint}

pub record Config : Type 0 where
  pub input : Text
  pub real_time : Bool
  pub segment_seconds : ℤ
  pub video_preset : Text
  pub tune : Text
  pub audio_bitrate : Text
  pub gop_ceiling : ℤ
  pub hls_ingest_url : Text
  pub playlist_path : Text

-- `ffmpeg.Stream`
pub record Stream : Type 0 where
  pub input : Text
  pub input_args : Map Text Text
  pub output : Text
  pub output_args : Map Text Text
  pub global_args : List Text

unfoldable pub default_config : Text → Text → Text → Config
default_config input hls_ingest_url playlist_path = record {
  input = input;
  real_time = false;
  segment_seconds = pos 2;
  video_preset = text "veryfast";
  tune = text "zerolatency";
  audio_bitrate = text "128k";
  gop_ceiling = pos 240;
  hls_ingest_url = hls_ingest_url;
  playlist_path = playlist_path;
}

-- `%d` of an int.
unfoldable pub format_int : ℤ → Text
format_int (pos n) = format_uint n
format_int (negsuc n) = b'-' ∷ format_uint (suc n)

frames : ℤ → ℤ
frames (pos seconds) = pos (120 * seconds)
frames (negsuc n) = negsuc (120 * suc n - 1)

-- The ceiling, or a number of frames where it is not above zero.
unfoldable pub gop_or_default : ℤ → ℤ → ℤ
unfolding frames
gop_or_default (pos (suc n)) seconds = pos (suc n)
gop_or_default ceiling seconds = frames seconds

segment_filename_pattern : Config → Text
segment_filename_pattern cfg = cfg.hls_ingest_url ++ text "/ingest/%06d.ts"

force_expr : Config → Text
unfolding format_int
force_expr cfg = text "expr:gte(t,n_forced*" ++ format_int cfg.segment_seconds ++ text ")"

unfoldable pub build_hls_stream_for_http_output : Config → ℕ → Stream
unfolding gop_or_default segment_filename_pattern force_expr format_int
build_hls_stream_for_http_output cfg seq_base =
    let gop = format_int (gop_or_default cfg.gop_ceiling cfg.segment_seconds) in
    record {
      input = cfg.input;
      input_args = if cfg.real_time then (text "re", []) ∷ [] else [];
      output = cfg.playlist_path;
      output_args =
          (text "f", text "hls")
          ∷ (text "hls_time", format_int cfg.segment_seconds)
          ∷ (text "hls_list_size", text "0")
          ∷ (text "hls_flags", text "independent_segments+omit_endlist")
          ∷ (text "start_number", format_uint seq_base)
          ∷ (text "hls_segment_filename", segment_filename_pattern cfg)
          ∷ (text "method", text "PUT")
          ∷ (text "c:v", text "libx264")
          ∷ (text "preset", cfg.video_preset)
          ∷ (text "tune", cfg.tune)
          ∷ (text "force_key_frames", force_expr cfg)
          ∷ (text "g", gop)
          ∷ (text "keyint_min", gop)
          ∷ (text "sc_threshold", text "0")
          ∷ (text "c:a", text "aac")
          ∷ (text "b:a", cfg.audio_bitrate)
          ∷ [];
      global_args = text "-hide_banner" ∷ [];
    }

-- `join` is `filepath.Join` behind the temporary directory, and `nanos` the time as it is printed.
unfoldable pub generate_temp_playlist_path : (Text → Text) → Text → ℕ → Text
generate_temp_playlist_path join nanos seq_base =
    join (text "p2ptogether-master-" ++ format_uint seq_base ++ text "-" ++ nanos ++ text ".m3u8")

unfoldable pub ingest_base_url : ℤ → Text
unfolding format_int
ingest_base_url hls_port = text "http://127.0.0.1:" ++ format_int hls_port

-- What one round of `Start` builds.
unfoldable pub stream_of_task : (Text → Text) → Text → ℤ → Text → ℕ → Stream
unfolding ingest_base_url default_config generate_temp_playlist_path
    build_hls_stream_for_http_output
stream_of_task join nanos hls_port file_path seq_base =
    let cfg = default_config file_path (ingest_base_url hls_port) [] in
    build_hls_stream_for_http_output
      (record cfg { playlist_path = generate_temp_playlist_path join nanos seq_base }) seq_base
