-- ===== src/Transcode/Outputs.antt =====
-- `GetSegmentDir` and `buildFFmpegArgs` of internal/transcode/ffmpeg.go, with FFmpeg's names for what
-- it writes.
pub mod Names
mod Tests
use webrtc_hls_pipeline.Prelude.{
  ℕ, ◌+◌, Option, none, some, List, [], ◌∷◌, ◌++◌, if◌then◌else◌, map, String,
}
use webrtc_hls_pipeline.Text.{Bytes, codes, bytes_eq}
use webrtc_hls_pipeline.Text.Paths.{join_path}

unfoldable pub get_segment_dir : Bytes → Bytes → Bytes
unfolding join_path
get_segment_dir segment_dir session_id = join_path (segment_dir ∷ session_id ∷ [])

abbrev pub input_args : List String
input_args =
    "-y" ∷ "-hide_banner" ∷ "-loglevel" ∷ "warning" ∷ "-err_detect" ∷ "ignore_err" ∷ "-framerate"
    ∷ "30" ∷ "-f" ∷ "h264" ∷ "-fflags" ∷ "+discardcorrupt" ∷ "-i" ∷ "pipe:0" ∷ []

abbrev pub filter_args : List String
filter_args =
    "-filter_complex"
    ∷ "[0:v]split=3[v720][v480][v360];[v720]scale=1280:720[v720out];[v480]scale=854:480[v480out];[v360]scale=640:360[v360out]"
    ∷ []

abbrev pub variant_args : String → String → String → String → String → List String
variant_args pad codec_flag rate_flag codec rate =
    "-map" ∷ pad ∷ codec_flag ∷ codec ∷ rate_flag ∷ rate ∷ "-preset" ∷ "veryfast" ∷ "-g" ∷ "48"
    ∷ "-keyint_min" ∷ "48" ∷ []

abbrev pub hls_args : List String
hls_args =
    "-f" ∷ "hls" ∷ "-hls_time" ∷ "2" ∷ "-hls_list_size" ∷ "5" ∷ "-hls_flags"
    ∷ "delete_segments+independent_segments" ∷ []

unfoldable pub build_ffmpeg_args : Bytes → List Bytes
unfolding join_path
build_ffmpeg_args out_dir =
    map codes (
      input_args
      ++ filter_args
      ++ variant_args "[v720out]" "-c:v:0" "-b:v:0" "libx264" "2500k"
      ++ variant_args "[v480out]" "-c:v:1" "-b:v:1" "libx264" "1000k"
      ++ variant_args "[v360out]" "-c:v:2" "-b:v:2" "libx264" "500k"
      ++ hls_args)
    ++ codes "-hls_segment_filename"
      ∷ join_path (out_dir ∷ codes "stream_%v_%03d.ts" ∷ [])
      ∷ codes "-var_stream_map"
      ∷ codes "v:0 v:1 v:2"
      ∷ codes "-master_pl_name"
      ∷ codes "master.m3u8"
      ∷ join_path (out_dir ∷ codes "stream_%v.m3u8" ∷ [])
      ∷ []

-- The names of a variant's segment with these digits, and of its playlist.
unfoldable pub segment_name : ℕ → Bytes → Bytes
segment_name v n = codes "stream_" ++ (b'0' + v) ∷ b'_' ∷ (n ++ codes ".ts")

unfoldable pub playlist_name : ℕ → Bytes
playlist_name v = codes "stream_" ++ (b'0' + v) ∷ codes ".m3u8"
