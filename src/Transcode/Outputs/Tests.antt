-- ===== src/Transcode/Outputs/Tests.antt =====
-- The files of one session.
use webrtc_hls_pipeline.Prelude.{
  ℕ, zero, suc, ◌≡◌, refl, true, [], ◌∷◌, ◌++◌, some, if◌then◌else◌, ◌==◌,
}
use webrtc_hls_pipeline.Text.{Bytes, codes, has_prefix}
use webrtc_hls_pipeline.Text.Paths.{join_path}
use webrtc_hls_pipeline.Hls.Segments.{file, segment_headers, serve_segments}
use webrtc_hls_pipeline.Hls.Vod.{is_variant}
use webrtc_hls_pipeline.Recording.Worker.{is_segment}
use webrtc_hls_pipeline.Transcode.Outputs.{
  get_segment_dir, build_ffmpeg_args, segment_name, playlist_name,
}
use webrtc_hls_pipeline.Transcode.Outputs.Names.{argument_after, last_argument, outputs-served}

outputs_code : Unit {0}
unfolding has_prefix join_path serve_segments get_segment_dir build_ffmpeg_args segment_name
    playlist_name is_segment segment_headers
outputs_code = tt

-- Replaces the two patterns; `skip` bytes belong to one that was replaced.
abbrev fill : Bytes → Bytes → ℕ → Bytes → Bytes
fill v n skip [] = []
fill v n (suc skip) (x ∷ xs) = fill v n skip xs
fill v n zero (x ∷ xs) =
    let after_v = fill v n 1 xs in
    let after_n = fill v n 3 xs in
    let rest = fill v n 0 xs in
    if has_prefix (x ∷ xs) (codes "%v")
    then v ++ after_v
    else if has_prefix (x ∷ xs) (codes "%03d")
    then n ++ after_n
    else x ∷ rest

abbrev expand : Bytes → Bytes
expand = fill (codes "0") (codes "007") 0

abbrev out : Bytes
out = get_segment_dir (codes "./segments") (codes "4f2a")

out-clean : out ≡ codes "segments/4f2a"
unfolding outputs_code
out-clean = refl

expand-segment :
    expand (join_path (out ∷ codes "stream_%v_%03d.ts" ∷ []))
    ≡ join_path (out ∷ segment_name 0 (codes "007") ∷ [])
unfolding outputs_code
expand-segment = refl

expand-playlist :
    expand (join_path (out ∷ codes "stream_%v.m3u8" ∷ [])) ≡ join_path (out ∷ playlist_name 0 ∷ [])
unfolding outputs_code
expand-playlist = refl

outputs-served_example :
    ((template : Bytes) × (argument_after (codes "-hls_segment_filename") (build_ffmpeg_args out)
        ≡ some template)
      × (serve_segments (codes "./segments") (codes "4f2a") (segment_name 0 (codes "007"))
          ≡ file (expand template) (segment_headers (segment_name 0 (codes "007")))))
    × ((template : Bytes) × (last_argument (build_ffmpeg_args out) ≡ some template)
        × (serve_segments (codes "./segments") (codes "4f2a") (playlist_name 0)
            ≡ file (expand template) (segment_headers (playlist_name 0))))
    × (is_variant (playlist_name 0) ≡ true)
    × (is_segment (segment_name 0 (codes "007")) ≡ (0 == 0))
outputs-served_example =
    outputs-served b'.' (codes "/segments") (codes "4f2a") 0 (codes "007") expand refl
      (refl, (refl, (refl, tt))) expand-segment expand-playlist
