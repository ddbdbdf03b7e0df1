-- ===== src/Transcode/Outputs/Names.antt =====
-- The files that FFmpeg writes are those that the other parts read.
use webrtc_hls_pipeline.Prelude.{
  ℕ, ◌+◌, ◌≤◌, ◌≡◌, refl, ap, sym, ◌∙◌, true, false, ◌&&◌, ◌||◌, Option, none, some, List, [], ◌∷◌,
  ◌++◌, count, AllPass, leb, arith, if◌then◌else◌, ◌==◌,
}
use webrtc_hls_pipeline.Text.{Bytes, codes, bytes_eq, contains, has_prefix, has_suffix}
use webrtc_hls_pipeline.Text.Laws.{has_suffix-append}
use webrtc_hls_pipeline.Text.Paths.{join_path, dot_dot, contains_dot_dot}
use webrtc_hls_pipeline.Text.Paths.Cleaning.{join_path-join_path}
use webrtc_hls_pipeline.Hls.Segments.{
  file, is_valid_segment_path, segment_headers, url_path, serve_segments,
}
use webrtc_hls_pipeline.Hls.Vod.{is_variant}
use webrtc_hls_pipeline.Recording.Worker.{is_segment}
use webrtc_hls_pipeline.Transcode.Outputs.{
  get_segment_dir, build_ffmpeg_args, segment_name, playlist_name,
}

-- The argument after a flag.
abbrev pub argument_after : Bytes → List Bytes → Option Bytes
argument_after flag [] = none
argument_after flag (x ∷ []) = none
argument_after flag (x ∷ y ∷ rest) =
    let later = argument_after flag (y ∷ rest) in if bytes_eq x flag then some y else later

abbrev pub last_argument : List Bytes → Option Bytes
last_argument [] = none
last_argument (x ∷ []) = some x
last_argument (x ∷ y ∷ rest) = last_argument (y ∷ rest)

segment_template :
    (out : Bytes)
    → argument_after (codes "-hls_segment_filename") (build_ffmpeg_args out)
      ≡ some (join_path (out ∷ codes "stream_%v_%03d.ts" ∷ []))
unfolding build_ffmpeg_args
segment_template out = refl

playlist_template :
    (out : Bytes)
    → last_argument (build_ffmpeg_args out) ≡ some (join_path (out ∷ codes "stream_%v.m3u8" ∷ []))
unfolding build_ffmpeg_args
playlist_template out = refl

count-append : (a : ℕ) (xs ys : Bytes) → count a (xs ++ ys) ≡ count a xs + count a ys
count-append a [] ys = ground arith
count-append a (x ∷ xs) ys = ground (arith, count-append a xs ys)

-- A text with one dot at most has no `..`.
one_dot : (s : Bytes) → count b'.' s ≤ 1 → contains s dot_dot ≡ false
unfolding contains has_prefix
one_dot [] h = refl
one_dot (x ∷ []) h = ground (arith, h)
one_dot (x ∷ y ∷ s) h = ground (arith, h, one_dot (y ∷ s))

abbrev pub AreDigits : Bytes → Type 0
AreDigits = AllPass (λ b. leb b'0' b && leb b b'9')

count-AreDigits : (n : Bytes) → AreDigits n → count b'.' n ≡ 0
count-AreDigits [] a = refl
count-AreDigits (b ∷ n) a = ground (arith, a.0, count-AreDigits n a.1)

dots-segment_name : (v : ℕ) (n : Bytes) → AreDigits n → count b'.' (segment_name v n) ≡ 1
unfolding segment_name
dots-segment_name v n a = ground (arith, count-append b'.' n (codes ".ts"), count-AreDigits n a)

dots-playlist_name : (v : ℕ) → count b'.' (playlist_name v) ≡ 1
unfolding playlist_name
dots-playlist_name v = ground arith

module _ (d : ℕ) (ds session_id : Bytes) (plain : count b'.' session_id ≡ 0) where
  -- A file whose name has one dot and an ending that the handler takes is served.
  pub served :
      (name : Bytes)
      → count b'.' name ≡ 1
      → (has_suffix name (codes ".m3u8") || has_suffix name (codes ".ts")) ≡ true
      → serve_segments (d ∷ ds) session_id name
        ≡ file (join_path (get_segment_dir (d ∷ ds) session_id ∷ name ∷ [])) (segment_headers name)
  unfolding serve_segments is_valid_segment_path get_segment_dir url_path contains_dot_dot
  served name dots ending =
      let no_dots = one_dot name (omega (arith, dots)) in
      let dots_url : count b'.' (url_path session_id name) ≤ 1 =
        ground (arith, plain, dots, count-append b'.' session_id (b'/' ∷ name)) in
      let url : contains_dot_dot (url_path session_id name) ≡ false =
        ground (arith, one_dot (url_path session_id name) dots_url) in
      let fine : is_valid_segment_path name ≡ true = ground (arith, no_dots, ending) in
      let direct : serve_segments (d ∷ ds) session_id name
          ≡ file (join_path ((d ∷ ds) ∷ session_id ∷ name ∷ [])) (segment_headers name) =
        ground (arith, url, fine) in
      direct
      ∙ ap (λ p. file p (segment_headers name)) (sym (join_path-join_path d ds session_id name))

suffix-segment_name : (v : ℕ) (n : Bytes) → has_suffix (segment_name v n) (codes ".ts") ≡ true
unfolding segment_name
suffix-segment_name v n = has_suffix-append (codes "stream_" ++ (b'0' + v) ∷ b'_' ∷ n) (codes ".ts")

suffix-playlist_name : (v : ℕ) → has_suffix (playlist_name v) (codes ".m3u8") ≡ true
unfolding playlist_name
suffix-playlist_name v = has_suffix-append (codes "stream_" ++ (b'0' + v) ∷ []) (codes ".m3u8")

-- The worker joins the segments of the first variant alone.
is_segment-segment_name : (v : ℕ) (n : Bytes) → is_segment (segment_name v n) ≡ (v == 0)
unfolding is_segment segment_name has_prefix
is_segment-segment_name v n = ground (arith, suffix-segment_name v n)

is_variant-playlist_name : (v : ℕ) → is_variant (playlist_name v) ≡ true
unfolding playlist_name
is_variant-playlist_name v = ground (arith, suffix-playlist_name v)

-- Let FFmpeg replace `%v` in the templates for segments and playlists of its arguments by the index of
-- a variant and `%03d` by digits. Then, for a segment directory that is set and a session whose text
-- has no dot, the segment and the playlist lie at the paths that `ServeSegments` serves for their
-- names, `MarkAsVOD` does not skip the playlist, and the recording worker joins the segment exactly
-- when it is of the first variant.
pub outputs-served :
    (d : ℕ) (ds session_id : Bytes) (v : ℕ) (n : Bytes) (expand : Bytes → Bytes)
    → let out = get_segment_dir (d ∷ ds) session_id in
      count b'.' session_id ≡ 0
      → AreDigits n
      → expand (join_path (out ∷ codes "stream_%v_%03d.ts" ∷ []))
        ≡ join_path (out ∷ segment_name v n ∷ [])
      → expand (join_path (out ∷ codes "stream_%v.m3u8" ∷ []))
        ≡ join_path (out ∷ playlist_name v ∷ [])
      → ((template : Bytes) × (argument_after
              (codes "-hls_segment_filename")
              (build_ffmpeg_args out)
            ≡ some template)
          × (serve_segments (d ∷ ds) session_id (segment_name v n)
              ≡ file (expand template) (segment_headers (segment_name v n))))
        × ((template : Bytes) × (last_argument (build_ffmpeg_args out) ≡ some template)
            × (serve_segments (d ∷ ds) session_id (playlist_name v)
                ≡ file (expand template) (segment_headers (playlist_name v))))
        × (is_variant (playlist_name v) ≡ true)
        × (is_segment (segment_name v n) ≡ (v == 0))
outputs-served d ds session_id v n expand plain digits segment playlist =
    let out = get_segment_dir (d ∷ ds) session_id in
    let at = served d ds session_id plain in
    (
      (
        join_path (out ∷ codes "stream_%v_%03d.ts" ∷ []),
        segment_template out,
        at (segment_name v n) (dots-segment_name v n digits)
              (ground (arith, suffix-segment_name v n))
            ∙ ap (λ p. file p (segment_headers (segment_name v n))) (sym segment),
      ),
      (
        join_path (out ∷ codes "stream_%v.m3u8" ∷ []),
        playlist_template out,
        at (playlist_name v) (dots-playlist_name v) (ground (arith, suffix-playlist_name v))
            ∙ ap (λ p. file p (segment_headers (playlist_name v))) (sym playlist),
      ),
      is_variant-playlist_name v,
      is_segment-segment_name v n,
    )
