-- ===== src/Hls/Segments/Tests.antt =====
-- Runs of internal/hls/handler.go.
use webrtc_hls_pipeline.Prelude.{ℕ, ◌≡◌, refl, true, List, [], ◌∷◌}
use webrtc_hls_pipeline.Text.{Bytes, codes}
use webrtc_hls_pipeline.Text.Paths.{render}
use webrtc_hls_pipeline.Session.{Session, create, update_status, get_by_id}
use webrtc_hls_pipeline.Hls.Segments.{
  file, not_found, bad_url, serve_segments, segment_headers, handle_watch,
}
use webrtc_hls_pipeline.Hls.Segments.Confined.{IsWithin, serve_segments-IsWithin}

segments_code : Unit {0}
unfolding serve_segments segment_headers render handle_watch update_status get_by_id create
segments_code = tt

abbrev served_path : Bytes
served_path = codes "segments/4f/stream_0_001.ts"

serves_segment :
    serve_segments (codes "./segments") (codes "4f") (codes "stream_0_001.ts")
    ≡ file served_path (segment_headers (codes "stream_0_001.ts"))
unfolding segments_code
serves_segment = refl

refuses_parent : serve_segments (codes "./segments") (codes "..") (codes "a.ts") ≡ bad_url
unfolding segments_code
refuses_parent = refl

refuses_other : serve_segments (codes "./segments") (codes "4f") (codes "concat.txt") ≡ not_found
unfolding segments_code
refuses_other = refl

serve_segments-IsWithin_example :
    IsWithin (codes "./segments") (codes "4f") (codes "stream_0_001.ts") served_path
unfolding segments_code
serve_segments-IsWithin_example =
    serve_segments-IsWithin b'.' (codes "/segments") (codes "4f") (codes "stream_0_001.ts")
      served_path (segment_headers (codes "stream_0_001.ts")) refl refl

abbrev one_session : List Session
one_session = (create true 4 10 10 1 2 "algebra" []).table

abbrev uuid_text : ℕ → Bytes
uuid_text i = b'4' ∷ b'f' ∷ []
