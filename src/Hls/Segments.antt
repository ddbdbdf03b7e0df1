-- ===== src/Hls/Segments.antt =====
-- internal/hls/handler.go. The text of a UUID is the argument `uuid_string`; what the file system
-- holds under a path is left to `http.ServeFile`.
pub mod Confined
pub mod Watching
mod Tests
use webrtc_hls_pipeline.Prelude.{
  ℕ, String, Bool, true, false, not, ◌&&◌, ◌||◌, Option, none, some, List, [], ◌∷◌, ◌++◌, str_eq,
  if◌then◌else◌,
}
use webrtc_hls_pipeline.Text.{Bytes, codes, contains, has_suffix}
use webrtc_hls_pipeline.Text.Paths.{dot_dot, join_path, contains_dot_dot}
use webrtc_hls_pipeline.Session.{Session, get_by_id, status_live, status_ended}

unfoldable pub is_valid_segment_path : Bytes → Bool
unfolding contains has_suffix
is_valid_segment_path path =
    if contains path dot_dot
    then false
    else has_suffix path (codes ".m3u8") || has_suffix path (codes ".ts")

-- The headers that `ServeSegments` sets for a file's name.
unfoldable pub segment_headers : Bytes → List (String × String)
unfolding has_suffix
segment_headers filename =
    let cors : List (String × String) =
      ("Access-Control-Allow-Origin", "*")
      ∷ ("Access-Control-Allow-Methods", "GET, OPTIONS")
      ∷ ("Access-Control-Allow-Headers", "Content-Type")
      ∷ [] in
    if has_suffix filename (codes ".m3u8")
    then cors
      ++ ("Content-Type", "application/vnd.apple.mpegurl")
        ∷ ("Cache-Control", "no-cache, no-store, must-revalidate")
        ∷ []
    else if has_suffix filename (codes ".ts")
    then cors ++ ("Content-Type", "video/mp2t") ∷ ("Cache-Control", "public, max-age=3600") ∷ []
    else cors

-- What a request for a segment comes to: refused by the handler, refused by `http.ServeFile` for
-- the URL, or the file at a path.
pub data Served : Type 0 where
  not_found bad_url : Served
  file : (path : Bytes) → List (String × String) → Served

-- The path of the request's URL, from the parameters of the route.
unfoldable pub url_path : Bytes → Bytes → Bytes
url_path session_id filename = codes "/hls/" ++ session_id ++ b'/' ∷ filename

-- `ServeSegments` for a handler of this directory.
unfoldable pub serve_segments : Bytes → Bytes → Bytes → Served
unfolding is_valid_segment_path segment_headers url_path contains_dot_dot join_path
serve_segments segment_dir session_id filename =
    if not (is_valid_segment_path filename)
    then not_found
    else if contains_dot_dot (url_path session_id filename)
    then bad_url
    else file (join_path (segment_dir ∷ session_id ∷ filename ∷ [])) (segment_headers filename)

-- What `HandleWatch` writes: an error with its status, or the body of the answer 200.
pub data Watch : Type 0 where
  error : ℕ → String → Watch
  ok : (body : Bytes) → Watch

unfoldable pub playlist_url : Bytes → Bytes
playlist_url session_id = codes "/hls/" ++ session_id ++ codes "/master.m3u8"

-- `HandleWatch` after the query, for the text of the session's id.
unfoldable pub watch_found : Bytes → Option Session → Watch
unfolding playlist_url
watch_found session_id none = error 404 "{\"error\":\"session not found\"}"
watch_found session_id (some sess) =
    if not (str_eq sess.status status_live) && not (str_eq sess.status status_ended)
    then error 404 "{\"error\":\"stream not available\"}"
    else ok (codes "{\"hls_url\":\"" ++ playlist_url session_id ++ codes "\"}")

unfoldable pub handle_watch : (ℕ → Bytes) → Bool → Option ℕ → List Session → Watch
unfolding watch_found
handle_watch uuid_string up none t = error 400 "{\"error\":\"invalid session id\"}"
handle_watch uuid_string up (some i) t = watch_found (uuid_string i) (get_by_id up i t)
