-- ===== src/Hls/Segments/Watching.antt =====
-- What a viewer is told, and that the playlist it is sent to is served.
use webrtc_hls_pipeline.Prelude.{
  ℕ, ◌≡◌, refl, ap, ◌∙◌, Bool, true, false, not, ◌||◌, ◌&&◌, some, List, [], ◌∷◌, ◌++◌, any,
  keep_if, arith, if◌then◌else◌, ◌==◌, String, str_eq, is_some, All, Option-cases, inl, inr,
}
use webrtc_hls_pipeline.Text.{Bytes, codes, contains, has_prefix}
use webrtc_hls_pipeline.Text.Paths.{
  split_by, is_slash, dot_dot, is_rooted, elements, render, contains_dot_dot, join_path,
}
use webrtc_hls_pipeline.Text.Paths.Elements.{is_named, is_dot_dot, join_path-elements}
use webrtc_hls_pipeline.Session.{
  Session, is_status, status_live, status_ended, get_by_id, update_status, assign_status,
}
use webrtc_hls_pipeline.Session.Rules.{stored_row_self}
use webrtc_hls_pipeline.Hls.Segments.{
  file, url_path, serve_segments, segment_headers, is_valid_segment_path, error, ok, playlist_url,
  watch_found, handle_watch,
}

assign_status-status :
    (status : String) (now : ℕ) (s : Session) → (assign_status status now s).status ≡ status
unfolding assign_status
assign_status-status status now s = ground arith

-- After a status is stored, a viewer gets the playlist's URL when the session is there and the
-- status is live or ended, and otherwise the answer 404.
pub handle_watch-update_status :
    (uuid_string : ℕ → Bytes) (i : ℕ) (status : String) (now : ℕ) (t : List Session)
    → is_status status ≡ true
    → handle_watch uuid_string true (some i) (update_status true i status now t).table ≡ (
        if is_some (get_by_id true i t)
        then (if str_eq status status_live || str_eq status status_ended
            then ok (codes "{\"hls_url\":\"" ++ playlist_url (uuid_string i) ++ codes "\"}")
            else error 404 "{\"error\":\"stream not available\"}")
        else error 404 "{\"error\":\"session not found\"}")
unfolding handle_watch watch_found
handle_watch-update_status uuid_string i status now t h =
    ap (watch_found (uuid_string i)) (stored_row_self i status now t h)
    ∙ elim (Option-cases (get_by_id true i t)) [
      | inl n ↦ ground (arith, n)
      | inr (s, y) ↦ ground (arith, y, assign_status-status status now s)
    ]

-- The bytes of a UUID's text are neither dots nor slashes.
abbrev pub is_plain : ℕ → Bool
is_plain c = not (c == b'.') && not (c == b'/')

abbrev pub IsPlain : Bytes → Type 0
IsPlain = All (λ c. is_plain c ≡ true)

split_by-plain : (s : Bytes) → IsPlain s → split_by is_slash s ≡ s ∷ []
unfolding split_by
split_by-plain [] h = refl
split_by-plain (c ∷ s) h = ground (arith, h.0, split_by-plain s h.1)

contains-plain : (s t : Bytes) → IsPlain s → contains (s ++ t) dot_dot ≡ contains t dot_dot
unfolding contains has_prefix
contains-plain [] t h = refl
contains-plain (c ∷ s) t h = ground (arith, h.0, contains-plain s t h.1)

plain_url : (id : Bytes) → IsPlain id → contains_dot_dot (url_path id (codes "master.m3u8")) ≡ false
unfolding contains_dot_dot url_path contains has_prefix
plain_url id h = ground (arith, contains-plain id (codes "/master.m3u8") h)

serve_segments-allowed :
    (segment_dir session_id filename : Bytes)
    → is_valid_segment_path filename ≡ true
    → contains_dot_dot (url_path session_id filename) ≡ false
    → serve_segments segment_dir session_id filename
      ≡ file (join_path (segment_dir ∷ session_id ∷ filename ∷ [])) (segment_headers filename)
unfolding serve_segments
serve_segments-allowed segment_dir session_id filename v u = ground (arith, v, u)

-- The playlist that a viewer is sent to is served, from the directory of the session.
pub serve_segments-playlist :
    (d : ℕ) (ds : Bytes) (c : ℕ) (id : Bytes)
    → IsPlain (c ∷ id)
    → (url_path (c ∷ id) (codes "master.m3u8") ≡ playlist_url (c ∷ id))
      × (serve_segments (d ∷ ds) (c ∷ id) (codes "master.m3u8")
          ≡ file
              (render
                (is_rooted (d ∷ ds))
                (elements (d ∷ ds) ++ (c ∷ id) ∷ codes "master.m3u8" ∷ []))
              (segment_headers (codes "master.m3u8")))
unfolding is_valid_segment_path url_path playlist_url split_by
serve_segments-playlist d ds c id h =
    let url = plain_url (c ∷ id) h in
    let named : keep_if is_named ((c ∷ id) ∷ split_by is_slash (codes "master.m3u8"))
        ≡ (c ∷ id) ∷ codes "master.m3u8" ∷ [] =
      ground (arith, h.0) in
    let safe : any is_dot_dot ((c ∷ id) ∷ split_by is_slash (codes "master.m3u8")) ≡ false =
      ground (arith, h.0) in
    let path =
      join_path-elements d ds (c ∷ id) (codes "master.m3u8") (split_by-plain (c ∷ id) h) safe in
    (
      refl,
      serve_segments-allowed (d ∷ ds) (c ∷ id) (codes "master.m3u8") refl url
          ∙ ap (λ p. file p (segment_headers (codes "master.m3u8")))
              (path ∙ ap (λ es. render (is_rooted (d ∷ ds)) (elements (d ∷ ds) ++ es)) named),
    )
