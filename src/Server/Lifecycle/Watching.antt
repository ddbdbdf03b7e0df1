-- ===== src/Server/Lifecycle/Watching.antt =====
-- Viewers of a stream, whatever happens to the WHIP endpoint after it connected.
use webrtc_hls_pipeline.Prelude.{
  ℕ, ◌+◌, get_elem?, ◌≡◌, refl, Bool, true, false, not, ◌||◌, Option, none, some, List, [], ◌∷◌,
  ◌++◌, count, ltb, arith, str_eq, of_if, Option-cases, inl, inr,
}
use webrtc_hls_pipeline.Text.{Bytes, codes, has_suffix}
use webrtc_hls_pipeline.Text.Paths.{join_path}
use webrtc_hls_pipeline.Session.{Session, get_by_id, update_status, assign_status}
use webrtc_hls_pipeline.Session.Rules.{get_by_id-update_status}
use webrtc_hls_pipeline.Whip.Handler.{
  Handler, Request, Pion, PeerState, Response, new, connecting, connected, closed, close_connection,
  id_or_zero, exchange, add_stream, register, check_request, handle_whip, on_connected,
  on_disconnected, disconnect_once, change_state,
}
use webrtc_hls_pipeline.Whip.Handler.Requests.{Checked-cases}
use webrtc_hls_pipeline.Whip.Handler.Gauge.{apply}
use webrtc_hls_pipeline.Hls.Segments.{
  Watch, ok, file, url_path, playlist_url, watch_found, handle_watch, serve_segments,
  segment_headers,
}
use webrtc_hls_pipeline.Transcode.Outputs.{get_segment_dir, build_ffmpeg_args}
use webrtc_hls_pipeline.Transcode.Outputs.Names.{served}
use webrtc_hls_pipeline.Server.Lifecycle.{Happening, offers, changes, happen, happen_all}

-- Whether a session is live or ended.
abbrev is_shown : Option Session → Bool
is_shown none = false
is_shown (some s) = str_eq s.status "live" || str_eq s.status "ended"

abbrev IsShown : ℕ → List Session → Type 0
IsShown i t = is_shown (get_by_id true i t) ≡ true

live-IsShown :
    (up : Bool) (i j now : ℕ) (t : List Session)
    → IsShown i t
    → IsShown i (update_status up j "live" now t).table
unfolding assign_status
live-IsShown up i j now t e = ground (arith, e, get_by_id-update_status up j i "live" now t)

ended-IsShown :
    (up : Bool) (i j now : ℕ) (t : List Session)
    → IsShown i t
    → IsShown i (update_status up j "ended" now t).table
unfolding assign_status
ended-IsShown up i j now t e = ground (arith, e, get_by_id-update_status up j i "ended" now t)

connects-IsShown :
    (i now : ℕ) (t : List Session) (row : Session)
    → get_by_id true i t ≡ some row
    → IsShown i (update_status true i "live" now t).table
unfolding assign_status update_status
connects-IsShown i now t row e = ground (arith, e, get_by_id-update_status true i i "live" now t)

change_state-IsShown :
    (up redis_up : Bool) (now a i : ℕ) (st : PeerState) (h : Handler)
    → IsShown i h.table
    → IsShown i (change_state up redis_up now a st h).table
unfolding change_state
change_state-IsShown up redis_up now a i new h e = e
change_state-IsShown up redis_up now a i connecting h e = e
change_state-IsShown up redis_up now a i connected h e =
    unfold on_connected in live-IsShown up i (h.streams a).session_id now h.table e
change_state-IsShown up redis_up now a i _ h e =
    unfold disconnect_once on_disconnected in
    of_if (λ (h' : Handler). IsShown i h'.table) (h.streams a).disconnected _ _ (λ _. e)
      (λ _. ended-IsShown up i (h.streams a).session_id now h.table e)

handle_whip-IsShown :
    (up : Bool) (i : ℕ) (r : Request) (pion : Pion) (h : Handler)
    → IsShown i h.table
    → IsShown i (handle_whip up r pion h).0.table
unfolding add_stream register handle_whip close_connection
handle_whip-IsShown up i r pion h e = elim (Checked-cases (check_request up r h.table)) [
  | inl (err, m) ↦ rw (m, handle_whip) e
  | inr (sess, offer, m) ↦
      rw (m, handle_whip)
        (of_if (λ (x : Handler × Response). IsShown i x.0.table) (not pion.new_peer_connection) _ _
          (λ _. e)
          (λ _. elim (Option-cases (exchange pion offer)) [
            | inl n ↦ rw n e
            | inr (err, n) ↦ rw n (
                change_state-IsShown pion.close_up pion.close_redis_up pion.close_now h.next i
                  closed (add_stream (id_or_zero r.session_id) sess h) e)
          ]))
]

happen-IsShown :
    (i : ℕ) (x : Happening) (h : Handler) → IsShown i h.table → IsShown i (happen x h).table
unfolding happen apply
happen-IsShown i (offers up r pion) h e = handle_whip-IsShown up i r pion h e
happen-IsShown i (changes c) h e =
    of_if (λ (h' : Handler). IsShown i h'.table) (ltb c.stream h.next) _ _
      (λ _. change_state-IsShown c.up c.redis_up c.now c.stream i c.state h e) (λ _. e)

happen_all-IsShown :
    (i : ℕ) (xs : List Happening) (h : Handler)
    → IsShown i h.table
    → IsShown i (happen_all xs h).table
unfolding happen_all
happen_all-IsShown i [] h e = e
happen_all-IsShown i (x ∷ xs) h e = happen_all-IsShown i xs (happen x h) (happen-IsShown i x h e)

abbrev pub master : Bytes
master = codes "master.m3u8"

-- The answer sends the viewer to the URL of the master playlist, which FFmpeg is told to write and
-- which is served from where FFmpeg puts it.
pub record IsWatchable (segment_dir session_id : Bytes) (answer : Watch) : Type 0 where
  pub sent : answer ≡ ok (codes "{\"hls_url\":\"" ++ url_path session_id master ++ codes "\"}")
  pub flag : ℕ
  pub told :
      let args = build_ffmpeg_args (get_segment_dir segment_dir session_id) in
      (get_elem? args flag ≡ some (codes "-master_pl_name"))
      × (get_elem? args (flag + 1) ≡ some master)
  pub served :
      serve_segments segment_dir session_id master
      ≡ file
          (join_path (get_segment_dir segment_dir session_id ∷ master ∷ []))
          (segment_headers master)

handle_watch-ok :
    (uuid_string : ℕ → Bytes) (i : ℕ) (t : List Session)
    → IsShown i t
    → handle_watch uuid_string true (some i) t
      ≡ ok (codes "{\"hls_url\":\"" ++ url_path (uuid_string i) master ++ codes "\"}")
unfolding handle_watch watch_found playlist_url url_path
handle_watch-ok uuid_string i t e = elim (Option-cases (get_by_id true i t)) [
  | inl n ↦ absurd (ground (arith, e, n))
  | inr (s, y) ↦ ground (arith, e, y)
]

told_master :
    (out : Bytes)
    → (get_elem? (build_ffmpeg_args out) 64 ≡ some (codes "-master_pl_name"))
      × (get_elem? (build_ffmpeg_args out) 65 ≡ some master)
unfolding build_ffmpeg_args
told_master out = (refl, refl)

-- Let a stream whose session has a row connect while PostgreSQL answers. From then on, a viewer whose
-- query PostgreSQL answers is sent to the session's master playlist: whatever offers come, whatever
-- states the connections take and whichever of the later writes fail. Where the segment directory is
-- set and the text of the session's id has no dot, FFmpeg is told to write this playlist, and it is
-- served from the directory that FFmpeg writes to.
pub happen_all-IsWatchable :
    (uuid_string : ℕ → Bytes) (d : ℕ) (ds : Bytes) (redis_up : Bool) (now a : ℕ) (h : Handler)
    (row : Session) (xs : List Happening)
    → get_by_id true (h.streams a).session_id h.table ≡ some row
    → count b'.' (uuid_string (h.streams a).session_id) ≡ 0
    → IsWatchable (d ∷ ds) (uuid_string (h.streams a).session_id) (
        handle_watch uuid_string true
          (some (h.streams a).session_id)
          (happen_all xs (change_state true redis_up now a connected h)).table)
unfolding change_state on_connected has_suffix
happen_all-IsWatchable uuid_string d ds redis_up now a h row xs e plain =
    let i = (h.streams a).session_id in
    let h' = change_state true redis_up now a connected h in
    record {
      sent =
          handle_watch-ok uuid_string i (happen_all xs h').table
            (happen_all-IsShown i xs h' (connects-IsShown i now h.table row e));
      flag = 64;
      told = told_master (get_segment_dir (d ∷ ds) (uuid_string i));
      served = served d ds (uuid_string i) plain master refl refl;
    }
