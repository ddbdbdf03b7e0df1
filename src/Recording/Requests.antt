-- ===== src/Recording/Requests.antt =====
-- internal/recording/handler.go. ORDER BY is the argument `newest_first`, and the session is what
-- `uuid.Parse` makes of the URL's parameter.
pub mod Newest
pub mod Finished
mod Tests
use webrtc_hls_pipeline.Prelude.{
  ℕ, ◌≡◌, refl, ap, sym, subst, ◌∙◌, String, Bool, true, false, Option, none, some, List, [], ◌∷◌,
  keep_if, AllPass, All-keep_if, KeepsRows, if◌then◌else◌, ◌==◌, arith,
}
use webrtc_hls_pipeline.Session.Handlers.{Answer, error, answers}
use webrtc_hls_pipeline.Recording.Worker.{Recording}

pub record RecordingInfo : Type 0 where
  pub id : ℕ
  pub session_id : ℕ
  pub status : String
  pub mp4_url : String

abbrev pub info_of : Recording → RecordingInfo
info_of r = record { id = r.id; session_id = r.session_id; status = r.status; mp4_url = r.mp4_url }

-- The row that the query with LIMIT 1 scans, or its error.
abbrev pub answer_first : List Recording → Answer RecordingInfo
answer_first [] = error 404 "{\"error\":\"recording not found\"}"
answer_first (r ∷ rs) = answers 200 (info_of r)

unfoldable pub handle_get_recording :
    (List Recording → List Recording) → Bool → Option ℕ → List Recording → Answer RecordingInfo
handle_get_recording newest_first up none t = error 400 "{\"error\":\"invalid session id\"}"
handle_get_recording newest_first up (some session_id) t =
    if up
    then answer_first (newest_first (keep_if (λ r. r.session_id == session_id) t))
    else answer_first []

answer_first-session :
    (session_id : ℕ) (rows : List Recording) (info : RecordingInfo)
    → AllPass (λ r. r.session_id == session_id) rows
    → answer_first rows ≡ answers 200 info
    → (info.session_id == session_id) ≡ true
answer_first-session session_id [] info a e = ground (arith, e)
answer_first-session session_id (r ∷ rows) info a e = ground (arith, a.0, e)

-- An answer 200 is about the session asked for.
pub handle_get_recording-session :
    (newest_first : List Recording → List Recording) (up : Bool) (session_id : ℕ)
    (t : List Recording) (info : RecordingInfo)
    → KeepsRows newest_first
    → handle_get_recording newest_first up (some session_id) t ≡ answers 200 info
    → (info.session_id == session_id) ≡ true
unfolding handle_get_recording
handle_get_recording-session newest_first false session_id t info keeps e =
    answer_first-session session_id [] info tt e
handle_get_recording-session newest_first true session_id t info keeps e =
    let p : Recording → Bool = λ r. r.session_id == session_id in
    answer_first-session session_id (newest_first (keep_if p t)) info
      (keeps p (keep_if p t) (All-keep_if p t)) e
