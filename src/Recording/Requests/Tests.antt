-- ===== src/Recording/Requests/Tests.antt =====
-- Runs of internal/recording/handler.go.
use webrtc_hls_pipeline.Prelude.{
  ℕ, of_if, ◌≡◌, ◌==◌, ◌≢◌, refl, Bool, true, some, none, List, [], ◌∷◌, AllPass, KeepsRows, leb,
  arith, if◌then◌else◌,
}
use webrtc_hls_pipeline.Session.{Session, get_by_id}
use webrtc_hls_pipeline.Session.Table.{with_mp4_url}
use webrtc_hls_pipeline.Session.Handlers.{answers, error}
use webrtc_hls_pipeline.Text.{Bytes, codes}
use webrtc_hls_pipeline.Events.{recording_ready}
use webrtc_hls_pipeline.Hls.Vod.{Entry}
use webrtc_hls_pipeline.Recording.Worker.{
  Recording, Job, Worker, Services, concatenate_segments, process,
}
use webrtc_hls_pipeline.Recording.Worker.Outcome.{find_recording}
use webrtc_hls_pipeline.Recording.Requests.Newest.{IsNewestFirst, is_led}
use webrtc_hls_pipeline.Recording.Requests.Finished.{handle_get_recording-process}
use webrtc_hls_pipeline.Recording.Requests.{handle_get_recording, info_of}

abbrev made : ℕ → ℕ → Recording
made i session_id = record {
  id = i;
  session_id = session_id;
  tenant_id = 1;
  status = "processing";
  mp4_url = "";
  created_at = i;
  completed_at = none;
}

abbrev as_stored : List Recording → List Recording
as_stored rows = rows

handle_get_recording-first :
    handle_get_recording as_stored true (some 4) (made 1 3 ∷ made 2 4 ∷ [])
    ≡ answers 200 (info_of (made 2 4))
unfolding handle_get_recording
handle_get_recording-first = refl

handle_get_recording-none :
    handle_get_recording as_stored true (some 5) (made 1 3 ∷ made 2 4 ∷ [])
    ≡ error 404 "{\"error\":\"recording not found\"}"
unfolding handle_get_recording
handle_get_recording-none = refl

-- A recording, put behind the first row where that one is newer.
abbrev put : Recording → List Recording → List Recording
put r [] = r ∷ []
put r (q ∷ qs) = if leb q.created_at r.created_at then r ∷ q ∷ qs else q ∷ r ∷ qs

abbrev newest_first : List Recording → List Recording
newest_first [] = []
newest_first (r ∷ rs) = put r (newest_first rs)

put-KeepsRows :
    (p : Recording → Bool) (r : Recording) (rows : List Recording)
    → p r ≡ true
    → AllPass p rows
    → AllPass p (put r rows)
put-KeepsRows p r [] e a = (e, tt)
put-KeepsRows p r (q ∷ qs) e a =
    of_if (AllPass p) (leb q.created_at r.created_at) (r ∷ q ∷ qs) (q ∷ r ∷ qs) (λ _. (e, a))
      (λ _. (a.0, (e, a.1)))

newest_first-KeepsRows : KeepsRows newest_first
newest_first-KeepsRows p [] a = tt
newest_first-KeepsRows p (r ∷ rs) a =
    put-KeepsRows p r (newest_first rs) a.0 (newest_first-KeepsRows p rs a.1)

is_led-put :
    (n : ℕ) (r : Recording) (rows : List Recording)
    → is_led n rows ≡ true
    → is_led n (put r rows) ≡ true
is_led-put n r [] e = ground (arith, e)
is_led-put n r (q ∷ qs) e = ground (arith, e)

is_led_self : (r : Recording) (rows : List Recording) → is_led r.created_at (put r rows) ≡ true
is_led_self r [] = ground arith
is_led_self r (q ∷ qs) = ground arith

AllPass-put :
    (r : Recording) (rs rows : List Recording)
    → AllPass (λ q. is_led q.created_at rows) rs
    → AllPass (λ q. is_led q.created_at (put r rows)) rs
AllPass-put r [] rows a = tt
AllPass-put r (q ∷ rs) rows a = (is_led-put q.created_at r rows a.0, AllPass-put r rs rows a.1)

newest_first-leads :
    (rows : List Recording) → AllPass (λ r. is_led r.created_at (newest_first rows)) rows
newest_first-leads [] = tt
newest_first-leads (r ∷ rs) =
    (is_led_self r (newest_first rs), AllPass-put r rs (newest_first rs) (newest_first-leads rs))

newest_first-IsNewestFirst : IsNewestFirst newest_first
newest_first-IsNewestFirst = record { keeps = newest_first-KeepsRows; leads = newest_first-leads }

abbrev segment : Bytes → Entry
segment name = record { name = name; content = []; readable = true; write_fails = none }

abbrev job : Job
job = record { session_id = 4; tenant_id = 1 }

abbrev lesson : Session
lesson = record {
  id = 4;
  tenant_id = 1;
  teacher_id = 6;
  title = "Go";
  status = "ended";
  started_at = some 3;
  ended_at = some 19;
  hls_playlist_url = "";
  mp4_url = "";
  created_at = 1;
  updated_at = 19;
}

-- Session 4 was recorded before, and another session after that.
abbrev worker : Worker
worker = record {
  jobs = [];
  recordings = made 2 4 ∷ made 30 5 ∷ [];
  sessions = lesson ∷ [];
  published = [];
  segment_dir = λ i. some (segment (codes "stream_0_001.ts") ∷ []);
}

abbrev services : Services
services = record {
  inserts = true;
  updates = true;
  sets_url = true;
  redis_up = true;
  writes_list = true;
  ffmpeg = λ list. true;
}

abbrev after : Worker
after = process (λ names. names) (λ i. "4f") services 9 20 job worker

handle_get_recording-process_example :
    (handle_get_recording newest_first true (some 4) after.recordings
      ≡ answers 200 (record {
        id = 9;
        session_id = 4;
        status = "ready";
        mp4_url = "/recordings/4f/recording.mp4";
      }))
    × ((up : Bool) (j : ℕ)
        → j ≢ 4
        → handle_get_recording newest_first up (some j) after.recordings
          ≡ handle_get_recording newest_first up (some j) (made 2 4 ∷ made 30 5 ∷ []))
    × ((j : ℕ)
        → get_by_id true j after.sessions ≡ (
            if 4 == j
            then with_mp4_url "/recordings/4f/recording.mp4" 20 (get_by_id true j (lesson ∷ []))
            else get_by_id true j (lesson ∷ [])))
    × (after.published ≡ recording_ready 4 1 "/recordings/4f/recording.mp4" ∷ [])
unfolding process concatenate_segments find_recording
handle_get_recording-process_example =
    handle_get_recording-process (λ names. names) (λ i. "4f") newest_first services 9 20 job worker
      newest_first-IsNewestFirst refl refl refl (refl, tt)
