-- ===== src/Recording/Requests/Finished.antt =====
-- A recording job, as the endpoint shows it afterwards.
use webrtc_hls_pipeline.Prelude.{
  ℕ, ◌≡◌, ◌≢◌, refl, ap, ◌∙◌, String, Bool, true, false, ◌&&◌, none, some, List, [], ◌∷◌, ◌++◌,
  keep_if, AllPass, ltb, arith, if◌then◌else◌, ◌==◌,
}
use webrtc_hls_pipeline.Text.{Bytes}
use webrtc_hls_pipeline.Events.{recording_ready}
use webrtc_hls_pipeline.Session.{get_by_id}
use webrtc_hls_pipeline.Session.Table.{with_mp4_url, get_by_id-set_mp4_url}
use webrtc_hls_pipeline.Session.Handlers.{answers}
use webrtc_hls_pipeline.Recording.Worker.{
  Job, Recording, Worker, Services, concatenate_segments, update_recording, insert_recording,
  set_failed, set_ready, begin_job, finish_job, recording_url, process,
}
use webrtc_hls_pipeline.Recording.Worker.Outcome.{
  find_recording, finished, started, process-finish_job, process-finished,
}
use webrtc_hls_pipeline.Recording.Requests.{handle_get_recording}
use webrtc_hls_pipeline.Recording.Requests.Newest.{
  IsNewestFirst, handle_get_recording-last, handle_get_recording-other,
}

-- The update of a row that is new and last.
update_recording-last :
    (f : Recording → Recording) (r : Recording) (rows : List Recording)
    → find_recording r.id rows ≡ none
    → update_recording true r.id f (rows ++ r ∷ []) ≡ rows ++ f r ∷ []
unfolding update_recording find_recording
update_recording-last f r [] e = ground arith
update_recording-last f r (q ∷ rows) e = ground (arith, e, update_recording-last f r rows)

module _ (s : Services) (url : String) (rec_id now : ℕ) (job : Job) (w : Worker)
    (upd : s.updates ≡ true) (fresh : find_recording rec_id w.recordings ≡ none) where
  -- The table at the end of a job.
  finish_job-recordings :
      (ok : Bool)
      → (finish_job s url rec_id job now ok (begin_job rec_id job now w)).recordings
        ≡ w.recordings ++ finished ok url rec_id job now ∷ []
  unfolding finish_job begin_job insert_recording
  finish_job-recordings true =
      ap
        (λ up.
          update_recording up rec_id (set_ready url now)
            (w.recordings ++ started rec_id job now ∷ []))
        upd
      ∙ update_recording-last (set_ready url now) (started rec_id job now) w.recordings fresh
  finish_job-recordings false =
      ap
        (λ up.
          update_recording up rec_id (set_failed now) (w.recordings ++ started rec_id job now ∷ []))
        upd
      ∙ update_recording-last (set_failed now) (started rec_id job now) w.recordings fresh

-- The rows of the sessions at the end of a job.
finish_job-sessions :
    (s : Services) (url : String) (rec_id now j : ℕ) (job : Job) (w : Worker) (ok : Bool)
    → get_by_id true j (finish_job s url rec_id job now ok (begin_job rec_id job now w)).sessions
      ≡ (if ok && (s.sets_url && (job.session_id == j))
          then with_mp4_url url now (get_by_id true j w.sessions)
          else get_by_id true j w.sessions)
unfolding finish_job begin_job
finish_job-sessions s url rec_id now j job w true =
    get_by_id-set_mp4_url s.sets_url job.session_id j url now w.sessions
finish_job-sessions s url rec_id now j job w false = refl

-- Let ORDER BY return rows that matched, none of them newer than the first. When the insert and the
-- update of a job succeed, the id of its recording is new and the other recordings of its session are
-- older, `HandleGetRecording` answers 200 for the session afterwards: the recording is ready with the
-- URL of the file if the segments that lay in the directory were joined, and failed with no URL
-- otherwise. It answers for every other session as before. The row of the session gets the URL exactly
-- when the recording is ready and that update succeeds, every other row of a session stays, and an
-- event goes out exactly when the recording is ready and Redis answers.
pub handle_get_recording-process :
    (sort : List Bytes → List Bytes) (uuid_string : ℕ → String)
    (newest_first : List Recording → List Recording) (s : Services) (rec_id now : ℕ) (job : Job)
    (w : Worker)
    → IsNewestFirst newest_first
    → s.inserts ≡ true
    → s.updates ≡ true
    → find_recording rec_id w.recordings ≡ none
    → AllPass
        (λ r. ltb r.created_at now)
        (keep_if (λ r. r.session_id == job.session_id) w.recordings)
    → let w' = process sort uuid_string s rec_id now job w in
      let ok = concatenate_segments sort s (w.segment_dir job.session_id) in
      let url = recording_url (uuid_string job.session_id) in
      (handle_get_recording newest_first true (some job.session_id) w'.recordings
        ≡ answers 200 (record {
          id = rec_id;
          session_id = job.session_id;
          status = if ok then "ready" else "failed";
          mp4_url = if ok then url else "";
        }))
      × ((up : Bool) (j : ℕ)
          → j ≢ job.session_id
          → handle_get_recording newest_first up (some j) w'.recordings
            ≡ handle_get_recording newest_first up (some j) w.recordings)
      × ((j : ℕ)
          → get_by_id true j w'.sessions ≡ (
              if ok && (s.sets_url && (job.session_id == j))
              then with_mp4_url url now (get_by_id true j w.sessions)
              else get_by_id true j w.sessions))
      × (w'.published ≡ (
          if ok && s.redis_up
          then w.published ++ recording_ready job.session_id job.tenant_id url ∷ []
          else w.published))
handle_get_recording-process sort uuid_string newest_first s rec_id now job w newest ins upd fresh
      older =
    let url = recording_url (uuid_string job.session_id) in
    let ok = concatenate_segments sort s (w.segment_dir job.session_id) in
    let r = finished ok url rec_id job now in
    let rows : (process sort uuid_string s rec_id now job w).recordings ≡ w.recordings ++ r ∷ [] =
      ap (λ v. v.recordings) (process-finish_job sort uuid_string s rec_id now job w ins)
      ∙ finish_job-recordings s url rec_id now job w upd fresh ok in
    (
      ap (handle_get_recording newest_first true (some job.session_id)) rows
          ∙ handle_get_recording-last newest_first r w.recordings newest older,
      λ up j n.
          ap (handle_get_recording newest_first up (some j)) rows
          ∙ handle_get_recording-other newest_first up j r w.recordings n,
      λ j.
          ap (λ v. get_by_id true j v.sessions)
            (process-finish_job sort uuid_string s rec_id now job w ins)
          ∙ finish_job-sessions s url rec_id now j job w ok,
      (process-finished sort uuid_string s rec_id now rec_id job w ins upd fresh).1,
    )
