-- ===== src/Recording/Worker/Outcome.antt =====
-- What a job leaves in the tables.
use webrtc_hls_pipeline.Prelude.{
  ℕ, ◌≡◌, refl, ap, ◌∙◌, String, Bool, true, false, not, ◌&&◌, Option, none, some, List, [], ◌∷◌,
  ◌++◌, map, keep_if, arith, if◌then◌else◌, ◌==◌,
}
use webrtc_hls_pipeline.Text.{Bytes}
use webrtc_hls_pipeline.Events.{recording_ready, publish}
use webrtc_hls_pipeline.Hls.Vod.{Entry, mark_entry, mark_entries, mark_as_vod, write_file}
use webrtc_hls_pipeline.Recording.Worker.{
  Job, Recording, Worker, Services, is_segment, segment_names, concatenate_segments,
  concatenate_names, update_recording, insert_recording, set_failed, set_ready, begin_job,
  finish_job, recording_url, process,
}

unfoldable pub find_recording : ℕ → List Recording → Option Recording
find_recording i [] = none
find_recording i (r ∷ rs) = if r.id == i then some r else find_recording i rs

-- A recording of the job as it is when the job is over.
abbrev pub finished : Bool → String → ℕ → Job → ℕ → Recording
finished ok mp4_url rec_id job now = record {
  id = rec_id;
  session_id = job.session_id;
  tenant_id = job.tenant_id;
  status = if ok then "ready" else "failed";
  mp4_url = if ok then mp4_url else "";
  created_at = now;
  completed_at = some now;
}

abbrev pub started : ℕ → Job → ℕ → Recording
started rec_id job now = record {
  id = rec_id;
  session_id = job.session_id;
  tenant_id = job.tenant_id;
  status = "processing";
  mp4_url = "";
  created_at = now;
  completed_at = none;
}

mark_entry-name : (e : Entry) → (mark_entry e).name ≡ e.name
unfolding mark_entry write_file
mark_entry-name e = ground arith

map-mark_entries : (es : List Entry) → map (λ e. e.name) (mark_entries es) ≡ map (λ e. e.name) es
unfolding mark_entries
map-mark_entries [] = refl
map-mark_entries (e ∷ es) = ground (arith, mark_entry-name e, map-mark_entries es)

-- Marking the playlists does not change which segments are joined.
concatenate_segments-marked :
    (sort : List Bytes → List Bytes) (s : Services) (dir : Option (List Entry))
    → concatenate_segments sort s (mark_as_vod dir).0 ≡ concatenate_segments sort s dir
unfolding concatenate_segments mark_as_vod segment_names
concatenate_segments-marked sort s none = refl
concatenate_segments-marked sort s (some es) =
    ap (λ names. concatenate_names sort s (keep_if is_segment names)) (map-mark_entries es)

find-updated :
    (i j : ℕ) (f : Recording → Recording) (r : Recording) (rs : List Recording)
    → ((r : Recording) → (f r).id ≡ r.id)
    → find_recording i rs ≡ none
    → r.id ≡ i
    → find_recording j (update_recording true i f (rs ++ r ∷ []))
      ≡ (if i == j then some (f r) else find_recording j rs)
unfolding find_recording update_recording
find-updated i j f r [] k fresh e = ground (arith, k r, e)
find-updated i j f r (q ∷ rs) k fresh e =
    ground (arith, k r, k q, e, fresh, find-updated i j f r rs k)

marked_dir :
    (rec_id now : ℕ) (job : Job) (w : Worker)
    → (begin_job rec_id job now w).segment_dir job.session_id
      ≡ (mark_as_vod (w.segment_dir job.session_id)).0
unfolding begin_job
marked_dir rec_id now job w = ground arith

pub process-finish_job :
    (sort : List Bytes → List Bytes) (uuid_string : ℕ → String) (s : Services) (rec_id now : ℕ)
    (job : Job) (w : Worker)
    → s.inserts ≡ true
    → process sort uuid_string s rec_id now job w
      ≡ finish_job s
          (recording_url (uuid_string job.session_id))
          rec_id
          job
          now
          (concatenate_segments sort s (w.segment_dir job.session_id))
          (begin_job rec_id job now w)
unfolding process
process-finish_job sort uuid_string s rec_id now job w ins =
    let w' = begin_job rec_id job now w in
    let url = recording_url (uuid_string job.session_id) in
    let marked : w'.segment_dir job.session_id ≡ (mark_as_vod (w.segment_dir job.session_id)).0 =
      marked_dir rec_id now job w in
    ap
      (λ b.
        if not b
        then w
        else finish_job s url rec_id job now
            (concatenate_segments sort s (w'.segment_dir job.session_id)) w')
      ins
    ∙ ap (λ ok. finish_job s url rec_id job now ok w')
        (ap (concatenate_segments sort s) marked
          ∙ concatenate_segments-marked sort s (w.segment_dir job.session_id))

-- The end of a job, either way.
module _ (s : Services) (url : String) (rec_id now j : ℕ) (job : Job) (w : Worker)
    (upd : s.updates ≡ true) (fresh : find_recording rec_id w.recordings ≡ none) where
  finish_job-recorded :
      (ok : Bool)
      → find_recording j
          (finish_job s url rec_id job now ok (begin_job rec_id job now w)).recordings
        ≡ (if rec_id == j
            then some (finished ok url rec_id job now)
            else find_recording j w.recordings)
  unfolding finish_job begin_job insert_recording
  finish_job-recorded true =
      ap
        (λ up. find_recording j (
          update_recording up rec_id (set_ready url now)
            (insert_recording rec_id job now w.recordings)))
        upd
      ∙ find-updated rec_id j (set_ready url now) (started rec_id job now) w.recordings (λ r. refl)
          fresh refl
  finish_job-recorded false =
      ap
        (λ up. find_recording j (
          update_recording up rec_id (set_failed now)
            (insert_recording rec_id job now w.recordings)))
        upd
      ∙ find-updated rec_id j (set_failed now) (started rec_id job now) w.recordings (λ r. refl)
          fresh refl

  finish_job-published :
      (ok : Bool)
      → (finish_job s url rec_id job now ok (begin_job rec_id job now w)).published ≡ (
          if ok && s.redis_up
          then w.published ++ recording_ready job.session_id job.tenant_id url ∷ []
          else w.published)
  unfolding finish_job begin_job publish
  finish_job-published true = refl
  finish_job-published false = refl

-- When its insert and update succeed and the id of its recording is new, a job leaves the recording
-- of that id ready with the URL of the file if the segments that lay in the directory were joined,
-- and failed otherwise. The lookup of any other id finds what it found before, and an event goes out
-- exactly when the recording is ready and Redis answers.
pub process-finished :
    (sort : List Bytes → List Bytes) (uuid_string : ℕ → String) (s : Services) (rec_id now j : ℕ)
    (job : Job) (w : Worker)
    → s.inserts ≡ true
    → s.updates ≡ true
    → find_recording rec_id w.recordings ≡ none
    → let ok = concatenate_segments sort s (w.segment_dir job.session_id) in
      let url = recording_url (uuid_string job.session_id) in
      (find_recording j (process sort uuid_string s rec_id now job w).recordings ≡ (
        if rec_id == j
        then some (finished ok url rec_id job now)
        else find_recording j w.recordings))
      × ((process sort uuid_string s rec_id now job w).published ≡ (
          if ok && s.redis_up
          then w.published ++ recording_ready job.session_id job.tenant_id url ∷ []
          else w.published))
process-finished sort uuid_string s rec_id now j job w ins upd fresh =
    let url = recording_url (uuid_string job.session_id) in
    let ok = concatenate_segments sort s (w.segment_dir job.session_id) in
    let same = process-finish_job sort uuid_string s rec_id now job w ins in
    (
      ap (λ v. find_recording j v.recordings) same
          ∙ finish_job-recorded s url rec_id now j job w upd fresh ok,
      ap (λ v. v.published) same ∙ finish_job-published s url rec_id now j job w upd fresh ok,
    )
