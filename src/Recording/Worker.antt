-- ===== src/Recording/Worker.antt =====
-- internal/recording/worker.go. The directory of each session is the list of its entries, `sort` is
-- `sort.Strings`, and what FFmpeg makes of a concat list is an argument; the list and FFmpeg's output
-- are not kept as entries. Each database call has its
-- own flag that says whether it succeeds.
pub mod Queue
pub mod Outcome
pub mod Loop
pub mod Order
mod Tests
use Prim.Native.String.{◌++◌ as str_append}
use webrtc_hls_pipeline.Prelude.{
  ℕ, String, Bool, true, false, ◌&&◌, not, Option, none, some, List, [], ◌∷◌, ◌++◌, map, keep_if,
  length, ltb, store, if◌then◌else◌, ◌==◌,
}
use webrtc_hls_pipeline.Text.{Bytes, codes, has_prefix, has_suffix, join}
use webrtc_hls_pipeline.Events.{Event, recording_ready, publish}
use webrtc_hls_pipeline.Session.{Session, set_mp4_url}
use webrtc_hls_pipeline.Hls.Vod.{Entry, mark_as_vod}

pub record Job : Type 0 where
  pub session_id : ℕ
  pub tenant_id : ℕ

-- A row of the recordings table.
pub record Recording : Type 0 where
  pub id : ℕ
  pub session_id : ℕ
  pub tenant_id : ℕ
  pub status : String
  pub mp4_url : String
  pub created_at : ℕ
  pub completed_at : Option ℕ

pub record Worker : Type 0 where
  pub jobs : List Job
  pub recordings : List Recording
  pub sessions : List Session
  pub published : List Event
  pub segment_dir : ℕ → Option (List Entry)

-- What the calls of one `process` meet.
pub record Services : Type 0 where
  pub inserts : Bool
  pub updates : Bool
  pub sets_url : Bool
  pub redis_up : Bool
  pub writes_list : Bool
  pub ffmpeg : Bytes → Bool

abbrev pub queue_capacity : ℕ
queue_capacity = 100

-- `Enqueue`: a job that meets a full queue is dropped.
unfoldable pub enqueue : Job → Worker → Worker
enqueue job w =
    if ltb (length w.jobs) queue_capacity then record w { jobs = w.jobs ++ job ∷ [] } else w

unfoldable pub is_segment : Bytes → Bool
unfolding has_prefix has_suffix
is_segment name = has_prefix name (codes "stream_0_") && has_suffix name (codes ".ts")

unfoldable pub concat_line : Bytes → Bytes
concat_line f = codes "file '" ++ (f ++ codes "'")

-- What is written to `concat.txt`.
unfoldable pub concat_list : List Bytes → Bytes
unfolding concat_line join
concat_list names = join (map concat_line names) (codes "\n")

unfoldable pub segment_names : List Entry → List Bytes
unfolding is_segment
segment_names es = keep_if is_segment (map (λ e. e.name) es)

-- `concatenateSegments` once it has the names.
unfoldable pub concatenate_names : (List Bytes → List Bytes) → Services → List Bytes → Bool
unfolding concat_list
concatenate_names sort s [] = false
concatenate_names sort s (f ∷ fs) = s.writes_list && s.ffmpeg (concat_list (sort (f ∷ fs)))

-- `concatenateSegments`: whether there is no error.
unfoldable pub concatenate_segments :
    (List Bytes → List Bytes) → Services → Option (List Entry) → Bool
unfolding segment_names concatenate_names
concatenate_segments sort s none = false
concatenate_segments sort s (some es) = concatenate_names sort s (segment_names es)

-- UPDATE recordings SET … WHERE id = $1
unfoldable pub update_recording :
    Bool → ℕ → (Recording → Recording) → List Recording → List Recording
update_recording up i f [] = []
update_recording up i f (r ∷ rs) =
    (if up && (r.id == i) then f r else r) ∷ update_recording up i f rs

-- INSERT INTO recordings
unfoldable pub insert_recording : ℕ → Job → ℕ → List Recording → List Recording
insert_recording rec_id job now rs =
    rs
    ++ record {
      id = rec_id;
      session_id = job.session_id;
      tenant_id = job.tenant_id;
      status = "processing";
      mp4_url = "";
      created_at = now;
      completed_at = none;
    }
      ∷ []

abbrev pub set_failed : ℕ → Recording → Recording
set_failed now r = record r { status = "failed"; completed_at = some now }

abbrev pub set_ready : String → ℕ → Recording → Recording
set_ready mp4_url now r = record r { status = "ready"; mp4_url = mp4_url; completed_at = some now }

-- `process` after `MarkAsVOD`, with the result of the concatenation.
unfoldable pub finish_job : Services → String → ℕ → Job → ℕ → Bool → Worker → Worker
unfolding update_recording
finish_job s mp4_url rec_id job now false w = record w {
  recordings = update_recording s.updates rec_id (set_failed now) w.recordings;
}
finish_job s mp4_url rec_id job now true w = record w {
  recordings = update_recording s.updates rec_id (set_ready mp4_url now) w.recordings;
  sessions = (set_mp4_url s.sets_url job.session_id mp4_url now w.sessions).table;
  published = publish s.redis_up (recording_ready job.session_id job.tenant_id mp4_url) w.published;
}

-- The insert and `MarkAsVOD` at the start of `process`.
unfoldable pub begin_job : ℕ → Job → ℕ → Worker → Worker
unfolding insert_recording
begin_job rec_id job now w = record w {
  recordings = insert_recording rec_id job now w.recordings;
  segment_dir = store job.session_id (mark_as_vod (w.segment_dir job.session_id)).0 w.segment_dir;
}

unfoldable pub recording_url : String → String
recording_url session_id = str_append "/recordings/" (str_append session_id "/recording.mp4")

-- `process` of a job whose new recording gets the id `rec_id`; the clock shows `now` throughout.
unfoldable pub process :
    (List Bytes → List Bytes) → (ℕ → String) → Services → ℕ → ℕ → Job → Worker → Worker
unfolding begin_job finish_job concatenate_segments recording_url
process sort uuid_string s rec_id now job w =
    if not s.inserts
    then w
    else (let w' = begin_job rec_id job now w in
        finish_job s (recording_url (uuid_string job.session_id)) rec_id job now
          (concatenate_segments sort s (w'.segment_dir job.session_id)) w')

-- The loop's next job is taken from the channel.
unfoldable pub take_job : Worker → Option (Job × Worker)
take_job w = elim w.jobs [ [] ↦ none | job ∷ rest ↦ some (job, record w { jobs = rest }) ]
