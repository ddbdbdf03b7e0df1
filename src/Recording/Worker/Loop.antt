-- ===== src/Recording/Worker/Loop.antt =====
-- `processLoop` and `Stop`. `process` is cut at its calls, so that `Stop` may come between any two of
-- them. A database call, an event and FFmpeg under a cancelled context fail; where the `select` of the
-- loop may take either case, `prefers_end` says which one it takes.
pub mod Stopped
mod Tests
use webrtc_hls_pipeline.Prelude.{
  ℕ, zero, suc, ◌≡◌, refl, sym, ap, ◌∙◌, String, Bool, true, false, ◌&&◌, Option, none, some, List,
  [], ◌∷◌, store, if◌then◌else◌, Bool-cases, inl, inr, arith, not,
}
use webrtc_hls_pipeline.Text.{Bytes}
use webrtc_hls_pipeline.Events.{recording_ready, publish}
use webrtc_hls_pipeline.Session.{set_mp4_url}
use webrtc_hls_pipeline.Hls.Vod.{mark_as_vod}
use webrtc_hls_pipeline.Recording.Worker.{
  Worker, Job, Services, enqueue, take_job, process, insert_recording, update_recording, set_failed,
  set_ready, recording_url, concatenate_segments, begin_job, finish_job,
}

-- The next call of `process` for the job in work, with the id of its recording.
pub data Work : Type 0 where
  idle : Work
  inserts : Job → Work
  marks joins : (rec_id : ℕ) → Job → Work
  updates : (rec_id : ℕ) → Job → (joined : Bool) → Work
  sets_url announces : Job → Work

pub record Loop : Type 0 where
  pub worker : Worker
  pub work : Work
  pub cancelled : Bool
  pub ended : Bool

pub data LoopStep : Type 0 where
  stops : LoopStep
  enqueues : Job → LoopStep
  rounds : (prefers_end : Bool) → LoopStep
  advances : Services → (rec_id now : ℕ) → LoopStep

-- The services as a call with the worker's context meets them.
unfoldable pub under_context : Bool → Services → Services
under_context false s = s
under_context true s = record {
  inserts = false;
  updates = false;
  sets_url = false;
  redis_up = false;
  writes_list = s.writes_list;
  ffmpeg = λ _. false;
}

-- The case of the `select` that receives a job, if there is one.
abbrev pub work_on : Option (Job × Worker) → Loop → Loop
work_on none l = l
work_on (some (job, w)) l = record l { worker = w; work = inserts job }

-- The `select` of `processLoop`, which a job in work keeps waiting.
abbrev pub select : Bool → Work → Loop → Loop
select prefers_end idle l =
    if l.ended
    then l
    else if l.cancelled && prefers_end
    then record l { ended = true }
    else work_on (take_job l.worker) l
select prefers_end _ l = l

unfoldable pub round : Bool → Loop → Loop
unfolding take_job
round prefers_end l = select prefers_end l.work l

module _ (sort : List Bytes → List Bytes) (uuid_string : ℕ → String) where
  -- The next call of `process`; an insert draws the id `rec_id`.
  unfoldable pub advance : Services → ℕ → ℕ → Work → Worker → Work × Worker
  unfolding insert_recording update_recording recording_url concatenate_segments
  advance s rec_id now idle w = (idle, w)
  advance s rec_id now (inserts job) w =
      if s.inserts
      then (
        marks rec_id job,
        record w { recordings = insert_recording rec_id job now w.recordings },
      )
      else (idle, w)
  advance s _ now (marks i job) w = (
    joins i job,
    record w {
      segment_dir =
          store job.session_id (mark_as_vod (w.segment_dir job.session_id)).0 w.segment_dir;
    },
  )
  advance s _ now (joins i job) w =
      (updates i job (concatenate_segments sort s (w.segment_dir job.session_id)), w)
  advance s _ now (updates i job false) w =
      (idle, record w { recordings = update_recording s.updates i (set_failed now) w.recordings })
  advance s _ now (updates i job true) w = (
    sets_url job,
    record w {
      recordings =
          update_recording s.updates i (set_ready (recording_url (uuid_string job.session_id)) now)
            w.recordings;
    },
  )
  advance s _ now (sets_url job) w = (
    announces job,
    record w {
      sessions =
          (set_mp4_url s.sets_url job.session_id (recording_url (uuid_string job.session_id)) now
            w.sessions).table;
    },
  )
  advance s _ now (announces job) w = (
    idle,
    record w {
      published =
          publish s.redis_up
            (recording_ready job.session_id job.tenant_id
              (recording_url (uuid_string job.session_id)))
            w.published;
    },
  )

  unfoldable pub loop_step : LoopStep → Loop → Loop
  unfolding round enqueue advance under_context
  loop_step stops l = record l { cancelled = true }
  loop_step (enqueues job) l = record l { worker = enqueue job l.worker }
  loop_step (rounds prefers_end) l = round prefers_end l
  loop_step (advances s rec_id now) l =
      let (work, w) = advance (under_context l.cancelled s) rec_id now l.work l.worker in
      record l { work = work; worker = w }

  unfoldable pub loop_run : List LoopStep → Loop → Loop
  unfolding loop_step
  loop_run [] l = l
  loop_run (e ∷ es) l = loop_run es (loop_step e l)

  -- All the calls of a job, with nothing in between.
  abbrev pub advance_all : Services → ℕ → ℕ → ℕ → Work × Worker → Work × Worker
  advance_all s rec_id now zero p = p
  advance_all s rec_id now (suc n) p = advance_all s rec_id now n (advance s rec_id now p.0 p.1)

  advance_all-finish_job :
      (s : Services) (rec_id now : ℕ) (job : Job) (w : Worker) (joined : Bool)
      → advance_all s rec_id now 3 (updates rec_id job joined, w)
        ≡ (idle, finish_job s (recording_url (uuid_string job.session_id)) rec_id job now joined w)
  unfolding advance finish_job
  advance_all-finish_job s rec_id now job w true = refl
  advance_all-finish_job s rec_id now job w false = refl

  -- They are `process`.
  advance_all-process :
      (s : Services) (rec_id now : ℕ) (job : Job) (w : Worker)
      → advance_all s rec_id now 6 (inserts job, w)
        ≡ (idle, process sort uuid_string s rec_id now job w)
  unfolding advance process begin_job
  advance_all-process s rec_id now job w =
      let w₁ = begin_job rec_id job now w in
      let url = recording_url (uuid_string job.session_id) in
      let ok = concatenate_segments sort s (w₁.segment_dir job.session_id) in
      let inserted : Worker = record w {
        recordings = insert_recording rec_id job now w.recordings;
      } in
      let go : Bool → Work × Worker =
        λ b. advance_all s rec_id now 5 (if b then (marks rec_id job, inserted) else (idle, w)) in
      let end : Bool → Work × Worker =
        λ b. (idle, if not b then w else finish_job s url rec_id job now ok w₁) in
      elim (Bool-cases s.inserts) [
        | inl y ↦ ap go y ∙ advance_all-finish_job s rec_id now job w₁ ok ∙ sym (ap end y)
        | inr n ↦ ap go n ∙ sym (ap end n)
      ]
