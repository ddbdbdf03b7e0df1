-- ===== src/Recording/Worker/Loop/Tests.antt =====
-- A worker that is stopped while a job waits.
use webrtc_hls_pipeline.Prelude.{ℕ, ◌≡◌, refl, String, true, false, none, some, List, [], ◌∷◌, map}
use webrtc_hls_pipeline.Text.{Bytes, codes}
use webrtc_hls_pipeline.Hls.Vod.{Entry, mark_as_vod}
use webrtc_hls_pipeline.Recording.Worker.{Job, Services, enqueue, process}
use webrtc_hls_pipeline.Recording.Worker.Loop.{
  Loop, LoopStep, idle, stops, enqueues, rounds, advances, loop_run,
}
use webrtc_hls_pipeline.Recording.Worker.Loop.Stopped.{HasSameRecords, loop_run-HasSameRecords}

loop_code : Unit {0}
unfolding loop_run process enqueue mark_as_vod
loop_code = tt

abbrev job : ℕ → Job
job i = record { session_id = i; tenant_id = 1 }

abbrev segment : Bytes → Entry
segment name = record { name = name; content = []; readable = true; write_fails = none }

abbrev working : Loop
working = record {
  worker = record {
    jobs = [];
    recordings = [];
    sessions = [];
    published = [];
    segment_dir = λ i. some (segment (codes "stream_0_001.ts") ∷ []);
  };
  work = idle;
  cancelled = false;
  ended = false;
}

abbrev all_up : Services
all_up = record {
  inserts = true;
  updates = true;
  sets_url = true;
  redis_up = true;
  writes_list = true;
  ffmpeg = λ list. true;
}

abbrev as_listed : List Bytes → List Bytes
as_listed names = names

abbrev uuid_text : ℕ → String
uuid_text i = "4f"

-- Job 4 runs to its end; job 5 has its row when `Stop` comes.
abbrev day : List LoopStep
day =
    enqueues (job 4)
    ∷ rounds false
    ∷ advances all_up 9 20
    ∷ advances all_up 0 20
    ∷ advances all_up 0 20
    ∷ advances all_up 0 20
    ∷ advances all_up 0 20
    ∷ advances all_up 0 20
    ∷ enqueues (job 5)
    ∷ rounds false
    ∷ advances all_up 10 21
    ∷ stops
    ∷ []

abbrev night : List LoopStep
night =
    advances all_up 0 22
    ∷ advances all_up 0 22
    ∷ advances all_up 0 22
    ∷ enqueues (job 6)
    ∷ rounds false
    ∷ advances all_up 11 23
    ∷ rounds true
    ∷ []

abbrev evening : Loop
evening = loop_run as_listed uuid_text day working

evening-records : map (λ r. r.status) evening.worker.recordings ≡ "ready" ∷ "processing" ∷ []
unfolding loop_code
evening-records = refl

night-records :
    map (λ r. r.status) (loop_run as_listed uuid_text night evening).worker.recordings
    ≡ "ready" ∷ "processing" ∷ []
unfolding loop_code
night-records = refl

night-ends : (loop_run as_listed uuid_text night evening).ended ≡ true
unfolding loop_code
night-ends = refl

loop_run-HasSameRecords_example :
    HasSameRecords evening (loop_run as_listed uuid_text night evening)
unfolding loop_code
loop_run-HasSameRecords_example = loop_run-HasSameRecords as_listed uuid_text night evening refl
