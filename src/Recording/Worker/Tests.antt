-- ===== src/Recording/Worker/Tests.antt =====
-- Runs of internal/recording/worker.go.
use webrtc_hls_pipeline.Prelude.{
  ℕ, ◌≡◌, ◌≤◌, refl, String, true, none, some, List, [], ◌∷◌, ◌++◌, length, arith,
}
use webrtc_hls_pipeline.Text.{Bytes, codes}
use webrtc_hls_pipeline.Hls.Vod.{Entry, mark_as_vod}
use webrtc_hls_pipeline.Recording.Worker.{
  Job, Worker, Services, enqueue, take_job, concat_list, process,
}
use webrtc_hls_pipeline.Recording.Worker.Queue.{
  enqueues, takes, queue_run, admitted_jobs, queue_run-order,
}
use webrtc_hls_pipeline.Recording.Worker.Outcome.{find_recording, finished}

worker_code : Unit {0}
unfolding mark_as_vod enqueue take_job concat_list process find_recording queue_run admitted_jobs
worker_code = tt

abbrev job : ℕ → Job
job i = record { session_id = i; tenant_id = 1 }

abbrev segment : Bytes → Entry
segment name = record { name = name; content = []; readable = true; write_fails = none }

abbrev idle : Worker
idle = record {
  jobs = [];
  recordings = [];
  sessions = [];
  published = [];
  segment_dir =
      λ i. some (segment (codes "stream_0_001.ts") ∷ segment (codes "stream_1_001.ts") ∷ []);
}

abbrev all_up : Services
all_up = record {
  inserts = true;
  updates = true;
  sets_url = true;
  redis_up = true;
  writes_list = true;
  ffmpeg = λ list. true;
}

abbrev as_listed : List Bytes → List Bytes
as_listed names = names

abbrev uuid_text : ℕ → String
uuid_text i = "4f"

two_lines : concat_list (codes "a.ts" ∷ codes "b.ts" ∷ []) ≡ codes "file 'a.ts'\nfile 'b.ts'"
unfolding worker_code
two_lines = refl

queue_run-order_example :
    ((job 4 ∷ []) ++ (job 5 ∷ []) ≡ job 4 ∷ job 5 ∷ [])
    × (length (queue_run (enqueues (job 4) ∷ enqueues (job 5) ∷ takes ∷ []) (idle, [])).0.jobs
        ≤ 100)
unfolding worker_code
queue_run-order_example =
    queue_run-order (enqueues (job 4) ∷ enqueues (job 5) ∷ takes ∷ []) idle [] (omega arith)

ready_recording :
    find_recording 9 (process as_listed uuid_text all_up 9 20 (job 4) idle).recordings
    ≡ some (finished true "/recordings/4f/recording.mp4" 9 (job 4) 20)
unfolding worker_code
ready_recording = refl
