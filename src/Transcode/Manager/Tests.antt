-- ===== src/Transcode/Manager/Tests.antt =====
-- Runs of the manager of internal/transcode/ffmpeg.go.
use webrtc_hls_pipeline.Prelude.{ℕ, ◌≡◌, refl, true, List, [], ◌∷◌, arith}
use webrtc_hls_pipeline.Go.{panics}
use webrtc_hls_pipeline.Transcode.Manager.{
  Manager, launched, new_manager, start, stop, is_running, claim, end_pumps, end_process,
}
use webrtc_hls_pipeline.Transcode.Manager.Schedule.{
  Event, claims, finishes, takes, waits, init, step, run,
}
use webrtc_hls_pipeline.Transcode.Manager.Exclusion.{pipelines_unique, takes-crashes}

manager_code : Unit {0}
unfolding new_manager start stop is_running init step run end_pumps end_process claim
manager_code = tt

-- Session 4 starts, is stopped while its FFmpeg ends, and starts again; session 5 is being started.
abbrev busy : List Event
busy =
    claims 4
    ∷ claims 4
    ∷ finishes 4 launched
    ∷ takes 4
    ∷ claims 4
    ∷ waits true 0
    ∷ finishes 4 launched
    ∷ claims 5
    ∷ []

busy_pipelines : (run busy init).manager.next ≡ 2
unfolding manager_code
busy_pipelines = refl

pipelines_unique_example : ◌≡◌ {A = ℕ} 1 1
unfolding manager_code
pipelines_unique_example = pipelines_unique busy 1 1 (omega arith) (omega arith) refl refl refl

takes-crashes_example : (step (takes 5) (run busy init)).crashed ≡ true
unfolding manager_code
takes-crashes_example = takes-crashes busy 5 refl refl

abbrev placeholder : Manager
unfolding manager_code
placeholder = (run busy init).manager

-- The placeholder is in the map, so this `Stop` panics.
stop-placeholder : stop true 5 placeholder ≡ panics
unfolding manager_code
stop-placeholder = refl
