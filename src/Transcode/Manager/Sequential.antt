-- ===== src/Transcode/Manager/Sequential.antt =====
-- `Start`, `Stop` and `IsRunning` of internal/transcode/ffmpeg.go, one call after another.
use webrtc_hls_pipeline.Prelude.{
  ℕ, ◌≡◌, ◌↔◌, Bool, true, false, not, Option, none, some, arith, is_some, delete, if◌then◌else◌,
  ◌==◌,
}
use webrtc_hls_pipeline.Go.{returns, panics}
use webrtc_hls_pipeline.Transcode.Manager.{
  Manager, Launch, mkdir_fails, pipe_fails, exec_fails, launched, StartError, mkdir_segments,
  stdin_pipe, start_ffmpeg, start, close_and_wait, stop, is_running,
}

-- The error of a `Start` of a session that has no entry.
abbrev pub launch_error : Launch → Option StartError
launch_error mkdir_fails = some mkdir_segments
launch_error pipe_fails = some stdin_pipe
launch_error exec_fails = some start_ffmpeg
launch_error launched = none

-- `Start` leaves a session that has an entry alone and returns nil. For any other it returns the
-- error of the step that failed, or nil; the session runs exactly when there was none. No other
-- session starts or ends.
is_running-start :
    (i j : ℕ) (launch : Launch) (m : Manager)
    → ((start i launch m).1 ≡ (if is_running i m then none else launch_error launch))
      × (is_running j (start i launch m).0 ≡ (
          if i == j
          then (if is_running i m then true else not (is_some (launch_error launch)))
          else is_running j m))
unfolding is_running start
is_running-start i j mkdir_fails m = ground arith
is_running-start i j pipe_fails m = ground arith
is_running-start i j exec_fails m = ground arith
is_running-start i j launched m = ground arith

-- `Stop` after a successful `Start` of a session that had no entry returns; then the session has no
-- entry again, the process has ended with its stdin closed, it was killed exactly when it did not
-- end in time, and no other session is affected.
pub stop-start :
    (i j : ℕ) (in_time : Bool) (m : Manager)
    → is_running i m ≡ false
    → (m' : Manager) × (stop in_time i (start i launched m).0 ≡ returns m')
      × (m'.pipelines j ≡ m.pipelines j)
      × ((m'.heap m.next).done ≡ true)
      × ((m'.heap m.next).stdin_closed ≡ true)
      × ((m'.heap m.next).cancelled ≡ not in_time)
unfolding start stop is_running
stop-start i j in_time m h =
    let s = (start i launched m).0 in
    (
      close_and_wait in_time m.next (record s { pipelines = delete i s.pipelines }),
      ground arith,
      ground arith,
      ground arith,
      ground arith,
      ground arith,
    )

-- `Stop` returns for every session but one whose entry is the placeholder, where it panics.
pub stop-panics_iff :
    (in_time : Bool) (i : ℕ) (m : Manager)
    → (stop in_time i m ≡ panics) ↔ (m.pipelines i ≡ some none)
unfolding stop
stop-panics_iff in_time i m = (λ e. ground arith, λ e. ground arith)
