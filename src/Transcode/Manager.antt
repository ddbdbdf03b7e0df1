-- ===== src/Transcode/Manager.antt =====
-- The `Manager` of internal/transcode/ffmpeg.go. Pipelines are shared by pointers and live in a
-- store with addresses; an entry `some none` of the map is the nil placeholder of `Start`. The
-- stretches of `Start` and `Stop` between two lock operations are functions of their own.
pub mod Schedule
pub mod Exclusion
pub mod Sequential
mod Tests
use webrtc_hls_pipeline.Prelude.{
  ℕ, ◌+◌, Bool, true, false, not, ◌||◌, Option, none, some, Map, empty, insert, delete, store,
  is_some,
}
use webrtc_hls_pipeline.Go.{Go, returns, panics, ◌>>=◌}

pub record Pipeline : Type 0 where
  pub session_id : ℕ
  pub stdin_closed : Bool
  pub cancelled : Bool
  pub done : Bool  -- the channel is closed: `cmd.Wait` has returned

pub record Manager : Type 0 where
  pub pipelines : Map (Option ℕ)
  pub heap : ℕ → Pipeline
  pub next : ℕ

-- How far `Start` gets between its two locked sections.
pub data Launch : Type 0 where
  mkdir_fails pipe_fails exec_fails launched : Launch

pub data StartError : Type 0 where
  mkdir_segments stdin_pipe start_ffmpeg : StartError

unfoldable pub new_manager : Manager
new_manager = record {
  pipelines = empty;
  heap = λ _. record { session_id = 0; stdin_closed = false; cancelled = false; done = false };
  next = 0;
}

-- The first locked section of `Start`; `none` is the early return for a session that has an entry.
unfoldable pub claim : ℕ → Manager → Option Manager
claim i m = elim (m.pipelines i) [
  | some _ ↦ none
  | none ↦ some (record m { pipelines = insert i none m.pipelines })
]

-- `Start` fails: the placeholder is taken back.
unfoldable pub unclaim : ℕ → Manager → Manager
unclaim i m = record m { pipelines = delete i m.pipelines }

-- `Start` has run `cmd.Start`: the pipeline replaces the placeholder.
unfoldable pub publish : ℕ → Manager → Manager
publish i m =
    let p : Pipeline = record {
      session_id = i;
      stdin_closed = false;
      cancelled = false;
      done = false;
    } in
    record {
      pipelines = insert i (some m.next) m.pipelines;
      heap = store m.next p m.heap;
      next = m.next + 1;
    }

-- `Start` after its first locked section, with its result: `none` is nil.
unfoldable pub finish_start : ℕ → Launch → Manager → Manager × Option StartError
unfolding unclaim publish
finish_start i mkdir_fails m = (unclaim i m, some mkdir_segments)
finish_start i pipe_fails m = (unclaim i m, some stdin_pipe)
finish_start i exec_fails m = (unclaim i m, some start_ffmpeg)
finish_start i launched m = (publish i m, none)

-- `Start` with nothing running in between.
unfoldable pub start : ℕ → Launch → Manager → Manager × Option StartError
unfolding claim finish_start
start i launch m = elim (claim i m) [ none ↦ (m, none) | some m' ↦ finish_start i launch m' ]

-- The locked section of `Stop`, with the entry that it took out.
unfoldable pub take_out : ℕ → Manager → Manager × Option (Option ℕ)
take_out i m = elim (m.pipelines i) [
  | none ↦ (m, none)
  | some p ↦ (record m { pipelines = delete i m.pipelines }, some p)
]

-- `p.stdin.Close()` and the wait for the process, of a pipeline at an address: the process is killed
-- when it does not end within ten seconds.
unfoldable pub close_and_wait : Bool → ℕ → Manager → Manager
close_and_wait in_time a m = record m {
  heap =
      store a
        (record (m.heap a) {
          stdin_closed = true;
          cancelled = (m.heap a).cancelled || not in_time;
          done = true;
        })
        m.heap;
}

-- The rest of `Stop`: on the placeholder, `p.stdin` is a field of a nil pointer.
unfoldable pub finish_stop : Bool → Option (Option ℕ) → Manager → Go Manager
unfolding close_and_wait
finish_stop in_time none m = returns m
finish_stop in_time (some none) m = panics
finish_stop in_time (some (some a)) m = returns (close_and_wait in_time a m)

-- `Stop` with nothing running in between.
unfoldable pub stop : Bool → ℕ → Manager → Go Manager
unfolding take_out finish_stop
stop in_time i m = let (m', entry) = take_out i m in finish_stop in_time entry m'

unfoldable pub is_running : ℕ → Manager → Bool
is_running i m = is_some (m.pipelines i)

-- `pumpTracks` closes stdin when both pumps have ended.
unfoldable pub end_pumps : ℕ → Manager → Manager
end_pumps a m = record m { heap = store a (record (m.heap a) { stdin_closed = true }) m.heap }

-- `wait`: the process has ended.
unfoldable pub end_process : ℕ → Manager → Manager
end_process a m = record m { heap = store a (record (m.heap a) { done = true }) m.heap }
