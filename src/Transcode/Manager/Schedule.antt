-- ===== src/Transcode/Manager/Schedule.antt =====
-- Goroutines that call `Start` and `Stop` of one manager, interleaved at its locked sections.
use webrtc_hls_pipeline.Prelude.{
  ℕ, Bool, true, false, Option, none, some, List, [], ◌∷◌, mem, erase, if◌then◌else◌,
}
use webrtc_hls_pipeline.Transcode.Manager.{
  Manager, Launch, new_manager, claim, finish_start, take_out, close_and_wait, end_pumps,
  end_process,
}

-- `flights` are the sessions of the calls of `Start` that hold a placeholder, `stopped` the
-- pipelines that a `Stop` has taken out of the map, `crashed` a nil dereference.
pub record System : Type 0 where
  pub manager : Manager
  pub flights : List ℕ
  pub stopped : List ℕ
  pub crashed : Bool

-- One step of some goroutine.
pub data Event : Type 0 where
  claims : ℕ → Event
  finishes : ℕ → Launch → Event
  takes : ℕ → Event
  waits : Bool → ℕ → Event
  pumps_end process_ends : ℕ → Event

unfoldable pub init : System
init = record { manager = new_manager; flights = []; stopped = []; crashed = false }

abbrev claimed : ℕ → System → Option Manager → System
claimed i s none = s
claimed i s (some m) = record s { manager = m; flights = i ∷ s.flights }

abbrev took : System → Manager × Option (Option ℕ) → System
took s (m, none) = s
took s (m, some none) = record s { manager = m; crashed = true }
took s (m, some (some a)) = record s { manager = m; stopped = a ∷ s.stopped }

unfoldable pub dispatch : Event → System → System
dispatch (claims i) s = claimed i s (claim i s.manager)
dispatch (finishes i launch) s =
    if mem i s.flights
    then record s { manager = (finish_start i launch s.manager).0; flights = erase i s.flights }
    else s
dispatch (takes i) s = took s (take_out i s.manager)
dispatch (waits in_time a) s =
    if mem a s.stopped then record s { manager = close_and_wait in_time a s.manager } else s
dispatch (pumps_end a) s = record s { manager = end_pumps a s.manager }
dispatch (process_ends a) s = record s { manager = end_process a s.manager }

-- A crashed process takes no more steps.
unfoldable pub step : Event → System → System
unfolding dispatch
step e s = if s.crashed then s else dispatch e s

unfoldable pub run : List Event → System → System
run [] s = s
run (e ∷ es) s = run es (step e s)
