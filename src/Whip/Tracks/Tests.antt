-- ===== src/Whip/Tracks/Tests.antt =====
-- Runs of the track manager of internal/whip/track.go.
use webrtc_hls_pipeline.Prelude.{◌≡◌, refl, sym, ap, subst, true, false, none, List, [], ◌∷◌}
use webrtc_hls_pipeline.Go.{Go, returns, panics}
use webrtc_hls_pipeline.Whip.Tracks.{
  video, audio, TrackManager, new_track_manager, handle_track, get_track_pair, close_reader,
  read_rtp, remove, Call, arrives, removes, closes, exec, run,
}
use webrtc_hls_pipeline.Whip.Tracks.Invariant.{IsSound, new_track_manager-IsSound}
use webrtc_hls_pipeline.Whip.Tracks.Safety.{run-IsSound}
use webrtc_hls_pipeline.Whip.Tracks.Readiness.{is_ready, notes, both, is_ready-run}

track_code : Unit {0}
unfolding new_track_manager run exec handle_track remove close_reader read_rtp get_track_pair
track_code = tt

-- Session 5 gets both kinds, session 6 a video track only.
abbrev arrivals : List Call
arrivals = arrives 5 1 video ∷ arrives 6 2 video ∷ arrives 5 3 audio ∷ arrives 5 4 audio ∷ []

abbrev history : List Call
history = arrives 5 1 video ∷ closes 0 ∷ removes 5 ∷ removes 5 ∷ closes 0 ∷ []

abbrev or_new : Go TrackManager → TrackManager
or_new (returns m) = m
or_new panics = new_track_manager

abbrev arrived_manager : TrackManager
unfolding track_code
arrived_manager = or_new (run arrivals new_track_manager)

run-IsSound_example : (m : TrackManager) × (run history new_track_manager ≡ returns m) × IsSound m
run-IsSound_example = run-IsSound history new_track_manager new_track_manager-IsSound

is_ready-run_example : is_ready 5 arrived_manager ≡ both (notes 5 arrivals none)
unfolding track_code
is_ready-run_example = is_ready-run 5 arrivals arrived_manager refl

-- Session 5 is complete after `arrivals`: its channel is closed, that of session 6 is not.
arrived_ready : (both (notes 5 arrivals none) ≡ true) × (both (notes 6 arrivals none) ≡ false)
unfolding notes
arrived_ready = (refl, refl)

arrived_manager-IsSound : IsSound arrived_manager
unfolding track_code
arrived_manager-IsSound =
    let (m, e, s) = run-IsSound arrivals new_track_manager new_track_manager-IsSound in
    subst IsSound (ap or_new (sym e)) s

abbrev removed_manager : TrackManager
unfolding track_code
removed_manager = or_new (remove 5 arrived_manager)
