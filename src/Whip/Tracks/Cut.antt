-- ===== src/Whip/Tracks/Cut.antt =====
-- Histories in which other calls come between the two stretches of `HandleTrack`.
use webrtc_hls_pipeline.Prelude.{ℕ, ◌≡◌, refl, List, [], ◌∷◌}
use webrtc_hls_pipeline.Go.{Go, returns, ◌>>=◌}
use webrtc_hls_pipeline.Whip.Tracks.{TrackManager, Kind, Call, get_or_create_pair, add_track, exec}
use webrtc_hls_pipeline.Whip.Tracks.Invariant.{
  IsSound, after_add, add_track_lem, after_add-IsSound, get_or_create_pair-IsSound,
}
use webrtc_hls_pipeline.Whip.Tracks.Safety.{after, exec_lem, after-IsSound}

-- The locked stretch of `HandleTrack`, `AddTrack` on a pair that some such stretch gave, and the whole
-- calls.
pub data Stretch : Type 0 where
  enters : (session_id : ℕ) → Stretch
  adds : (pair track : ℕ) → Kind → Stretch
  calls : Call → Stretch

unfoldable pub exec_stretch : Stretch → TrackManager → Go TrackManager
unfolding exec get_or_create_pair add_track
exec_stretch (enters session_id) m = returns (get_or_create_pair session_id m).1
exec_stretch (adds pair track kind) m = add_track pair track kind m
exec_stretch (calls c) m = exec c m

unfoldable pub run_stretches : List Stretch → TrackManager → Go TrackManager
unfolding exec_stretch
run_stretches [] m = returns m
run_stretches (x ∷ xs) m = exec_stretch x m >>= run_stretches xs

stretched : Stretch → TrackManager → TrackManager
unfolding get_or_create_pair
stretched (enters i) m = (get_or_create_pair i m).1
stretched (adds pair track kind) m = after_add pair track kind m
stretched (calls c) m = after c m

exec_stretch-stretched :
    (x : Stretch) (m : TrackManager) → IsSound m → exec_stretch x m ≡ returns (stretched x m)
unfolding exec_stretch stretched
exec_stretch-stretched (enters i) m h = refl
exec_stretch-stretched (adds pair track kind) m h = add_track_lem pair track kind m (h.pairs pair)
exec_stretch-stretched (calls c) m h = exec_lem c m h

stretched-IsSound : (x : Stretch) (m : TrackManager) → IsSound m → IsSound (stretched x m)
unfolding stretched
stretched-IsSound (enters i) m h = get_or_create_pair-IsSound i m h
stretched-IsSound (adds pair track kind) m h = after_add-IsSound pair track kind m h
stretched-IsSound (calls c) m h = after-IsSound c m h

-- From a sound manager every history of whole calls and of the stretches of `HandleTrack`, in any
-- order, returns without a panic, and leaves a sound manager.
run_stretches-IsSound :
    (xs : List Stretch) (m : TrackManager)
    → IsSound m
    → (m' : TrackManager) × (run_stretches xs m ≡ returns m') × IsSound m'
unfolding run_stretches
run_stretches-IsSound [] m h = (m, refl, h)
run_stretches-IsSound (x ∷ xs) m h =
    let (m', e, s) = run_stretches-IsSound xs (stretched x m) (stretched-IsSound x m h) in
    (m', rw (exec_stretch-stretched x m h) e, s)
