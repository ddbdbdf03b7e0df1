-- ===== src/Whip/Tracks/Removal.antt =====
-- What `Remove` of internal/whip/track.go does to the readers of a session.
use webrtc_hls_pipeline.Prelude.{ℕ, ◌≡◌, ◌⊎◌, none, some, true, arith, if◌then◌else◌, ◌==◌}
use webrtc_hls_pipeline.Go.{returns}
use webrtc_hls_pipeline.Whip.Tracks.{TrackManager, get_track_pair, read_rtp, remove}
use webrtc_hls_pipeline.Whip.Tracks.Invariant.{IsSound, IsReader, after_closes, remove_lem}

pub closed_after_closes :
    (a pair : ℕ) (m : TrackManager)
    → ((b : ℕ) → IsReader (m.readers b))
    → ((m.pairs pair).video_reader ≡ some a) ⊎ ((m.pairs pair).audio_reader ≡ some a)
    → ((after_closes pair m).readers a).closed ≡ true
closed_after_closes a pair m h o = ground (arith, h a)

-- After `Remove` of a session that has tracks, its video and its audio reader both answer `io.EOF`,
-- whatever the track would return, and the session is unknown; other sessions keep their pairs.
pub remove-ends-readers {ℓ} :
    {A : Type ℓ} (i j a pair : ℕ) (m m' : TrackManager) (packet : A)
    → IsSound m
    → m.tracks i ≡ some pair
    → ((m.pairs pair).video_reader ≡ some a) ⊎ ((m.pairs pair).audio_reader ≡ some a)
    → remove i m ≡ returns m'
    → (read_rtp a m' packet ≡ none)
      × (get_track_pair j m' ≡ (if i == j then none else get_track_pair j m))
unfolding read_rtp get_track_pair
remove-ends-readers i j a pair m m' packet h e o r =
    ground (arith, remove_lem i m h, closed_after_closes a pair m h.readers o)
