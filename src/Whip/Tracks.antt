-- ===== src/Whip/Tracks.antt =====
-- internal/whip/track.go. Readers and pairs are shared by pointers, so they live in a store with
-- addresses; a method that runs under a mutex is one step. `HandleTrack` releases its mutex before
-- `AddTrack`: its two stretches are steps of Whip.Tracks.Cut, and `handle_track` is the run of both
-- with nothing in between. A channel that is only closed is a flag.
pub mod Invariant
pub mod Safety
pub mod Removal
pub mod Cut
pub mod Readiness
mod Tests
use webrtc_hls_pipeline.Prelude.{
  ℕ, ◌+◌, Bool, true, false, ◌&&◌, Option, none, some, List, [], ◌∷◌, Map, empty, insert, delete,
  store, if◌then◌else◌,
}
use webrtc_hls_pipeline.Go.{Go, returns, ◌>>=◌, close_chan}

-- `Kind()` of a pion track; `AddTrack` ignores what is neither video nor audio.
pub data Kind : Type 0 where
  video audio unknown : Kind

pub record TrackReader : Type 0 where
  pub track : ℕ
  pub done : Bool  -- the channel is closed
  pub closed : Bool
  pub once : Bool  -- `once.Do` has run

pub record TrackPair : Type 0 where
  pub session_id : ℕ
  pub video_reader : Option ℕ
  pub audio_reader : Option ℕ
  pub ready : Bool  -- the channel is closed
  pub has_video : Bool
  pub has_audio : Bool

pub record TrackManager : Type 0 where
  pub readers : ℕ → TrackReader
  pub next_reader : ℕ
  pub pairs : ℕ → TrackPair
  pub next_pair : ℕ
  pub tracks : Map ℕ

abbrev pub no_reader : TrackReader
no_reader = record { track = 0; done = false; closed = false; once = false }

unfoldable pub new_track_pair : ℕ → TrackPair
new_track_pair session_id = record {
  session_id = session_id;
  video_reader = none;
  audio_reader = none;
  ready = false;
  has_video = false;
  has_audio = false;
}

unfoldable pub new_track_manager : TrackManager
unfolding new_track_pair
new_track_manager = record {
  readers = λ _. no_reader;
  next_reader = 0;
  pairs = λ _. new_track_pair 0;
  next_pair = 0;
  tracks = empty;
}

-- The switch on `track.Kind()`, with the address of the new reader.
unfoldable pub set_reader : Kind → ℕ → TrackPair → TrackPair
set_reader video a p = record p { video_reader = some a; has_video = true }
set_reader audio a p = record p { audio_reader = some a; has_audio = true }
set_reader unknown a p = p

-- The `select` on `tp.ready` that ends `AddTrack`.
unfoldable pub signal_ready : TrackPair → Go TrackPair
signal_ready p =
    if p.has_video && p.has_audio
    then (if p.ready
        then returns p
        else close_chan p.ready >>= λ closed. returns (record p { ready = closed }))
    else returns p

unfoldable pub add_track : ℕ → ℕ → Kind → TrackManager → Go TrackManager
unfolding set_reader signal_ready
add_track pair track kind m = signal_ready (set_reader kind m.next_reader (m.pairs pair)) >>= λ p.
    returns (record m {
      readers =
          store m.next_reader (record { track = track; done = false; closed = false; once = false })
            m.readers;
      next_reader = m.next_reader + 1;
      pairs = store pair p m.pairs;
    })

-- `TrackReader.Close`
unfoldable pub close_reader : ℕ → TrackManager → Go TrackManager
close_reader a m =
    if (m.readers a).once
    then returns m
    else close_chan (m.readers a).done >>= λ done. returns (record m {
      readers =
          store a (record (m.readers a) { done = done; closed = true; once = true }) m.readers;
    })

-- `TrackReader.ReadRTP` over what the track would return; `none` is `io.EOF`.
unfoldable pub read_rtp {ℓ} : {A : Type ℓ} → ℕ → TrackManager → A → Option A
read_rtp a m from_track = if (m.readers a).closed then none else some from_track

-- The locked part of `HandleTrack`: the pair of the session, made if there is none.
unfoldable pub get_or_create_pair : ℕ → TrackManager → ℕ × TrackManager
unfolding new_track_pair
get_or_create_pair session_id m = elim (m.tracks session_id) [
  | some pair ↦ (pair, m)
  | none ↦ (
    m.next_pair,
    record m {
      pairs = store m.next_pair (new_track_pair session_id) m.pairs;
      next_pair = m.next_pair + 1;
      tracks = insert session_id m.next_pair m.tracks;
    },
  )
]

unfoldable pub handle_track : ℕ → ℕ → Kind → TrackManager → Go TrackManager
unfolding get_or_create_pair add_track
handle_track session_id track kind m =
    let (pair, m') = get_or_create_pair session_id m in add_track pair track kind m'

unfoldable pub get_track_pair : ℕ → TrackManager → Option ℕ
get_track_pair session_id m = m.tracks session_id

abbrev pub close_if_set : Option ℕ → TrackManager → Go TrackManager
close_if_set none m = returns m
close_if_set (some a) m = close_reader a m

unfoldable pub remove : ℕ → TrackManager → Go TrackManager
remove session_id m = elim (m.tracks session_id) [
  | none ↦ returns m
  | some pair ↦ close_if_set (m.pairs pair).video_reader m >>= λ m₁.
      close_if_set (m.pairs pair).audio_reader m₁ >>= λ m₂.
      returns (record m₂ { tracks = delete session_id m₂.tracks })
]

-- The calls that the rest of the program makes of a track manager and its readers.
pub data Call : Type 0 where
  arrives : (session_id track : ℕ) → Kind → Call
  removes closes : ℕ → Call

unfoldable pub exec : Call → TrackManager → Go TrackManager
exec (arrives session_id track kind) m = handle_track session_id track kind m
exec (removes session_id) m = remove session_id m
exec (closes a) m = close_reader a m

unfoldable pub run : List Call → TrackManager → Go TrackManager
run [] m = returns m
run (c ∷ cs) m = exec c m >>= run cs
