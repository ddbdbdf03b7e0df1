-- ===== src/Server/Wiring.antt =====
-- The callbacks `OnTrack` and `OnDisconnect` of cmd/server/main.go. Each call of a component is one
-- step; `waiting` are the goroutines that block on `Ready()`, with their session and pair.
pub mod Disconnecting
pub mod Waiting
pub mod Starting
pub mod Late
mod Tests
use webrtc_hls_pipeline.Prelude.{
  ℕ, zero, suc, Bool, true, false, Option, none, some, List, [], ◌∷◌, ◌++◌, length, drop, get_elem?,
  if◌then◌else◌,
}
use webrtc_hls_pipeline.Go.{Go, returns, ◌>>=◌}
use webrtc_hls_pipeline.Whip.Handler.{Handler, PeerState, change_state}
use webrtc_hls_pipeline.Whip.Tracks.{TrackManager, Kind, handle_track, get_track_pair, remove}
use webrtc_hls_pipeline.Transcode.Manager.{Manager, Launch, start, stop, is_running}
use webrtc_hls_pipeline.Recording.Worker.{Worker, enqueue}

pub record Server : Type 0 where
  pub whip : Handler
  pub tracks : TrackManager
  pub transcode : Manager
  pub worker : Worker
  pub waiting : List (ℕ × ℕ)

-- `go func() { … }()`, if there is a pair.
abbrev pub spawn : ℕ → Option ℕ → Server → Server
spawn session_id none s = s
spawn session_id (some pair) s = record s { waiting = s.waiting ++ (session_id, pair) ∷ [] }

-- The callback of `OnTrack`.
unfoldable pub on_track : ℕ → ℕ → Kind → Server → Go Server
on_track session_id track kind s = handle_track session_id track kind s.tracks >>= λ m.
    returns (spawn session_id (get_track_pair session_id m) (record s { tracks = m }))

abbrev pub remove_at : ℕ → List (ℕ × ℕ) → List (ℕ × ℕ)
remove_at k [] = []
remove_at zero (w ∷ ws) = ws
remove_at (suc k) (w ∷ ws) = w ∷ remove_at k ws

-- What a goroutine does once it is past `Ready()`; an error of `Start` is only logged.
unfoldable pub start_if_idle : Launch → ℕ → Server → Server
start_if_idle result session_id s =
    if is_running session_id s.transcode
    then s
    else record s { transcode = (start session_id result s.transcode).0 }

-- The goroutine at place `k`: it runs to its end if its pair is ready, and blocks otherwise.
unfoldable pub wake : Launch → ℕ → Option (ℕ × ℕ) → Server → Server
unfolding start_if_idle
wake result k none s = s
wake result k (some (session_id, pair)) s =
    if (s.tracks.pairs pair).ready
    then start_if_idle result session_id (record s { waiting = remove_at k s.waiting })
    else s

unfoldable pub resume : Launch → ℕ → Server → Server
unfolding wake
resume result k s = wake result k (get_elem? s.waiting k) s

-- The callback of `OnDisconnect`.
unfoldable pub on_disconnect : Bool → ℕ → ℕ → Server → Go Server
unfolding enqueue
on_disconnect in_time session_id tenant_id s = stop in_time session_id s.transcode >>= λ m.
    remove session_id s.tracks >>= λ t. returns (record s {
      transcode = m;
      tracks = t;
      worker = enqueue (record { session_id = session_id; tenant_id = tenant_id }) s.worker;
    })

-- The calls of `disconnectCB` that a change of state makes: one or none.
abbrev pub call_back : Bool → List (ℕ × ℕ) → Server → Go Server
call_back in_time [] s = returns s
call_back in_time ((session_id, tenant_id) ∷ rest) s = on_disconnect in_time session_id tenant_id s

-- A change of the state of the connection at address `a`, with the callback that it may make.
unfoldable pub peer_changes : Bool → Bool → ℕ → Bool → ℕ → PeerState → Server → Go Server
unfolding change_state
peer_changes up redis_up now in_time a state s =
    let h = change_state up redis_up now a state s.whip in
    call_back in_time (drop (length s.whip.disconnects) h.disconnects) (record s { whip = h })
