-- ===== src/Server/Wiring/Disconnecting.antt =====
-- The end of a stream, through all the parts.
use webrtc_hls_pipeline.Prelude.{
  ℕ, ◌≡◌, ◌⊎◌, ap, ◌∙◌, Bool, true, false, none, some, [], ◌∷◌, ◌++◌, length, drop, drop-append,
  arith, ltb, delete, if◌then◌else◌,
}
use webrtc_hls_pipeline.Go.{returns, ◌>>=◌}
use webrtc_hls_pipeline.Whip.Handler.{
  Handler, PeerState, new, connecting, connected, disconnected, failed, closed, change_state,
  on_disconnected, remove_session, get_stream_session,
}
use webrtc_hls_pipeline.Whip.Handler.Gauge.{is_terminal}
use webrtc_hls_pipeline.Whip.Tracks.{TrackManager, get_track_pair, remove}
use webrtc_hls_pipeline.Whip.Tracks.Invariant.{IsSound, after_closes}
use webrtc_hls_pipeline.Whip.Tracks.Removal.{closed_after_closes}
use webrtc_hls_pipeline.Whip.Tracks.Invariant.{remove_lem}
use webrtc_hls_pipeline.Transcode.Manager.{Manager, stop, close_and_wait}
use webrtc_hls_pipeline.Recording.Worker.{Job, enqueue}
use webrtc_hls_pipeline.Server.Wiring.{Server, on_disconnect, call_back, peer_changes}

over_disconnects :
    (up redis_up : Bool) (now a : ℕ) (state : PeerState) (h : Handler)
    → is_terminal state ≡ true
    → (h.streams a).disconnected ≡ false
    → change_state up redis_up now a state h ≡ on_disconnected up redis_up now a h
unfolding change_state
over_disconnects up redis_up now a new h o d = cc
over_disconnects up redis_up now a connecting h o d = cc
over_disconnects up redis_up now a connected h o d = cc
over_disconnects up redis_up now a disconnected h o d = ground (arith, d)
over_disconnects up redis_up now a failed h o d = ground (arith, d)
over_disconnects up redis_up now a closed h o d = ground (arith, d)

abbrev job : ℕ → ℕ → Job
job i t = record { session_id = i; tenant_id = t }

stopped : Bool → ℕ → ℕ → Manager → Manager
stopped in_time i p m = close_and_wait in_time p (record m { pipelines = delete i m.pipelines })

unfoldable pub forgotten : ℕ → ℕ → TrackManager → TrackManager
forgotten i pair m = record (after_closes pair m) { tracks = delete i (after_closes pair m).tracks }

stop-running :
    (in_time : Bool) (i p : ℕ) (m : Manager)
    → m.pipelines i ≡ some (some p)
    → stop in_time i m ≡ returns (stopped in_time i p m)
unfolding stop stopped
stop-running in_time i p m e = ground (arith, e)

pub remove-tracked :
    (i pair : ℕ) (m : TrackManager)
    → m.tracks i ≡ some pair
    → IsSound m
    → remove i m ≡ returns (forgotten i pair m)
unfolding forgotten
remove-tracked i pair m e sound = ground (arith, e, remove_lem i m sound)

-- What the callback leaves.
abbrev called_back : Bool → ℕ → ℕ → ℕ → ℕ → Server → Server
called_back in_time i t p pair s = record s {
  transcode = stopped in_time i p s.transcode;
  tracks = forgotten i pair s.tracks;
  worker = enqueue (job i t) s.worker;
}

on_disconnect-streaming :
    (in_time : Bool) (i t p pair : ℕ) (s : Server)
    → s.transcode.pipelines i ≡ some (some p)
    → s.tracks.tracks i ≡ some pair
    → IsSound s.tracks
    → on_disconnect in_time i t s ≡ returns (called_back in_time i t p pair s)
unfolding on_disconnect
on_disconnect-streaming in_time i t p pair s e f sound =
    ap
      (λ g. g >>= λ m. remove i s.tracks >>= λ tr.
        returns (record s { transcode = m; tracks = tr; worker = enqueue (job i t) s.worker }))
      (stop-running in_time i p s.transcode e)
    ∙ ap
        (λ g. g >>= λ tr. returns (record s {
          transcode = stopped in_time i p s.transcode;
          tracks = tr;
          worker = enqueue (job i t) s.worker;
        }))
        (remove-tracked i pair s.tracks f sound)

module _ (up redis_up : Bool) (now : ℕ) (in_time : Bool) (a : ℕ) (state : PeerState) (s : Server)
    (over : is_terminal state ≡ true) (first : (s.whip.streams a).disconnected ≡ false) where
  peer_changes-on_disconnect :
      peer_changes up redis_up now in_time a state s
      ≡ on_disconnect in_time
          (s.whip.streams a).session_id
          (s.whip.streams a).tenant_id
          (record s { whip = on_disconnected up redis_up now a s.whip })
  unfolding peer_changes on_disconnected
  peer_changes-on_disconnect =
      ap
        (λ h.
          call_back in_time (drop (length s.whip.disconnects) h.disconnects)
            (record s { whip = h }))
        (over_disconnects up redis_up now a state s.whip over first)
      ∙ ap
          (λ calls.
            call_back in_time calls (record s { whip = on_disconnected up redis_up now a s.whip }))
          (drop-append s.whip.disconnects
            (((s.whip.streams a).session_id, (s.whip.streams a).tenant_id) ∷ []))

-- What is left of a session whose stream is over, in each part: `b` is a reader of its tracks.
pub record IsOver (i p b : ℕ) (job : Job) (s s' : Server) : Type 0 where
  pub unlisted : get_stream_session i s'.whip ≡ none
  pub stopped : s'.transcode.pipelines i ≡ none
  pub ended : ((s'.transcode.heap p).stdin_closed ≡ true) × ((s'.transcode.heap p).done ≡ true)
  pub untracked : get_track_pair i s'.tracks ≡ none
  pub drained : (s'.tracks.readers b).closed ≡ true
  pub queued :
      s'.worker.jobs
      ≡ (if ltb (length s.worker.jobs) 100 then s.worker.jobs ++ job ∷ [] else s.worker.jobs)

-- When the connection of a streaming session is disconnected, fails or closes for the first time, the
-- server does not panic: the session leaves the map of streams, its pipeline is taken out of the
-- manager with its stdin closed and its process ended, its tracks are forgotten and each of their
-- readers is closed, and its recording is queued, unless a hundred recordings wait. This holds
-- whether or not PostgreSQL and Redis answer and whether or not FFmpeg ends in time.
pub peer_changes-IsOver :
    (up redis_up : Bool) (now : ℕ) (in_time : Bool) (a p pair b : ℕ) (state : PeerState)
    (s : Server)
    → is_terminal state ≡ true
    → (s.whip.streams a).disconnected ≡ false
    → s.transcode.pipelines (s.whip.streams a).session_id ≡ some (some p)
    → s.tracks.tracks (s.whip.streams a).session_id ≡ some pair
    → ((s.tracks.pairs pair).video_reader ≡ some b) ⊎ ((s.tracks.pairs pair).audio_reader ≡ some b)
    → IsSound s.tracks
    → (s' : Server) × (peer_changes up redis_up now in_time a state s ≡ returns s')
      × IsOver
          (s.whip.streams a).session_id
          p
          b
          (record {
            session_id = (s.whip.streams a).session_id;
            tenant_id = (s.whip.streams a).tenant_id;
          })
          s
          s'
unfolding stopped forgotten enqueue close_and_wait get_stream_session on_disconnected remove_session
    get_track_pair
peer_changes-IsOver up redis_up now in_time a p pair b state s over first e f reads sound =
    let i = (s.whip.streams a).session_id in
    let t = (s.whip.streams a).tenant_id in
    let s₁ : Server = record s { whip = on_disconnected up redis_up now a s.whip } in
    (
      called_back in_time i t p pair s₁,
      peer_changes-on_disconnect up redis_up now in_time a state s over first
          ∙ on_disconnect-streaming in_time i t p pair s₁ e f sound,
      record {
        unlisted = ground arith;
        stopped = ground arith;
        ended = (ground arith, ground arith);
        untracked = ground arith;
        drained = closed_after_closes b pair s.tracks sound.readers reads;
        queued = ground arith;
      },
    )
