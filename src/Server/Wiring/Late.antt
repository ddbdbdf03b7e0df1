-- ===== src/Server/Wiring/Late.antt =====
-- A goroutine that starts FFmpeg after its stream is over.
use webrtc_hls_pipeline.Prelude.{
  ℕ, ◌≡◌, ◌⊎◌, refl, ap, sym, subst, of_if, Bool, ◌∙◌, true, Option, none, some, List, [], ◌∷◌,
  ◌++◌, length, arith, if◌then◌else◌, is_some, get_elem?, delete, Option-cases, inl, inr,
}
use webrtc_hls_pipeline.Go.{Go, returns, ◌>>=◌}
use webrtc_hls_pipeline.Whip.Tracks.{
  TrackManager, Kind, arrives, removes, exec, get_track_pair, remove,
}
use webrtc_hls_pipeline.Whip.Tracks.Invariant.{IsSound, after_closes, after_closes-pairs}
use webrtc_hls_pipeline.Whip.Tracks.Removal.{closed_after_closes}
use webrtc_hls_pipeline.Whip.Tracks.Safety.{after, exec_lem, after-IsSound}
use webrtc_hls_pipeline.Transcode.Manager.{
  Manager, Launch, mkdir_fails, pipe_fails, exec_fails, launched, start, stop, is_running,
}
use webrtc_hls_pipeline.Recording.Worker.{enqueue}
use webrtc_hls_pipeline.Server.Wiring.{
  Server, spawn, remove_at, on_track, start_if_idle, wake, resume, on_disconnect,
}
use webrtc_hls_pipeline.Server.Wiring.Waiting.{start-pipeline, start_if_idle-idle, resume_lem}
use webrtc_hls_pipeline.Server.Wiring.Disconnecting.{forgotten, remove-tracked}

-- What may happen without the end of a stream.
pub data Quiet : Type 0 where
  track_arrives : (session_id track : ℕ) → Kind → Quiet
  resumes : Launch → ℕ → Quiet

unfoldable pub quiet_step : Quiet → Server → Go Server
quiet_step (track_arrives i x k) s = on_track i x k s
quiet_step (resumes result k) s = returns (resume result k s)

unfoldable pub quiet_run : List Quiet → Server → Go Server
unfolding quiet_step
quiet_run [] s = returns s
quiet_run (q ∷ qs) s = quiet_step q s >>= quiet_run qs

record IsHeld (i p : ℕ) (s : Server) : Type 0 where
  sound : IsSound s.tracks
  held : s.transcode.pipelines i ≡ some (some p)

start-other :
    (i j p : ℕ) (result : Launch) (m : Manager)
    → m.pipelines i ≡ some (some p)
    → m.pipelines j ≡ none
    → (start j result m).0.pipelines i ≡ some (some p)
unfolding start
start-other i j p mkdir_fails m e f = ground (arith, e, f)
start-other i j p pipe_fails m e f = ground (arith, e, f)
start-other i j p exec_fails m e f = ground (arith, e, f)
start-other i j p launched m e f = ground (arith, e, f)

start_if_idle-IsHeld :
    (i p j : ℕ) (result : Launch) (s : Server)
    → IsHeld i p s
    → IsHeld i p (start_if_idle result j s)
unfolding start_if_idle is_running
start_if_idle-IsHeld i p j result s h =
    let started : Server = record s { transcode = (start j result s.transcode).0 } in
    elim (Option-cases (s.transcode.pipelines j)) [
      | inl e ↦
          subst (λ o. IsHeld i p (if is_some o then s else started)) (sym e)
            (record { sound = h.sound; held = start-other i j p result s.transcode h.held e })
      | inr (o, e) ↦ subst (λ o. IsHeld i p (if is_some o then s else started)) (sym e) h
    ]

wake-IsHeld :
    (i p k : ℕ) (result : Launch) (o : Option (ℕ × ℕ)) (s : Server)
    → IsHeld i p s
    → IsHeld i p (wake result k o s)
unfolding wake
wake-IsHeld i p k result none s h = h
wake-IsHeld i p k result (some (j, pair)) s h =
    let s' : Server = record s { waiting = remove_at k s.waiting } in
    of_if (IsHeld i p) (s.tracks.pairs pair).ready (start_if_idle result j s') s
      (λ y. start_if_idle-IsHeld i p j result s' (record { sound = h.sound; held = h.held }))
      (λ n. h)

spawn-IsHeld : (i p j : ℕ) (o : Option ℕ) (s : Server) → IsHeld i p s → IsHeld i p (spawn j o s)
spawn-IsHeld i p j none s h = h
spawn-IsHeld i p j (some pair) s h = record { sound = h.sound; held = h.held }

on_track-IsHeld :
    (i p j x : ℕ) (k : Kind) (s : Server)
    → IsHeld i p s
    → (s' : Server) × (on_track j x k s ≡ returns s') × IsHeld i p s'
unfolding on_track exec
on_track-IsHeld i p j x k s h =
    let m = after (arrives j x k) s.tracks in
    let s₁ : Server = record s { tracks = m } in
    (
      spawn j (get_track_pair j m) s₁,
      ap (λ g. g >>= λ m. returns (spawn j (get_track_pair j m) (record s { tracks = m })))
          (exec_lem (arrives j x k) s.tracks h.sound),
      spawn-IsHeld i p j (get_track_pair j m) s₁
          (record { sound = after-IsSound (arrives j x k) s.tracks h.sound; held = h.held }),
    )

quiet_run-IsHeld :
    (i p : ℕ) (qs : List Quiet) (s : Server)
    → IsHeld i p s
    → (s' : Server) × (quiet_run qs s ≡ returns s') × IsHeld i p s'
unfolding quiet_run resume
quiet_run-IsHeld i p [] s h = (s, refl, h)
quiet_run-IsHeld i p (track_arrives j x k ∷ qs) s h =
    let (s₁, e, h₁) = on_track-IsHeld i p j x k s h in
    let (s₂, f, h₂) = quiet_run-IsHeld i p qs s₁ h₁ in (s₂, ap (λ g. g >>= quiet_run qs) e ∙ f, h₂)
quiet_run-IsHeld i p (resumes result k ∷ qs) s h =
    quiet_run-IsHeld i p qs (resume result k s)
      (wake-IsHeld i p k result (get_elem? s.waiting k) s h)

forgotten-IsSound :
    (i pair : ℕ) (m : TrackManager)
    → m.tracks i ≡ some pair
    → IsSound m
    → IsSound (forgotten i pair m)
unfolding forgotten after
forgotten-IsSound i pair m e sound =
    subst IsSound
      (ap
        (λ o. elim o [
          | none ↦ m
          | some pair ↦ record (after_closes pair m) {
            tracks = delete i (after_closes pair m).tracks;
          }
        ])
        e)
      (after-IsSound (removes i) m sound)

forgotten-ready :
    (i pair : ℕ) (m : TrackManager) → ((forgotten i pair m).pairs pair).ready ≡ (m.pairs pair).ready
unfolding forgotten
forgotten-ready i pair m = ap (λ f. (f pair).ready) (after_closes-pairs pair m)

drained :
    (i pair b : ℕ) (m : TrackManager)
    → IsSound m
    → ((m.pairs pair).video_reader ≡ some b) ⊎ ((m.pairs pair).audio_reader ≡ some b)
    → ((forgotten i pair m).readers b).closed ≡ true
unfolding forgotten
drained i pair b m sound reads = closed_after_closes b pair m sound.readers reads

stop-absent :
    (in_time : Bool) (i : ℕ) (m : Manager) → m.pipelines i ≡ none → stop in_time i m ≡ returns m
unfolding stop
stop-absent in_time i m e = ground (arith, e)

-- The server after the callback for a session with no pipeline.
abbrev left_idle : ℕ → ℕ → ℕ → Server → Server
left_idle i t pair s = record s {
  tracks = forgotten i pair s.tracks;
  worker = enqueue (record { session_id = i; tenant_id = t }) s.worker;
}

on_disconnect-idle :
    (in_time : Bool) (i t pair : ℕ) (s : Server)
    → s.transcode.pipelines i ≡ none
    → s.tracks.tracks i ≡ some pair
    → IsSound s.tracks
    → on_disconnect in_time i t s ≡ returns (left_idle i t pair s)
unfolding on_disconnect
on_disconnect-idle in_time i t pair s idle e sound =
    let w = enqueue (record { session_id = i; tenant_id = t }) s.worker in
    ap
      (λ g. g >>= λ m.
        remove i s.tracks >>= λ tr. returns (record s { transcode = m; tracks = tr; worker = w }))
      (stop-absent in_time i s.transcode idle)
    ∙ ap (λ g. g >>= λ tr. returns (record s { tracks = tr; worker = w }))
        (remove-tracked i pair s.tracks e sound)

-- A stream may be over before a goroutine that waits for its tracks goes on, with the session still
-- without a pipeline. Then the readers are closed and the goroutine starts FFmpeg on them all the
-- same: the pipeline stays the session's entry whatever tracks arrive and whichever goroutines go
-- on, until another stream ends, so that FFmpeg is not started for a next stream of the session.
pub late_start_stays :
    (in_time : Bool) (i t pair b : ℕ) (ws vs : List (ℕ × ℕ)) (qs : List Quiet) (s : Server)
    → IsSound s.tracks
    → s.tracks.tracks i ≡ some pair
    → (s.tracks.pairs pair).ready ≡ true
    → ((s.tracks.pairs pair).video_reader ≡ some b) ⊎ ((s.tracks.pairs pair).audio_reader ≡ some b)
    → s.transcode.pipelines i ≡ none
    → s.waiting ≡ ws ++ (i, pair) ∷ vs
    → (s₁ s₂ : Server) × (on_disconnect in_time i t s ≡ returns s₁)
      × ((s₁.tracks.readers b).closed ≡ true)
      × (quiet_run qs (resume launched (length ws) s₁) ≡ returns s₂)
      × (s₂.transcode.pipelines i ≡ some (some s.transcode.next))
late_start_stays in_time i t pair b ws vs qs s sound e ready reads idle queue =
    let s₁ = left_idle i t pair s in
    let sound₁ = forgotten-IsSound i pair s.tracks e sound in
    let late : resume launched (length ws) s₁
        ≡ start_if_idle launched i (record s₁ { waiting = ws ++ vs }) =
      resume_lem launched i pair ws vs s₁ queue (forgotten-ready i pair s.tracks ∙ ready) in
    let started = late ∙ start_if_idle-idle launched i (record s₁ { waiting = ws ++ vs }) idle in
    let held : IsHeld i s.transcode.next (resume launched (length ws) s₁) =
      subst (IsHeld i s.transcode.next) (sym started)
        (record { sound = sound₁; held = start-pipeline i s.transcode idle }) in
    let (s₂, ran, h) =
      quiet_run-IsHeld i s.transcode.next qs (resume launched (length ws) s₁) held in
    (
      s₁,
      s₂,
      on_disconnect-idle in_time i t pair s idle e sound,
      drained i pair b s.tracks sound reads,
      ran,
      h.held,
    )
