-- ===== src/Server/Wiring/Waiting.antt =====
-- The goroutines that wait for a session's tracks.
use webrtc_hls_pipeline.Prelude.{
  ℕ, ◌≡◌, refl, ap, ◌∙◌, true, none, some, List, [], ◌∷◌, ◌++◌, length, get_elem?, arith,
  if◌then◌else◌, is_some, Bool, false,
}
use webrtc_hls_pipeline.Go.{returns, ◌>>=◌}
use webrtc_hls_pipeline.Whip.Tracks.{
  TrackManager, Kind, get_or_create_pair, get_track_pair, arrives, exec,
}
use webrtc_hls_pipeline.Whip.Tracks.Invariant.{IsSound}
use webrtc_hls_pipeline.Whip.Tracks.Safety.{after, exec_lem}
use webrtc_hls_pipeline.Whip.Tracks.Readiness.{both, view, is_ready, is_ready-view}
use webrtc_hls_pipeline.Transcode.Manager.{
  Manager, Launch, mkdir_fails, pipe_fails, exec_fails, launched, start, is_running,
}
use webrtc_hls_pipeline.Server.Wiring.{
  Server, spawn, remove_at, on_track, start_if_idle, wake, resume,
}

-- The manager after a track of a session has arrived.
abbrev pub arrived : ℕ → ℕ → Kind → TrackManager → TrackManager
arrived i track k m = after (arrives i track k) m

pub first_pair :
    (i track : ℕ) (k : Kind) (m : TrackManager)
    → m.tracks i ≡ none
    → (arrived i track k m).tracks i ≡ some m.next_pair
unfolding after get_or_create_pair
first_pair i track k m e = ground (arith, e)

pub same_pair :
    (i track pair : ℕ) (k : Kind) (m : TrackManager)
    → m.tracks i ≡ some pair
    → (arrived i track k m).tracks i ≡ some pair
unfolding after get_or_create_pair
same_pair i track pair k m e = ground (arith, e)

-- A track that arrives leaves a goroutine on the pair of its session.
pub on_track_lem :
    (i track pair : ℕ) (k : Kind) (s : Server)
    → IsSound s.tracks
    → (arrived i track k s.tracks).tracks i ≡ some pair
    → on_track i track k s
      ≡ returns
          (record s { tracks = arrived i track k s.tracks; waiting = s.waiting ++ (i, pair) ∷ [] })
unfolding on_track get_track_pair exec
on_track_lem i track pair k s sound e =
    ap (λ g. g >>= λ m. returns (spawn i (get_track_pair i m) (record s { tracks = m })))
      (exec_lem (arrives i track k) s.tracks sound)
    ∙ ap (λ o. returns (spawn i o (record s { tracks = arrived i track k s.tracks }))) e

pub ready_pair :
    (i pair : ℕ) (m : TrackManager)
    → IsSound m
    → m.tracks i ≡ some pair
    → (m.pairs pair).ready ≡ both (view i m)
unfolding is_ready
ready_pair i pair m sound e = ground (arith, e, is_ready-view i m sound)

pub get_elem?-append_self {ℓ} :
    {A : Type ℓ} (xs ys : List A) (y : A) → get_elem? (xs ++ y ∷ ys) (length xs) ≡ some y
get_elem?-append_self [] ys y = refl
get_elem?-append_self (x ∷ xs) ys y = get_elem?-append_self xs ys y

pub remove_at-append :
    (xs ys : List (ℕ × ℕ)) (y : ℕ × ℕ) → remove_at (length xs) (xs ++ y ∷ ys) ≡ xs ++ ys
remove_at-append [] ys y = refl
remove_at-append (x ∷ xs) ys y = ap (λ l. x ∷ l) (remove_at-append xs ys y)

pub wake_ready :
    (result : Launch) (k i pair : ℕ) (s : Server)
    → (s.tracks.pairs pair).ready ≡ true
    → wake result k (some (i, pair)) s
      ≡ start_if_idle result i (record s { waiting = remove_at k s.waiting })
unfolding wake
wake_ready result k i pair s ready =
    ap (λ b. if b then start_if_idle result i (record s { waiting = remove_at k s.waiting }) else s)
      ready

-- A goroutine whose pair is ready runs to its end.
pub resume_lem :
    (result : Launch) (i pair : ℕ) (ws vs : List (ℕ × ℕ)) (s : Server)
    → s.waiting ≡ ws ++ (i, pair) ∷ vs
    → (s.tracks.pairs pair).ready ≡ true
    → resume result (length ws) s ≡ start_if_idle result i (record s { waiting = ws ++ vs })
unfolding resume
resume_lem result i pair ws vs s e ready =
    ap (λ l. wake result (length ws) (get_elem? l (length ws)) s) e
    ∙ ap (λ o. wake result (length ws) o s) (get_elem?-append_self ws vs (i, pair))
    ∙ wake_ready result (length ws) i pair s ready
    ∙ ap (λ l. start_if_idle result i (record s { waiting = l }))
        (ap (remove_at (length ws)) e ∙ remove_at-append ws vs (i, pair))

pub start_if_idle-idle :
    (result : Launch) (i : ℕ) (s : Server)
    → s.transcode.pipelines i ≡ none
    → start_if_idle result i s ≡ record s { transcode = (start i result s.transcode).0 }
unfolding start_if_idle is_running
start_if_idle-idle result i s e =
    ap (λ o. if is_some o then s else record s { transcode = (start i result s.transcode).0 }) e

-- A goroutine whose pair is not ready blocks.
pub resume-blocks :
    (result : Launch) (i pair : ℕ) (ws vs : List (ℕ × ℕ)) (s : Server)
    → s.waiting ≡ ws ++ (i, pair) ∷ vs
    → (s.tracks.pairs pair).ready ≡ false
    → resume result (length ws) s ≡ s
unfolding resume wake
resume-blocks result i pair ws vs s e waits =
    ap (λ l. wake result (length ws) (get_elem? l (length ws)) s) e
    ∙ ap (λ o. wake result (length ws) o s) (get_elem?-append_self ws vs (i, pair))
    ∙ ap
        (λ b.
          if b
          then start_if_idle result i (record s { waiting = remove_at (length ws) s.waiting })
          else s)
        waits

pub start_if_idle-running :
    (result : Launch) (i p : ℕ) (s : Server)
    → s.transcode.pipelines i ≡ some (some p)
    → start_if_idle result i s ≡ s
unfolding start_if_idle is_running
start_if_idle-running result i p s e =
    ap (λ o. if is_some o then s else record s { transcode = (start i result s.transcode).0 }) e

pub start-pipeline :
    (i : ℕ) (m : Manager)
    → m.pipelines i ≡ none
    → (start i launched m).0.pipelines i ≡ some (some m.next)
unfolding start
start-pipeline i m e = ground (arith, e)

abbrev pub is_launched : Launch → Bool
is_launched launched = true
is_launched _ = false

pub start-failed :
    (result : Launch) (i : ℕ) (m : Manager)
    → is_launched result ≡ false
    → m.pipelines i ≡ none
    → ((start i result m).0.pipelines i ≡ none) × ((start i result m).0.next ≡ m.next)
unfolding start
start-failed mkdir_fails i m f e = (ground (arith, e), ground (arith, e))
start-failed pipe_fails i m f e = (ground (arith, e), ground (arith, e))
start-failed exec_fails i m f e = (ground (arith, e), ground (arith, e))
start-failed launched i m f e = absurd (ground (arith, f))

-- The entry of a session without one after a `Start`.
pub start-entry :
    (result : Launch) (i : ℕ) (m : Manager)
    → m.pipelines i ≡ none
    → (start i result m).0.pipelines i ≡ (if is_launched result then some (some m.next) else none)
start-entry launched i m e = start-pipeline i m e
start-entry mkdir_fails i m e = (start-failed mkdir_fails i m refl e).0
start-entry pipe_fails i m e = (start-failed pipe_fails i m refl e).0
start-entry exec_fails i m e = (start-failed exec_fails i m refl e).0
