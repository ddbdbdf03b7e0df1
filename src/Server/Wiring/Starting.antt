-- ===== src/Server/Wiring/Starting.antt =====
-- When FFmpeg is started for a session's tracks.
use webrtc_hls_pipeline.Prelude.{
  ℕ, ◌≡◌, true, none, some, List, [], ◌∷◌, ◌++◌, if◌then◌else◌, false,
}
use webrtc_hls_pipeline.Transcode.Manager.{Manager, Launch, start}
use webrtc_hls_pipeline.Server.Wiring.{Server, resume}
use webrtc_hls_pipeline.Server.Wiring.Waiting.{is_launched}

-- What both tracks of a session come to, from a server with `n` goroutines that wait and the manager
-- `m`: the goroutine at place `k` goes on and then the other one. If the first launch succeeds, its
-- pipeline is the session's and the second goroutine launches nothing; if it fails, the second tries
-- once more; and both are gone.
pub record IsStarted (first second : Launch) (i n k : ℕ) (m : Manager) (waiting : List (ℕ × ℕ))
    (s : Server) : Type 0 where
  pub tried : (resume first k s).transcode ≡ (start i first m).0
  pub started :
      is_launched first ≡ true → (resume first k s).transcode.pipelines i ≡ some (some m.next)
  pub once :
      is_launched first ≡ true
      → (resume second n (resume first k s)).transcode ≡ (resume first k s).transcode
  pub retried :
      is_launched first ≡ false
      → (resume second n (resume first k s)).transcode.pipelines i
        ≡ (if is_launched second then some (some m.next) else none)
  pub gone : (resume second n (resume first k s)).waiting ≡ waiting

module _ (first second : Launch) (i pair : ℕ) (ws : List (ℕ × ℕ)) (s : Server)
    (two : s.waiting ≡ ws ++ (i, pair) ∷ (i, pair) ∷ [])
    (ready : (s.tracks.pairs pair).ready ≡ true) (idle : s.transcode.pipelines i ≡ none) where
  -- The server after the first of the two.
  one_left : Server
  one_left = record s { waiting = ws ++ (i, pair) ∷ []; transcode = (start i first s.transcode).0 }
