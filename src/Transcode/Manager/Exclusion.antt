-- ===== src/Transcode/Manager/Exclusion.antt =====
-- "Hold a placeholder so no other goroutine starts a duplicate" (internal/transcode/ffmpeg.go), over
-- all interleavings of `Start` and `Stop`.
use webrtc_hls_pipeline.Prelude.{
  ℕ, ◌≤◌, ◌<◌, ◌≡◌, refl, ap, true, false, Option, none, some, List, [], ◌∷◌, arith, mem, count,
  count-erase, mem-count, of_if,
}
use webrtc_hls_pipeline.Transcode.Manager.{
  Launch, launched, new_manager, claim, finish_start, take_out, close_and_wait, end_pumps,
  end_process,
}
use webrtc_hls_pipeline.Transcode.Manager.Schedule.{
  System, Event, claims, finishes, takes, init, dispatch, step, run,
}

abbrev pending : Option (Option ℕ) → ℕ
pending none = 0
pending (some none) = 1
pending (some (some a)) = 0

-- An entry of the map points to a pipeline of its session; each placeholder is held by one `Start`;
-- and a pipeline that no `Stop` took out is the entry of its session.
pub record IsExclusive (s : System) : Type 0 where
  pub entries :
      (i a : ℕ)
      → s.manager.pipelines i ≡ some (some a)
      → (a < s.manager.next) × ((s.manager.heap a).session_id ≡ i)
  pub held : (i : ℕ) → s.crashed ≡ false → count i s.flights ≡ pending (s.manager.pipelines i)
  pub registered :
      (a : ℕ)
      → a < s.manager.next
      → mem a s.stopped ≡ false
      → s.manager.pipelines (s.manager.heap a).session_id ≡ some (some a)

init-IsExclusive : IsExclusive init
unfolding init new_manager
init-IsExclusive = record {
  entries = λ i a e. cc;
  held = λ i e. refl;
  registered = λ a h e. elim h [ ];
}

claims-IsExclusive :
    (i : ℕ) (s : System) → IsExclusive s → s.crashed ≡ false → IsExclusive (dispatch (claims i) s)
unfolding dispatch claim
claims-IsExclusive i s h c = record {
  entries = λ j a e. ground (arith, h.entries j a);
  held = λ j e. ground (arith, h.held j c);
  registered = λ a l e. ground (arith, h.registered a);
}

finishes-IsExclusive :
    (i : ℕ) (launch : Launch) (s : System)
    → IsExclusive s
    → s.crashed ≡ false
    → IsExclusive (dispatch (finishes i launch) s)
unfolding dispatch finish_start
finishes-IsExclusive i launched s h c = record {
  entries = λ j a e. ground (arith, h.entries j a);
  held = λ j e. ground (arith, h.held j c, mem-count i s.flights, count-erase i j s.flights);
  registered = λ a l e. ground (arith, h.registered a, h.held i c, mem-count i s.flights);
}
finishes-IsExclusive i _ s h c = record {
  entries = λ j a e. ground (arith, h.entries j a);
  held = λ j e. ground (arith, h.held j c, mem-count i s.flights, count-erase i j s.flights);
  registered = λ a l e. ground (arith, h.registered a, h.held i c, mem-count i s.flights);
}

takes-IsExclusive :
    (i : ℕ) (s : System) → IsExclusive s → s.crashed ≡ false → IsExclusive (dispatch (takes i) s)
unfolding dispatch take_out
takes-IsExclusive i s h c = record {
  entries = λ j a e. ground (arith, h.entries j a);
  held = λ j e. ground (arith, h.held j c);
  registered = λ a l e. ground (arith, h.registered a);
}

dispatch-IsExclusive :
    (e : Event) (s : System) → IsExclusive s → s.crashed ≡ false → IsExclusive (dispatch e s)
unfolding dispatch close_and_wait end_pumps end_process
dispatch-IsExclusive (claims i) s h c = claims-IsExclusive i s h c
dispatch-IsExclusive (finishes i launch) s h c = finishes-IsExclusive i launch s h c
dispatch-IsExclusive (takes i) s h c = takes-IsExclusive i s h c
dispatch-IsExclusive _ s h c = record {
  entries = λ j a e. ground (arith, h.entries j a);
  held = λ j e. ground (arith, h.held j c);
  registered = λ a l e. ground (arith, h.registered a);
}

step-IsExclusive : (e : Event) (s : System) → IsExclusive s → IsExclusive (step e s)
unfolding step
step-IsExclusive e s h =
    of_if IsExclusive s.crashed s (dispatch e s) (λ _. h) (λ c. dispatch-IsExclusive e s h c)

pub run-IsExclusive : (es : List Event) (s : System) → IsExclusive s → IsExclusive (run es s)
unfolding run
run-IsExclusive [] s h = h
run-IsExclusive (e ∷ es) s h = run-IsExclusive es (step e s) (step-IsExclusive e s h)

-- Whatever calls of `Start` and `Stop` interleave, two pipelines that were launched for one session
-- and that no `Stop` has taken out of the map are one pipeline.
pub pipelines_unique :
    (es : List Event) (a b : ℕ)
    → a < (run es init).manager.next
    → b < (run es init).manager.next
    → ((run es init).manager.heap a).session_id ≡ ((run es init).manager.heap b).session_id
    → mem a (run es init).stopped ≡ false
    → mem b (run es init).stopped ≡ false
    → a ≡ b
pipelines_unique es a b la lb same sa sb =
    let h = run-IsExclusive es init init-IsExclusive in
    ground (arith, h.registered a, h.registered b, ap (run es init).manager.pipelines same)

-- Until a crash, at most one call of `Start` is at work for a session.
flights_unique :
    (es : List Event) (i : ℕ) → (run es init).crashed ≡ false → count i (run es init).flights ≤ 1
flights_unique es i c = ground (arith, (run-IsExclusive es init init-IsExclusive).held i c)

-- A `Stop` that comes while a `Start` of the same session is at work dereferences the placeholder:
-- from every reachable state, it crashes the process.
pub takes-crashes :
    (es : List Event) (i : ℕ)
    → (run es init).crashed ≡ false
    → mem i (run es init).flights ≡ true
    → (step (takes i) (run es init)).crashed ≡ true
unfolding step dispatch take_out
takes-crashes es i c m =
    ground (
      arith,
      (run-IsExclusive es init init-IsExclusive).held i c,
      mem-count i (run es init).flights,
    )
