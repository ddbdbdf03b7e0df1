-- ===== src/Recording/Worker/Queue.antt =====
-- The queue of jobs.
use webrtc_hls_pipeline.Prelude.{
  ℕ, ◌+◌, ◌-◌, ◌≡◌, refl, ◌≤◌, none, some, List, [], ◌∷◌, ◌++◌, length, length-append, ltb, arith,
  if◌then◌else◌, Bool-cases, inl, inr, ◌⊎◌,
}
use mathlib.Core.List.{append_assoc, append-nil}
use webrtc_hls_pipeline.Recording.Worker.{Job, Worker, enqueue, take_job}

pub data QueueStep : Type 0 where
  enqueues : Job → QueueStep
  takes : QueueStep

-- A worker with the jobs that were taken so far.
pub queue_step : QueueStep → Worker × List Job → Worker × List Job
unfolding enqueue take_job
queue_step (enqueues job) (w, taken) = (enqueue job w, taken)
queue_step takes (w, taken) = elim (take_job w) [
  | none ↦ (w, taken)
  | some (job, w') ↦ (w', taken ++ job ∷ [])
]

unfoldable pub queue_run : List QueueStep → Worker × List Job → Worker × List Job
unfolding queue_step
queue_run [] st = st
queue_run (q ∷ qs) st = queue_run qs (queue_step q st)

-- The jobs that were not dropped, in the order of `Enqueue`, with the number that waits.
unfoldable pub admitted_jobs : List QueueStep → ℕ → List Job
admitted_jobs [] waiting = []
admitted_jobs (enqueues job ∷ qs) waiting =
    let kept = admitted_jobs qs (waiting + 1) in
    let dropped = admitted_jobs qs waiting in if ltb waiting 100 then job ∷ kept else dropped
admitted_jobs (takes ∷ qs) waiting = admitted_jobs qs (waiting - 1)

list_cases : (xs : List Job) → (xs ≡ []) ⊎ ((x : Job) × (ys : List Job) × (xs ≡ x ∷ ys))
list_cases [] = inl refl
list_cases (x ∷ ys) = inr (x, ys, refl)

-- From any queue within its capacity, the jobs that were taken, followed by those that wait, are the
-- earlier ones followed by every job that found fewer than a hundred waiting, in their order; and
-- at most a hundred wait.
pub queue_run-order :
    (qs : List QueueStep) (w : Worker) (taken : List Job)
    → length w.jobs ≤ 100
    → ((queue_run qs (w, taken)).1 ++ (queue_run qs (w, taken)).0.jobs
        ≡ (taken ++ w.jobs) ++ admitted_jobs qs (length w.jobs))
      × (length (queue_run qs (w, taken)).0.jobs ≤ 100)
unfolding queue_run admitted_jobs queue_step enqueue take_job
queue_run-order [] w taken h = (ground (arith, append-nil (taken ++ w.jobs)), h)
queue_run-order (enqueues job ∷ qs) w taken h = elim (Bool-cases (ltb (length w.jobs) 100)) [
  | inl y ↦
      let longer = length-append w.jobs (job ∷ []) in
      let rest =
        queue_run-order qs (record w { jobs = w.jobs ++ job ∷ [] }) taken
          (ground (arith, longer, y)) in
      let kept = admitted_jobs qs (length w.jobs + 1) in
      (
        ground (
          arith,
          y,
          rest.0,
          longer,
          append_assoc taken w.jobs (job ∷ []),
          append_assoc (taken ++ w.jobs) (job ∷ []) kept,
        ),
        ground (arith, y, rest.1),
      )
  | inr n ↦
      let rest = queue_run-order qs w taken h in
      (ground (arith, n, rest.0), ground (arith, n, rest.1))
]
queue_run-order (takes ∷ qs) w taken h = elim (list_cases w.jobs) [
  | inl e ↦
      let rest = queue_run-order qs w taken h in
      (ground (arith, e, rest.0), ground (arith, e, rest.1))
  | inr (job, jobs, e) ↦
      let rest =
        queue_run-order qs (record w { jobs = jobs }) (taken ++ job ∷ []) (ground (arith, h, e)) in
      (ground (arith, e, rest.0, append_assoc taken (job ∷ []) jobs), ground (arith, e, rest.1))
]
