-- ===== src/Recording/Worker/Loop/Stopped.antt =====
-- What the worker records after `Stop`.
use webrtc_hls_pipeline.Prelude.{
  ℕ, ◌≡◌, refl, sym, ap, subst, ◌∙◌, ◌⊎◌, String, Bool, true, false, ◌&&◌, none, some, List, [],
  ◌∷◌, of_if, length, ltb, arith, ◌==◌, Bool-cases, inl, inr,
}
use webrtc_hls_pipeline.Text.{Bytes}
use webrtc_hls_pipeline.Events.{publish}
use webrtc_hls_pipeline.Session.{set_mp4_url}
use webrtc_hls_pipeline.Hls.Vod.{mark_as_vod}
use webrtc_hls_pipeline.Recording.Worker.{
  Worker, Job, Recording, Services, enqueue, take_job, update_recording, queue_capacity, set_failed,
  set_ready, recording_url,
}
use webrtc_hls_pipeline.Recording.Worker.Loop.{
  Loop, Work, idle, inserts, marks, joins, updates, sets_url, announces, LoopStep, stops, enqueues,
  rounds, advances, under_context, work_on, select, round, advance, loop_step, loop_run,
}

-- Whether `MarkAsVOD` is the next call, for this session.
abbrev pub is_marking : ℕ → Work → Bool
is_marking i (marks rec_id job) = job.session_id == i
is_marking i _ = false

-- A directory that stays, or that the job in work has marked.
abbrev pub StaysOrMarked : ℕ → Loop → Loop → Type 0
StaysOrMarked i l l' =
    ((l'.worker.segment_dir i ≡ l.worker.segment_dir i)
      × (is_marking i l'.work ≡ true → is_marking i l.work ≡ true))
    ⊎ ((is_marking i l.work ≡ true)
        × (l'.worker.segment_dir i ≡ (mark_as_vod (l.worker.segment_dir i)).0)
        × (is_marking i l'.work ≡ false))

-- The rows and the events are the same, and so are the directories, but for the one that the job in
-- work was about to mark, which may be marked now.
pub record HasSameRecords (l l' : Loop) : Type 0 where
  pub recordings : l'.worker.recordings ≡ l.worker.recordings
  pub sessions : l'.worker.sessions ≡ l.worker.sessions
  pub published : l'.worker.published ≡ l.worker.published
  pub segment_dir : (i : ℕ) → StaysOrMarked i l l'

same : (l : Loop) → HasSameRecords l l
same l = record {
  recordings = refl;
  sessions = refl;
  published = refl;
  segment_dir = λ i. inl (refl, λ e. e);
}

HasSameRecords-trans : (a b c : Loop) → HasSameRecords a b → HasSameRecords b c → HasSameRecords a c
HasSameRecords-trans a b c p q = record {
  recordings = q.recordings ∙ p.recordings;
  sessions = q.sessions ∙ p.sessions;
  published = q.published ∙ p.published;
  segment_dir = λ i. elim (p.segment_dir i) [
    | inl (e, k) ↦ elim (q.segment_dir i) [
      | inl (f, n) ↦ inl (f ∙ e, λ x. k (n x))
      | inr (m, f, n) ↦ inr (k m, f ∙ ap (λ d. (mark_as_vod d).0) e, n)
    ]
    | inr (m, e, n) ↦ elim (q.segment_dir i) [
      | inl (f, k) ↦ elim (Bool-cases (is_marking i c.work)) [
        | inl y ↦ absurd (ground (arith, k y, n))
        | inr o ↦ inr (m, f ∙ e, o)
      ]
      | inr (k, f, o) ↦ absurd (ground (arith, k, n))
    ]
  ];
}

update_recording-down :
    (i : ℕ) (f : Recording → Recording) (rs : List Recording) → update_recording false i f rs ≡ rs
unfolding update_recording
update_recording-down i f [] = refl
update_recording-down i f (r ∷ rs) = ap (λ x. r ∷ x) (update_recording-down i f rs)

enqueued-HasSameRecords :
    (job : Job) (l : Loop) → HasSameRecords l (record l { worker = enqueue job l.worker })
unfolding enqueue
enqueued-HasSameRecords job l =
    of_if (λ (w : Worker). HasSameRecords l (record l { worker = w }))
      (ltb (length l.worker.jobs) queue_capacity) _ _
      (λ _. record {
        recordings = refl;
        sessions = refl;
        published = refl;
        segment_dir = λ i. inl (refl, λ e. e);
      })
      (λ _. same l)

taken-HasSameRecords :
    (jobs : List Job) (l : Loop)
    → HasSameRecords l (
        work_on
          (elim jobs [ [] ↦ none | job ∷ rest ↦ some (job, record l.worker { jobs = rest }) ])
          l)
taken-HasSameRecords [] l = same l
taken-HasSameRecords (job ∷ rest) l = record {
  recordings = refl;
  sessions = refl;
  published = refl;
  segment_dir = λ i. inl (refl, λ e. absurd (ground (arith, e)));
}

selected-HasSameRecords :
    (prefers_end : Bool) (w : Work) (l : Loop) → HasSameRecords l (select prefers_end w l)
unfolding take_job
selected-HasSameRecords prefers_end idle l =
    of_if (HasSameRecords l) l.ended _ _ (λ _. same l)
      (λ _.
        of_if (HasSameRecords l) (l.cancelled && prefers_end) _ _
          (λ _. record {
            recordings = refl;
            sessions = refl;
            published = refl;
            segment_dir = λ i. inl (refl, λ e. e);
          })
          (λ _. taken-HasSameRecords l.worker.jobs l))
selected-HasSameRecords prefers_end _ l = same l

module _ (sort : List Bytes → List Bytes) (uuid_string : ℕ → String) where
  -- A call of the job in work under a cancelled context.
  advanced-HasSameRecords :
      (s : Services) (rec_id now : ℕ) (work : Work) (w : Worker) (c e : Bool)
      → let l : Loop = record { worker = w; work = work; cancelled = c; ended = e } in
        let p = advance sort uuid_string (under_context true s) rec_id now work w in
        HasSameRecords l (record l { work = p.0; worker = p.1 })
  unfolding advance under_context
  advanced-HasSameRecords s rec_id now idle w c e = same _
  advanced-HasSameRecords s rec_id now (inserts job) w c e = record {
    recordings = refl;
    sessions = refl;
    published = refl;
    segment_dir = λ i. inl (refl, λ e. absurd (ground (arith, e)));
  }
  advanced-HasSameRecords s rec_id now (marks r job) w c e = record {
    recordings = refl;
    sessions = refl;
    published = refl;
    segment_dir = λ i. elim (Bool-cases (job.session_id == i)) [
      | inl y ↦ inr (y, ground (arith, y), refl)
      | inr n ↦ inl (ground (arith, n), λ e. absurd (ground (arith, e)))
    ];
  }
  advanced-HasSameRecords s rec_id now (joins r job) w c e = record {
    recordings = refl;
    sessions = refl;
    published = refl;
    segment_dir = λ i. inl (refl, λ e. absurd (ground (arith, e)));
  }
  advanced-HasSameRecords s rec_id now (updates r job false) w c e = record {
    recordings = update_recording-down r (set_failed now) w.recordings;
    sessions = refl;
    published = refl;
    segment_dir = λ i. inl (refl, λ e. absurd (ground (arith, e)));
  }
  advanced-HasSameRecords s rec_id now (updates r job true) w c e = record {
    recordings =
        update_recording-down r (set_ready (recording_url (uuid_string job.session_id)) now)
          w.recordings;
    sessions = refl;
    published = refl;
    segment_dir = λ i. inl (refl, λ e. absurd (ground (arith, e)));
  }
  advanced-HasSameRecords s rec_id now (sets_url job) w c e =
      unfold set_mp4_url in
      record {
        recordings = refl;
        sessions = refl;
        published = refl;
        segment_dir = λ i. inl (refl, λ e. absurd (ground (arith, e)));
      }
  advanced-HasSameRecords s rec_id now (announces job) w c e =
      unfold publish in
      record {
        recordings = refl;
        sessions = refl;
        published = refl;
        segment_dir = λ i. inl (refl, λ e. absurd (ground (arith, e)));
      }

  loop_step-HasSameRecords :
      (e : LoopStep) (l : Loop)
      → l.cancelled ≡ true
      → HasSameRecords l (loop_step sort uuid_string e l)
  unfolding loop_step
  loop_step-HasSameRecords stops l c = record {
    recordings = refl;
    sessions = refl;
    published = refl;
    segment_dir = λ i. inl (refl, λ e. e);
  }
  loop_step-HasSameRecords (enqueues job) l c = enqueued-HasSameRecords job l
  loop_step-HasSameRecords (rounds prefers_end) l c =
      unfold round in selected-HasSameRecords prefers_end l.work l
  loop_step-HasSameRecords (advances s rec_id now) l c =
      subst
        (λ b.
          let p = advance sort uuid_string (under_context b s) rec_id now l.work l.worker in
          HasSameRecords l (record l { work = p.0; worker = p.1 }))
        (sym c) (advanced-HasSameRecords s rec_id now l.work l.worker l.cancelled l.ended)

selected-cancelled :
    (prefers_end : Bool) (w : Work) (l : Loop) → (select prefers_end w l).cancelled ≡ l.cancelled
unfolding take_job
selected-cancelled prefers_end idle l = ground arith
selected-cancelled prefers_end _ l = refl

loop_step-cancelled :
    (sort : List Bytes → List Bytes) (uuid_string : ℕ → String) (e : LoopStep) (l : Loop)
    → l.cancelled ≡ true
    → (loop_step sort uuid_string e l).cancelled ≡ true
unfolding loop_step round
loop_step-cancelled sort uuid_string stops l c = refl
loop_step-cancelled sort uuid_string (enqueues job) l c = c
loop_step-cancelled sort uuid_string (rounds prefers_end) l c =
    selected-cancelled prefers_end l.work l ∙ c
loop_step-cancelled sort uuid_string (advances s rec_id now) l c = c

-- After `Stop`, also one that comes between two calls of a job in work, whatever jobs are added, however
-- the loop's `select` chooses and however far the job goes on: the rows of the recordings and of the
-- sessions and the events stay as they are, so that a recording in work keeps its row; and the
-- directories, taken without the concat list and FFmpeg's output, stay, but that `MarkAsVOD` may still
-- run once, if it was the next call of the job in work, on the directory of that job.
pub loop_run-HasSameRecords :
    (sort : List Bytes → List Bytes) (uuid_string : ℕ → String) (es : List LoopStep) (l : Loop)
    → l.cancelled ≡ true
    → HasSameRecords l (loop_run sort uuid_string es l)
unfolding loop_run
loop_run-HasSameRecords sort uuid_string [] l c = same l
loop_run-HasSameRecords sort uuid_string (e ∷ es) l c =
    let l' = loop_step sort uuid_string e l in
    HasSameRecords-trans l l' (loop_run sort uuid_string es l')
      (loop_step-HasSameRecords sort uuid_string e l c)
      (loop_run-HasSameRecords sort uuid_string es l' (loop_step-cancelled sort uuid_string e l c))
