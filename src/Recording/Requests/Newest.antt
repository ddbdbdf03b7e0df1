-- ===== src/Recording/Requests/Newest.antt =====
-- The answer of `HandleGetRecording` where a row is added that is newer than the others.
use webrtc_hls_pipeline.Prelude.{
  ℕ, ◌≡◌, ◌≢◌, refl, ap, ◌∙◌, Bool, true, false, ◌&&◌, ◌||◌, some, List, [], ◌∷◌, ◌++◌, keep_if,
  AllPass, All-append, KeepsRows, leb, ltb, arith, ◌==◌, str_eq, eq_iff,
}
use webrtc_hls_pipeline.Session.Handlers.{answers}
use webrtc_hls_pipeline.Recording.Worker.{Recording}
use webrtc_hls_pipeline.Recording.Requests.{info_of, answer_first, handle_get_recording}

-- Whether the first row is created at the time or later.
abbrev pub is_led : ℕ → List Recording → Bool
is_led n [] = false
is_led n (r ∷ rs) = leb n r.created_at

-- ORDER BY created_at DESC: the rows are those that matched, and none is newer than the first.
pub record IsNewestFirst (newest_first : List Recording → List Recording) : Type 0 where
  pub keeps : KeepsRows newest_first
  pub leads : (rows : List Recording) → AllPass (λ r. is_led r.created_at (newest_first rows)) rows

-- A row that is older, or shows the same.
shows : Recording → Recording → Bool
shows r q =
    ltb q.created_at r.created_at
    || (q.id == r.id
        && (q.session_id == r.session_id
            && (str_eq q.status r.status && str_eq q.mp4_url r.mp4_url)))

answer_first-newest :
    (r : Recording) (rows : List Recording)
    → is_led r.created_at rows ≡ true
    → AllPass (shows r) rows
    → answer_first rows ≡ answers 200 (info_of r)
unfolding shows
answer_first-newest r [] e a = absurd (ground (arith, e))
answer_first-newest r (q ∷ rows) e a =
    ground (arith, e, a.0, eq_iff q.status r.status, eq_iff q.mp4_url r.mp4_url)

AllPass-last :
    (p : Recording → Bool) (rows : List Recording) (r : Recording)
    → AllPass p (rows ++ r ∷ [])
    → p r ≡ true
AllPass-last p [] r a = a.0
AllPass-last p (q ∷ rows) r a = AllPass-last p rows r a.1

shows-older :
    (r : Recording) (rows : List Recording)
    → AllPass (λ q. ltb q.created_at r.created_at) rows
    → AllPass (shows r) rows
unfolding shows
shows-older r [] a = tt
shows-older r (q ∷ rows) a = (ground (arith, a.0), shows-older r rows a.1)

shows_refl : (r : Recording) → shows r r ≡ true
unfolding shows
shows_refl r = ground (arith, eq_iff r.status r.status, eq_iff r.mp4_url r.mp4_url)

-- A last row that matches, and one that does not.
keep_if-match :
    (p : Recording → Bool) (rows : List Recording) (r : Recording)
    → p r ≡ true
    → keep_if p (rows ++ r ∷ []) ≡ keep_if p rows ++ r ∷ []
keep_if-match p [] r e = ground (arith, e)
keep_if-match p (q ∷ rows) r e = ground (arith, keep_if-match p rows r e)

keep_if-miss :
    (p : Recording → Bool) (rows : List Recording) (r : Recording)
    → p r ≡ false
    → keep_if p (rows ++ r ∷ []) ≡ keep_if p rows
keep_if-miss p [] r e = ground (arith, e)
keep_if-miss p (q ∷ rows) r e = ground (arith, keep_if-miss p rows r e)

-- The rows of a table whose last row is newer than those of its session before it.
pub handle_get_recording-last :
    (newest_first : List Recording → List Recording) (r : Recording) (rows : List Recording)
    → IsNewestFirst newest_first
    → AllPass
        (λ q. ltb q.created_at r.created_at)
        (keep_if (λ q. q.session_id == r.session_id) rows)
    → handle_get_recording newest_first true (some r.session_id) (rows ++ r ∷ [])
      ≡ answers 200 (info_of r)
unfolding handle_get_recording
handle_get_recording-last newest_first r rows newest older =
    let p : Recording → Bool = λ q. q.session_id == r.session_id in
    let matching = keep_if p rows ++ r ∷ [] in
    let split : keep_if p (rows ++ r ∷ []) ≡ matching = keep_if-match p rows r (ground arith) in
    ap (λ x. answer_first (newest_first x)) split
    ∙ answer_first-newest r (newest_first matching)
        (AllPass-last (λ q. is_led q.created_at (newest_first matching)) (keep_if p rows) r
          (newest.leads matching))
        (newest.keeps (shows r) matching (
          All-append (λ q. shows r q ≡ true) (keep_if p rows) (r ∷ [])
            (shows-older r (keep_if p rows) older) (shows_refl r, tt)))

pub handle_get_recording-other :
    (newest_first : List Recording → List Recording) (up : Bool) (j : ℕ) (r : Recording)
    (rows : List Recording)
    → j ≢ r.session_id
    → handle_get_recording newest_first up (some j) (rows ++ r ∷ [])
      ≡ handle_get_recording newest_first up (some j) rows
unfolding handle_get_recording
handle_get_recording-other newest_first false j r rows n = refl
handle_get_recording-other newest_first true j r rows n =
    ap (λ x. answer_first (newest_first x))
      (keep_if-miss (λ q. q.session_id == j) rows r (ground (arith, n)))
