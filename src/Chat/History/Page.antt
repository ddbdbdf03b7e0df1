-- ===== src/Chat/History/Page.antt =====
-- What a page of the history holds.
use webrtc_hls_pipeline.Prelude.{
  KeepsRows, AllPass, All-keep_if, All-take, All-reverse, length-take-le, ℕ, ◌≤◌, ◌≡◌, Bool, true,
  ◌&&◌, ◌==◌, some, List, reverse, arith, length, length-reverse, take, keep_if, ltb,
}
use webrtc_hls_pipeline.Prelude.Int.{ℤ, pos, negsuc}
use webrtc_hls_pipeline.Chat.History.{Message, clamp_limit, query_history, get_history}
use webrtc_hls_pipeline.Chat.History.Reversal.{reversed-eq-reverse}

-- A row that the query selects.
abbrev pub is_before : ℕ → ℕ → Message → Bool
is_before session_id before m = m.session_id == session_id && ltb m.created_at before

pub record IsPage (session_id before : ℕ) (rows : List Message) : Type 0 where
  pub selected : AllPass (is_before session_id before) rows
  pub at_most : length rows ≤ 100

clamp_limit-le : (limit : ℤ) → clamp_limit limit ≤ 100
unfolding clamp_limit
clamp_limit-le (pos n) = ground arith
clamp_limit-le (negsuc n) = omega arith

-- For any limit, also a negative one, `GetHistory` returns the rows of the query oldest first: at
-- most a hundred rows, all of the session and from before the given time.
pub get_history-IsPage :
    (newest_first : List Message → List Message) (session_id before : ℕ) (limit : ℤ)
    (t : List Message)
    → KeepsRows newest_first
    → (get_history newest_first true session_id before limit t
        ≡ some (reverse (query_history newest_first session_id before (clamp_limit limit) t)))
      × IsPage session_id before
          (reverse (query_history newest_first session_id before (clamp_limit limit) t))
unfolding get_history query_history
get_history-IsPage newest_first session_id before limit t keeps =
    let p = is_before session_id before in
    let found = newest_first (keep_if p t) in
    let rows = take (clamp_limit limit) found in
    (
      reversed-eq-reverse rows,
      record {
        selected =
            All-reverse (λ m. p m ≡ true) rows
              (All-take (λ m. p m ≡ true) (clamp_limit limit) found
                (keeps p (keep_if p t) (All-keep_if p t)));
        at_most = omega (
          arith,
          length-reverse rows,
          length-take-le (clamp_limit limit) found,
          clamp_limit-le limit,
        );
      },
    )
