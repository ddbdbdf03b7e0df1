-- ===== src/Chat/History.antt =====
-- internal/chat/repository.go. The table of messages is the list of its rows; ORDER BY is the
-- argument `newest_first`, `up` says whether PostgreSQL answers.
pub mod Reversal
pub mod Page
mod Tests
use webrtc_hls_pipeline.Prelude.{
  ℕ, zero, suc, ◌+◌, ◌-◌, String, Bool, true, false, ◌&&◌, ◌||◌, Option, none, some, List, [], ◌∷◌,
  ◌++◌, any, length, take, get_elem?, keep_if, ltb, if◌then◌else◌, ◌==◌, str_eq, not,
}
use webrtc_hls_pipeline.Text.{Bytes}
use webrtc_hls_pipeline.Prelude.Int.{ℤ, pos, negsuc}

pub record Message : Type 0 where
  pub id : ℕ
  pub session_id : ℕ
  pub tenant_id : ℕ
  pub user_id : ℕ
  pub username : Bytes
  pub content : String
  pub type : String
  pub created_at : ℕ

-- the CHECK constraint of migrations/002_create_chat_messages.up.sql
abbrev pub is_message_type : String → Bool
is_message_type t = str_eq t "message" || str_eq t "hand_raise" || str_eq t "reaction"

-- `Repository.Insert`: the table afterwards and whether there was no error. The session is there
-- (`session_exists`) or the foreign key refuses the row.
unfoldable pub insert_message : Bool → Bool → Message → List Message → List Message × Bool
insert_message up session_exists msg t =
    if up && (session_exists && (is_message_type msg.type && not (any (λ m. m.id == msg.id) t)))
    then (t ++ msg ∷ [], true)
    else (t, false)

-- `limit <= 0 || limit > 100`
unfoldable pub clamp_limit : ℤ → ℕ
clamp_limit (negsuc n) = 50
clamp_limit (pos n) = if n == 0 || ltb 100 n then 50 else n

module _ {ℓ} {A : Type ℓ} where
  unfoldable pub put : ℕ → A → List A → List A
  put i x [] = []
  put zero x (y ∷ ys) = x ∷ ys
  put (suc i) x (y ∷ ys) = y ∷ put i x ys

  -- `messages[i], messages[j] = messages[j], messages[i]`; `none` is an index out of range.
  unfoldable pub swap : ℕ → ℕ → List A → Option (List A)
  unfolding put
  swap i j xs = elim (get_elem? xs i) [
    | none ↦ none
    | some x ↦ elim (get_elem? xs j) [ none ↦ none | some y ↦ some (put j x (put i y xs)) ]
  ]

  -- The reversal loop of `GetHistory` from `i` and `j` on fuel; `none` is an index out of range or
  -- fuel that ran out.
  unfoldable pub reverse_loop : ℕ → ℕ → ℕ → List A → Option (List A)
  unfolding swap
  reverse_loop zero i j xs = none
  reverse_loop (suc n) i j xs =
      if ltb i j
      then elim (swap i j xs) [ none ↦ none | some ys ↦ reverse_loop n (i + 1) (j - 1) ys ]
      else some xs

  -- The loop starts at `0` and `len(messages) - 1`, which for no messages is below `0` and here `0`:
  -- either way the loop ends at once.
  unfoldable pub reversed : List A → Option (List A)
  unfolding reverse_loop
  reversed xs = reverse_loop (suc (length xs)) 0 (length xs - 1) xs

-- The rows of the query, newest first.
unfoldable pub query_history :
    (List Message → List Message) → ℕ → ℕ → ℕ → List Message → List Message
query_history newest_first session_id before limit t =
    take limit
      (newest_first (keep_if (λ m. m.session_id == session_id && ltb m.created_at before) t))

-- `GetHistory`; `none` is its error.
unfoldable pub get_history :
    (List Message → List Message) → Bool → ℕ → ℕ → ℤ → List Message → Option (List Message)
unfolding clamp_limit reversed query_history
get_history newest_first up session_id before limit t =
    if up
    then reversed (query_history newest_first session_id before (clamp_limit limit) t)
    else none
