-- ===== src/Chat/Connections.antt =====
-- The connections of internal/chat/handler.go and `Publish` of hub.go. JSON decoding, `uuid.Parse` and
-- `strconv.Atoi` are arguments or come with their results, and so do the ids and times that the code
-- draws. A published message is at the hubs at once; the goroutine that stores it runs at any later
-- time, so that published messages wait in `pending`.
pub mod Published
pub mod Stored
pub mod Requests
pub mod Writing
mod Tests
use webrtc_hls_pipeline.Prelude.{
  ℕ, zero, suc, ◌+◌, String, Bool, true, false, Option, none, some, List, [], ◌∷◌, ◌++◌, get_elem?,
  str_eq, if◌then◌else◌,
}
use webrtc_hls_pipeline.Prelude.Int.{ℤ, pos}
use webrtc_hls_pipeline.Text.{Bytes}
use webrtc_hls_pipeline.Auth.{Claims}
use webrtc_hls_pipeline.Session.Handlers.{Answer, error, answers}
use webrtc_hls_pipeline.Chat.History.{Message, insert_message, get_history}
use webrtc_hls_pipeline.Chat.Hub.{Client, new_client}
use webrtc_hls_pipeline.Chat.Hub.Lobby.{Lobby, join}

-- `incomingMessage`
pub record Incoming : Type 0 where
  pub content : String
  pub type : String

-- What `ReadMessage` returns, with what is drawn for its message and whether Redis answers.
pub record Frame : Type 0 where
  pub bytes : String
  pub id : ℕ
  pub now : ℕ
  pub redis_up : Bool

-- What was published, what waits for its insert, the table, what an insert refused, and the counter
-- `ChatMessagesTotal`.
pub record Feed : Type 0 where
  pub published : List Message
  pub pending : List Message
  pub table : List Message
  pub refused : List Message
  pub counted : ℕ

-- `HandleWebSocket` as its caller sees it: an error, a failed upgrade, or a connection.
pub data Opening : Type 0 where
  refuses : ℕ → String → Opening
  fails : Opening
  opens : Client → Opening

-- `userID, _ := uuid.Parse(...)`: the nil UUID where the text is none.
abbrev pub or_nil : Option ℕ → ℕ
or_nil none = 0
or_nil (some i) = i

unfoldable pub handle_web_socket :
    (Bytes → Option ℕ) → Bool → Option ℕ → Option Claims → Lobby → Lobby × Opening
unfolding new_client join
handle_web_socket parse_uuid upgrades none claims l =
    (l, refuses 400 "{\"error\":\"invalid session id\"}")
handle_web_socket parse_uuid upgrades (some session_id) none l =
    (l, refuses 401 "{\"error\":\"unauthorized\"}")
handle_web_socket parse_uuid upgrades (some session_id) (some c) l =
    let client =
      new_client (or_nil (parse_uuid c.user_id)) c.username (or_nil (parse_uuid c.tenant_id)) in
    if upgrades then (join session_id client l, opens client) else (l, fails)

abbrev pub or_message : String → String
or_message t = if str_eq t "" then "message" else t

-- The body of `readPump`'s loop up to `Publish`: the message, or `none` where it continues.
unfoldable pub read_frame : (String → Option Incoming) → ℕ → Client → Frame → Option Message
read_frame unmarshal session_id client frame = elim (unmarshal frame.bytes) [
  | none ↦ none
  | some incoming ↦
      if str_eq incoming.content ""
      then none
      else some (record {
        id = frame.id;
        session_id = session_id;
        tenant_id = client.tenant_id;
        user_id = client.user_id;
        username = client.username;
        content = incoming.content;
        type = or_message incoming.type;
        created_at = frame.now;
      })
]

-- `Publish`, with whether there was no error.
unfoldable pub publish : Bool → Message → Feed → Feed × Bool
publish redis_up msg f =
    let counted = f.counted + 1 in
    if redis_up
    then (
      record f {
        published = f.published ++ msg ∷ [];
        pending = f.pending ++ msg ∷ [];
        counted = counted;
      },
      true,
    )
    else (record f { counted = counted }, false)

abbrev pub publish_some : Bool → Option Message → Feed → Feed
publish_some redis_up none f = f
publish_some redis_up (some msg) f = (publish redis_up msg f).0

-- `readPump` until `ReadMessage` fails after the frames.
unfoldable pub read_pump : (String → Option Incoming) → ℕ → Client → List Frame → Feed → Feed
unfolding read_frame publish
read_pump unmarshal session_id client [] f = f
read_pump unmarshal session_id client (frame ∷ frames) f =
    read_pump unmarshal session_id client frames
      (publish_some frame.redis_up (read_frame unmarshal session_id client frame) f)

module _ {ℓ} {A : Type ℓ} where
  unfoldable pub without : ℕ → List A → List A
  without i [] = []
  without zero (x ∷ xs) = xs
  without (suc i) (x ∷ xs) = x ∷ without i xs

-- The goroutine of `Publish` for the pending message at an index: a failed insert is only logged.
abbrev pub note_insert : Message → List Message × Bool → Feed → Feed
note_insert m (table, true) f = record f { table = table }
note_insert m (table, false) f = record f { table = table; refused = f.refused ++ m ∷ [] }

abbrev pub persist_at : Option Message → ℕ → Bool → Bool → Feed → Feed
persist_at none i up session_exists f = f
persist_at (some m) i up session_exists f =
    note_insert m (insert_message up session_exists m f.table)
      (record f { pending = without i f.pending })

unfoldable pub persist : ℕ → Bool → Bool → Feed → Feed
unfolding without insert_message
persist i up session_exists f = persist_at (get_elem? f.pending i) i up session_exists f

-- What `HandleHistory` takes from the query: nothing where a parameter is missing or no number.
abbrev pub or_default {ℓ} : {A : Type ℓ} → A → Option A → A
or_default a none = a
or_default a (some b) = b

abbrev pub answer_history : Option (List Message) → Answer (List Message)
answer_history none = error 500 "{\"error\":\"failed to fetch history\"}"
answer_history (some messages) = answers 200 messages

-- `HandleHistory`; a nil slice is answered as an empty one.
unfoldable pub handle_history :
    (List Message → List Message)
    → Bool
    → ℕ
    → Option ℕ
    → Option ℕ
    → Option ℤ
    → List Message
    → Answer (List Message)
unfolding get_history
handle_history newest_first up now none before limit t =
    error 400 "{\"error\":\"invalid session id\"}"
handle_history newest_first up now (some session_id) before limit t =
    answer_history
      (get_history newest_first up session_id (or_default now before) (or_default (pos 50) limit) t)
