-- ===== src/Chat/Connections/Requests.antt =====
-- The answers of `HandleWebSocket` and `HandleHistory`.
use webrtc_hls_pipeline.Prelude.{
  ℕ, ◌≤◌, ◌≡◌, refl, ltb, leb, ◌&&◌, if◌then◌else◌, Bool, true, false, Option, none, some, List,
  reverse, length,
}
use webrtc_hls_pipeline.Prelude.Int.{ℤ, pos, negsuc}
use webrtc_hls_pipeline.Text.{Bytes}
use webrtc_hls_pipeline.Auth.{Claims}
use webrtc_hls_pipeline.Session.Handlers.{Answer, error, answers}
use webrtc_hls_pipeline.Chat.History.{Message}
use webrtc_hls_pipeline.Chat.History.Page.{IsPage}
use webrtc_hls_pipeline.Chat.Hub.Lobby.{Lobby}
use webrtc_hls_pipeline.Chat.Hub.Lobby.Order.{IsOrderly}
use webrtc_hls_pipeline.Chat.Hub.Lobby.Joining.{join-IsOrderly}
use webrtc_hls_pipeline.Chat.Connections.{handle_web_socket}

-- What `HandleHistory` may answer for a session, its `before`, the number of rows asked for and the
-- rows of the query, newest first.
unfoldable pub IsHistory :
    Bool → Option ℕ → ℕ → ℕ → (ℕ → List Message) → Answer (List Message) → Type 0
IsHistory up none before at_most rows a = a ≡ error 400 "{\"error\":\"invalid session id\"}"
IsHistory false (some session_id) before at_most rows a =
    a ≡ error 500 "{\"error\":\"failed to fetch history\"}"
IsHistory true (some session_id) before at_most rows a =
    (a ≡ answers 200 (reverse (rows session_id)))
    × IsPage session_id before (reverse (rows session_id))
    × (length (rows session_id) ≤ at_most)

-- How many messages a limit asks for.
abbrev pub asked : Option ℤ → ℕ
asked none = 50
asked (some (negsuc n)) = 50
asked (some (pos n)) = if ltb 0 n && leb n 100 then n else 50

-- A connection that is let in keeps the lobby in order.
handle_web_socket-IsOrderly :
    (parse_uuid : Bytes → Option ℕ) (upgrades : Bool) (session : Option ℕ) (claims : Option Claims)
    (l : Lobby)
    → IsOrderly l
    → IsOrderly (handle_web_socket parse_uuid upgrades session claims l).0
unfolding handle_web_socket
handle_web_socket-IsOrderly parse_uuid upgrades none claims l o = o
handle_web_socket-IsOrderly parse_uuid upgrades (some s) none l o = o
handle_web_socket-IsOrderly parse_uuid false (some s) (some c) l o = o
handle_web_socket-IsOrderly parse_uuid true (some s) (some c) l o = join-IsOrderly s _ l o refl
