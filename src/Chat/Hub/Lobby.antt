-- ===== src/Chat/Hub/Lobby.antt =====
-- The connections of internal/chat/handler.go, one call after another: a client joins at a new
-- address, leaves once, and messages of a session reach the room that the hub has for it.
pub mod Order
pub mod Joining
pub mod Leaving
pub mod Delivery
pub mod Visits
mod Tests
use webrtc_hls_pipeline.Prelude.{
  ℕ, ◌+◌, String, Bool, true, false, Option, none, some, List, [], ◌∷◌, Map, empty, insert, delete,
  ◌==◌,
}
use webrtc_hls_pipeline.Text.{Bytes}
use webrtc_hls_pipeline.Go.{Go, returns, ◌>>=◌}
use webrtc_hls_pipeline.Chat.Hub.{
  Client, Hub, new_client, new_hub, receive, join_session, leave_session, stop,
}

-- The hub with the session of each client that is connected.
pub record Lobby : Type 0 where
  pub hub : Hub
  pub connected : Map ℕ
  pub next_client : ℕ

pub data Visit : Type 0 where
  joins : (session_id user_id : ℕ) → (username : Bytes) → (tenant_id : ℕ) → Visit
  leaves : (client : ℕ) → Visit
  stops : Visit  -- the deferred call of `main`
  says : (prefers_end : Bool) (session_id : ℕ) → (payload : String) → Visit

unfoldable pub new_lobby : Lobby
unfolding new_hub
new_lobby = record { hub = new_hub; connected = empty; next_client = 0 }

unfoldable pub join : ℕ → Client → Lobby → Lobby
join session_id c l = record {
  hub = join_session session_id l.next_client c l.hub;
  connected = insert l.next_client session_id l.connected;
  next_client = l.next_client + 1;
}

abbrev pub leave_from : ℕ → Option ℕ → Lobby → Go Lobby
leave_from client none l = returns l
leave_from client (some session_id) l = leave_session session_id client l.hub >>= λ h.
    returns (record l { hub = h; connected = delete client l.connected })

abbrev pub say_in : Bool → String → Option ℕ → Lobby → Go Lobby
say_in prefers_end payload none l = returns l
say_in prefers_end payload (some room) l =
    receive prefers_end payload room l.hub >>= λ h. returns (record l { hub = h })

unfoldable pub visit : Visit → Lobby → Go Lobby
unfolding join new_client stop
visit (joins session_id user_id username tenant_id) l =
    returns (join session_id (new_client user_id username tenant_id) l)
visit stops l = returns (record l { hub = stop l.hub })
visit (leaves client) l = leave_from client (l.connected client) l
visit (says prefers_end session_id payload) l =
    say_in prefers_end payload (l.hub.rooms session_id) l

unfoldable pub visits : List Visit → Lobby → Go Lobby
unfolding visit
visits [] l = returns l
visits (v ∷ vs) l = visit v l >>= visits vs

-- Whether a client is connected to a session.
abbrev pub is_in : ℕ → Option ℕ → Bool
is_in session_id none = false
is_in session_id (some s) = s == session_id
