-- ===== src/Chat/Hub/Lobby/Order.antt =====
-- The rooms of the hub hold exactly the clients that are connected.
use webrtc_hls_pipeline.Prelude.{ℕ, ◌≤◌, ◌<◌, ◌≡◌, refl, false, not, ◌&&◌, none, some, mem}
use webrtc_hls_pipeline.Chat.Hub.{is_empty_room}
use webrtc_hls_pipeline.Chat.Hub.Broadcast.{Distinct}
use webrtc_hls_pipeline.Chat.Hub.Lobby.{Lobby, new_lobby, is_in}

-- The hub has a room for a session exactly when a client is connected to it: a room that it has is not
-- empty, and where it has none nobody is connected. The room's clients are those connected, each once, its subscription goes on until the hub is stopped, and their channels are open.
pub record IsOrderly (l : Lobby) : Type 0 where
  pub listed :
      (i r : ℕ)
      → l.hub.rooms i ≡ some r
      → ((l.hub.room_store r).session_id ≡ i)
        × ((l.hub.room_store r).cancelled ≡ false)
        × (r < l.hub.next_room)
        × Distinct (l.hub.room_store r).clients
        × (((l.hub.room_store r).ended && not l.hub.stopped) ≡ false)
  pub members :
      (i r c : ℕ)
      → l.hub.rooms i ≡ some r
      → mem c (l.hub.room_store r).clients ≡ is_in i (l.connected c)
  pub peopled : (i r : ℕ) → l.hub.rooms i ≡ some r → is_empty_room (l.hub.room_store r) ≡ false
  pub absent : (i c : ℕ) → l.hub.rooms i ≡ none → is_in i (l.connected c) ≡ false
  pub opened : (c i : ℕ) → l.connected c ≡ some i → (l.hub.client_store c).closed ≡ false
  pub fresh : (c : ℕ) → l.next_client ≤ c → l.connected c ≡ none

pub new_lobby-IsOrderly : IsOrderly new_lobby
unfolding new_lobby
new_lobby-IsOrderly = record {
  listed = λ i r e. cc;
  members = λ i r c e. cc;
  peopled = λ i r e. cc;
  absent = λ i c e. refl;
  opened = λ c i e. cc;
  fresh = λ c e. refl;
}
