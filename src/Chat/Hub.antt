-- ===== src/Chat/Hub.antt =====
-- internal/chat/hub.go and the connections of handler.go. Rooms and clients are shared by pointers
-- and live in stores with addresses; a stretch under one lock is one step, and `RemoveClient` is cut
-- where it releases the lock of the room. The contexts of the hub and of a room are flags.
pub mod Broadcast
pub mod Looking
pub mod Rooms
pub mod Crash
pub mod Lobby
mod Tests
use webrtc_hls_pipeline.Prelude.{
  ℕ, ◌+◌, String, Bool, true, false, not, ◌&&◌, ◌||◌, Option, none, some, List, [], ◌∷◌, ◌++◌,
  length, ltb, erase, mem, Map, empty, insert, delete, store, if◌then◌else◌,
}
use webrtc_hls_pipeline.Text.{Bytes}
use webrtc_hls_pipeline.Go.{Go, returns, panics, ◌>>=◌, close_chan}

pub record Client : Type 0 where
  pub user_id : ℕ
  pub username : Bytes
  pub tenant_id : ℕ
  pub send : List String  -- what the channel buffers
  pub closed : Bool

pub record Room : Type 0 where
  pub session_id : ℕ
  pub clients : List ℕ  -- the keys of the map
  pub cancelled : Bool  -- the context of `subscribeRedis`
  pub ended : Bool  -- `subscribeRedis` has returned

pub record Hub : Type 0 where
  pub rooms : Map ℕ
  pub room_store : ℕ → Room
  pub next_room : ℕ
  pub client_store : ℕ → Client
  pub stopped : Bool  -- the context of the hub, from which the rooms derive theirs

abbrev pub send_capacity : ℕ
send_capacity = 64

unfoldable pub new_client : ℕ → Bytes → ℕ → Client
new_client user_id username tenant_id = record {
  user_id = user_id;
  username = username;
  tenant_id = tenant_id;
  send = [];
  closed = false;
}

unfoldable pub new_hub : Hub
unfolding new_client
new_hub = record {
  rooms = empty;
  room_store = λ _. record { session_id = 0; clients = []; cancelled = false; ended = false };
  next_room = 0;
  client_store = λ _. new_client 0 [] 0;
  stopped = false;
}

-- `Stop` cancels the context of the hub.
unfoldable pub stop : Hub → Hub
stop h = record h { stopped = true }

unfoldable pub get_or_create_room : ℕ → Hub → ℕ × Hub
get_or_create_room session_id h = elim (h.rooms session_id) [
  | some room ↦ (room, h)
  | none ↦ (
    h.next_room,
    record h {
      rooms = insert session_id h.next_room h.rooms;
      room_store =
          store h.next_room
            (record { session_id = session_id; clients = []; cancelled = false; ended = false })
            h.room_store;
      next_room = h.next_room + 1;
    },
  )
]

-- `removeRoom`: whichever room the map has under the session goes, and its context is cancelled.
unfoldable pub remove_room : ℕ → Hub → Hub
remove_room session_id h = elim (h.rooms session_id) [
  | none ↦ h
  | some room ↦ record h {
    rooms = delete session_id h.rooms;
    room_store = store room (record (h.room_store room) { cancelled = true }) h.room_store;
  }
]

-- `r.clients[client] = true`
unfoldable pub add_client : ℕ → ℕ → Hub → Hub
add_client room client h =
    let r = h.room_store room in
    record h {
      room_store =
          store room
            (record r { clients = if mem client r.clients then r.clients else client ∷ r.clients })
            h.room_store;
    }

abbrev pub is_empty_room : Room → Bool
is_empty_room r = not (ltb 0 (length r.clients))

-- The locked part of `RemoveClient`, with whether the room is now empty.
unfoldable pub take_client : ℕ → ℕ → Hub → Bool × Hub
take_client room client h =
    let r : Room = record (h.room_store room) {
      clients = erase client (h.room_store room).clients;
    } in
    (is_empty_room r, record h { room_store = store room r h.room_store })

-- `close(client.Send)`
unfoldable pub close_send : ℕ → Hub → Go Hub
close_send client h = close_chan (h.client_store client).closed >>= λ closed. returns (record h {
  client_store = store client (record (h.client_store client) { closed = closed }) h.client_store;
})

-- `RemoveClient` after its locked part.
unfoldable pub finish_remove : Bool → ℕ → ℕ → Hub → Go Hub
unfolding close_send remove_room
finish_remove is_empty room client h = close_send client h >>= λ h'.
    returns (if is_empty then remove_room (h'.room_store room).session_id h' else h')

unfoldable pub remove_client : ℕ → ℕ → Hub → Go Hub
unfolding take_client finish_remove
remove_client room client h =
    let (is_empty, h') = take_client room client h in finish_remove is_empty room client h'

-- The `select` of `Broadcast` for one client: a full buffer drops the message, and a closed channel
-- panics.
unfoldable pub offer : String → Client → Go Client
offer payload c =
    if c.closed
    then panics
    else if ltb (length c.send) send_capacity
    then returns (record c { send = c.send ++ payload ∷ [] })
    else returns c

unfoldable pub offer_all : String → List ℕ → Hub → Go Hub
unfolding offer
offer_all payload [] h = returns h
offer_all payload (c ∷ cs) h = offer payload (h.client_store c) >>= λ client.
    offer_all payload cs (record h { client_store = store c client h.client_store })

unfoldable pub broadcast : String → ℕ → Hub → Go Hub
unfolding offer_all
broadcast payload room h = offer_all payload (h.room_store room).clients h

-- The `select` of `subscribeRedis` when a message of the room's session has come: where the context is
-- cancelled as well, either case may run, and `prefers_end` says which one does.
abbrev pub is_done : ℕ → Hub → Bool
is_done room h = h.stopped || (h.room_store room).cancelled

unfoldable pub receive : Bool → String → ℕ → Hub → Go Hub
unfolding broadcast
receive prefers_end payload room h =
    if (h.room_store room).ended
    then returns h
    else if is_done room h && prefers_end
    then returns (record h {
      room_store = store room (record (h.room_store room) { ended = true }) h.room_store;
    })
    else broadcast payload room h

unfoldable pub client_count : ℕ → Hub → ℕ
client_count room h = length (h.room_store room).clients

-- `HandleWebSocket` for a client at a fresh address, with nothing running in between.
unfoldable pub join_session : ℕ → ℕ → Client → Hub → Hub
unfolding get_or_create_room add_client
join_session session_id client c h =
    let (room, h') = get_or_create_room session_id h in
    add_client room client (record h' { client_store = store client c h'.client_store })

-- The end of `readPump`, with nothing running in between.
unfoldable pub leave_session : ℕ → ℕ → Hub → Go Hub
unfolding get_or_create_room remove_client
leave_session session_id client h =
    let (room, h') = get_or_create_room session_id h in remove_client room client h'
