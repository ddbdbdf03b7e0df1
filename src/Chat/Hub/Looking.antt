-- ===== src/Chat/Hub/Looking.antt =====
-- The two ways in which a room is found, and a client put into it.
use webrtc_hls_pipeline.Prelude.{
  ℕ, ◌+◌, ◌≡◌, ap, false, none, some, [], ◌∷◌, mem, arith, store, insert, if◌then◌else◌,
}
use webrtc_hls_pipeline.Chat.Hub.{Hub, get_or_create_room, add_client}

-- The hub after a room was made, and after a client was put into a room.
unfoldable pub with_room : ℕ → Hub → Hub
with_room session_id h = record h {
  rooms = insert session_id h.next_room h.rooms;
  room_store =
      store h.next_room
        (record { session_id = session_id; clients = []; cancelled = false; ended = false })
        h.room_store;
  next_room = h.next_room + 1;
}

unfoldable pub with_client : ℕ → ℕ → Hub → Hub
with_client room client h = record h {
  room_store =
      store room (record (h.room_store room) { clients = client ∷ (h.room_store room).clients })
        h.room_store;
}

pub get_or_create_room-some :
    (session_id r : ℕ) (h : Hub)
    → h.rooms session_id ≡ some r
    → get_or_create_room session_id h ≡ (r, h)
unfolding get_or_create_room
get_or_create_room-some session_id r h e = ground (arith, e)

pub get_or_create_room-none :
    (session_id : ℕ) (h : Hub)
    → h.rooms session_id ≡ none
    → get_or_create_room session_id h ≡ (h.next_room, with_room session_id h)
unfolding get_or_create_room with_room
get_or_create_room-none session_id h e = ground (arith, e)

pub add_client-new :
    (room client : ℕ) (h : Hub)
    → mem client (h.room_store room).clients ≡ false
    → add_client room client h ≡ with_client room client h
unfolding add_client with_client
add_client-new room client h e =
    ap
      (λ b. record h {
        room_store =
            store room
              (record (h.room_store room) {
                clients =
                    if b then (h.room_store room).clients else client ∷ (h.room_store room).clients;
              })
              h.room_store;
      })
      e
