-- ===== src/Chat/Hub/Rooms.antt =====
-- Joining and leaving, alone and interleaved.
use webrtc_hls_pipeline.Prelude.{
  ℕ, ◌≡◌, ◌≢◌, refl, ap, ◌∙◌, String, true, false, none, some, [], ◌∷◌, mem, arith, store,
  Bool-cases, inl, inr,
}
use webrtc_hls_pipeline.Go.{Go, returns, ◌>>=◌, close_chan}
use webrtc_hls_pipeline.Chat.Hub.{
  Hub, get_or_create_room, remove_room, add_client, take_client, close_send, finish_remove,
  remove_client, receive,
}
use webrtc_hls_pipeline.Chat.Hub.Looking.{get_or_create_room-some}

-- A new client looks its room up, the last client of that room leaves, and then the new one is added.
unfoldable pub interleaved : ℕ → ℕ → ℕ → Hub → Go Hub
interleaved session_id leaver joiner h =
    let (room, h') = get_or_create_room session_id h in
    remove_client room leaver h' >>= λ h''. returns (add_client room joiner h'')

-- A client of a room that the map no longer has and whose context is cancelled, while its subscription
-- has yet to notice.
pub record IsOrphan (session_id client room : ℕ) (h : Hub) : Type 0 where
  pub inside : mem client (h.room_store room).clients ≡ true
  pub dropped : (h.room_store room).cancelled ≡ true
  pub subscribed : (h.room_store room).ended ≡ false
  pub unlisted : h.rooms session_id ≡ none

unfoldable pub with_closed : ℕ → Hub → Hub
with_closed client h = record h {
  client_store = store client (record (h.client_store client) { closed = true }) h.client_store;
}

pub close_send-open :
    (client : ℕ) (h : Hub)
    → (h.client_store client).closed ≡ false
    → close_send client h ≡ returns (with_closed client h)
unfolding close_send with_closed
close_send-open client h c =
    ap
      (λ b. close_chan b >>= λ closed. returns (record h {
        client_store =
            store client (record (h.client_store client) { closed = closed }) h.client_store;
      }))
      c

-- The hub after the only client of the session's room has left it.
after_last : ℕ → ℕ → ℕ → Hub → Hub
after_last session_id leaver room h =
    remove_room session_id (with_closed leaver (take_client room leaver h).1)

module _ (session_id leaver room : ℕ) (h : Hub) (e : h.rooms session_id ≡ some room)
    (f : (h.room_store room).session_id ≡ session_id)
    (g : (h.room_store room).clients ≡ leaver ∷ [])
    (c : (h.client_store leaver).closed ≡ false) where
  remove_client-last : remove_client room leaver h ≡ returns (after_last session_id leaver room h)
  unfolding remove_client finish_remove take_client after_last with_closed
  remove_client-last =
      let h1 = (take_client room leaver h).1 in
      let emptied : (take_client room leaver h).0 ≡ true = ground (arith, g) in
      let same : ((with_closed leaver h1).room_store room).session_id ≡ session_id =
        ground (arith, f) in
      ap (λ b. finish_remove b room leaver h1) emptied
      ∙ ap (λ o. o >>= λ h'. returns (remove_room (h'.room_store room).session_id h'))
          (close_send-open leaver h1 c)
      ∙ ap (λ s. returns (remove_room s (with_closed leaver h1))) same

  after_last-rooms : (after_last session_id leaver room h).rooms session_id ≡ none
  unfolding after_last remove_room take_client with_closed
  after_last-rooms = ground (arith, e)

  after_last-cancelled : ((after_last session_id leaver room h).room_store room).cancelled ≡ true
  unfolding after_last remove_room take_client with_closed
  after_last-cancelled = ground (arith, e)

  after_last-ended :
      (h.room_store room).ended ≡ false
      → ((after_last session_id leaver room h).room_store room).ended ≡ false
  unfolding after_last remove_room take_client with_closed
  after_last-ended s = ground (arith, s, e)

  module _ (joiner : ℕ) where
    -- The hub after the new client was put into the room.
    unfoldable pub late_hub : Hub
    unfolding after_last
    late_hub = add_client room joiner (after_last session_id leaver room h)

    pub interleaved-late_hub : interleaved session_id leaver joiner h ≡ returns late_hub
    unfolding interleaved late_hub
    interleaved-late_hub =
        ap
          (λ (room, h').
            remove_client room leaver h' >>= λ h''. returns (add_client room joiner h''))
          (get_or_create_room-some session_id room h e)
        ∙ ap (λ o. o >>= λ h''. returns (add_client room joiner h'')) remove_client-last

    pub late_hub-IsOrphan :
        (h.room_store room).ended ≡ false → IsOrphan session_id joiner room late_hub
    unfolding late_hub add_client
    late_hub-IsOrphan s =
        let h2 = after_last session_id leaver room h in
        let dropped = after_last-cancelled in
        let subscribed = after_last-ended s in
        record {
          inside = elim (Bool-cases (mem joiner (h2.room_store room).clients)) [
            | inl y ↦ ground (arith, y)
            | inr n ↦ ground (arith, n)
          ];
          dropped = ground (arith, dropped);
          subscribed = ground (arith, subscribed);
          unlisted = after_last-rooms;
        }

    pub late_hub-next_room : late_hub.next_room ≡ h.next_room
    unfolding late_hub add_client after_last remove_room take_client with_closed
    late_hub-next_room = ground (arith, e)

    pub late_hub-joiner : joiner ≢ leaver → late_hub.client_store joiner ≡ h.client_store joiner
    unfolding late_hub add_client after_last remove_room take_client with_closed
    late_hub-joiner n = ground (arith, e, n)

-- When the only client of a room leaves between the two steps by which another client joins it, the
-- new client ends in a room that the hub has dropped: the next to join gets another room, and where
-- the room's subscription then sees that it is cancelled, it ends and no client gets the message.
pub interleaved-IsOrphan :
    (session_id leaver joiner room : ℕ) (h : Hub)
    → h.rooms session_id ≡ some room
    → (h.room_store room).session_id ≡ session_id
    → (h.room_store room).clients ≡ leaver ∷ []
    → (h.client_store leaver).closed ≡ false
    → (h.room_store room).ended ≡ false
    → (h' : Hub) × (interleaved session_id leaver joiner h ≡ returns h')
      × IsOrphan session_id joiner room h'
      × ((payload : String)
          → (h'' : Hub) × (receive true payload room h' ≡ returns h'')
            × (h''.client_store ≡ h'.client_store)
            × ((h''.room_store room).ended ≡ true))
unfolding receive
interleaved-IsOrphan session_id leaver joiner room h e f g c s =
    let h' = late_hub session_id leaver room h e f g c joiner in
    let o = late_hub-IsOrphan session_id leaver room h e f g c joiner s in
    (
      h',
      interleaved-late_hub session_id leaver room h e f g c joiner,
      o,
      λ payload. (
        record h' {
          room_store = store room (record (h'.room_store room) { ended = true }) h'.room_store;
        },
        ground (arith, o.dropped, o.subscribed),
        refl,
        ground arith,
      ),
    )
