-- ===== src/Chat/Hub/Crash.antt =====
-- A client that leaves after its room was dropped.
use webrtc_hls_pipeline.Prelude.{
  ℕ, ◌<◌, ◌≡◌, ◌≢◌, ap, ◌∙◌, String, true, false, some, List, [], ◌∷◌, mem, arith, store, ◌==◌,
  Bool-cases, inl, inr,
}
use webrtc_hls_pipeline.Go.{Go, returns, panics, ◌>>=◌}
use webrtc_hls_pipeline.Chat.Hub.{
  Client, Hub, take_client, finish_remove, remove_client, remove_room, receive, broadcast, offer,
  offer_all, leave_session,
}
use webrtc_hls_pipeline.Chat.Hub.Broadcast.{with_offer, offer-open}
use webrtc_hls_pipeline.Chat.Hub.Looking.{with_room, get_or_create_room-none}
use webrtc_hls_pipeline.Chat.Hub.Rooms.{
  interleaved, IsOrphan, late_hub, interleaved-late_hub, late_hub-IsOrphan, late_hub-next_room,
  late_hub-joiner, with_closed, close_send-open,
}

offer-closed : (payload : String) (c : Client) → c.closed ≡ true → offer payload c ≡ panics
unfolding offer
offer-closed payload c e = ground (arith, e)

-- A broadcast over a client whose channel is closed panics.
offer_all-panics :
    (payload : String) (c : ℕ) (cs : List ℕ) (h : Hub)
    → mem c cs ≡ true
    → (h.client_store c).closed ≡ true
    → offer_all payload cs h ≡ panics
unfolding offer_all
offer_all-panics payload c [] h m closed = ground (arith, m)
offer_all-panics payload c (d ∷ cs) h m closed =
    let next : Client → Go Hub =
      λ x. offer_all payload cs (record h { client_store = store d x h.client_store }) in
    elim (Bool-cases (h.client_store d).closed) [
      | inl y ↦ ap (λ o. o >>= next) (offer-closed payload (h.client_store d) y)
      | inr n ↦
          let other : (d == c) ≡ false = ground (arith, closed, n) in
          let x = with_offer payload (h.client_store d) in
          ap (λ o. o >>= next) (offer-open payload (h.client_store d) n)
          ∙ offer_all-panics payload c cs (record h { client_store = store d x h.client_store })
              (ground (arith, m, other)) (ground (arith, closed, other))
    ]

-- The hub after a client has left through a new room, since the hub had none for the session.
left_by_new_room : ℕ → ℕ → Hub → Hub
unfolding with_closed
left_by_new_room session_id client h =
    remove_room session_id
      (with_closed client (take_client h.next_room client (with_room session_id h)).1)

module _ (session_id client room : ℕ) (h : Hub) (o : IsOrphan session_id client room h)
    (made : room < h.next_room) (c : (h.client_store client).closed ≡ false) where
  leave_session-orphan :
      leave_session session_id client h ≡ returns (left_by_new_room session_id client h)
  unfolding leave_session remove_client finish_remove take_client left_by_new_room with_closed
      with_room
  leave_session-orphan =
      let h1 = (take_client h.next_room client (with_room session_id h)).1 in
      let emptied : (take_client h.next_room client (with_room session_id h)).0 ≡ true =
        ground arith in
      let same : ((with_closed client h1).room_store h.next_room).session_id ≡ session_id =
        ground arith in
      ap (λ (room, h'). remove_client room client h')
        (get_or_create_room-none session_id h o.unlisted)
      ∙ ap (λ b. finish_remove b h.next_room client h1) emptied
      ∙ ap (λ m. m >>= λ h'. returns (remove_room (h'.room_store h.next_room).session_id h'))
          (close_send-open client h1 c)
      ∙ ap (λ s. returns (remove_room s (with_closed client h1))) same

  left-room : (left_by_new_room session_id client h).room_store room ≡ h.room_store room
  unfolding left_by_new_room remove_room take_client with_closed with_room
  left-room = ground (arith, made, o.unlisted)

  left-closed : ((left_by_new_room session_id client h).client_store client).closed ≡ true
  unfolding left_by_new_room remove_room take_client with_closed with_room
  left-closed = ground (arith, o.unlisted)

  receive-left :
      (payload : String)
      → receive false payload room (left_by_new_room session_id client h) ≡ panics
  unfolding receive broadcast
  receive-left payload =
      let h' = left_by_new_room session_id client h in
      let inside : mem client (h'.room_store room).clients ≡ true =
        ap (λ r. mem client r.clients) left-room ∙ o.inside in
      let subscribed : (h'.room_store room).ended ≡ false =
        ap (λ r. r.ended) left-room ∙ o.subscribed in
      let crash =
        offer_all-panics payload client (h'.room_store room).clients h' inside left-closed in
      ground (arith, subscribed, crash)

-- When the only client of a room leaves between the two steps by which another client joins it, and
-- that client then leaves too, its channel is closed while it is still in the dropped room. If the
-- room's subscription takes a message that waits before it sees that it is cancelled, it sends on the
-- closed channel, and the process crashes.
pub interleaved-crashes :
    (session_id leaver joiner room : ℕ) (payload : String) (h : Hub)
    → h.rooms session_id ≡ some room
    → (h.room_store room).session_id ≡ session_id
    → (h.room_store room).clients ≡ leaver ∷ []
    → (h.client_store leaver).closed ≡ false
    → (h.room_store room).ended ≡ false
    → room < h.next_room
    → joiner ≢ leaver
    → (h.client_store joiner).closed ≡ false
    → (interleaved session_id leaver joiner h
        >>= leave_session session_id joiner
        >>= receive false payload room)
      ≡ panics
interleaved-crashes session_id leaver joiner room payload h e f g c s made other fresh =
    let h' = late_hub session_id leaver room h e f g c joiner in
    let o = late_hub-IsOrphan session_id leaver room h e f g c joiner s in
    let made' : room < h'.next_room =
      ground (arith, made, late_hub-next_room session_id leaver room h e f g c joiner) in
    let fresh' : (h'.client_store joiner).closed ≡ false =
      ap (λ x. x.closed) (late_hub-joiner session_id leaver room h e f g c joiner other) ∙ fresh in
    ap (λ m. m >>= leave_session session_id joiner >>= receive false payload room)
      (interleaved-late_hub session_id leaver room h e f g c joiner)
    ∙ ap (λ m. m >>= receive false payload room)
        (leave_session-orphan session_id joiner room h' o made' fresh')
    ∙ receive-left session_id joiner room h' o made' fresh' payload
