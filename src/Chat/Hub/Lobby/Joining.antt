-- ===== src/Chat/Hub/Lobby/Joining.antt =====
-- A client joins.
use webrtc_hls_pipeline.Prelude.{
  ℕ, ◌+◌, ◌≡◌, ap, sym, subst, ◌∙◌, false, none, some, arith, mem, store, insert, Option-cases, inl,
  inr,
}
use webrtc_hls_pipeline.Chat.Hub.{Client, Hub, add_client, join_session}
use webrtc_hls_pipeline.Chat.Hub.Lobby.{Lobby, join}
use webrtc_hls_pipeline.Chat.Hub.Lobby.Order.{IsOrderly}
use webrtc_hls_pipeline.Chat.Hub.Looking.{
  with_room, with_client, get_or_create_room-some, get_or_create_room-none, add_client-new,
}

module _ (session_id : ℕ) (c : Client) (l : Lobby) (o : IsOrderly l)
    (open_send : c.closed ≡ false) where
  -- The new client is in no room.
  newcomer :
      (i r : ℕ) → l.hub.rooms i ≡ some r → mem l.next_client (l.hub.room_store r).clients ≡ false
  newcomer i r e = ground (arith, o.members i r l.next_client e, o.fresh l.next_client)

  -- The lobby after the client joined the room that the hub has, or a new one.
  joined : ℕ → Hub → Lobby
  unfolding with_client
  joined room h = record {
    hub =
        with_client room l.next_client
          (record h { client_store = store l.next_client c h.client_store });
    connected = insert l.next_client session_id l.connected;
    next_client = l.next_client + 1;
  }

  joined_by : Hub → Lobby
  joined_by h = record {
    hub = h;
    connected = insert l.next_client session_id l.connected;
    next_client = l.next_client + 1;
  }

  join-listed : (r : ℕ) → l.hub.rooms session_id ≡ some r → join session_id c l ≡ joined r l.hub
  unfolding join join_session joined joined_by
  join-listed r e =
      ap
        (λ (room, h). joined_by (
          add_client room l.next_client
            (record h { client_store = store l.next_client c h.client_store })))
        (get_or_create_room-some session_id r l.hub e)
      ∙ ap joined_by (
          add_client-new r l.next_client
            (record l.hub { client_store = store l.next_client c l.hub.client_store })
            (newcomer session_id r e))

  join-unlisted :
      l.hub.rooms session_id ≡ none
      → join session_id c l ≡ joined l.hub.next_room (with_room session_id l.hub)
  unfolding join join_session joined joined_by with_room
  join-unlisted e =
      ap
        (λ (room, h). joined_by (
          add_client room l.next_client
            (record h { client_store = store l.next_client c h.client_store })))
        (get_or_create_room-none session_id l.hub e)
      ∙ ap joined_by (
          add_client-new l.hub.next_room l.next_client
            (record (with_room session_id l.hub) {
              client_store = store l.next_client c l.hub.client_store;
            })
            (ground arith))

  listed-IsOrderly : (r : ℕ) → l.hub.rooms session_id ≡ some r → IsOrderly (joined r l.hub)
  unfolding joined with_client
  listed-IsOrderly r e = record {
    listed =
        λ i q f. ground (arith, o.listed i q f, newcomer session_id r e, o.listed session_id r e);
    members = λ i q d f. ground (
      arith,
      o.members i q d f,
      o.fresh l.next_client,
      o.listed i q f,
      o.listed session_id r e,
      e,
    );
    peopled = λ i q f. ground (arith, o.peopled i q f, o.listed i q f);
    absent = λ i d f. ground (arith, o.absent i d f, e);
    opened = λ d i f. ground (arith, o.opened d i, open_send);
    fresh = λ d f. ground (arith, o.fresh d);
  }

  unlisted-IsOrderly :
      l.hub.rooms session_id ≡ none
      → IsOrderly (joined l.hub.next_room (with_room session_id l.hub))
  unfolding joined with_client with_room
  unlisted-IsOrderly e = record {
    listed = λ i q f. ground (arith, o.listed i q);
    members = λ i q d f.
        ground
          (arith, o.members i q d, o.fresh l.next_client, o.listed i q, o.absent session_id d e);
    peopled = λ i q f. ground (arith, o.peopled i q, o.listed i q);
    absent = λ i d f. ground (arith, o.absent i d);
    opened = λ d i f. ground (arith, o.opened d i, open_send);
    fresh = λ d f. ground (arith, o.fresh d);
  }

  pub join-IsOrderly : IsOrderly (join session_id c l)
  join-IsOrderly = elim (Option-cases (l.hub.rooms session_id)) [
    | inr (r, e) ↦ subst IsOrderly (sym (join-listed r e)) (listed-IsOrderly r e)
    | inl e ↦ subst IsOrderly (sym (join-unlisted e)) (unlisted-IsOrderly e)
  ]
