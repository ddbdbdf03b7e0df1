-- ===== src/Chat/Hub/Lobby/Leaving.antt =====
-- A client leaves.
use webrtc_hls_pipeline.Prelude.{
  ℕ, ◌≡◌, refl, ap, sym, subst, ◌∙◌, Bool, true, false, not, ◌&&◌, some, List, [], ◌∷◌, arith,
  length, ltb, mem, erase, store, delete, if◌then◌else◌, ◌==◌, Bool-cases, Option-cases, inl, inr,
}
use webrtc_hls_pipeline.Go.{returns, ◌>>=◌}
use webrtc_hls_pipeline.Chat.Hub.{
  Room, Hub, remove_room, take_client, is_empty_room, finish_remove, remove_client, leave_session,
}
use webrtc_hls_pipeline.Chat.Hub.Broadcast.{Distinct}
use webrtc_hls_pipeline.Chat.Hub.Lobby.{Lobby, leave_from, is_in}
use webrtc_hls_pipeline.Chat.Hub.Lobby.Order.{IsOrderly}
use webrtc_hls_pipeline.Chat.Hub.Looking.{get_or_create_room-some}
use webrtc_hls_pipeline.Chat.Hub.Rooms.{with_closed, close_send-open}

mem-erase : (a b : ℕ) (xs : List ℕ) → Distinct xs → mem b (erase a xs) ≡ (not (b == a) && mem b xs)
mem-erase a b [] d = ground arith
mem-erase a b (x ∷ xs) d = ground (arith, mem-erase a b xs d.1, d.0)

Distinct-erase : (a : ℕ) (xs : List ℕ) → Distinct xs → Distinct (erase a xs)
Distinct-erase a [] d = tt
Distinct-erase a (x ∷ xs) d = elim (Bool-cases (x == a)) [
  | inl y ↦ subst (λ b. Distinct (if b then xs else x ∷ erase a xs)) (sym y) d.1
  | inr n ↦
      subst (λ b. Distinct (if b then xs else x ∷ erase a xs)) (sym n)
        (ground (arith, mem-erase a x xs d.1, d.0), Distinct-erase a xs d.1)
]

of_no_clients : (c : ℕ) (cs : List ℕ) → not (ltb 0 (length cs)) ≡ true → mem c cs ≡ false
of_no_clients c [] e = refl
of_no_clients c (d ∷ cs) e = ground (arith, e)

-- Without clients, a room has no client.
mem-empty : (r : Room) (c : ℕ) → is_empty_room r ≡ true → mem c r.clients ≡ false
mem-empty r c e = ground (arith, e, of_no_clients c r.clients)

module _ (session_id client room : ℕ) (l : Lobby) (o : IsOrderly l)
    (e : l.hub.rooms session_id ≡ some room) (f : l.connected client ≡ some session_id) where
  -- The hub without the client, and without its room.
  cut : Hub
  unfolding with_closed
  cut = record l.hub {
    room_store =
        store room
          (record (l.hub.room_store room) {
            clients = erase client (l.hub.room_store room).clients;
          })
          l.hub.room_store;
    client_store =
        store client (record (l.hub.client_store client) { closed = true }) l.hub.client_store;
  }

  gone : Hub
  gone = record cut {
    rooms = delete session_id l.hub.rooms;
    room_store = store room (record (cut.room_store room) { cancelled = true }) cut.room_store;
  }

  left : Bool → Lobby
  left is_empty = record l {
    hub = if is_empty then gone else cut;
    connected = delete client l.connected;
  }

  is_last : Bool
  is_last = is_empty_room (cut.room_store room)

  remove_room-cut : remove_room (cut.room_store room).session_id cut ≡ gone
  unfolding cut gone remove_room
  remove_room-cut =
      let same : (cut.room_store room).session_id ≡ session_id =
        ground (arith, o.listed session_id room e) in
      ap (λ s. remove_room s cut) same ∙ ground (arith, e)

  leave_session-left :
      leave_session session_id client l.hub ≡ returns (if is_last then gone else cut)
  unfolding leave_session remove_client finish_remove take_client cut is_last with_closed
  leave_session-left =
      let emptied : (take_client room client l.hub).0 ≡ is_last = ground arith in
      ap (λ (r, h). remove_client r client h) (get_or_create_room-some session_id room l.hub e)
      ∙ ap (λ b. finish_remove b room client (take_client room client l.hub).1) emptied
      ∙ ap
          (λ m. m >>= λ h.
            returns (if is_last then remove_room (h.room_store room).session_id h else h))
          (close_send-open client (take_client room client l.hub).1 (o.opened client session_id f))
      ∙ ap (λ h. returns (if is_last then h else cut)) remove_room-cut

  -- The clients of the room after the departure.
  stays : List ℕ
  stays = erase client (l.hub.room_store room).clients

  mem-stays : (d : ℕ) → mem d stays ≡ (not (d == client) && is_in session_id (l.connected d))
  unfolding stays
  mem-stays d =
      mem-erase client d (l.hub.room_store room).clients (o.listed session_id room e).3
      ∙ ap (λ b. not (d == client) && b) (o.members session_id room d e)

  cut-IsOrderly : is_last ≡ false → IsOrderly (left false)
  unfolding cut is_last left stays
  cut-IsOrderly g = record {
    listed = λ i q h. ground (
      arith,
      o.listed i q h,
      Distinct-erase client (l.hub.room_store room).clients (o.listed session_id room e).3,
    );
    members = λ i q d h.
        ground
          (arith, o.members i q d h, mem-stays d, o.listed i q h, o.listed session_id room e, e, f);
    peopled =
        λ i q h. ground (arith, g, o.peopled i q h, o.listed i q h, o.listed session_id room e);
    absent = λ i d h. ground (arith, o.absent i d);
    opened = λ d i h. ground (arith, o.opened d i);
    fresh = λ d h. ground (arith, o.fresh d);
  }

  gone-IsOrderly : is_last ≡ true → IsOrderly (left true)
  unfolding cut is_last left stays gone
  gone-IsOrderly g = record {
    listed = λ i q h. ground (arith, o.listed i q, o.listed session_id room e);
    members =
        λ i q d h. ground (arith, o.members i q d, o.listed i q, o.listed session_id room e, f);
    peopled = λ i q h. ground (arith, o.peopled i q, o.listed i q, o.listed session_id room e);
    absent =
        λ i d h. ground (arith, o.absent i d, mem-stays d, mem-empty (cut.room_store room) d g);
    opened = λ d i h. ground (arith, o.opened d i);
    fresh = λ d h. ground (arith, o.fresh d);
  }

  connected_leaves :
      (l' : Lobby) × (leave_from client (some session_id) l ≡ returns l') × IsOrderly l'
  unfolding left
  connected_leaves = (
    left is_last,
    ap (λ m. m >>= λ h. returns (record l { hub = h; connected = delete client l.connected }))
        leave_session-left,
    elim (Bool-cases is_last) [
      | inl y ↦ subst (λ b. IsOrderly (left b)) (sym y) (gone-IsOrderly y)
      | inr n ↦ subst (λ b. IsOrderly (left b)) (sym n) (cut-IsOrderly n)
    ],
  )

module _ (session_id client : ℕ) (l : Lobby) (o : IsOrderly l)
    (f : l.connected client ≡ some session_id) where
  -- There is a room for the session of a client that is connected.
  room_of : (room : ℕ) × (l.hub.rooms session_id ≡ some room)
  room_of = elim (Option-cases (l.hub.rooms session_id)) [
    | inr (r, e) ↦ (r, e)
    | inl e ↦ absurd (ground (arith, f, o.absent session_id client e))
  ]

pub leave_from-IsOrderly :
    (client : ℕ) (l : Lobby)
    → IsOrderly l
    → (l' : Lobby) × (leave_from client (l.connected client) l ≡ returns l') × IsOrderly l'
leave_from-IsOrderly client l o = elim (Option-cases (l.connected client)) [
  | inr (s, f) ↦
      let (room, e) = room_of s client l o f in
      let (l', m, o') = connected_leaves s client room l o e f in
      (l', ap (λ s. leave_from client s l) f ∙ m, o')
  | inl f ↦ (l, ap (λ s. leave_from client s l) f, o)
]
