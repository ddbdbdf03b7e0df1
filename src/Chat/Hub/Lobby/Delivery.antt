-- ===== src/Chat/Hub/Lobby/Delivery.antt =====
-- A message of a session reaches its clients.
use webrtc_hls_pipeline.Prelude.{
  Bool, Bool-cases, ◌&&◌, store, ℕ, ◌≡◌, ap, sym, ◌∙◌, String, true, false, none, some, List, [],
  ◌∷◌, arith, mem, if◌then◌else◌, Option-cases, inl, inr,
}
use webrtc_hls_pipeline.Go.{returns, ◌>>=◌}
use webrtc_hls_pipeline.Chat.Hub.{Client, receive, broadcast, is_done}
use webrtc_hls_pipeline.Chat.Hub.Broadcast.{AreOpen, with_offer, broadcast-returns}
use webrtc_hls_pipeline.Chat.Hub.Lobby.{Lobby, says, say_in, visit, is_in}
use webrtc_hls_pipeline.Chat.Hub.Lobby.Order.{IsOrderly}
use mathlib.Core.Path.{fun_ext}

-- The lobby after a message was offered to every client that is connected to a session.
unfoldable pub said : ℕ → String → Lobby → Lobby
said session_id payload l = record l {
  hub = record l.hub {
    client_store = λ d.
        if is_in session_id (l.connected d)
        then with_offer payload (l.hub.client_store d)
        else l.hub.client_store d;
  };
}

AreOpen-of_all :
    (clients : ℕ → Client) (cs : List ℕ)
    → ((c : ℕ) → mem c cs ≡ true → (clients c).closed ≡ false)
    → AreOpen clients cs
AreOpen-of_all clients [] f = tt
AreOpen-of_all clients (c ∷ cs) f =
    (f c (ground arith), AreOpen-of_all clients cs (λ d e. f d (ground (arith, e))))

module _ (prefers_end : Bool) (session_id : ℕ) (payload : String) (l : Lobby)
    (o : IsOrderly l) where
  inside_open :
      (c : ℕ) → is_in session_id (l.connected c) ≡ true → (l.hub.client_store c).closed ≡ false
  inside_open c e = elim (Option-cases (l.connected c)) [
    | inr (s, f) ↦ o.opened c s f
    | inl f ↦ ground (arith, e, f)
  ]

  room_open :
      (room : ℕ)
      → l.hub.rooms session_id ≡ some room
      → AreOpen l.hub.client_store (l.hub.room_store room).clients
  room_open room e =
      AreOpen-of_all l.hub.client_store (l.hub.room_store room).clients
        (λ c m. inside_open c (sym (o.members session_id room c e) ∙ m))

  broadcast-said :
      (room : ℕ)
      → l.hub.rooms session_id ≡ some room
      → broadcast payload room l.hub ≡ returns (said session_id payload l).hub
  unfolding said
  broadcast-said room e =
      broadcast-returns payload room l.hub (o.listed session_id room e).3 (room_open room e)
      ∙ ap (λ f. returns (record l.hub { client_store = f }))
          (fun_ext (λ d.
            ap (λ b. if b then with_offer payload (l.hub.client_store d) else l.hub.client_store d)
              (o.members session_id room d e)))

  -- The lobby after the room's subscription ended.
  unsubscribed : ℕ → Lobby
  unsubscribed room = record l {
    hub = record l.hub {
      room_store = store room (record (l.hub.room_store room) { ended = true }) l.hub.room_store;
    };
  }

  -- Without a cancelled context, or with a `select` that takes the message, it is broadcast.
  receive-said :
      (room : ℕ)
      → l.hub.rooms session_id ≡ some room
      → (l.hub.room_store room).ended ≡ false
      → (is_done room l.hub && prefers_end) ≡ false
      → receive prefers_end payload room l.hub ≡ returns (said session_id payload l).hub
  unfolding receive
  receive-said room e subscribed goes = ground (arith, subscribed, goes, broadcast-said room e)

  receive-unsubscribed :
      (room : ℕ)
      → (l.hub.room_store room).ended ≡ false
      → (is_done room l.hub && prefers_end) ≡ true
      → receive prefers_end payload room l.hub ≡ returns (unsubscribed room).hub
  unfolding receive unsubscribed
  receive-unsubscribed room subscribed ends = ground (arith, subscribed, ends)

  receive-ended :
      (room : ℕ)
      → (l.hub.room_store room).ended ≡ true
      → receive prefers_end payload room l.hub ≡ returns l.hub
  unfolding receive
  receive-ended room e = ground (arith, e)

  unsubscribed-IsOrderly :
      (room : ℕ)
      → l.hub.rooms session_id ≡ some room
      → (is_done room l.hub && prefers_end) ≡ true
      → IsOrderly (unsubscribed room)
  unfolding unsubscribed
  unsubscribed-IsOrderly room e ends =
      let stopped : l.hub.stopped ≡ true = ground (arith, ends, o.listed session_id room e) in
      record {
        listed = λ i r f. ground (arith, stopped, o.listed i r f);
        members = λ i r c f. ground (arith, o.members i r c f);
        peopled = λ i r f. ground (arith, o.peopled i r f);
        absent = o.absent;
        opened = o.opened;
        fresh = o.fresh;
      }

  nobody_there : l.hub.rooms session_id ≡ none → l ≡ said session_id payload l
  unfolding said
  nobody_there e =
      ap (λ f. record l { hub = record l.hub { client_store = f } })
        (fun_ext (λ d.
          ap (λ b. if b then with_offer payload (l.hub.client_store d) else l.hub.client_store d)
            (sym (o.absent session_id d e))))

pub said-IsOrderly :
    (session_id : ℕ) (payload : String) (l : Lobby)
    → IsOrderly l
    → IsOrderly (said session_id payload l)
unfolding said
said-IsOrderly session_id payload l o = record {
  listed = o.listed;
  members = o.members;
  peopled = o.peopled;
  absent = o.absent;
  opened = λ c i e. ground (arith, o.opened c i e);
  fresh = o.fresh;
}

-- In an orderly lobby whose hub is not stopped, a message of a session does not panic: each client
-- that is connected to the session has the message behind those queued before, or loses it because 64
-- are queued, and no other client gets it.
pub visit-said :
    (prefers_end : Bool) (session_id : ℕ) (payload : String) (l : Lobby)
    → IsOrderly l
    → l.hub.stopped ≡ false
    → visit (says prefers_end session_id payload) l ≡ returns (said session_id payload l)
unfolding visit said
visit-said prefers_end session_id payload l o running =
    elim (Option-cases (l.hub.rooms session_id)) [
      | inr (room, e) ↦
          let (_, going, _, _, subscribed) = o.listed session_id room e in
          ap (λ r. say_in prefers_end payload r l) e
          ∙ ap (λ m. m >>= λ h. returns (record l { hub = h }))
              (receive-said prefers_end session_id payload l o room e
                (ground (arith, running, subscribed)) (ground (arith, running, going)))
      | inl e ↦
          ap (λ r. say_in prefers_end payload r l) e
          ∙ ap returns (nobody_there prefers_end session_id payload l o e)
    ]

-- Stopped or not, a message leaves the lobby in order.
pub visit_says-IsOrderly :
    (prefers_end : Bool) (session_id : ℕ) (payload : String) (l : Lobby)
    → IsOrderly l
    → (l' : Lobby) × (visit (says prefers_end session_id payload) l ≡ returns l') × IsOrderly l'
unfolding visit unsubscribed said
visit_says-IsOrderly b i p l o = elim (Option-cases (l.hub.rooms i)) [
  | inl e ↦ (l, ap (λ r. say_in b p r l) e, o)
  | inr (room, e) ↦
      let by : (l' : Lobby)
          → receive b p room l.hub ≡ returns l'.hub
          → say_in b p (l.hub.rooms i) l ≡ returns (record l { hub = l'.hub }) =
        λ l' m.
          ap (λ r. say_in b p r l) e ∙ ap (λ m. m >>= λ h. returns (record l { hub = h })) m in
      elim (Bool-cases (l.hub.room_store room).ended) [
        | inl y ↦ (l, by l (receive-ended b i p l o room y), o)
        | inr n ↦ elim (Bool-cases (is_done room l.hub && b)) [
          | inl y ↦ (
            unsubscribed b i p l o room,
            by (unsubscribed b i p l o room) (receive-unsubscribed b i p l o room n y),
            unsubscribed-IsOrderly b i p l o room e y,
          )
          | inr m ↦ (
            said i p l,
            by (said i p l) (receive-said b i p l o room e n m),
            said-IsOrderly i p l o,
          )
        ]
      ]
]
