-- ===== src/Chat/Hub/Broadcast.antt =====
-- What a broadcast does to every client.
use webrtc_hls_pipeline.Prelude.{
  ℕ, ◌≡◌, refl, ap, ◌∙◌, String, false, List, [], ◌∷◌, ◌++◌, length, ltb, mem, arith, store,
  if◌then◌else◌, ◌==◌, All, Bool-cases, inl, inr, ◌≤◌, length-append,
}
use mathlib.Core.Path.{fun_ext}
use webrtc_hls_pipeline.Go.{returns, ◌>>=◌}
use webrtc_hls_pipeline.Chat.Hub.{Client, Hub, send_capacity, offer, offer_all, broadcast}

-- The keys of a map.
abbrev pub Distinct : List ℕ → Type 0
Distinct [] = Unit {0}
Distinct (c ∷ cs) = (mem c cs ≡ false) × Distinct cs

-- A client after a message was offered to it.
abbrev pub with_offer : String → Client → Client
with_offer payload c =
    if ltb (length c.send) send_capacity then record c { send = c.send ++ payload ∷ [] } else c

-- The clients after a message was offered to those of a list.
abbrev pub with_offers : String → List ℕ → (ℕ → Client) → ℕ → Client
with_offers payload cs clients d = if mem d cs then with_offer payload (clients d) else clients d

pub offer-open :
    (payload : String) (c : Client)
    → c.closed ≡ false
    → offer payload c ≡ returns (with_offer payload c)
unfolding offer
offer-open payload c h = ground (arith, h)

offers_once :
    (payload : String) (c : ℕ) (cs : List ℕ) (clients : ℕ → Client)
    → mem c cs ≡ false
    → (d : ℕ)
    → with_offers payload cs (store c (with_offer payload (clients c)) clients) d
      ≡ with_offers payload (c ∷ cs) clients d
offers_once payload c cs clients h d = elim (Bool-cases (c == d)) [
  | inl y ↦ ground (arith, y, h)
  | inr n ↦ ground (arith, n, h)
]

abbrev pub AreOpen : (ℕ → Client) → List ℕ → Type 0
AreOpen clients = All (λ c. (clients c).closed ≡ false)

still_open :
    (payload : String) (c : ℕ) (clients : ℕ → Client) (cs : List ℕ)
    → AreOpen clients cs
    → AreOpen (store c (with_offer payload (clients c)) clients) cs
still_open payload c clients [] a = tt
still_open payload c clients (d ∷ cs) a = (ground (arith, a.0), still_open payload c clients cs a.1)

offer_all-returns :
    (payload : String) (cs : List ℕ) (h : Hub)
    → Distinct cs
    → AreOpen h.client_store cs
    → offer_all payload cs h
      ≡ returns (record h { client_store = with_offers payload cs h.client_store })
unfolding offer_all
offer_all-returns payload [] h distinct a = refl
offer_all-returns payload (c ∷ cs) h distinct a =
    let clients = store c (with_offer payload (h.client_store c)) h.client_store in
    ap
      (λ o. o >>= λ client.
        offer_all payload cs (record h { client_store = store c client h.client_store }))
      (offer-open payload (h.client_store c) a.0)
    ∙ offer_all-returns payload cs (record h { client_store = clients }) distinct.1
        (still_open payload c h.client_store cs a.1)
    ∙ ap (λ f. returns (record h { client_store = f }))
        (fun_ext (offers_once payload c cs h.client_store distinct.0))

-- A broadcast to a room whose clients are distinct and open does not panic: whatever the order in
-- which the room is ranged over, each of its clients gets the message when its buffer has room for
-- it, and nothing else changes.
pub broadcast-returns :
    (payload : String) (room : ℕ) (h : Hub)
    → Distinct (h.room_store room).clients
    → AreOpen h.client_store (h.room_store room).clients
    → broadcast payload room h
      ≡ returns (record h {
        client_store = with_offers payload (h.room_store room).clients h.client_store;
      })
unfolding broadcast
broadcast-returns payload room h = offer_all-returns payload (h.room_store room).clients h

-- No message is queued beyond the capacity.
pub with_offers-le :
    (payload : String) (cs : List ℕ) (clients : ℕ → Client) (d : ℕ)
    → length (clients d).send ≤ 64
    → length (with_offers payload cs clients d).send ≤ 64
with_offers-le payload cs clients d h =
    ground (arith, h, length-append (clients d).send (payload ∷ []))
