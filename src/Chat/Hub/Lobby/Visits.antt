-- ===== src/Chat/Hub/Lobby/Visits.antt =====
-- Joining, leaving, speaking and stopping in any order.
use webrtc_hls_pipeline.Prelude.{arith, ◌≡◌, refl, ap, ◌∙◌, List, [], ◌∷◌}
use webrtc_hls_pipeline.Go.{returns, ◌>>=◌}
use webrtc_hls_pipeline.Chat.Hub.{new_client, stop}
use webrtc_hls_pipeline.Chat.Hub.Lobby.{
  Lobby, Visit, joins, leaves, says, stops, new_lobby, join, visit, visits,
}
use webrtc_hls_pipeline.Chat.Hub.Lobby.Order.{IsOrderly}
use webrtc_hls_pipeline.Chat.Hub.Lobby.Order.{new_lobby-IsOrderly}
use webrtc_hls_pipeline.Chat.Hub.Lobby.Joining.{join-IsOrderly}
use webrtc_hls_pipeline.Chat.Hub.Lobby.Leaving.{leave_from-IsOrderly}
use webrtc_hls_pipeline.Chat.Hub.Lobby.Delivery.{visit_says-IsOrderly}

stopped-IsOrderly : (l : Lobby) → IsOrderly l → IsOrderly (record l { hub = stop l.hub })
unfolding stop
stopped-IsOrderly l o = record {
  listed = λ i r e. ground (arith, o.listed i r e);
  members = o.members;
  peopled = o.peopled;
  absent = o.absent;
  opened = o.opened;
  fresh = o.fresh;
}

visit-IsOrderly :
    (v : Visit) (l : Lobby) → IsOrderly l → (l' : Lobby) × (visit v l ≡ returns l') × IsOrderly l'
unfolding visit new_client
visit-IsOrderly (joins s u n t) l o =
    let c = new_client u n t in (join s c l, refl, join-IsOrderly s c l o refl)
visit-IsOrderly (leaves client) l o = leave_from-IsOrderly client l o
visit-IsOrderly stops l o = (record l { hub = stop l.hub }, refl, stopped-IsOrderly l o)
visit-IsOrderly (says b s p) l o = visit_says-IsOrderly b s p l o

visits_from :
    (vs : List Visit) (l : Lobby)
    → IsOrderly l
    → (l' : Lobby) × (visits vs l ≡ returns l') × IsOrderly l'
unfolding visits
visits_from [] l o = (l, refl, o)
visits_from (v ∷ vs) l o =
    let (l1, m1, o1) = visit-IsOrderly v l o in
    let (l2, m2, o2) = visits_from vs l1 o1 in (l2, ap (λ m. m >>= visits vs) m1 ∙ m2, o2)

-- Clients that join, speak and leave, and a hub that is stopped, one call after another and in any
-- order, never make the hub panic, and after each sequence of them the hub is in order: it has a room
-- for a session exactly when a client is connected to it, the room has those clients, each once, its
-- subscription goes on unless the hub is stopped, and their channels are open.
pub visits-IsOrderly :
    (vs : List Visit) → (l : Lobby) × (visits vs new_lobby ≡ returns l) × IsOrderly l
visits-IsOrderly vs = visits_from vs new_lobby new_lobby-IsOrderly
