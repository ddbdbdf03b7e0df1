-- ===== src/Chat/Hub/Lobby/Tests.antt =====
-- A run of the chat's connections: two clients of session 4 and one of session 5.
use webrtc_hls_pipeline.Prelude.{true, false, ◌≡◌, refl, String, List, [], ◌∷◌}
use webrtc_hls_pipeline.Text.{codes}
use webrtc_hls_pipeline.Go.{Go, returns}
use webrtc_hls_pipeline.Chat.Hub.{
  Client, new_hub, new_client, join_session, leave_session, receive, stop,
}
use webrtc_hls_pipeline.Chat.Hub.Lobby.{
  Lobby, Visit, joins, leaves, says, stops, new_lobby, join, visit, visits,
}
use webrtc_hls_pipeline.Chat.Hub.Lobby.Order.{IsOrderly, new_lobby-IsOrderly}
use webrtc_hls_pipeline.Chat.Hub.Lobby.Joining.{join-IsOrderly}
use webrtc_hls_pipeline.Chat.Hub.Lobby.Delivery.{said, visit-said}
use webrtc_hls_pipeline.Chat.Hub.Lobby.Visits.{visits-IsOrderly}

lobby_code : Unit {0}
unfolding stop join_session leave_session receive new_hub new_client new_lobby join visit visits
    said
lobby_code = tt

abbrev evening : List Visit
evening =
    joins 4 7 (codes "ada") 1
    ∷ joins 5 8 (codes "bob") 1
    ∷ joins 4 9 (codes "eve") 2
    ∷ says true 4 "hello"
    ∷ leaves 0
    ∷ says true 4 "gone?"
    ∷ leaves 2
    ∷ says true 4 "anyone?"
    ∷ says true 5 "closing"
    ∷ stops
    ∷ says false 5 "waiting"
    ∷ says true 5 "late"
    ∷ says false 5 "later"
    ∷ leaves 1
    ∷ []

abbrev queues : Go Lobby → List (List String)
queues m = elim m [
  | Go.panics ↦ []
  | returns l ↦
      (l.hub.client_store 0).send ∷ (l.hub.client_store 1).send ∷ (l.hub.client_store 2).send ∷ []
]

queues-evening :
    queues (visits evening new_lobby)
    ≡ ("hello" ∷ []) ∷ ("closing" ∷ "waiting" ∷ []) ∷ ("hello" ∷ "gone?" ∷ []) ∷ []
unfolding lobby_code
queues-evening = refl

visits-IsOrderly_example : (l : Lobby) × (visits evening new_lobby ≡ returns l) × IsOrderly l
visits-IsOrderly_example = visits-IsOrderly evening

abbrev ada : Client
ada = new_client 7 (codes "ada") 1

abbrev bob : Client
bob = new_client 8 (codes "bob") 1

abbrev two_in : Lobby
two_in = join 5 bob (join 4 ada new_lobby)

two_in-IsOrderly : IsOrderly two_in
unfolding lobby_code
two_in-IsOrderly =
    join-IsOrderly 5 bob (join 4 ada new_lobby)
      (join-IsOrderly 4 ada new_lobby new_lobby-IsOrderly refl) refl

visit-said_example : visit (says true 4 "hello") two_in ≡ returns (said 4 "hello" two_in)
unfolding lobby_code
visit-said_example = visit-said true 4 "hello" two_in two_in-IsOrderly refl
