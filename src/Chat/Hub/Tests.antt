-- ===== src/Chat/Hub/Tests.antt =====
-- Runs of internal/chat/hub.go.
use webrtc_hls_pipeline.Prelude.{true, false, arith, ◌≡◌, refl, String, List, [], ◌∷◌}
use webrtc_hls_pipeline.Text.{codes}
use webrtc_hls_pipeline.Go.{Go, returns, panics, ◌>>=◌}
use webrtc_hls_pipeline.Chat.Hub.{
  Hub, new_client, new_hub, join_session, leave_session, broadcast, receive,
}
use webrtc_hls_pipeline.Chat.Hub.Rooms.{interleaved, IsOrphan, interleaved-IsOrphan}
use webrtc_hls_pipeline.Chat.Hub.Crash.{interleaved-crashes}

hub_code : Unit {0}
unfolding join_session leave_session broadcast receive new_hub new_client interleaved
hub_code = tt

abbrev one_client : Hub
one_client = join_session 4 0 (new_client 7 (codes "ada") 1) new_hub

abbrev two_clients : Hub
two_clients = join_session 4 1 (new_client 8 (codes "bob") 1) one_client

abbrev queues : Go Hub → List (List String)
queues m = elim m [
  | panics ↦ []
  | returns h ↦ (h.client_store 0).send ∷ (h.client_store 1).send ∷ []
]

abbrev said_twice : Go Hub
said_twice = broadcast "hello" 0 two_clients >>= broadcast "again" 0

queues-said_twice : queues said_twice ≡ ("hello" ∷ "again" ∷ []) ∷ ("hello" ∷ "again" ∷ []) ∷ []
unfolding hub_code
queues-said_twice = refl

interleaved-IsOrphan_example :
    (h' : Hub) × (interleaved 4 0 1 one_client ≡ returns h')
    × IsOrphan 4 1 0 h'
    × ((payload : String)
        → (h'' : Hub) × (receive true payload 0 h' ≡ returns h'')
          × (h''.client_store ≡ h'.client_store)
          × ((h''.room_store 0).ended ≡ true))
unfolding hub_code
interleaved-IsOrphan_example = interleaved-IsOrphan 4 0 1 0 one_client refl refl refl refl refl

interleaved-crashes_example :
    (interleaved 4 0 1 one_client >>= leave_session 4 1 >>= receive false "late" 0) ≡ panics
unfolding hub_code
interleaved-crashes_example =
    interleaved-crashes 4 0 1 0 "late" one_client refl refl refl refl refl (omega arith)
      (ground arith) refl
