-- ===== src/Chat/Connections/Tests.antt =====
-- Runs of the chat's connections.
use webrtc_hls_pipeline.Prelude.{
  ◌≡◌, refl, ◌++◌, ℕ, String, Bool, true, false, Option, none, some, List, [], ◌∷◌, str_eq,
  if◌then◌else◌, AllPass,
}
use webrtc_hls_pipeline.Text.{codes}
use webrtc_hls_pipeline.Chat.History.{Message, clamp_limit}
use webrtc_hls_pipeline.Chat.Hub.{Client, new_client}
use webrtc_hls_pipeline.Chat.Connections.{Incoming, Frame, read_pump, publish, handle_history}
use webrtc_hls_pipeline.Chat.Connections.Published.{Sends, is_from, read_pump-published}
use webrtc_hls_pipeline.Chat.Connections.Stored.{
  Turn, receives, stores, turns, no_feed, IsKept, turns-IsKept,
}
use webrtc_hls_pipeline.Chat.Connections.Writing.{
  takes, finds_end, ticks, text, ping, close_frame, write_pump,
}

chat_code : Unit {0}
unfolding new_client read_pump publish turns handle_history clamp_limit write_pump
chat_code = tt

-- A decoder that knows two bodies and takes any other as a message without a type.
abbrev decode : String → Option Incoming
decode body =
    if str_eq body "{"
    then none
    else if str_eq body "wave"
    then some (record { content = "o/"; type = "wave" })
    else some (record { content = body; type = "" })

abbrev ada : Client
ada = new_client 7 (codes "ada") 1

abbrev frame : ℕ → String → Bool → Frame
frame i body redis_up = record { bytes = body; id = i; now = 10; redis_up = redis_up }

abbrev frames : List Frame
frames =
    frame 1 "{" true
    ∷ frame 2 "" true
    ∷ frame 3 "hello" true
    ∷ frame 4 "lost" false
    ∷ frame 5 "wave" true
    ∷ []

abbrev ids : List Message → List ℕ
ids [] = []
ids (m ∷ ms) = m.id ∷ ids ms

read_pump-frames : ids (read_pump decode 4 ada frames no_feed).published ≡ 3 ∷ 5 ∷ []
unfolding chat_code
read_pump-frames = refl

read_pump-published_example :
    (ms : List Message) × ((read_pump decode 4 ada frames no_feed).published ≡ [] ++ ms)
    × Sends decode 4 ada frames ms
    × AllPass (is_from 4 ada) ms
read_pump-published_example = read_pump-published decode 4 ada frames no_feed

-- The second message is stored first, and the first is of no type that the table takes.
abbrev busy : List Turn
busy =
    receives 4 ada (frame 5 "wave" true)
    ∷ receives 4 ada (frame 3 "hello" true)
    ∷ stores 1 true true
    ∷ stores 0 true true
    ∷ []

busy-stores : ids (turns decode busy no_feed).table ≡ 3 ∷ []
unfolding chat_code
busy-stores = refl

turns-IsKept_example : IsKept (turns decode busy no_feed)
turns-IsKept_example = turns-IsKept decode busy

abbrev as_stored : List Message → List Message
as_stored rows = rows

abbrev table : List Message
table = (turns decode busy no_feed).table

write_pump-run :
    write_pump (takes "a" true ∷ ticks true ∷ finds_end ∷ takes "b" true ∷ [])
    ≡ text "a" ∷ ping ∷ close_frame ∷ []
unfolding chat_code
write_pump-run = refl
