-- ===== src/Whip/Handler/Tests.antt =====
-- Runs of internal/whip/handler.go.
use webrtc_hls_pipeline.Prelude.{
  ℕ, ◌≡◌, refl, true, none, some, List, [], ◌∷◌, ◌++◌, map, arith, eq_iff,
}
use webrtc_hls_pipeline.Prelude.Int.{negsuc, ◌+ℤ◌}
use webrtc_hls_pipeline.Events.{publish}
use webrtc_hls_pipeline.Session.{Session, get_by_id, update_status}
use webrtc_hls_pipeline.Whip.Handler.{
  Handler, Request, Pion, PeerState, response, new_handler, connecting, connected, disconnected,
  failed, closed, handle_whip, register, add_stream, change_state, get_stream_session,
  handle_delete_resource,
}
use webrtc_hls_pipeline.Whip.Handler.Requests.{
  Accepts, Outcome, IsCreated, handle_whip_accepted, handle_whip-Outcome,
}
use webrtc_hls_pipeline.Whip.Handler.Gauge.{Change, run, firsts, over_in, caller, disconnects-run}
use webrtc_hls_pipeline.Whip.Handler.Lifecycle.{
  status_of, lived, HasLived, lived_leaves, revived_stays_live, stale_disconnect,
}

handler_code : Unit {0}
unfolding new_handler handle_whip register add_stream change_state get_stream_session get_by_id
    update_status publish ◌+ℤ◌
handler_code = tt

abbrev lesson : Session
lesson = record {
  id = 7;
  tenant_id = 1;
  teacher_id = 2;
  title = "Go";
  status = "waiting";
  started_at = none;
  ended_at = none;
  hls_playlist_url = "";
  mp4_url = "";
  created_at = 10;
  updated_at = 10;
}

abbrev fresh : Handler
unfolding handler_code
fresh = new_handler (lesson ∷ [])

abbrev offer_request : Request
offer_request = record { session_id = some 7; content_type = "application/sdp"; body = some "v=0" }

abbrev willing : Pion
willing = record {
  new_peer_connection = true;
  set_remote_description = λ _. true;
  create_answer = some "answer";
  set_local_description = λ _. true;
  local_sdp = "sdp";
  close_up = true;
  close_redis_up = true;
  close_now = 25;
}

offer_accepted : Accepts true offer_request willing fresh
unfolding handler_code
offer_accepted = record {
  i = 7;
  sess = lesson;
  offer = "v=0";
  answer = "answer";
  has_id = refl;
  found = refl;
  not_live = λ e. absurd (ground (arith, eq_iff "waiting" "live"));
  is_sdp = refl;
  was_read = refl;
  connection_made = refl;
  remote_set = refl;
  answer_made = refl;
  local_set = refl;
}

-- A peer connection for the lesson is set up at address 0, and a second one replaces it at 1.
abbrev once : Handler
unfolding handler_code
once = (handle_whip true offer_request willing fresh).0

abbrev twice : Handler
unfolding handler_code
twice = (handle_whip true offer_request willing once).0

handle_whip-Outcome_example :
    Outcome true offer_request willing fresh (handle_whip true offer_request willing fresh)
handle_whip-Outcome_example = handle_whip-Outcome true offer_request willing fresh

handle_whip_accepted_example :
    IsCreated true offer_request willing fresh 7 lesson
      (handle_whip true offer_request willing fresh)
unfolding handler_code offer_accepted
handle_whip_accepted_example = handle_whip_accepted true offer_request willing fresh offer_accepted

lived_leaves_example : HasLived 0 20 30 lesson once (lived 0 20 30 closed once)
unfolding handler_code
lived_leaves_example = lived_leaves 0 20 30 closed lesson once refl refl refl

abbrev change : ℕ → ℕ → PeerState → Change
change now a st = record { up = true; redis_up = true; now = now; stream = a; state = st }

-- Stream 1 replaces stream 0 before either connects; then both run and end.
abbrev history : List Change
history =
    change 20 0 connecting
    ∷ change 21 0 connected
    ∷ change 22 1 connected
    ∷ change 23 0 disconnected
    ∷ change 24 0 failed
    ∷ change 25 1 closed
    ∷ []

disconnects-run_example :
    (run history twice).disconnects
    ≡ twice.disconnects ++ map (caller twice) (firsts (over_in twice) history)
disconnects-run_example = disconnects-run history twice

history_calls : (run history twice).disconnects ≡ (7, 1) ∷ (7, 1) ∷ []
unfolding handler_code run
history_calls = refl

-- The offer of a connection that never connects: the gauge falls below zero.
never_connected : (run (change 20 0 closed ∷ []) once).streams_active ≡ negsuc 0
unfolding handler_code run
never_connected = refl

abbrev dropped : Handler
unfolding handler_code run
dropped = run (change 20 0 connected ∷ change 21 0 disconnected ∷ []) once

abbrev ended_lesson : Session
ended_lesson = record lesson {
  status = "ended";
  started_at = some 20;
  ended_at = some 21;
  updated_at = 21;
}

revived_stays_live_example :
    status_of 7
      (run
        (change 40 0 failed ∷ change 41 0 closed ∷ [])
        (change_state true true 30 0 connected dropped)).table
    ≡ some "live"
unfolding handler_code run
revived_stays_live_example =
    revived_stays_live 0 30 ended_lesson dropped (change 40 0 failed ∷ change 41 0 closed ∷ []) refl
      refl (refl, (refl, tt))

stale_disconnect_example :
    ((change_state true true 30 0 closed twice).streams 1 ≡ twice.streams 1)
    × (handle_delete_resource (some 7) (change_state true true 30 0 closed twice)
        ≡ (response 404 "no active stream", none))
unfolding handler_code
stale_disconnect_example =
    stale_disconnect true true 30 0 1 closed twice refl refl (omega arith) refl
