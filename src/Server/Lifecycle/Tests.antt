-- ===== src/Server/Lifecycle/Tests.antt =====
-- A server that ends during lesson 7, and the next one.
use webrtc_hls_pipeline.Prelude.{ℕ, String, ◌≡◌, refl, true, false, some, none, List, [], ◌∷◌}
use webrtc_hls_pipeline.Session.{Session, get_by_id, update_status}
use webrtc_hls_pipeline.Whip.Handler.{
  Handler, Request, Pion, connected, closed, response, new_handler, handle_whip, change_state,
  handle_delete_resource,
}
use webrtc_hls_pipeline.Whip.Handler.Lifecycle.{status_of}
use webrtc_hls_pipeline.Text.{Bytes, codes}
use webrtc_hls_pipeline.Hls.Segments.{handle_watch, error}
use webrtc_hls_pipeline.Recording.Worker.{Worker}
use webrtc_hls_pipeline.Server.Lifecycle.{
  Startup, Running, Happening, exits, serves, deferred, start_up, new_server, shut_down, offers,
  changes, happen_all,
}
use webrtc_hls_pipeline.Server.Lifecycle.Watching.{IsWatchable, happen_all-IsWatchable}
use webrtc_hls_pipeline.Server.Lifecycle.Restart.{restarted, restarted_stays_live}

lifecycle_code : Unit {0}
unfolding handle_whip handle_watch start_up shut_down new_server happen_all get_by_id update_status
    change_state new_handler handle_delete_resource
lifecycle_code = tt

abbrev all_well : Startup
all_well = record {
  pool_made = true;
  postgres_pings = true;
  redis_url_parses = true;
  redis_pings = true;
}

start_up-serves : start_up all_well ≡ serves deferred
unfolding lifecycle_code
start_up-serves = refl

start_up-exits :
    start_up (record all_well { redis_url_parses = false; redis_pings = false })
    ≡ exits "failed to parse redis url"
unfolding lifecycle_code
start_up-exits = refl

abbrev lesson : ℕ → String → Session
lesson i status = record {
  id = i;
  tenant_id = 1;
  teacher_id = 2;
  title = "Go";
  status = status;
  started_at = some 20;
  ended_at = none;
  hls_playlist_url = "";
  mp4_url = "";
  created_at = 10;
  updated_at = 20;
}

abbrev no_jobs : Worker
no_jobs = record {
  jobs = [];
  recordings = [];
  sessions = [];
  published = [];
  segment_dir = λ i. none;
}

abbrev running : Running
unfolding lifecycle_code
running = record {
  server = new_server (lesson 7 "live" ∷ lesson 8 "waiting" ∷ []) no_jobs;
  worker_cancelled = false;
  hub_cancelled = false;
  redis_closed = false;
  pool_closed = false;
  context_cancelled = false;
  shutdown_cancelled = false;
}

abbrev offer : ℕ → Request
offer i = record { session_id = some i; content_type = "application/sdp"; body = some "v=0" }

abbrev willing : Pion
willing = record {
  new_peer_connection = true;
  set_remote_description = λ _. true;
  create_answer = some "answer";
  set_local_description = λ _. true;
  local_sdp = "sdp";
  close_up = true;
  close_redis_up = true;
  close_now = 25;
}

-- The other lesson is streamed; the first is offered again in vain.
abbrev next_day : List Happening
next_day =
    offers true (offer 8) willing
    ∷ changes (record { up = true; redis_up = true; now = 30; stream = 0; state = connected })
    ∷ offers true (offer 7) willing
    ∷ changes (record { up = true; redis_up = true; now = 31; stream = 0; state = closed })
    ∷ []

other_ends : status_of 8 (restarted true running no_jobs next_day).table ≡ some "ended"
unfolding lifecycle_code
other_ends = refl

restarted_stays_live_example :
    let h = restarted true running no_jobs next_day in
    (status_of 7 h.table ≡ some "live")
    × ((request : Request) (pion : Pion)
        → request.session_id ≡ some 7
        → handle_whip true request pion h ≡ (h, response 409 "session already live"))
    × (handle_delete_resource (some 7) h ≡ (response 404 "no active stream", none))
unfolding lifecycle_code
restarted_stays_live_example = restarted_stays_live true running no_jobs next_day 7 refl

abbrev uuid_text : ℕ → Bytes
uuid_text i = codes "4f"

-- Lesson 8 before its first stream.
abbrev waiting : Handler
waiting = new_handler (lesson 8 "waiting" ∷ [])

abbrev offered : Handler
offered = (handle_whip true (offer 8) willing waiting).0

-- A second offer, and a first stream that ends while PostgreSQL is down.
abbrev rest_of_day : List Happening
rest_of_day =
    offers true (offer 8) willing
    ∷ changes (record { up = false; redis_up = true; now = 31; stream = 0; state = closed })
    ∷ []

not_yet :
    handle_watch uuid_text true (some 8) offered.table
    ≡ error 404 "{\"error\":\"stream not available\"}"
unfolding lifecycle_code
not_yet = refl

happen_all-IsWatchable_example : IsWatchable (codes "/data") (codes "4f") (
    handle_watch uuid_text true
      (some 8)
      (happen_all rest_of_day (change_state true true 30 0 connected offered)).table)
unfolding lifecycle_code
happen_all-IsWatchable_example =
    happen_all-IsWatchable uuid_text b'/' (codes "data") true 30 0 offered (lesson 8 "waiting")
      rest_of_day refl refl
