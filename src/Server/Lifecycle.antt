-- ===== src/Server/Lifecycle.antt =====
-- The start and the end of `main` in cmd/server/main.go. A call that fails at the start ends in
-- `log.Fatal`, which exits without the deferred calls; after a signal, `Shutdown` waits for requests,
-- and the deferred calls run, the last one first.
pub mod Restart
pub mod Watching
mod Tests
use webrtc_hls_pipeline.Prelude.{
  ℕ, String, Bool, true, false, not, Option, none, some, List, [], ◌∷◌, ltb, if◌then◌else◌,
}
use webrtc_hls_pipeline.Session.{Session}
use webrtc_hls_pipeline.Whip.Handler.{Handler, Request, Pion, new_handler, handle_whip}
use webrtc_hls_pipeline.Whip.Handler.Gauge.{Change, apply}
use webrtc_hls_pipeline.Whip.Tracks.{new_track_manager}
use webrtc_hls_pipeline.Transcode.Manager.{new_manager}
use webrtc_hls_pipeline.Recording.Worker.{Worker}
use webrtc_hls_pipeline.Server.Wiring.{Server}

-- What the calls at the start return.
pub record Startup : Type 0 where
  pub pool_made : Bool
  pub postgres_pings : Bool
  pub redis_url_parses : Bool
  pub redis_pings : Bool

pub data Deferred : Type 0 where
  cancel close_pool close_redis stop_hub stop_worker shutdown_cancel : Deferred

-- `main` exits with a message, or serves with these calls deferred, the last one first.
pub data Boot : Type 0 where
  exits : String → Boot
  serves : List Deferred → Boot

abbrev pub deferred : List Deferred
deferred = stop_worker ∷ stop_hub ∷ close_redis ∷ close_pool ∷ cancel ∷ []

unfoldable pub start_up : Startup → Boot
start_up s =
    if not s.pool_made
    then exits "failed to connect to postgres"
    else if not s.postgres_pings
    then exits "failed to ping postgres"
    else if not s.redis_url_parses
    then exits "failed to parse redis url"
    else if not s.redis_pings
    then exits "failed to ping redis"
    else serves deferred

-- The parts of a server that starts on the tables of PostgreSQL.
unfoldable pub new_server : List Session → Worker → Server
unfolding new_handler new_track_manager new_manager
new_server table worker = record {
  whip = new_handler table;
  tracks = new_track_manager;
  transcode = new_manager;
  worker = worker;
  waiting = [];
}

-- A server that runs, and what was closed and cancelled.
pub record Running : Type 0 where
  pub server : Server
  pub worker_cancelled : Bool
  pub hub_cancelled : Bool
  pub redis_closed : Bool
  pub pool_closed : Bool
  pub context_cancelled : Bool
  pub shutdown_cancelled : Bool

abbrev pub run_deferred : Deferred → Running → Running
run_deferred cancel r = record r { context_cancelled = true }
run_deferred close_pool r = record r { pool_closed = true }
run_deferred close_redis r = record r { redis_closed = true }
run_deferred stop_hub r = record r { hub_cancelled = true }
run_deferred stop_worker r = record r { worker_cancelled = true }
run_deferred shutdown_cancel r = record r { shutdown_cancelled = true }

abbrev pub run_all : List Deferred → Running → Running
run_all [] r = r
run_all (d ∷ ds) r = run_all ds (run_deferred d r)

-- The end of `main` after a signal, with whether it returned: when `Shutdown` fails, it exits there.
unfoldable pub shut_down : Bool → Running → Running × Bool
shut_down shutdown_succeeds r =
    if not shutdown_succeeds then (r, false) else (run_all (shutdown_cancel ∷ deferred) r, true)

-- What happens to the WHIP endpoint: an offer, or a change of state of a connection that was made.
pub data Happening : Type 0 where
  offers : (up : Bool) → Request → Pion → Happening
  changes : Change → Happening

unfoldable pub happen : Happening → Handler → Handler
unfolding handle_whip apply
happen (offers up r pion) h = (handle_whip up r pion h).0
happen (changes c) h = if ltb c.stream h.next then apply c h else h

unfoldable pub happen_all : List Happening → Handler → Handler
unfolding happen
happen_all [] h = h
happen_all (x ∷ xs) h = happen_all xs (happen x h)
