-- ===== src/Whip/Handler.antt =====
-- internal/whip/handler.go. Stream sessions are shared by pointers and live in a store with
-- addresses. What pion answers is the record `Pion`; a change of a peer connection's state is a call
-- of `change_state`, in any order. `up` says whether PostgreSQL answers, `redis_up` whether Redis
-- does.
pub mod Requests
pub mod Resource
pub mod Gauge
pub mod Lifecycle
mod Tests
use webrtc_hls_pipeline.Prelude.{
  ℕ, ◌+◌, String, Bool, true, false, not, Option, none, some, List, [], ◌∷◌, ◌++◌, Map, empty,
  insert, delete, store, str_eq, if◌then◌else◌,
}
use webrtc_hls_pipeline.Prelude.Int.{ℤ, pos, negsuc, ◌+ℤ◌}
use webrtc_hls_pipeline.Events.{Event, stream_started, stream_ended, publish}
use webrtc_hls_pipeline.Session.{Session, get_by_id, update_status, status_live, status_ended}

pub record StreamSession : Type 0 where
  pub session_id : ℕ
  pub tenant_id : ℕ
  pub teacher_id : ℕ
  pub disconnected : Bool  -- `disconnected.Do` has run

-- The handler with what it changes: its map, the sessions table, the gauge, Redis and the callbacks.
pub record Handler : Type 0 where
  pub sessions : Map ℕ
  pub streams : ℕ → StreamSession
  pub next : ℕ
  pub table : List Session
  pub streams_active : ℤ
  pub published : List Event
  pub disconnects : List (ℕ × ℕ)

unfoldable pub new_handler : List Session → Handler
new_handler table = record {
  sessions = empty;
  streams = λ _. record { session_id = 0; tenant_id = 0; teacher_id = 0; disconnected = true };
  next = 0;
  table = table;
  streams_active = pos 0;
  published = [];
  disconnects = [];
}

-- `webrtc.PeerConnectionState`
pub data PeerState : Type 0 where
  new connecting connected disconnected failed closed : PeerState

-- The parts of a request that the endpoint reads: `none` is an id that is no UUID, a body that
-- cannot be read.
pub record Request : Type 0 where
  pub session_id : Option ℕ
  pub content_type : String
  pub body : Option String

-- What the calls of pion return; `false` and `none` are their errors.
pub record Pion : Type 0 where
  pub new_peer_connection : Bool
  pub set_remote_description : String → Bool
  pub create_answer : Option String
  pub set_local_description : String → Bool
  pub local_sdp : String
  pub close_up : Bool  -- what the callback meets after `pc.Close()`: PostgreSQL
  pub close_redis_up : Bool  -- and Redis
  pub close_now : ℕ  -- and the clock

pub record Response : Type 0 where
  pub status : ℕ
  pub body : String

abbrev pub response : ℕ → String → Response
response status body = record { status = status; body = body }

-- The offer of a request that passes the checks before a peer connection is made, with the row of
-- its session; otherwise the error.
pub data Checked : Type 0 where
  refused : Response → Checked
  admitted : Session → String → Checked

unfoldable pub check_body : Session → Request → Checked
check_body sess r =
    if not (str_eq r.content_type "application/sdp")
    then refused (response 415 "content-type must be application/sdp")
    else elim r.body [
      | none ↦ refused (response 400 "failed to read offer")
      | some offer ↦ admitted sess offer
    ]

unfoldable pub check_session : Option Session → Request → Checked
unfolding check_body
check_session none r = refused (response 404 "session not found")
check_session (some sess) r =
    if str_eq sess.status status_live
    then refused (response 409 "session already live")
    else check_body sess r

unfoldable pub check_request : Bool → Request → List Session → Checked
unfolding check_session
check_request up r table = elim r.session_id [
  | none ↦ refused (response 400 "invalid session id")
  | some i ↦ check_session (get_by_id up i table) r
]

-- The exchange of descriptions; `none` goes on to the answer. Each error closes the connection.
unfoldable pub exchange : Pion → String → Option Response
exchange pion offer =
    if not (pion.set_remote_description offer)
    then some (response 400 "failed to set remote description")
    else elim pion.create_answer [
      | none ↦ some (response 500 "failed to create answer")
      | some answer ↦
          if not (pion.set_local_description answer)
          then some (response 500 "failed to set local description")
          else none
    ]

-- The stream session that the callbacks of a new peer connection hold, at the next address.
unfoldable pub add_stream : ℕ → Session → Handler → Handler
add_stream i sess h = record h {
  streams =
      store h.next
        (record {
          session_id = i;
          tenant_id = sess.tenant_id;
          teacher_id = sess.teacher_id;
          disconnected = false;
        })
        h.streams;
  next = h.next + 1;
}

-- `h.sessions[sessionID] = ss`
unfoldable pub register : ℕ → ℕ → Handler → Handler
register i a h = record h { sessions = insert i a h.sessions }

unfoldable pub remove_session : ℕ → Handler → Handler
remove_session i h = record h { sessions = delete i h.sessions }

-- The case `Connected` of the callback of the stream at address `a`, at time `now`.
unfoldable pub on_connected : Bool → Bool → ℕ → ℕ → Handler → Handler
on_connected up redis_up now a h =
    let ss = h.streams a in
    record h {
      streams_active = h.streams_active +ℤ pos 1;
      table = (update_status up ss.session_id status_live now h.table).table;
      published =
          publish redis_up (stream_started ss.session_id ss.tenant_id ss.teacher_id) h.published;
    }

-- The function that `disconnected.Do` runs once.
unfoldable pub on_disconnected : Bool → Bool → ℕ → ℕ → Handler → Handler
unfolding remove_session
on_disconnected up redis_up now a h =
    let ss = h.streams a in
    let h' = remove_session ss.session_id h in
    record h' {
      streams = store a (record ss { disconnected = true }) h.streams;
      streams_active = h.streams_active +ℤ negsuc 0;
      table = (update_status up ss.session_id status_ended now h.table).table;
      published = publish redis_up (stream_ended ss.session_id ss.tenant_id) h.published;
      disconnects = h.disconnects ++ (ss.session_id, ss.tenant_id) ∷ [];
    }

unfoldable pub disconnect_once : Bool → Bool → ℕ → ℕ → Handler → Handler
unfolding on_disconnected
disconnect_once up redis_up now a h =
    if (h.streams a).disconnected then h else on_disconnected up redis_up now a h

-- `OnConnectionStateChange` of the stream at address `a`.
unfoldable pub change_state : Bool → Bool → ℕ → ℕ → PeerState → Handler → Handler
unfolding on_connected disconnect_once
change_state up redis_up now a new h = h
change_state up redis_up now a connecting h = h
change_state up redis_up now a connected h = on_connected up redis_up now a h
change_state up redis_up now a disconnected h = disconnect_once up redis_up now a h
change_state up redis_up now a failed h = disconnect_once up redis_up now a h
change_state up redis_up now a closed h = disconnect_once up redis_up now a h

-- `pc.Close()` of the stream at address `a` after an exchange that failed: pion reports `Closed` to the
-- callback of the connection, which is taken to have run when `Close` returns.
unfoldable pub close_connection : Pion → ℕ → Handler → Handler
unfolding change_state
close_connection pion a h = change_state pion.close_up pion.close_redis_up pion.close_now a closed h

abbrev pub answer_offer : Pion → ℕ → Session → String → Handler → Handler × Response
answer_offer pion i sess offer h =
    if not pion.new_peer_connection
    then (h, response 500 "failed to create peer connection")
    else elim (exchange pion offer) [
      | some r ↦ (close_connection pion h.next (add_stream i sess h), r)
      | none ↦ (register i h.next (add_stream i sess h), response 201 pion.local_sdp)
    ]

abbrev pub id_or_zero : Option ℕ → ℕ
id_or_zero none = 0
id_or_zero (some i) = i

-- `HandleWHIP`, with no state change of the new connection before the answer but the one that its own
-- `pc.Close()` makes.
unfoldable pub handle_whip : Bool → Request → Pion → Handler → Handler × Response
unfolding check_request exchange add_stream register close_connection
handle_whip up r pion h = elim (check_request up r h.table) [
  | refused e ↦ (h, e)
  | admitted sess offer ↦ answer_offer pion (id_or_zero r.session_id) sess offer h
]

-- `HandleDeleteResource`: the response, and the stream whose connection it closes.
unfoldable pub handle_delete_resource : Option ℕ → Handler → Response × Option ℕ
handle_delete_resource none h = (response 400 "invalid session id", none)
handle_delete_resource (some i) h = elim (h.sessions i) [
  | none ↦ (response 404 "no active stream", none)
  | some a ↦ (response 200 "", some a)
]

unfoldable pub get_stream_session : ℕ → Handler → Option ℕ
get_stream_session i h = h.sessions i
