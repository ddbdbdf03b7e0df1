-- ===== src/Server/Routes.antt =====
-- The routes of cmd/server/main.go with their middlewares, and `healthHandler`. Of chi, a pattern is
-- matched piece by piece: a name in braces takes one piece of the path, which is not empty at the end
-- of the path; a star takes all that is left. A slash at the end is an empty last piece.
pub mod Permissions
mod Tests
use webrtc_hls_pipeline.Prelude.{
  ℕ, String, Bool, true, false, ◌&&◌, not, Option, none, some, List, [], ◌∷◌, if◌then◌else◌,
}
use webrtc_hls_pipeline.Text.{Bytes, codes, bytes_eq}
use webrtc_hls_pipeline.Auth.{
  Claims, Credentials, Jwt, Outcome, denied, passes, authenticate, guarded,
}

pub data Method : Type 0 where
  get post delete other : Method

pub data Piece : Type 0 where
  lit : Bytes → Piece
  param star : Piece

-- The middlewares before a handler: none, `Authenticate`, or `RequireRole("teacher")` as well.
pub data Access : Type 0 where
  open_to_all signed_in teacher_only : Access

pub data Endpoint : Type 0 where
  health metrics segments : Endpoint
  list_sessions create_session get_session end_session : Endpoint
  offer_stream delete_stream watch chat chat_history recording : Endpoint

pub record Route : Type 0 where
  pub method : Option Method  -- `none` is `r.Handle`, which takes every method
  pub pattern : List Piece
  pub access : Access
  pub endpoint : Endpoint

abbrev route : Option Method → List Piece → Access → Endpoint → Route
route method pattern access endpoint = record {
  method = method;
  pattern = pattern;
  access = access;
  endpoint = endpoint;
}

abbrev in_sessions : List Piece → List Piece
in_sessions pattern = lit (codes "api") ∷ lit (codes "v1") ∷ lit (codes "sessions") ∷ pattern

abbrev in_session : String → List Piece
in_session name = in_sessions (param ∷ lit (codes name) ∷ [])

-- `r.Route` mounts a pattern with a slash at its end, too.
abbrev slash : List Piece
slash = lit [] ∷ []

abbrev pub routes : List Route
routes =
    route (some get) (lit (codes "health") ∷ []) open_to_all health
    ∷ route none (lit (codes "metrics") ∷ []) open_to_all metrics
    ∷ route (some get) (lit (codes "hls") ∷ param ∷ star ∷ []) open_to_all segments
    ∷ route (some get) (in_sessions []) signed_in list_sessions
    ∷ route (some post) (in_sessions []) teacher_only create_session
    ∷ route (some get) (in_sessions slash) signed_in list_sessions
    ∷ route (some post) (in_sessions slash) teacher_only create_session
    ∷ route (some get) (in_sessions (param ∷ [])) signed_in get_session
    ∷ route (some get) (in_sessions (param ∷ slash)) signed_in get_session
    ∷ route (some post) (in_session "end") teacher_only end_session
    ∷ route (some post) (in_session "whip") teacher_only offer_stream
    ∷ route (some delete) (in_session "whip") teacher_only delete_stream
    ∷ route (some get) (in_session "watch") signed_in watch
    ∷ route (some get) (in_session "chat") signed_in chat
    ∷ route (some get) (in_sessions (param ∷ lit (codes "chat") ∷ lit (codes "history") ∷ []))
        signed_in chat_history
    ∷ route (some get) (in_session "recording") signed_in recording
    ∷ []

abbrev pub takes_method : Option Method → Method → Bool
takes_method none _ = true
takes_method (some get) get = true
takes_method (some post) post = true
takes_method (some delete) delete = true
takes_method _ _ = false

unfoldable pub matches : List Piece → List Bytes → Bool
matches [] [] = true
matches [] (x ∷ xs) = false
matches (lit s ∷ ps) [] = false
matches (lit s ∷ ps) (x ∷ xs) = bytes_eq s x && matches ps xs
matches (param ∷ ps) [] = false
matches (param ∷ ps) (x ∷ []) = not (bytes_eq x []) && matches ps []
matches (param ∷ ps) (x ∷ y ∷ ys) = matches ps (y ∷ ys)
matches (star ∷ ps) xs = true

unfoldable pub find_route : Method → List Bytes → List Route → Option Route
unfolding matches
find_route method path [] = none
find_route method path (r ∷ rs) =
    if takes_method r.method method && matches r.pattern path
    then some r
    else find_route method path rs

-- What a request comes to before any handler: no route, an error of a middleware, or a handler with
-- the claims that its context holds.
pub data Served : Type 0 where
  no_route : Served
  refused : ℕ → String → Served
  handled : Endpoint → Option Claims → Served

abbrev pub after_guard : Endpoint → Outcome → Served
after_guard e (denied status body) = refused status body
after_guard e (passes claims) = handled e (some claims)

unfoldable pub run_route : Jwt → Bytes → Credentials → Access → Endpoint → Served
run_route jwt secret r open_to_all e = handled e none
run_route jwt secret r signed_in e = after_guard e (authenticate jwt secret r)
run_route jwt secret r teacher_only e = after_guard e (guarded jwt secret (codes "teacher") r)

unfoldable pub serve : Jwt → Bytes → Credentials → Method → List Bytes → Served
unfolding find_route run_route
serve jwt secret r method path = elim (find_route method path routes) [
  | none ↦ no_route
  | some route ↦ run_route jwt secret r route.access route.endpoint
]

-- `healthHandler`: the status and the body.
unfoldable pub health_handler : Bool → Bool → ℕ × String
health_handler postgres_up redis_up =
    if not postgres_up
    then (503, "{\"status\":\"unhealthy\",\"error\":\"postgres\"}")
    else if not redis_up
    then (503, "{\"status\":\"unhealthy\",\"error\":\"redis\"}")
    else (200, "{\"status\":\"healthy\"}")
