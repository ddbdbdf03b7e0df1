-- ===== src/Server/Routes/Tests.antt =====
-- Requests at the routes of cmd/server/main.go.
use webrtc_hls_pipeline.Prelude.{◌≡◌, refl, true, false, none, some, List, [], ◌∷◌, if◌then◌else◌}
use webrtc_hls_pipeline.Text.{Bytes, codes, bytes_eq}
use webrtc_hls_pipeline.Auth.{Claims, Credentials, Jwt, authenticate, guarded}
use webrtc_hls_pipeline.Server.Routes.{
  get, post, list_sessions, segments, end_session, no_route, refused, handled, serve,
  health_handler,
}
use webrtc_hls_pipeline.Server.Routes.Permissions.{needs, Meets, serve-Meets}

routes_code : Unit {0}
unfolding serve health_handler guarded authenticate
routes_code = tt

abbrev ada : Claims
ada = record {
  tenant_id = codes "1";
  user_id = codes "2";
  username = codes "ada";
  role = codes "teacher";
}

-- A library that accepts the token `good` under every secret.
abbrev jwt : Jwt
jwt = record {
  is_hmac = λ token. true;
  verify = λ secret token. if bytes_eq token (codes "good") then some ada else none;
}

abbrev bearer : Bytes → Credentials
bearer token = record { authorization = token; query_token = [] }

abbrev end_path : List Bytes
end_path = codes "api" ∷ codes "v1" ∷ codes "sessions" ∷ codes "4f" ∷ codes "end" ∷ []

ends_with_token :
    serve jwt [] (bearer (codes "Bearer good")) post end_path ≡ handled end_session (some ada)
unfolding routes_code
ends_with_token = refl

refuses_no_token :
    serve jwt [] (bearer []) post end_path
    ≡ refused 401 "{\"error\":\"missing authorization token\"}"
unfolding routes_code
refuses_no_token = refl

segments_for_all :
    serve jwt [] (bearer []) get (codes "hls" ∷ codes "4f" ∷ codes "a.ts" ∷ [])
    ≡ handled segments none
unfolding routes_code
segments_for_all = refl

-- The URL that a recording gets has no route.
recordings_no_route :
    serve jwt [] (bearer []) get (codes "recordings" ∷ codes "4f" ∷ codes "recording.mp4" ∷ [])
    ≡ no_route
unfolding routes_code
recordings_no_route = refl

-- A slash at the end is no empty id.
lists_with_slash :
    serve jwt []
      (bearer (codes "Bearer good"))
      get
      (codes "api" ∷ codes "v1" ∷ codes "sessions" ∷ [] ∷ [])
    ≡ handled list_sessions (some ada)
unfolding routes_code
lists_with_slash = refl

hls_no_id : serve jwt [] (bearer []) get (codes "hls" ∷ [] ∷ []) ≡ no_route
unfolding routes_code
hls_no_id = refl

unhealthy : health_handler true false ≡ (503, "{\"status\":\"unhealthy\",\"error\":\"redis\"}")
unfolding routes_code
unhealthy = refl

serve-Meets_example : Meets jwt [] (bearer (codes "Bearer good")) (needs end_session) (some ada)
unfolding routes_code
serve-Meets_example =
    serve-Meets jwt [] (bearer (codes "Bearer good")) post end_path end_session (some ada) refl
