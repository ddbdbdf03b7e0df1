-- ===== src/Whip/Handler/Resource/Tests.antt =====
-- An offer for lesson 7 and its end.
use webrtc_hls_pipeline.Prelude.{
  ℕ, ◌≡◌, refl, String, true, Option, none, some, List, [], ◌∷◌, if◌then◌else◌,
}
use webrtc_hls_pipeline.Text.{Bytes, codes, bytes_eq}
use webrtc_hls_pipeline.Session.{Session, get_by_id}
use webrtc_hls_pipeline.Http.{write_error, parse_session_id, header}
use webrtc_hls_pipeline.Whip.Handler.{
  Handler, Pion, new_handler, handle_whip, handle_delete_resource,
}
use webrtc_hls_pipeline.Whip.Handler.Resource.{HttpRequest, post_whip, delete_whip, send_whip}

resource_code : Unit {0}
unfolding get_by_id write_error parse_session_id new_handler handle_whip handle_delete_resource
    post_whip delete_whip send_whip
resource_code = tt

abbrev lesson : Session
lesson = record {
  id = 7;
  tenant_id = 1;
  teacher_id = 2;
  title = "Go";
  status = "waiting";
  started_at = none;
  ended_at = none;
  hls_playlist_url = "";
  mp4_url = "";
  created_at = 10;
  updated_at = 10;
}

abbrev willing : Pion
willing = record {
  new_peer_connection = true;
  set_remote_description = λ _. true;
  create_answer = some "answer";
  set_local_description = λ _. true;
  local_sdp = "sdp";
  close_up = true;
  close_redis_up = true;
  close_now = 25;
}

abbrev only_seven : Bytes → Option ℕ
only_seven param = if bytes_eq param (codes "7") then some 7 else none

abbrev as_text : List (String × String) → String
as_text [] = "{}"
as_text ((key, value) ∷ rest) = value

abbrev offer : String → HttpRequest
offer id = record {
  url = "/api/v1/sessions/7/whip";
  param = codes id;
  content_type = "application/sdp";
  body = some "v=0";
}

abbrev fresh : Handler
unfolding resource_code
fresh = new_handler (lesson ∷ [])

bad_id : (post_whip only_seven as_text true willing (offer "eight") fresh).1 ≡ record {
  status = 400;
  headers = ("Content-Type", "application/json") ∷ [];
  body = "invalid session id";
}
unfolding resource_code
bad_id = refl

located :
    header "Location" (post_whip only_seven as_text true willing (offer "7") fresh).1.headers
    ≡ some "/api/v1/sessions/7/whip"
unfolding resource_code
located = refl
