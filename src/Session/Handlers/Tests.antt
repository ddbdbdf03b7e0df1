-- ===== src/Session/Handlers/Tests.antt =====
-- Runs of internal/session/handler.go.
use webrtc_hls_pipeline.Prelude.{
  ℕ, ◌≡◌, refl, true, Option, none, some, List, [], ◌∷◌, KeepsRows, if◌then◌else◌,
}
use webrtc_hls_pipeline.Text.{Bytes, codes, bytes_eq}
use webrtc_hls_pipeline.Go.{returns}
use webrtc_hls_pipeline.Auth.{Claims}
use webrtc_hls_pipeline.Session.{Session, create, get_by_id, list_sessions, update_status}
use webrtc_hls_pipeline.Session.Handlers.{
  Answer, answers, handle_create, handle_get, handle_list, handle_end,
}
use webrtc_hls_pipeline.Session.Handlers.Outcomes.{
  CreateOutcome, handle_create-Outcome, handle_get-handle_end,
}

handlers_code : Unit {0}
unfolding handle_create handle_get handle_list handle_end create get_by_id list_sessions
    update_status
handlers_code = tt

-- A parser that knows two ids.
abbrev parse_uuid : Bytes → Option ℕ
parse_uuid s =
    if bytes_eq s (codes "a1") then some 1 else if bytes_eq s (codes "b2") then some 2 else none

abbrev ada : Claims
ada = record {
  tenant_id = codes "a1";
  user_id = codes "b2";
  username = codes "ada";
  role = codes "teacher";
}

abbrev algebra : Session
algebra = record {
  id = 7;
  tenant_id = 1;
  teacher_id = 2;
  title = "algebra";
  status = "waiting";
  started_at = none;
  ended_at = none;
  hls_playlist_url = "";
  mp4_url = "";
  created_at = 10;
  updated_at = 10;
}

creates_algebra :
    handle_create parse_uuid true 7 10 (some ada) (some "algebra") []
    ≡ returns (algebra ∷ [], answers 201 algebra)
unfolding handlers_code
creates_algebra = refl

abbrev as_stored : List Session → List Session
as_stored rows = rows

as_stored-KeepsRows : KeepsRows as_stored
as_stored-KeepsRows p rows h = h

handle_create-Outcome_example :
    (r : List Session × Answer Session) × (handle_create parse_uuid true 7 10
        (some ada)
        (some "algebra")
        []
      ≡ returns r)
    × CreateOutcome parse_uuid true 7 ada (some "algebra") [] r
handle_create-Outcome_example = handle_create-Outcome parse_uuid true 7 10 ada [] (some "algebra")

handle_get-handle_end_example :
    ((handle_end true 30 (some 7) (algebra ∷ [])).1 ≡ answers 200 "{\"status\":\"ended\"}")
    × (handle_get true (some 7) (handle_end true 30 (some 7) (algebra ∷ [])).0
        ≡ answers 200 (record algebra { status = "ended"; ended_at = some 30; updated_at = 30 }))
unfolding handlers_code
handle_get-handle_end_example = handle_get-handle_end 30 7 7 (algebra ∷ [])
