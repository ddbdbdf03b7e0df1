-- ===== src/Whip/Handler/Resource.antt =====
-- The WHIP endpoint over HTTP: a stream is a resource that its URL stands for.
mod Tests
use webrtc_hls_pipeline.Prelude.{
  ℕ, ◌≢◌, ◌∙◌, ◌≡◌, ◌⊎◌, refl, ◌∙◌, String, Bool, true, false, not, Option, none, some, List, [],
  ◌∷◌, if◌then◌else◌, ◌==◌,
}
use webrtc_hls_pipeline.Text.{Bytes}
use webrtc_hls_pipeline.Session.{Session}
use webrtc_hls_pipeline.Http.{Sent, write_json, write_error, parse_session_id, header}
use webrtc_hls_pipeline.Whip.Handler.{
  Handler, Request, Pion, Response, response, handle_whip, handle_delete_resource,
}
use webrtc_hls_pipeline.Whip.Handler.Requests.{Accepts}

-- A request as it comes in: `param` is the session's id in the URL.
pub record HttpRequest : Type 0 where
  pub url : String
  pub param : Bytes
  pub content_type : String
  pub body : Option String

module _ (parse_uuid : Bytes → Option ℕ) (encode : List (String × String) → String) where
  -- The id, where `ParseSessionID` says that there is one.
  abbrev pub checked_id : ℕ × Bool → Option ℕ
  checked_id (id, ok) = if ok then some id else none

  unfoldable pub request_of : HttpRequest → Request
  unfolding parse_session_id
  request_of r = record {
    session_id = checked_id (parse_session_id parse_uuid r.param);
    content_type = r.content_type;
    body = r.body;
  }

  unfoldable pub send_whip : String → Response → Sent
  unfolding write_error
  send_whip url resp =
      if resp.status == 201
      then record {
        status = 201;
        headers = ("Content-Type", "application/sdp") ∷ ("Location", url) ∷ [];
        body = resp.body;
      }
      else write_error encode resp.status resp.body

  unfoldable pub send_delete : Response → Sent
  unfolding write_error
  send_delete resp =
      if resp.status == 200
      then record { status = 200; headers = []; body = "" }
      else write_error encode resp.status resp.body

  -- POST, and DELETE with the stream whose connection it closes.
  unfoldable pub post_whip : Bool → Pion → HttpRequest → Handler → Handler × Sent
  unfolding request_of send_whip handle_whip
  post_whip up pion r h =
      let (h', resp) = handle_whip up (request_of r) pion h in (h', send_whip r.url resp)

  unfoldable pub delete_whip : HttpRequest → Handler → Sent × Option ℕ
  unfolding request_of send_delete handle_delete_resource
  delete_whip r h =
      let (resp, closed) = handle_delete_resource (request_of r).session_id h in
      (send_delete resp, closed)

  -- An offer makes a resource at its URL that `DELETE` closes, or is answered with an error in JSON.
  pub data Posted (up : Bool) (pion : Pion) (r : HttpRequest) (h : Handler)
      (result : Handler × Sent) : Type 0 where
    created :
        Accepts up (request_of r) pion h
        → result.1.status ≡ 201
        → header "Content-Type" result.1.headers ≡ some "application/sdp"
        → header "Location" result.1.headers ≡ some r.url
        → result.1.body ≡ pion.local_sdp
        → ((q : HttpRequest)
            → q.param ≡ r.param
            → delete_whip q result.0
              ≡ (record { status = 200; headers = []; body = "" }, some h.next))
        → Posted up pion r h result
    refused :
        (status : ℕ) (msg : String)
        → (status ≡ 400) ⊎ (status ≡ 404) ⊎ (status ≡ 409) ⊎ (status ≡ 415) ⊎ (status ≡ 500)
        → result.1 ≡ write_error encode status msg
        → result.0 ≡ h
        → Posted up pion r h result
    failed :
        (status : ℕ) (msg : String)
        → (status ≡ 400) ⊎ (status ≡ 500)
        → result.1 ≡ write_error encode status msg
        → ((q : HttpRequest)
            → q.param ≡ r.param
            → delete_whip q result.0 ≡ (write_error encode 404 "no active stream", none))
        → ((q : HttpRequest)
            → (request_of q).session_id ≢ (request_of r).session_id
            → delete_whip q result.0 ≡ delete_whip q h)
        → Posted up pion r h result
