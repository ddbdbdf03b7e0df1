-- ===== src/Auth/Tests.antt =====
-- Runs of internal/auth/jwt.go.
use webrtc_hls_pipeline.Prelude.{◌≡◌, ◌↔◌, refl, true, none, some, [], if◌then◌else◌}
use webrtc_hls_pipeline.Text.{codes, bytes_eq}
use webrtc_hls_pipeline.Auth.{
  Claims, Credentials, Jwt, denied, passes, extract_token, authenticate, guarded,
}
use webrtc_hls_pipeline.Auth.Guards.{IsAllowed, guarded_iff}

auth_code : Unit {0}
unfolding extract_token authenticate guarded
auth_code = tt

abbrev teacher : Claims
teacher = record {
  tenant_id = codes "1";
  user_id = codes "2";
  username = codes "ada";
  role = codes "teacher";
}

-- A library that accepts the token `good` under the secret `key`.
abbrev jwt : Jwt
jwt = record {
  is_hmac = λ token. true;
  verify = λ secret token.
      if bytes_eq secret (codes "key")
      then (if bytes_eq token (codes "good") then some teacher else none)
      else none;
}

abbrev bearer : Credentials
bearer = record { authorization = codes "Bearer good"; query_token = [] }

passes_teacher : guarded jwt (codes "key") (codes "teacher") bearer ≡ passes teacher
unfolding auth_code
passes_teacher = refl

forbids_student :
    guarded jwt (codes "key") (codes "student") bearer ≡ denied 403 "{\"error\":\"forbidden\"}"
unfolding auth_code
forbids_student = refl

guarded_iff_example :
    (guarded jwt (codes "key") (codes "teacher") bearer ≡ passes teacher)
    ↔ IsAllowed jwt (codes "key") (codes "teacher") bearer teacher
guarded_iff_example = guarded_iff jwt (codes "key") (codes "teacher") bearer teacher
