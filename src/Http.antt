-- ===== src/Http.antt =====
-- internal/httputil/response.go, over what an answer sends. `encode` is what encoding/json writes of a
-- value.
use webrtc_hls_pipeline.Prelude.{
  ℕ, String, Bool, true, false, Option, none, some, List, [], ◌∷◌, str_eq, if◌then◌else◌,
}
use webrtc_hls_pipeline.Text.{Bytes}

pub record Sent : Type 0 where
  pub status : ℕ
  pub headers : List (String × String)
  pub body : String

unfoldable pub write_json : {A : Type 0} → (A → String) → ℕ → A → Sent
write_json encode status value = record {
  status = status;
  headers = ("Content-Type", "application/json") ∷ [];
  body = encode value;
}

unfoldable pub write_error : (List (String × String) → String) → ℕ → String → Sent
unfolding write_json
write_error encode status msg = write_json encode status (("error", msg) ∷ [])

-- `ParseSessionID` for the route's parameter: the nil UUID is 0.
unfoldable pub parse_session_id : (Bytes → Option ℕ) → Bytes → ℕ × Bool
parse_session_id parse_uuid param = elim (parse_uuid param) [
  | none ↦ (0, false)
  | some id ↦ (id, true)
]

abbrev pub header : String → List (String × String) → Option String
header name [] = none
header name ((key, value) ∷ rest) = if str_eq key name then some value else header name rest
