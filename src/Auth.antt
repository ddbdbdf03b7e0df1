-- ===== src/Auth.antt =====
-- internal/auth/jwt.go. The JWT library is the record `Jwt`; a route that needs a role runs
-- `Authenticate` and then `RequireRole`.
pub mod Guards
mod Tests
use webrtc_hls_pipeline.Prelude.{
  ℕ, String, Bool, true, false, not, Option, none, some, List, [], ◌∷◌, if◌then◌else◌,
}
use webrtc_hls_pipeline.Text.{Bytes, codes, bytes_eq, cut_prefix}

pub record Claims : Type 0 where
  pub tenant_id : Bytes
  pub user_id : Bytes
  pub username : Bytes
  pub role : Bytes

-- The parts of a request that are read: the header `Authorization` and the query's `token`, empty
-- where they are missing.
pub record Credentials : Type 0 where
  pub authorization : Bytes
  pub query_token : Bytes

-- What the JWT library says of a token: whether its method is of the HMAC family, and the claims when
-- the token is well formed, signed with this secret and not expired.
pub record Jwt : Type 0 where
  pub is_hmac : Bytes → Bool
  pub verify : Bytes → Bytes → Option Claims

-- What a middleware does: it answers with an error, or calls the next handler with the claims.
pub data Outcome : Type 0 where
  denied : ℕ → String → Outcome
  passes : Claims → Outcome

unfoldable pub extract_token : Credentials → Bytes
unfolding cut_prefix
extract_token r = elim (cut_prefix r.authorization (codes "Bearer ")) [
  | some token ↦ token
  | none ↦ r.query_token
]

-- The key function that `Authenticate` gives to the library.
unfoldable pub key_func : Bytes → Bool → Option Bytes
key_func secret is_hmac = if not is_hmac then none else some secret

-- jwt.ParseWithClaims: it asks the key function about the token first and fails where that does.
unfoldable pub parse_with_claims : Jwt → (Bool → Option Bytes) → Bytes → Option Claims
parse_with_claims jwt key token = elim (key (jwt.is_hmac token)) [
  | none ↦ none
  | some secret ↦ jwt.verify secret token
]

unfoldable pub authenticate : Jwt → Bytes → Credentials → Outcome
unfolding extract_token key_func parse_with_claims
authenticate jwt secret r =
    if bytes_eq (extract_token r) []
    then denied 401 "{\"error\":\"missing authorization token\"}"
    else elim (parse_with_claims jwt (key_func secret) (extract_token r)) [
      | none ↦ denied 401 "{\"error\":\"invalid token\"}"
      | some claims ↦ passes claims
    ]

-- `RequireRole` with the claims that the context holds, if any.
unfoldable pub require_role : Bytes → Option Claims → Outcome
require_role role none = denied 403 "{\"error\":\"forbidden\"}"
require_role role (some claims) =
    if not (bytes_eq claims.role role)
    then denied 403 "{\"error\":\"forbidden\"}"
    else passes claims

unfoldable pub guarded : Jwt → Bytes → Bytes → Credentials → Outcome
unfolding authenticate require_role
guarded jwt secret role r = elim (authenticate jwt secret r) [
  | denied status body ↦ denied status body
  | passes claims ↦ require_role role (some claims)
]
