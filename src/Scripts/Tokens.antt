-- ===== src/Scripts/Tokens.antt =====
-- The server takes the tokens that the scripts print.
use webrtc_hls_pipeline.Prelude.{
  ◌⊎◌, inl, inr, ℕ, ◌+◌, ◌<◌, ◌≡◌, refl, ap, ◌∙◌, true, false, Option, some, [], ◌++◌, drop-append,
  arith, if◌then◌else◌,
}
use webrtc_hls_pipeline.Text.{Bytes, codes, bytes_eq, cut_prefix}
use webrtc_hls_pipeline.Text.Laws.{has_prefix-append}
use webrtc_hls_pipeline.Auth.{
  Claims, Credentials, Jwt, denied, passes, extract_token, key_func, parse_with_claims,
  authenticate, require_role, guarded,
}
use webrtc_hls_pipeline.Scripts.{Flags, token_claims, generate_token}

-- What the JWT library promises of its signatures: `library now` reads tokens at a time. A token that
-- was signed is there, is of the HMAC family, and verifies under its secret until it expires.
pub record Signs (sign : Bytes → Claims → ℕ → Option Bytes) (library : ℕ → Jwt) : Type 0 where
  pub present :
      (secret : Bytes) (c : Claims) (exp : ℕ) (token : Bytes)
      → sign secret c exp ≡ some token
      → bytes_eq token [] ≡ false
  pub hmac :
      (secret : Bytes) (c : Claims) (exp : ℕ) (token : Bytes) (now : ℕ)
      → sign secret c exp ≡ some token
      → (library now).is_hmac token ≡ true
  pub verifies :
      (secret : Bytes) (c : Claims) (exp : ℕ) (token : Bytes) (now : ℕ)
      → sign secret c exp ≡ some token
      → now < exp
      → (library now).verify secret token ≡ some c

-- A request with the token in the header, or in the query.
abbrev pub bearer : Bytes → Bytes → Credentials
bearer token query = record { authorization = codes "Bearer " ++ token; query_token = query }

abbrev pub in_query : Bytes → Credentials
in_query token = record { authorization = []; query_token = token }

pub extract_token-bearer : (token query : Bytes) → extract_token (bearer token query) ≡ token
unfolding extract_token cut_prefix
extract_token-bearer token query =
    ground (arith, has_prefix-append (codes "Bearer ") token, drop-append (codes "Bearer ") token)

extract_token-in_query : (token : Bytes) → extract_token (in_query token) ≡ token
unfolding extract_token cut_prefix
extract_token-in_query token = refl

module _ (sign : Bytes → Claims → ℕ → Option Bytes) (library : ℕ → Jwt) (signs : Signs sign library)
    (secret : Bytes) (c : Claims) (exp now : ℕ) (token : Bytes) (e : sign secret c exp ≡ some token)
    (valid : now < exp) where
  -- Whoever sends the token in time is let in with its claims.
  pub authenticate-signed :
      (r : Credentials) → extract_token r ≡ token → authenticate (library now) secret r ≡ passes c
  unfolding authenticate key_func parse_with_claims
  authenticate-signed r f = ground (
    arith,
    f,
    signs.present secret c exp token e,
    signs.hmac secret c exp token now e,
    signs.verifies secret c exp token now e valid,
  )

  pub guarded-signed :
      (role : Bytes) (r : Credentials)
      → extract_token r ≡ token
      → guarded (library now) secret role r ≡ require_role role (some c)
  unfolding guarded
  guarded-signed role r f =
      ap
        (λ o. elim o [
          | denied status body ↦ denied status body
          | passes claims ↦ require_role role (some claims)
        ])
        (authenticate-signed r f)

-- Let the JWT library verify what it signed until it expires. Until `ttl` after the call, the server
-- whose secret is that of the command line takes the token that generate-token prints, in the header
-- or in the query of a request: a route for users runs with the claims of the command line, and a
-- route for a role runs with them when the role is that of the command line, and answers 403
-- otherwise.
pub generate_token-accepted :
    (sign : Bytes → Claims → ℕ → Option Bytes) (library : ℕ → Jwt) (now later : ℕ)
    (new_tenant new_user : Bytes) (flags : Flags) (token query : Bytes)
    → Signs sign library
    → generate_token sign now new_tenant new_user flags ≡ some token
    → later < now + flags.ttl
    → (r : Credentials) → (r ≡ bearer token query) ⊎ (r ≡ in_query token)
    → let c = token_claims new_tenant new_user flags in
      (authenticate (library later) flags.secret r ≡ passes c)
      × ((role : Bytes)
          → guarded (library later) flags.secret role r ≡ (
              if bytes_eq flags.role role
              then passes c
              else denied 403 "{\"error\":\"forbidden\"}"))
unfolding generate_token token_claims require_role
generate_token-accepted sign library now later new_tenant new_user flags token query signs e valid r
      from =
    let c = token_claims new_tenant new_user flags in
    let exp = now + flags.ttl in
    let f : extract_token r ≡ token = elim from [
      | inl b ↦ ap extract_token b ∙ extract_token-bearer token query
      | inr q ↦ ap extract_token q ∙ extract_token-in_query token
    ] in
    (
      authenticate-signed sign library signs flags.secret c exp later token e valid r f,
      λ role.
          guarded-signed sign library signs flags.secret c exp later token e valid role r f
          ∙ ground arith,
    )
