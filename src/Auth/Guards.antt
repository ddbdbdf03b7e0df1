-- ===== src/Auth/Guards.antt =====
-- Who gets through a guarded route.
use webrtc_hls_pipeline.Prelude.{
  ◌≡◌, ap, ◌∙◌, ◌↔◌, true, false, Option, none, some, [], arith, Bool-cases, Option-cases, inl, inr,
}
use webrtc_hls_pipeline.Text.{Bytes, bytes_eq}
use webrtc_hls_pipeline.Text.Laws.{bytes_eq_iff}
use webrtc_hls_pipeline.Auth.{
  Claims, Credentials, Jwt, Outcome, denied, passes, extract_token, key_func, parse_with_claims,
  authenticate, require_role, guarded,
}

-- What lets a request through: a token that is there, whose method is HMAC, that the secret
-- verifies, and whose claims have the role.
pub record IsAllowed (jwt : Jwt) (secret role : Bytes) (r : Credentials) (claims : Claims)
    : Type 0 where
  pub present : bytes_eq (extract_token r) [] ≡ false
  pub hmac : jwt.is_hmac (extract_token r) ≡ true
  pub verified : jwt.verify secret (extract_token r) ≡ some claims
  pub in_role : claims.role ≡ role

abbrev claims_of : Outcome → Option Claims
claims_of (denied status body) = none
claims_of (passes claims) = some claims

module _ (jwt : Jwt) (secret role : Bytes) (r : Credentials) (claims : Claims) where
  allowed : guarded jwt secret role r ≡ passes claims → IsAllowed jwt secret role r claims
  unfolding guarded authenticate require_role key_func parse_with_claims
  allowed h = elim (Bool-cases (bytes_eq (extract_token r) [])) [
    | inl absent ↦ ground (arith, h, absent)
    | inr present ↦ elim (Bool-cases (jwt.is_hmac (extract_token r))) [
      | inr other ↦ ground (arith, h, present, other)
      | inl hmac ↦ elim (Option-cases (jwt.verify secret (extract_token r))) [
        | inl bad ↦ ground (arith, h, present, hmac, bad)
        | inr (found, good) ↦ elim (Bool-cases (bytes_eq found.role role)) [
          | inr other ↦ ground (arith, h, present, hmac, good, other)
          | inl same ↦
              let e : passes found ≡ passes claims = ground (arith, h, present, hmac, good, same) in
              let c = ap claims_of e in
              record {
                present = present;
                hmac = hmac;
                verified = good ∙ c;
                in_role = ground (arith, c, (bytes_eq_iff found.role role).0 same);
              }
        ]
      ]
    ]
  ]

  lets_through : IsAllowed jwt secret role r claims → guarded jwt secret role r ≡ passes claims
  unfolding guarded authenticate require_role key_func parse_with_claims
  lets_through a =
      let same = (bytes_eq_iff claims.role role).1 a.in_role in
      ground (arith, a.present, a.hmac, a.verified, same)

  -- A route that needs a role calls its handler with some claims exactly when the token of the
  -- request is there, is of the HMAC family, verifies under the secret to these claims, and they have
  -- the role.
  pub guarded_iff : (guarded jwt secret role r ≡ passes claims) ↔ IsAllowed jwt secret role r claims
  guarded_iff = (allowed, lets_through)
