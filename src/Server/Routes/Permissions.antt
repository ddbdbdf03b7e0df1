-- ===== src/Server/Routes/Permissions.antt =====
-- Which handler runs for whom.
use webrtc_hls_pipeline.Prelude.{
  ◌≡◌, refl, ap, sym, subst, ◌⊎◌, ℕ, String, ◌∙◌, Option, none, some, List, [], ◌∷◌, arith, All,
  Option-cases, inl, inr,
}
use webrtc_hls_pipeline.Text.{Bytes, codes}
use webrtc_hls_pipeline.Text.Laws.{bytes_eq_iff}
use webrtc_hls_pipeline.Auth.{
  Claims, Credentials, Jwt, Outcome, denied, passes, authenticate, require_role, guarded,
}
use webrtc_hls_pipeline.Auth.Guards.{IsAllowed, guarded_iff}
use webrtc_hls_pipeline.Server.Routes.{
  Method, Access, open_to_all, signed_in, teacher_only, Endpoint, health, metrics, segments,
  create_session, end_session, offer_stream, delete_stream, Route, routes, find_route, handled,
  run_route, serve,
}

-- Who may call a handler: what changes a session or a stream is for teachers, what shows one is for
-- users, and the segments are for all.
abbrev pub needs : Endpoint → Access
needs health = open_to_all
needs metrics = open_to_all
needs segments = open_to_all
needs create_session = teacher_only
needs end_session = teacher_only
needs offer_stream = teacher_only
needs delete_stream = teacher_only
needs _ = signed_in

-- That the claims of a handler's context are those of a request that meets the handler's needs.
abbrev pub Meets : Jwt → Bytes → Credentials → Access → Option Claims → Type 0
Meets jwt secret r open_to_all claims = claims ≡ none
Meets jwt secret r signed_in claims =
    (c : Claims) × (claims ≡ some c) × IsAllowed jwt secret c.role r c
Meets jwt secret r teacher_only claims =
    (c : Claims) × (claims ≡ some c) × IsAllowed jwt secret (codes "teacher") r c

found_fits :
    (m : Method) (path : List Bytes) (rs : List Route)
    → All (λ x. x.access ≡ needs x.endpoint) rs
    → (x : Route) → find_route m path rs ≡ some x
    → x.access ≡ needs x.endpoint
unfolding find_route
found_fits m path [] h x e = cc
found_fits m path (r ∷ rs) h x e = ground (arith, h, e, found_fits m path rs h.1 x)

authenticated :
    (jwt : Jwt) (secret : Bytes) (r : Credentials) (c : Claims)
    → authenticate jwt secret r ≡ passes c
    → IsAllowed jwt secret c.role r c
unfolding guarded require_role
authenticated jwt secret r c e =
    (guarded_iff jwt secret c.role r c).0 (ground (arith, e, bytes_eq_iff c.role c.role))

Outcome-cases :
    (o : Outcome)
    → ((status : ℕ) × (body : String) × (o ≡ denied status body)) ⊎ ((c : Claims) × (o ≡ passes c))
Outcome-cases (denied status body) = inl (status, body, refl)
Outcome-cases (passes c) = inr (c, refl)

routes_fit : All (λ x. x.access ≡ needs x.endpoint) routes
routes_fit = ground arith

run_route-Meets :
    (jwt : Jwt) (secret : Bytes) (r : Credentials) (a : Access) (e f : Endpoint)
    (claims : Option Claims)
    → run_route jwt secret r a e ≡ handled f claims
    → (f ≡ e) × Meets jwt secret r a claims
unfolding run_route
run_route-Meets jwt secret r open_to_all e f claims h = ground (arith, h)
run_route-Meets jwt secret r signed_in e f claims h =
    elim (Outcome-cases (authenticate jwt secret r)) [
      | inl (status, body, d) ↦ ground (arith, h, d)
      | inr (c, p) ↦
          (ground (arith, h, p), (c, ground (arith, h, p), authenticated jwt secret r c p))
    ]
run_route-Meets jwt secret r teacher_only e f claims h =
    elim (Outcome-cases (guarded jwt secret (codes "teacher") r)) [
      | inl (status, body, d) ↦ ground (arith, h, d)
      | inr (c, p) ↦ (
        ground (arith, h, p),
        (c, ground (arith, h, p), (guarded_iff jwt secret (codes "teacher") r c).0 p),
      )
    ]

-- A handler runs only for a request that meets its needs: creating and ending a session, offering a
-- stream and deleting one take a token of a teacher, the other handlers under /api/v1 take a valid
-- token, and a handler's claims are those of the token. Only the health check, the metrics and the
-- segments run with no token.
pub serve-Meets :
    (jwt : Jwt) (secret : Bytes) (r : Credentials) (m : Method) (path : List Bytes) (e : Endpoint)
    (claims : Option Claims)
    → serve jwt secret r m path ≡ handled e claims
    → Meets jwt secret r (needs e) claims
unfolding serve
serve-Meets jwt secret r m path e claims h = elim (Option-cases (find_route m path routes)) [
  | inl n ↦ ground (arith, h, n)
  | inr (x, y) ↦
      let (same, met) =
        run_route-Meets jwt secret r x.access x.endpoint e claims (ground (arith, h, y)) in
      let fits = found_fits m path routes routes_fit x y in
      subst (λ a. Meets jwt secret r a claims) (fits ∙ ap needs (sym same)) met
]
