-- ===== src/Session/Handlers.antt =====
-- internal/session/handler.go. What the JSON decoder makes of a body and `uuid.Parse` of a text are
-- arguments; the claims are what the request's context holds, and reading them through a nil pointer
-- panics.
pub mod Outcomes
mod Tests
use webrtc_hls_pipeline.Prelude.{
  ℕ, String, Bool, true, false, Option, none, some, List, [], ◌∷◌, str_eq, if◌then◌else◌,
}
use webrtc_hls_pipeline.Text.{Bytes}
use webrtc_hls_pipeline.Go.{Go, returns, panics, ◌>>=◌}
use webrtc_hls_pipeline.Auth.{Claims}
use webrtc_hls_pipeline.Session.{
  Session, Reply, create, get_by_id, list_sessions, update_status, status_ended,
}

-- What a handler writes: an error with its status, or a status with a value.
pub data Answer (A : Type 0) : Type 0 where
  error : ℕ → String → Answer A
  answers : ℕ → A → Answer A

-- Reading `claims.TenantID` and the like.
abbrev pub deref : Option Claims → Go Claims
deref none = panics
deref (some c) = returns c

abbrev pub bad_request : {A : Type 0} → List Session → String → Go (List Session × Answer A)
bad_request t message = returns (t, error 400 message)

-- The end of `HandleCreate`, after `repo.Create`.
abbrev pub answer_create : Reply Session → List Session × Answer Session
answer_create r = elim r.result [
  | none ↦ (r.table, error 500 "{\"error\":\"failed to create session\"}")
  | some s ↦ (r.table, answers 201 s)
]

-- `HandleCreate`, with the id and the time that `Create` draws.
unfoldable pub handle_create :
    (Bytes → Option ℕ)
    → Bool
    → ℕ
    → ℕ
    → Option Claims
    → Option String
    → List Session
    → Go (List Session × Answer Session)
unfolding create
handle_create parse_uuid up new_id now claims none t =
    bad_request t "{\"error\":\"invalid request body\"}"
handle_create parse_uuid up new_id now claims (some title) t =
    if str_eq title ""
    then bad_request t "{\"error\":\"title is required\"}"
    else deref claims >>= λ c. elim (parse_uuid c.tenant_id) [
      | none ↦ bad_request t "{\"error\":\"invalid tenant_id in token\"}"
      | some tenant ↦ elim (parse_uuid c.user_id) [
        | none ↦ bad_request t "{\"error\":\"invalid user_id in token\"}"
        | some teacher ↦ returns (answer_create (create up new_id now now tenant teacher title t))
      ]
    ]

unfoldable pub handle_get : Bool → Option ℕ → List Session → Answer Session
handle_get up none t = error 400 "{\"error\":\"invalid session id\"}"
handle_get up (some i) t = elim (get_by_id up i t) [
  | none ↦ error 404 "{\"error\":\"session not found\"}"
  | some s ↦ answers 200 s
]

-- `HandleList`; a nil slice is answered as an empty one.
unfoldable pub handle_list :
    (Bytes → Option ℕ)
    → (List Session → List Session)
    → Bool
    → Option Claims
    → List Session
    → Go (Answer (List Session))
unfolding list_sessions
handle_list parse_uuid newest_first up claims t = deref claims >>= λ c.
    elim (parse_uuid c.tenant_id) [
      | none ↦ returns (error 400 "{\"error\":\"invalid tenant_id in token\"}")
      | some tenant ↦ elim (list_sessions newest_first up tenant t) [
        | none ↦ returns (error 500 "{\"error\":\"failed to list sessions\"}")
        | some rows ↦ returns (answers 200 rows)
      ]
    ]

unfoldable pub handle_end : Bool → ℕ → Option ℕ → List Session → List Session × Answer String
handle_end up now none t = (t, error 400 "{\"error\":\"invalid session id\"}")
handle_end up now (some i) t =
    let r = update_status up i status_ended now t in
    elim r.result [
      | none ↦ (r.table, error 500 "{\"error\":\"failed to end session\"}")
      | some u ↦ (r.table, answers 200 "{\"status\":\"ended\"}")
    ]
