-- ===== src/Scripts/Demo.antt =====
-- What seed prints and stores fits the server.
use webrtc_hls_pipeline.Prelude.{
  ℕ, ◌+◌, ◌<◌, ◌≡◌, refl, ap, ◌∙◌, true, false, Option, some, List, [], ◌∷◌, All, any, keep_if,
  arith, ◌==◌,
}
use webrtc_hls_pipeline.Text.{Bytes, codes}
use webrtc_hls_pipeline.Go.{returns}
use webrtc_hls_pipeline.Auth.{
  Claims, Credentials, Jwt, denied, passes, authenticate, require_role, guarded,
}
use webrtc_hls_pipeline.Session.{Session, has_id, list_sessions}
use webrtc_hls_pipeline.Session.Handlers.{answers, handle_list}
use webrtc_hls_pipeline.Scripts.{
  DemoIds, Seeded, demo_claims, demo_session, mint_token, or_empty, insert_ignoring, seed,
}
use webrtc_hls_pipeline.Scripts.Tokens.{
  Signs, bearer, extract_token-bearer, authenticate-signed, guarded-signed,
}

-- The rows of a tenant that no other session has.
only_row :
    (s : Session) (tenant : ℕ) (t : List Session)
    → (s.tenant_id == tenant) ≡ true
    → All (λ x. (x.tenant_id == tenant) ≡ false) t
    → keep_if (λ x. x.tenant_id == tenant) (s ∷ t) ≡ s ∷ []
only_row s tenant [] e a = ground (arith, e)
only_row s tenant (x ∷ t) e a = ground (arith, e, a.0, only_row s tenant t e a.1)

-- A user with the claims sees the demo session, and no other, and passes the routes of a role.
pub record IsUsable (parse_uuid : Bytes → Option ℕ) (newest_first : List Session → List Session)
    (jwt : Jwt) (secret : Bytes) (r : Credentials) (c : Claims) (row : Session)
    (table : List Session) : Type 0 where
  pub lists :
      handle_list parse_uuid newest_first true (some c) table ≡ returns (answers 200 (row ∷ []))
  pub signed_in : authenticate jwt secret r ≡ passes c
  pub in_role : (role : Bytes) → guarded jwt secret role r ≡ require_role role (some c)

module _ (sign : Bytes → Claims → ℕ → Option Bytes) (library : ℕ → Jwt) (uuid_string : ℕ → Bytes)
    (parse_uuid : Bytes → Option ℕ) (newest_first : List Session → List Session)
    (signs : Signs sign library) (round_trip : (i : ℕ) → parse_uuid (uuid_string i) ≡ some i)
    (one_row : (s : Session) → newest_first (s ∷ []) ≡ s ∷ []) where
  handle_list-row :
      (c : Claims) (s : Session) (t : List Session)
      → c.tenant_id ≡ uuid_string s.tenant_id
      → All (λ x. (x.tenant_id == s.tenant_id) ≡ false) t
      → handle_list parse_uuid newest_first true (some c) (s ∷ t) ≡ returns (answers 200 (s ∷ []))
  unfolding handle_list list_sessions
  handle_list-row c s t e a =
      let parsed : parse_uuid c.tenant_id ≡ some s.tenant_id =
        ap parse_uuid e ∙ round_trip s.tenant_id in
      let rows : newest_first (keep_if (λ x. x.tenant_id == s.tenant_id) (s ∷ t)) ≡ s ∷ [] =
        ap newest_first (only_row s s.tenant_id t (ground arith) a) ∙ one_row s in
      ground (arith, parsed, rows)

  module _ (secret : Bytes) (now later : ℕ) (valid : later < now + 86400)
      (total : (c : Claims) → (token : Bytes) × (sign secret c (now + 86400) ≡ some token)) where
    usable :
        (c : Claims) (query : Bytes) (s : Session) (t : List Session)
        → c.tenant_id ≡ uuid_string s.tenant_id
        → All (λ x. (x.tenant_id == s.tenant_id) ≡ false) t
        → IsUsable parse_uuid newest_first
            (library later)
            secret
            (bearer (mint_token sign secret now c) query)
            c
            s
            (s ∷ t)
    unfolding mint_token
    usable c query s t e a =
        let (token, signed) = total c in
        let r = bearer (mint_token sign secret now c) query in
        let f = extract_token-bearer (mint_token sign secret now c) query ∙ ap or_empty signed in
        let exp = now + 86400 in
        record {
          lists = handle_list-row c s t e a;
          signed_in =
              authenticate-signed sign library signs secret c exp later token signed valid r f;
          in_role = λ role.
              guarded-signed sign library signs secret c exp later token signed valid role r f;
        }

-- Let the JWT library sign any claims and verify what it signed until it expires, and let UUIDs be
-- read back from their texts. When the ids that seed draws are new, it stores the demo session, and
-- for a day the token that it prints for the teacher opens the routes of teachers, the one for the
-- student does not, and each of the two lists the demo session and no other.
pub seed-IsUsable :
    (sign : Bytes → Claims → ℕ → Option Bytes) (library : ℕ → Jwt) (uuid_string : ℕ → Bytes)
    (parse_uuid : Bytes → Option ℕ) (newest_first : List Session → List Session) (secret : Bytes)
    (now later : ℕ) (ids : DemoIds) (t : List Session) (query : Bytes)
    → Signs sign library
    → ((i : ℕ) → parse_uuid (uuid_string i) ≡ some i)
    → ((s : Session) → newest_first (s ∷ []) ≡ s ∷ [])
    → later < now + 86400
    → ((c : Claims) → (token : Bytes) × (sign secret c (now + 86400) ≡ some token))
    → any (has_id ids.session) t ≡ false
    → All (λ x. (x.tenant_id == ids.tenant) ≡ false) t
    → let teacher = demo_claims uuid_string ids.tenant ids.teacher "Ms. Smith" "teacher" in
      let student = demo_claims uuid_string ids.tenant ids.student "Alex" "student" in
      let row = demo_session ids now in
      (s : Seeded) × (seed sign uuid_string true true secret now ids t ≡ some s)
      × IsUsable parse_uuid newest_first
          (library later)
          secret
          (bearer s.teacher_token query)
          teacher
          row
          s.table
      × IsUsable parse_uuid newest_first
          (library later)
          secret
          (bearer s.student_token query)
          student
          row
          s.table
      × (guarded (library later) secret (codes "teacher") (bearer s.teacher_token query)
          ≡ passes teacher)
      × (guarded (library later) secret (codes "teacher") (bearer s.student_token query)
          ≡ denied 403 "{\"error\":\"forbidden\"}")
unfolding seed demo_session require_role
seed-IsUsable sign library uuid_string parse_uuid newest_first secret now later ids t query signs
      round_trip one_row valid total new_id new_tenant =
    let teacher = demo_claims uuid_string ids.tenant ids.teacher "Ms. Smith" "teacher" in
    let student = demo_claims uuid_string ids.tenant ids.student "Alex" "student" in
    let row = demo_session ids now in
    let use_by : (c : Claims)
        → c.tenant_id ≡ uuid_string ids.tenant
        → IsUsable parse_uuid newest_first (library later) secret
            (bearer (mint_token sign secret now c) query) c row (row ∷ t) =
      λ c e.
        usable sign library uuid_string parse_uuid newest_first signs round_trip one_row secret now
          later valid total c query row t e new_tenant in
    let stored : insert_ignoring row t ≡ row ∷ t = ground (arith, new_id) in
    let for_teacher = use_by teacher refl in
    let for_student = use_by student refl in
    (
      record {
        table = row ∷ t;
        teacher_token = mint_token sign secret now teacher;
        student_token = mint_token sign secret now student;
      },
      ap
          (λ table. some (record {
            table = table;
            teacher_token = mint_token sign secret now teacher;
            student_token = mint_token sign secret now student;
          }))
          stored,
      for_teacher,
      for_student,
      for_teacher.in_role (codes "teacher"),
      for_student.in_role (codes "teacher"),
    )
