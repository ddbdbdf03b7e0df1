-- ===== src/Scripts/Tests.antt =====
-- Runs of the scripts over a library whose tokens are the secret, the expiry and the claims in a row.
use webrtc_hls_pipeline.Prelude.{
  inr, subst, ℕ, ◌<◌, ◌≡◌, refl, ap, true, false, Option, none, some, List, [], ◌∷◌, ◌++◌, ltb,
  length, take, drop, take-append, drop-append, ◌&&◌, arith, if◌then◌else◌,
}
use webrtc_hls_pipeline.Text.{Bytes, codes, bytes_eq}
use webrtc_hls_pipeline.Text.Laws.{bytes_eq_iff}
use webrtc_hls_pipeline.Auth.{Claims, Jwt, denied, passes, authenticate, guarded}
use webrtc_hls_pipeline.Session.{Session}
use webrtc_hls_pipeline.Scripts.{
  DemoIds, Seeded, default_flags, token_claims, generate_token, seed, demo_claims, demo_session,
}
use webrtc_hls_pipeline.Scripts.Tokens.{Signs, bearer, in_query, generate_token-accepted}
use webrtc_hls_pipeline.Scripts.Demo.{IsUsable, seed-IsUsable}
use webrtc_hls_pipeline.Config.{load}

scripts_code : Unit {0}
unfolding token_claims generate_token seed demo_session
scripts_code = tt

-- A text with its length before it, and back.
abbrev field : Bytes → Bytes → Bytes
field s rest = length s ∷ (s ++ rest)

abbrev unfield : Bytes → Bytes × Bytes
unfield [] = ([], [])
unfield (n ∷ xs) = (take n xs, drop n xs)

unfield-field : (s rest : Bytes) → unfield (field s rest) ≡ (s, rest)
unfield-field s rest = ground (arith, take-append s rest, drop-append s rest)

abbrev sign : Bytes → Claims → ℕ → Option Bytes
sign secret c exp =
    some (
      exp ∷ field secret (field c.tenant_id (field c.user_id (field c.username (field c.role [])))))

abbrev read_claims : Bytes → Claims
read_claims rest =
    let (tenant, rest1) = unfield rest in
    let (user, rest2) = unfield rest1 in
    let (username, rest3) = unfield rest2 in
    record { tenant_id = tenant; user_id = user; username = username; role = (unfield rest3).0 }

abbrev verify : ℕ → Bytes → Bytes → Option Claims
verify now secret [] = none
verify now secret (exp ∷ rest) =
    let (signer, rest1) = unfield rest in
    if bytes_eq signer secret && ltb now exp then some (read_claims rest1) else none

abbrev library : ℕ → Jwt
library now = record { is_hmac = λ token. true; verify = verify now }

verify-sign :
    (secret : Bytes) (c : Claims) (exp now : ℕ)
    → now < exp
    → verify now secret (
        exp
        ∷ field secret (field c.tenant_id (field c.user_id (field c.username (field c.role [])))))
      ≡ some c
verify-sign secret c exp now valid =
    let same : bytes_eq secret secret ≡ true = (bytes_eq_iff secret secret).1 refl in
    simp (take-append, drop-append, same) (ground (arith, valid))

abbrev signed_token : Option Bytes → Bytes
signed_token none = []
signed_token (some token) = token

Signs-sign : Signs sign library
Signs-sign = record {
  present = λ secret c exp token e. subst (λ x. bytes_eq x [] ≡ false) (ap signed_token e) refl;
  hmac = λ secret c exp token now e. refl;
  verifies = λ secret c exp token now e valid.
      subst (λ x. verify now secret x ≡ some c) (ap signed_token e)
        (verify-sign secret c exp now valid);
}

abbrev token : Bytes
token = signed_token (generate_token sign 100 (codes "9a") (codes "4f") default_flags)

generate_token-accepted_example :
    let c = token_claims (codes "9a") (codes "4f") default_flags in
    (authenticate (library 200) default_flags.secret (in_query token) ≡ passes c)
    × ((role : Bytes)
        → guarded (library 200) default_flags.secret role (in_query token) ≡ (
            if bytes_eq default_flags.role role
            then passes c
            else denied 403 "{\"error\":\"forbidden\"}"))
unfolding scripts_code
generate_token-accepted_example =
    generate_token-accepted sign library 100 200 (codes "9a") (codes "4f") default_flags token []
      Signs-sign refl (omega arith) (in_query token) (inr refl)

-- The default secrets of the server and of generate-token are the same.
same_secret : codes (load (λ text. none) (λ key. "")).jwt_secret ≡ default_flags.secret
unfolding load
same_secret = refl

abbrev ids : DemoIds
ids = record { tenant = 3; teacher = 4; student = 5; session = 6 }

abbrev uuid_string : ℕ → Bytes
uuid_string i = i ∷ []

abbrev parse_uuid : Bytes → Option ℕ
parse_uuid [] = none
parse_uuid (i ∷ s) = some i

abbrev as_stored : List Session → List Session
as_stored rows = rows

abbrev other : Session
other = demo_session (record { tenant = 1; teacher = 1; student = 1; session = 1 }) 20

abbrev seeded : Option Seeded
seeded = seed sign uuid_string true true (codes "key") 100 ids (other ∷ [])

seed-IsUsable_example :
    let teacher = demo_claims uuid_string 3 4 "Ms. Smith" "teacher" in
    let student = demo_claims uuid_string 3 5 "Alex" "student" in
    let row = demo_session ids 100 in
    (s : Seeded) × (seeded ≡ some s)
    × IsUsable parse_uuid as_stored
        (library 300)
        (codes "key")
        (bearer s.teacher_token [])
        teacher
        row
        s.table
    × IsUsable parse_uuid as_stored
        (library 300)
        (codes "key")
        (bearer s.student_token [])
        student
        row
        s.table
    × (guarded (library 300) (codes "key") (codes "teacher") (bearer s.teacher_token [])
        ≡ passes teacher)
    × (guarded (library 300) (codes "key") (codes "teacher") (bearer s.student_token [])
        ≡ denied 403 "{\"error\":\"forbidden\"}")
unfolding scripts_code
seed-IsUsable_example =
    seed-IsUsable sign library uuid_string parse_uuid as_stored (codes "key") 100 300 ids
      (other ∷ []) [] Signs-sign (λ i. refl) (λ s. refl) (omega arith)
      (λ c. (signed_token (sign (codes "key") c 86500), refl)) refl (refl, tt)
