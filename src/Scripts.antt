-- ===== src/Scripts.antt =====
-- scripts/generate-token/main.go and scripts/seed/main.go. Signing with HS256 is the argument `sign`,
-- of the secret, the claims and the time of expiry; the ids and the time that a script draws are
-- arguments, and so is the text of a UUID.
pub mod Tokens
pub mod Demo
mod Tests
use webrtc_hls_pipeline.Prelude.{
  ℕ, ◌+◌, String, Bool, true, false, Option, none, some, List, [], ◌∷◌, ◌++◌, any, if◌then◌else◌,
}
use webrtc_hls_pipeline.Text.{Bytes, codes, bytes_eq}
use webrtc_hls_pipeline.Auth.{Claims}
use webrtc_hls_pipeline.Session.{Session, has_id}

-- The command line of generate-token; `ttl` in seconds.
pub record Flags : Type 0 where
  pub secret : Bytes
  pub role : Bytes
  pub username : Bytes
  pub tenant : Bytes
  pub user : Bytes
  pub ttl : ℕ

abbrev pub dev_secret : String
dev_secret = "dev-secret-change-in-production"

abbrev pub default_flags : Flags
default_flags = record {
  secret = codes dev_secret;
  role = codes "teacher";
  username = [];
  tenant = [];
  user = [];
  ttl = 86400;
}

abbrev pub or_else : Bytes → Bytes → Bytes
or_else text fallback = if bytes_eq text [] then fallback else text

unfoldable pub token_claims : Bytes → Bytes → Flags → Claims
token_claims new_tenant new_user flags = record {
  tenant_id = or_else flags.tenant new_tenant;
  user_id = or_else flags.user new_user;
  username = or_else flags.username (flags.role ++ codes "-user");
  role = flags.role;
}

-- What generate-token prints; `none` is its exit with an error.
unfoldable pub generate_token :
    (Bytes → Claims → ℕ → Option Bytes) → ℕ → Bytes → Bytes → Flags → Option Bytes
unfolding token_claims
generate_token sign now new_tenant new_user flags =
    sign flags.secret (token_claims new_tenant new_user flags) (now + flags.ttl)

abbrev pub or_empty : Option Bytes → Bytes
or_empty none = []
or_empty (some s) = s

-- `mintToken`, which drops the error of the signature; the claims are those of `demo_claims`.
unfoldable pub mint_token : (Bytes → Claims → ℕ → Option Bytes) → Bytes → ℕ → Claims → Bytes
mint_token sign secret now claims = or_empty (sign secret claims (now + 86400))

-- The ids that seed draws.
pub record DemoIds : Type 0 where
  pub tenant : ℕ
  pub teacher : ℕ
  pub student : ℕ
  pub session : ℕ

unfoldable pub demo_session : DemoIds → ℕ → Session
demo_session ids now = record {
  id = ids.session;
  tenant_id = ids.tenant;
  teacher_id = ids.teacher;
  title = "Demo: Introduction to Go";
  status = "waiting";
  started_at = none;
  ended_at = none;
  hls_playlist_url = "";
  mp4_url = "";
  created_at = now;
  updated_at = now;
}

-- INSERT … ON CONFLICT DO NOTHING
abbrev pub insert_ignoring : Session → List Session → List Session
insert_ignoring s t = if any (has_id s.id) t then t else s ∷ t

abbrev pub demo_claims : (ℕ → Bytes) → ℕ → ℕ → String → String → Claims
demo_claims uuid_string tenant user username role = record {
  tenant_id = uuid_string tenant;
  user_id = uuid_string user;
  username = codes username;
  role = codes role;
}

-- What seed leaves and prints.
pub record Seeded : Type 0 where
  pub table : List Session
  pub teacher_token : Bytes
  pub student_token : Bytes

-- seed for a pool that was made or not (`connects`) and a database that answers or not (`up`); `none`
-- is its exit with an error, which leaves the table as it was.
unfoldable pub seed :
    (Bytes → Claims → ℕ → Option Bytes)
    → (ℕ → Bytes)
    → Bool
    → Bool
    → Bytes
    → ℕ
    → DemoIds
    → List Session
    → Option Seeded
unfolding mint_token demo_session
seed sign uuid_string connects up secret now ids t =
    if connects
    then if up
      then some (record {
        table = insert_ignoring (demo_session ids now) t;
        teacher_token =
            mint_token sign secret now
              (demo_claims uuid_string ids.tenant ids.teacher "Ms. Smith" "teacher");
        student_token =
            mint_token sign secret now
              (demo_claims uuid_string ids.tenant ids.student "Alex" "student");
      })
      else none
    else none
