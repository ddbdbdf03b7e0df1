-- ===== src/Session.antt =====
-- internal/session: the status constants and the repository over the `sessions` table. A table is
-- the list of its rows. Whether a query reaches PostgreSQL is the argument `up` of each method;
-- `time.Now` and `uuid.New` are arguments too.
pub mod Table
pub mod Rules
pub mod Handlers
mod Tests
use webrtc_hls_pipeline.Prelude.{
  ℕ, String, Bool, true, ◌||◌, ◌&&◌, Option, none, some, List, [], ◌∷◌, map, any, take, keep_if,
  if◌then◌else◌, ◌==◌, str_eq, not,
}

-- status.go
abbrev pub status_waiting : String
status_waiting = "waiting"

abbrev pub status_live : String
status_live = "live"

abbrev pub status_ended : String
status_ended = "ended"

pub record Session : Type 0 where
  pub id : ℕ
  pub tenant_id : ℕ
  pub teacher_id : ℕ
  pub title : String
  pub status : String
  pub started_at : Option ℕ
  pub ended_at : Option ℕ
  pub hls_playlist_url : String
  pub mp4_url : String
  pub created_at : ℕ
  pub updated_at : ℕ

-- What a method leaves in the table, and what it returns; `none` is its error.
pub record Reply (A : Type 0) : Type 0 where
  pub table : List Session
  pub result : Option A

abbrev pub failed : {A : Type 0} → List Session → Reply A
failed t = record { table = t; result = none }

abbrev pub done : {A : Type 0} → List Session → A → Reply A
done t a = record { table = t; result = some a }

-- the CHECK constraint of migrations/001_create_sessions.up.sql
abbrev pub is_status : String → Bool
is_status s = str_eq s "waiting" || str_eq s "live" || str_eq s "ended"

abbrev pub has_id : ℕ → Session → Bool
has_id i s = s.id == i

unfoldable pub create : Bool → ℕ → ℕ → ℕ → ℕ → ℕ → String → List Session → Reply Session
create up new_id created updated tenant_id teacher_id title t =
    let s : Session = record {
      id = new_id;
      tenant_id = tenant_id;
      teacher_id = teacher_id;
      title = title;
      status = "waiting";
      started_at = none;
      ended_at = none;
      hls_playlist_url = "";
      mp4_url = "";
      created_at = created;
      updated_at = updated;
    } in
    if up && not (any (has_id new_id) t) then done (s ∷ t) s else failed t

-- SELECT … WHERE id = $1, of which `QueryRow` takes the first row.
unfoldable pub find : ℕ → List Session → Option Session
find i [] = none
find i (s ∷ t) = if s.id == i then some s else find i t

unfoldable pub get_by_id : Bool → ℕ → List Session → Option Session
unfolding find
get_by_id up i t = if up then find i t else none

-- The column assignments of the three UPDATE statements.
unfoldable pub assign_status : String → ℕ → Session → Session
assign_status status now s =
    if str_eq status "live"
    then record s { status = status; started_at = some now; updated_at = now }
    else if str_eq status "ended"
    then record s { status = status; ended_at = some now; updated_at = now }
    else record s { status = status; updated_at = now }

-- UPDATE … WHERE id = $1
unfoldable pub update_where : ℕ → (Session → Session) → List Session → List Session
update_where i f [] = []
update_where i f (s ∷ t) = (if s.id == i then f s else s) ∷ update_where i f t

unfoldable pub update_status : Bool → ℕ → String → ℕ → List Session → Reply (Unit {0})
unfolding assign_status update_where
update_status up i status now t =
    if up && (is_status status || not (any (has_id i) t))
    then done (update_where i (assign_status status now) t) tt
    else failed t

unfoldable pub set_hls_playlist_url : Bool → ℕ → String → ℕ → List Session → Reply (Unit {0})
unfolding update_where
set_hls_playlist_url up i url now t =
    if up
    then done (update_where i (λ s. record s { hls_playlist_url = url; updated_at = now }) t) tt
    else failed t

unfoldable pub set_mp4_url : Bool → ℕ → String → ℕ → List Session → Reply (Unit {0})
unfolding update_where
set_mp4_url up i url now t =
    if up
    then done (update_where i (λ s. record s { mp4_url = url; updated_at = now }) t) tt
    else failed t

-- ORDER BY created_at DESC is the database's: `newest_first` orders the rows that matched.
unfoldable pub list_sessions :
    (List Session → List Session) → Bool → ℕ → List Session → Option (List Session)
list_sessions newest_first up tenant_id t =
    if up then some (take 50 (newest_first (keep_if (λ s. s.tenant_id == tenant_id) t))) else none
