-- ===== src/Session/Rules.antt =====
-- What the repository of internal/session promises about its table.
use webrtc_hls_pipeline.Prelude.{
  ℕ, ◌≡◌, refl, String, Bool, true, false, none, some, List, [], ◌∷◌, any, arith, All,
  if◌then◌else◌, ◌==◌, eq_iff, is_some, Bool-cases, inl, inr, not, ◌||◌, str_eq,
}
use webrtc_hls_pipeline.Session.{
  Session, assign_status, update_where, has_id, is_status, create, get_by_id, update_status,
  set_hls_playlist_url, set_mp4_url,
}
use webrtc_hls_pipeline.Session.Table.{
  KeepsId, find-update_where_self, find-update_where_ne, any-has_id, any-has_id-update_where,
  update_where_missing,
}

pub KeepsId-assign_status : (status : String) (now : ℕ) → KeepsId (assign_status status now)
unfolding assign_status
KeepsId-assign_status status now s = ground arith

-- A session that `Create` returned is waiting and its id was not in use; `GetByID` then finds it
-- under its id, and every other id as before.
pub get_by_id-create :
    (up : Bool) (i j created updated tenant teacher : ℕ) (title : String) (t : List Session)
    (s : Session)
    → (create up i created updated tenant teacher title t).result ≡ some s
    → (s.status ≡ "waiting")
      × (get_by_id true i t ≡ none)
      × (get_by_id true j (create up i created updated tenant teacher title t).table
          ≡ (if i == j then some s else get_by_id true j t))
unfolding create get_by_id
get_by_id-create up i j created updated tenant teacher title t s h =
    (ground arith, ground (arith, any-has_id i t), ground arith)

-- `UpdateStatus` rewrites the row of its id when it succeeds and leaves every other row alone; when
-- it fails the table is as before.
pub get_by_id-update_status :
    (up : Bool) (i j : ℕ) (status : String) (now : ℕ) (t : List Session)
    → get_by_id true j (update_status up i status now t).table ≡ (
        if i == j
        then (if is_some (update_status up i status now t).result
            then elim (get_by_id true j t) [
              | none ↦ none
              | some s ↦ some (assign_status status now s)
            ]
            else get_by_id true j t)
        else get_by_id true j t)
unfolding update_status get_by_id
get_by_id-update_status up i j status now t = ground (
  arith,
  find-update_where_self i (assign_status status now) t (KeepsId-assign_status status now),
  find-update_where_ne i j (assign_status status now) t (KeepsId-assign_status status now),
)

pub update_status-succeeds :
    (i : ℕ) (status : String) (now : ℕ) (t : List Session)
    → is_status status ≡ true
    → (update_status true i status now t).result ≡ some tt
unfolding update_status
update_status-succeeds i status now t h = ground (arith, h)

-- The row that `GetByID` finds after a status was stored.
pub stored_row :
    (i j : ℕ) (status : String) (now : ℕ) (t : List Session)
    → is_status status ≡ true
    → get_by_id true j (update_status true i status now t).table ≡ (
        if i == j
        then elim (get_by_id true i t) [ none ↦ none | some s ↦ some (assign_status status now s) ]
        else get_by_id true j t)
stored_row i j status now t h =
    ground (
      arith,
      get_by_id-update_status true i j status now t,
      update_status-succeeds i status now t h,
    )

pub stored_row_self :
    (i : ℕ) (status : String) (now : ℕ) (t : List Session)
    → is_status status ≡ true
    → get_by_id true i (update_status true i status now t).table
      ≡ elim (get_by_id true i t) [ none ↦ none | some s ↦ some (assign_status status now s) ]
stored_row_self i status now t h = ground (arith, stored_row i i status now t h)

-- The facts about one row that its status carries.
pub record IsRow (s : Session) : Type 0 where
  pub known : is_status s.status ≡ true
  pub live_started : (not (str_eq s.status "live") || is_some s.started_at) ≡ true
  pub ended_at_set : (not (str_eq s.status "ended") || is_some s.ended_at) ≡ true

abbrev pub UniqueIds : List Session → Type 0
UniqueIds [] = Unit {0}
UniqueIds (s ∷ t) = (any (has_id s.id) t ≡ false) × UniqueIds t

-- Every row is as its status says, and no id occurs twice.
pub record IsConsistent (t : List Session) : Type 0 where
  pub rows : All IsRow t
  pub unique : UniqueIds t

-- One write of the repository.
pub data Write : Type 0 where
  creates : Bool → ℕ → ℕ → ℕ → ℕ → ℕ → String → Write
  updates : Bool → ℕ → String → ℕ → Write
  sets_hls sets_mp4 : Bool → ℕ → String → ℕ → Write

pub apply : Write → List Session → List Session
apply (creates up i c u tenant teacher title) t = (create up i c u tenant teacher title t).table
apply (updates up i status now) t = (update_status up i status now t).table
apply (sets_hls up i url now) t = (set_hls_playlist_url up i url now t).table
apply (sets_mp4 up i url now) t = (set_mp4_url up i url now t).table

pub replay : List Write → List Session → List Session
replay [] t = t
replay (w ∷ ws) t = replay ws (apply w t)

UniqueIds-update_where :
    (i : ℕ) (f : Session → Session) (t : List Session)
    → KeepsId f
    → UniqueIds t
    → UniqueIds (update_where i f t)
unfolding update_where
UniqueIds-update_where i f [] k h = tt
UniqueIds-update_where i f (s ∷ t) k h =
    ground (arith, any-has_id-update_where i s.id f t k, UniqueIds-update_where i f t k h.1, k s)

IsRow-update_where :
    (i : ℕ) (f : Session → Session) (t : List Session)
    → ((s : Session) → IsRow s → IsRow (f s))
    → All IsRow t
    → All IsRow (update_where i f t)
unfolding update_where
IsRow-update_where i f [] k h = tt
IsRow-update_where i f (s ∷ t) k h = ground (arith, k s h.0, IsRow-update_where i f t k h.1)

assign_status-IsRow :
    (status : String) (now : ℕ) (s : Session)
    → is_status status ≡ true
    → IsRow s
    → IsRow (assign_status status now s)
unfolding assign_status
assign_status-IsRow status now s k h = record {
  known = ground arith;
  live_started = ground (arith, eq_iff status "live");
  ended_at_set = ground (arith, eq_iff status "ended", eq_iff status "live", eq_iff "live" "ended");
}

update_where-IsConsistent :
    (i : ℕ) (f : Session → Session) (t : List Session)
    → KeepsId f
    → ((s : Session) → IsRow s → IsRow (f s))
    → IsConsistent t
    → IsConsistent (update_where i f t)
update_where-IsConsistent i f t k r h = record {
  rows = IsRow-update_where i f t r h.rows;
  unique = UniqueIds-update_where i f t k h.unique;
}

create-IsConsistent :
    (up : Bool) (i c u tenant teacher : ℕ) (title : String) (t : List Session)
    → IsConsistent t
    → IsConsistent (create up i c u tenant teacher title t).table
unfolding create
create-IsConsistent up i c u tenant teacher title t h = record {
  rows = ground (arith, waiting-IsRow i c u tenant teacher title);
  unique = ground arith;
}
  where
    waiting-IsRow :
        (i c u tenant teacher : ℕ) (title : String)
        → IsRow (record {
          id = i;
          tenant_id = tenant;
          teacher_id = teacher;
          title = title;
          status = "waiting";
          started_at = none;
          ended_at = none;
          hls_playlist_url = "";
          mp4_url = "";
          created_at = c;
          updated_at = u;
        })
    waiting-IsRow i c u tenant teacher title = record {
      known = refl;
      live_started = refl;
      ended_at_set = refl;
    }

update_status-IsConsistent :
    (up : Bool) (i : ℕ) (status : String) (now : ℕ) (t : List Session)
    → IsConsistent t
    → IsConsistent (update_status up i status now t).table
unfolding update_status
update_status-IsConsistent up i status now t h = elim (Bool-cases (is_status status)) [
  | inl known ↦ ground (
    arith,
    update_where-IsConsistent i (assign_status status now) t (KeepsId-assign_status status now)
        (λ s r. assign_status-IsRow status now s known r) h,
  )
  | inr unknown ↦ ground (arith, update_where_missing i (assign_status status now) t)
]

apply-IsConsistent : (w : Write) (t : List Session) → IsConsistent t → IsConsistent (apply w t)
unfolding apply set_hls_playlist_url set_mp4_url
apply-IsConsistent (creates up i c u tenant teacher title) t h =
    create-IsConsistent up i c u tenant teacher title t h
apply-IsConsistent (updates up i status now) t h = update_status-IsConsistent up i status now t h
apply-IsConsistent (sets_hls up i url now) t h = ground (
  arith,
  update_where-IsConsistent i
      (λ (s : Session). record s { hls_playlist_url = url; updated_at = now }) t (λ s. refl)
      (λ s r. record {
        known = r.known;
        live_started = r.live_started;
        ended_at_set = r.ended_at_set;
      })
      h,
)
apply-IsConsistent (sets_mp4 up i url now) t h = ground (
  arith,
  update_where-IsConsistent i (λ (s : Session). record s { mp4_url = url; updated_at = now }) t
      (λ s. refl)
      (λ s r. record {
        known = r.known;
        live_started = r.live_started;
        ended_at_set = r.ended_at_set;
      })
      h,
)

-- Whatever the writes, and whichever of them fail, every row keeps a known status, a live session
-- has a start time, an ended one has an end time, and ids are unique.
pub replay-IsConsistent :
    (ws : List Write) (t : List Session) → IsConsistent t → IsConsistent (replay ws t)
unfolding replay
replay-IsConsistent [] t h = h
replay-IsConsistent (w ∷ ws) t h = replay-IsConsistent ws (apply w t) (apply-IsConsistent w t h)
