-- ===== src/Session/Table.antt =====
-- Lookups after each write of internal/session/repository.go.
use webrtc_hls_pipeline.Prelude.{
  ℕ, ◌≡◌, refl, ◌≢◌, String, Bool, true, false, ◌&&◌, Option, if◌then◌else◌, ◌==◌, none, some, List,
  [], ◌∷◌, any, arith, is_some,
}
use webrtc_hls_pipeline.Session.{Session, find, update_where, has_id, get_by_id, set_mp4_url}

-- A row that an update finds keeps its key.
abbrev pub KeepsId : (Session → Session) → Type 0
KeepsId f = (s : Session) → (f s).id ≡ s.id

pub find-update_where_self :
    (i : ℕ) (f : Session → Session) (t : List Session)
    → KeepsId f
    → find i (update_where i f t) ≡ elim (find i t) [ none ↦ none | some s ↦ some (f s) ]
unfolding find update_where
find-update_where_self i f [] k = refl
find-update_where_self i f (s ∷ t) k = ground (arith, find-update_where_self i f t k, k s)

pub find-update_where_ne :
    (i j : ℕ) (f : Session → Session) (t : List Session)
    → KeepsId f
    → i ≢ j
    → find j (update_where i f t) ≡ find j t
unfolding find update_where
find-update_where_ne i j f [] k h = refl
find-update_where_ne i j f (s ∷ t) k h = ground (arith, find-update_where_ne i j f t k h, k s)

pub any-has_id : (i : ℕ) (t : List Session) → any (has_id i) t ≡ is_some (find i t)
unfolding find
any-has_id i [] = refl
any-has_id i (s ∷ t) = ground (arith, any-has_id i t)

pub any-has_id-update_where :
    (i j : ℕ) (f : Session → Session) (t : List Session)
    → KeepsId f
    → any (has_id j) (update_where i f t) ≡ any (has_id j) t
unfolding update_where
any-has_id-update_where i j f [] k = refl
any-has_id-update_where i j f (s ∷ t) k = ground (arith, any-has_id-update_where i j f t k, k s)

pub update_where_missing :
    (i : ℕ) (f : Session → Session) (t : List Session)
    → any (has_id i) t ≡ false
    → update_where i f t ≡ t
unfolding update_where
update_where_missing i f [] h = refl
update_where_missing i f (s ∷ t) h = ground (arith, update_where_missing i f t)

-- A row with the URL of its recording.
abbrev pub with_mp4_url : String → ℕ → Option Session → Option Session
with_mp4_url url now none = none
with_mp4_url url now (some s) = some (record s { mp4_url = url; updated_at = now })

pub get_by_id-set_mp4_url :
    (up : Bool) (i j : ℕ) (url : String) (now : ℕ) (t : List Session)
    → get_by_id true j (set_mp4_url up i url now t).table
      ≡ (if up && (i == j) then with_mp4_url url now (get_by_id true j t) else get_by_id true j t)
unfolding get_by_id set_mp4_url
get_by_id-set_mp4_url up i j url now t =
    let f : Session → Session = λ s. record s { mp4_url = url; updated_at = now } in
    ground
      (arith, find-update_where_self i f t (λ s. refl), find-update_where_ne i j f t (λ s. refl))
