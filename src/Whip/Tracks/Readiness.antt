-- ===== src/Whip/Tracks/Readiness.antt =====
-- When the ready channel of a session's tracks is closed, which is what `main` waits for before it
-- starts FFmpeg.
use webrtc_hls_pipeline.Prelude.{
  ℕ, ◌≡◌, refl, Bool, true, false, ◌&&◌, Option, none, some, List, [], ◌∷◌, arith, if◌then◌else◌,
  ◌==◌, Option-cases, inl, inr, ◌∙◌, ap,
}
use webrtc_hls_pipeline.Go.{returns}
use webrtc_hls_pipeline.Whip.Tracks.{
  Kind, video, audio, unknown, TrackPair, TrackManager, new_track_manager, new_track_pair,
  set_reader, get_or_create_pair, Call, arrives, removes, closes, run,
}
use webrtc_hls_pipeline.Whip.Tracks.Invariant.{
  IsSound, with_track, after_add, get_or_create_pair-IsSound, new_track_manager-IsSound,
}
use webrtc_hls_pipeline.Whip.Tracks.Safety.{after, exec_lem, after-IsSound}

-- The kinds of track that a session has received since it was last removed.
pub record Arrived : Type 0 where
  pub video_in : Bool
  pub audio_in : Bool

abbrev pub nothing : Arrived
nothing = record { video_in = false; audio_in = false }

abbrev pub note_kind : Kind → Arrived → Arrived
note_kind video v = record v { video_in = true }
note_kind audio v = record v { audio_in = true }
note_kind unknown v = v

abbrev pub or_nothing : Option Arrived → Arrived
or_nothing none = nothing
or_nothing (some v) = v

-- What one call means for session `i`; `none` is a session that the manager does not know.
unfoldable pub note : ℕ → Call → Option Arrived → Option Arrived
note i (arrives j track k) o = if j == i then some (note_kind k (or_nothing o)) else o
note i (removes j) o = if j == i then none else o
note i (closes a) o = o

unfoldable pub notes : ℕ → List Call → Option Arrived → Option Arrived
unfolding note
notes i [] o = o
notes i (c ∷ cs) o = notes i cs (note i c o)

abbrev pub arrived_of : TrackPair → Arrived
arrived_of p = record { video_in = p.has_video; audio_in = p.has_audio }

-- What the manager's fields say of session `i`.
unfoldable pub view : ℕ → TrackManager → Option Arrived
view i m = elim (m.tracks i) [ none ↦ none | some pair ↦ some (arrived_of (m.pairs pair)) ]

-- Whether `Ready()` of the session's pair is closed.
unfoldable pub is_ready : ℕ → TrackManager → Bool
is_ready i m = elim (m.tracks i) [ none ↦ false | some pair ↦ (m.pairs pair).ready ]

abbrev pub both : Option Arrived → Bool
both none = false
both (some v) = v.video_in && v.audio_in

pub is_ready-view : (i : ℕ) (m : TrackManager) → IsSound m → is_ready i m ≡ both (view i m)
unfolding is_ready view
is_ready-view i m h = elim (Option-cases (m.tracks i)) [
  | inl e ↦ rw (e, is_ready, view) refl
  | inr (pair, e) ↦ rw (e, is_ready, view) ((h.pairs pair).ready_both)
]

arrived_of-with_track :
    (k : Kind) (a : ℕ) (p : TrackPair) → arrived_of (with_track k a p) ≡ note_kind k (arrived_of p)
unfolding set_reader
arrived_of-with_track video a p = refl
arrived_of-with_track audio a p = refl
arrived_of-with_track unknown a p = refl

-- `AddTrack` on the pair of session `j` changes what is said of `j` alone.
view-after_add :
    (i j pair track : ℕ) (k : Kind) (m : TrackManager)
    → IsSound m
    → m.tracks j ≡ some pair
    → view i (after_add pair track k m)
      ≡ (if j == i then some (note_kind k (or_nothing (view i m))) else view i m)
unfolding view
view-after_add i j pair track k m h e = elim (Option-cases (m.tracks i)) [
  | inl f ↦ rw (f, view) (ground arith)
  | inr (q, f) ↦
      rw (f, view)
        (ground (
          arith,
          h.keys i q f,
          h.keys j pair e,
          arrived_of-with_track k m.next_reader (m.pairs pair),
        ))
]

view-get_or_create :
    (i j : ℕ) (m : TrackManager)
    → IsSound m
    → ((get_or_create_pair j m).1.tracks j ≡ some (get_or_create_pair j m).0)
      × (view i (get_or_create_pair j m).1
          ≡ (if j == i then some (or_nothing (view i m)) else view i m))
unfolding view get_or_create_pair new_track_pair
view-get_or_create i j m h = elim (Option-cases (m.tracks i)) [
  | inl e ↦ ground arith
  | inr (q, e) ↦ ground (arith, h.keys i q e)
]

pub view-after :
    (i : ℕ) (c : Call) (m : TrackManager) → IsSound m → view i (after c m) ≡ note i c (view i m)
unfolding note after
view-after i (arrives j track k) m h =
    let (e, v) = view-get_or_create i j m h in
    rw (view-after_add i j _ track k _ (get_or_create_pair-IsSound j m h) e, v) (ground arith)
view-after i (removes j) m h = unfold view in ground arith
view-after i (closes a) m h = unfold view in ground arith

view-new : (i : ℕ) → view i new_track_manager ≡ none
unfolding view new_track_manager
view-new i = refl

view-run :
    (i : ℕ) (cs : List Call) (m m' : TrackManager)
    → IsSound m
    → run cs m ≡ returns m'
    → IsSound m' × (view i m' ≡ notes i cs (view i m))
unfolding run notes
view-run i [] m m' h e = ground arith
view-run i (c ∷ cs) m m' h e =
    let e' = rw (exec_lem c m h) at e in
    let (s, v) = view-run i cs (after c m) m' (after-IsSound c m h) e' in
    (s, rw (← view-after i c m h) v)

-- After any history of a fresh manager, the ready channel of a session is closed exactly when the
-- session has received both a video and an audio track since it was last removed.
pub is_ready-run :
    (i : ℕ) (cs : List Call) (m : TrackManager)
    → run cs new_track_manager ≡ returns m
    → is_ready i m ≡ both (notes i cs none)
is_ready-run i cs m e =
    let (s, v) = view-run i cs new_track_manager m new_track_manager-IsSound e in
    is_ready-view i m s ∙ ap both (v ∙ ap (notes i cs) (view-new i))
