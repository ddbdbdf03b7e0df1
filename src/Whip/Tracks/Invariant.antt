-- ===== src/Whip/Tracks/Invariant.antt =====
-- The track manager of internal/whip/track.go never panics.
use webrtc_hls_pipeline.Prelude.{
  ℕ, ◌+◌, ◌<◌, ◌≡◌, refl, true, false, ◌&&◌, Option, none, some, arith, store, delete,
  if◌then◌else◌, of_if, ◌∙◌, is_some, Option-cases, inl, inr,
}
use webrtc_hls_pipeline.Go.{returns}
use webrtc_hls_pipeline.Whip.Tracks.{
  Kind, video, audio, unknown, TrackReader, TrackPair, TrackManager, new_track_manager,
  new_track_pair, set_reader, signal_ready, add_track, close_reader, get_or_create_pair, remove,
  close_if_set,
}

-- `Close` ran on a reader exactly when its flag is set and its channel is closed.
pub record IsReader (r : TrackReader) : Type 0 where
  pub flag : r.closed ≡ r.once
  pub channel : r.done ≡ r.once

-- The ready channel is closed exactly when both readers are there.
pub record IsPair (p : TrackPair) : Type 0 where
  pub video_set : is_some p.video_reader ≡ p.has_video
  pub audio_set : is_some p.audio_reader ≡ p.has_audio
  pub ready_both : p.ready ≡ (p.has_video && p.has_audio)

pub record IsSound (m : TrackManager) : Type 0 where
  pub readers : (a : ℕ) → IsReader (m.readers a)
  pub pairs : (a : ℕ) → IsPair (m.pairs a)
  pub keys : (i a : ℕ) → m.tracks i ≡ some a → ((m.pairs a).session_id ≡ i) × (a < m.next_pair)

pub new_track_manager-IsSound : IsSound new_track_manager
unfolding new_track_manager
new_track_manager-IsSound = record {
  readers = λ a. record { flag = refl; channel = refl };
  pairs = λ a. record { video_set = refl; audio_set = refl; ready_both = refl };
  keys = λ i a e. cc;
}

-- The pair after `AddTrack`, with its ready channel closed if that completes it.
abbrev pub with_track : Kind → ℕ → TrackPair → TrackPair
unfolding set_reader
with_track k a p = let q = set_reader k a p in record q { ready = q.has_video && q.has_audio }

signal_ready_lem :
    (k : Kind) (a : ℕ) (p : TrackPair)
    → IsPair p
    → signal_ready (set_reader k a p) ≡ returns (with_track k a p)
unfolding signal_ready set_reader
signal_ready_lem video a p h = ground arith
signal_ready_lem audio a p h = ground arith
signal_ready_lem unknown a p h = ground arith

with_track-IsPair : (k : Kind) (a : ℕ) (p : TrackPair) → IsPair p → IsPair (with_track k a p)
unfolding set_reader
with_track-IsPair video a p h = ground arith
with_track-IsPair audio a p h = ground arith
with_track-IsPair unknown a p h = ground arith

with_track-session_id :
    (k : Kind) (a : ℕ) (p : TrackPair) → (with_track k a p).session_id ≡ p.session_id
unfolding set_reader
with_track-session_id video a p = refl
with_track-session_id audio a p = refl
with_track-session_id unknown a p = refl

abbrev pub after_add : ℕ → ℕ → Kind → TrackManager → TrackManager
after_add pair track k m = record m {
  readers =
      store m.next_reader (record { track = track; done = false; closed = false; once = false })
        m.readers;
  next_reader = m.next_reader + 1;
  pairs = store pair (with_track k m.next_reader (m.pairs pair)) m.pairs;
}

pub add_track_lem :
    (pair track : ℕ) (k : Kind) (m : TrackManager)
    → IsPair (m.pairs pair)
    → add_track pair track k m ≡ returns (after_add pair track k m)
unfolding add_track set_reader
add_track_lem pair track k m h = rw (signal_ready_lem k m.next_reader (m.pairs pair) h)

pub after_add-IsSound :
    (pair track : ℕ) (k : Kind) (m : TrackManager) → IsSound m → IsSound (after_add pair track k m)
unfolding set_reader
after_add-IsSound pair track k m h = record {
  readers = λ a. ground (arith, h.readers a);
  pairs = λ a.
      ground (arith, h.pairs a, with_track-IsPair k m.next_reader (m.pairs pair) (h.pairs pair));
  keys = λ i a e. ground (arith, h.keys i a, with_track-session_id k m.next_reader (m.pairs pair));
}

new_track_pair-IsPair : (i : ℕ) → IsPair (new_track_pair i)
unfolding new_track_pair
new_track_pair-IsPair i = record { video_set = refl; audio_set = refl; ready_both = refl }

pub get_or_create_pair-IsSound :
    (i : ℕ) (m : TrackManager) → IsSound m → IsSound (get_or_create_pair i m).1
unfolding get_or_create_pair
get_or_create_pair-IsSound i m h = elim (Option-cases (m.tracks i)) [
  | inr (pair, e) ↦ rw (e, get_or_create_pair) h
  | inl e ↦
      rw (e, get_or_create_pair)
        (record {
          readers = h.readers;
          pairs = λ a. ground (arith, h.pairs a, new_track_pair-IsPair i);
          keys = λ j a k. ground (arith, h.keys j a);
        })
]

-- What `Close` leaves: a reader that is closed already stays as it is.
abbrev pub after_close : ℕ → TrackManager → TrackManager
after_close a m = if (m.readers a).once then m else record m {
  readers = store a (record (m.readers a) { done = true; closed = true; once = true }) m.readers;
}

pub close_reader_lem :
    (a : ℕ) (m : TrackManager)
    → IsReader (m.readers a)
    → close_reader a m ≡ returns (after_close a m)
unfolding close_reader
close_reader_lem a m h = ground arith

pub after_close-IsSound : (a : ℕ) (m : TrackManager) → IsSound m → IsSound (after_close a m)
after_close-IsSound a m h = record {
  readers = λ b. ground (arith, h.readers b, h.readers a);
  pairs = λ b. ground (arith, h.pairs b);
  keys = λ i b e. ground (arith, h.keys i b);
}

abbrev after_close_if_set : Option ℕ → TrackManager → TrackManager
after_close_if_set none m = m
after_close_if_set (some a) m = after_close a m

close_if_set_lem :
    (o : Option ℕ) (m : TrackManager)
    → IsSound m
    → close_if_set o m ≡ returns (after_close_if_set o m)
close_if_set_lem none m h = refl
close_if_set_lem (some a) m h = close_reader_lem a m (h.readers a)

after_close_if_set-IsSound :
    (o : Option ℕ) (m : TrackManager) → IsSound m → IsSound (after_close_if_set o m)
after_close_if_set-IsSound none m h = h
after_close_if_set-IsSound (some a) m h = after_close-IsSound a m h

abbrev pub after_closes : ℕ → TrackManager → TrackManager
after_closes pair m =
    after_close_if_set (m.pairs pair).audio_reader
      (after_close_if_set (m.pairs pair).video_reader m)

pub after_closes-IsSound : (pair : ℕ) (m : TrackManager) → IsSound m → IsSound (after_closes pair m)
after_closes-IsSound pair m h =
    after_close_if_set-IsSound _ _ (after_close_if_set-IsSound (m.pairs pair).video_reader m h)

after_close-pairs : (a : ℕ) (m : TrackManager) → (after_close a m).pairs ≡ m.pairs
after_close-pairs a m =
    of_if (λ v. v.pairs ≡ m.pairs) (m.readers a).once m
      (record m {
        readers =
            store a (record (m.readers a) { done = true; closed = true; once = true }) m.readers;
      })
      (λ _. refl) (λ _. refl)

after_close_if_set-pairs :
    (o : Option ℕ) (m : TrackManager) → (after_close_if_set o m).pairs ≡ m.pairs
after_close_if_set-pairs none m = refl
after_close_if_set-pairs (some a) m = after_close-pairs a m

pub after_closes-pairs : (pair : ℕ) (m : TrackManager) → (after_closes pair m).pairs ≡ m.pairs
after_closes-pairs pair m =
    let v = after_close_if_set (m.pairs pair).video_reader m in
    after_close_if_set-pairs (m.pairs pair).audio_reader v
    ∙ after_close_if_set-pairs (m.pairs pair).video_reader m

pub remove_lem :
    (i : ℕ) (m : TrackManager)
    → IsSound m
    → remove i m
      ≡ returns (elim (m.tracks i) [
        | none ↦ m
        | some pair ↦ record (after_closes pair m) {
          tracks = delete i (after_closes pair m).tracks;
        }
      ])
unfolding remove
remove_lem i m h = elim (Option-cases (m.tracks i)) [
  | inl e ↦ rw (e, remove)
  | inr (pair, e) ↦
      let v = after_close_if_set-IsSound (m.pairs pair).video_reader m h in
      rw (
        e,
        remove,
        close_if_set_lem (m.pairs pair).video_reader m h,
        close_if_set_lem (m.pairs pair).audio_reader _ v,
      )
]
