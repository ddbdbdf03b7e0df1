-- ===== src/Whip/Tracks/Safety.antt =====
-- Histories of a track manager: no call panics.
use webrtc_hls_pipeline.Prelude.{
  ℕ, ◌≡◌, refl, none, some, List, [], ◌∷◌, arith, delete, Option-cases, inl, inr,
}
use webrtc_hls_pipeline.Go.{returns}
use webrtc_hls_pipeline.Whip.Tracks.{
  TrackManager, get_or_create_pair, handle_track, Call, arrives, removes, closes, exec, run,
}
use webrtc_hls_pipeline.Whip.Tracks.Invariant.{
  IsSound, after_add, add_track_lem, after_add-IsSound, get_or_create_pair-IsSound, after_close,
  close_reader_lem, after_close-IsSound, after_closes, after_closes-IsSound, remove_lem,
}

-- What a call leaves when it does not panic.
unfoldable pub after : Call → TrackManager → TrackManager
unfolding get_or_create_pair
after (arrives i track k) m = let (pair, m') = get_or_create_pair i m in after_add pair track k m'
after (removes i) m = elim (m.tracks i) [
  | none ↦ m
  | some pair ↦ record (after_closes pair m) { tracks = delete i (after_closes pair m).tracks }
]
after (closes a) m = after_close a m

pub exec_lem : (c : Call) (m : TrackManager) → IsSound m → exec c m ≡ returns (after c m)
unfolding exec handle_track after
exec_lem (arrives i track k) m h =
    let s = get_or_create_pair-IsSound i m h in
    add_track_lem (get_or_create_pair i m).0 track k (get_or_create_pair i m).1 (s.pairs _)
exec_lem (removes i) m h = remove_lem i m h
exec_lem (closes a) m h = close_reader_lem a m (h.readers a)

remove-IsSound : (i : ℕ) (m : TrackManager) → IsSound m → IsSound (after (removes i) m)
unfolding after
remove-IsSound i m h = elim (Option-cases (m.tracks i)) [
  | inl e ↦ rw (e, after) h
  | inr (pair, e) ↦
      let s = after_closes-IsSound pair m h in
      rw (e, after)
        (record {
          readers = s.readers;
          pairs = s.pairs;
          keys = λ j a k. ground (arith, s.keys j a);
        })
]

pub after-IsSound : (c : Call) (m : TrackManager) → IsSound m → IsSound (after c m)
unfolding after
after-IsSound (arrives i track k) m h =
    after_add-IsSound _ track k _ (get_or_create_pair-IsSound i m h)
after-IsSound (removes i) m h = remove-IsSound i m h
after-IsSound (closes a) m h = after_close-IsSound a m h

-- From a sound manager every history of arriving tracks, removals and closings, in any order and
-- repeated at will, returns without a panic, and leaves a sound manager.
pub run-IsSound :
    (cs : List Call) (m : TrackManager)
    → IsSound m
    → (m' : TrackManager) × (run cs m ≡ returns m') × IsSound m'
unfolding run
run-IsSound [] m h = (m, refl, h)
run-IsSound (c ∷ cs) m h =
    let (m', e, s) = run-IsSound cs (after c m) (after-IsSound c m h) in
    (m', rw (exec_lem c m h) e, s)
