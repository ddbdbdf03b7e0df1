-- ===== src/Transcode/Pumps.antt =====
-- The pumps of internal/transcode/ffmpeg.go, between a track's packets and FFmpeg's standard input.
-- pion's sample builder is the parameters `push` and `pop`; the reads return the packets of a list
-- and then an error, and FFmpeg takes `room` writes before its pipe breaks.
pub mod Streams
mod Tests
use webrtc_hls_pipeline.Prelude.{
  ℕ, zero, suc, ◌+◌, Bool, true, false, ◌&&◌, Option, none, some, List, [], ◌∷◌, ◌++◌, length, ltb,
  if◌then◌else◌,
}

-- How the video pump ends.
pub data Ending : Type 0 where
  read_error write_error out_of_fuel : Ending

pub record Pumped (S : Type 0) : Type 0 where
  pub ending : Ending
  pub packets : ℕ
  pub written : List S

-- The inner loop of `pumpVideo`: the builder has no further sample, or a write failed.
pub data Popped (B S : Type 0) : Type 0 where
  drained : B → List S → Popped B S
  broken : List S → Popped B S
  starved : List S → Popped B S

module _ {P B S : Type 0} (push : P → B → B) (pop : B → Option S × B) (room : ℕ) where
  unfoldable pub pop_samples : ℕ → B → List S → Popped B S
  pop_samples zero b written = starved written
  pop_samples (suc n) b written = elim (pop b).0 [
    | none ↦ drained (pop b).1 written
    | some sample ↦
        let rest = pop_samples n (pop b).1 (written ++ sample ∷ []) in
        if ltb (length written) room then rest else broken written
  ]

  -- `pumpVideo` on a fuel for its inner loop.
  unfoldable pub pump_video : (B → ℕ) → List P → B → ℕ → List S → Pumped S
  unfolding pop_samples
  pump_video fuel [] b packets written = record {
    ending = read_error;
    packets = packets;
    written = written;
  }
  pump_video fuel (pkt ∷ pkts) b packets written =
      elim (pop_samples (fuel (push pkt b)) (push pkt b) written) [
        | drained b' written' ↦ pump_video fuel pkts b' (packets + 1) written'
        | broken written' ↦ record {
          ending = write_error;
          packets = packets + 1;
          written = written';
        }
        | starved written' ↦ record {
          ending = out_of_fuel;
          packets = packets + 1;
          written = written';
        }
      ]

-- `drainTrack`: how many packets it reads.
unfoldable pub drain_track {ℓ} : {P : Type ℓ} → List P → ℕ
drain_track [] = 0
drain_track (pkt ∷ pkts) = drain_track pkts + 1

-- What the pumps of a pair did before `pumpTracks` closes the standard input; a track that is nil has
-- no pump.
pub record Piped (S : Type 0) : Type 0 where
  pub video : Option (Pumped S)
  pub audio_drained : Option ℕ
  pub stdin_closed : Bool

abbrev pub in_pump {ℓ κ} : {A : Type ℓ} {B : Type κ} → (A → B) → Option A → Option B
in_pump pump none = none
in_pump pump (some track) = some (pump track)

unfoldable pub pump_tracks :
    {P S : Type 0} → (List P → Pumped S) → Option (List P) → Option (List P) → Piped S
unfolding drain_track
pump_tracks pump video audio = record {
  video = in_pump pump video;
  audio_drained = in_pump drain_track audio;
  stdin_closed = true;
}
