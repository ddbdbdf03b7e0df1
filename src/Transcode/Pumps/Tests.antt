-- ===== src/Transcode/Pumps/Tests.antt =====
-- Runs of the pumps over a sample builder that ends a sample at each packet with a marker.
use webrtc_hls_pipeline.Prelude.{
  ℕ, suc, ◌<◌, ◌≡◌, refl, Bool, true, false, Option, none, some, List, [], ◌∷◌, ◌++◌, length, take,
  leb, if◌then◌else◌, arith,
}
use webrtc_hls_pipeline.Transcode.Pumps.{read_error, write_error, Pumped, pump_video, pump_tracks}
use webrtc_hls_pipeline.Transcode.Pumps.Streams.{Streams, pump_video-Streams}

pumps_code : Unit {0}
unfolding pump_video pump_tracks
pumps_code = tt

abbrev Packet : Type 0
Packet = ℕ × Bool

-- The packets of the sample that is not complete, and the samples that are.
record Builder : Type 0 where
  partial : List ℕ
  complete : List (List ℕ)

abbrev push : Packet → Builder → Builder
push (n, false) b = record b { partial = b.partial ++ n ∷ [] }
push (n, true) b = record { partial = []; complete = b.complete ++ (b.partial ++ n ∷ []) ∷ [] }

abbrev pop_first : List (List ℕ) → Builder → Option (List ℕ) × Builder
pop_first [] b = (none, b)
pop_first (s ∷ ss) b = (some s, record b { complete = ss })

abbrev pop : Builder → Option (List ℕ) × Builder
pop b = pop_first b.complete b

abbrev held : Builder → ℕ
held b = length b.complete

pop_first-shrinks :
    (ss : List (List ℕ)) (s : List ℕ) (p : List ℕ)
    → (pop_first ss (record { partial = p; complete = ss })).0 ≡ some s
    → held (pop_first ss (record { partial = p; complete = ss })).1 < length ss
pop_first-shrinks [] s p e = ground (arith, e)
pop_first-shrinks (x ∷ xs) s p e = ground arith

shrinks : (b : Builder) (s : List ℕ) → (pop b).0 ≡ some s → held (pop b).1 < held b
shrinks b s e = pop_first-shrinks b.complete s b.partial e

abbrev packets : List Packet
packets = (1, false) ∷ (2, true) ∷ (3, true) ∷ (4, false) ∷ []

abbrev no_packets : Builder
no_packets = record { partial = []; complete = [] }

abbrev pumped : ℕ → Pumped (List ℕ)
pumped room = pump_video push pop room (λ b. suc (held b)) packets no_packets 0 []

pumped-all :
    pumped 9 ≡ record { ending = read_error; packets = 4; written = (1 ∷ 2 ∷ []) ∷ (3 ∷ []) ∷ [] }
unfolding pumps_code
pumped-all = refl

pumped-broken : pumped 1 ≡ record { ending = write_error; packets = 3; written = (1 ∷ 2 ∷ []) ∷ [] }
unfolding pumps_code
pumped-broken = refl

pump_video-Streams_example :
    (ts : List (List ℕ)) × Streams push pop no_packets packets ts
    × ((pumped 1).written ≡ take 1 ts)
    × ((pumped 1).ending ≡ (if leb (length ts) 1 then read_error else write_error))
pump_video-Streams_example = pump_video-Streams push pop 1 held packets no_packets shrinks
