-- ===== src/Server/Wiring/Tests.antt =====
-- A session from its tracks to its end.
use webrtc_hls_pipeline.Prelude.{◌≡◌, refl, inl, true, false, none, some, [], ◌∷◌}
use webrtc_hls_pipeline.Go.{Go, returns, panics, ◌>>=◌}
use webrtc_hls_pipeline.Whip.Handler.{Handler, closed, new_handler, add_stream, register}
use webrtc_hls_pipeline.Whip.Tracks.Safety.{after, after-IsSound}
use webrtc_hls_pipeline.Whip.Tracks.{
  video, audio, new_track_manager, arrives, handle_track, get_track_pair, remove,
}
use webrtc_hls_pipeline.Whip.Tracks.Invariant.{IsSound, new_track_manager-IsSound}
use webrtc_hls_pipeline.Transcode.Manager.{launched, new_manager, start, stop, is_running}
use webrtc_hls_pipeline.Server.Wiring.{Server, on_track, resume, on_disconnect, peer_changes}
use webrtc_hls_pipeline.Server.Wiring.Disconnecting.{IsOver, peer_changes-IsOver}
use webrtc_hls_pipeline.Server.Wiring.Late.{track_arrives, resumes, quiet_run, late_start_stays}

server_code : Unit {0}
unfolding on_track resume on_disconnect peer_changes new_handler add_stream register
    new_track_manager new_manager handle_track get_track_pair remove start stop is_running quiet_run
server_code = tt

abbrev lesson_handler : Handler
unfolding server_code
lesson_handler = register 7 0 (
    add_stream 7
      (record {
        id = 7;
        tenant_id = 1;
        teacher_id = 2;
        title = "Go";
        status = "waiting";
        started_at = none;
        ended_at = none;
        hls_playlist_url = "";
        mp4_url = "";
        created_at = 10;
        updated_at = 10;
      })
      (new_handler []))

abbrev idle : Server
unfolding server_code
idle = record {
  whip = lesson_handler;
  tracks = new_track_manager;
  transcode = new_manager;
  worker = record {
    jobs = [];
    recordings = [];
    sessions = [];
    published = [];
    segment_dir = λ i. none;
  };
  waiting = [];
}

abbrev or_idle : Go Server → Server
or_idle (returns s) = s
or_idle panics = idle

-- Both tracks of session 7 have arrived.
abbrev tracked : Server
unfolding server_code
tracked = or_idle (on_track 7 100 audio idle >>= on_track 7 101 video)

abbrev streaming : Server
unfolding server_code
streaming = resume launched 0 tracked

tracked-IsSound : IsSound tracked.tracks
unfolding server_code after
tracked-IsSound =
    after-IsSound (arrives 7 101 video) (after (arrives 7 100 audio) new_track_manager)
      (after-IsSound (arrives 7 100 audio) new_track_manager new_track_manager-IsSound)

peer_changes-IsOver_example :
    (s : Server) × (peer_changes true false 40 true 0 closed streaming ≡ returns s)
    × IsOver 7 0 1 (record { session_id = 7; tenant_id = 1 }) streaming s
unfolding server_code
peer_changes-IsOver_example =
    peer_changes-IsOver true false 40 true 0 0 0 1 closed streaming refl refl refl refl (inl refl)
      tracked-IsSound

-- Both goroutines of session 7 still wait when its stream is over; then a new video track arrives.
late_start_stays_example :
    (s₁ s₂ : Server) × (on_disconnect true 7 1 tracked ≡ returns s₁)
    × ((s₁.tracks.readers 1).closed ≡ true)
    × (quiet_run (track_arrives 7 102 video ∷ resumes launched 1 ∷ []) (resume launched 0 s₁)
        ≡ returns s₂)
    × (s₂.transcode.pipelines 7 ≡ some (some 0))
unfolding server_code
late_start_stays_example =
    late_start_stays true 7 1 0 1 [] ((7, 0) ∷ [])
      (track_arrives 7 102 video ∷ resumes launched 1 ∷ []) tracked tracked-IsSound refl refl
      (inl refl) refl refl
