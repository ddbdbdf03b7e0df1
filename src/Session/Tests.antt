-- ===== src/Session/Tests.antt =====
-- Runs of internal/session on concrete tables.
use webrtc_hls_pipeline.Prelude.{◌≡◌, refl, true, false, none, some, List, [], ◌∷◌}
use webrtc_hls_pipeline.Session.{Session, create, get_by_id, update_status}
use webrtc_hls_pipeline.Session.Rules.{
  replay-IsConsistent, IsConsistent, replay, creates, updates, sets_mp4, Write,
}

repository : Unit {0}
unfolding create get_by_id update_status
repository = tt

abbrev lesson : Session
lesson = record {
  id = 7;
  tenant_id = 1;
  teacher_id = 2;
  title = "Go";
  status = "waiting";
  started_at = none;
  ended_at = none;
  hls_playlist_url = "";
  mp4_url = "";
  created_at = 10;
  updated_at = 11;
}

end_unknown : (update_status true 9 "ended" 20 (lesson ∷ [])).result ≡ some tt
unfolding repository
end_unknown = refl

end_paused : (update_status true 7 "paused" 20 (lesson ∷ [])).result ≡ none
unfolding repository
end_paused = refl

created_lesson : (create true 7 10 11 1 2 "Go" []).result ≡ some lesson
unfolding repository
created_lesson = refl

abbrev day : List Write
day =
    creates true 7 10 11 1 2 "Go"
    ∷ updates true 7 "live" 12
    ∷ updates false 7 "ended" 13
    ∷ updates true 7 "ended" 14
    ∷ sets_mp4 true 7 "/recordings/7/recording.mp4" 15
    ∷ []

replay-IsConsistent_example : IsConsistent (replay day [])
replay-IsConsistent_example = replay-IsConsistent day [] (record { rows = tt; unique = tt })
