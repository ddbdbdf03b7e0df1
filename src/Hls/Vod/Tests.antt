-- ===== src/Hls/Vod/Tests.antt =====
-- Runs of internal/hls/vod.go.
use webrtc_hls_pipeline.Prelude.{◌≡◌, refl, true, none, some, List, [], ◌∷◌, get_elem?}
use webrtc_hls_pipeline.Text.{Bytes, codes, has_suffix, contains}
use webrtc_hls_pipeline.Hls.Vod.{Entry, ended_content, mark_entries, mark_as_vod}
use webrtc_hls_pipeline.Hls.Vod.Marking.{IsEnded, mark_entries-IsEnded}

vod_code : Unit {0}
unfolding mark_as_vod ended_content has_suffix contains
vod_code = tt

abbrev file : Bytes → Bytes → Entry
file name content = record { name = name; content = content; readable = true; write_fails = none }

abbrev playlist : Entry
playlist = file (codes "stream_0.m3u8") (codes "#EXTM3U\n\n")

abbrev directory : List Entry
directory =
    file (codes "master.m3u8") (codes "#EXTM3U\n")
    ∷ playlist
    ∷ file (codes "stream_0_001.ts") []
    ∷ []

marked_directory :
    mark_entries directory
    ≡ file (codes "master.m3u8") (codes "#EXTM3U\n")
      ∷ file (codes "stream_0.m3u8") (codes "#EXTM3U\n#EXT-X-ENDLIST\n")
      ∷ file (codes "stream_0_001.ts") []
      ∷ []
unfolding vod_code
marked_directory = refl

mark_entries-IsEnded_example :
    (e' : Entry) × (get_elem? (mark_entries directory) 1 ≡ some e') × IsEnded playlist e'
unfolding has_suffix
mark_entries-IsEnded_example = mark_entries-IsEnded directory 1 playlist refl refl refl refl
