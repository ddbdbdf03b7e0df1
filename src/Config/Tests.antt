-- ===== src/Config/Tests.antt =====
-- Configurations of internal/config/config.go.
use webrtc_hls_pipeline.Prelude.{◌≡◌, refl, String, Option, none, some, str_eq, if◌then◌else◌}
use webrtc_hls_pipeline.Prelude.Int.{ℤ, pos}
use webrtc_hls_pipeline.Config.{load}

config_code : Unit {0}
unfolding load
config_code = tt

abbrev atoi : String → Option ℤ
atoi s = if str_eq s "9000" then some (pos 9000) else none

abbrev with_port : String → String → String
with_port port key = if str_eq key "PORT" then port else ""

load-port : (load atoi (with_port "9000")).port ≡ pos 9000
unfolding config_code
load-port = refl

load-no_number : (load atoi (with_port "http")).port ≡ pos 8080
unfolding config_code
load-no_number = refl

load-unset : (load atoi (with_port "")).segment_dir ≡ "./segments"
unfolding config_code
load-unset = refl
