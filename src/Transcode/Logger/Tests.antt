-- ===== src/Transcode/Logger/Tests.antt =====
-- Runs of internal/transcode/logger.go.
use webrtc_hls_pipeline.Prelude.{◌≡◌, refl, some, List, [], ◌∷◌, ◌++◌, arith}
use webrtc_hls_pipeline.Text.{Bytes, codes}
use webrtc_hls_pipeline.Text.Space.{trim_space}
use webrtc_hls_pipeline.Transcode.Logger.{FfmpegLogger, write}
use webrtc_hls_pipeline.Transcode.Logger.Chunks.{
  complete, pending, log_lines, write_all, write_all-scan,
}
use mathlib.Core.List.{flatten}

logger_code : Unit {0}
unfolding write trim_space complete pending
logger_code = tt

abbrev quiet : FfmpegLogger
quiet = record { buf = []; logged = [] }

abbrev chunks : List Bytes
chunks = codes "fra" ∷ codes "me 1\n\n  bad" ∷ codes " packet \nx" ∷ []

one_write :
    write quiet (codes " a \n\nb") ≡ some (record { buf = codes "b"; logged = codes "a" ∷ [] }, 6)
unfolding logger_code
one_write = refl

write_all-scan_example :
    write_all chunks quiet
    ≡ some (record {
      buf = pending ([] ++ flatten chunks);
      logged = log_lines (complete ([] ++ flatten chunks)) [];
    })
unfolding logger_code
write_all-scan_example =
    write_all-scan chunks quiet refl (omega arith, (omega arith, (omega arith, tt)))
