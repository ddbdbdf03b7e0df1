-- ===== src/Transcode/Logger.antt =====
-- internal/transcode/logger.go: FFmpeg's stderr is cut into lines, which are logged.
pub mod Chunks
mod Tests
use webrtc_hls_pipeline.Prelude.{
  ℕ, zero, suc, ◌+◌, ◌-◌, ◌*◌, Bool, Option, none, some, List, [], ◌∷◌, ◌++◌, length, drop, ltb,
  if◌then◌else◌, ◌==◌,
}
use webrtc_hls_pipeline.Text.{Bytes}
use webrtc_hls_pipeline.Text.Space.{trim_space}

-- What is unread in `buf`, and the lines that were logged, oldest first.
pub record FfmpegLogger : Type 0 where
  pub buf : Bytes
  pub logged : List Bytes

abbrev pub max_log_buf : ℕ
max_log_buf = 64 * 1024

-- `buf.ReadBytes('\n')`: the first line with its break, and the rest; `none` is `io.EOF`, where the
-- line is all that is unread.
unfoldable pub read_bytes : Bytes → Option (Bytes × Bytes)
read_bytes [] = none
read_bytes (c ∷ s) =
    if c == b'\n'
    then some (c ∷ [], s)
    else elim (read_bytes s) [ none ↦ none | some (line, rest) ↦ some (c ∷ line, rest) ]

-- What is kept of a line that has not ended.
unfoldable pub clip : Bytes → Bytes
clip line = if ltb max_log_buf (length line) then drop (length line - max_log_buf) line else line

-- The line that is logged, if it is not blank.
unfoldable pub log_line : Bytes → List Bytes → List Bytes
log_line line logged = elim (trim_space line) [ [] ↦ logged | c ∷ s ↦ logged ++ (c ∷ s) ∷ [] ]

-- The loop of `Write` on fuel; `none` means that the fuel ran out.
unfoldable pub drain : ℕ → Bytes → List Bytes → Option FfmpegLogger
unfolding read_bytes clip log_line
drain zero buf logged = none
drain (suc n) buf logged = elim (read_bytes buf) [
  | none ↦ some (record { buf = clip buf; logged = logged })
  | some (line, rest) ↦ drain n rest (log_line line logged)
]

-- `Write`, with the number that it returns.
unfoldable pub write : FfmpegLogger → Bytes → Option (FfmpegLogger × ℕ)
unfolding drain
write l p = elim (drain (suc (length (l.buf ++ p))) (l.buf ++ p) l.logged) [
  | none ↦ none
  | some l' ↦ some (l', length p)
]
