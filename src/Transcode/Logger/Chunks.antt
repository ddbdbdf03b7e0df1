-- ===== src/Transcode/Logger/Chunks.antt =====
-- What internal/transcode/logger.go logs does not depend on how FFmpeg's output is cut up.
use mathlib.Core.List.{append-nil, append_assoc, flatten}
use webrtc_hls_pipeline.Prelude.{
  ℕ, zero, suc, ◌-◌, ◌≤◌, ◌<◌, ◌≡◌, refl, ap, false, Option, none, some, List, [], ◌∷◌, ◌++◌, arith,
  length, length-drop, ltb, if◌then◌else◌, ◌==◌, Option-cases, Bool-cases, inl, inr, of_if, tests,
}
use webrtc_hls_pipeline.Text.{Bytes}
use webrtc_hls_pipeline.Transcode.Logger.{
  FfmpegLogger, max_log_buf, read_bytes, clip, log_line, drain, write,
}

-- A text as its complete lines, each with its break, and what is left.
abbrev glue : ℕ → List Bytes × Bytes → List Bytes × Bytes
glue c ([], rest) = ([], c ∷ rest)
glue c (line ∷ lines, rest) = ((c ∷ line) ∷ lines, rest)

pub scan : Bytes → List Bytes × Bytes
scan [] = ([], [])
scan (c ∷ s) = let r = scan s in if c == b'\n' then ((c ∷ []) ∷ r.0, r.1) else glue c r

unfoldable pub complete : Bytes → List Bytes
unfolding scan
complete s = (scan s).0

unfoldable pub pending : Bytes → Bytes
unfolding scan
pending s = (scan s).1

-- Lines are logged in order, the blank ones left out.
pub log_lines : List Bytes → List Bytes → List Bytes
log_lines [] logged = logged
log_lines (line ∷ lines) logged = log_lines lines (log_line line logged)

glue-append :
    (c : ℕ) (r : List Bytes × Bytes) (p : Bytes)
    → (c == b'\n') ≡ false
    → glue c (r.0 ++ (scan (r.1 ++ p)).0, (scan (r.1 ++ p)).1)
      ≡ ((glue c r).0 ++ (scan ((glue c r).1 ++ p)).0, (scan ((glue c r).1 ++ p)).1)
unfolding scan
glue-append c ([], rest) p h = rw h
glue-append c (line ∷ lines, rest) p h = refl

-- Cutting a text in two: the second part begins with what the first left.
scan-append :
    (b p : Bytes)
    → scan (b ++ p) ≡ ((scan b).0 ++ (scan ((scan b).1 ++ p)).0, (scan ((scan b).1 ++ p)).1)
unfolding scan
scan-append [] p = refl
scan-append (c ∷ s) p = elim (Bool-cases (c == b'\n')) [
  | inl e ↦ rw (e, scan-append s p)
  | inr e ↦ rw (e, scan-append s p) (glue-append c (scan s) p e)
]

pending-append : (b p : Bytes) → pending (b ++ p) ≡ pending (pending b ++ p)
unfolding pending
pending-append b p = ap (λ (r : List Bytes × Bytes). r.1) (scan-append b p)

complete-append : (b p : Bytes) → complete (b ++ p) ≡ complete b ++ complete (pending b ++ p)
unfolding complete pending
complete-append b p = ap (λ (r : List Bytes × Bytes). r.0) (scan-append b p)

read_bytes-eq-none : (b : Bytes) → read_bytes b ≡ none → scan b ≡ ([], b)
unfolding read_bytes scan
read_bytes-eq-none [] e = refl
read_bytes-eq-none (c ∷ s) e = ground (arith, read_bytes-eq-none s)

read_bytes-eq-some :
    (b line rest : Bytes)
    → read_bytes b ≡ some (line, rest)
    → (scan b ≡ (line ∷ (scan rest).0, (scan rest).1)) × (length rest < length b)
unfolding read_bytes scan
read_bytes-eq-some [] line rest e = cc
read_bytes-eq-some (c ∷ s) line rest e = elim (Option-cases (read_bytes s)) [
  | inl k ↦ ground arith
  | inr ((l, r), k) ↦ ground (arith, read_bytes-eq-some s l r k)
]

-- The loop, with fuel enough, logs the complete lines and keeps what is pending, clipped.
drain-scan :
    (n : ℕ) (buf : Bytes) (logged : List Bytes)
    → length buf < n
    → drain n buf logged
      ≡ some (record { buf = clip (scan buf).1; logged = log_lines (scan buf).0 logged })
unfolding drain log_lines
drain-scan zero buf logged h = elim h [ ]
drain-scan (suc n) buf logged h = elim (Option-cases (read_bytes buf)) [
  | inl k ↦ rw (k, drain, read_bytes-eq-none buf k)
  | inr ((line, rest), k) ↦
      let (e, l) = read_bytes-eq-some buf line rest k in
      rw (k, drain, e) (drain-scan n rest (log_line line logged) (omega arith))
]

-- Every `Write` returns, with the length of its argument: it logs the lines that the argument
-- completes, and keeps the last 65536 bytes at most of the line that has not ended.
pub write-scan :
    (l : FfmpegLogger) (p : Bytes)
    → write l p
      ≡ some (
        record {
          buf = clip (pending (l.buf ++ p));
          logged = log_lines (complete (l.buf ++ p)) l.logged;
        },
        length p,
      )
unfolding write complete pending
write-scan l p =
    rw (drain-scan (suc (length (l.buf ++ p))) (l.buf ++ p) l.logged (omega arith), write)

clip-le : (line : Bytes) → length (clip line) ≤ max_log_buf
unfolding clip
clip-le line =
    of_if (λ (b : Bytes). length b ≤ max_log_buf) (ltb max_log_buf (length line)) _ line
      (λ e. omega (tests, length-drop (length line - max_log_buf) line)) (λ e. ground arith)

clip_short : (line : Bytes) → length line ≤ max_log_buf → clip line ≡ line
unfolding clip
clip_short line h = ground arith

-- However long a line is, at most 65536 bytes of it are kept after a `Write`.
pub length-write-le :
    (l l' : FfmpegLogger) (p : Bytes) (n : ℕ)
    → write l p ≡ some (l', n)
    → length l'.buf ≤ max_log_buf
length-write-le l l' p n e = ground (arith, write-scan l p, clip-le (pending (l.buf ++ p)))

glue-pending :
    (c : ℕ) (r : List Bytes × Bytes)
    → (c == b'\n') ≡ false
    → scan r.1 ≡ ([], r.1)
    → scan (glue c r).1 ≡ ([], (glue c r).1)
unfolding scan
glue-pending c ([], rest) h e = rw (h, e)
glue-pending c (line ∷ lines, rest) h e = e

-- What is left of a text holds no complete line.
scan-rest : (b : Bytes) → scan (scan b).1 ≡ ([], (scan b).1)
unfolding scan
scan-rest [] = refl
scan-rest (c ∷ s) = elim (Bool-cases (c == b'\n')) [
  | inl e ↦ rw e (scan-rest s)
  | inr e ↦ rw e (glue-pending c (scan s) e (scan-rest s))
]

-- Each chunk leaves a line that is short enough to be kept whole.
abbrev pub KeepsAll : Bytes → List Bytes → Type 0
KeepsAll buf [] = Unit {0}
KeepsAll buf (p ∷ ps) =
    (length (pending (buf ++ p)) ≤ max_log_buf) × KeepsAll (pending (buf ++ p)) ps

-- `Write` called with one chunk after another.
pub write_all : List Bytes → FfmpegLogger → Option FfmpegLogger
write_all [] l = some l
write_all (p ∷ ps) l = elim (write l p) [ none ↦ none | some (l', n) ↦ write_all ps l' ]

log_lines-append :
    (xs ys logged : List Bytes) → log_lines (xs ++ ys) logged ≡ log_lines ys (log_lines xs logged)
unfolding log_lines
log_lines-append [] ys logged = refl
log_lines-append (x ∷ xs) ys logged = log_lines-append xs ys (log_line x logged)

-- If no chunk leaves an unfinished line of more than 65536 bytes, the logged lines and the bytes
-- kept are those of one `Write` of all the chunks joined.
pub write_all-scan :
    (ps : List Bytes) (l : FfmpegLogger)
    → scan l.buf ≡ ([], l.buf)
    → KeepsAll l.buf ps
    → write_all ps l
      ≡ some (record {
        buf = pending (l.buf ++ flatten ps);
        logged = log_lines (complete (l.buf ++ flatten ps)) l.logged;
      })
unfolding write_all complete pending log_lines flatten
write_all-scan [] l h k = ground (arith, ap scan (append-nil l.buf), h)
write_all-scan (p ∷ ps) l h k = rw (
  write-scan l p,
  write_all,
  clip_short (pending (l.buf ++ p)) k.0,
  write_all-scan ps
      (record { buf = pending (l.buf ++ p); logged = log_lines (complete (l.buf ++ p)) l.logged })
      (scan-rest (l.buf ++ p)) k.1,
  ← append_assoc l.buf p (flatten ps),
  pending-append (l.buf ++ p) (flatten ps),
  complete-append (l.buf ++ p) (flatten ps),
  log_lines-append,
)
