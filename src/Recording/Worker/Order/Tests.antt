-- ===== src/Recording/Worker/Order/Tests.antt =====
-- Directories whose segments the worker joins.
use mathlib.Core.List.Perm
use webrtc_hls_pipeline.Prelude.{
  ℕ, ◌/◌, ◌≡◌, refl, true, ◌&&◌, none, some, List, [], ◌∷◌, map, ltb, arith, if◌then◌else◌,
}
use webrtc_hls_pipeline.Text.{Bytes, codes, has_prefix, has_suffix}
use webrtc_hls_pipeline.Text.Order.{bytes_ltb}
use webrtc_hls_pipeline.Hls.Vod.{Entry}
use webrtc_hls_pipeline.Transcode.Outputs.{segment_name}
use webrtc_hls_pipeline.Recording.Worker.{
  Services, segment_names, concat_list, concatenate_segments, is_segment,
}
use webrtc_hls_pipeline.Recording.Worker.Order.{
  Numbers, digit, concatenate_segments-in_order, concatenate_segments-misplaced,
}

order_code : Unit {0}
unfolding segment_names is_segment segment_name concatenate_segments has_prefix has_suffix
    concat_list
order_code = tt

-- `%03d` up to four digits.
abbrev padded : ℕ → Bytes
padded n =
    if ltb n 1000
    then digit (n / 100) ∷ digit (n / 10) ∷ digit n ∷ []
    else digit (n / 1000) ∷ digit (n / 100) ∷ digit (n / 10) ∷ digit n ∷ []

padded-Numbers : Numbers padded
padded-Numbers = record { below_1000 = ground arith; below_10000 = ground arith }

abbrev insert : Bytes → List Bytes → List Bytes
insert s [] = s ∷ []
insert s (t ∷ ts) = let rest = insert s ts in if bytes_ltb t s then t ∷ rest else s ∷ t ∷ ts

abbrev sort : List Bytes → List Bytes
sort [] = []
sort (s ∷ ts) = insert s (sort ts)

abbrev entry : Bytes → Entry
entry name = record { name = name; content = []; readable = true; write_fails = none }

abbrev services : Services
services = record {
  inserts = true;
  updates = true;
  sets_url = true;
  redis_up = true;
  writes_list = true;
  ffmpeg = λ list. true;
}

abbrev short_stream : List Entry
short_stream = map entry (
    codes "stream_0_101.ts"
    ∷ codes "stream_1_100.ts"
    ∷ codes "stream_0.m3u8"
    ∷ codes "stream_0_099.ts"
    ∷ [])

abbrev long_stream : List Entry
long_stream =
    map entry (codes "stream_0_999.ts" ∷ codes "stream_0.m3u8" ∷ codes "stream_0_1000.ts" ∷ [])

short_names : segment_names short_stream ≡ codes "stream_0_101.ts" ∷ codes "stream_0_099.ts" ∷ []
unfolding order_code
short_names = refl

concatenate_segments-in_order_example : concatenate_segments sort services (some short_stream) ≡ (
    true && services.ffmpeg (concat_list (codes "stream_0_099.ts" ∷ codes "stream_0_101.ts" ∷ [])))
unfolding order_code
concatenate_segments-in_order_example =
    concatenate_segments-in_order padded sort services short_stream 99 (101 ∷ []) padded-Numbers
      (record {
        ascends = ((refl, tt), (tt, tt));
        keeps = Perm.swap (codes "stream_0_101.ts") (codes "stream_0_099.ts") [];
      })
      (refl, (refl, tt)) ((refl, tt), (tt, tt))
      (Perm.swap (codes "stream_0_099.ts") (codes "stream_0_101.ts") [])

concatenate_segments-misplaced_example : concatenate_segments sort services (some long_stream) ≡ (
    true && services.ffmpeg (concat_list (codes "stream_0_1000.ts" ∷ codes "stream_0_999.ts" ∷ [])))
unfolding order_code
concatenate_segments-misplaced_example =
    concatenate_segments-misplaced padded sort services long_stream 999 1000 padded-Numbers
      (record {
        ascends = ((refl, tt), (tt, tt));
        keeps = Perm.swap (codes "stream_0_999.ts") (codes "stream_0_1000.ts") [];
      })
      (ground arith) (ground arith) (ground arith) (ground arith) (ground arith) Perm.rfl
