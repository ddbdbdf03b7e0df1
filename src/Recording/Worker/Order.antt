-- ===== src/Recording/Worker/Order.antt =====
-- The order in which the recording worker joins the segments that FFmpeg numbers with `%03d`.
mod Tests
use mathlib.Core.List.{Perm, cons≢nil}
use mathlib.Core.List.Perm
use webrtc_hls_pipeline.Prelude.{
  ℕ, ◌+◌, ◌/◌, ◌%◌, ◌<◌, ◌≤◌, ◌≡◌, refl, ap, sym, ◌∙◌, Bool, true, false, not, ◌&&◌, some, List, [],
  ◌∷◌, ◌++◌, map, AllPass, ltb, arith,
}
use webrtc_hls_pipeline.Text.{Bytes, codes}
use webrtc_hls_pipeline.Text.Order.{
  bytes_ltb, IsBelow, IsSorted, IsSortOf, ltb_asymm, ltb-append, sorted_eq,
}
use webrtc_hls_pipeline.Hls.Vod.{Entry}
use webrtc_hls_pipeline.Transcode.Outputs.{segment_name}
use webrtc_hls_pipeline.Recording.Worker.{
  Services, segment_names, concat_list, concatenate_names, concatenate_segments,
}

abbrev pub digit : ℕ → ℕ
digit n = b'0' + n % 10

-- What C's `%03d` makes of a number: three digits, and as many as it has beyond.
pub record Numbers (number : ℕ → Bytes) : Type 0 where
  pub below_1000 : (n : ℕ) → n < 1000 → number n ≡ digit (n / 100) ∷ digit (n / 10) ∷ digit n ∷ []
  pub below_10000 :
      (n : ℕ)
      → 1000 ≤ n
      → n < 10000
      → number n ≡ digit (n / 1000) ∷ digit (n / 100) ∷ digit (n / 10) ∷ digit n ∷ []

abbrev pub IsAscending : List ℕ → Type 0
IsAscending [] = Unit
IsAscending (n ∷ ns) = AllPass (ltb n) ns × IsAscending ns

-- The names of the first variant's segments with these numbers.
abbrev pub names_of : (ℕ → Bytes) → List ℕ → List Bytes
names_of number = map (λ n. segment_name 0 (number n))

module _ (number : ℕ → Bytes) (padded : Numbers number) where
  segments_ltb :
      (m n : ℕ)
      → bytes_ltb (segment_name 0 (number m)) (segment_name 0 (number n))
        ≡ bytes_ltb (number m ++ codes ".ts") (number n ++ codes ".ts")
  unfolding segment_name
  segments_ltb m n =
      ltb-append (codes "stream_0_") (number m ++ codes ".ts") (number n ++ codes ".ts")

  -- Below 1000 the names have the order of the numbers.
  three_digits :
      (m n : ℕ)
      → m < 1000
      → n < 1000
      → bytes_ltb (segment_name 0 (number m)) (segment_name 0 (number n)) ≡ ltb m n
  three_digits m n hm hn =
      segments_ltb m n
      ∙ rw (padded.below_1000 m hm, padded.below_1000 n hn) (ground (arith, hm, hn))

  -- A name with four digits is compared by the first three of them.
  four_digits :
      (m n : ℕ)
      → 100 ≤ m
      → m < 1000
      → 1000 ≤ n
      → n < 10000
      → bytes_ltb (segment_name 0 (number n)) (segment_name 0 (number m)) ≡ ltb (n / 10) m
  four_digits m n h1 h2 h3 h4 =
      segments_ltb n m
      ∙ rw (padded.below_1000 m h2, padded.below_10000 n h3 h4) (ground (arith, h1, h2, h3, h4))

  IsBelow-names :
      (n : ℕ) (ns : List ℕ)
      → n < 1000
      → AllPass (λ i. ltb i 1000) ns
      → AllPass (ltb n) ns
      → IsBelow (segment_name 0 (number n)) (names_of number ns)
  IsBelow-names n [] h a b = tt
  IsBelow-names n (m ∷ ns) h a b =
      let hm : m < 1000 = ground (arith, a.0) in
      (ground (arith, b.0, three_digits m n hm h), IsBelow-names n ns h a.1 b.1)

  names_of-IsSorted :
      (ns : List ℕ) → AllPass (λ i. ltb i 1000) ns → IsAscending ns → IsSorted (names_of number ns)
  names_of-IsSorted [] a b = tt
  names_of-IsSorted (n ∷ ns) a b =
      (IsBelow-names n ns (ground (arith, a.0)) a.1 b.0, names_of-IsSorted ns a.1 b.1)

  -- The two names in the order of their bytes.
  swapped-IsSorted :
      (m n : ℕ)
      → 100 ≤ m
      → m < 1000
      → 1000 ≤ n
      → n < 10000
      → n / 10 < m
      → IsSorted (segment_name 0 (number n) ∷ segment_name 0 (number m) ∷ [])
  swapped-IsSorted m n h1 h2 h3 h4 lt =
      let x = segment_name 0 (number m) in
      let y = segment_name 0 (number n) in
      let less : bytes_ltb y x ≡ true = four_digits m n h1 h2 h3 h4 ∙ ground (arith, lt) in
      ((ground (arith, ltb_asymm y x less), tt), (tt, tt))

-- FFmpeg gets the sorted names when there is one.
concatenate_names-cons :
    (sort : List Bytes → List Bytes) (s : Services) (names : List Bytes) (x : Bytes)
    (xs : List Bytes)
    → Perm names (x ∷ xs)
    → concatenate_names sort s names ≡ (s.writes_list && s.ffmpeg (concat_list (sort names)))
unfolding concatenate_names
concatenate_names-cons sort s [] x xs p = absurd (cons≢nil (sym (Perm.nil-eq p)))
concatenate_names-cons sort s (f ∷ fs) x xs p = refl

-- What is joined when the segments of a directory are, in some order, a list that is sorted.
joined :
    (sort : List Bytes → List Bytes) (s : Services) (es : List Entry) (x : Bytes) (xs : List Bytes)
    → IsSortOf (sort (segment_names es)) (segment_names es)
    → Perm (segment_names es) (x ∷ xs)
    → IsSorted (x ∷ xs)
    → concatenate_segments sort s (some es) ≡ (s.writes_list && s.ffmpeg (concat_list (x ∷ xs)))
unfolding concatenate_segments
joined sort s es x xs k p a =
    concatenate_names-cons sort s (segment_names es) x xs p
    ∙ ap (λ names. s.writes_list && s.ffmpeg (concat_list names))
        (sorted_eq (sort (segment_names es)) (segment_names es) (x ∷ xs) k p a)

-- Let FFmpeg number its segments as `%03d` does, and let `sort.Strings` return the names it is given
-- in the order of their bytes. When the segments of the first variant in a directory, in whatever
-- order it lists them, are those of some ascending numbers below 1000, at least one, the worker hands
-- them to FFmpeg in the order of their numbers, and it succeeds when the list is written and FFmpeg
-- succeeds on it.
pub concatenate_segments-in_order :
    (number : ℕ → Bytes) (sort : List Bytes → List Bytes) (s : Services) (es : List Entry) (n : ℕ)
    (ns : List ℕ)
    → Numbers number
    → IsSortOf (sort (segment_names es)) (segment_names es)
    → AllPass (λ i. ltb i 1000) (n ∷ ns)
    → IsAscending (n ∷ ns)
    → Perm (segment_names es) (names_of number (n ∷ ns))
    → concatenate_segments sort s (some es)
      ≡ (s.writes_list && s.ffmpeg (concat_list (names_of number (n ∷ ns))))
concatenate_segments-in_order number sort s es n ns padded k a b p =
    joined sort s es (segment_name 0 (number n)) (names_of number ns) k p
      (names_of-IsSorted number padded (n ∷ ns) a b)

-- Let FFmpeg number its segments as `%03d` does, and let `sort.Strings` return the names it is given
-- in the order of their bytes. When a directory has two segments of the first variant, numbered m with
-- three digits, none of them a leading zero, and n with four, and the first three digits of n make
-- less than m, the worker hands the segment n to FFmpeg before the segment m, though n is greater.
pub concatenate_segments-misplaced :
    (number : ℕ → Bytes) (sort : List Bytes → List Bytes) (s : Services) (es : List Entry) (m n : ℕ)
    → Numbers number
    → IsSortOf (sort (segment_names es)) (segment_names es)
    → 100 ≤ m
    → m < 1000
    → 1000 ≤ n
    → n < 10000
    → n / 10 < m
    → Perm (segment_names es) (names_of number (m ∷ n ∷ []))
    → concatenate_segments sort s (some es)
      ≡ (s.writes_list && s.ffmpeg (concat_list (names_of number (n ∷ m ∷ []))))
concatenate_segments-misplaced number sort s es m n padded k h1 h2 h3 h4 lt p =
    let x = segment_name 0 (number m) in
    let y = segment_name 0 (number n) in
    joined sort s es y (x ∷ []) k (Perm.trans p (Perm.swap y x []))
      (swapped-IsSorted number padded m n h1 h2 h3 h4 lt)
