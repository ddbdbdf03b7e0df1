-- ===== src/Hls/Segments/Confined.antt =====
-- Nothing outside the segment directory is served.
use webrtc_hls_pipeline.Prelude.{
  ℕ, ◌≡◌, refl, ap, sym, ◌∙◌, true, false, ◌||◌, List, [], ◌∷◌, ◌++◌, any, keep_if, arith,
  Bool-cases, inl, inr, String,
}
use webrtc_hls_pipeline.Text.{Bytes, codes, contains, has_prefix, has_suffix}
use webrtc_hls_pipeline.Text.Laws.{bytes_eq_iff}
use webrtc_hls_pipeline.Text.Paths.{
  split_by, is_slash, dot_dot, is_rooted, elements, render, contains_dot_dot, join_path,
}
use webrtc_hls_pipeline.Text.Paths.Elements.{
  is_named, is_dot_dot, contains_of_any, join_path-elements,
}
use webrtc_hls_pipeline.Hls.Segments.{
  not_found, bad_url, file, is_valid_segment_path, url_path, serve_segments,
}

-- A URL whose session is `..` is refused by `http.ServeFile`.
dot_dot_refused : (filename : Bytes) → contains_dot_dot (url_path dot_dot filename) ≡ true
unfolding contains_dot_dot contains split_by url_path has_prefix
dot_dot_refused filename = refl

file_safe :
    (filename : Bytes)
    → is_valid_segment_path filename ≡ true
    → any is_dot_dot (split_by is_slash filename) ≡ false
unfolding is_valid_segment_path
file_safe filename h = ground (arith, contains_of_any is_slash filename)

session_safe :
    (session_id filename : Bytes)
    → contains_dot_dot (url_path session_id filename) ≡ false
    → is_dot_dot session_id ≡ false
session_safe session_id filename h = elim (Bool-cases (is_dot_dot session_id)) [
  | inr n ↦ n
  | inl y ↦
      let e = (bytes_eq_iff session_id dot_dot).0 y in
      let refused : contains_dot_dot (url_path session_id filename) ≡ true =
        ap (λ s. contains_dot_dot (url_path s filename)) e ∙ dot_dot_refused filename in
      cc
]

named_safe :
    (ys : List Bytes) → any is_dot_dot ys ≡ false → any is_dot_dot (keep_if is_named ys) ≡ false
named_safe [] h = refl
named_safe (y ∷ ys) h = ground (arith, named_safe ys)

-- What a served path looks like: the directory, then named elements none of which is `..`.
pub record IsWithin (segment_dir session_id filename path : Bytes) : Type 0 where
  pub below :
      path
      ≡ render
          (is_rooted segment_dir)
          (elements segment_dir ++ keep_if is_named (session_id ∷ split_by is_slash filename))
  pub no_ascent :
      any is_dot_dot (keep_if is_named (session_id ∷ split_by is_slash filename)) ≡ false
  pub kind : (has_suffix filename (codes ".m3u8") || has_suffix filename (codes ".ts")) ≡ true

file-path : {p q : Bytes} {hs ks : List (String × String)} → file p hs ≡ file q ks → p ≡ q
file-path h = ap (λ a. elim a [ not_found ↦ [] | bad_url ↦ [] | file p hs ↦ p ]) h

module _ (segment_dir session_id filename path : Bytes) (headers : List (String × String)) where
  -- The guards that a served file has passed.
  served_lem :
      serve_segments segment_dir session_id filename ≡ file path headers
      → (is_valid_segment_path filename ≡ true)
        × (contains_dot_dot (url_path session_id filename) ≡ false)
        × (join_path (segment_dir ∷ session_id ∷ filename ∷ []) ≡ path)
  unfolding serve_segments
  served_lem h = elim (Bool-cases (is_valid_segment_path filename)) [
    | inr n ↦ ground (arith, h)
    | inl v ↦ elim (Bool-cases (contains_dot_dot (url_path session_id filename))) [
      | inl y ↦ ground (arith, h)
      | inr n ↦ (v, n, ground (arith, h))
    ]
  ]

valid_kind :
    (filename : Bytes)
    → is_valid_segment_path filename ≡ true
    → (has_suffix filename (codes ".m3u8") || has_suffix filename (codes ".ts")) ≡ true
unfolding is_valid_segment_path
valid_kind filename h = ground (arith, h)

-- When the segment directory is set and the session parameter of the route holds no slash, a file
-- that is served is a playlist or a segment, and its path is the cleaned directory followed by the
-- names in the session and the file, with no `..` among them.
pub serve_segments-IsWithin :
    (d : ℕ) (ds session_id filename path : Bytes) (headers : List (String × String))
    → split_by is_slash session_id ≡ session_id ∷ []
    → serve_segments (d ∷ ds) session_id filename ≡ file path headers
    → IsWithin (d ∷ ds) session_id filename path
serve_segments-IsWithin d ds session_id filename path headers whole h =
    let (valid, url, joined) = served_lem (d ∷ ds) session_id filename path headers h in
    let safe : any is_dot_dot (session_id ∷ split_by is_slash filename) ≡ false =
      ground (arith, file_safe filename valid, session_safe session_id filename url) in
    record {
      below = sym joined ∙ join_path-elements d ds session_id filename whole safe;
      no_ascent = named_safe (session_id ∷ split_by is_slash filename) safe;
      kind = valid_kind filename valid;
    }
