-- ===== src/Text/Paths/Elements.antt =====
-- How the elements of a joined path come from its parts.
use webrtc_hls_pipeline.Prelude.{
  ℕ, ◌≡◌, refl, ap, ◌∙◌, Bool, true, false, not, ◌||◌, List, [], ◌∷◌, ◌++◌, reverse, any, keep_if,
  arith, Bool-cases, inl, inr,
}
use mathlib.Core.List.{reverse-cons, append_assoc, append-nil}
use webrtc_hls_pipeline.Text.{Bytes, bytes_eq, has_prefix, contains, join}
use webrtc_hls_pipeline.Text.Laws.{bytes_eq_iff}
use webrtc_hls_pipeline.Text.Paths.{
  add_to_first, split_by, is_slash, is_empty, dot, dot_dot, push, push_all, is_rooted, elements,
  render, clean, join_path,
}

-- The elements that `filepath.Clean` keeps, `..` apart.
abbrev pub is_named : Bytes → Bool
is_named e = not (is_empty e || bytes_eq e dot)

abbrev pub is_dot_dot : Bytes → Bool
is_dot_dot e = bytes_eq e dot_dot

add_to_first_twice :
    (x c : ℕ) (ps es : List Bytes)
    → add_to_first x (add_to_first c ps ++ es) ≡ add_to_first x (add_to_first c ps) ++ es
add_to_first_twice x c [] es = refl
add_to_first_twice x c (q ∷ ps) es = refl

module _ (p : ℕ → Bool) where
  add_to_first-append :
      (x : ℕ) (s : Bytes) (es : List Bytes)
      → add_to_first x (split_by p s ++ es) ≡ add_to_first x (split_by p s) ++ es
  unfolding split_by
  add_to_first-append x [] es = refl
  add_to_first-append x (c ∷ s) es = elim (Bool-cases (p c)) [
    | inl y ↦ ground arith
    | inr n ↦ ground (arith, add_to_first_twice x c (split_by p s) es)
  ]

  pub split_by-append :
      (s : Bytes) (c : ℕ) (t : Bytes)
      → p c ≡ true
      → split_by p (s ++ c ∷ t) ≡ split_by p s ++ split_by p t
  unfolding split_by
  split_by-append [] c t h = ground arith
  split_by-append (x ∷ s) c t h =
      ground (arith, split_by-append s c t h, add_to_first-append x s (split_by p t))

pub push_all-append :
    (r : Bool) (xs ys : List Bytes) (acc : List Bytes)
    → push_all r (xs ++ ys) acc ≡ push_all r ys (push_all r xs acc)
unfolding push_all
push_all-append r [] ys acc = refl
push_all-append r (x ∷ xs) ys acc = push_all-append r xs ys (push r x acc)

push_all-named :
    (r : Bool) (ys : List Bytes) (acc : List Bytes)
    → any is_dot_dot ys ≡ false
    → reverse (push_all r ys acc) ≡ reverse acc ++ keep_if is_named ys
unfolding push_all push
push_all-named r [] acc h = ground (arith, append-nil (reverse acc))
push_all-named r (y ∷ ys) acc h =
    let tail = push_all-named r ys acc in
    let more = push_all-named r ys (y ∷ acc) in
    let shift = ap (λ l. l ++ keep_if is_named ys) (reverse-cons y acc) in
    ground (arith, h, tail, more, shift, append_assoc (reverse acc) (y ∷ []) (keep_if is_named ys))

abbrev first : List Bytes → Bytes
first [] = []
first (e ∷ es) = e

abbrev others : List Bytes → List Bytes
others [] = []
others (e ∷ es) = es

first-add_to_first : (c : ℕ) (es : List Bytes) → first (add_to_first c es) ≡ c ∷ first es
first-add_to_first c [] = refl
first-add_to_first c (e ∷ es) = refl

any-add_to_first :
    (c : ℕ) (es : List Bytes)
    → any is_dot_dot (add_to_first c es) ≡ true
    → (is_dot_dot (c ∷ first es) || any is_dot_dot es) ≡ true
any-add_to_first c [] h = ground arith
any-add_to_first c (e ∷ es) h = ground arith

module _ (p : ℕ → Bool) where
  has_prefix-first : (s : Bytes) → has_prefix s (first (split_by p s)) ≡ true
  unfolding split_by has_prefix
  has_prefix-first [] = refl
  has_prefix-first (c ∷ s) = elim (Bool-cases (p c)) [
    | inl y ↦ ground arith
    | inr n ↦ ground (arith, has_prefix-first s, first-add_to_first c (split_by p s))
  ]

  -- A piece that is `..` is a `..` of the text.
  pub contains_of_any :
      (s : Bytes) → any is_dot_dot (split_by p s) ≡ true → contains s dot_dot ≡ true
  unfolding split_by contains
  contains_of_any [] h = ground arith
  contains_of_any (c ∷ s) h = elim (Bool-cases (p c)) [
    | inl y ↦ ground (arith, contains_of_any s)
    | inr n ↦
        let either = any-add_to_first c (split_by p s) in
        ground (
          arith,
          either,
          contains_of_any s,
          has_prefix-first s,
          bytes_eq_iff (first (split_by p s)) (b'.' ∷ []),
        )
  ]

-- `filepath.Join` of a directory and two names.
pub join_path-elements :
    (d : ℕ) (ds name file : Bytes)
    → split_by is_slash name ≡ name ∷ []
    → any is_dot_dot (name ∷ split_by is_slash file) ≡ false
    → join_path ((d ∷ ds) ∷ name ∷ file ∷ [])
      ≡ render
          (is_rooted (d ∷ ds))
          (elements (d ∷ ds) ++ keep_if is_named (name ∷ split_by is_slash file))
unfolding join_path clean elements join has_prefix
join_path-elements d ds name file whole safe =
    let parts : split_by is_slash ((d ∷ ds) ++ (b'/' ∷ (name ++ (b'/' ∷ file))))
        ≡ split_by is_slash (d ∷ ds) ++ name ∷ split_by is_slash file =
      split_by-append is_slash (d ∷ ds) b'/' (name ++ b'/' ∷ file) refl
      ∙ ap (λ l. split_by is_slash (d ∷ ds) ++ l)
          (split_by-append is_slash name b'/' file refl
            ∙ ap (λ l. l ++ split_by is_slash file) whole) in
    let r = is_rooted (d ∷ ds) in
    ap (render r) (
      ap (λ l. reverse (push_all r l [])) parts
      ∙ ap reverse
          (push_all-append r (split_by is_slash (d ∷ ds)) (name ∷ split_by is_slash file) [])
      ∙ push_all-named r (name ∷ split_by is_slash file)
          (push_all r (split_by is_slash (d ∷ ds)) []) safe)
