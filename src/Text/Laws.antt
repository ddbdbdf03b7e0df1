-- ===== src/Text/Laws.antt =====
-- Laws of the byte-string functions.
use webrtc_hls_pipeline.Prelude.{
  ◌-◌, ◌≡◌, refl, ◌↔◌, inl, inr, true, none, some, [], ◌∷◌, ◌++◌, arith, length, length-append,
  drop-append, ◌==◌, Option-cases, Bool-cases, All,
}
use webrtc_hls_pipeline.Text.{
  Bytes, bytes_eq, has_prefix, has_suffix, contains, strip_breaks, trim_right_breaks,
}

pub bytes_eq_iff : (s t : Bytes) → (bytes_eq s t ≡ true) ↔ (s ≡ t)
bytes_eq_iff [] [] = ground arith
bytes_eq_iff [] (y ∷ t) = ground arith
bytes_eq_iff (x ∷ s) [] = ground arith
bytes_eq_iff (x ∷ s) (y ∷ t) = ground (arith, bytes_eq_iff s t)

pub has_prefix-append : (p s : Bytes) → has_prefix (p ++ s) p ≡ true
unfolding has_prefix
has_prefix-append [] [] = refl
has_prefix-append [] (x ∷ s) = refl
has_prefix-append (x ∷ p) s = ground (arith, has_prefix-append p s)

contains_of_has_prefix : (s p : Bytes) → has_prefix s p ≡ true → contains s p ≡ true
unfolding contains
contains_of_has_prefix [] p h = h
contains_of_has_prefix (x ∷ s) p h = ground arith

pub contains-append : (s p t : Bytes) → contains (s ++ p ++ t) p ≡ true
unfolding contains
contains-append [] p t = contains_of_has_prefix (p ++ t) p (has_prefix-append p t)
contains-append (x ∷ s) p t = ground (arith, contains-append s p t)

pub has_suffix-append : (s p : Bytes) → has_suffix (s ++ p) p ≡ true
unfolding has_suffix
has_suffix-append s p =
    let n : length (s ++ p) - length p ≡ length s = omega (arith, length-append s p) in
    rw (n, drop-append s p) (ground (arith, length-append s p, bytes_eq_iff p p))

-- The line breaks that `strings.TrimRight` cuts off.
abbrev AreBreaks : Bytes → Type 0
AreBreaks = All (λ c. c ≡ b'\n')

strip_breaks_lem :
    (s : Bytes)
    → (t : Bytes) × (s ≡ (elim (strip_breaks s) [ none ↦ [] | some r ↦ r ]) ++ t) × AreBreaks t
unfolding strip_breaks
strip_breaks_lem [] = ([], refl, tt)
strip_breaks_lem (x ∷ s) =
    let (t, e, b) = strip_breaks_lem s in
    elim (Option-cases (strip_breaks s)) [
      | inr (r, k) ↦ (t, ground (arith, e), b)
      | inl k ↦ elim (Bool-cases (x == b'\n')) [
        | inl y ↦ (x ∷ t, ground (arith, e), (ground arith, b))
        | inr n ↦ (t, ground (arith, e), b)
      ]
    ]

-- `strings.TrimRight(s, "\n")` cuts off line breaks and nothing else.
pub trim_right_breaks_lem :
    (s : Bytes) → (t : Bytes) × (s ≡ trim_right_breaks s ++ t) × All (λ c. c ≡ b'\n') t
unfolding trim_right_breaks
trim_right_breaks_lem s = strip_breaks_lem s
