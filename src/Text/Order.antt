-- ===== src/Text/Order.antt =====
-- The order of Go's strings, by their bytes, and what `sort.Strings` promises.
use mathlib.Core.Bool.{Bool-set}
use mathlib.Core.List.{Mem, Perm, forall_mem-cons, mem-cons_self, not-mem-nil}
use mathlib.Core.List.Perm
use webrtc_hls_pipeline.Prelude.{
  ◌≡◌, refl, ap, ◌∙◌, Bool, true, false, not, ◌&&◌, ◌||◌, List, [], ◌∷◌, ◌++◌, AllPass, ltb, arith,
  ◌==◌,
}
use webrtc_hls_pipeline.Text.{Bytes}

-- s < t
abbrev pub bytes_ltb : Bytes → Bytes → Bool
bytes_ltb s [] = false
bytes_ltb [] (y ∷ t) = true
bytes_ltb (x ∷ s) (y ∷ t) = ltb x y || (x == y && bytes_ltb s t)

abbrev pub IsBelow : Bytes → List Bytes → Type 0
IsBelow s = AllPass (λ t. not (bytes_ltb t s))

abbrev pub IsSorted : List Bytes → Type 0
IsSorted [] = Unit
IsSorted (s ∷ ts) = IsBelow s ts × IsSorted ts

-- What `sort.Strings` makes of a list: the same strings, in ascending order.
pub record IsSortOf (sorted names : List Bytes) : Type 0 where
  pub ascends : IsSorted sorted
  pub keeps : Perm sorted names

ltb_irrefl : (s : Bytes) → bytes_ltb s s ≡ false
ltb_irrefl [] = refl
ltb_irrefl (x ∷ s) = ground (arith, ltb_irrefl s)

eq_of_not_ltb : (s t : Bytes) → bytes_ltb s t ≡ false → bytes_ltb t s ≡ false → s ≡ t
eq_of_not_ltb [] [] = ground arith
eq_of_not_ltb [] (y ∷ t) = ground arith
eq_of_not_ltb (x ∷ s) [] = ground arith
eq_of_not_ltb (x ∷ s) (y ∷ t) = ground (arith, eq_of_not_ltb s t)

pub ltb_asymm : (s t : Bytes) → bytes_ltb s t ≡ true → bytes_ltb t s ≡ false
ltb_asymm [] [] = ground arith
ltb_asymm [] (y ∷ t) = ground arith
ltb_asymm (x ∷ s) [] = ground arith
ltb_asymm (x ∷ s) (y ∷ t) = ground (arith, ltb_asymm s t)

-- A common prefix does not count.
pub ltb-append : (p s t : Bytes) → bytes_ltb (p ++ s) (p ++ t) ≡ bytes_ltb s t
ltb-append [] s t = refl
ltb-append (x ∷ p) s t = ground (arith, ltb-append p s t)

pass_of_mem :
    (p : Bytes → Bool) (ts : List Bytes) (t : Bytes) → AllPass p ts → Mem t ts → p t ≡ true
pass_of_mem p [] t a m = absurd (not-mem-nil m)
pass_of_mem p (s ∷ ts) t a m =
    (forall_mem-cons (λ x. Bool-set (p x) true)).1 (a.0, λ x k. pass_of_mem p ts x a.1 k) t m

-- The head of a sorted list is below every element of a permutation.
heads :
    (s t : Bytes) (ss ts : List Bytes)
    → IsSorted (s ∷ ss)
    → Perm (t ∷ ts) (s ∷ ss)
    → bytes_ltb t s ≡ false
heads s t ss ts a p =
    let below : IsBelow s (s ∷ ss) = (ground (arith, ltb_irrefl s), a.0) in
    ground (
      arith,
      pass_of_mem (λ t. not (bytes_ltb t s)) (s ∷ ss) t below ((Perm.mem_iff p).0 mem-cons_self),
    )

-- A list has one sorted permutation.
pub eq_of_sorted_perm : (ss ts : List Bytes) → IsSorted ss → IsSorted ts → Perm ss ts → ss ≡ ts
eq_of_sorted_perm [] ts a b p = Perm.nil-eq p
eq_of_sorted_perm (s ∷ ss) [] a b p = Perm.eq-nil p
eq_of_sorted_perm (s ∷ ss) (t ∷ ts) a b p =
    let head = eq_of_not_ltb s t (heads t s ts ss b p) (heads s t ss ts a (Perm.symm p)) in
    let tail =
      eq_of_sorted_perm ss ts a.1 b.1
        (Perm.cons_inv (Perm.trans p (Perm.symm (Perm.cons' head Perm.rfl)))) in
    ap (λ x. x ∷ ss) head ∙ ap (λ xs. t ∷ xs) tail

-- What `sort.Strings` makes of a permutation of a sorted list is that list.
pub sorted_eq :
    (sorted names ts : List Bytes)
    → IsSortOf sorted names
    → Perm names ts
    → IsSorted ts
    → sorted ≡ ts
sorted_eq sorted names ts k p b = eq_of_sorted_perm sorted ts k.ascends b (Perm.trans k.keeps p)
