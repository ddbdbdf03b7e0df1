-- ===== src/Text/Paths/Cleaning.antt =====
-- A cleaned path may be cleaned again and joined further.
use webrtc_hls_pipeline.Prelude.{
  ℕ, ◌≡◌, refl, ap, sym, subst, ◌∙◌, Bool, true, false, not, ◌&&◌, ◌||◌, List, [], ◌∷◌, ◌++◌,
  reverse, any, All, All-reverse, if◌then◌else◌, arith, Bool-cases, inl, inr,
}
use mathlib.Core.List.{reverse-cons, append_assoc}
use webrtc_hls_pipeline.Text.{Bytes, codes, bytes_eq, has_prefix, join}
use webrtc_hls_pipeline.Text.Paths.{
  add_to_first, split_by, is_slash, is_empty, dot, dot_dot, push, pop, push_all, is_rooted,
  elements, render, clean, join_path,
}
use webrtc_hls_pipeline.Text.Paths.Elements.{split_by-append, push_all-append}

-- The elements so far are those that pushing them again gives.
abbrev IsStable : Bool → List Bytes → Type 0
IsStable r [] = Unit {0}
IsStable r (e ∷ acc) = (push r e acc ≡ e ∷ acc) × IsStable r acc

push_all-reverse :
    (r : Bool) (acc : List Bytes) → IsStable r acc → push_all r (reverse acc) [] ≡ acc
unfolding push_all
push_all-reverse r [] s = refl
push_all-reverse r (e ∷ acc) s =
    ap (λ l. push_all r l []) (reverse-cons e acc)
    ∙ push_all-append r (reverse acc) (e ∷ []) []
    ∙ ap (push r e) (push_all-reverse r acc s.1)
    ∙ s.0

pop-IsStable : (r : Bool) (acc : List Bytes) → IsStable r acc → IsStable r (pop r acc)
unfolding pop push
pop-IsStable true [] s = tt
pop-IsStable false [] s = (refl, tt)
pop-IsStable r (e ∷ acc) s = elim (Bool-cases (bytes_eq e dot_dot)) [
  | inl y ↦
      subst (λ b. IsStable r (if b then dot_dot ∷ e ∷ acc else acc)) (sym y) (ground (arith, y), s)
  | inr n ↦ subst (λ b. IsStable r (if b then dot_dot ∷ e ∷ acc else acc)) (sym n) s.1
]

-- What `push` keeps: the elements so far, those that `..` leaves, and a name on top of them.
push-keeps :
    (P : List Bytes → Type 0) (r : Bool) (e : Bytes) (acc : List Bytes)
    → P acc
    → P (pop r acc)
    → ((push r e acc ≡ e ∷ acc) → is_empty e ≡ false → P (e ∷ acc))
    → P (push r e acc)
unfolding push
push-keeps P r e acc kept popped named = elim (Bool-cases (is_empty e || bytes_eq e dot)) [
  | inl y ↦
      subst (λ b. P (if b then acc else if bytes_eq e dot_dot then pop r acc else e ∷ acc)) (sym y)
        kept
  | inr n ↦
      subst (λ b. P (if b then acc else if bytes_eq e dot_dot then pop r acc else e ∷ acc)) (sym n)
        (elim (Bool-cases (bytes_eq e dot_dot)) [
          | inl y ↦ subst (λ b. P (if b then pop r acc else e ∷ acc)) (sym y) popped
          | inr m ↦
              subst (λ b. P (if b then pop r acc else e ∷ acc)) (sym m)
                (named (ground (arith, n, m)) (ground (arith, n)))
        ])
]

push_all-IsStable :
    (r : Bool) (es acc : List Bytes) → IsStable r acc → IsStable r (push_all r es acc)
unfolding push_all
push_all-IsStable r [] acc s = s
push_all-IsStable r (e ∷ es) acc s =
    push_all-IsStable r es (push r e acc)
      (push-keeps (IsStable r) r e acc s (pop-IsStable r acc s) (λ same _. (same, s)))

-- Whether an element has no slash.
abbrev is_plain : Bytes → Bool
is_plain e = not (any is_slash e)

split_by-plain : (e : Bytes) → is_plain e ≡ true → split_by is_slash e ≡ e ∷ []
unfolding split_by
split_by-plain [] h = refl
split_by-plain (c ∷ e) h = ground (arith, h, split_by-plain e)

ArePlain : List Bytes → Type 0
ArePlain = All (λ e. is_plain e ≡ true)

add_to_first-ArePlain :
    (c : ℕ) (es : List Bytes) → is_slash c ≡ false → ArePlain es → ArePlain (add_to_first c es)
unfolding ArePlain
add_to_first-ArePlain c [] n a = (ground (arith, n), tt)
add_to_first-ArePlain c (e ∷ es) n a = (ground (arith, n, a.0), a.1)

split_by-ArePlain : (s : Bytes) → ArePlain (split_by is_slash s)
unfolding split_by ArePlain
split_by-ArePlain [] = (refl, tt)
split_by-ArePlain (c ∷ s) =
    let rest = split_by is_slash s in
    elim (Bool-cases (is_slash c)) [
      | inl y ↦
          subst (λ b. ArePlain (if b then [] ∷ rest else add_to_first c rest)) (sym y)
            (refl, split_by-ArePlain s)
      | inr n ↦
          subst (λ b. ArePlain (if b then [] ∷ rest else add_to_first c rest)) (sym n)
            (add_to_first-ArePlain c rest n (split_by-ArePlain s))
    ]

-- The elements of a cleaned path are neither empty nor do they hold a slash.
AreNames : List Bytes → Type 0
AreNames = All (λ e. (is_plain e && not (is_empty e)) ≡ true)

pop-AreNames : (r : Bool) (acc : List Bytes) → AreNames acc → AreNames (pop r acc)
unfolding pop AreNames
pop-AreNames true [] a = tt
pop-AreNames false [] a = (refl, tt)
pop-AreNames r (e ∷ acc) a = elim (Bool-cases (bytes_eq e dot_dot)) [
  | inl y ↦ subst (λ b. AreNames (if b then dot_dot ∷ e ∷ acc else acc)) (sym y) (refl, a)
  | inr n ↦ subst (λ b. AreNames (if b then dot_dot ∷ e ∷ acc else acc)) (sym n) a.1
]

push_all-AreNames :
    (r : Bool) (es acc : List Bytes) → ArePlain es → AreNames acc → AreNames (push_all r es acc)
unfolding push_all ArePlain AreNames
push_all-AreNames r [] acc p a = a
push_all-AreNames r (e ∷ es) acc p a =
    push_all-AreNames r es (push r e acc) p.1
      (push-keeps AreNames r e acc a (pop-AreNames r acc a) (λ _ n. (ground (arith, n, p.0), a)))

ArePlain-of_AreNames : (es : List Bytes) → AreNames es → ArePlain es
unfolding ArePlain AreNames
ArePlain-of_AreNames [] a = tt
ArePlain-of_AreNames (e ∷ es) a = (ground (arith, a.0), ArePlain-of_AreNames es a.1)

split_by-join :
    (e : Bytes) (es : List Bytes)
    → ArePlain (e ∷ es)
    → split_by is_slash (join (e ∷ es) (codes "/")) ≡ e ∷ es
unfolding join ArePlain
split_by-join e [] a = split_by-plain e a.0
split_by-join e (f ∷ es) a =
    split_by-append is_slash e b'/' (join (f ∷ es) (codes "/")) refl
    ∙ ap (λ l. l ++ split_by is_slash (join (f ∷ es) (codes "/"))) (split_by-plain e a.0)
    ∙ ap (λ l. e ∷ l) (split_by-join f es a.1)

push_all-render :
    (r : Bool) (es : List Bytes)
    → ArePlain es
    → push_all r (split_by is_slash (render r es)) [] ≡ push_all r es []
unfolding push_all push render split_by join
push_all-render true [] a = refl
push_all-render false [] a = refl
push_all-render true (e ∷ es) a = ap (λ l. push_all true l []) (split_by-join e es a)
push_all-render false (e ∷ es) a = ap (λ l. push_all false l []) (split_by-join e es a)

is_rooted-render :
    (r : Bool) (es : List Bytes) (x : Bytes) → AreNames es → is_rooted (render r es ++ x) ≡ r
unfolding render has_prefix AreNames join
is_rooted-render true es x a = refl
is_rooted-render false [] x a = refl
is_rooted-render false ([] ∷ es) x a = ground (arith, a.0)
is_rooted-render false ((c ∷ e) ∷ []) x a = ground (arith, a.0)
is_rooted-render false ((c ∷ e) ∷ f ∷ es) x a = ground (arith, a.0)

render-some : (r : Bool) (es : List Bytes) → AreNames es → is_empty (render r es) ≡ false
unfolding render AreNames join
render-some true es a = refl
render-some false [] a = refl
render-some false ([] ∷ es) a = ground (arith, a.0)
render-some false ((c ∷ e) ∷ []) a = refl
render-some false ((c ∷ e) ∷ f ∷ es) a = refl

module _ (c : ℕ) (s t : Bytes) where
  -- The elements of the path, the last one first.
  acc : List Bytes
  acc = push_all (is_rooted (c ∷ s)) (split_by is_slash (c ∷ s)) []

  acc-AreNames : AreNames (reverse acc)
  unfolding acc AreNames
  acc-AreNames =
      All-reverse (λ e. (is_plain e && not (is_empty e)) ≡ true) acc
        (push_all-AreNames (is_rooted (c ∷ s)) (split_by is_slash (c ∷ s)) []
          (split_by-ArePlain (c ∷ s)) tt)

  push_all-clean : push_all (is_rooted (c ∷ s)) (split_by is_slash (clean (c ∷ s))) [] ≡ acc
  unfolding clean elements acc
  push_all-clean =
      push_all-render (is_rooted (c ∷ s)) (reverse acc)
        (ArePlain-of_AreNames (reverse acc) acc-AreNames)
      ∙ push_all-reverse (is_rooted (c ∷ s)) acc
          (push_all-IsStable (is_rooted (c ∷ s)) (split_by is_slash (c ∷ s)) [] tt)

  pub clean-some : is_empty (clean (c ∷ s)) ≡ false
  unfolding clean elements acc
  clean-some = render-some (is_rooted (c ∷ s)) (reverse acc) acc-AreNames

  -- A path may be cleaned before more is joined to it.
  pub clean-clean-append : clean (clean (c ∷ s) ++ b'/' ∷ t) ≡ clean ((c ∷ s) ++ b'/' ∷ t)
  unfolding clean elements acc has_prefix
  clean-clean-append =
      let r = is_rooted (c ∷ s) in
      let u = clean (c ∷ s) in
      let rooted : is_rooted (u ++ b'/' ∷ t) ≡ r =
        is_rooted-render r (reverse acc) (b'/' ∷ t) acc-AreNames in
      ap (λ b. render b (reverse (push_all b (split_by is_slash (u ++ b'/' ∷ t)) []))) rooted
      ∙ ap (λ l. render r (reverse l))
          (ap (λ l. push_all r l []) (split_by-append is_slash u b'/' t refl)
            ∙ push_all-append r (split_by is_slash u) (split_by is_slash t) []
            ∙ ap (push_all r (split_by is_slash t)) push_all-clean
            ∙ sym (push_all-append r (split_by is_slash (c ∷ s)) (split_by is_slash t) [])
            ∙ ap (λ l. push_all r l []) (sym (split_by-append is_slash (c ∷ s) b'/' t refl)))

-- `filepath.Join` may be called in two steps.
pub join_path-join_path :
    (c : ℕ) (s name t : Bytes)
    → join_path (join_path ((c ∷ s) ∷ name ∷ []) ∷ t ∷ []) ≡ join_path ((c ∷ s) ∷ name ∷ t ∷ [])
unfolding join_path join
join_path-join_path c s name t =
    let rest = s ++ (b'/' ∷ name) in
    ap (λ b. if b then join_path (t ∷ []) else clean (clean (c ∷ rest) ++ (b'/' ∷ t)))
      (clean-some c rest [])
    ∙ clean-clean-append c rest t
    ∙ ap (λ l. clean (c ∷ l)) (append_assoc s (b'/' ∷ name) (b'/' ∷ t))
