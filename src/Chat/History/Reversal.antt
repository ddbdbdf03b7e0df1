-- ===== src/Chat/History/Reversal.antt =====
-- The reversal loop of `GetHistory` reverses, and never goes out of range.
use webrtc_hls_pipeline.Prelude.{
  ℕ, zero, suc, ◌+◌, ◌-◌, ◌<◌, ◌≤◌, ◌≡◌, refl, ap, ◌∙◌, ◌&&◌, none, some, List, [], ◌∷◌, ◌++◌,
  reverse, arith, length, length-reverse, get_elem?, ltb, leb, if◌then◌else◌, ◌==◌, Bool-cases, inl,
  inr, ltb→lt,
}
use mathlib.Core.List.{reverse-cons}
use webrtc_hls_pipeline.Chat.History.{put, swap, reverse_loop, reversed}

module _ {A : Type 0} where
  get_elem?-append :
      (xs ys : List A) (k : ℕ)
      → get_elem? (xs ++ ys) k
        ≡ (if ltb k (length xs) then get_elem? xs k else get_elem? ys (k - length xs))
  get_elem?-append [] ys k = ground arith
  get_elem?-append (x ∷ xs) ys zero = ground arith
  get_elem?-append (x ∷ xs) ys (suc k) = ground (arith, get_elem?-append xs ys k)

  get_elem?-cons :
      (x : A) (xs : List A) (k : ℕ)
      → get_elem? (x ∷ xs) k ≡ (if k == 0 then some x else get_elem? xs (k - 1))
  get_elem?-cons x xs zero = refl
  get_elem?-cons x xs (suc k) = ground arith

  get_elem?-reverse :
      (xs : List A) (k : ℕ)
      → get_elem? (reverse xs) k
        ≡ (if ltb k (length xs) then get_elem? xs (length xs - 1 - k) else none)
  get_elem?-reverse [] k = ground arith
  get_elem?-reverse (x ∷ xs) k =
      ap (λ l. get_elem? l k) (reverse-cons x xs)
      ∙ get_elem?-append (reverse xs) (x ∷ []) k
      ∙ last_lem k (get_elem?-reverse xs k)
    where
      last_lem :
          (k : ℕ)
          → get_elem? (reverse xs) k
            ≡ (if ltb k (length xs) then get_elem? xs (length xs - 1 - k) else none)
          → (if ltb k (length (reverse xs))
              then get_elem? (reverse xs) k
              else get_elem? (x ∷ []) (k - length (reverse xs)))
            ≡ (if ltb k (suc (length xs))
                then get_elem? (x ∷ xs) (suc (length xs) - 1 - k)
                else none)
      last_lem k h = ground (
        arith,
        h,
        length-reverse xs,
        get_elem?-cons x xs (suc (length xs) - 1 - k),
        get_elem?-cons x [] (k - length xs),
      )

  lists_equal : (xs ys : List A) → ((k : ℕ) → get_elem? xs k ≡ get_elem? ys k) → xs ≡ ys
  lists_equal [] [] h = refl
  lists_equal [] (y ∷ ys) h = let e = h 0 in ground (arith, e)
  lists_equal (x ∷ xs) [] h = let e = h 0 in ground (arith, e)
  lists_equal (x ∷ xs) (y ∷ ys) h =
      let e = h 0 in let r = lists_equal xs ys (λ k. h (suc k)) in ground (arith, e, r)

  get_elem?-put :
      (i : ℕ) (x : A) (xs : List A) (k : ℕ)
      → get_elem? (put i x xs) k
        ≡ (if (k == i) && ltb i (length xs) then some x else get_elem? xs k)
  unfolding put
  get_elem?-put i x [] k = ground arith
  get_elem?-put zero x (y ∷ ys) zero = ground arith
  get_elem?-put zero x (y ∷ ys) (suc k) = ground arith
  get_elem?-put (suc i) x (y ∷ ys) zero = ground arith
  get_elem?-put (suc i) x (y ∷ ys) (suc k) = ground (arith, get_elem?-put i x ys k)

  length-put : (i : ℕ) (x : A) (xs : List A) → length (put i x xs) ≡ length xs
  unfolding put
  length-put i x [] = refl
  length-put zero x (y ∷ ys) = refl
  length-put (suc i) x (y ∷ ys) = ap suc (length-put i x ys)

  get_elem?-in : (xs : List A) (i : ℕ) → i < length xs → (x : A) × (get_elem? xs i ≡ some x)
  get_elem?-in [] i h = ground arith
  get_elem?-in (x ∷ xs) zero h = (x, refl)
  get_elem?-in (x ∷ xs) (suc i) h = get_elem?-in xs i (omega (arith, h))

  at_equal : (xs : List A) (a b : ℕ) → a ≡ b → get_elem? xs a ≡ get_elem? xs b
  at_equal xs a b e = ap (get_elem? xs) e

  get_elem?-out : (xs : List A) (k : ℕ) → length xs ≤ k → get_elem? xs k ≡ none
  get_elem?-out [] k h = refl
  get_elem?-out (x ∷ xs) zero h = ground arith
  get_elem?-out (x ∷ xs) (suc k) h = get_elem?-out xs k (omega (arith, h))

  -- What the loop leaves at each index.
  record IsFlipped (i j : ℕ) (xs ys : List A) : Type 0 where
    same_length : length ys ≡ length xs
    flipped :
        (k : ℕ)
        → get_elem? ys k ≡ (if leb i k && leb k j then get_elem? xs (i + j - k) else get_elem? xs k)

  swap_lem :
      (i j : ℕ) (xs : List A)
      → i < j
      → j < length xs
      → (ys : List A) × (swap i j xs ≡ some ys)
        × (length ys ≡ length xs)
        × ((k : ℕ)
            → get_elem? ys k ≡ (
                if k == i
                then get_elem? xs j
                else if k == j
                then get_elem? xs i
                else get_elem? xs k))
  unfolding swap
  swap_lem i j xs h g =
      let (x, ex) = get_elem?-in xs i (omega (arith, h, g)) in
      let (y, ey) = get_elem?-in xs j g in
      (
        put j x (put i y xs),
        ground (arith, ex, ey),
        length-put j x (put i y xs) ∙ length-put i y xs,
        λ k. ground (
          arith,
          ex,
          ey,
          get_elem?-put j x (put i y xs) k,
          get_elem?-put i y xs k,
          length-put i y xs,
        ),
      )

  reverse_loop_lem :
      (n i j : ℕ) (xs : List A)
      → i + j + 1 ≡ length xs
      → j < i + n
      → 1 ≤ n
      → (ys : List A) × (reverse_loop n i j xs ≡ some ys) × IsFlipped i j xs ys
  unfolding reverse_loop
  reverse_loop_lem zero i j xs e f g = ground arith
  reverse_loop_lem (suc n) i j xs e f g = elim (Bool-cases (ltb i j)) [
    | inr stop ↦ (
      xs,
      ground (arith, stop),
      record { same_length = refl; flipped = λ k. ground (arith, stop, at_equal xs (i + j - k) k) },
    )
    | inl y ↦
        let go = ltb→lt i j y in
        let (ys, es, ls, gs) = swap_lem i j xs (omega (arith, go)) (omega (arith, e)) in
        let (zs, ez, fz) =
          reverse_loop_lem n (i + 1) (j - 1) ys (omega (arith, e, ls, go)) (omega (arith, f, go))
            (omega (arith, f, go)) in
        (
          zs,
          ground (arith, y, es, ez),
          record {
            same_length = fz.same_length ∙ ls;
            flipped = λ k. ground (
              arith,
              y,
              fz.flipped k,
              gs k,
              gs (i + 1 + (j - 1) - k),
              at_equal xs (i + j - k) j,
              at_equal xs (i + j - k) i,
              at_equal xs (i + 1 + (j - 1) - k) (i + j - k),
            );
          },
        )
  ]

  -- The loop of `GetHistory` reverses any list: it neither goes out of range nor runs out of fuel.
  pub reversed-eq-reverse : (xs : List A) → reversed xs ≡ some (reverse xs)
  unfolding reversed
  reversed-eq-reverse [] = refl
  reversed-eq-reverse (x ∷ xs) =
      let n = length (x ∷ xs) - 1 in
      let (ys, e, f) =
        reverse_loop_lem (suc (length (x ∷ xs))) 0 n (x ∷ xs) (ground arith) (ground arith)
          (omega arith) in
      e
      ∙ ap some (
          lists_equal ys (reverse (x ∷ xs)) (λ k. ground (
            arith,
            f.flipped k,
            get_elem?-reverse (x ∷ xs) k,
            get_elem?-out (x ∷ xs) k,
            at_equal (x ∷ xs) (n - k) (0 + n - k),
          )))
