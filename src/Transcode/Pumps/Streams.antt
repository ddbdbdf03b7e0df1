-- ===== src/Transcode/Pumps/Streams.antt =====
-- What the video pump writes.
use webrtc_hls_pipeline.Prelude.{
  take-append, ℕ, zero, suc, ◌+◌, ◌≤◌, ◌<◌, ◌≡◌, refl, ap, sym, subst, ◌∙◌, false, Option, none,
  some, List, [], ◌∷◌, ◌++◌, length, length-append, ltb, leb, take, if◌then◌else◌, arith,
  Option-cases, Bool-cases, inl, inr,
}
use mathlib.Core.List.{append_assoc, append-nil}
use webrtc_hls_pipeline.Transcode.Pumps.{
  read_error, write_error, out_of_fuel, Pumped, Popped, drained, broken, starved, pop_samples,
  pump_video,
}

module _ {ℓ} {A : Type ℓ} where
  take-all : (n : ℕ) (xs : List A) → length xs ≤ n → take n xs ≡ xs
  take-all zero [] h = refl
  take-all (suc n) [] h = refl
  take-all zero (x ∷ xs) h = absurd (omega (arith, h))
  take-all (suc n) (x ∷ xs) h = ap (λ l. x ∷ l) (take-all n xs (omega (arith, h)))

take-append-long {ℓ} :
    {A : Type ℓ} (n : ℕ) (xs ys : List A) → n ≤ length xs → take n (xs ++ ys) ≡ take n xs
take-append-long zero xs ys h = refl
take-append-long (suc n) [] ys h = absurd (omega (arith, h))
take-append-long (suc n) (x ∷ xs) ys h =
    ap (λ l. x ∷ l) (take-append-long n xs ys (omega (arith, h)))

module _ {P B S : Type 0} (push : P → B → B) (pop : B → Option S × B) where
  -- The samples that a builder gives until it has none, and the builder then.
  pub data Yields : B → List S → B → Type 0 where
    no_more : (b : B) → (pop b).0 ≡ none → Yields b [] (pop b).1
    gives :
        (b : B) (s : S) (ss : List S) (b' : B)
        → (pop b).0 ≡ some s
        → Yields (pop b).1 ss b'
        → Yields b (s ∷ ss) b'

  -- The samples that a builder gives when packets are pushed one after another.
  pub data Streams : B → List P → List S → Type 0 where
    over : (b : B) → Streams b [] []
    after :
        (b : B) (pkt : P) (ss : List S) (b' : B) (pkts : List P) (ts : List S)
        → Yields (push pkt b) ss b'
        → Streams b' pkts ts
        → Streams b (pkt ∷ pkts) (ss ++ ts)

  module _ (room : ℕ) where
    -- The inner loop ends with the samples written as far as FFmpeg takes them.
    abbrev popped : B → List S → Popped B S
    popped b' written =
        if leb (length written) room then drained b' written else broken (take room written)

    popped-fits : (b' : B) (w : List S) → length w ≤ room → drained b' w ≡ popped b' w
    popped-fits b' w h = ground (arith, h)

    popped-full :
        (b' : B) (w : List S) (s : S) (ss : List S)
        → length w ≡ room
        → broken w ≡ popped b' (w ++ s ∷ ss)
    popped-full b' w s ss h =
        let longer : leb (length (w ++ s ∷ ss)) room ≡ false =
          ground (arith, length-append w (s ∷ ss), h) in
        ap broken (sym (take-append w (s ∷ ss)) ∙ ap (λ n. take n (w ++ s ∷ ss)) h)
        ∙ ap (λ b. if b then drained b' (w ++ s ∷ ss) else broken (take room (w ++ s ∷ ss)))
            (sym longer)

    pop_samples-popped :
        (n : ℕ) {b : B} {ss : List S} {b' : B} (w : List S)
        → Yields b ss b'
        → length ss < n
        → length w ≤ room
        → pop_samples push pop room n b w ≡ popped b' (w ++ ss)
    unfolding pop_samples
    pop_samples-popped zero w y more fits = absurd (omega (arith, more))
    pop_samples-popped (suc n) w (no_more b e) more fits =
        ap
          (λ o. elim o [
            | none ↦ drained (pop b).1 w
            | some s ↦
                if ltb (length w) room
                then pop_samples push pop room n (pop b).1 (w ++ s ∷ [])
                else broken w
          ])
          e
        ∙ popped-fits (pop b).1 w fits
        ∙ ap (popped (pop b).1) (sym (append-nil w))
    pop_samples-popped (suc n) w (gives b s ss1 b' e y) more fits =
        ap
          (λ o. elim o [
            | none ↦ drained (pop b).1 w
            | some s ↦
                if ltb (length w) room
                then pop_samples push pop room n (pop b).1 (w ++ s ∷ [])
                else broken w
          ])
          e
        ∙ elim (Bool-cases (ltb (length w) room)) [
          | inl lt ↦
              ap (λ c. if c then pop_samples push pop room n (pop b).1 (w ++ s ∷ []) else broken w)
                lt
              ∙ pop_samples-popped n (w ++ s ∷ []) y (omega (arith, more))
                  (ground (arith, lt, length-append w (s ∷ [])))
              ∙ ap (popped b') (append_assoc w (s ∷ []) ss1)
          | inr ge ↦
              ap (λ c. if c then pop_samples push pop room n (pop b).1 (w ++ s ∷ []) else broken w)
                ge
              ∙ popped-full b' w s ss1 (ground (arith, ge, fits))
        ]

  -- The builder holds a number of samples at most, and fewer once it gave one.
  module _ (room : ℕ) (held : B → ℕ)
      (shrinks : (b : B) (s : S) → (pop b).0 ≡ some s → held (pop b).1 < held b) where
    yields : (n : ℕ) (b : B) → held b ≤ n → (ss : List S) × (b' : B) × Yields b ss b'
    yields zero b h = elim (Option-cases (pop b).0) [
      | inl e ↦ ([], (pop b).1, no_more b e)
      | inr (s, e) ↦ absurd (omega (arith, h, shrinks b s e))
    ]
    yields (suc n) b h = elim (Option-cases (pop b).0) [
      | inl e ↦ ([], (pop b).1, no_more b e)
      | inr (s, e) ↦
          let (ss, b', y) = yields n (pop b).1 (omega (arith, h, shrinks b s e)) in
          (s ∷ ss, b', gives b s ss b' e y)
    ]

    length-Yields : {b : B} {ss : List S} {b' : B} → Yields b ss b' → length ss ≤ held b
    length-Yields (no_more b e) = omega arith
    length-Yields (gives b s ss b' e y) = omega (arith, length-Yields y, shrinks b s e)

    fuel : B → ℕ
    fuel b = suc (held b)

    streams : (pkts : List P) (b : B) → (ts : List S) × Streams b pkts ts
    streams [] b = ([], over b)
    streams (pkt ∷ pkts) b =
        let (ss, b', y) = yields (held (push pkt b)) (push pkt b) (omega arith) in
        let (ts, t) = streams pkts b' in (ss ++ ts, after b pkt ss b' pkts ts y t)

    IsPumped : List S → Pumped S → Type 0
    IsPumped ts r =
        (r.written ≡ take room ts)
        × (r.ending ≡ (if leb (length ts) room then read_error else write_error))

    pump_video-written :
        (pkts : List P) {b : B} {ts : List S} (k : ℕ) (w : List S)
        → Streams b pkts ts
        → length w ≤ room
        → IsPumped (w ++ ts) (pump_video push pop room fuel pkts b k w)
    unfolding pump_video IsPumped fuel
    pump_video-written [] k w (over b) fits =
        subst (λ l. IsPumped l (pump_video push pop room fuel [] b k w)) (sym (append-nil w))
          (sym (take-all room w fits), ground (arith, fits))
    pump_video-written (pkt ∷ pkts) k w (after b _ ss b' _ ts y t) fits =
        let popping =
          pop_samples-popped room (fuel (push pkt b)) w y (omega (arith, length-Yields y)) fits in
        let next : Popped B S → Pumped S = λ o. elim o [
          | drained b' written' ↦ pump_video push pop room fuel pkts b' (k + 1) written'
          | broken written' ↦ record { ending = write_error; packets = k + 1; written = written' }
          | starved written' ↦ record { ending = out_of_fuel; packets = k + 1; written = written' }
        ] in
        subst (λ o. IsPumped (w ++ (ss ++ ts)) (next o)) (sym popping)
          (elim (Bool-cases (leb (length (w ++ ss)) room)) [
            | inl le ↦
                subst
                  (λ c.
                    IsPumped (w ++ (ss ++ ts))
                      (next (if c then drained b' (w ++ ss) else broken (take room (w ++ ss)))))
                  (sym le)
                  (subst (λ l. IsPumped l (pump_video push pop room fuel pkts b' (k + 1) (w ++ ss)))
                    (append_assoc w ss ts)
                    (pump_video-written pkts (k + 1) (w ++ ss) t (ground (arith, le))))
            | inr gt ↦
                subst
                  (λ c.
                    IsPumped (w ++ (ss ++ ts))
                      (next (if c then drained b' (w ++ ss) else broken (take room (w ++ ss)))))
                  (sym gt)
                  (
                    sym (
                        ap (take room) (sym (append_assoc w ss ts))
                        ∙ take-append-long room (w ++ ss) ts (ground (arith, gt))),
                    ground (
                      arith,
                      gt,
                      length-append w ss,
                      length-append w (ss ++ ts),
                      length-append ss ts,
                    ),
                  )
          ])

-- Let a measure of the sample builder fall whenever its Pop gives a sample. Then `pumpVideo` ends for
-- any packets: FFmpeg has the samples that the builder gives for the packets, in order, all of them
-- or the first `room` that it takes, and the pump ends with the error of the read or of the write
-- accordingly.
pub pump_video-Streams :
    {P B S : Type 0} (push : P → B → B) (pop : B → Option S × B) (room : ℕ) (held : B → ℕ)
    (pkts : List P) (b : B)
    → ((b : B) (s : S) → (pop b).0 ≡ some s → held (pop b).1 < held b)
    → let r = pump_video push pop room (λ b. suc (held b)) pkts b 0 [] in
      (ts : List S) × Streams push pop b pkts ts
      × (r.written ≡ take room ts)
      × (r.ending ≡ (if leb (length ts) room then read_error else write_error))
unfolding IsPumped fuel
pump_video-Streams push pop room held pkts b shrinks =
    let (ts, t) = streams push pop room held shrinks pkts b in
    let (written, ending) =
      pump_video-written push pop room held shrinks pkts 0 [] t (omega arith) in
    (ts, t, written, ending)
