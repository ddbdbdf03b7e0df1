-- ===== src/Chat/Connections/Stored.antt =====
-- Publishing on any connections, and the inserts, in any order.
use webrtc_hls_pipeline.Prelude.{
  ℕ, zero, suc, ◌+◌, ◌≤◌, ◌≡◌, refl, sym, subst, String, Bool, true, false, not, ◌&&◌, Option, none,
  some, List, [], ◌∷◌, ◌++◌, arith, if◌then◌else◌, ◌==◌, any, AllPass, All-append, length,
  length-append, get_elem?, Option-cases, Bool-cases, inl, inr,
}
use webrtc_hls_pipeline.Chat.History.{Message, is_message_type, insert_message}
use webrtc_hls_pipeline.Chat.Hub.{Client}
use webrtc_hls_pipeline.Chat.Connections.{
  Incoming, Frame, Feed, read_frame, publish, publish_some, note_insert, persist, persist_at,
  without,
}

-- A frame of a connection, or the goroutine of a pending message.
pub data Turn : Type 0 where
  receives : (session_id : ℕ) → Client → Frame → Turn
  stores : (i : ℕ) → (up session_exists : Bool) → Turn

unfoldable pub turn : (String → Option Incoming) → Turn → Feed → Feed
unfolding read_frame publish persist
turn unmarshal (receives session_id client frame) f =
    publish_some frame.redis_up (read_frame unmarshal session_id client frame) f
turn unmarshal (stores i up session_exists) f = persist i up session_exists f

unfoldable pub turns : (String → Option Incoming) → List Turn → Feed → Feed
unfolding turn
turns unmarshal [] f = f
turns unmarshal (t ∷ ts) f = turns unmarshal ts (turn unmarshal t f)

-- How many messages have an id.
abbrev pub count_id : ℕ → List Message → ℕ
count_id i [] = 0
count_id i (m ∷ ms) = (if m.id == i then 1 else 0) + count_id i ms

-- The messages published under an id are those that wait for their insert, are in the table or were
-- refused there; the table has an id once and messages of the three types, and the counter counts all
-- that is published.
pub record IsKept (f : Feed) : Type 0 where
  pub conserved :
      (i : ℕ)
      → count_id i f.published ≡ count_id i f.pending + count_id i f.table + count_id i f.refused
  pub once : (i : ℕ) → count_id i f.table ≤ 1
  pub typed : AllPass (λ m. is_message_type m.type) f.table
  pub counted : length f.published ≤ f.counted

count_id-append :
    (i : ℕ) (xs ys : List Message) → count_id i (xs ++ ys) ≡ count_id i xs + count_id i ys
count_id-append i [] ys = ground arith
count_id-append i (x ∷ xs) ys = ground (arith, count_id-append i xs ys)

count_id-without :
    (i j : ℕ) (xs : List Message) (m : Message)
    → get_elem? xs j ≡ some m
    → count_id i xs ≡ (if m.id == i then 1 else 0) + count_id i (without j xs)
unfolding without
count_id-without i j [] m e = ground (arith, e)
count_id-without i zero (x ∷ xs) m e = ground (arith, e)
count_id-without i (suc j) (x ∷ xs) m e = ground (arith, count_id-without i j xs m e)

count_id-any : (i : ℕ) (xs : List Message) → any (λ m. m.id == i) xs ≡ false → count_id i xs ≡ 0
count_id-any i [] e = refl
count_id-any i (x ∷ xs) e = ground (arith, e, count_id-any i xs)

publish_some-IsKept :
    (redis_up : Bool) (o : Option Message) (f : Feed)
    → IsKept f
    → IsKept (publish_some redis_up o f)
unfolding publish
publish_some-IsKept redis_up none f k = k
publish_some-IsKept true (some m) f k = record {
  conserved = λ i. omega (
    arith,
    k.conserved i,
    count_id-append i f.published (m ∷ []),
    count_id-append i f.pending (m ∷ []),
  );
  once = k.once;
  typed = k.typed;
  counted = omega (arith, k.counted, length-append f.published (m ∷ []));
}
publish_some-IsKept false (some m) f k = record {
  conserved = k.conserved;
  once = k.once;
  typed = k.typed;
  counted = omega (arith, k.counted);
}

module _ (i : ℕ) (up session_exists : Bool) (f : Feed) (k : IsKept f) (m : Message)
    (e : get_elem? f.pending i ≡ some m) where
  -- The feed with the message taken out of those that wait.
  taken : Feed
  taken = record f { pending = without i f.pending }

  fits : Bool
  fits = up && (session_exists && (is_message_type m.type && not (any (λ n. n.id == m.id) f.table)))

  stored-IsKept : fits ≡ true → IsKept (record taken { table = f.table ++ m ∷ [] })
  unfolding fits taken
  stored-IsKept c =
      let is_new : any (λ n. n.id == m.id) f.table ≡ false = ground (arith, c) in
      let fine : is_message_type m.type ≡ true = ground (arith, c) in
      record {
        conserved = λ j. ground (
          arith,
          k.conserved j,
          count_id-without j i f.pending m e,
          count_id-append j f.table (m ∷ []),
        );
        once = λ j.
            ground (
              arith,
              k.once j,
              count_id-append j f.table (m ∷ []),
              count_id-any m.id f.table is_new,
            );
        typed = All-append (λ n. is_message_type n.type ≡ true) f.table (m ∷ []) k.typed (fine, tt);
        counted = k.counted;
      }

  refused-IsKept : IsKept (record taken { refused = f.refused ++ m ∷ [] })
  unfolding taken
  refused-IsKept = record {
    conserved = λ j. ground (
      arith,
      k.conserved j,
      count_id-without j i f.pending m e,
      count_id-append j f.refused (m ∷ []),
    );
    once = k.once;
    typed = k.typed;
    counted = k.counted;
  }

  noted-IsKept : IsKept (note_insert m (insert_message up session_exists m f.table) taken)
  unfolding insert_message fits taken
  noted-IsKept = elim (Bool-cases fits) [
    | inl y ↦
        subst
          (λ b.
            IsKept
              (note_insert m (if b then (f.table ++ m ∷ [], true) else (f.table, false)) taken))
          (sym y) (stored-IsKept y)
    | inr n ↦
        subst
          (λ b.
            IsKept
              (note_insert m (if b then (f.table ++ m ∷ [], true) else (f.table, false)) taken))
          (sym n) refused-IsKept
  ]

persist-IsKept :
    (i : ℕ) (up session_exists : Bool) (f : Feed)
    → IsKept f
    → IsKept (persist i up session_exists f)
unfolding persist taken
persist-IsKept i up session_exists f k =
    let after : Option Message → Type 0 = λ o. IsKept (persist_at o i up session_exists f) in
    elim (Option-cases (get_elem? f.pending i)) [
      | inl n ↦ subst after (sym n) k
      | inr (m, e) ↦ subst after (sym e) (noted-IsKept i up session_exists f k m e)
    ]

abbrev pub no_feed : Feed
no_feed = record { published = []; pending = []; table = []; refused = []; counted = 0 }

turns_from :
    (unmarshal : String → Option Incoming) (ts : List Turn) (f : Feed)
    → IsKept f
    → IsKept (turns unmarshal ts f)
unfolding turns
turns_from unmarshal [] f k = k
turns_from unmarshal (receives session_id client frame ∷ ts) f k =
    turns_from unmarshal ts (turn unmarshal (receives session_id client frame) f)
      (publish_some-IsKept frame.redis_up (read_frame unmarshal session_id client frame) f k)
turns_from unmarshal (stores i up session_exists ∷ ts) f k =
    turns_from unmarshal ts (turn unmarshal (stores i up session_exists) f)
      (persist-IsKept i up session_exists f k)

-- However the frames of all connections and the goroutines that store messages interleave, and
-- whatever PostgreSQL and Redis do: the messages published under an id are as many as those under it
-- that wait for their insert, are in the table, or were refused there; the table has no id twice and
-- only messages of the three types, so that a message of another type, though published, is never in
-- it; and the counter is at least the number of messages published.
pub turns-IsKept :
    (unmarshal : String → Option Incoming) (ts : List Turn) → IsKept (turns unmarshal ts no_feed)
turns-IsKept unmarshal ts =
    turns_from unmarshal ts no_feed
      (record { conserved = λ i. refl; once = λ i. omega arith; typed = tt; counted = omega arith })
