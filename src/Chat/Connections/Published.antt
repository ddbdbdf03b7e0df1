-- ===== src/Chat/Connections/Published.antt =====
-- What a connection publishes.
use webrtc_hls_pipeline.Prelude.{
  ℕ, ◌≡◌, ◌≢◌, eq_iff, refl, ap, sym, subst, ◌∙◌, String, Bool, true, false, not, ◌&&◌, Option,
  none, some, List, [], ◌∷◌, ◌++◌, arith, if◌then◌else◌, ◌==◌, str_eq, AllPass, Option-cases,
  Bool-cases, inl, inr,
}
use mathlib.Core.List.{append_assoc, append-nil}
use webrtc_hls_pipeline.Chat.History.{Message}
use webrtc_hls_pipeline.Chat.Hub.{Client}
use webrtc_hls_pipeline.Chat.Connections.{
  Incoming, Frame, Feed, read_frame, publish, publish_some, read_pump, or_message,
}

-- A message with a content and a type that bears the session and the identity of a connection.
abbrev pub is_from : ℕ → Client → Message → Bool
is_from session_id client m =
    m.session_id == session_id
    && (m.user_id == client.user_id
        && (m.tenant_id == client.tenant_id
            && (not (str_eq m.content "") && not (str_eq m.type ""))))

abbrev pub sent_with : Bool → Option Message → List Message → List Message
sent_with redis_up none rest = rest
sent_with true (some m) rest = m ∷ rest
sent_with false (some m) rest = rest

-- The messages of the frames that hold one, where Redis answered.
unfoldable pub sent : (String → Option Incoming) → ℕ → Client → List Frame → List Message
unfolding read_frame
sent unmarshal session_id client [] = []
sent unmarshal session_id client (frame ∷ frames) =
    sent_with frame.redis_up (read_frame unmarshal session_id client frame)
      (sent unmarshal session_id client frames)

or_message-some : (t : String) → not (str_eq (or_message t) "") ≡ true
or_message-some t = elim (Bool-cases (str_eq t "")) [
  | inl y ↦ subst (λ b. not (str_eq (if b then "message" else t) "") ≡ true) (sym y) refl
  | inr n ↦ subst (λ b. not (str_eq (if b then "message" else t) "") ≡ true) (sym n) (ap not n)
]

sent_with-passes :
    (p : Message → Bool) (redis_up : Bool) (o : Option Message) (rest : List Message)
    → ((m : Message) → o ≡ some m → p m ≡ true)
    → AllPass p rest
    → AllPass p (sent_with redis_up o rest)
sent_with-passes p redis_up none rest f a = a
sent_with-passes p true (some m) rest f a = (f m refl, a)
sent_with-passes p false (some m) rest f a = a

publish_some-adds :
    (redis_up : Bool) (o : Option Message) (f : Feed) (rest : List Message)
    → (publish_some redis_up o f).published ++ rest ≡ f.published ++ sent_with redis_up o rest
unfolding publish
publish_some-adds redis_up none f rest = refl
publish_some-adds true (some m) f rest = append_assoc f.published (m ∷ []) rest
publish_some-adds false (some m) f rest = refl

module _ (unmarshal : String → Option Incoming) (session_id : ℕ) (client : Client) where
  read_frame-passes :
      (frame : Frame) (m : Message)
      → read_frame unmarshal session_id client frame ≡ some m
      → is_from session_id client m ≡ true
  unfolding read_frame
  read_frame-passes frame m e = elim (Option-cases (unmarshal frame.bytes)) [
    | inl n ↦ ground (arith, e, n)
    | inr (incoming, y) ↦ ground (arith, e, y, or_message-some incoming.type)
  ]

  sent-passes :
      (frames : List Frame)
      → AllPass (is_from session_id client) (sent unmarshal session_id client frames)
  unfolding sent
  sent-passes [] = tt
  sent-passes (frame ∷ frames) =
      sent_with-passes (is_from session_id client) frame.redis_up
        (read_frame unmarshal session_id client frame) (sent unmarshal session_id client frames)
        (read_frame-passes frame) (sent-passes frames)

  read_pump-adds :
      (frames : List Frame) (f : Feed)
      → (read_pump unmarshal session_id client frames f).published
        ≡ f.published ++ sent unmarshal session_id client frames
  unfolding read_pump sent
  read_pump-adds [] f = sym (append-nil f.published)
  read_pump-adds (frame ∷ frames) f =
      let message = read_frame unmarshal session_id client frame in
      read_pump-adds frames (publish_some frame.redis_up message f)
      ∙ publish_some-adds frame.redis_up message f (sent unmarshal session_id client frames)

sent_with-down :
    (redis_up : Bool) (o : Option Message) (rest : List Message)
    → redis_up ≡ false
    → sent_with redis_up o rest ≡ rest
sent_with-down redis_up none rest e = refl
sent_with-down true (some m) rest e = absurd (ground (arith, e))
sent_with-down false (some m) rest e = refl

-- The message of a frame of a connection, with a content and a type.
abbrev pub message : ℕ → Client → Frame → String → String → Message
message session_id client frame content type = record {
  id = frame.id;
  session_id = session_id;
  tenant_id = client.tenant_id;
  user_id = client.user_id;
  username = client.username;
  content = content;
  type = type;
  created_at = frame.now;
}

-- Which messages the frames of a connection send: a frame without JSON of a message, without a
-- content, or for which Redis fails sends none, and a message without a type gets the type "message".
pub data Sends (unmarshal : String → Option Incoming) (session_id : ℕ) (client : Client)
    : List Frame → List Message → Type 0 where
  ends : Sends unmarshal session_id client [] []
  garbled :
      (f : Frame) (fs : List Frame) (ms : List Message)
      → unmarshal f.bytes ≡ none
      → Sends unmarshal session_id client fs ms
      → Sends unmarshal session_id client (f ∷ fs) ms
  empty :
      (f : Frame) (i : Incoming) (fs : List Frame) (ms : List Message)
      → unmarshal f.bytes ≡ some i
      → i.content ≡ ""
      → Sends unmarshal session_id client fs ms
      → Sends unmarshal session_id client (f ∷ fs) ms
  unsent :
      (f : Frame) (fs : List Frame) (ms : List Message)
      → f.redis_up ≡ false
      → Sends unmarshal session_id client fs ms
      → Sends unmarshal session_id client (f ∷ fs) ms
  untyped :
      (f : Frame) (i : Incoming) (fs : List Frame) (ms : List Message)
      → unmarshal f.bytes ≡ some i
      → i.content ≢ ""
      → i.type ≡ ""
      → f.redis_up ≡ true
      → Sends unmarshal session_id client fs ms
      → Sends unmarshal session_id client
          (f ∷ fs)
          (message session_id client f i.content "message" ∷ ms)
  typed :
      (f : Frame) (i : Incoming) (fs : List Frame) (ms : List Message)
      → unmarshal f.bytes ≡ some i
      → i.content ≢ ""
      → i.type ≢ ""
      → f.redis_up ≡ true
      → Sends unmarshal session_id client fs ms
      → Sends unmarshal session_id client
          (f ∷ fs)
          (message session_id client f i.content i.type ∷ ms)

module _ (unmarshal : String → Option Incoming) (session_id : ℕ) (client : Client)
    (frame : Frame) where
  read_frame_garbled :
      unmarshal frame.bytes ≡ none → read_frame unmarshal session_id client frame ≡ none
  unfolding read_frame
  read_frame_garbled e = ground (arith, e)

  read_frame_empty :
      (i : Incoming)
      → unmarshal frame.bytes ≡ some i
      → i.content ≡ ""
      → read_frame unmarshal session_id client frame ≡ none
  unfolding read_frame
  read_frame_empty i e c = ground (arith, e, c, eq_iff i.content "")

  read_frame_untyped :
      (i : Incoming)
      → unmarshal frame.bytes ≡ some i
      → i.content ≢ ""
      → i.type ≡ ""
      → read_frame unmarshal session_id client frame
        ≡ some (message session_id client frame i.content "message")
  unfolding read_frame
  read_frame_untyped i e c t = ground (arith, e, c, t, eq_iff i.content "", eq_iff i.type "")

  read_frame_typed :
      (i : Incoming)
      → unmarshal frame.bytes ≡ some i
      → i.content ≢ ""
      → i.type ≢ ""
      → read_frame unmarshal session_id client frame
        ≡ some (message session_id client frame i.content i.type)
  unfolding read_frame
  read_frame_typed i e c t = ground (arith, e, c, t, eq_iff i.content "", eq_iff i.type "")

  frame-Sends :
      (fs : List Frame) (ms : List Message)
      → Sends unmarshal session_id client fs ms
      → Sends unmarshal session_id client
          (frame ∷ fs)
          (sent_with frame.redis_up (read_frame unmarshal session_id client frame) ms)
  frame-Sends fs ms k =
      let by : (m : Message)
          → read_frame unmarshal session_id client frame ≡ some m
          → frame.redis_up ≡ true
          → Sends unmarshal session_id client (frame ∷ fs) (m ∷ ms)
          → Sends unmarshal session_id client (frame ∷ fs)
              (sent_with frame.redis_up (read_frame unmarshal session_id client frame) ms) =
        λ m e up.
          subst (λ x. Sends unmarshal session_id client (frame ∷ fs) x) (ground (arith, e, up)) in
      let skip : sent_with frame.redis_up (read_frame unmarshal session_id client frame) ms ≡ ms
          → Sends unmarshal session_id client (frame ∷ fs) ms
          → Sends unmarshal session_id client (frame ∷ fs)
              (sent_with frame.redis_up (read_frame unmarshal session_id client frame) ms) =
        λ e. subst (λ x. Sends unmarshal session_id client (frame ∷ fs) x) (sym e) in
      elim (Bool-cases frame.redis_up) [
        | inr down ↦
            skip
              (sent_with-down frame.redis_up (read_frame unmarshal session_id client frame) ms down)
              (unsent frame fs ms down k)
        | inl up ↦ elim (Option-cases (unmarshal frame.bytes)) [
          | inl n ↦ skip (ground (arith, read_frame_garbled n)) (garbled frame fs ms n k)
          | inr (i, e) ↦ elim (Bool-cases (str_eq i.content "")) [
            | inl c ↦
                let c' = (eq_iff i.content "").0 c in
                skip (ground (arith, read_frame_empty i e c')) (empty frame i fs ms e c' k)
            | inr c ↦
                let c' : i.content ≢ "" = λ x. absurd (ground (arith, c, x, eq_iff i.content "")) in
                elim (Bool-cases (str_eq i.type "")) [
                  | inl t ↦
                      let t' = (eq_iff i.type "").0 t in
                      by _ (read_frame_untyped i e c' t') up (untyped frame i fs ms e c' t' up k)
                  | inr t ↦
                      let t' : i.type ≢ "" = λ x. absurd (ground (arith, t, x, eq_iff i.type "")) in
                      by _ (read_frame_typed i e c' t') up (typed frame i fs ms e c' t' up k)
                ]
          ]
        ]
      ]

sent-Sends :
    (unmarshal : String → Option Incoming) (session_id : ℕ) (client : Client) (frames : List Frame)
    → Sends unmarshal session_id client frames (sent unmarshal session_id client frames)
unfolding sent
sent-Sends unmarshal session_id client [] = ends
sent-Sends unmarshal session_id client (frame ∷ frames) =
    frame-Sends unmarshal session_id client frame frames (sent unmarshal session_id client frames)
      (sent-Sends unmarshal session_id client frames)

-- A connection publishes a list of messages in the order in which their frames are read: none for a
-- frame whose JSON is no message or has no content, and none where Redis fails; otherwise one with the
-- content of the frame and its type, or the type "message" where it has none. Whatever the frames
-- hold, each bears the session of the connection and the user and tenant of its client, and has a
-- content and a type.
pub read_pump-published :
    (unmarshal : String → Option Incoming) (session_id : ℕ) (client : Client) (frames : List Frame)
    (f : Feed)
    → (ms : List Message) × ((read_pump unmarshal session_id client frames f).published
        ≡ f.published ++ ms)
      × Sends unmarshal session_id client frames ms
      × AllPass (is_from session_id client) ms
read_pump-published unmarshal session_id client frames f = (
  sent unmarshal session_id client frames,
  read_pump-adds unmarshal session_id client frames f,
  sent-Sends unmarshal session_id client frames,
  sent-passes unmarshal session_id client frames,
)
