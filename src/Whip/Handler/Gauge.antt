-- ===== src/Whip/Handler/Gauge.antt =====
-- Histories of connection states in internal/whip/handler.go: what runs once, and the gauge.
use mathlib.Core.Path.{fun_ext}
use mathlib.Core.List.{append-nil, append_assoc}
use webrtc_hls_pipeline.Prelude.{
  ℕ, ◌+◌, ◌≡◌, refl, Bool, true, false, not, ◌&&◌, List, [], ◌∷◌, ◌++◌, map, arith, any, count,
  length, length-append, store, sym, if◌then◌else◌, ◌==◌, of_if,
}
use webrtc_hls_pipeline.Prelude.Int.{pos, ◌+ℤ◌, int_laws, parts_of_eq}
use webrtc_hls_pipeline.Whip.Handler.{
  Handler, PeerState, new, connecting, connected, change_state, on_connected, on_disconnected,
  disconnect_once,
}

-- One change of state of one peer connection.
pub record Change : Type 0 where
  pub up : Bool
  pub redis_up : Bool
  pub now : ℕ
  pub stream : ℕ
  pub state : PeerState

unfoldable pub apply : Change → Handler → Handler
apply c h = change_state c.up c.redis_up c.now c.stream c.state h

unfoldable pub run : List Change → Handler → Handler
unfolding apply
run [] h = h
run (c ∷ cs) h = run cs (apply c h)

abbrev pub is_terminal : PeerState → Bool
is_terminal new = false
is_terminal connecting = false
is_terminal connected = false
is_terminal _ = true

abbrev pub is_connected : PeerState → Bool
is_connected connected = true
is_connected _ = false

abbrev pub ends : ℕ → Change → Bool
ends a c = c.stream == a && is_terminal c.state

-- The streams that reach a terminal state, each where it first does, given those that had.
pub firsts : (ℕ → Bool) → List Change → List ℕ
firsts over [] = []
firsts over (c ∷ cs) =
    let rest = firsts (store c.stream true over) cs in
    let same = firsts over cs in
    if is_terminal c.state then (if over c.stream then rest else c.stream ∷ rest) else same

-- A stream is among them at most once: exactly if it was not over and some change ends it.
pub count-firsts :
    (a : ℕ) (over : ℕ → Bool) (cs : List Change)
    → count a (firsts over cs) ≡ (if over a then 0 else if any (ends a) cs then 1 else 0)
unfolding firsts
count-firsts a over [] = ground arith
count-firsts a over (c ∷ cs) =
    ground (arith, count-firsts a over cs, count-firsts a (store c.stream true over) cs)

abbrev pub over_in : Handler → ℕ → Bool
over_in h a = (h.streams a).disconnected

-- The arguments of the disconnect callback.
abbrev pub caller : Handler → ℕ → ℕ × ℕ
caller h a = ((h.streams a).session_id, (h.streams a).tenant_id)

abbrev pub connects : List Change → ℕ
connects [] = 0
connects (c ∷ cs) = (if is_connected c.state then 1 else 0) + connects cs

-- The gauge and the calls of the callback, taken together, after a step that adds `n`.
abbrev Balanced : ℕ → Handler → Handler → Type 0
Balanced n h h' =
    h'.streams_active +ℤ pos (length h'.disconnects)
    ≡ h.streams_active +ℤ pos (n + length h.disconnects)

disconnect_once-Balanced :
    (up redis_up : Bool) (now a : ℕ) (h : Handler)
    → Balanced 0 h (disconnect_once up redis_up now a h)
unfolding disconnect_once
disconnect_once-Balanced up redis_up now a h =
    of_if (Balanced 0 h) (h.streams a).disconnected h (on_disconnected up redis_up now a h)
      (λ _. omega int_laws) (λ _. omega (int_laws, length-append h.disconnects (caller h a ∷ [])))

change_state-Balanced :
    (up redis_up : Bool) (now a : ℕ) (st : PeerState) (h : Handler)
    → Balanced (if is_connected st then 1 else 0) h (change_state up redis_up now a st h)
unfolding change_state
change_state-Balanced up redis_up now a new h = omega int_laws
change_state-Balanced up redis_up now a connecting h = omega int_laws
change_state-Balanced up redis_up now a connected h = omega int_laws
change_state-Balanced up redis_up now a _ h = disconnect_once-Balanced up redis_up now a h

-- Over any history the gauge grows by one with each `Connected` and falls by one with each call of
-- the disconnect callback.
pub gauge-run :
    (cs : List Change) (h : Handler)
    → (run cs h).streams_active +ℤ pos (length (run cs h).disconnects)
      ≡ h.streams_active +ℤ pos (connects cs + length h.disconnects)
unfolding run apply
gauge-run [] h = omega int_laws
gauge-run (c ∷ cs) h = omega (
  int_laws,
  parts_of_eq _ _ (gauge-run cs (apply c h)),
  parts_of_eq _ _ (change_state-Balanced c.up c.redis_up c.now c.stream c.state h),
)

-- What the callback is told of a stream does not change, and a stream is over exactly if it was or
-- the change ends it.
change_state_flags :
    (up redis_up : Bool) (now a b : ℕ) (st : PeerState) (h : Handler)
    → (caller (change_state up redis_up now a st h) b ≡ caller h b)
      × (over_in (change_state up redis_up now a st h) b
          ≡ (if is_terminal st then store a true (over_in h) b else over_in h b))
unfolding change_state
change_state_flags up redis_up now a b new h = (refl, refl)
change_state_flags up redis_up now a b connecting h = (refl, refl)
change_state_flags up redis_up now a b connected h = unfold on_connected in (refl, refl)
change_state_flags up redis_up now a b _ h = unfold disconnect_once in (ground arith, ground arith)

change_state_calls :
    (up redis_up : Bool) (now a : ℕ) (st : PeerState) (h : Handler)
    → (change_state up redis_up now a st h).disconnects
      ≡ h.disconnects ++ (if is_terminal st && not (over_in h a) then caller h a ∷ [] else [])
unfolding change_state
change_state_calls up redis_up now a new h = sym (append-nil _)
change_state_calls up redis_up now a connecting h = sym (append-nil _)
change_state_calls up redis_up now a connected h = unfold on_connected in sym (append-nil _)
change_state_calls up redis_up now a _ h =
    unfold disconnect_once in ground (arith, append-nil h.disconnects)

choose_ext :
    (t : Bool) (k f g : ℕ → Bool)
    → ((b : ℕ) → k b ≡ (if t then f b else g b))
    → k ≡ (if t then f else g)
choose_ext true k f g e = fun_ext e
choose_ext false k f g e = fun_ext e

over_in-apply :
    (c : Change) (h : Handler)
    → over_in (apply c h)
      ≡ (if is_terminal c.state then store c.stream true (over_in h) else over_in h)
unfolding apply
over_in-apply c h =
    choose_ext (is_terminal c.state) _ _ _
      λ b. (change_state_flags c.up c.redis_up c.now c.stream b c.state h).1

caller-apply : (c : Change) (h : Handler) → caller (apply c h) ≡ caller h
unfolding apply
caller-apply c h = fun_ext λ b. (change_state_flags c.up c.redis_up c.now c.stream b c.state h).0

calls-apply :
    (c : Change) (h : Handler)
    → (apply c h).disconnects
      ≡ h.disconnects
        ++ (if is_terminal c.state && not (over_in h c.stream) then caller h c.stream ∷ [] else [])
unfolding apply
calls-apply c h = change_state_calls c.up c.redis_up c.now c.stream c.state h

calls-firsts :
    (t o : Bool) (f : ℕ → ℕ × ℕ) (a : ℕ) (calls : List (ℕ × ℕ)) (ended over : ℕ → Bool)
    (cs : List Change)
    → (calls ++ (if t && not o then f a ∷ [] else []))
        ++ map f (firsts (if t then ended else over) cs)
      ≡ calls
        ++ map f
            (if t then (if o then firsts ended cs else a ∷ firsts ended cs) else firsts over cs)
calls-firsts true true f a calls ended over cs = simp append-nil
calls-firsts true false f a calls ended over cs = simp append_assoc
calls-firsts false o f a calls ended over cs = simp append-nil

-- The disconnect callback is called once for each stream that reaches a terminal state, in the
-- order in which they first do, with the stream's session and tenant.
pub disconnects-run :
    (cs : List Change) (h : Handler)
    → (run cs h).disconnects ≡ h.disconnects ++ map (caller h) (firsts (over_in h) cs)
unfolding run firsts
disconnects-run [] h = sym (append-nil _)
disconnects-run (c ∷ cs) h =
    rw (disconnects-run cs (apply c h), caller-apply c h, over_in-apply c h, calls-apply c h)
      (calls-firsts (is_terminal c.state) (over_in h c.stream) (caller h) c.stream h.disconnects
        (store c.stream true (over_in h)) (over_in h) cs)
