-- ===== src/Whip/Handler/Lifecycle.antt =====
-- The life of one stream in internal/whip/handler.go: its row, its events and its entry in the map.
use webrtc_hls_pipeline.Prelude.{
  ℕ, ◌≡◌, refl, ◌≢◌, String, Bool, true, false, Option, none, some, List, [], ◌∷◌, ◌++◌, arith, All,
  of_if,
}
use webrtc_hls_pipeline.Prelude.Int.{ℤ, pos, negsuc, ◌+ℤ◌, int_laws}
use webrtc_hls_pipeline.Events.{stream_started, stream_ended, publish}
use webrtc_hls_pipeline.Session.{Session, get_by_id, update_status, assign_status}
use webrtc_hls_pipeline.Session.Rules.{get_by_id-update_status, KeepsId-assign_status}
use webrtc_hls_pipeline.Session.Table.{find-update_where_self}
use webrtc_hls_pipeline.Whip.Handler.{
  Handler, PeerState, new, connecting, connected, change_state, on_connected, disconnect_once,
  get_stream_session, handle_delete_resource, response,
}
use webrtc_hls_pipeline.Whip.Handler.Gauge.{Change, apply, run, is_terminal}

-- The status that `GetByID` reads, if it finds the session.
abbrev pub status_of : ℕ → List Session → Option String
status_of i t = elim (get_by_id true i t) [ none ↦ none | some s ↦ some s.status ]

-- `Connected` at `t₁` and then a terminal state at `t₂`, while nothing else happens.
abbrev pub lived : ℕ → ℕ → ℕ → PeerState → Handler → Handler
lived a t₁ t₂ st h = change_state true true t₂ a st (change_state true true t₁ a connected h)

ended_row :
    (i t₁ t₂ : ℕ) (s : Session) (t : List Session)
    → get_by_id true i t ≡ some s
    → get_by_id true i
        (update_status true i "ended" t₂ (update_status true i "live" t₁ t).table).table
      ≡ some
          (record s { status = "ended"; started_at = some t₁; ended_at = some t₂; updated_at = t₂ })
unfolding get_by_id update_status
ended_row i t₁ t₂ s t e = rw (
  find-update_where_self i (assign_status "ended" t₂) _ (KeepsId-assign_status "ended" t₂),
  find-update_where_self i (assign_status "live" t₁) t (KeepsId-assign_status "live" t₁),
  e,
)

terminal_change :
    (up redis_up : Bool) (now a : ℕ) (st : PeerState) (h : Handler)
    → is_terminal st ≡ true
    → change_state up redis_up now a st h ≡ disconnect_once up redis_up now a h
unfolding change_state
terminal_change up redis_up now a new h k = cc
terminal_change up redis_up now a connecting h k = cc
terminal_change up redis_up now a connected h k = cc
terminal_change up redis_up now a _ h k = refl

up_down : (g : ℤ) → g +ℤ pos 1 +ℤ negsuc 0 ≡ g
up_down g = omega int_laws

-- What the stream at address `a` has left in `h'` since `h`, when it connected at `t₁` and ended at
-- `t₂`, and `s` was its row.
pub record HasLived (a t₁ t₂ : ℕ) (s : Session) (h h' : Handler) : Type 0 where
  pub row :
      get_by_id true (h.streams a).session_id h'.table
      ≡ some
          (record s { status = "ended"; started_at = some t₁; ended_at = some t₂; updated_at = t₂ })
  pub gauge : h'.streams_active ≡ h.streams_active
  pub events :
      h'.published
      ≡ (h.published
          ++ stream_started
              (h.streams a).session_id
              (h.streams a).tenant_id
              (h.streams a).teacher_id
            ∷ [])
        ++ stream_ended (h.streams a).session_id (h.streams a).tenant_id ∷ []
  pub callback :
      h'.disconnects ≡ h.disconnects ++ ((h.streams a).session_id, (h.streams a).tenant_id) ∷ []
  pub gone : get_stream_session (h.streams a).session_id h' ≡ none

-- A stream that connects and then disconnects, fails or closes, while PostgreSQL and Redis answer,
-- leaves its row ended with both times, the gauge as it was, one started and one ended event, one
-- more call of the disconnect callback, and no entry in the map.
pub lived_leaves :
    (a t₁ t₂ : ℕ) (st : PeerState) (s : Session) (h : Handler)
    → (h.streams a).disconnected ≡ false
    → get_by_id true (h.streams a).session_id h.table ≡ some s
    → is_terminal st ≡ true
    → HasLived a t₁ t₂ s h (lived a t₁ t₂ st h)
unfolding change_state on_connected publish get_stream_session
lived_leaves a t₁ t₂ st s h o f k = rw (terminal_change true true t₂ a st _ k) (
    unfold disconnect_once in
    record {
      row = ground (arith, ended_row (h.streams a).session_id t₁ t₂ s h.table f);
      gauge = ground (arith, up_down h.streams_active);
      events = ground arith;
      callback = ground arith;
      gone = ground arith;
    })

-- A stream whose disconnect has run, and whose row says live.
record IsRevived (a i : ℕ) (h : Handler) : Type 0 where
  flag : (h.streams a).disconnected ≡ true
  session : (h.streams a).session_id ≡ i
  row : status_of i h.table ≡ some "live"

status_of-update_status :
    (up : Bool) (i now : ℕ) (t : List Session)
    → status_of i t ≡ some "live"
    → status_of i (update_status up i "live" now t).table ≡ some "live"
unfolding assign_status
status_of-update_status up i now t e = ground (arith, get_by_id-update_status up i i "live" now t)

change_state-IsRevived :
    (up redis_up : Bool) (now a i : ℕ) (st : PeerState) (h : Handler)
    → IsRevived a i h
    → IsRevived a i (change_state up redis_up now a st h)
unfolding change_state
change_state-IsRevived up redis_up now a i new h r = r
change_state-IsRevived up redis_up now a i connecting h r = r
change_state-IsRevived up redis_up now a i connected h r =
    unfold on_connected in
    record {
      flag = r.flag;
      session = r.session;
      row = rw r.session (status_of-update_status up i now h.table r.row);
    }
change_state-IsRevived up redis_up now a i _ h r =
    unfold disconnect_once in
    of_if (IsRevived a i) (h.streams a).disconnected _ _ (λ _. r) (λ e. cc (r.flag, e))

run-IsRevived :
    (a i : ℕ) (cs : List Change) (h : Handler)
    → All (λ c. c.stream ≡ a) cs
    → IsRevived a i h
    → IsRevived a i (run cs h)
unfolding run apply
run-IsRevived a i [] h k r = r
run-IsRevived a i (c ∷ cs) h k r =
    run-IsRevived a i cs (apply c h) k.1
      (rw k.0 (change_state-IsRevived c.up c.redis_up c.now a i c.state h r))

-- Let a stream whose disconnect has run, and whose session has a row, connect once more while
-- PostgreSQL and Redis answer. Then no later states of that peer connection end the session: it stays
-- live after any of them.
pub revived_stays_live :
    (a now : ℕ) (s : Session) (h : Handler) (cs : List Change)
    → (h.streams a).disconnected ≡ true
    → get_by_id true (h.streams a).session_id h.table ≡ some s
    → All (λ c. c.stream ≡ a) cs
    → status_of (h.streams a).session_id (run cs (change_state true true now a connected h)).table
      ≡ some "live"
unfolding change_state on_connected
revived_stays_live a now s h cs o f k =
    (run-IsRevived a (h.streams a).session_id cs (change_state true true now a connected h) k
      (record {
        flag = o;
        session = refl;
        row =
            unfold update_status assign_status in
            ground (
              arith,
              get_by_id-update_status true (h.streams a).session_id (h.streams a).session_id "live"
                  now h.table,
            );
      })).row

-- The disconnect of a stream that a newer one of its session has replaced takes the newer one out of
-- the map: that one is untouched, and `DELETE` answers that there is no active stream.
pub stale_disconnect :
    (up redis_up : Bool) (now a b : ℕ) (st : PeerState) (h : Handler)
    → (h.streams a).disconnected ≡ false
    → is_terminal st ≡ true
    → a ≢ b
    → get_stream_session (h.streams a).session_id h ≡ some b
    → ((change_state up redis_up now a st h).streams b ≡ h.streams b)
      × (handle_delete_resource
            (some (h.streams a).session_id)
            (change_state up redis_up now a st h)
          ≡ (response 404 "no active stream", none))
unfolding handle_delete_resource
stale_disconnect up redis_up now a b st h o k ne e =
    rw (terminal_change up redis_up now a st h k)
      (unfold disconnect_once in (ground arith, ground arith))
