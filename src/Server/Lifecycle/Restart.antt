-- ===== src/Server/Lifecycle/Restart.antt =====
-- A server that starts while a session is live.
use webrtc_hls_pipeline.Prelude.{
  ℕ, ◌<◌, ◌≡◌, ◌≢◌, refl, ap, sym, subst, ◌∙◌, String, Bool, true, false, none, some, List, [], ◌∷◌,
  ltb, arith, if◌then◌else◌, Option-cases, Bool-cases, inl, inr, str_eq, eq_iff, of_if, not,
}
use webrtc_hls_pipeline.Session.{Session, get_by_id, update_status}
use webrtc_hls_pipeline.Session.Rules.{get_by_id-update_status}
use webrtc_hls_pipeline.Whip.Handler.{
  Handler, Request, Pion, Response, response, PeerState, new, connecting, connected, new_handler,
  handle_whip, check_request, check_session, refused, admitted, id_or_zero, answer_offer, exchange,
  add_stream, register, closed, close_connection, change_state, on_connected, disconnect_once,
  handle_delete_resource,
}
use webrtc_hls_pipeline.Whip.Handler.Requests.{Checked-cases, check_request-Checks}
use webrtc_hls_pipeline.Whip.Handler.Gauge.{apply}
use webrtc_hls_pipeline.Whip.Handler.Lifecycle.{status_of}
use webrtc_hls_pipeline.Recording.Worker.{Worker}
use webrtc_hls_pipeline.Server.Lifecycle.{
  Running, shut_down, new_server, Happening, offers, changes, happen, happen_all,
}

-- The session is live and no stream of the handler is its own.
record IsStuck (i : ℕ) (h : Handler) : Type 0 where
  row : status_of i h.table ≡ some "live"
  strangers : (a : ℕ) → a < h.next → (h.streams a).session_id ≢ i
  unmapped : h.sessions i ≡ none

live_row :
    (i : ℕ) (t : List Session)
    → status_of i t ≡ some "live"
    → (s : Session) × (get_by_id true i t ≡ some s) × (str_eq s.status "live" ≡ true)
live_row i t e = elim (Option-cases (get_by_id true i t)) [
  | inl n ↦ absurd (ground (arith, e, n))
  | inr (s, y) ↦ (s, y, ground (arith, e, y, eq_iff s.status "live"))
]

-- A write of another session's status leaves the row as it is.
other_status :
    (up : Bool) (i j now : ℕ) (status : String) (t : List Session)
    → j ≢ i
    → status_of i (update_status up j status now t).table ≡ status_of i t
other_status up i j now status t n = ground (arith, n, get_by_id-update_status up j i status now t)

module _ (i : ℕ) (h : Handler) (k : IsStuck i h) where
  change_state-IsStuck :
      (up redis_up : Bool) (now a : ℕ) (st : PeerState)
      → a < h.next
      → IsStuck i (change_state up redis_up now a st h)
  unfolding change_state
  change_state-IsStuck up redis_up now a new lt = k
  change_state-IsStuck up redis_up now a connecting lt = k
  change_state-IsStuck up redis_up now a connected lt =
      unfold on_connected in
      record {
        row =
            other_status up i (h.streams a).session_id now "live" h.table (k.strangers a lt)
            ∙ k.row;
        strangers = k.strangers;
        unmapped = k.unmapped;
      }
  change_state-IsStuck up redis_up now a _ lt =
      unfold disconnect_once in
      of_if (IsStuck i) (h.streams a).disconnected _ _ (λ _. k)
        (λ e. record {
          row =
              other_status up i (h.streams a).session_id now "ended" h.table (k.strangers a lt)
              ∙ k.row;
          strangers = λ b m. ground (arith, k.strangers b m, k.strangers a lt);
          unmapped = ground (arith, k.unmapped);
        })

close_connection-IsStuck :
    (pion : Pion) (i a : ℕ) (h : Handler)
    → IsStuck i h
    → a < h.next
    → IsStuck i (close_connection pion a h)
unfolding close_connection
close_connection-IsStuck pion i a h k lt =
    change_state-IsStuck i h k pion.close_up pion.close_redis_up pion.close_now a closed lt

module _ (i : ℕ) (h : Handler) (k : IsStuck i h) where
  offer_refused :
      (r : Request) (pion : Pion)
      → r.session_id ≡ some i
      → handle_whip true r pion h ≡ (h, response 409 "session already live")
  unfolding handle_whip check_request check_session
  offer_refused r pion e =
      let (s, y, live) = live_row i h.table k.row in
      let checked : check_request true r h.table ≡ refused (response 409 "session already live") =
        ground (arith, e, y, live) in
      ap
        (λ c. elim c [
          | refused e ↦ (h, e)
          | admitted sess offer ↦ answer_offer pion (id_or_zero r.session_id) sess offer h
        ])
        checked

  -- An offer that is admitted is for another session.
  admitted_other :
      (up : Bool) (r : Request) (pion : Pion) (sess : Session) (offer : String)
      → check_request up r h.table ≡ admitted sess offer
      → id_or_zero r.session_id ≢ i
  unfolding get_by_id
  admitted_other up r pion sess offer e same =
      let c = check_request-Checks up r pion h sess offer e in
      let (s, y, live) = live_row i h.table k.row in
      ground (arith, c.has_id, c.found, c.not_live, same, y, live, eq_iff s.status "live")

  answer_offer-IsStuck :
      (pion : Pion) (j : ℕ) (sess : Session) (offer : String)
      → j ≢ i
      → IsStuck i (answer_offer pion j sess offer h).0
  unfolding add_stream register
  answer_offer-IsStuck pion j sess offer n =
      let added : IsStuck i (add_stream j sess h) = record {
        row = k.row;
        strangers = λ a lt. ground (arith, lt, n, k.strangers a);
        unmapped = k.unmapped;
      } in
      of_if (λ (x : Handler × Response). IsStuck i x.0) (not pion.new_peer_connection) _ _ (λ e. k)
        (λ e. elim (Option-cases (exchange pion offer)) [
          | inl m ↦ rw m (record {
            row = k.row;
            strangers = added.strangers;
            unmapped = ground (arith, n, k.unmapped);
          })
          | inr (err, m) ↦
              rw m
                (close_connection-IsStuck pion i h.next (add_stream j sess h) added (omega arith))
        ])

  handle_whip-IsStuck :
      (up : Bool) (r : Request) (pion : Pion) → IsStuck i (handle_whip up r pion h).0
  unfolding handle_whip
  handle_whip-IsStuck up r pion = elim (Checked-cases (check_request up r h.table)) [
    | inl (e, m) ↦ rw (m, handle_whip) k
    | inr (sess, offer, m) ↦
        rw (m, handle_whip)
          (answer_offer-IsStuck pion (id_or_zero r.session_id) sess offer
            (admitted_other up r pion sess offer m))
  ]

happen-IsStuck : (i : ℕ) (x : Happening) (h : Handler) → IsStuck i h → IsStuck i (happen x h)
unfolding happen apply
happen-IsStuck i (offers up r pion) h k = handle_whip-IsStuck i h k up r pion
happen-IsStuck i (changes c) h k = elim (Bool-cases (ltb c.stream h.next)) [
  | inl y ↦
      subst (λ b. IsStuck i (if b then apply c h else h)) (sym y)
        (change_state-IsStuck i h k c.up c.redis_up c.now c.stream c.state (ground (arith, y)))
  | inr n ↦ subst (λ b. IsStuck i (if b then apply c h else h)) (sym n) k
]

happen_all-IsStuck :
    (i : ℕ) (xs : List Happening) (h : Handler) → IsStuck i h → IsStuck i (happen_all xs h)
unfolding happen_all
happen_all-IsStuck i [] h k = k
happen_all-IsStuck i (x ∷ xs) h k = happen_all-IsStuck i xs (happen x h) (happen-IsStuck i x h k)

new_handler-IsStuck :
    (i : ℕ) (t : List Session) → status_of i t ≡ some "live" → IsStuck i (new_handler t)
unfolding new_handler
new_handler-IsStuck i t e = record {
  row = e;
  strangers = λ a lt. absurd (omega (arith, lt));
  unmapped = refl;
}

shut_down-table :
    (shutdown_succeeds : Bool) (r : Running)
    → (shut_down shutdown_succeeds r).0.server.whip.table ≡ r.server.whip.table
unfolding shut_down
shut_down-table true r = refl
shut_down-table false r = refl

-- The server that starts on the table of one that was shut down, after what happens to it since.
abbrev pub restarted : Bool → Running → Worker → List Happening → Handler
restarted shutdown_succeeds r worker xs =
    happen_all xs (new_server (shut_down shutdown_succeeds r).0.server.whip.table worker).whip

-- When the server ends while a session is live, whether `Shutdown` succeeds or not, the session stays
-- live in every server that starts on the same tables: whatever offers come and whatever state the new
-- connections take, each offer for the session is answered 409 while PostgreSQL answers, and `DELETE`
-- finds no stream to close.
pub restarted_stays_live :
    (shutdown_succeeds : Bool) (r : Running) (worker : Worker) (xs : List Happening) (i : ℕ)
    → status_of i r.server.whip.table ≡ some "live"
    → let h = restarted shutdown_succeeds r worker xs in
      (status_of i h.table ≡ some "live")
      × ((request : Request) (pion : Pion)
          → request.session_id ≡ some i
          → handle_whip true request pion h ≡ (h, response 409 "session already live"))
      × (handle_delete_resource (some i) h ≡ (response 404 "no active stream", none))
unfolding new_server handle_delete_resource
restarted_stays_live shutdown_succeeds r worker xs i e =
    let t = (shut_down shutdown_succeeds r).0.server.whip.table in
    let live : status_of i t ≡ some "live" =
      ap (status_of i) (shut_down-table shutdown_succeeds r) ∙ e in
    let k = happen_all-IsStuck i xs (new_handler t) (new_handler-IsStuck i t live) in
    let h = happen_all xs (new_handler t) in
    let unmapped : h.sessions i ≡ none = k.unmapped in
    (
      k.row,
      λ request pion has_id. offer_refused i h k request pion has_id,
      ground (arith, unmapped),
    )
