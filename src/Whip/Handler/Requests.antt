-- ===== src/Whip/Handler/Requests.antt =====
-- What `HandleWHIP` and `HandleDeleteResource` of internal/whip/handler.go answer.
use webrtc_hls_pipeline.Prelude.{
  ℕ, ap, subst, ◌++◌, [], ◌∷◌, ◌≡◌, refl, ◌≢◌, ◌⊎◌, inl, inr, String, Bool, true, Option, none,
  some, arith, eq_iff, if◌then◌else◌, ◌==◌, Option-cases, of_if, not,
}
use webrtc_hls_pipeline.Prelude.Int.{negsuc, ◌+ℤ◌}
use webrtc_hls_pipeline.Events.{stream_ended, publish}
use webrtc_hls_pipeline.Session.{Session, get_by_id, update_status}
use webrtc_hls_pipeline.Whip.Handler.{
  Handler, Request, Pion, Response, response, Checked, refused, admitted, check_request,
  check_session, exchange, handle_whip, answer_offer, get_stream_session, add_stream, register,
  id_or_zero, close_connection, change_state, disconnect_once, on_disconnected, remove_session,
}

-- All that a request needs for its stream to be set up.
pub record Accepts (up : Bool) (r : Request) (pion : Pion) (h : Handler) : Type 0 where
  pub i : ℕ
  pub sess : Session
  pub offer : String
  pub answer : String
  pub has_id : r.session_id ≡ some i
  pub found : get_by_id up i h.table ≡ some sess
  pub not_live : sess.status ≢ "live"
  pub is_sdp : r.content_type ≡ "application/sdp"
  pub was_read : r.body ≡ some offer
  pub connection_made : pion.new_peer_connection ≡ true
  pub remote_set : pion.set_remote_description offer ≡ true
  pub answer_made : pion.create_answer ≡ some answer
  pub local_set : pion.set_local_description answer ≡ true

pub Checked-cases :
    (c : Checked)
    → ((e : Response) × (c ≡ refused e))
      ⊎ ((sess : Session) × (offer : String) × (c ≡ admitted sess offer))
Checked-cases (refused e) = inl (e, refl)
Checked-cases (admitted sess offer) = inr (sess, offer, refl)

module _ (up : Bool) (r : Request) (pion : Pion) (h : Handler) where
  accepted-check_request :
      (a : Accepts up r pion h) → check_request up r h.table ≡ admitted a.sess a.offer
  unfolding check_request
  accepted-check_request a = ground (
    arith,
    a.has_id,
    a.found,
    a.was_read,
    eq_iff a.sess.status "live",
    eq_iff r.content_type "application/sdp",
    a.not_live,
    a.is_sdp,
  )

  -- What an accepted request leaves: the map has the new stream, which carries the row's tenant and
  -- teacher, and nothing else has changed.
  pub record IsCreated (i : ℕ) (sess : Session) (result : Handler × Response) : Type 0 where
    pub answered : result.1 ≡ response 201 pion.local_sdp
    pub mapped :
        (j : ℕ)
        → get_stream_session j result.0 ≡ (if i == j then some h.next else get_stream_session j h)
    pub session : (result.0.streams h.next).session_id ≡ i
    pub tenant : (result.0.streams h.next).tenant_id ≡ sess.tenant_id
    pub teacher : (result.0.streams h.next).teacher_id ≡ sess.teacher_id
    pub others :
        (b : ℕ)
        → result.0.streams b ≡ (if h.next == b then result.0.streams h.next else h.streams b)
    pub table : result.0.table ≡ h.table
    pub gauge : result.0.streams_active ≡ h.streams_active
    pub events : result.0.published ≡ h.published

  pub accepted_result :
      (a : Accepts up r pion h)
      → handle_whip up r pion h
        ≡ (register a.i h.next (add_stream a.i a.sess h), response 201 pion.local_sdp)
  unfolding handle_whip
  accepted_result a =
      rw (accepted-check_request a, handle_whip)
        (ground (arith, a.has_id, a.connection_made, a.remote_set, a.answer_made, a.local_set))

  -- A request that meets every condition is answered 201 with pion's description. Its session maps
  -- to a new stream that carries the row's tenant and teacher; no other session or stream, and
  -- neither the table nor the gauge nor the events are touched.
  pub handle_whip_accepted :
      (a : Accepts up r pion h) → IsCreated a.i a.sess (handle_whip up r pion h)
  unfolding register add_stream get_stream_session
  handle_whip_accepted a = rw (accepted_result a) (record {
    answered = refl;
    mapped = λ j. refl;
    session = ground arith;
    tenant = ground arith;
    teacher = ground arith;
    others = λ b. ground arith;
    table = refl;
    gauge = refl;
    events = refl;
  })

  -- The conditions that `check_request` has tested.
  pub record Checks (sess : Session) (offer : String) : Type 0 where
    pub i : ℕ
    pub has_id : r.session_id ≡ some i
    pub found : get_by_id up i h.table ≡ some sess
    pub not_live : sess.status ≢ "live"
    pub is_sdp : r.content_type ≡ "application/sdp"
    pub was_read : r.body ≡ some offer

  check_session-Checks :
      (i : ℕ) (o : Option Session) (sess : Session) (offer : String)
      → r.session_id ≡ some i
      → get_by_id up i h.table ≡ o
      → check_session o r ≡ admitted sess offer
      → Checks sess offer
  unfolding check_session
  check_session-Checks i none sess offer e f k = cc
  check_session-Checks i (some s) sess offer e f k = record {
    i = i;
    has_id = e;
    found = ground arith;
    not_live = λ l. ground (arith, eq_iff s.status "live");
    is_sdp = ground (arith, eq_iff r.content_type "application/sdp");
    was_read = ground arith;
  }

  pub check_request-Checks :
      (sess : Session) (offer : String)
      → check_request up r h.table ≡ admitted sess offer
      → Checks sess offer
  unfolding check_request
  check_request-Checks sess offer k = elim (Option-cases r.session_id) [
    | inl e ↦ absurd (ground arith)
    | inr (i, e) ↦ check_session-Checks i _ sess offer e refl (ground arith)
  ]

  abbrev pub IsError : ℕ → Type 0
  IsError n = (n ≡ 400) ⊎ (n ≡ 404) ⊎ (n ≡ 409) ⊎ (n ≡ 415) ⊎ (n ≡ 500)

  check_request-IsError : (e : Response) → check_request up r h.table ≡ refused e → IsError e.status
  unfolding check_request
  check_request-IsError e k = ground arith

  exchange-IsError :
      (offer : String) (e : Response)
      → exchange pion offer ≡ some e
      → (e.status ≡ 400) ⊎ (e.status ≡ 500)
  unfolding exchange
  exchange-IsError offer e k = ground arith

  -- What the end of a stream of the session leaves that was never set up.
  pub record HasEnded (i : ℕ) (sess : Session) (h' : Handler) : Type 0 where
    pub mapped :
        (j : ℕ) → get_stream_session j h' ≡ (if i == j then none else get_stream_session j h)
    pub table : h'.table ≡ (update_status pion.close_up i "ended" pion.close_now h.table).table
    pub gauge : h'.streams_active ≡ h.streams_active +ℤ negsuc 0
    pub events :
        h'.published ≡ publish pion.close_redis_up (stream_ended i sess.tenant_id) h.published
    pub callback : h'.disconnects ≡ h.disconnects ++ (i, sess.tenant_id) ∷ []

  -- The stream is set up; or the request is refused and nothing has changed; or the exchange fails
  -- and the connection is closed, which ends the session as the end of a stream does.
  pub data Outcome (result : Handler × Response) : Type 0 where
    accepts : Accepts up r pion h → Outcome result
    refuses : IsError result.1.status → result.0 ≡ h → Outcome result
    fails :
        (sess : Session) (offer : String) (c : Checks sess offer)
        → pion.new_peer_connection ≡ true
        → exchange pion offer ≡ some result.1
        → (result.1.status ≡ 400) ⊎ (result.1.status ≡ 500)
        → HasEnded c.i sess result.0
        → Outcome result

  exchanged-Accepts :
      (sess : Session) (offer : String)
      → Checks sess offer
      → pion.new_peer_connection ≡ true
      → exchange pion offer ≡ none
      → Accepts up r pion h
  unfolding exchange
  exchanged-Accepts sess offer c made k = elim (Option-cases pion.create_answer) [
    | inl e ↦ absurd (ground arith)
    | inr (answer, e) ↦ record {
      i = c.i;
      sess = sess;
      offer = offer;
      answer = answer;
      has_id = c.has_id;
      found = c.found;
      not_live = c.not_live;
      is_sdp = c.is_sdp;
      was_read = c.was_read;
      connection_made = made;
      remote_set = ground arith;
      answer_made = e;
      local_set = ground arith;
    }
  ]

  close_connection-HasEnded :
      (i : ℕ) (sess : Session)
      → HasEnded i sess (close_connection pion h.next (add_stream i sess h))
  unfolding close_connection change_state disconnect_once on_disconnected remove_session add_stream
      get_stream_session
  close_connection-HasEnded i sess = record {
    mapped = λ j. ground arith;
    table = ground arith;
    gauge = ground arith;
    events = ground arith;
    callback = ground arith;
  }

  -- The handler after a connection whose exchange failed was closed.
  failed_exchange :
      (sess : Session) (offer : String) (e : Response)
      → Checks sess offer
      → pion.new_peer_connection ≡ true
      → exchange pion offer ≡ some e
      → Outcome (close_connection pion h.next (add_stream (id_or_zero r.session_id) sess h), e)
  failed_exchange sess offer e c made k =
      let i = id_or_zero r.session_id in
      fails sess offer c made k (exchange-IsError offer e k) (
        subst (λ j. HasEnded j sess (close_connection pion h.next (add_stream i sess h)))
          (ap id_or_zero c.has_id) (close_connection-HasEnded i sess))

  answer_offer-Outcome :
      (sess : Session) (offer : String)
      → Checks sess offer
      → Outcome (answer_offer pion (id_or_zero r.session_id) sess offer h)
  answer_offer-Outcome sess offer c =
      of_if Outcome (not pion.new_peer_connection) _ _ (λ e. refuses (ground arith) refl)
        (λ e. elim (Option-cases (exchange pion offer)) [
          | inl k ↦ accepts (exchanged-Accepts sess offer c (ground arith) k)
          | inr (err, k) ↦ rw k (failed_exchange sess offer err c (ground arith) k)
        ])

  -- Every request meets all the conditions, or is answered 400, 404, 409, 415 or 500 with everything
  -- as it was, or passes the checks and fails in the exchange of descriptions. Such a request is
  -- answered 400 or 500, and since its connection is closed, the session has no stream in the map, also
  -- where another one ran, its row is ended where PostgreSQL answers, the gauge falls by one, an event
  -- tells of the end where Redis answers, and the disconnect callback is called.
  pub handle_whip-Outcome : Outcome (handle_whip up r pion h)
  unfolding handle_whip
  handle_whip-Outcome = elim (Checked-cases (check_request up r h.table)) [
    | inl (e, k) ↦ rw (k, handle_whip) (refuses (check_request-IsError e k) refl)
    | inr (sess, offer, k) ↦
        rw (k, handle_whip) (answer_offer-Outcome sess offer (check_request-Checks sess offer k))
  ]
