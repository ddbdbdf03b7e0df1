-- ===== src/Session/Handlers/Outcomes.antt =====
-- What the handlers of internal/session answer, and what they leave in the table.
use webrtc_hls_pipeline.Prelude.{
  ℕ, ◌≤◌, ◌≡◌, ◌≢◌, refl, ap, ◌∙◌, String, Bool, true, false, Option, none, some, List, arith,
  str_eq, eq_iff, if◌then◌else◌, ◌==◌, is_some, Option-cases, Bool-cases, inl, inr, ◌⊎◌, KeepsRows,
  AllPass, All-keep_if, All-take, length-take-le, take, keep_if, length,
}
use webrtc_hls_pipeline.Text.{Bytes}
use webrtc_hls_pipeline.Go.{returns}
use webrtc_hls_pipeline.Auth.{Claims}
use webrtc_hls_pipeline.Session.{
  Session, create, get_by_id, update_status, list_sessions, status_ended, assign_status,
}
use webrtc_hls_pipeline.Session.Table.{any-has_id}
use webrtc_hls_pipeline.Session.Rules.{get_by_id-create, stored_row, update_status-succeeds}
use webrtc_hls_pipeline.Session.Handlers.{
  Answer, error, answers, answer_create, handle_create, handle_get, handle_list, handle_end,
}

-- What a new session is, seen from the claims and the title of the request.
pub record IsNew (parse_uuid : Bytes → Option ℕ) (claims : Claims) (title : String)
    (t t' : List Session) (s : Session) : Type 0 where
  pub titled : (s.title ≡ title) × (title ≢ "")
  pub owned :
      (parse_uuid claims.tenant_id ≡ some s.tenant_id)
      × (parse_uuid claims.user_id ≡ some s.teacher_id)
  pub waits : s.status ≡ "waiting"
  pub unused : get_by_id true s.id t ≡ none
  pub stored : get_by_id true s.id t' ≡ some s

-- Why `HandleCreate` refuses, with the status of the error.
pub data Refusal (parse_uuid : Bytes → Option ℕ) (up : Bool) (new_id : ℕ) (claims : Claims)
    (body : Option String) (t : List Session) : ℕ → Type 0 where
  unreadable : body ≡ none → Refusal parse_uuid up new_id claims body t 400
  untitled : body ≡ some "" → Refusal parse_uuid up new_id claims body t 400
  bad_tenant : parse_uuid claims.tenant_id ≡ none → Refusal parse_uuid up new_id claims body t 400
  bad_teacher : parse_uuid claims.user_id ≡ none → Refusal parse_uuid up new_id claims body t 400
  database_down : up ≡ false → Refusal parse_uuid up new_id claims body t 500
  id_in_use :
      is_some (get_by_id true new_id t) ≡ true → Refusal parse_uuid up new_id claims body t 500

-- What `HandleCreate` may come to: an error leaves the table alone and has its reason; any other
-- answer is 201 with the new session.
abbrev pub CreateOutcome :
    (Bytes → Option ℕ)
    → Bool
    → ℕ
    → Claims
    → Option String
    → List Session
    → List Session × Answer Session
    → Type 0
CreateOutcome parse_uuid up new_id claims body t (t', error status message) =
    (t' ≡ t) × Refusal parse_uuid up new_id claims body t status
CreateOutcome parse_uuid up new_id claims body t (t', answers status s) =
    (status ≡ 201) × ((title : String) × (body ≡ some title) × IsNew parse_uuid claims title t t' s)

create-fields :
    (up : Bool) (i now tenant teacher : ℕ) (title : String) (t : List Session) (s : Session)
    → (create up i now now tenant teacher title t).result ≡ some s
    → (s.id ≡ i) × (s.title ≡ title) × (s.tenant_id ≡ tenant) × (s.teacher_id ≡ teacher)
unfolding create
create-fields up i now tenant teacher title t s h =
    (ground arith, ground arith, ground arith, ground arith)

create-none :
    (up : Bool) (i now tenant teacher : ℕ) (title : String) (t : List Session)
    → (create up i now now tenant teacher title t).result ≡ none
    → ((create up i now now tenant teacher title t).table ≡ t)
      × ((up ≡ false) ⊎ (is_some (get_by_id true i t) ≡ true))
unfolding create get_by_id
create-none up i now tenant teacher title t h = (ground arith, ground (arith, h, any-has_id i t))

nonempty : (title : String) → str_eq title "" ≡ false → title ≢ ""
nonempty title n e = ground (arith, n, eq_iff title "", e)

module _ (parse_uuid : Bytes → Option ℕ) (up : Bool) (new_id now : ℕ) (claims : Claims)
    (t : List Session) where
  stored_outcome :
      (title : String) (tenant teacher : ℕ)
      → title ≢ ""
      → parse_uuid claims.tenant_id ≡ some tenant
      → parse_uuid claims.user_id ≡ some teacher
      → CreateOutcome parse_uuid up new_id claims
          (some title)
          t
          (answer_create (create up new_id now now tenant teacher title t))
  stored_outcome title tenant teacher n p q =
      let r = create up new_id now now tenant teacher title t in
      elim (Option-cases r.result) [
        | inl e ↦
            let (same, why) = create-none up new_id now tenant teacher title t e in
            rw (e, answer_create) (same, elim why [ inl d ↦ database_down d | inr u ↦ id_in_use u ])
        | inr (s, e) ↦
            let (i, named, ten, tea) = create-fields up new_id now tenant teacher title t s e in
            let (w, u, l) = get_by_id-create up new_id new_id now now tenant teacher title t s e in
            rw (e, answer_create)
              (
                refl,
                (
                  title,
                  refl,
                  record {
                    titled = (named, n);
                    owned = (ground (arith, p, ten), ground (arith, q, tea));
                    waits = w;
                    unused = ground (arith, u, i);
                    stored = ground (arith, l, i);
                  },
                ),
              )
      ]

  -- A request with claims is answered 201 with the new session, which is stored with the owner of the
  -- claims and waits under an id that no session had; or the table is as before and the error has
  -- one of the reasons of `Refusal`. No request with claims panics.
  pub handle_create-Outcome :
      (body : Option String)
      → (r : List Session × Answer Session) × (handle_create parse_uuid up new_id now
            (some claims)
            body
            t
          ≡ returns r)
        × CreateOutcome parse_uuid up new_id claims body t r
  unfolding handle_create
  handle_create-Outcome none =
      ((t, error 400 "{\"error\":\"invalid request body\"}"), refl, (refl, unreadable refl))
  handle_create-Outcome (some title) = elim (Bool-cases (str_eq title "")) [
    | inl e ↦ (
      (t, error 400 "{\"error\":\"title is required\"}"),
      ground (arith, e),
      (refl, untitled (ap some ((eq_iff title "").0 e))),
    )
    | inr n ↦ elim (Option-cases (parse_uuid claims.tenant_id)) [
      | inl p ↦ (
        (t, error 400 "{\"error\":\"invalid tenant_id in token\"}"),
        ground (arith, n, p),
        (refl, bad_tenant p),
      )
      | inr (tenant, p) ↦ elim (Option-cases (parse_uuid claims.user_id)) [
        | inl q ↦ (
          (t, error 400 "{\"error\":\"invalid user_id in token\"}"),
          ground (arith, n, p, q),
          (refl, bad_teacher q),
        )
        | inr (teacher, q) ↦ (
          answer_create (create up new_id now now tenant teacher title t),
          ground (arith, n, p, q),
          stored_outcome title tenant teacher (λ e. nonempty title n e) p q,
        )
      ]
    ]
  ]

-- A list for a tenant: at most fifty of its sessions.
abbrev pub ListOutcome : (Bytes → Option ℕ) → Bool → Claims → Answer (List Session) → Type 0
ListOutcome parse_uuid up claims (error status message) =
    if status == 400 then parse_uuid claims.tenant_id ≡ none else up ≡ false
ListOutcome parse_uuid up claims (answers status rows) =
    (status ≡ 200)
    × (length rows ≤ 50)
    × ((tenant : ℕ) × (parse_uuid claims.tenant_id ≡ some tenant)
        × AllPass (λ s. s.tenant_id == tenant) rows)

-- `HandleList` with claims answers with sessions of the tenant in the claims only, fifty at most; it
-- refuses only a tenant id that is no UUID, or when PostgreSQL does not answer.
pub handle_list-Outcome :
    (parse_uuid : Bytes → Option ℕ) (newest_first : List Session → List Session) (up : Bool)
    (claims : Claims) (t : List Session)
    → KeepsRows newest_first
    → (r : Answer (List Session)) × (handle_list parse_uuid newest_first up (some claims) t
        ≡ returns r)
      × ListOutcome parse_uuid up claims r
unfolding handle_list list_sessions
handle_list-Outcome parse_uuid newest_first up claims t keeps =
    elim (Option-cases (parse_uuid claims.tenant_id)) [
      | inl n ↦ (error 400 "{\"error\":\"invalid tenant_id in token\"}", ground (arith, n), n)
      | inr (tenant, y) ↦ elim (Bool-cases up) [
        | inr down ↦
            (error 500 "{\"error\":\"failed to list sessions\"}", ground (arith, y, down), down)
        | inl live ↦
            let owned = λ (s : Session). s.tenant_id == tenant in
            let found = newest_first (keep_if owned t) in
            (
              answers 200 (take 50 found),
              ground (arith, y, live),
              (
                refl,
                length-take-le 50 found,
                (
                  tenant,
                  y,
                  All-take (λ s. owned s ≡ true) 50 found
                      (keeps owned (keep_if owned t) (All-keep_if owned t)),
                ),
              ),
            )
      ]
    ]

-- The row of a session that was ended at a time.
abbrev pub ended_row : ℕ → Session → Session
ended_row now s = record s { status = "ended"; ended_at = some now; updated_at = now }

handle_end-stores :
    (now i : ℕ) (t : List Session)
    → handle_end true now (some i) t
      ≡ ((update_status true i status_ended now t).table, answers 200 "{\"status\":\"ended\"}")
unfolding handle_end
handle_end-stores now i t = ground (arith, update_status-succeeds i status_ended now t refl)

abbrev answer_get : Option Session → Answer Session
answer_get none = error 404 "{\"error\":\"session not found\"}"
answer_get (some s) = answers 200 s

handle_get_lem :
    (j : ℕ) (t : List Session) → handle_get true (some j) t ≡ answer_get (get_by_id true j t)
unfolding handle_get
handle_get_lem j t = elim (Option-cases (get_by_id true j t)) [
  | inl n ↦ ground (arith, n)
  | inr (s, y) ↦ ground (arith, y)
]

assign_status-ended : (now : ℕ) (s : Session) → assign_status status_ended now s ≡ ended_row now s
unfolding assign_status
assign_status-ended now s = refl

-- While PostgreSQL answers, `HandleEnd` answers 200 for every id, known or not; then `HandleGet` of
-- that id shows the session ended at that time if there is one and answers 404 if there is none,
-- and every other id is answered as before. No claims are looked at.
pub handle_get-handle_end :
    (now i j : ℕ) (t : List Session)
    → ((handle_end true now (some i) t).1 ≡ answers 200 "{\"status\":\"ended\"}")
      × (handle_get true (some j) (handle_end true now (some i) t).0 ≡ (
          if i == j
          then elim (get_by_id true i t) [
            | none ↦ error 404 "{\"error\":\"session not found\"}"
            | some s ↦ answers 200 (ended_row now s)
          ]
          else handle_get true (some j) t))
handle_get-handle_end now i j t =
    let stored = stored_row i j status_ended now t refl in
    (
      ap (λ r. r.1) (handle_end-stores now i t),
      ap (λ r. handle_get true (some j) r.0) (handle_end-stores now i t)
          ∙ handle_get_lem j (update_status true i status_ended now t).table
          ∙ ap answer_get stored
          ∙ elim (Option-cases (get_by_id true i t)) [
            | inl n ↦ ground (arith, n, handle_get_lem j t)
            | inr (s, y) ↦ ground (arith, y, handle_get_lem j t, assign_status-ended now s)
          ],
    )
