-- ===== src/WsHub/Requests.antt =====
-- backend/app/core/ws_manager.py, `send_request` and `resolve_request`: a request and its answer.
use wecom_ai_agent.Prelude.{
  ℕ, ◌≡◌, refl, ◌∙◌, ap, String, Bool, true, false, Option, none, some, is_empty, Bool-cases, inl,
  inr, if◌then◌else◌,
}
use wecom_ai_agent.Prelude.Assoc.{find, put, find-put_self, find-pop_self}
use wecom_ai_agent.Prelude.Text.{Text, text_eq, text_eq_iff}
use wecom_ai_agent.WsHub.{
  WsHub, Future, open_, done, android_of, send_json, send_to, send_android, drop_request,
  begin_request, end_request, result_of, resolve_request, resolve_found,
}

-- The future of a request.
abbrev pub future_of : Text → WsHub → Option Future
future_of request_id hub = find text_eq request_id hub.pending

module _ (request_id : Text) (named : is_empty request_id ≡ false) where
  resolve-open :
      (value : Text) (hub : WsHub)
      → future_of request_id hub ≡ some open_
      → ((resolve_request (some request_id) value hub).1 ≡ true)
        × (future_of request_id (resolve_request (some request_id) value hub).0 ≡ some (done value))
  unfolding resolve_request resolve_found
  resolve-open value hub f = (
    simp (named, f),
    simp (named, f) (find-put_self text_eq text_eq_iff request_id (done value) hub.pending),
  )

  resolve-done :
      (value old : Text) (hub : WsHub)
      → future_of request_id hub ≡ some (done old)
      → resolve_request (some request_id) value hub ≡ (hub, false)
  unfolding resolve_request resolve_found
  resolve-done value old hub f = simp (named, f)

  begin-open :
      (alive : ℕ → Bool) (robot_id event : String) (payload : Text) (hub : WsHub) (ws : ℕ)
      → android_of robot_id hub ≡ some ws
      → alive ws ≡ true
      → ((begin_request alive robot_id event payload request_id hub).1 ≡ true)
        × (future_of request_id (begin_request alive robot_id event payload request_id hub).0
            ≡ some open_)
  unfolding begin_request send_android send_to send_json
  begin-open alive robot_id event payload hub ws a up =
      (simp (a, up), simp (a, up) (find-put_self text_eq text_eq_iff request_id open_ hub.pending))

  -- A request with a non-empty id to a device whose socket is up waits; the first answer with its
  -- id resolves it and a second one is refused; the caller gets the first answer; and then the
  -- request is forgotten.
  pub request_roundtrip :
      (alive : ℕ → Bool) (robot_id event : String) (payload value again : Text) (hub : WsHub)
      (ws : ℕ)
      → android_of robot_id hub ≡ some ws
      → alive ws ≡ true
      → let waiting = (begin_request alive robot_id event payload request_id hub).0 in
        let answered = (resolve_request (some request_id) value waiting).0 in
        let ended = end_request request_id answered in
        ((begin_request alive robot_id event payload request_id hub).1 ≡ true)
        × ((resolve_request (some request_id) value waiting).1 ≡ true)
        × (resolve_request (some request_id) again answered ≡ (answered, false))
        × (ended.1 ≡ some value)
        × (future_of request_id ended.0 ≡ none)
  unfolding end_request drop_request result_of
  request_roundtrip alive robot_id event payload value again hub ws a up =
      let waiting = (begin_request alive robot_id event payload request_id hub).0 in
      let (ok, unanswered) = begin-open alive robot_id event payload hub ws a up in
      let (first, resolved) = resolve-open value waiting unanswered in
      let answered = (resolve_request (some request_id) value waiting).0 in
      (
        ok,
        first,
        resolve-done again value answered resolved,
        ap result_of resolved,
        find-pop_self text_eq text_eq_iff request_id answered.pending,
      )

unknown-refused :
    (request_id value : Text) (hub : WsHub)
    → future_of request_id hub ≡ none
    → resolve_request (some request_id) value hub ≡ (hub, false)
unfolding resolve_request resolve_found
unknown-refused request_id value hub f = elim (Bool-cases (is_empty request_id)) [
  | inl e ↦ simp e
  | inr e ↦ simp (e, f)
]

-- The state after a request, answered or not: that of the send, without the request.
abbrev after_request : Text → WsHub × Bool → WsHub
after_request request_id begun = if begun.1 then (end_request request_id begun.0).0 else begun.0

after_request-drops :
    (alive : ℕ → Bool) (robot_id event : String) (payload request_id : Text) (hub : WsHub)
    → (sent : WsHub) × (after_request request_id
          (begin_request alive robot_id event payload request_id hub)
        ≡ drop_request request_id sent)
unfolding begin_request end_request
after_request-drops alive robot_id event payload request_id hub = elim (Bool-cases sent.1) [
  | inl e ↦ (sent.0, rw e refl)
  | inr e ↦ (sent.0, rw e refl)
]
  where
    sent : WsHub × Bool
    sent =
        send_android alive robot_id
          (record { event = event; payload = payload; request_id = some request_id })
          (record hub { pending = put text_eq request_id open_ hub.pending })

-- A request that ends without an answer, by a timeout or because the device has no working socket, is
-- forgotten, and a late answer with its id is refused.
pub request-forgotten :
    (alive : ℕ → Bool) (robot_id event : String) (payload request_id value : Text) (hub : WsHub)
    → let begun = begin_request alive robot_id event payload request_id hub in
      let ended = if begun.1 then (end_request request_id begun.0).0 else begun.0 in
      (future_of request_id ended ≡ none)
      × (resolve_request (some request_id) value ended ≡ (ended, false))
unfolding drop_request
request-forgotten alive robot_id event payload request_id value hub =
    let (sent, e) = after_request-drops alive robot_id event payload request_id hub in
    let gone =
      ap (future_of request_id) e ∙ find-pop_self text_eq text_eq_iff request_id sent.pending in
    (gone, unknown-refused request_id value _ gone)
