-- ===== src/Sessions/Signaling.antt =====
-- Messages of the signaling service and the polling for them, in
-- src/front-end/src/infrastructure/connection/webrtc-service.ts.
use learning_cuda.Base.{
  ℕ, ◌≡◌, refl, ap, ◌∙◌, Bool, true, false, not, Option, none, some, List, [], ◌∷◌, map, ◌&&◌,
  String, Result, ok, err, if◌then◌else◌, string_key, inl, inr, Bool-cases,
}
use learning_cuda.JsMap.{JsMap, get, put, has}
use learning_cuda.JsMap.Laws.{get-put_self}
use learning_cuda.Sessions.{apply_answer, add_ice_candidate, Service}
use learning_cuda.Sessions.Cleanup.{cleanup_session}
use learning_cuda.Sessions.Candidates.{end_negotiation, is_negotiated}

-- The cases of a SignalingMessage. An answer may lack its SDP, and a candidate message its candidate.
pub data Message : Type 0 where
  start_session_response ice_candidate : Option String → Message
  ice_candidate_response close_session_response keep_alive other_message : Message

pub data AnswerError : Type 0 where
  peer_not_found missing_answer answer_refused : AnswerError

-- The browser during an event: Date.now(), and whether it takes the SDP answer and the candidate.
pub record Browser : Type 0 where
  pub now : ℕ
  pub takes_answer : Bool
  pub takes_candidate : Bool

-- applyStartSessionResponse, with its session's peer connection
unfoldable pub apply_start_session_response :
    Browser → String → Option ℕ → Option String → Service → Service × Result AnswerError Bool
apply_start_session_response b id none answer s = (s, err peer_not_found)
apply_start_session_response b id (some peer) none s = (s, err missing_answer)
apply_start_session_response b id (some peer) (some sdp) s =
    if b.takes_answer
    then (record s { effects = apply_answer id sdp ∷ s.effects }, ok true)
    else (s, err answer_refused)

abbrev pub after_answer : String → Service × Result AnswerError Bool → Service × Bool
after_answer id (s, ok t) = (end_negotiation id s, true)
after_answer id (s, err e) = (s, false)

-- The handler, with the session's peer connection, and whether it came to its end without throwing.
unfoldable pub handle_with_peer : Browser → String → Option ℕ → Message → Service → Service × Bool
unfolding apply_start_session_response cleanup_session
handle_with_peer b id peer (start_session_response answer) s =
    if is_negotiated id s
    then (s, true)
    else after_answer id (apply_start_session_response b id peer answer s)
handle_with_peer b id peer (ice_candidate none) s = (s, true)
handle_with_peer b id peer (ice_candidate (some candidate)) s =
    (record s { effects = add_ice_candidate id candidate ∷ s.effects }, b.takes_candidate)
handle_with_peer b id peer ice_candidate_response s = (s, true)
handle_with_peer b id peer close_session_response s = (cleanup_session id s, true)
handle_with_peer b id peer keep_alive s =
    (record s { last_heartbeat_ack_at = put id b.now s.last_heartbeat_ack_at }, true)
handle_with_peer b id peer other_message s = (s, true)

abbrev pub is_close : Message → Bool
is_close close_session_response = true
is_close _ = false

unfoldable pub handle_signaling_message : Browser → String → Message → Service → Service × Bool
unfolding handle_with_peer
handle_signaling_message b id m s =
    if not (has id s.peer_connections) && not (is_close m)
    then (s, true)
    else handle_with_peer b id (get id s.peer_connections) m s

-- if (!this.pollCursors.has(id)) this.pollCursors.set(id, 0)
abbrev pub first_cursor : String → JsMap String ℕ → JsMap String ℕ
first_cursor id m = if has id m then m else put id 0 m

unfoldable pub ensure_polling : String → ℕ → Service → Service
ensure_polling id controller s = if has id s.poll_controllers then s else record s {
  poll_controllers = put id controller s.poll_controllers;
  poll_cursors = first_cursor id s.poll_cursors;
}

-- The events of one poll, one after the other, up to the first that throws.
unfoldable pub handle_events : Browser → String → List Message → Service → Service
unfolding handle_signaling_message
handle_events b id [] s = s
handle_events b id (m ∷ ms) s =
    let (s', completed) = handle_signaling_message b id m s in
    let rest = handle_events b id ms s' in if completed then rest else s'

-- One round of runPollLoop: the next cursor, then the events.
unfoldable pub poll_round : Browser → String → ℕ → List Message → Service → Service
unfolding handle_events
poll_round b id next_cursor events s =
    handle_events b id events (record s { poll_cursors = put id next_cursor s.poll_cursors })

-- The condition of runPollLoop.
unfoldable pub keeps_polling : String → Bool → Service → Bool
keeps_polling id aborted s = not aborted && has id s.peer_connections

has-put : (id : String) (c : ℕ) (m : JsMap String ℕ) → has id (put id c m) ≡ true
unfolding has
has-put id c m = rw (get-put_self id c m, has) refl

answer_ignored :
    (b : Browser) (id : String) (a : Option String) (s : Service)
    → get id s.session_negotiated ≡ some true
    → handle_signaling_message b id (start_session_response a) s ≡ (s, true)
unfolding handle_signaling_message handle_with_peer is_negotiated
answer_ignored b id a s done = elim (Bool-cases (has id s.peer_connections)) [
  | inl there ↦ rw (there, done, is_negotiated) refl
  | inr gone ↦ rw gone refl
]

-- Once the session is negotiated, no further answer changes anything, whatever it holds and however
-- many come.
pub later_answers_ignored :
    (b : Browser) (id : String) (answers : List (Option String)) (s : Service)
    → get id s.session_negotiated ≡ some true
    → handle_events b id (map start_session_response answers) s ≡ s
unfolding handle_events
later_answers_ignored b id [] s done = refl
later_answers_ignored b id (a ∷ answers) s done =
    ap
      (λ (r : Service × Bool).
        if r.1 then handle_events b id (map start_session_response answers) r.0 else r.0)
      (answer_ignored b id a s done)
    ∙ later_answers_ignored b id answers s done

polling_already :
    (id : String) (c : ℕ) (s : Service)
    → has id s.poll_controllers ≡ true
    → ensure_polling id c s ≡ s
unfolding ensure_polling
polling_already id c s on = rw on refl

polling_ensured :
    (id : String) (c : ℕ) (s : Service) → has id (ensure_polling id c s).poll_controllers ≡ true
unfolding ensure_polling
polling_ensured id c s = elim (Bool-cases (has id s.poll_controllers)) [
  | inl on ↦ rw (on, ensure_polling) on
  | inr off ↦ rw (off, ensure_polling) (has-put id c s.poll_controllers)
]

-- After `ensurePolling` its session is polled for, and a second call changes nothing, whatever its
-- controller.
pub ensure_polling_once :
    (id : String) (c c' : ℕ) (s : Service)
    → (has id (ensure_polling id c s).poll_controllers ≡ true)
      × (ensure_polling id c' (ensure_polling id c s) ≡ ensure_polling id c s)
ensure_polling_once id c c' s =
    let on = polling_ensured id c s in (on, polling_already id c' (ensure_polling id c s) on)
