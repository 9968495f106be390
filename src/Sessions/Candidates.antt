-- ===== src/Sessions/Candidates.antt =====
-- Local ICE candidates, before and after the session is negotiated: `negotiateSession` and its
-- `onicecandidate` handler in src/front-end/src/infrastructure/connection/webrtc-service.ts.
use learning_cuda.Base.{
  ◌≡◌, refl, ap, ◌∙◌, Bool, true, false, not, ◌||◌, Option, none, some, List, [], ◌∷◌, ◌++◌, String,
  if◌then◌else◌, string_key, inl, inr, Bool-cases,
}
use learning_cuda.JsMap.{JsMap, get, put}
use learning_cuda.JsMap.Laws.{get-put_self}
use learning_cuda.Sessions.{send_ice_candidate, Service}

-- The states of the peer connection when a candidate is found.
pub record PeerState : Type 0 where
  -- connectionState === 'connected'
  pub is_connected : Bool
  -- iceConnectionState === 'connected' or 'completed'
  pub ice_is_connected : Bool

unfoldable pub begin_negotiation : String → Service → Service
begin_negotiation id s = record s {
  pending_ice_candidates = put id [] s.pending_ice_candidates;
  session_negotiated = put id false s.session_negotiated;
}

-- pendingIceCandidates.get(id)?.splice(0)
unfoldable pub splice_candidates : String → JsMap String (List String) → JsMap String (List String)
splice_candidates id m = elim (get id m) [ none ↦ m | some cs ↦ put id [] m ]

unfoldable pub end_negotiation : String → Service → Service
unfolding splice_candidates
end_negotiation id s = record s {
  session_negotiated = put id true s.session_negotiated;
  pending_ice_candidates = splice_candidates id s.pending_ice_candidates;
}

-- !this.sessionNegotiated.get(id)
unfoldable pub is_negotiated : String → Service → Bool
is_negotiated id s = elim (get id s.session_negotiated) [ none ↦ false | some b ↦ b ]

unfoldable pub buffer_candidate :
    String → String → JsMap String (List String) → JsMap String (List String)
buffer_candidate id candidate m = elim (get id m) [
  | none ↦ m
  | some cs ↦ put id (cs ++ candidate ∷ []) m
]

-- sendIceCandidateSafe, up to its await
unfoldable pub send_ice_candidate_safe : String → String → Service → Service
send_ice_candidate_safe id candidate s = record s {
  last_request = some "SendIceCandidate";
  effects = send_ice_candidate id candidate ∷ s.effects;
}

-- onicecandidate
unfoldable pub on_ice_candidate : PeerState → String → Option String → Service → Service
unfolding is_negotiated buffer_candidate send_ice_candidate_safe
on_ice_candidate p id none s = s
on_ice_candidate p id (some candidate) s =
    if not (is_negotiated id s)
    then record s {
      pending_ice_candidates = buffer_candidate id candidate s.pending_ice_candidates;
    }
    else if p.is_connected || p.ice_is_connected
    then s
    else send_ice_candidate_safe id candidate s

-- The candidates found, one after the other, each with the state of the peer connection then.
unfoldable pub on_ice_candidates : String → List (PeerState × String) → Service → Service
unfolding on_ice_candidate
on_ice_candidates id [] s = s
on_ice_candidates id ((p, candidate) ∷ cs) s =
    on_ice_candidates id cs (on_ice_candidate p id (some candidate) s)

buffers_candidate :
    (id candidate : String) (p : PeerState) (s : Service)
    → get id s.session_negotiated ≡ some false
    → on_ice_candidate p id (some candidate) s
      ≡ record s { pending_ice_candidates = buffer_candidate id candidate s.pending_ice_candidates }
unfolding on_ice_candidate
buffers_candidate id candidate p s open_now = rw (open_now, is_negotiated) refl

buffers_all :
    (id : String) (cs : List (PeerState × String)) (s : Service)
    → get id s.session_negotiated ≡ some false
    → ((on_ice_candidates id cs s).effects ≡ s.effects)
      × (get id (on_ice_candidates id cs s).session_negotiated ≡ some false)
unfolding on_ice_candidates
buffers_all id [] s open_now = (refl, open_now)
buffers_all id ((p, candidate) ∷ cs) s open_now =
    let next = record s {
      pending_ice_candidates = buffer_candidate id candidate s.pending_ice_candidates;
    } in
    let first = buffers_candidate id candidate p s open_now in
    let (told, still) = buffers_all id cs next open_now in
    (
      ap (λ n. (on_ice_candidates id cs n).effects) first ∙ told,
      ap (λ n. get id (on_ice_candidates id cs n).session_negotiated) first ∙ still,
    )

-- Between the start of the negotiation and its end, no candidate goes to the signaling service, however
-- many are found and whatever the state of the peer connection.
pub no_candidate_before_answer :
    (id : String) (cs : List (PeerState × String)) (s : Service)
    → (on_ice_candidates id cs (begin_negotiation id s)).effects ≡ s.effects
unfolding begin_negotiation
no_candidate_before_answer id cs s =
    (buffers_all id cs (begin_negotiation id s) (get-put_self id false s.session_negotiated)).0

-- After the negotiation, a candidate is sent exactly where neither state of the peer connection is a
-- connected one, and it is never buffered.
pub candidate_after_answer :
    (id candidate : String) (p : PeerState) (s : Service)
    → let s' = on_ice_candidate p id (some candidate) (end_negotiation id s) in
      (s'.pending_ice_candidates ≡ (end_negotiation id s).pending_ice_candidates)
      × (s'.effects ≡ (
          if p.is_connected || p.ice_is_connected
          then s.effects
          else send_ice_candidate id candidate ∷ s.effects))
unfolding end_negotiation on_ice_candidate send_ice_candidate_safe
candidate_after_answer id candidate p s = elim (Bool-cases (p.is_connected || p.ice_is_connected)) [
  | inl late ↦ rw (get-put_self id true s.session_negotiated, is_negotiated, late) (refl, refl)
  | inr early ↦ rw (get-put_self id true s.session_negotiated, is_negotiated, early) (refl, refl)
]
