-- ===== src/FrameTransport/Answers.antt =====
-- What a response, a disconnect and a failed send do to the frames that wait.
use learning_cuda.Base.{
  ℕ, ◌≡◌, ◌≢◌, refl, sym, ap, ◌∙◌, false, none, some, [], ◌∷◌, String, nat_key, string_key, ◌==◌,
  arith,
}
use learning_cuda.JsMap.{get}
use learning_cuda.JsMap.Laws.{get-remove_self, get-remove_ne, same_refl, same_ne}
use learning_cuda.Pending.{Desk, settle, settle_entry, fail_all}
use learning_cuda.Pending.Invariant.{Inv, all_cleared}
use learning_cuda.Pending.Failed.{fail_all-settled}
use learning_cuda.FrameTransport.{
  FrameResponse, FrameOutcome, resolved, failed, transport_disconnected, disconnected,
  close_session, Transport, disconnect, closing, transport_status,
}
use learning_cuda.FrameTransport.Receiving.{handle_response, outcome_of, message_or}

-- Only the entry of the response's frame leaves the table.
settled_alone :
    (id h : ℕ) (o : FrameOutcome) (d : Desk ℕ FrameOutcome)
    → get id d.pending ≡ some h
    → (get id (settle id o d).settled ≡ some o)
      × (get id (settle id o d).pending ≡ none)
      × ((other : ℕ) → other ≢ id → get other (settle id o d).pending ≡ get other d.pending)
unfolding settle settle_entry get
settled_alone id h o d waits =
    rw (waits, settle_entry)
      (
        rw (same_refl id) refl,
        get-remove_self id d.pending,
        λ other ne. get-remove_ne id other d.pending (λ e. ne (sym e)),
      )

message_or-own :
    (response : FrameResponse) (fallback : String)
    → response.message ≢ ""
    → message_or fallback response ≡ response.message
message_or-own response fallback filled = rw (same_ne response.message "" filled) refl

message_or-fallback :
    (response : FrameResponse) (fallback : String)
    → response.message ≡ ""
    → message_or fallback response ≡ fallback
message_or-fallback response fallback empty =
    rw ((string_key.same_iff response.message "").1 empty) refl

-- The response of a frame that waits, its id not 0, settles this frame's promise and no other: it is
-- resolved with the response where the code is 0, and rejected where it is not, with the message of the
-- response, or with 'Frame processing failed' where that is empty.
pub response_settles_own_frame :
    (response : FrameResponse) (s : Transport) (h : ℕ)
    → response.frame_id ≢ 0
    → get response.frame_id s.desk.pending ≡ some h
    → let d = (handle_response response s).desk in
      (response.code ≡ 0 → get response.frame_id d.settled ≡ some (resolved response))
      × (response.code ≢ 0
          → response.message ≢ ""
          → get response.frame_id d.settled ≡ some (failed response.message))
      × (response.code ≢ 0
          → response.message ≡ ""
          → get response.frame_id d.settled ≡ some (failed "Frame processing failed"))
      × (get response.frame_id d.pending ≡ none)
      × ((other : ℕ) → other ≢ response.frame_id → get other d.pending ≡ get other s.desk.pending)
unfolding handle_response
response_settles_own_frame response s h some_id waits =
    let (done, gone, others) =
      settled_alone response.frame_id h (outcome_of response) s.desk waits in
    let failure : String = "Frame processing failed" in
    let differs : (response.frame_id == 0) ≡ false = ground (arith, some_id) in
    rw differs (
      λ good. done ∙ ground (arith, good),
      λ bad filled. done ∙ ground (arith, bad, message_or-own response failure filled),
      λ bad empty. done ∙ ground (arith, bad, message_or-fallback response failure empty),
      gone,
      others,
    )

-- `disconnect` leaves no frame waiting and no timer of one armed, rejects every frame that waited, and
-- closes the session that was there.
pub disconnect_rejects_all :
    (s : Transport) (id : String)
    → Inv s.desk
    → s.session_id ≡ some id
    → let s' = disconnect s in
      (s'.session_id ≡ none)
      × (s'.desk.pending ≡ [])
      × ((h frame : ℕ) → get h s'.desk.timers.armed ≢ some frame)
      × ((frame h : ℕ)
          → get frame s.desk.pending ≡ some h
          → get frame s'.desk.settled ≡ some transport_disconnected)
      × (s'.effects ≡ close_session id ∷ transport_status disconnected "Disconnected" ∷ s.effects)
unfolding disconnect fail_all
disconnect_rejects_all s id v there = (
  refl,
  refl,
  all_cleared transport_disconnected s.desk v,
  fail_all-settled transport_disconnected s.desk v,
  ap (λ o. closing o (transport_status disconnected "Disconnected" ∷ s.effects)) there,
)
