-- ===== src/ControlChannel/Closing.antt =====
-- A control channel that closes, with and without another open channel to fall back to.
use learning_cuda.Base.{
  ℕ, ◌≡◌, ◌≢◌, refl, ◌∙◌, Bool, true, false, Option, none, some, List, [], ◌∷◌, String, Result, ok,
  err, string_key, nat_key, inl, inr, Bool-cases,
}
use learning_cuda.JsMap.{get}
use learning_cuda.Pending.{fail_all}
use learning_cuda.Pending.Invariant.{Inv, all_cleared}
use learning_cuda.Pending.Failed.{fail_all-settled}
use learning_cuda.Framing.Pack.{PackError, pack_message}
use learning_cuda.Framing.MessageId.{next_message_id}
use learning_cuda.ControlChannel.{
  closed_before_response, Dispatch, Browser, Control, ready_channel, send_chunks, reject_pending,
  after_send, send_packed, send_encoded, dispatch_on, dispatch, run_queued, closed, attached,
  attach_new, is_same, attach_channel, after_close, close_channel, on_channel_change,
}

-- A close without another open channel: no request is pending and no timer of one is armed, nothing
-- waits in the queue, and every request that was pending is rejected.
pub close_rejects_all :
    (b : Browser) (c : ℕ) (s : Control)
    → s.channel ≡ some c
    → Inv s.desk
    → let s' = on_channel_change b none none s in
      (s'.channel ≡ none)
      × (s'.queue ≡ [])
      × (s'.desk.pending ≡ [])
      × ((h : ℕ) (id : String) → get h s'.desk.timers.armed ≢ some id)
      × ((id : String) (h : ℕ)
          → get id s.desk.pending ≡ some h
          → get id s'.desk.settled ≡ some closed_before_response)
unfolding on_channel_change close_channel after_close fail_all
close_rejects_all b c s open_now v =
    rw (open_now, close_channel)
      (
        refl,
        refl,
        refl,
        all_cleared closed_before_response s.desk v,
        λ id h g. fail_all-settled closed_before_response s.desk v id h g,
      )

-- Dispatching adds no listener, and leaves the channel as it is.
abbrev SameListeners : Control → Control → Type 0
SameListeners s s' = s'.listeners ≡ s.listeners

after_send-SameListeners :
    (id : String) (r : List (ℕ × List ℕ) × Bool) (s : Control) → SameListeners s (after_send id r s)
unfolding after_send reject_pending
after_send-SameListeners id (sent, true) s = refl
after_send-SameListeners id (sent, false) s = refl

send_packed-SameListeners :
    (b : Browser) (c : ℕ) (id : String) (r : Result PackError (List (List ℕ))) (s : Control)
    → SameListeners s (send_packed b c id r s)
unfolding send_packed reject_pending
send_packed-SameListeners b c id (err e) s = refl
send_packed-SameListeners b c id (ok chunks) s =
    after_send-SameListeners id (send_chunks b c chunks s.sent) s

send_encoded-SameListeners :
    (b : Browser) (c : ℕ) (id : String) (payload : Option (List ℕ)) (s : Control)
    → SameListeners s (send_encoded b c id payload s)
unfolding send_encoded reject_pending
send_encoded-SameListeners b c id none s = refl
send_encoded-SameListeners b c id (some payload) s =
    let mid = next_message_id s.last_message_id in
    send_packed-SameListeners b c id (pack_message mid payload) (record s { last_message_id = mid })

dispatch_on-SameListeners :
    (b : Browser) (d : Dispatch) (c : Option ℕ) (s : Control)
    → SameListeners s (dispatch_on b d c s)
unfolding dispatch_on
dispatch_on-SameListeners b d none s = refl
dispatch_on-SameListeners b d (some c) s = send_encoded-SameListeners b c d.request_id d.payload s

run_queued-SameListeners :
    (b : Browser) (ds : List Dispatch) (s : Control) → SameListeners s (run_queued b ds s)
unfolding run_queued dispatch
run_queued-SameListeners b [] s = refl
run_queued-SameListeners b (d ∷ ds) s =
    run_queued-SameListeners b ds (dispatch b d s)
    ∙ dispatch_on-SameListeners b d (ready_channel b s.channel) s

attach_new-listeners :
    (b : Browser) (c : ℕ) (s : Control) → (attach_new b c s).listeners ≡ c ∷ s.listeners
unfolding attach_new
attach_new-listeners b c s = elim (Bool-cases (b.is_open c)) [
  | inl up ↦ rw up (run_queued-SameListeners b s.queue (record (attached c s) { queue = [] }))
  | inr down ↦ rw down refl
]

-- While the service listens on a channel, the close of any session that leaves this very channel as the
-- one to fall back to adds the service's listener to it a second time.
pub close_listens_twice :
    (b : Browser) (c : ℕ) (s : Control)
    → s.channel ≡ some c
    → (on_channel_change b (some c) none s).listeners ≡ c ∷ s.listeners
unfolding on_channel_change close_channel after_close attach_channel is_same
close_listens_twice b c s open_now =
    rw (open_now, close_channel)
      (run_queued-SameListeners b s.queue (attach_new b c (closed s))
        ∙ attach_new-listeners b c (closed s))
