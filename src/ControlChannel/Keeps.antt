-- ===== src/ControlChannel/Keeps.antt =====
-- What each operation of the control channel (src/front-end/src/infrastructure/transport/
-- control-channel-service.ts) does to the table of requests, its timers, and the promises' phases.
use learning_cuda.Base.{
  ℕ, ◌≡◌, refl, ◌∙◌, Bool, true, false, Option, none, some, List, [], ◌∷◌, ◌++◌, String, Result, ok,
  err, ◌==◌, if◌then◌else◌, string_key, nat_key,
}
use learning_cuda.Pending.{Desk, settle, register}
use learning_cuda.Pending.Invariant.{Inv, settle-Inv, fail_all-Inv}
use learning_cuda.Pending.Accounts.{promises, promises-settle, promises-fail_all}
use learning_cuda.Pending.Ledger.{Move, answers, answers_all, here, Reach-trans}
use learning_cuda.Pending.Refines.{Follows, settle-Follows, fail_all-Follows}
use learning_cuda.Framing.Pack.{PackError, pack_message}
use learning_cuda.Framing.MessageId.{next_message_id}
use learning_cuda.Framing.Reassembler.{Pushed, incomplete, assembled, type_error, push_chunk}
use learning_cuda.ControlChannel.{
  ControlResponse, Outcome, resolved, send_threw, closed_before_response, not_encoded, too_large,
  Dispatch, Browser, Control, ready_channel, is_ready, send_chunks, reject_pending, after_send,
  send_packed, send_encoded, dispatch_on, dispatch, send_request, run_queued, closed, attached,
  attach_new, is_same, attach_channel, after_close, close_channel, on_channel_change, on_response,
  on_assembled, on_buffer, hear,
}

-- How a send fails.
abbrev pub IsSendFailure : Outcome → Type 0
IsSendFailure send_threw = Unit
IsSendFailure not_encoded = Unit
IsSendFailure (too_large e) = Unit
IsSendFailure _ = ⊥

-- The desk stays well-formed, with as many promises as before, whose phases move as `P` allows.
abbrev pub KeepsDesk :
    (Move String Outcome → Type 0) → Desk String Outcome → Desk String Outcome → Type 0
KeepsDesk P d d' = Inv d → Inv d' × (promises d' ≡ promises d) × Follows P d d'

module _ (P : Move String Outcome → Type 0) where
  abbrev pub Keeps : Control → Control → Type 0
  Keeps s s' = KeepsDesk P s.desk s'.desk

  -- A send that fails may reject its request.
  abbrev pub MayFail : String → Type 0
  MayFail id = (o : Outcome) → IsSendFailure o → P (answers id o)

  Keeps-then : (s s' s'' : Control) → Keeps s s' → Keeps s' s'' → Keeps s s''
  Keeps-then s s' s'' p q v =
      let (v', same, r) = p v in
      let (v'', same', r') = q v' in (v'', same' ∙ same, Reach-trans r r')

  Keeps-if : (t : Bool) (s x y : Control) → Keeps s x → Keeps s y → Keeps s (if t then x else y)
  Keeps-if true s x y p q = p
  Keeps-if false s x y p q = q

  settle-Keeps :
      (id : String) (o : Outcome) (d : Desk String Outcome)
      → P (answers id o)
      → KeepsDesk P d (settle id o d)
  settle-Keeps id o d p v = (settle-Inv id o d v, promises-settle id o d v, settle-Follows id o d p)

  reject_pending-Keeps :
      (id : String) (o : Outcome) (s : Control) → P (answers id o) → Keeps s (reject_pending id o s)
  unfolding reject_pending
  reject_pending-Keeps id o s p v = settle-Keeps id o s.desk p v

  after_send-Keeps :
      (id : String) (r : List (ℕ × List ℕ) × Bool) (s : Control)
      → MayFail id
      → Keeps s (after_send id r s)
  unfolding after_send
  after_send-Keeps id (sent, true) s f = λ v. (v, refl, here)
  after_send-Keeps id (sent, false) s f =
      reject_pending-Keeps id send_threw (record s { sent = sent }) (f send_threw tt)

  send_packed-Keeps :
      (b : Browser) (c : ℕ) (id : String) (r : Result PackError (List (List ℕ))) (s : Control)
      → MayFail id
      → Keeps s (send_packed b c id r s)
  unfolding send_packed
  send_packed-Keeps b c id (err e) s f =
      reject_pending-Keeps id (too_large e) s (f (too_large e) tt)
  send_packed-Keeps b c id (ok chunks) s f = after_send-Keeps id (send_chunks b c chunks s.sent) s f

  send_encoded-Keeps :
      (b : Browser) (c : ℕ) (id : String) (payload : Option (List ℕ)) (s : Control)
      → MayFail id
      → Keeps s (send_encoded b c id payload s)
  unfolding send_encoded
  send_encoded-Keeps b c id none s f = reject_pending-Keeps id not_encoded s (f not_encoded tt)
  send_encoded-Keeps b c id (some payload) s f =
      let mid = next_message_id s.last_message_id in
      send_packed-Keeps b c id (pack_message mid payload) (record s { last_message_id = mid }) f

  dispatch_on-Keeps :
      (b : Browser) (d : Dispatch) (c : Option ℕ) (s : Control)
      → MayFail d.request_id
      → Keeps s (dispatch_on b d c s)
  unfolding dispatch_on
  dispatch_on-Keeps b d none s f = λ v. (v, refl, here)
  dispatch_on-Keeps b d (some c) s f = send_encoded-Keeps b c d.request_id d.payload s f

  dispatch-Keeps :
      (b : Browser) (d : Dispatch) (s : Control) → MayFail d.request_id → Keeps s (dispatch b d s)
  unfolding dispatch
  dispatch-Keeps b d s f = dispatch_on-Keeps b d (ready_channel b s.channel) s f

  -- A request after its registration.
  pub send_request-Keeps :
      (b : Browser) (d : Dispatch) (s : Control)
      → MayFail d.request_id
      → Keeps (record s { desk = register d.request_id s.desk }) (send_request b d s)
  unfolding send_request
  send_request-Keeps b d s f =
      let registered = record s { desk = register d.request_id s.desk } in
      Keeps-if (is_ready b s) registered (dispatch b d registered)
        (record registered { queue = s.queue ++ d ∷ [] }) (dispatch-Keeps b d registered f)
        (λ v. (v, refl, here))

  run_queued-Keeps :
      (b : Browser) (ds : List Dispatch) (s : Control)
      → ((id : String) → MayFail id)
      → Keeps s (run_queued b ds s)
  unfolding run_queued
  run_queued-Keeps b [] s f = λ v. (v, refl, here)
  run_queued-Keeps b (d ∷ ds) s f =
      Keeps-then s (dispatch b d s) (run_queued b ds (dispatch b d s))
        (dispatch-Keeps b d s (f d.request_id)) (run_queued-Keeps b ds (dispatch b d s) f)

  attach_new-Keeps :
      (b : Browser) (c : ℕ) (s : Control)
      → ((id : String) → MayFail id)
      → Keeps s (attach_new b c s)
  unfolding attach_new
  attach_new-Keeps b c s f =
      let emptied = record (attached c s) { queue = [] } in
      Keeps-if (b.is_open c) s (run_queued b s.queue emptied) (attached c s)
        (run_queued-Keeps b s.queue emptied f) (λ v. (v, refl, here))

  attach_channel-Keeps :
      (b : Browser) (c : ℕ) (s : Control)
      → ((id : String) → MayFail id)
      → Keeps s (attach_channel b c s)
  unfolding attach_channel
  attach_channel-Keeps b c s f =
      Keeps-if (is_same c s.channel) s s (attach_new b c s) (λ v. (v, refl, here))
        (attach_new-Keeps b c s f)

  after_close-Keeps :
      (b : Browser) (fallback : Option ℕ) (queued : List Dispatch) (s : Control)
      → ((id : String) → MayFail id)
      → (fallback ≡ none → P (answers_all closed_before_response))
      → Keeps s (after_close b fallback queued s)
  unfolding after_close
  after_close-Keeps b (some c) queued s f p =
      Keeps-then s (attach_channel b c s) (run_queued b queued (attach_channel b c s))
        (attach_channel-Keeps b c s f) (run_queued-Keeps b queued (attach_channel b c s) f)
  after_close-Keeps b none queued s f p = λ v. (
    fail_all-Inv closed_before_response s.desk v,
    promises-fail_all closed_before_response s.desk,
    fail_all-Follows closed_before_response s.desk (p refl) v,
  )

  close_channel-Keeps :
      (b : Browser) (fallback c : Option ℕ) (s : Control)
      → ((id : String) → MayFail id)
      → (fallback ≡ none → P (answers_all closed_before_response))
      → Keeps s (close_channel b fallback c s)
  unfolding close_channel
  close_channel-Keeps b fallback none s f p = λ v. (v, refl, here)
  close_channel-Keeps b fallback (some c) s f p =
      after_close-Keeps b fallback s.queue (closed s) f p

  pub on_channel_change-Keeps :
      (b : Browser) (fallback c : Option ℕ) (s : Control)
      → ((id : String) → MayFail id)
      → (c ≡ none → fallback ≡ none → P (answers_all closed_before_response))
      → Keeps s (on_channel_change b fallback c s)
  unfolding on_channel_change
  on_channel_change-Keeps b fallback none s f p =
      close_channel-Keeps b fallback s.channel s f (p refl)
  on_channel_change-Keeps b fallback (some c) s f p = attach_channel-Keeps b c s f

  on_response-Keeps :
      (r : Option ControlResponse) (s : Control)
      → ((a : ControlResponse) → P (answers a.request_id (resolved a)))
      → Keeps s (on_response r s)
  unfolding on_response
  on_response-Keeps none s p = λ v. (v, refl, here)
  on_response-Keeps (some r) s p = settle-Keeps r.request_id (resolved r) s.desk (p r)

  module _ (from_binary : List ℕ → Option ControlResponse)
      (p : (a : ControlResponse) → P (answers a.request_id (resolved a))) where
    on_assembled-Keeps :
        (pushed : Pushed) (s : Control) → Keeps s (on_assembled from_binary pushed s)
    unfolding on_assembled
    on_assembled-Keeps incomplete s = λ v. (v, refl, here)
    on_assembled-Keeps type_error s = λ v. (v, refl, here)
    on_assembled-Keeps (assembled bytes) s = on_response-Keeps (from_binary bytes) s p

    on_buffer-Keeps : (buffer : List ℕ) (s : Control) → Keeps s (on_buffer from_binary buffer s)
    unfolding on_buffer
    on_buffer-Keeps buffer s = on_assembled-Keeps ((push_chunk s.reassembler buffer).1) _

    pub hear-Keeps :
        (c : ℕ) (buffer : List ℕ) (ls : List ℕ) (s : Control)
        → Keeps s (hear from_binary c buffer ls s)
    unfolding hear
    hear-Keeps c buffer [] s = λ v. (v, refl, here)
    hear-Keeps c buffer (l ∷ ls) s =
        let next = if l == c then on_buffer from_binary buffer s else s in
        Keeps-then s next (hear from_binary c buffer ls next)
          (Keeps-if (l == c) s (on_buffer from_binary buffer s) s (on_buffer-Keeps buffer s)
            (λ v. (v, refl, here)))
          (hear-Keeps c buffer ls next)
