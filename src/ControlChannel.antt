-- ===== src/ControlChannel.antt =====
-- `ControlChannelService` of src/front-end/src/infrastructure/transport/control-channel-service.ts. A
-- data channel is a number; whether it is open and whether its `send` throws is told by the event's
-- environment. Logging is left out.
pub mod Responses
pub mod Keeps
pub mod Settled
pub mod Wire
pub mod Closing
mod Tests
use learning_cuda.Base.{
  ℕ, zero, suc, ◌+◌, Bool, true, false, not, Option, none, some, List, [], ◌∷◌, ◌++◌, String,
  Result, ok, err, ◌==◌, ◌%◌, ◌^◌, if◌then◌else◌, string_key,
}
use learning_cuda.Pending.{Desk, empty_desk, register, settle, expire, fail_all}
use learning_cuda.Framing.MessageId.{next_message_id}
use learning_cuda.Framing.Pack.{PackError, pack_message}
use learning_cuda.Framing.Reassembler.{
  Reassembler, new_reassembler, Pushed, incomplete, assembled, type_error, push_chunk, fire_timer,
}
use learning_cuda.ControlChannel.Responses.{Payload}

-- The fields of a ControlResponse that are read.
pub record ControlResponse : Type 0 where
  pub request_id : String
  pub payload : Payload

-- What a request's promise is settled with.
pub data Outcome : Type 0 where
  resolved : ControlResponse → Outcome
  timed_out send_threw closed_before_response not_encoded : Outcome
  too_large : PackError → Outcome

-- The closure `dispatch` of a request: its id, and the bytes of request.toBinary(), or none where it throws.
pub record Dispatch : Type 0 where
  pub request_id : String
  pub payload : Option (List ℕ)

-- The browser during an event: which channels are open, and whether sending a buffer on one throws.
pub record Browser : Type 0 where
  pub is_open : ℕ → Bool
  pub send_throws : ℕ → List ℕ → Bool

pub record Control : Type 0 where
  pub channel : Option ℕ
  pub reassembler : Reassembler
  pub desk : Desk String Outcome
  pub queue : List Dispatch
  -- the channels that a message listener was added to, the last one first
  pub listeners : List ℕ
  -- what was sent, and on which channel, the last one first
  pub sent : List (ℕ × List ℕ)
  -- the counter behind nextMessageId
  pub last_message_id : ℕ

unfoldable pub new_control : Control
unfolding new_reassembler empty_desk
new_control = record {
  channel = none;
  reassembler = new_reassembler;
  desk = empty_desk;
  queue = [];
  listeners = [];
  sent = [];
  last_message_id = 0;
}

-- this.channel && this.channel.readyState === 'open'
unfoldable pub ready_channel : Browser → Option ℕ → Option ℕ
ready_channel b none = none
ready_channel b (some c) = if b.is_open c then some c else none

-- isReady
unfoldable pub is_ready : Browser → Control → Bool
unfolding ready_channel
is_ready b s = elim (ready_channel b s.channel) [ none ↦ false | some c ↦ true ]

-- The loop over the chunks: what was sent before a send threw, and whether none threw.
unfoldable pub send_chunks :
    Browser → ℕ → List (List ℕ) → List (ℕ × List ℕ) → List (ℕ × List ℕ) × Bool
send_chunks b c [] sent = (sent, true)
send_chunks b c (chunk ∷ chunks) sent =
    let rest = send_chunks b c chunks ((c, chunk) ∷ sent) in
    if b.send_throws c chunk then (sent, false) else rest

-- this.rejectPending(requestId, error)
unfoldable pub reject_pending : String → Outcome → Control → Control
unfolding settle
reject_pending request_id error s = record s { desk = settle request_id error s.desk }

unfoldable pub after_send : String → List (ℕ × List ℕ) × Bool → Control → Control
unfolding reject_pending
after_send request_id (sent, true) s = record s { sent = sent }
after_send request_id (sent, false) s =
    reject_pending request_id send_threw (record s { sent = sent })

unfoldable pub send_packed :
    Browser → ℕ → String → Result PackError (List (List ℕ)) → Control → Control
unfolding after_send reject_pending
send_packed b c request_id (err e) s = reject_pending request_id (too_large e) s
send_packed b c request_id (ok chunks) s = after_send request_id (send_chunks b c chunks s.sent) s

-- The try block of `dispatch`
unfoldable pub send_encoded : Browser → ℕ → String → Option (List ℕ) → Control → Control
unfolding send_packed reject_pending
send_encoded b c request_id none s = reject_pending request_id not_encoded s
send_encoded b c request_id (some payload) s =
    let id = next_message_id s.last_message_id in
    send_packed b c request_id (pack_message id payload) (record s { last_message_id = id })

unfoldable pub dispatch_on : Browser → Dispatch → Option ℕ → Control → Control
unfolding send_encoded
dispatch_on b d none s = record s { queue = s.queue ++ d ∷ [] }
dispatch_on b d (some c) s = send_encoded b c d.request_id d.payload s

-- dispatch()
unfoldable pub dispatch : Browser → Dispatch → Control → Control
unfolding dispatch_on
dispatch b d s = dispatch_on b d (ready_channel b s.channel) s

unfoldable pub send_request : Browser → Dispatch → Control → Control
unfolding dispatch register
send_request b d s =
    let registered = record s { desk = register d.request_id s.desk } in
    if is_ready b s
    then dispatch b d registered
    else record registered { queue = s.queue ++ d ∷ [] }

-- for (const fn of queued) fn()
unfoldable pub run_queued : Browser → List Dispatch → Control → Control
unfolding dispatch
run_queued b [] s = s
run_queued b (d ∷ ds) s = run_queued b ds (dispatch b d s)

-- this.channel = channel, with a new reassembler and one more listener
abbrev pub attached : ℕ → Control → Control
attached c s = record s {
  channel = some c;
  reassembler = new_reassembler;
  listeners = c ∷ s.listeners;
}

-- The part of attachChannel after its guard.
unfoldable pub attach_new : Browser → ℕ → Control → Control
unfolding run_queued
attach_new b c s =
    if b.is_open c
    then run_queued b s.queue (record (attached c s) { queue = [] })
    else attached c s

unfoldable pub is_same : ℕ → Option ℕ → Bool
is_same c none = false
is_same c (some c') = c' == c

unfoldable pub attach_channel : Browser → ℕ → Control → Control
unfolding attach_new is_same
attach_channel b c s = if is_same c s.channel then s else attach_new b c s

-- The rest of a close: with an open channel of another session, or without one.
unfoldable pub after_close : Browser → Option ℕ → List Dispatch → Control → Control
unfolding attach_channel run_queued fail_all
after_close b (some fallback) queued s = run_queued b queued (attach_channel b fallback s)
after_close b none queued s = record s { desk = fail_all closed_before_response s.desk }

-- this.channel = null, with a new reassembler and an empty queue
abbrev pub closed : Control → Control
closed s = record s { channel = none; reassembler = new_reassembler; queue = [] }

unfoldable pub close_channel : Browser → Option ℕ → Option ℕ → Control → Control
unfolding after_close
close_channel b fallback none s = s
close_channel b fallback (some c) s = after_close b fallback s.queue (closed s)

-- onChannelChange; `fallback` is what webrtcService.getAnyOpenControlDataChannel() returns
unfoldable pub on_channel_change : Browser → Option ℕ → Option ℕ → Control → Control
unfolding close_channel attach_channel
on_channel_change b fallback none s = close_channel b fallback s.channel s
on_channel_change b fallback (some c) s = attach_channel b c s

-- A decoded response, or none where fromBinary threw.
unfoldable pub on_response : Option ControlResponse → Control → Control
on_response none s = s
on_response (some response) s = record s {
  desk = settle response.request_id (resolved response) s.desk;
}

module _ (from_binary : List ℕ → Option ControlResponse) where
  unfoldable pub on_assembled : Pushed → Control → Control
  unfolding on_response
  on_assembled incomplete s = s
  on_assembled type_error s = s
  on_assembled (assembled bytes) s = on_response (from_binary bytes) s

  -- The listener of a channel, with the buffer of one message.
  unfoldable pub on_buffer : List ℕ → Control → Control
  unfolding on_assembled
  on_buffer buffer s =
      let (r, pushed) = push_chunk s.reassembler buffer in
      on_assembled pushed (record s { reassembler = r })

  -- A message on a channel: every listener that was added to it runs.
  unfoldable pub hear : ℕ → List ℕ → List ℕ → Control → Control
  unfolding on_buffer
  hear c buffer [] s = s
  hear c buffer (l ∷ ls) s = hear c buffer ls (if l == c then on_buffer buffer s else s)

pub data Event : Type 0 where
  asks : Browser → Dispatch → Event
  changes : Browser → Option ℕ → Option ℕ → Event
  hears : ℕ → List ℕ → Event
  request_runs_out chunks_run_out : ℕ → Event

module _ (from_binary : List ℕ → Option ControlResponse) where
  unfoldable pub step : Control → Event → Control
  unfolding send_request on_channel_change hear expire fire_timer
  step s (asks b d) = send_request b d s
  step s (changes b fallback channel) = on_channel_change b fallback channel s
  step s (hears c buffer) = hear from_binary c buffer s.listeners s
  step s (request_runs_out h) = record s { desk = expire h timed_out s.desk }
  step s (chunks_run_out h) = record s { reassembler = fire_timer s.reassembler h }

  unfoldable pub run : Control → List Event → Control
  run s [] = s
  run s (e ∷ es) = run (step s e) es
