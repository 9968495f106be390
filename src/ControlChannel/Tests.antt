-- ===== src/ControlChannel/Tests.antt =====
-- The control channel's theorems at concrete inputs.
use learning_cuda.JsMap.{put}
use learning_cuda.ControlChannel.{send_chunks}
use learning_cuda.ControlChannel.{is_ready}
use learning_cuda.ControlChannel.{step}
use learning_cuda.ControlChannel.{ready_channel}
use learning_cuda.Base.{
  ℕ, ◌-◌, ◌≡◌, ◌≢◌, refl, true, false, none, some, Option, List, [], ◌∷◌, ◌++◌, String, arith,
  string_key, nat_key, length, replicate,
}
use learning_cuda.JsMap.{get}
use learning_cuda.Pending.Invariant.{Inv}
use learning_cuda.Pending.Accounts.{promises}
use learning_cuda.Framing.Pack.{pack_message, pack_chunks, slice_at, chunk_count_of}
use learning_cuda.Framing.Envelope.{write_chunk}
use learning_cuda.Framing.MessageId.{next_message_id}
use learning_cuda.Framing.Reassembler.{new_reassembler, incomplete, assembled}
use learning_cuda.Framing.Reassembler.Delivery.{push_all, Delivered}
use learning_cuda.ControlChannel.{
  ControlResponse, resolved, closed_before_response, Dispatch, Browser, Control, new_control,
  send_request, on_channel_change, asks, changes, hears, request_runs_out, Event, run,
}
use learning_cuda.ControlChannel.Responses.{Message, answer, list_filters_case}
use learning_cuda.ControlChannel.Settled.{requests, settled_once}
use learning_cuda.ControlChannel.Wire.{logged, hears_all, request_arrives, response_resolves}
use learning_cuda.ControlChannel.Closing.{close_rejects_all, close_listens_twice}

abbrev browser : Browser
browser = record { is_open = λ c. true; send_throws = λ c chunk. false }

abbrev request : Dispatch
request = record { request_id = "a"; payload = some (1 ∷ 2 ∷ []) }

abbrev message : Message
message = record { accepted = true; reason = ""; body = [] }

abbrev response : ControlResponse
response = record { request_id = "a"; payload = answer list_filters_case message }

-- A decoder that knows one response.
abbrev from_binary : List ℕ → Option ControlResponse
from_binary bytes = some response

-- A channel has opened.
abbrev attached_control : Control
attached_control = run from_binary new_control (changes browser none (some 4) ∷ [])

-- A request is under way on it.
abbrev waiting_control : Control
waiting_control =
    run from_binary new_control (changes browser none (some 4) ∷ asks browser request ∷ [])

settled_once_example :
    let es = asks browser request ∷ changes browser none (some 4) ∷ request_runs_out 1 ∷ [] in
    Inv (run from_binary new_control es).desk
    × (promises (run from_binary new_control es).desk ≡ requests es)
unfolding get new_control
settled_once_example =
    settled_once from_binary
      (asks browser request ∷ changes browser none (some 4) ∷ request_runs_out 1 ∷ [])
      ((refl, tt), tt)

request_arrives_example :
    ((send_request browser request attached_control).sent
      ≡ logged 4 (write_chunk 1 0 1 (1 ∷ 2 ∷ []) ∷ []) attached_control.sent)
    × Delivered
        (next_message_id attached_control.last_message_id)
        (push_all new_reassembler (write_chunk 1 0 1 (1 ∷ 2 ∷ []) ∷ []))
        (replicate (length (write_chunk 1 0 1 (1 ∷ 2 ∷ []) ∷ []) - 1) incomplete
          ++ assembled (1 ∷ 2 ∷ []) ∷ [])
unfolding ready_channel run step new_control pack_message pack_chunks chunk_count_of next_message_id
    slice_at get
request_arrives_example =
    request_arrives browser request 4 (1 ∷ 2 ∷ []) (write_chunk 1 0 1 (1 ∷ 2 ∷ []) ∷ [])
      attached_control new_reassembler refl (λ chunk. refl) refl refl refl

response_resolves_example :
    let d =
      (run from_binary waiting_control (hears_all 4 (write_chunk 9 0 1 (3 ∷ []) ∷ []))).desk in
    (get "a" d.pending ≡ none) × (get "a" d.settled ≡ some (resolved response))
unfolding run step is_ready new_control pack_message send_chunks pack_chunks chunk_count_of get
    slice_at put
response_resolves_example =
    response_resolves from_binary waiting_control 4 9 1 (3 ∷ []) (write_chunk 9 0 1 (3 ∷ []) ∷ [])
      response refl (omega arith) refl refl refl refl

close_rejects_all_example :
    let s' = on_channel_change browser none none waiting_control in
    (s'.channel ≡ none)
    × (s'.queue ≡ [])
    × (s'.desk.pending ≡ [])
    × ((h : ℕ) (id : String) → get h s'.desk.timers.armed ≢ some id)
    × ((id : String) (h : ℕ)
        → get id waiting_control.desk.pending ≡ some h
        → get id s'.desk.settled ≡ some closed_before_response)
unfolding run step is_ready new_control pack_message send_chunks pack_chunks chunk_count_of get
close_rejects_all_example =
    close_rejects_all browser 4 waiting_control refl
      (settled_once from_binary (changes browser none (some 4) ∷ asks browser request ∷ [])
        ((refl, tt), tt)).0

close_listens_twice_example :
    (on_channel_change browser (some 4) none attached_control).listeners
    ≡ 4 ∷ attached_control.listeners
unfolding run step new_control get
close_listens_twice_example = close_listens_twice browser 4 attached_control refl

-- Two requests are asked and sent when the channel opens. The first is answered, the second runs out of
-- time, and the channel closes.
abbrev a_history : List Event
a_history =
    asks browser request
    ∷ asks browser (record request { request_id = "b" })
    ∷ changes browser none (some 4)
    ∷ hears 4 (write_chunk 9 0 1 (3 ∷ []))
    ∷ request_runs_out 2
    ∷ changes browser none none
    ∷ []
