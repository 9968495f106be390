-- ===== src/FrameTransport/Tests.antt =====
-- The frame transport's theorems at concrete inputs.
use learning_cuda.FrameTransport.{ensure_connected}
use learning_cuda.JsMap.{put}
use learning_cuda.Framing.Pack.{chunk_count_of}
use learning_cuda.Framing.Pack.{pack_chunks}
use learning_cuda.FrameTransport.Sending.{send_chunks}
use learning_cuda.Framing.Pack.{pack_message}
use learning_cuda.FrameTransport.{session_created}
use learning_cuda.FrameTransport.{transport_ready, attach_detection_channel, attach_stats_channel}
use learning_cuda.FrameTransport.{connection_settled}
use learning_cuda.FrameTransport.Sending.{send_single_image}
use learning_cuda.FrameTransport.Events.{step}
use learning_cuda.Base.{
  ℕ, ◌≡◌, ◌≢◌, refl, true, false, none, some, List, [], ◌∷◌, String, Result, ok, arith, nat_key,
  length,
}
use learning_cuda.JsMap.{get}
use learning_cuda.FrameTransport.{
  FrameResponse, resolved, failed, transport_disconnected, disconnected, close_session,
  transport_status, Link, Transport, new_transport, disconnect,
}
use learning_cuda.FrameTransport.Receiving.{handle_response}
use learning_cuda.FrameTransport.Events.{
  Event, connects, creates, readies, connects_or_fails, sends_image, run,
}
use learning_cuda.FrameTransport.Settled.{run-Sound}
use learning_cuda.FrameTransport.Ids.{Sound}
use learning_cuda.FrameTransport.Answers.{response_settles_own_frame, disconnect_rejects_all}
use learning_cuda.FrameTransport.Filters.{Filter, single, many, boolean, rendered, missing}

abbrev link : Link
link = record { is_open = λ id. true; send_throws = λ chunk. false }

abbrev to_binary : ℕ → List ℕ
to_binary frame_id = frame_id ∷ []

abbrev response : FrameResponse
response = record { frame_id = 1; code = 0; message = ""; detections = 0 }

abbrev from_binary : List ℕ → Result String FrameResponse
from_binary bytes = ok response

abbrev decode : List ℕ → Result String ℕ
decode bytes = ok (length bytes)

-- A connected transport, with one frame under way.
abbrev events : List Event
events = connects link ∷ creates "s" ∷ readies true true ∷ connects_or_fails ∷ sends_image link ∷ []

abbrev waiting : Transport
waiting = run to_binary from_binary decode new_transport events

abbrev filters : List Filter
filters =
    record {
      id = "blur";
      parameters =
          ("size", single (rendered "5")) ∷ ("mode", many (missing ∷ boolean true ∷ [])) ∷ [];
    }
    ∷ []

run-Sound_example : Sound (run to_binary from_binary decode new_transport events)
run-Sound_example = run-Sound to_binary from_binary decode events

-- A failure without a message.
abbrev failing : FrameResponse
failing = record response { code = 3 }

response_settles_own_frame_example :
    let d = (handle_response failing waiting).desk in
    (failing.code ≡ 0 → get 1 d.settled ≡ some (resolved failing))
    × (failing.code ≢ 0 → failing.message ≢ "" → get 1 d.settled ≡ some (failed failing.message))
    × (failing.code ≢ 0
        → failing.message ≡ ""
        → get 1 d.settled ≡ some (failed "Frame processing failed"))
    × (get 1 d.pending ≡ none)
    × ((other : ℕ) → other ≢ 1 → get other d.pending ≡ get other waiting.desk.pending)
unfolding get run step send_single_image connection_settled transport_ready attach_detection_channel
    attach_stats_channel session_created pack_message send_chunks pack_chunks chunk_count_of put
    ensure_connected new_transport
response_settles_own_frame_example =
    response_settles_own_frame failing waiting 1 (λ e. omega (arith, e)) refl

disconnect_rejects_all_example :
    let s' = disconnect waiting in
    (s'.session_id ≡ none)
    × (s'.desk.pending ≡ [])
    × ((h frame : ℕ) → get h s'.desk.timers.armed ≢ some frame)
    × ((frame h : ℕ)
        → get frame waiting.desk.pending ≡ some h
        → get frame s'.desk.settled ≡ some transport_disconnected)
    × (s'.effects
        ≡ close_session "s" ∷ transport_status disconnected "Disconnected" ∷ waiting.effects)
unfolding run step send_single_image connection_settled transport_ready attach_detection_channel
    attach_stats_channel session_created pack_message send_chunks pack_chunks chunk_count_of
disconnect_rejects_all_example =
    disconnect_rejects_all waiting "s" (run-Sound to_binary from_binary decode events).0 refl
