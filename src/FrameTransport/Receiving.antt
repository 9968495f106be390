-- ===== src/FrameTransport/Receiving.antt =====
-- What a response, a failure or the end of the channel does in
-- src/front-end/src/infrastructure/transport/webrtc-frame-transport.ts.
use learning_cuda.FrameTransport.{
  Effect, FrameOutcome, FrameResponse, Transport, camera_failed, channel_closed, connected,
  detection_result, disconnected, error, failed, frame_result, processing_error, processing_stats,
  resolved, set_processing, transport_error, transport_status,
}
use learning_cuda.Base.{
  false, ◌&&◌, some, List, ◌∷◌, String, Result, ok, err, ◌==◌, if◌then◌else◌, nat_key, ltb, length,
  string_key,
}
use learning_cuda.Pending.{settle, fail_all}

-- failPendingResponses
unfoldable pub fail_pending_responses : FrameOutcome → Transport → Transport
unfolding fail_all
fail_pending_responses failure s =
    if length s.desk.pending == 0 then s else record s { desk = fail_all failure s.desk }

unfoldable pub handle_error : String → Transport → Transport
handle_error message s = record s {
  connection_state = error;
  effects =
      transport_error message
      ∷ transport_status disconnected "Connection error"
      ∷ set_processing false
      ∷ s.effects;
}

-- response.message || fallback
abbrev pub message_or : String → FrameResponse → String
message_or fallback response =
    if string_key.same response.message "" then fallback else response.message

-- The outcome of a frame's promise, by the code of the response.
abbrev pub outcome_of : FrameResponse → FrameOutcome
outcome_of response =
    if response.code == 0
    then resolved response
    else failed (message_or "Frame processing failed" response)

-- What the managers and the callbacks are told of a response.
abbrev pub told : FrameResponse → Transport → List Effect
told response s =
    let processed =
      if response.code == 0
      then processing_stats ∷ set_processing false ∷ s.effects
      else camera_failed
        ∷ processing_error (message_or "Unknown error" response)
        ∷ set_processing false
        ∷ s.effects in
    let called = if s.frame_result_callback then frame_result response ∷ processed else processed in
    if s.detection_result_callback && ltb 0 response.detections
    then detection_result response ∷ called
    else called

unfoldable pub handle_response : FrameResponse → Transport → Transport
unfolding settle
handle_response response s = record s {
  connection_state = connected;
  last_request = some "ProcessImageResponse";
  desk =
      if response.frame_id == 0
      then s.desk
      else settle response.frame_id (outcome_of response) s.desk;
  effects = told response s;
}

-- A decoded response, or what fromBinary threw.
unfoldable pub on_decoded : Result String FrameResponse → Transport → Transport
unfolding handle_response handle_error
on_decoded (ok response) s = handle_response response s
on_decoded (err message) s = handle_error message s

-- dataChannel.onerror and dataChannel.onclose
unfoldable pub on_channel_error : Transport → Transport
on_channel_error s = record s {
  connection_state = error;
  effects = transport_status disconnected "Transport error" ∷ s.effects;
}

unfoldable pub on_channel_close : Transport → Transport
unfolding fail_pending_responses
on_channel_close s = fail_pending_responses channel_closed (record s {
  connection_state = disconnected;
  effects = transport_status disconnected "Disconnected" ∷ s.effects;
})
