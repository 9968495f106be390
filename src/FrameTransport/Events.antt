-- ===== src/FrameTransport/Events.antt =====
-- What happens to a frame transport (src/front-end/src/infrastructure/transport/webrtc-frame-transport.ts),
-- event by event: calls, the steps of a connection, messages, timeouts, and the channel's events.
use learning_cuda.Base.{ℕ, Bool, true, false, List, [], ◌∷◌, String, Result, ok, err, nat_key}
use learning_cuda.Pending.{expire}
use learning_cuda.Framing.Reassembler.{Pushed, incomplete, assembled, type_error, push_chunk}
use learning_cuda.FrameTransport.{
  FrameResponse, Effect, detection_frame, stats_frame, timed_out, Link, Transport, SendError,
  chunk_send_threw, channel_not_open, no_session, message_refused, disconnect, ensure_connected,
  session_created, transport_ready, connection_settled, on_frame_result, on_detection_result,
  on_stats_result,
}
use learning_cuda.FrameTransport.Receiving.{
  handle_error, on_decoded, on_channel_error, on_channel_close,
}
use learning_cuda.FrameTransport.Sending.{send_frame, send_single_image, begin_request}

pub data Event : Type 0 where
  connects : Link → Event
  creates : String → Event
  -- the transport is ready, with a detection and a stats channel or without
  readies : Bool → Bool → Event
  connects_or_fails : Event
  -- sendSingleImage, and the two parts of sendRequest, the second with options.awaitResponse
  -- (or a rasterization that fails)
  sends_image : Link → Event
  begins finishes : Link → Bool → Event
  cannot_rasterize : Bool → Event
  -- ensureConnected rejects under a sendRequest, with options.awaitResponse, and its message
  cannot_connect : Bool → String → Event
  hears hears_detection hears_stats : List ℕ → Event
  frame_runs_out : ℕ → Event
  channel_fails channel_closes disconnects : Event
  -- onFrameResult, onDetectionResult and onStatsResult
  listens_frames listens_detections listens_stats : Event

abbrev message_of : SendError → String
message_of no_session = "WebRTC session is not available"
message_of channel_not_open = "WebRTC data channel is not open"
message_of chunk_send_threw = "Failed to execute 'send'"
message_of (message_refused e) = "Message too large"

-- The `catch` of sendFrameWithProcessingConfig, where nobody awaits the response.
unfoldable pub caught {ℓ} : {A : Type ℓ} → Transport × Result SendError A → Transport
caught (s, ok a) = s
caught (s, err e) = handle_error (message_of e) s

-- A sendRequest that rejects: its error goes to the caller, or to that catch.
unfoldable pub rejected_request {ℓ} :
    {A : Type ℓ} → Bool → Transport × Result SendError A → Transport
unfolding caught
rejected_request true r = r.0
rejected_request false r = caught r

-- this.detectionResultCallback?.(frame) and this.statsResultCallback?.(frame)
abbrev called : Bool → (ℕ → Effect) → ℕ → Transport → Transport
called false effect frame s = s
called true effect frame s = record s { effects = effect frame ∷ s.effects }

-- The decoded frame of such a channel, or what fromBinary threw.
unfoldable pub on_side_decoded : Bool → (ℕ → Effect) → Result String ℕ → Transport → Transport
on_side_decoded callback effect (ok frame) s = called callback effect frame s
on_side_decoded callback effect (err message) s = handle_error message s

module _ (decode : List ℕ → Result String ℕ) where
  unfoldable pub on_side_pushed : Bool → (ℕ → Effect) → Pushed → Transport → Transport
  unfolding on_side_decoded
  on_side_pushed callback effect incomplete s = s
  on_side_pushed callback effect type_error s = handle_error "Cannot read properties of null" s
  on_side_pushed callback effect (assembled bytes) s =
      on_side_decoded callback effect (decode bytes) s

  -- The message handler of attachDetectionChannel.
  unfoldable pub on_detection_buffer : List ℕ → Transport → Transport
  unfolding on_side_pushed
  on_detection_buffer buffer s =
      let (r, pushed) = push_chunk s.detection_channel_reassembler buffer in
      on_side_pushed s.detection_result_callback detection_frame pushed
        (record s { detection_channel_reassembler = r })

  -- The message handler of attachStatsChannel.
  unfoldable pub on_stats_buffer : List ℕ → Transport → Transport
  unfolding on_side_pushed
  on_stats_buffer buffer s =
      let (r, pushed) = push_chunk s.stats_channel_reassembler buffer in
      on_side_pushed s.stats_result_callback stats_frame pushed
        (record s { stats_channel_reassembler = r })

module _ (to_binary : ℕ → List ℕ) (from_binary : List ℕ → Result String FrameResponse) where
  unfoldable pub on_pushed : Pushed → Transport → Transport
  unfolding on_decoded
  on_pushed incomplete s = s
  on_pushed type_error s = handle_error "Cannot read properties of null" s
  on_pushed (assembled bytes) s = on_decoded (from_binary bytes) s

  -- The message handler of attachDataChannel, with a binary message.
  unfoldable pub on_buffer : List ℕ → Transport → Transport
  unfolding on_pushed
  on_buffer buffer s =
      let (r, pushed) = push_chunk s.frame_channel_reassembler buffer in
      on_pushed pushed (record s { frame_channel_reassembler = r })

module _ (to_binary : ℕ → List ℕ) (from_binary : List ℕ → Result String FrameResponse)
    (decode : List ℕ → Result String ℕ) where
  unfoldable pub step : Transport → Event → Transport
  unfolding rejected_request on_buffer on_detection_buffer on_stats_buffer expire on_frame_result
      on_detection_result on_stats_result
  step s (connects l) = ensure_connected l s
  step s (creates id) = session_created id s
  step s (readies has_detection has_stats) = transport_ready has_detection has_stats s
  step s connects_or_fails = connection_settled s
  step s (sends_image l) = (send_single_image to_binary l s).0
  step s (begins l awaited) = rejected_request awaited (begin_request l s)
  step s (finishes l awaited) = rejected_request awaited (send_frame to_binary l awaited s)
  step s (cannot_rasterize true) = s
  step s (cannot_rasterize false) = handle_error "Failed to load frame image data" s
  step s (cannot_connect true message) = s
  step s (cannot_connect false message) = handle_error message s
  step s (hears buffer) = on_buffer to_binary from_binary buffer s
  step s (hears_detection buffer) = on_detection_buffer decode buffer s
  step s (hears_stats buffer) = on_stats_buffer decode buffer s
  step s (frame_runs_out h) = record s { desk = expire h timed_out s.desk }
  step s channel_fails = on_channel_error s
  step s channel_closes = on_channel_close s
  step s disconnects = disconnect s
  step s listens_frames = on_frame_result s
  step s listens_detections = on_detection_result s
  step s listens_stats = on_stats_result s

  unfoldable pub run : Transport → List Event → Transport
  run s [] = s
  run s (e ∷ es) = run (step s e) es
