-- ===== src/FrameTransport/Settled.antt =====
-- Frame ids and the promises of frames, over all events of a transport
-- (src/front-end/src/infrastructure/transport/webrtc-frame-transport.ts).
use learning_cuda.FrameTransport.Ids.{
  Sound, take_frame_id-Sound, fail_all-Sound, send_packed-Sound, caught-Sound, send_checked-Sound,
  begin_checked-Sound, ensure_connected-Sound, on_decoded-Sound, on_channel_close-Sound,
}
use learning_cuda.Base.{ℕ, ◌≤◌, Bool, true, false, List, [], ◌∷◌, String, Result, ok, err, nat_key}
use learning_cuda.Pending.{empty_desk}
use learning_cuda.Pending.Invariant.{empty_desk-Inv, expire-Inv}
use learning_cuda.Pending.Known.{expire-Known}
use learning_cuda.Framing.Reassembler.{Pushed, incomplete, assembled, type_error, push_chunk}
use learning_cuda.FrameTransport.{
  FrameResponse, timed_out, transport_disconnected, Link, Transport, SendError, new_transport,
  disconnect, Effect, detection_frame, stats_frame, attach_detection_channel, attach_stats_channel,
  session_created, transport_ready, attach_data_channel, connection_settled, on_frame_result,
  on_detection_result, on_stats_result,
}
use learning_cuda.FrameTransport.Receiving.{handle_error, on_channel_error}
use learning_cuda.FrameTransport.Sending.{
  send_frame, open_session, send_single_image, begin_request,
}
use learning_cuda.FrameTransport.Events.{
  Event, connects, creates, readies, connects_or_fails, sends_image, begins, finishes,
  cannot_rasterize, cannot_connect, hears, hears_detection, hears_stats, rejected_request,
  on_side_decoded, on_side_pushed, on_detection_buffer, on_stats_buffer, frame_runs_out,
  channel_fails, channel_closes, disconnects, listens_frames, listens_detections, listens_stats,
  on_pushed, on_buffer, step, run,
}

module _ (to_binary : ℕ → List ℕ) (from_binary : List ℕ → Result String FrameResponse) where
  send_frame-Sound :
      (l : Link) (awaited : Bool) (s : Transport)
      → Sound s
      → Sound (send_frame to_binary l awaited s).0
  unfolding send_frame
  send_frame-Sound l awaited s v =
      send_packed-Sound l awaited _ _ _ (take_frame_id-Sound awaited s v)

  on_pushed-Sound :
      (p : Pushed) (s : Transport) → Sound s → Sound (on_pushed to_binary from_binary p s)
  unfolding on_pushed handle_error
  on_pushed-Sound incomplete s v = v
  on_pushed-Sound type_error s v = v
  on_pushed-Sound (assembled bytes) s v = on_decoded-Sound (from_binary bytes) s v

rejected_request-Sound :
    {A : Type 0} (awaited : Bool) (r : Transport × Result SendError A)
    → Sound r.0
    → Sound (rejected_request awaited r)
unfolding rejected_request
rejected_request-Sound true r v = v
rejected_request-Sound false r v = caught-Sound r v

on_side_decoded-Sound :
    (callback : Bool) (effect : ℕ → Effect) (r : Result String ℕ) (s : Transport)
    → Sound s
    → Sound (on_side_decoded callback effect r s)
unfolding on_side_decoded handle_error
on_side_decoded-Sound true effect (ok frame) s v = v
on_side_decoded-Sound false effect (ok frame) s v = v
on_side_decoded-Sound callback effect (err e) s v = v

on_side_pushed-Sound :
    (decode : List ℕ → Result String ℕ) (callback : Bool) (effect : ℕ → Effect) (p : Pushed)
    (s : Transport)
    → Sound s
    → Sound (on_side_pushed decode callback effect p s)
unfolding on_side_pushed handle_error
on_side_pushed-Sound decode callback effect incomplete s v = v
on_side_pushed-Sound decode callback effect type_error s v = v
on_side_pushed-Sound decode callback effect (assembled bytes) s v =
    on_side_decoded-Sound callback effect (decode bytes) s v

transport_ready-Sound :
    (has_detection has_stats : Bool) (s : Transport)
    → Sound s
    → Sound (transport_ready has_detection has_stats s)
unfolding transport_ready attach_data_channel attach_detection_channel attach_stats_channel
transport_ready-Sound true true s v = v
transport_ready-Sound true false s v = v
transport_ready-Sound false true s v = v
transport_ready-Sound false false s v = v

module _ (to_binary : ℕ → List ℕ) (from_binary : List ℕ → Result String FrameResponse)
    (decode : List ℕ → Result String ℕ) where
  step-Sound : (s : Transport) (e : Event) → Sound s → Sound (step to_binary from_binary decode s e)
  unfolding step session_created connection_settled handle_error send_single_image begin_request
      on_buffer on_detection_buffer on_stats_buffer on_channel_error disconnect on_frame_result
      on_detection_result on_stats_result
  step-Sound s (connects l) v = ensure_connected-Sound l s v
  step-Sound s (creates id) v = v
  step-Sound s (readies d t) v = transport_ready-Sound d t s v
  step-Sound s connects_or_fails v = v
  step-Sound s (sends_image l) v =
      send_checked-Sound to_binary l (open_session l s.session_id) s
        (send_frame-Sound to_binary from_binary l true) v
  step-Sound s (begins l awaited) v =
      rejected_request-Sound awaited (begin_request l s)
        (begin_checked-Sound (open_session l s.session_id) s v)
  step-Sound s (finishes l awaited) v =
      rejected_request-Sound awaited (send_frame to_binary l awaited s)
        (send_frame-Sound to_binary from_binary l awaited s v)
  step-Sound s (cannot_rasterize true) v = v
  step-Sound s (cannot_rasterize false) v = v
  step-Sound s (cannot_connect true message) v = v
  step-Sound s (cannot_connect false message) v = v
  step-Sound s (hears buffer) v =
      on_pushed-Sound to_binary from_binary ((push_chunk s.frame_channel_reassembler buffer).1) _ v
  step-Sound s (hears_detection buffer) v =
      on_side_pushed-Sound decode s.detection_result_callback detection_frame
        ((push_chunk s.detection_channel_reassembler buffer).1) _ v
  step-Sound s (hears_stats buffer) v =
      on_side_pushed-Sound decode s.stats_result_callback stats_frame
        ((push_chunk s.stats_channel_reassembler buffer).1) _ v
  step-Sound s (frame_runs_out h) (v, k) = (
    expire-Inv h timed_out s.desk v,
    expire-Known (λ j. j ≤ s.frame_id_counter) h timed_out s.desk v k,
  )
  step-Sound s channel_fails v = v
  step-Sound s channel_closes v = on_channel_close-Sound s v
  step-Sound s disconnects v = fail_all-Sound transport_disconnected s v
  step-Sound s listens_frames v = v
  step-Sound s listens_detections v = v
  step-Sound s listens_stats v = v

  run-Sound_from :
      (s : Transport) (es : List Event) → Sound s → Sound (run to_binary from_binary decode s es)
  unfolding run
  run-Sound_from s [] v = v
  run-Sound_from s (e ∷ es) v =
      run-Sound_from (step to_binary from_binary decode s e) es (step-Sound s e v)

  -- However calls, responses, timeouts and channel events follow one another: the frames that wait are
  -- exactly those with an armed timer, no frame's promise is settled twice or while it waits, and all
  -- their ids were given out, so the next id is new.
  pub run-Sound : (es : List Event) → Sound (run to_binary from_binary decode new_transport es)
  unfolding new_transport empty_desk
  run-Sound es = run-Sound_from new_transport es (empty_desk-Inv, (tt, tt))
