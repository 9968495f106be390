-- ===== src/Sessions/Tests.antt =====
-- The theorems of the sessions at concrete inputs.
use learning_cuda.Base.{
  ℕ, ◌≡◌, ◌≢◌, ◌↔◌, ◌⊎◌, refl, inl, inr, Bool, true, false, none, some, List, [], ◌∷◌, String, err,
  ◌-◌, ◌++◌, length, replicate, arith, string_key, nat_key,
}
use learning_cuda.JsMap.{get, has, put, remove, values}
use learning_cuda.Timers.{set_timer, clear_timer}
use learning_cuda.Sessions.{
  connected, disconnected, channel_open, channel_connecting, is_open, is_connecting,
  frame_processing, send_buffer, send_ice_candidate, close_peer, Service, new_service,
}
use learning_cuda.Sessions.Cleanup.{cleanup_session, view, empty_view, cleanup_forgets_session}
use learning_cuda.Sessions.Heartbeat.{session_closed, Browser, get_or_0, heartbeat_tick}
use learning_cuda.Sessions.Heartbeat.Degraded.{Reconnects, third_failure-Reconnects}
use learning_cuda.Sessions.Heartbeat.Intervals.{
  Intervals, Event, creates, starts, stops, fires, closes, run, run-Intervals,
}
use learning_cuda.Sessions.Status.{any, get_connection_status, connection_status}
use learning_cuda.Sessions.Signaling.{
  handle_signaling_message, close_session_response, start_session_response, handle_events,
  ensure_polling, later_answers_ignored, ensure_polling_once,
}
use learning_cuda.Sessions.Candidates.{
  PeerState, begin_negotiation, on_ice_candidates, no_candidate_before_answer,
}
use learning_cuda.Sessions.Waits.{wait_for_data_channel_open, begin_wait, opened, open_event}
use learning_cuda.Sessions.Closing.{
  close_session_beacon, queues, handle_session_error, Forgets, every_close-Forgets,
}
use learning_cuda.Sessions.Creation.{
  creation_failed, Platform, Options, no_data_channel, create_session, failed_channel_leaks_session,
}
use learning_cuda.Framing.Pack.{pack_message, pack_chunks, chunk_count_of, slice_at}
use learning_cuda.Framing.Envelope.{write_chunk}
use learning_cuda.Framing.MessageId.{next_message_id}
use learning_cuda.Framing.Reassembler.{new_reassembler, incomplete, assembled}
use learning_cuda.Framing.Reassembler.Delivery.{push_all, Delivered}
use learning_cuda.Sessions.Ping.{BothOrNone, setup_ping_channel, ping_failed, ping_all_or_nothing}
use learning_cuda.Sessions.Ready.{
  Wait, pending, ready, wait_for_transport_ready, transport_wait_ends,
}
use learning_cuda.Sessions.Requests.{Wire, send_control_request, control_request_arrives}

-- A browser whose channels are open; its sends throw or not.
abbrev browser : Bool → Browser
browser throws = record { now = 5; ready_state = λ c. channel_open; send_throws = λ c. throws }

-- A session with a data channel, an answer, and two failed heartbeats.
abbrev running : Service
running = record new_service {
  sessions = ("a", record { id = "a"; source_id = "webcam"; mode = frame_processing }) ∷ [];
  peer_connections = ("a", 1) ∷ ("b", 2) ∷ [];
  data_channels = ("a", 3) ∷ [];
  control_channels = ("a", 4) ∷ [];
  session_negotiated = ("a", true) ∷ [];
  heartbeat_consecutive_failures = ("a", 2) ∷ [];
}

abbrev peer : PeerState
peer = record { is_connected = false; ice_is_connected = false }

-- A browser that gives a peer connection but no channel.
abbrev platform : Platform
platform = record {
  is_supported = true;
  is_initialized = true;
  new_peer_connection = some 7;
  new_channel = λ label. none;
  ready_state = λ c. channel_connecting;
  trim = λ text. text;
}

abbrev options : Options
options = record { mode = frame_processing; use_data_channel = true; on_remote_stream = none }

cleanup_forgets_session_example :
    (view "a" (cleanup_session "a" running) ≡ empty_view)
    × ((other : String)
        → "a" ≢ other
        → view other (cleanup_session "a" running) ≡ view other running)
cleanup_forgets_session_example = cleanup_forgets_session "a" running

third_failure-Reconnects_example :
    Reconnects "a" running (heartbeat_tick (browser true) "a" running)
unfolding get get_or_0 has new_service
third_failure-Reconnects_example =
    third_failure-Reconnects (browser true) "a" 3 running refl refl refl (omega arith) refl

-- A browser that gives channels too.
abbrev working : Platform
working = record platform { new_channel = λ label. some 8 }

-- A session is created, its heartbeat is started twice, fires, is stopped and is started again; then the
-- session is closed.
abbrev heartbeats : List Event
heartbeats =
    creates working "n" "webcam" options
    ∷ starts (browser false) "n"
    ∷ starts (browser false) "n"
    ∷ fires (browser false) 1
    ∷ stops (browser false) "n"
    ∷ starts (browser false) "n"
    ∷ []

second_interval_is_armed : (run new_service heartbeats).timers.armed ≡ (2, "n") ∷ []
unfolding run new_service put has set_timer remove clear_timer
second_interval_is_armed = refl

run-Intervals_example : Intervals (run new_service (heartbeats ++ closes "n" ∷ []))
run-Intervals_example = run-Intervals (heartbeats ++ closes "n" ∷ [])

connection_status_example :
    ((get_connection_status (λ c. channel_open) running ≡ connected) ↔ (
      (running.connection_state ≡ connected)
      ⊎ (any (λ c. is_open channel_open) (values running.data_channels) ≡ true)))
    × ((get_connection_status (λ c. channel_open) running ≡ disconnected) ↔ (
        (running.connection_state ≢ connected)
        × (any (λ c. is_open channel_open) (values running.data_channels) ≡ false)
        × (any (λ c. is_connecting channel_open) (values running.data_channels) ≡ false)
        × (running.sessions ≡ [])))
unfolding new_service
connection_status_example = connection_status (λ c. channel_open) running (λ e. cc (e))

no_candidate_before_answer_example :
    (on_ice_candidates "a" ((peer, "c") ∷ []) (begin_negotiation "a" running)).effects
    ≡ running.effects
no_candidate_before_answer_example = no_candidate_before_answer "a" ((peer, "c") ∷ []) running

failed_channel_leaks_session_example :
    let (s', result) = create_session platform "n" "webcam" options running in
    (result ≡ err no_data_channel)
    × (get "n" s'.sessions
        ≡ some (record { id = "n"; source_id = "webcam"; mode = frame_processing }))
    × (get "n" s'.peer_connections ≡ some 7)
    × (s'.effects ≡ close_peer 7 ∷ running.effects)
failed_channel_leaks_session_example =
    failed_channel_leaks_session platform "n" "webcam" options 7 running refl refl refl refl refl
      refl

every_close-Forgets_example :
    Forgets "a" running (session_closed "a" running)
    × ((queued : Bool) → Forgets "a" running (close_session_beacon (queues queued) "a" running).0)
    × ((b : learning_cuda.Sessions.Signaling.Browser)
        → Forgets "a" running (handle_signaling_message b "a" close_session_response running).0)
    × (has "a" running.peer_connections ≡ true
        → Forgets "a" running (handle_session_error true "a" running))
    × Forgets "a" running (creation_failed "a" running)
every_close-Forgets_example = every_close-Forgets "a" running

ping_all_or_nothing_example :
    BothOrNone "p" running (setup_ping_channel platform "p" running)
    × (view "p" (ping_failed "p" (setup_ping_channel platform "p" running).0) ≡ empty_view)
    × ((other : String)
        → "p" ≢ other
        → view other (ping_failed "p" (setup_ping_channel platform "p" running).0)
          ≡ view other (setup_ping_channel platform "p" running).0)
ping_all_or_nothing_example = ping_all_or_nothing platform "p" running

-- The channel opens after 30 ms, and SCTP is never seen connected.
abbrev slow_wait : Wait
slow_wait = record {
  ready_state = some channel_connecting;
  events = open_event channel_open ∷ [];
  after = running;
  elapsed = 30;
  sctp = some false;
  looks =
      record { peer_ended = false; sctp_connected = false; elapsed = 0 }
      ∷ record { peer_ended = false; sctp_connected = false; elapsed = 80 }
      ∷ [];
}

transport_wait_ends_example :
    (wait_for_transport_ready "a" 100 slow_wait ≢ pending)
    × ((c : ℕ)
        → wait_for_transport_ready "a" 100 slow_wait ≡ ready c
        → (wait_for_data_channel_open (begin_wait slow_wait.ready_state) slow_wait.events ≡ opened)
          × (get "a" slow_wait.after.data_channels ≡ some c)
          × (get "a" slow_wait.after.peer_connections ≢ none))
unfolding wait_for_data_channel_open begin_wait
transport_wait_ends_example =
    transport_wait_ends "a" 100 slow_wait (λ e. cc (e)) (inr (inl (omega arith)))

abbrev open_wire : Wire
open_wire = record { ready_state = λ c. channel_open; send_throws = λ c chunk. false }

control_request_arrives_example :
    let sent = send_control_request open_wire 0 "a" (1 ∷ 2 ∷ []) running in
    (sent.threw ≡ none)
    × Delivered (next_message_id 0) (push_all new_reassembler sent.buffers) (
        replicate (length (write_chunk 1 0 1 (1 ∷ 2 ∷ []) ∷ []) - 1) incomplete
        ++ assembled (1 ∷ 2 ∷ []) ∷ [])
unfolding next_message_id pack_message pack_chunks chunk_count_of slice_at get new_reassembler
    new_service
control_request_arrives_example =
    control_request_arrives open_wire 0 3 "a" (1 ∷ 2 ∷ []) (write_chunk 1 0 1 (1 ∷ 2 ∷ []) ∷ [])
      running new_reassembler refl refl (λ chunk. refl) refl refl
