-- ===== src/FrameTransport.antt =====
-- `WebRTCFrameTransportService` of src/front-end/src/infrastructure/transport/webrtc-frame-transport.ts:
-- the frames that wait for a response, the connection, and what the user interface is told. The calls of
-- webrtcService are answered by the event's link; logging and the times of requests are left out.
pub mod Ids
pub mod Filters
pub mod Raster
pub mod Sending
pub mod Receiving
pub mod Events
pub mod Settled
pub mod Answers
mod Tests
use learning_cuda.Base.{
  ℕ, zero, suc, ◌+◌, Bool, true, false, not, ◌&&◌, Option, none, some, List, [], ◌∷◌, ◌++◌, String,
  Result, ok, err, ◌==◌, if◌then◌else◌, nat_key, ltb, length,
}
use learning_cuda.Pending.{Desk, empty_desk, register, settle, expire, fail_all}
use learning_cuda.Framing.MessageId.{next_message_id}
use learning_cuda.Framing.Pack.{PackError, pack_message}
use learning_cuda.Framing.Reassembler.{
  Reassembler, new_reassembler, Pushed, incomplete, assembled, type_error, push_chunk,
}

pub data ConnectionState : Type 0 where
  connected disconnected connecting error : ConnectionState

-- The fields of a ProcessImageResponse that are read; the detections are counted.
pub record FrameResponse : Type 0 where
  pub frame_id : ℕ
  pub code : ℕ
  pub message : String
  pub detections : ℕ

-- What a frame's promise is settled with.
pub data FrameOutcome : Type 0 where
  resolved : FrameResponse → FrameOutcome
  failed : String → FrameOutcome
  timed_out send_threw channel_closed transport_disconnected : FrameOutcome
  too_large : PackError → FrameOutcome

-- What the managers of the user interface, the callbacks and webrtcService are told.
pub data Effect : Type 0 where
  set_processing : Bool → Effect
  transport_status : ConnectionState → String → Effect
  processing_stats : Effect
  processing_error : String → Effect
  camera_failed : Effect
  transport_error : String → Effect
  frame_result detection_result : FrameResponse → Effect
  close_session : String → Effect
  -- a frame of the detection channel or of the stats channel, for its callback
  detection_frame stats_frame : ℕ → Effect

-- The answers of webrtcService during an event: whether the data channel of a session is open, and
-- whether sending a buffer on it throws.
pub record Link : Type 0 where
  pub is_open : String → Bool
  pub send_throws : List ℕ → Bool

pub record Transport : Type 0 where
  pub session_id : Option String
  -- whether the callbacks are set
  pub frame_result_callback : Bool
  pub detection_result_callback : Bool
  pub stats_result_callback : Bool
  pub frame_id_counter : ℕ
  -- whether connectPromise is there
  pub connect_promise : Bool
  pub desk : Desk ℕ FrameOutcome
  pub connection_state : ConnectionState
  pub frame_channel_reassembler : Reassembler
  pub detection_channel_reassembler : Reassembler
  pub stats_channel_reassembler : Reassembler
  pub last_request : Option String
  -- the counter behind nextMessageId
  pub last_message_id : ℕ
  -- the buffers that were sent, and the effects, the last one first
  pub sent : List (List ℕ)
  pub effects : List Effect

unfoldable pub new_transport : Transport
unfolding new_reassembler empty_desk
new_transport = record {
  session_id = none;
  frame_result_callback = false;
  detection_result_callback = false;
  stats_result_callback = false;
  frame_id_counter = 0;
  connect_promise = false;
  desk = empty_desk;
  connection_state = disconnected;
  frame_channel_reassembler = new_reassembler;
  detection_channel_reassembler = new_reassembler;
  stats_channel_reassembler = new_reassembler;
  last_request = none;
  last_message_id = 0;
  sent = [];
  effects = [];
}

-- Promises of `sendSingleImage` and `sendRequest` reject with one of these.
pub data SendError : Type 0 where
  no_session channel_not_open chunk_send_threw : SendError
  message_refused : PackError → SendError

unfoldable pub is_connected : Link → Transport → Bool
is_connected l s = elim s.session_id [ none ↦ false | some id ↦ l.is_open id ]

abbrev pub get_session_id : Transport → Option String
get_session_id s = s.session_id

unfoldable pub get_connection_status : Transport → ConnectionState × Option String
get_connection_status s = (s.connection_state, s.last_request)

unfoldable pub on_frame_result : Transport → Transport
on_frame_result s = record s { frame_result_callback = true }

unfoldable pub on_detection_result : Transport → Transport
on_detection_result s = record s { detection_result_callback = true }

unfoldable pub on_stats_result : Transport → Transport
on_stats_result s = record s { stats_result_callback = true }

-- The effects of closing the session that was there.
abbrev pub closing : Option String → List Effect → List Effect
closing none effects = effects
closing (some id) effects = close_session id ∷ effects

unfoldable pub disconnect : Transport → Transport
unfolding fail_all
disconnect s = record s {
  session_id = none;
  connect_promise = false;
  connection_state = disconnected;
  desk = fail_all transport_disconnected s.desk;
  effects = closing s.session_id (transport_status disconnected "Disconnected" ∷ s.effects);
}

-- ensureConnected, up to createSession: it is called where no connection is there or on its way.
unfoldable pub ensure_connected : Link → Transport → Transport
unfolding is_connected
ensure_connected l s = if is_connected l s then s else if s.connect_promise then s else record s {
  connect_promise = true;
  connection_state = connecting;
  effects = transport_status connecting "Connecting..." ∷ s.effects;
}

-- this.sessionId = session.getId()
unfoldable pub session_created : String → Transport → Transport
session_created id s = record s { session_id = some id }

-- attachDataChannel
unfoldable pub attach_data_channel : Transport → Transport
unfolding new_reassembler
attach_data_channel s = record s { frame_channel_reassembler = new_reassembler }

-- attachDetectionChannel and attachStatsChannel, where the session has such a channel
unfoldable pub attach_detection_channel : Bool → Transport → Transport
unfolding new_reassembler
attach_detection_channel false s = s
attach_detection_channel true s = record s { detection_channel_reassembler = new_reassembler }

unfoldable pub attach_stats_channel : Bool → Transport → Transport
unfolding new_reassembler
attach_stats_channel false s = s
attach_stats_channel true s = record s { stats_channel_reassembler = new_reassembler }

-- The rest of the connection, once the transport is ready.
unfoldable pub transport_ready : Bool → Bool → Transport → Transport
unfolding attach_data_channel attach_detection_channel attach_stats_channel
transport_ready has_detection has_stats s =
    let attached =
      attach_stats_channel has_stats
        (attach_detection_channel has_detection (attach_data_channel s)) in
    record attached {
      connection_state = connected;
      last_request = some "Data channel connected";
      effects = transport_status connected "Connected" ∷ attached.effects;
    }

-- finally: this.connectPromise = null
unfoldable pub connection_settled : Transport → Transport
connection_settled s = record s { connect_promise = false }
