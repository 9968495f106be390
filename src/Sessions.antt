-- ===== src/Sessions.antt =====
-- `WebRTCService` of src/front-end/src/infrastructure/connection/webrtc-service.ts: the tables that it
-- keeps for its sessions. Peer connections, channels, streams and abort controllers are numbers; what
-- the browser and the signaling service are asked to do is logged.
pub mod Cleanup
pub mod Heartbeat
pub mod Status
pub mod Signaling
pub mod Candidates
pub mod Creation
pub mod Closing
pub mod Waits
pub mod Ready
pub mod Requests
pub mod Ping
mod Tests
use learning_cuda.Base.{
  ℕ, Bool, Option, none, some, List, [], ◌∷◌, String, if◌then◌else◌, Key, string_key, nat_key,
  false,
}
use learning_cuda.JsMap.{JsMap, get, put, remove, has, values}
use learning_cuda.Timers.{Timers, idle}

pub data ConnectionState : Type 0 where
  connected disconnected connecting error : ConnectionState

-- RTCDataChannel.readyState
pub data ReadyState : Type 0 where
  channel_connecting channel_open channel_closing channel_closed : ReadyState

abbrev pub is_open : ReadyState → Bool
is_open channel_open = Bool.true
is_open _ = false

abbrev pub is_connecting : ReadyState → Bool
is_connecting channel_connecting = Bool.true
is_connecting _ = false

-- WebRTCSessionMode
pub data Mode : Type 0 where
  frame_processing video_playback camera_mediatrack remote_camera : Mode

pub record Session : Type 0 where
  pub id : String
  pub source_id : String
  pub mode : Mode

-- What the browser, the signaling service and the listeners are asked or told.
pub data Effect : Type 0 where
  close_peer close_channel abort give_stream : ℕ → Effect
  send_buffer : ℕ → Effect
  control_changed : String → Option ℕ → Effect
  close_session_request : String → Effect
  send_ice_candidate add_ice_candidate : String → String → Effect
  apply_answer : String → String → Effect

pub record Service : Type 0 where
  pub sessions : JsMap String Session
  pub peer_connections : JsMap String ℕ
  pub data_channels : JsMap String ℕ
  pub detection_channels : JsMap String ℕ
  pub stats_channels : JsMap String ℕ
  pub control_channels : JsMap String ℕ
  pub remote_stream_handlers : JsMap String ℕ
  pub remote_streams : JsMap String ℕ
  pub poll_controllers : JsMap String ℕ
  pub poll_cursors : JsMap String ℕ
  pub pending_ice_candidates : JsMap String (List String)
  pub session_negotiated : JsMap String Bool
  pub heartbeat_timers : JsMap String ℕ
  pub last_heartbeat_sent_at : JsMap String ℕ
  pub last_heartbeat_ack_at : JsMap String ℕ
  pub heartbeat_consecutive_failures : JsMap String ℕ
  -- a Set: its ids, each with true
  pub reconnecting_sessions : JsMap String Bool
  pub connection_state : ConnectionState
  pub last_request : Option String
  -- the browser's intervals, and what was asked, the last one first
  pub timers : Timers String
  pub effects : List Effect

unfoldable pub new_service : Service
unfolding idle
new_service = record {
  sessions = [];
  peer_connections = [];
  data_channels = [];
  detection_channels = [];
  stats_channels = [];
  control_channels = [];
  remote_stream_handlers = [];
  remote_streams = [];
  poll_controllers = [];
  poll_cursors = [];
  pending_ice_candidates = [];
  session_negotiated = [];
  heartbeat_timers = [];
  last_heartbeat_sent_at = [];
  last_heartbeat_ack_at = [];
  heartbeat_consecutive_failures = [];
  reconnecting_sessions = [];
  connection_state = disconnected;
  last_request = none;
  timers = idle;
  effects = [];
}

abbrev pub get_active_sessions : Service → List Session
get_active_sessions s = values s.sessions

abbrev pub get_data_channel : String → Service → Option ℕ
get_data_channel id s = get id s.data_channels

abbrev pub get_detection_data_channel : String → Service → Option ℕ
get_detection_data_channel id s = get id s.detection_channels

abbrev pub get_stats_data_channel : String → Service → Option ℕ
get_stats_data_channel id s = get id s.stats_channels

abbrev pub get_control_data_channel : String → Service → Option ℕ
get_control_data_channel id s = get id s.control_channels

abbrev pub get_peer_connection : String → Service → Option ℕ
get_peer_connection id s = get id s.peer_connections
