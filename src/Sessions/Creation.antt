-- ===== src/Sessions/Creation.antt =====
-- How a session comes into being: `createSession`, up to its negotiation, and what follows it
-- (src/front-end/src/infrastructure/connection/webrtc-service.ts). Media tracks and codecs are the
-- browser's business and left out.
use learning_cuda.Base.{
  ℕ, ◌≡◌, refl, ap, Bool, true, false, not, ◌||◌, Option, none, some, ◌∷◌, String, Result, ok, err,
  if◌then◌else◌, string_key, nat_key,
}
use learning_cuda.JsMap.{get, put}
use learning_cuda.JsMap.Laws.{get-put_self}
use learning_cuda.Sessions.{
  connecting, ReadyState, is_open, Mode, camera_mediatrack, remote_camera, close_peer,
  control_changed, Service,
}
use learning_cuda.Sessions.Cleanup.{cleanup_session}

-- The browser during a call: what it supports, and what its constructors give (none where they throw).
pub record Platform : Type 0 where
  pub is_supported : Bool
  pub is_initialized : Bool
  pub new_peer_connection : Option ℕ
  pub new_channel : String → Option ℕ
  pub ready_state : ℕ → ReadyState
  -- String.prototype.trim
  pub trim : String → String

pub record Options : Type 0 where
  pub mode : Mode
  pub use_data_channel : Bool
  pub on_remote_stream : Option ℕ

pub data CreateError : Type 0 where
  not_supported not_initialized blank_source no_peer_connection no_data_channel : CreateError

-- createPeerConnection and createDataChannel
abbrev pub create_peer_connection : Platform → Option ℕ
create_peer_connection p = if p.is_supported then p.new_peer_connection else none

abbrev pub create_data_channel : Platform → String → Option ℕ
create_data_channel p label = if p.is_supported then p.new_channel label else none

abbrev pub has_media : Mode → Bool
has_media camera_mediatrack = true
has_media remote_camera = true
has_media _ = false

abbrev pub with_handler : String → Option ℕ → Service → Service
with_handler id none s = s
with_handler id (some f) s = record s { remote_stream_handlers = put id f s.remote_stream_handlers }

-- The session and its peer connection, in the tables.
unfoldable pub add_session : String → String → Options → ℕ → Service → Service
add_session id source_id o peer s = with_handler id o.on_remote_stream (record s {
  peer_connections = put id peer s.peer_connections;
  sessions = put id (record { id = id; source_id = source_id; mode = o.mode }) s.sessions;
  connection_state = connecting;
})

-- The control channel, where it was created; the listeners hear of it where it is open already.
unfoldable pub add_control_channel : Platform → String → Option ℕ → Service → Service
add_control_channel p id none s = s
add_control_channel p id (some c) s = record s {
  control_channels = put id c s.control_channels;
  effects =
      if is_open (p.ready_state c) then control_changed id (some c) ∷ s.effects else s.effects;
}

unfoldable pub add_detection_channel : String → Option ℕ → Service → Service
add_detection_channel id none s = s
add_detection_channel id (some c) s = record s {
  detection_channels = put id c s.detection_channels;
}

-- The channels of a session whose data channel was created.
unfoldable pub add_channels : Platform → String → Mode → ℕ → Service → Service
unfolding add_control_channel add_detection_channel
add_channels p id mode c s =
    let controlled =
      add_control_channel p id (create_data_channel p "control")
        (record s { data_channels = put id c s.data_channels }) in
    if has_media mode
    then add_detection_channel id (create_data_channel p "detections") controlled
    else controlled

-- Without a data channel the peer connection is closed, and the call throws.
unfoldable pub open_channels :
    Platform → String → Mode → ℕ → Option ℕ → Service → Service × Result {0, 0} CreateError Unit
unfolding add_channels
open_channels p id mode peer none s =
    (record s { effects = close_peer peer ∷ s.effects }, err no_data_channel)
open_channels p id mode peer (some c) s = (add_channels p id mode c s, ok tt)

unfoldable pub create_with_peer :
    Platform
    → String
    → String
    → Options
    → Option ℕ
    → Service
    → Service × Result {0, 0} CreateError Unit
unfolding add_session open_channels
create_with_peer p id source_id o none s = (s, err no_peer_connection)
create_with_peer p id source_id o (some peer) s =
    let added = add_session id source_id o peer s in
    if o.use_data_channel
    then open_channels p id o.mode peer (create_data_channel p "process-image") added
    else (added, ok tt)

-- !sourceId || sourceId.trim() === ''
abbrev pub is_blank : Platform → String → Bool
is_blank p source_id = string_key.same source_id "" || string_key.same (p.trim source_id) ""

-- createSession, up to negotiateSession; `id` is the id that WebRTCSession.create gives. The constructor of
-- the session refuses a blank source id, and keeps the trimmed one.
unfoldable pub create_session :
    Platform → String → String → Options → Service → Service × Result {0, 0} CreateError Unit
unfolding create_with_peer
create_session p id source_id o s =
    if not p.is_supported
    then (s, err not_supported)
    else if not p.is_initialized
    then (s, err not_initialized)
    else if is_blank p source_id
    then (s, err blank_source)
    else create_with_peer p id (p.trim source_id) o (create_peer_connection p) s

-- The catch around the negotiation, the polling and the wait for the data channel.
unfoldable pub creation_failed : String → Service → Service
unfolding cleanup_session
creation_failed id s = cleanup_session id s

-- What add_session leaves in the tables of its session, and in the effects.
abbrev IsAdded : String → String → Options → ℕ → Service → Service → Type 0
IsAdded id source_id o peer s s' =
    (get id s'.sessions ≡ some (record { id = id; source_id = source_id; mode = o.mode }))
    × (get id s'.peer_connections ≡ some peer)
    × (s'.effects ≡ s.effects)

add_session-IsAdded :
    (id source_id : String) (o : Options) (peer : ℕ) (s : Service)
    → IsAdded id source_id o peer s (add_session id source_id o peer s)
unfolding add_session
add_session-IsAdded id source_id o peer s =
    with_handler-IsAdded o.on_remote_stream
      (record s {
        peer_connections = put id peer s.peer_connections;
        sessions = put id (record { id = id; source_id = source_id; mode = o.mode }) s.sessions;
        connection_state = connecting;
      })
      (get-put_self id _ s.sessions, get-put_self id peer s.peer_connections, refl)
  where
    with_handler-IsAdded :
        (handler : Option ℕ) (s' : Service)
        → IsAdded id source_id o peer s s'
        → IsAdded id source_id o peer s (with_handler id handler s')
    with_handler-IsAdded none s' v = v
    with_handler-IsAdded (some f) s' v = v

-- Where the browser gives a peer connection but no data channel, `createSession` for a source id that is
-- not blank throws: closing the peer connection is its one logged effect, and the session
-- that failed stays in the tables, with its trimmed source id and this closed peer connection.
pub failed_channel_leaks_session :
    (p : Platform) (id source_id : String) (o : Options) (peer : ℕ) (s : Service)
    → p.is_supported ≡ true
    → p.is_initialized ≡ true
    → is_blank p source_id ≡ false
    → o.use_data_channel ≡ true
    → p.new_peer_connection ≡ some peer
    → p.new_channel "process-image" ≡ none
    → let (s', result) = create_session p id source_id o s in
      (result ≡ err no_data_channel)
      × (get id s'.sessions
          ≡ some (record { id = id; source_id = p.trim source_id; mode = o.mode }))
      × (get id s'.peer_connections ≡ some peer)
      × (s'.effects ≡ close_peer peer ∷ s.effects)
unfolding create_session
failed_channel_leaks_session p id source_id o peer s supported started named wanted made failed =
    let (there, connected, same) = add_session-IsAdded id (p.trim source_id) o peer s in
    rw (supported, started, named, made, create_with_peer, wanted, supported, failed, open_channels)
      (refl, there, connected, ap (◌∷◌ (close_peer peer)) same)
