-- ===== src/Camera.antt =====
-- `useCameraTransport` of src/front-end/src/presentation/hooks/useCameraTransport.ts: the sessions that send
-- a camera's stream. A call of `createSession` is answered in a later event; the sources that the reference
-- holds change when the grid is rendered. Streams and tracks are numbers.
pub mod Once
pub mod Handlers
mod Tests
use learning_cuda.Base.{
  ℕ, Bool, true, false, not, Option, none, some, List, [], ◌∷◌, String, Result, ok, err, map,
  string_key, if◌then◌else◌,
}
use learning_cuda.JsMap.{JsMap, get, put, remove}
use learning_cuda.FrameTransport.Filters.{ParameterSelection, FilterSelection}
use learning_cuda.Grid.{
  SessionMode, ActiveFilterState, GridSource, Action, set_remote_stream, set_session, find_source,
}

-- filtersToGenericSelections
abbrev pub select_value : String × String → ParameterSelection
select_value (parameter_id, value) = record { parameter_id = parameter_id; values = value ∷ [] }

unfoldable pub filters_to_generic_selections : List ActiveFilterState → List FilterSelection
filters_to_generic_selections [] = []
filters_to_generic_selections (f ∷ fs) =
    record { filter_id = f.id; parameters = map select_value f.parameters }
    ∷ filters_to_generic_selections fs

-- Calls of webrtcService, of the dispatch and of the toasts, and handlers that are set on a session's
-- channels.
pub data Effect : Type 0 where
  creates_session : String → Effect
  sends_control : String → List FilterSelection → ℕ → Effect
  dispatches : Action → Effect
  listens_detections listens_stats : String → String → Effect
  warns_unavailable : Effect
  replaces_track : String → ℕ → Effect

-- cameraSessionSourceIdsRef, with the source that each call found, and sourcesRef.
pub record Camera : Type 0 where
  pub creating : JsMap String GridSource
  pub sources : List GridSource
  pub effects : List Effect

unfoldable pub new_camera : Camera
new_camera = record { creating = []; sources = []; effects = [] }

-- Whether a session id that may be null is there and not ''
abbrev pub is_there : Option String → Bool
is_there none = false
is_there (some id) = not (string_key.same id "")

unfoldable pub begin_creation : String → Option GridSource → Camera → Camera
begin_creation id none c = c
begin_creation id (some s) c =
    if is_there s.session_id
    then c
    else record c { creating = put id s c.creating; effects = creates_session id ∷ c.effects }

-- Nothing happens where a call for the source is waiting already.
abbrev pub unless_waiting : Option GridSource → Camera → Camera → Camera
unless_waiting none begun c = begun
unless_waiting (some s) begun c = c

-- createCameraSession, up to its await
unfoldable pub create_camera_session : String → Camera → Camera
unfolding begin_creation find_source
create_camera_session id c =
    unless_waiting (get id c.creating) (begin_creation id (find_source id c.sources) c) c

-- sendCameraControlRequest; what sendControlRequest throws is logged
abbrev pub send_camera_control_request :
    String → List ActiveFilterState → ℕ → List Effect → List Effect
send_camera_control_request session filters accelerator effects =
    sends_control session (filters_to_generic_selections filters) accelerator ∷ effects

-- What createSession gives: the session's id and mode, and whether it has a detection channel and a stats
-- channel.
pub record Created : Type 0 where
  pub session : String
  pub mode : SessionMode
  pub has_detection : Bool
  pub has_stats : Bool

abbrev pub when : Bool → Effect → List Effect → List Effect
when true e effects = e ∷ effects
when false e effects = effects

-- sourcesRef.current.find((item) => item.id === sourceId) ?? source
abbrev pub or_source : Option GridSource → GridSource → GridSource
or_source none source = source
or_source (some current) source = current

unfoldable pub use_session : String → GridSource → Created → Camera → Camera
unfolding filters_to_generic_selections find_source
use_session id source n c =
    let current = or_source (find_source id c.sources) source in
    let told = dispatches (set_session id n.session n.mode) ∷ c.effects in
    let sent = send_camera_control_request n.session current.filters current.accelerator told in
    record c {
      effects =
          when n.has_stats (listens_stats id n.session)
            (when n.has_detection (listens_detections id n.session) sent);
    }

-- The rest of createCameraSession but its `finally`
unfoldable pub take_session : String → GridSource → Result String Created → Camera → Camera
unfolding use_session
take_session id source (ok n) c = use_session id source n c
take_session id source (err message) c = record c { effects = warns_unavailable ∷ c.effects }

unfoldable pub end_creation : String → Option GridSource → Result String Created → Camera → Camera
unfolding take_session
end_creation id none r c = c
end_creation id (some source) r c = record (take_session id source r c) {
  creating = remove id c.creating;
}

-- createSession settles for a source whose call waits for it
unfoldable pub on_session : String → Result String Created → Camera → Camera
unfolding end_creation
on_session id r c = end_creation id (get id c.creating) r c

-- onRemoteStream
unfoldable pub on_remote_stream : String → ℕ → Camera → Camera
on_remote_stream id stream c = record c {
  effects = dispatches (set_remote_stream id stream) ∷ c.effects;
}

-- A session id that is not there or '', or a missing track, ends the call.
abbrev pub replace_track : Option String → Option ℕ → List Effect → List Effect
replace_track (some session) (some track) effects =
    when (is_there (some session)) (replaces_track session track) effects
replace_track _ _ effects = effects

abbrev pub replace_for : Option GridSource → Option ℕ → Camera → Camera
replace_for none track c = c
replace_for (some s) track c = record c { effects = replace_track s.session_id track c.effects }

-- replaceCameraStream, with the stream's first video track
unfoldable pub replace_camera_stream : String → Option ℕ → Camera → Camera
unfolding find_source
replace_camera_stream id track c = replace_for (find_source id c.sources) track c

pub data Event : Type 0 where
  creates : String → Event
  settles : String → Result String Created → Event
  streams : String → ℕ → Event
  replaces : String → Option ℕ → Event
  renders : List GridSource → Event

unfoldable pub step : Camera → Event → Camera
unfolding create_camera_session on_session on_remote_stream replace_camera_stream
step c (creates id) = create_camera_session id c
step c (settles id r) = on_session id r c
step c (streams id stream) = on_remote_stream id stream c
step c (replaces id track) = replace_camera_stream id track c
step c (renders sources) = record c { sources = sources }

unfoldable pub run : Camera → List Event → Camera
unfolding step
run c [] = c
run c (e ∷ es) = run (step c e) es
