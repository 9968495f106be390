-- ===== src/Grid.antt =====
-- The grid of sources: `gridSourceReducer` and `removeSource` of
-- src/front-end/src/presentation/hooks/useGridSources.ts, and the handlers of
-- src/front-end/src/presentation/components/video/VideoGridHost.tsx that add, select and close sources.
-- A handler runs after the effects of the one before it, so that the references hold the state. Transports,
-- media streams and detections are numbers.
pub mod Fps
pub mod Build
pub mod Ids
pub mod Host
pub mod Reducer
pub mod Present
pub mod Invariant
mod Tests
use learning_cuda.Base.{
  ℕ, Bool, true, false, not, Option, none, some, List, [], ◌∷◌, ◌++◌, String, map, if◌then◌else◌,
  string_key,
}
use learning_cuda.JsMap.{JsMap}

pub data SessionMode : Type 0 where
  frame_processing camera_mediatrack remote_camera : SessionMode

pub record ActiveFilterState : Type 0 where
  pub id : String
  pub parameters : JsMap String String

pub record GridSource : Type 0 where
  pub id : String
  pub number : ℕ
  pub name : String
  pub type : String
  pub image_path : String
  pub original_image_src : String
  pub current_image_src : String
  pub transport : Option ℕ
  pub remote_stream : Option ℕ
  pub session_id : Option String
  pub session_mode : SessionMode
  pub filters : List ActiveFilterState
  pub resolution : String
  pub accelerator : ℕ
  pub video_id : Option String
  pub detections : List ℕ
  pub detection_image_width : ℕ
  pub detection_image_height : ℕ
  pub fps : ℕ
  pub display_width : ℕ
  pub display_height : ℕ
  pub connected : Bool
  pub metrics : JsMap String String

pub data Action : Type 0 where
  add_source : GridSource → Action
  remove_source : String → Action
  update_source : String → (GridSource → GridSource) → Action
  set_connected : String → Bool → Action
  set_remote_stream : String → ℕ → Action
  set_session : String → String → SessionMode → Action
  set_current_image : String → String → Action
  set_detections : String → List ℕ → ℕ → ℕ → Action
  set_source_fps : String → ℕ → Action
  set_source_resolution : String → ℕ → ℕ → Action
  set_source_metrics : String → JsMap String String → Action
  sync_filters : String → List ActiveFilterState → String → ℕ → Action

-- state.map((s) => (s.id === id ? updater(s) : s))
unfoldable pub update_where : String → (GridSource → GridSource) → List GridSource → List GridSource
update_where id f [] = []
update_where id f (s ∷ ss) = (if string_key.same s.id id then f s else s) ∷ update_where id f ss

-- state.filter((s) => s.id !== id)
unfoldable pub filter_out : String → List GridSource → List GridSource
filter_out id [] = []
filter_out id (s ∷ ss) =
    let rest = filter_out id ss in if string_key.same s.id id then rest else s ∷ rest

-- What an action does to the source with its id.
abbrev pub changed : Action → GridSource → GridSource
changed (add_source s') s = s
changed (remove_source id) s = s
changed (update_source id f) s = f s
changed (set_connected id c) s = record s { connected = c }
changed (set_remote_stream id stream) s = record s { remote_stream = some stream }
changed (set_session id session mode) s = record s {
  session_id = some session;
  session_mode = mode;
  connected = true;
}
changed (set_current_image id src) s = record s { current_image_src = src }
changed (set_detections id found width height) s = record s {
  detections = found;
  detection_image_width = width;
  detection_image_height = height;
}
changed (set_source_fps id fps) s = record s { fps = fps }
changed (set_source_resolution id width height) s = record s {
  display_width = width;
  display_height = height;
}
changed (set_source_metrics id metrics) s = record s { metrics = metrics }
changed (sync_filters id filters resolution accelerator) s = record s {
  filters = filters;
  resolution = resolution;
  accelerator = accelerator;
}

-- action.payload.sourceId
abbrev pub source_id : Action → String
source_id (add_source s) = s.id
source_id (remove_source id) = id
source_id (update_source id f) = id
source_id (set_connected id c) = id
source_id (set_remote_stream id stream) = id
source_id (set_session id session mode) = id
source_id (set_current_image id src) = id
source_id (set_detections id found width height) = id
source_id (set_source_fps id fps) = id
source_id (set_source_resolution id width height) = id
source_id (set_source_metrics id metrics) = id
source_id (sync_filters id filters resolution accelerator) = id

unfoldable pub grid_source_reducer : List GridSource → Action → List GridSource
unfolding update_where filter_out
grid_source_reducer sources (add_source s) = sources ++ s ∷ []
grid_source_reducer sources (remove_source id) = filter_out id sources
grid_source_reducer sources action = update_where (source_id action) (changed action) sources

-- sources.find((s) => s.id === id)
unfoldable pub find_source : String → List GridSource → Option GridSource
find_source id [] = none
find_source id (s ∷ ss) =
    let rest = find_source id ss in if string_key.same s.id id then some s else rest
