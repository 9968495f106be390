-- ===== src/Grid/Build.antt =====
-- A new source: `buildSource` of src/front-end/src/presentation/hooks/useSourceTransportFactory.ts, and the
-- names of src/front-end/src/presentation/utils/input-source-defaults.ts. The text functions of JavaScript
-- that read Unicode (`trim`, `toLowerCase`) are parameters.
use learning_cuda.Base.{
  ℕ, ◌||◌, Bool, false, Option, none, some, List, [], ◌∷◌, String, if◌then◌else◌, string_key,
}
use learning_cuda.Grid.Ids.{unique_id}
use learning_cuda.Grid.{
  SessionMode, frame_processing, camera_mediatrack, remote_camera, ActiveFilterState, GridSource,
}

-- The fields of an InputSource that are read.
pub record InputSource : Type 0 where
  pub id : String
  pub type : String
  pub display_name : String
  pub image_path : String
  pub preview_image_path : String
  pub is_default : Bool

pub record Text : Type 0 where
  pub trim : String → String
  pub to_lower_case : String → String

-- What the dashboard has selected.
pub record Selected : Type 0 where
  pub active_filters : List ActiveFilterState
  pub resolution : String
  pub accelerator : ℕ

abbrev pub is : String → String → Bool
is = string_key.same

-- text || fallback
abbrev pub or_text : String → String → String
or_text text fallback = if is text "" then fallback else text

unfoldable pub source_image_path : InputSource → String
source_image_path i =
    if is i.type "video"
    then i.preview_image_path
    else if is i.type "camera" || is i.type "remote_camera"
    then ""
    else i.image_path

unfoldable pub session_mode_of : InputSource → SessionMode
session_mode_of i =
    if is i.type "camera"
    then camera_mediatrack
    else if is i.type "remote_camera"
    then remote_camera
    else frame_processing

-- sources.find((s) => s.type === type)
unfoldable pub find_type : String → List InputSource → Option InputSource
find_type type [] = none
find_type type (s ∷ ss) = let rest = find_type type ss in if is s.type type then some s else rest

-- sources.find((s) => s.isDefault)
unfoldable pub find_default : List InputSource → Option InputSource
find_default [] = none
find_default (s ∷ ss) = let rest = find_default ss in if s.is_default then some s else rest

-- found ?? fallback
abbrev pub or_else : Option InputSource → Option InputSource → Option InputSource
or_else none fallback = fallback
or_else (some s) fallback = some s

-- The choice once a remote camera was not found.
unfoldable pub pick_local : Bool → Option InputSource → List InputSource → Option InputSource
unfolding find_type find_default
pick_local usable none sources = or_else (find_type "static" sources) (find_default sources)
pick_local usable (some webcam) sources =
    if usable then some webcam else or_else (find_type "static" sources) (find_default sources)

-- pickDefaultSource, with the answer of isWebcamUsable
unfoldable pub pick_default_source : Bool → List InputSource → Option InputSource
unfolding find_type pick_local
pick_default_source usable sources =
    or_else (find_type "remote_camera" sources)
      (pick_local usable (find_type "camera" sources) sources)

module _ (t : Text) where
  unfoldable pub grid_source_display_name : InputSource → String
  grid_source_display_name i =
      let n = t.trim i.display_name in
      if is i.type "remote_camera"
      then or_text n "Remote camera"
      else if is i.type "camera"
      then if is n "" || is (t.to_lower_case n) "webcam" then "Camera" else n
      else n

  -- The source that buildSource returns for the next number; a transport is named by the number.
  unfoldable pub build_source : Selected → ℕ → InputSource → GridSource
  unfolding source_image_path session_mode_of grid_source_display_name
  build_source d number i = record {
    id = unique_id i.id number;
    number = number;
    name = grid_source_display_name i;
    type = i.type;
    image_path = source_image_path i;
    original_image_src = source_image_path i;
    current_image_src = source_image_path i;
    transport = if is i.type "camera" then none else some number;
    remote_stream = none;
    session_id = none;
    session_mode = session_mode_of i;
    filters = d.active_filters;
    resolution = or_text d.resolution "original";
    accelerator = d.accelerator;
    video_id = if is i.type "video" then some i.id else none;
    detections = [];
    detection_image_width = 0;
    detection_image_height = 0;
    fps = 0;
    display_width = 0;
    display_height = 0;
    connected = false;
    metrics = [];
  }
