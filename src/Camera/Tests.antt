-- ===== src/Camera/Tests.antt =====
-- The camera's sessions at a concrete run.
use learning_cuda.Base.{◌+◌, ◌≡◌, refl, none, List, [], ◌∷◌, ok, true}
use learning_cuda.JsMap.{get, put}
use learning_cuda.Grid.{GridSource, frame_processing, camera_mediatrack, find_source}
use learning_cuda.Camera.{
  new_camera, begin_creation, create_camera_session, Event, renders, creates, settles, step, run,
}
use learning_cuda.Camera.Once.{asked, settled, waiting, asked_one_at_a_time}

abbrev front_door : GridSource
front_door = record {
  id = "camera-1";
  number = 1;
  name = "Front door";
  type = "camera";
  image_path = "";
  original_image_src = "";
  current_image_src = "";
  transport = none;
  remote_stream = none;
  session_id = none;
  session_mode = frame_processing;
  filters = [];
  resolution = "original";
  accelerator = 1;
  video_id = none;
  detections = [];
  detection_image_width = 0;
  detection_image_height = 0;
  fps = 0;
  display_width = 0;
  display_height = 0;
  connected = true;
  metrics = [];
}

-- The second call comes while the first one waits, the third one after its session is there but before
-- the grid is rendered.
abbrev three_calls : List Event
three_calls =
    renders (front_door ∷ [])
    ∷ creates "camera-1"
    ∷ creates "camera-1"
    ∷ settles "camera-1" (
        ok (record {
          session = "a";
          mode = camera_mediatrack;
          has_detection = true;
          has_stats = true;
        }))
    ∷ creates "camera-1"
    ∷ []

asked_one_at_a_time_example :
    asked "camera-1" (run new_camera three_calls).effects
    ≡ settled "camera-1" three_calls + waiting "camera-1" (run new_camera three_calls)
unfolding run step new_camera create_camera_session begin_creation get put find_source
asked_one_at_a_time_example = asked_one_at_a_time "camera-1" three_calls (refl, tt)
