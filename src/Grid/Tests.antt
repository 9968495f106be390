-- ===== src/Grid/Tests.antt =====
-- The theorems about the grid at concrete sources.
use learning_cuda.Base.{ℕ, ◌≡◌, refl, true, false, some, List, [], ◌∷◌, string_key, arith, inl, inr}
use learning_cuda.Grid.{GridSource, set_detections}
use learning_cuda.Grid.Ids.{unique_id}
use learning_cuda.Grid.Build.{InputSource, Text, Selected, build_source}
use learning_cuda.Grid.Fps.{new_meter, on_video_frames}
use learning_cuda.Grid.Fps.Window.{recent, cutoff_at, window_is_recent}
use learning_cuda.Grid.Host.{Event, adds, selects, closes, tells, new_host, run, step}
use learning_cuda.Grid.Invariant.{Sound, run_keeps_grid}

abbrev ascii : Text
ascii = record { trim = λ s. s; to_lower_case = λ s. s }

abbrev nothing_selected : Selected
nothing_selected = record { active_filters = []; resolution = ""; accelerator = 1 }

abbrev webcam : InputSource
webcam = record {
  id = "webcam";
  type = "camera";
  display_name = "webcam";
  image_path = "";
  preview_image_path = "";
  is_default = false;
}

abbrev lena : InputSource
lena = record {
  id = "lena";
  type = "static";
  display_name = "Lena";
  image_path = "/lena.png";
  preview_image_path = "";
  is_default = true;
}

abbrev two_sources : List GridSource
two_sources =
    build_source ascii nothing_selected 1 webcam ∷ build_source ascii nothing_selected 2 lena ∷ []

-- Two sources are added, the second is selected, the first is told of detections, and the second is
-- closed.
abbrev a_session : List Event
a_session =
    adds webcam
    ∷ adds lena
    ∷ selects "lena-2"
    ∷ tells (set_detections "webcam-1" (7 ∷ []) 640 480)
    ∷ closes "lena-2"
    ∷ []

first_is_selected :
    (run ascii nothing_selected new_host a_session).selected_source_id ≡ some "webcam-1"
unfolding run step new_host unique_id
first_is_selected = refl

run_keeps_grid_example : Sound (run ascii nothing_selected new_host a_session)
unfolding step new_host unique_id
run_keeps_grid_example = run_keeps_grid ascii nothing_selected a_session (inr (inl refl), (tt, tt))

abbrev frame_times : List ℕ
frame_times = 100 ∷ 600 ∷ 1100 ∷ 1650 ∷ []

window_of_frames : (on_video_frames frame_times new_meter).timestamps ≡ 1100 ∷ 1650 ∷ []
unfolding on_video_frames new_meter
window_of_frames = refl

window_is_recent_example :
    (on_video_frames frame_times new_meter).timestamps
    ≡ recent (cutoff_at 0 frame_times) frame_times
window_is_recent_example = window_is_recent frame_times (omega arith)
