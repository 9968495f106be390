-- ===== src/Sync.antt =====
-- How the filters of the selected source are applied: `useSourceFilterSync` of
-- src/front-end/src/presentation/hooks/useSourceFilterSync.ts. Static has the filters of a still image.
pub mod Static
use learning_cuda.Base.{
  ℕ, Bool, true, false, not, ◌||◌, Option, none, some, List, [], ◌∷◌, String, if◌then◌else◌,
  string_key,
}
use learning_cuda.Grid.{
  ActiveFilterState, GridSource, Action, set_detections, sync_filters, find_source,
}
use learning_cuda.Camera.{is_there}

-- Actions, the control request of a camera's session, and the call of applyStaticFilters.
pub data Effect : Type 0 where
  dispatches : Action → Effect
  controls_camera : String → String → List ActiveFilterState → ℕ → Effect
  applies_static : GridSource → List ActiveFilterState → ℕ → String → Effect

unfoldable pub has_filter : String → List ActiveFilterState → Bool
has_filter id [] = false
has_filter id (f ∷ fs) = string_key.same f.id id || has_filter id fs

abbrev pub is_camera : GridSource → Bool
is_camera s = string_key.same s.type "camera" || string_key.same s.type "remote_camera"

-- A camera's filters go to its session, where its data channel is open.
unfoldable pub control_camera :
    (String → Bool) → GridSource → List ActiveFilterState → ℕ → Option String → List Effect
control_camera is_data_channel_open s filters accelerator none = []
control_camera is_data_channel_open s filters accelerator (some session) =
    if not (is_there (some session))
    then []
    else if is_data_channel_open session
    then controls_camera session s.id filters accelerator ∷ []
    else []

unfoldable pub apply_filters :
    (String → Bool) → GridSource → List ActiveFilterState → ℕ → String → List Effect
unfolding control_camera
apply_filters is_data_channel_open s filters accelerator resolution =
    if is_camera s
    then control_camera is_data_channel_open s filters accelerator s.session_id
    else applies_static s filters accelerator resolution ∷ []

unfoldable pub sync_source :
    (String → Bool) → List ActiveFilterState → ℕ → String → Option GridSource → List Effect
unfolding has_filter apply_filters
sync_source is_data_channel_open filters accelerator resolution none = []
sync_source is_data_channel_open filters accelerator resolution (some s) =
    let applied = apply_filters is_data_channel_open s filters accelerator resolution in
    dispatches (sync_filters s.id filters resolution accelerator)
    ∷ (if has_filter "model_inference" filters
        then applied
        else dispatches (set_detections s.id [] 0 0) ∷ applied)

-- The effect, in the order of its calls; normalizeFilters copies the filters
unfoldable pub sync_filters_of :
    (String → Bool)
    → Bool
    → Option String
    → List GridSource
    → List ActiveFilterState
    → ℕ
    → String
    → List Effect
unfolding sync_source find_source
sync_filters_of is_data_channel_open ready none sources filters accelerator resolution = []
sync_filters_of is_data_channel_open ready (some id) sources filters accelerator resolution =
    if not ready || not (is_there (some id))
    then []
    else sync_source is_data_channel_open filters accelerator resolution (find_source id sources)
