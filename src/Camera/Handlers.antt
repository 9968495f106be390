-- ===== src/Camera/Handlers.antt =====
-- The message handlers that src/front-end/src/presentation/hooks/useCameraTransport.ts sets on the detection
-- and stats channels of a session, each with a reassembler of its own, and `statsFrameToMetrics` of
-- src/front-end/src/presentation/utils/metric-point.ts. `decode` is the generated fromBinary.
use learning_cuda.Base.{
  ℕ, Option, none, some, List, [], ◌∷◌, String, Result, ok, err, string_key, if◌then◌else◌,
}
use learning_cuda.JsMap.{JsMap, put}
use learning_cuda.Framing.Reassembler.{
  Reassembler, Pushed, incomplete, assembled, type_error, push_chunk,
}
use learning_cuda.Grid.{Action, set_detections, set_source_metrics}

-- The fields of a DetectionFrame that are read.
pub record DetectionFrame : Type 0 where
  pub detections : List ℕ
  pub image_width : ℕ
  pub image_height : ℕ

-- A metric of a ProcessingStatsFrame, with the value that metricPointToDisplayValue gives.
pub record Metric : Type 0 where
  pub key : String
  pub value : String

unfoldable pub fill_metrics : List Metric → JsMap String String → JsMap String String
fill_metrics [] metrics = metrics
fill_metrics (m ∷ ms) metrics =
    fill_metrics ms (if string_key.same m.value "" then metrics else put m.key m.value metrics)

unfoldable pub stats_frame_to_metrics : List Metric → JsMap String String
unfolding fill_metrics
stats_frame_to_metrics ms = fill_metrics ms []

abbrev pub show_detections : String → Result String DetectionFrame → Option Action
show_detections id (ok f) = some (set_detections id f.detections f.image_width f.image_height)
show_detections id (err message) = none

-- if (!Object.keys(metrics).length) return
abbrev pub show_metrics : String → JsMap String String → Option Action
show_metrics id [] = none
show_metrics id (m ∷ ms) = some (set_source_metrics id (m ∷ ms))

unfoldable pub show_stats : String → Result String (List Metric) → Option Action
unfolding stats_frame_to_metrics
show_stats id (ok ms) = show_metrics id (stats_frame_to_metrics ms)
show_stats id (err message) = none

-- What is dispatched for what the reassembler gives.
abbrev pub on_assembled : (List ℕ → Option Action) → Pushed → Option Action
on_assembled show (assembled bytes) = show bytes
on_assembled show incomplete = none
on_assembled show type_error = none

unfoldable pub on_detections :
    (List ℕ → Result String DetectionFrame)
    → String
    → List ℕ
    → Reassembler
    → Reassembler × Option Action
unfolding push_chunk
on_detections decode id buffer r =
    let (r', pushed) = push_chunk r buffer in
    (r', on_assembled (λ bytes. show_detections id (decode bytes)) pushed)

unfoldable pub on_stats :
    (List ℕ → Result String (List Metric))
    → String
    → List ℕ
    → Reassembler
    → Reassembler × Option Action
unfolding push_chunk show_stats
on_stats decode id buffer r =
    let (r', pushed) = push_chunk r buffer in
    (r', on_assembled (λ bytes. show_stats id (decode bytes)) pushed)
