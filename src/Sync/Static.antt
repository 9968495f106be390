-- ===== src/Sync/Static.antt =====
-- `applyStaticFilters` of src/front-end/src/presentation/hooks/useFilterApplication.ts, and the constructor of
-- `FilterData` of src/front-end/src/domain/value-objects/filter-data.ts. What the browser and the transport
-- give is an argument (the accelerator and the gray algorithm are passed on as they are): how the image loads, the rasterized bytes, the response, and the data URL of a frame.
use learning_cuda.Base.{
  ℕ, ◌/◌, ◌≡◌, refl, Bool, true, false, ◌&&◌, ◌||◌, Option, none, some, List, [], ◌∷◌, String,
  Result, ok, err, if◌then◌else◌, string_key, ltb, ◌==◌, length,
}
use learning_cuda.JsMap.{JsMap}
use learning_cuda.Grid.{ActiveFilterState, GridSource}

pub record FilterData : Type 0 where
  pub type : String
  pub parameters : JsMap String String

-- The sizes of a loaded image.
pub record Sizes : Type 0 where
  pub natural_width : ℕ
  pub width : ℕ
  pub natural_height : ℕ
  pub height : ℕ

-- The fields of a response that are read.
pub record Response : Type 0 where
  pub code : ℕ
  pub image_data : List ℕ
  pub width : ℕ
  pub height : ℕ
  pub channels : ℕ
  pub detections : List ℕ
  pub message : String

-- The browser and the transport during a call.
pub record Services : Type 0 where
  pub trim : String → String
  pub load : String → Result String Sizes
  pub rasterize : String → ℕ → ℕ → Result String (List ℕ)
  pub send_single_image : ℕ → List ℕ → ℕ → ℕ → List FilterData → Result String Response
  pub data_url : List ℕ → ℕ → ℕ → ℕ → String

pub data Status : Type 0 where
  success : Status
  failed : String → Status

-- The update of the source, where there is one, and the result.
abbrev pub Applied : Type 0
Applied = Option (GridSource → GridSource) × Status

-- a || b on numbers
abbrev pub or_number : ℕ → ℕ → ℕ
or_number a b = if a == 0 then b else a

abbrev pub factor_of : String → ℕ
factor_of resolution =
    if string_key.same resolution "half"
    then 2
    else if string_key.same resolution "quarter"
    then 4
    else 1

abbrev pub shows : String → List ℕ → ℕ → ℕ → GridSource → GridSource
shows url detections width height s = record s {
  current_image_src = url;
  detections = detections;
  detection_image_width = width;
  detection_image_height = height;
}

module _ (b : Services) where
  unfoldable pub new_filter_data : ActiveFilterState → Result String FilterData
  new_filter_data f =
      if string_key.same f.id "" || string_key.same (b.trim f.id) ""
      then err "Filter type cannot be empty"
      else ok (record { type = b.trim f.id; parameters = f.parameters })

  abbrev pub with_first :
      Result String FilterData → Result String (List FilterData) → Result String (List FilterData)
  with_first (err message) rest = err message
  with_first (ok f) (err message) = err message
  with_first (ok f) (ok fs) = ok (f ∷ fs)

  unfoldable pub map_filters_to_value_objects :
      List ActiveFilterState → Result String (List FilterData)
  unfolding new_filter_data
  map_filters_to_value_objects [] = ok []
  map_filters_to_value_objects (f ∷ fs) =
      with_first (new_filter_data f) (map_filters_to_value_objects fs)

  unfoldable pub take_response : Result String Response → Applied
  take_response (err message) = (none, failed message)
  take_response (ok r) =
      if (r.code == 0 && ltb 0 (length r.image_data)) && (ltb 0 r.width && ltb 0 r.height)
      then (
        some (
            shows (b.data_url r.image_data r.width r.height (or_number r.channels 4)) r.detections
              r.width r.height),
        success,
      )
      else (
        none,
        failed (
            if string_key.same r.message ""
            then "The image processor did not return a processed image."
            else r.message),
      )

  unfoldable pub send_filters : ℕ → List ℕ → ℕ → ℕ → Result String (List FilterData) → Applied
  unfolding take_response
  send_filters transport rasterized width height (err message) = (none, failed message)
  send_filters transport rasterized width height (ok filters) =
      take_response (b.send_single_image transport rasterized width height filters)

  unfoldable pub apply_rasterized :
      ℕ → List ActiveFilterState → ℕ → ℕ → Result String (List ℕ) → Applied
  unfolding send_filters map_filters_to_value_objects
  apply_rasterized transport filters width height (err message) = (none, failed message)
  apply_rasterized transport filters width height (ok rasterized) =
      if length filters == 0
      then (some (shows (b.data_url rasterized width height 3) [] 0 0), success)
      else send_filters transport rasterized width height (map_filters_to_value_objects filters)

  unfoldable pub apply_loaded :
      ℕ → GridSource → List ActiveFilterState → String → Result String Sizes → Applied
  unfolding apply_rasterized
  apply_loaded transport source filters resolution (err message) = (none, failed message)
  apply_loaded transport source filters resolution (ok i) =
      let factor = factor_of resolution in
      let width = or_number i.natural_width (or_number i.width 512) / factor in
      let height = or_number i.natural_height (or_number i.height 512) / factor in
      apply_rasterized transport filters width height
        (b.rasterize source.original_image_src width height)

  unfoldable pub apply_transport : Option ℕ → GridSource → List ActiveFilterState → String → Applied
  unfolding apply_loaded
  apply_transport none source filters resolution = (none, failed "Transport not available")
  apply_transport (some transport) source filters resolution =
      apply_loaded transport source filters resolution (b.load source.original_image_src)

  unfoldable pub apply_static_filters : GridSource → List ActiveFilterState → String → Applied
  unfolding apply_transport
  apply_static_filters source filters resolution =
      apply_transport source.transport source filters resolution

-- A success has an update that keeps the identity, the session and the filters of the source, and a failure
-- has none.
abbrev pub IsWhole : GridSource → Applied → Type 0
IsWhole s (none, success) = ⊥
IsWhole s (none, failed message) = Unit
IsWhole s (some f, success) =
    ((f s).id ≡ s.id)
    × ((f s).session_id ≡ s.session_id)
    × ((f s).filters ≡ s.filters)
    × ((f s).original_image_src ≡ s.original_image_src)
IsWhole s (some f, failed message) = ⊥

IsWhole-if :
    (c : Bool) (s : GridSource) (x y : Applied)
    → IsWhole s x
    → IsWhole s y
    → IsWhole s (if c then x else y)
IsWhole-if true s x y v w = v
IsWhole-if false s x y v w = w

module _ (b : Services) (s : GridSource) where
  take_response-IsWhole : (r : Result String Response) → IsWhole s (take_response b r)
  unfolding take_response
  take_response-IsWhole (err message) = tt
  take_response-IsWhole (ok r) =
      IsWhole-if ((r.code == 0 && ltb 0 (length r.image_data)) && (ltb 0 r.width && ltb 0 r.height))
        s
        (
          some (
              shows (b.data_url r.image_data r.width r.height (or_number r.channels 4)) r.detections
                r.width r.height),
          success,
        )
        (
          none,
          failed (
              if string_key.same r.message ""
              then "The image processor did not return a processed image."
              else r.message),
        )
        (refl, refl, refl, refl) tt

  send_filters-IsWhole :
      (transport : ℕ) (bytes : List ℕ) (width height : ℕ) (fs : Result String (List FilterData))
      → IsWhole s (send_filters b transport bytes width height fs)
  unfolding send_filters
  send_filters-IsWhole transport bytes width height (err message) = tt
  send_filters-IsWhole transport bytes width height (ok fs) =
      take_response-IsWhole (b.send_single_image transport bytes width height fs)

  apply_rasterized-IsWhole :
      (transport : ℕ) (filters : List ActiveFilterState) (width height : ℕ)
      (bytes : Result String (List ℕ))
      → IsWhole s (apply_rasterized b transport filters width height bytes)
  unfolding apply_rasterized
  apply_rasterized-IsWhole transport filters width height (err message) = tt
  apply_rasterized-IsWhole transport filters width height (ok bytes) =
      IsWhole-if (length filters == 0) s
        (some (shows (b.data_url bytes width height 3) [] 0 0), success)
        (send_filters b transport bytes width height (map_filters_to_value_objects b filters))
        (refl, refl, refl, refl)
        (send_filters-IsWhole transport bytes width height (map_filters_to_value_objects b filters))

  -- Whatever the browser and the transport give: the filters of a still image succeed with one update of
  -- the source, which keeps its id, its session, its filters and its original image, or they fail and the
  -- source is not updated.
  pub static_all_or_nothing :
      (filters : List ActiveFilterState) (resolution : String)
      → IsWhole s (apply_static_filters b s filters resolution)
  unfolding apply_static_filters apply_transport apply_loaded
  static_all_or_nothing filters resolution = by_transport s.transport
    where
      by_load :
          (transport : ℕ) (sizes : Result String Sizes)
          → IsWhole s (apply_loaded b transport s filters resolution sizes)
      by_load transport (err message) = tt
      by_load transport (ok i) = apply_rasterized-IsWhole transport filters _ _ _

      by_transport : (t : Option ℕ) → IsWhole s (apply_transport b t s filters resolution)
      by_transport none = tt
      by_transport (some transport) = by_load transport (b.load s.original_image_src)
