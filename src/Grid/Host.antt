-- ===== src/Grid/Host.antt =====
-- The handlers of src/front-end/src/presentation/components/video/VideoGridHost.tsx over the state that
-- src/front-end/src/presentation/hooks/useGridSources.ts keeps.
use learning_cuda.Base.{
  ℕ, suc, Bool, true, false, Option, none, some, List, [], ◌∷◌, String, if◌then◌else◌, string_key,
  length, leb,
}
use learning_cuda.Grid.{
  GridSource, Action, add_source, remove_source, update_source, grid_source_reducer, filter_out,
  find_source,
}
use learning_cuda.Grid.Build.{InputSource, Text, Selected, build_source, pick_default_source}

-- What the handlers tell the rest of the program.
pub data Effect : Type 0 where
  transport_connect transport_disconnect : ℕ → Effect
  close_session : String → Effect
  maximum_sources : Effect

pub record Host : Type 0 where
  pub sources : List GridSource
  pub selected_source_id : Option String
  pub next_number : ℕ
  pub pending_image_change : Option String
  pub default_source_initialized : Bool
  pub effects : List Effect

unfoldable pub new_host : Host
new_host = record {
  sources = [];
  selected_source_id = none;
  next_number = 1;
  pending_image_change = none;
  default_source_initialized = false;
  effects = [];
}

abbrev pub max_sources : ℕ
max_sources = 9

-- remaining[0]?.id ?? null
abbrev pub first_id : List GridSource → Option String
first_id [] = none
first_id (s ∷ ss) = some s.id

unfoldable pub is_selected : String → Option String → Bool
is_selected id none = false
is_selected id (some selected) = string_key.same selected id

unfoldable pub dispatch : Action → Host → Host
unfolding grid_source_reducer
dispatch a h = record h { sources = grid_source_reducer h.sources a }

-- removeSource
unfoldable pub remove_source_by : String → Host → Host
unfolding dispatch is_selected filter_out
remove_source_by id h =
    let selected =
      if is_selected id h.selected_source_id
      then first_id (filter_out id h.sources)
      else h.selected_source_id in
    record (dispatch (remove_source id) h) { selected_source_id = selected }

abbrev pub connecting : Option ℕ → List Effect → List Effect
connecting none effects = effects
connecting (some transport) effects = transport_connect transport ∷ effects

module _ (t : Text) (d : Selected) where
  -- buildSource, the dispatch of ADD_SOURCE, and the selection of the new source
  unfoldable pub build_and_add : Bool → InputSource → Host → Host
  unfolding build_source dispatch
  build_and_add selects i h =
      let source = build_source t d h.next_number i in
      record (dispatch (add_source source) h) {
        selected_source_id = if selects then some source.id else h.selected_source_id;
        next_number = suc h.next_number;
        effects = connecting source.transport h.effects;
      }

  -- addSource
  unfoldable pub on_add_source : InputSource → Host → Host
  unfolding build_and_add
  on_add_source i h =
      if leb max_sources (length h.sources)
      then record h { effects = maximum_sources ∷ h.effects }
      else build_and_add (leb (length h.sources) 0) i h

  unfoldable pub add_picked : Option InputSource → Host → Host
  unfolding build_and_add
  add_picked none h = h
  add_picked (some i) h = if leb (length h.sources) 0 then build_and_add true i h else h

  -- The continuation of pickDefaultSource.
  unfoldable pub on_default_picked : Bool → List InputSource → Host → Host
  unfolding add_picked pick_default_source
  on_default_picked usable sources h = add_picked (pick_default_source usable sources) h

-- The effect that starts pickDefaultSource once.
unfoldable pub on_ready : Host → Host
on_ready h =
    if h.default_source_initialized
    then h
    else if leb (length h.sources) 0
    then record h { default_source_initialized = true }
    else h

unfoldable pub on_select_source : String → Host → Host
on_select_source id h = record h { selected_source_id = some id }

abbrev pub disconnecting : Option ℕ → List Effect → List Effect
disconnecting none effects = effects
disconnecting (some transport) effects = transport_disconnect transport ∷ effects

abbrev pub closing_session : Option String → List Effect → List Effect
closing_session none effects = effects
closing_session (some session) effects = close_session session ∷ effects

-- What is closed with a source.
abbrev pub closing : Option GridSource → List Effect → List Effect
closing none effects = effects
closing (some s) effects = closing_session s.session_id (disconnecting s.transport effects)

unfoldable pub on_close_source : String → Host → Host
unfolding remove_source_by find_source
on_close_source id h =
    remove_source_by id (record h { effects = closing (find_source id h.sources) h.effects })

unfoldable pub on_change_image_request : String → Host → Host
on_change_image_request id h = record h { pending_image_change = some id }

abbrev pub with_image : String → GridSource → GridSource
with_image path s = record s {
  image_path = path;
  original_image_src = path;
  current_image_src = path;
}

-- The dispatch where a source waits for its image.
unfoldable pub change_image : String → Option String → Host → Host
unfolding dispatch
change_image path none h = h
change_image path (some id) h = dispatch (update_source id (with_image path)) h

unfoldable pub on_select_image : String → Host → Host
unfolding change_image
on_select_image path h = record (change_image path h.pending_image_change h) {
  pending_image_change = none;
}

-- stopAllSources
unfoldable pub stop_all_sources : List GridSource → List Effect → List Effect
stop_all_sources [] effects = effects
stop_all_sources (s ∷ ss) effects = stop_all_sources ss (closing (some s) effects)

pub data Event : Type 0 where
  adds : InputSource → Event
  readies : Event
  picks_default : Bool → List InputSource → Event
  selects closes requests_image selects_image : String → Event
  -- an action of a callback: of a transport, a camera session, a filter update
  tells : Action → Event

module _ (t : Text) (d : Selected) where
  unfoldable pub step : Host → Event → Host
  unfolding on_add_source on_ready on_default_picked on_select_source on_close_source
      on_change_image_request on_select_image dispatch
  step h (adds i) = on_add_source t d i h
  step h readies = on_ready h
  step h (picks_default usable sources) = on_default_picked t d usable sources h
  step h (selects id) = on_select_source id h
  step h (closes id) = on_close_source id h
  step h (requests_image id) = on_change_image_request id h
  step h (selects_image path) = on_select_image path h
  step h (tells a) = dispatch a h

  unfoldable pub run : Host → List Event → Host
  run h [] = h
  run h (e ∷ es) = run (step h e) es
