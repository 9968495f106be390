-- ===== src/Panel/Drag.antt =====
-- The handlers and effects of src/front-end/src/presentation/components/filters/FilterPanel.tsx over its
-- reducer. `join` is `Array.join(',')` of the filters' ids.
use learning_cuda.Base.{
  ℕ, Bool, Option, none, some, List, [], ◌∷◌, String, string_key, ◌==◌, if◌then◌else◌,
}
use learning_cuda.Grid.{ActiveFilterState}
use learning_cuda.Panel.{
  Definition, PanelState, Action, init, toggle_card, set_enabled, set_parameter, reorder,
  drag_start, drag_enter, drag_end, filter_panel_reducer, initial_filter_states,
}

-- The reducer's state, and the references draggedIndexRef and filterIdsKeyRef.
pub record Panel : Type 0 where
  pub state : PanelState
  pub dragged_index_ref : Option ℕ
  pub filter_ids_key : String

unfoldable pub new_panel : Panel
new_panel = record {
  state = record { filters = []; dragged_index = none; drag_over_index = none };
  dragged_index_ref = none;
  filter_ids_key = "";
}

unfoldable pub with_state : Option PanelState → Panel → Option Panel
with_state none p = none
with_state (some s) p = some (record p { state = s })

unfoldable pub dispatch : Action → Panel → Option Panel
unfolding with_state filter_panel_reducer
dispatch a p = with_state (filter_panel_reducer p.state a) p

abbrev pub ids_of : List Definition → List String
ids_of [] = []
ids_of (d ∷ ds) = d.id ∷ ids_of ds

-- The effect on new filter definitions.
unfoldable pub on_definitions :
    (List String → String) → List ActiveFilterState → List Definition → Panel → Option Panel
unfolding dispatch initial_filter_states
on_definitions join active definitions p =
    if string_key.same p.filter_ids_key (join (ids_of definitions))
    then some p
    else dispatch (init (initial_filter_states definitions active))
        (record p { filter_ids_key = join (ids_of definitions) })

unfoldable pub handle_drag_start : ℕ → Panel → Option Panel
unfolding dispatch
handle_drag_start i p = dispatch (drag_start i) (record p { dragged_index_ref = some i })

unfoldable pub handle_drag_end : Panel → Option Panel
unfolding dispatch
handle_drag_end p = dispatch drag_end (record p { dragged_index_ref = none })

unfoldable pub handle_drag_leave : Bool → Panel → Option Panel
unfolding dispatch
handle_drag_leave inside p = if inside then some p else dispatch drag_end p

unfoldable pub drop_from : Option ℕ → ℕ → Panel → Option Panel
unfolding dispatch
drop_from none to p = dispatch drag_end p
drop_from (some from) to p =
    if from == to then dispatch drag_end p else dispatch (reorder from to) p

unfoldable pub handle_drop : ℕ → Panel → Option Panel
unfolding drop_from
handle_drop to p = drop_from p.dragged_index_ref to (record p { dragged_index_ref = none })

pub data Event : Type 0 where
  receives : List Definition → Event
  toggles : ℕ → Event
  enables : ℕ → Bool → Event
  changes_parameter : String → String → String → Event
  starts_drag enters drops : ℕ → Event
  ends_drag : Event
  leaves : Bool → Event

-- What follows, unless an array got an undefined entry.
abbrev pub and_then : Option Panel → (Panel → Option Panel) → Option Panel
and_then none k = none
and_then (some p) k = k p

module _ (join : List String → String) (active : List ActiveFilterState) where
  unfoldable pub step : Panel → Event → Option Panel
  unfolding on_definitions handle_drag_start handle_drag_end handle_drag_leave handle_drop dispatch
  step p (receives definitions) = on_definitions join active definitions p
  step p (toggles i) = dispatch (toggle_card i) p
  step p (enables i enabled) = dispatch (set_enabled i enabled) p
  step p (changes_parameter filter_id param_id value) =
      dispatch (set_parameter filter_id param_id value) p
  step p (starts_drag i) = handle_drag_start i p
  step p (enters i) = dispatch (drag_enter i) p
  step p (drops to) = handle_drop to p
  step p ends_drag = handle_drag_end p
  step p (leaves inside) = handle_drag_leave inside p

  unfoldable pub run : Panel → List Event → Option Panel
  unfolding step
  run p [] = some p
  run p (e ∷ es) = and_then (step p e) (λ p'. run p' es)
