-- ===== src/Panel.antt =====
-- The panel of filters, src/front-end/src/presentation/components/filters/FilterPanel.tsx: its reducer, the
-- states that it starts from, and the handlers of dragging. An array that got an undefined entry, on which
-- the next render throws, is `none`.
pub mod Drag
pub mod Tidy
pub mod Invariant
pub mod Moves
mod Tests
use learning_cuda.Base.{
  ℕ, zero, suc, Bool, true, false, not, Option, none, some, List, [], ◌∷◌, String, map, string_key,
  if◌then◌else◌, ◌==◌, get_elem?, set, length,
}
use learning_cuda.JsMap.{JsMap, put}
use learning_cuda.Grid.{ActiveFilterState}

-- The fields of a GenericFilterParameter and of a GenericFilterDefinition that the states are made of.
pub record Parameter : Type 0 where
  pub id : String
  pub default_value : String

pub record Definition : Type 0 where
  pub id : String
  pub name : String
  pub parameters : List Parameter

pub record FilterState : Type 0 where
  pub id : String
  pub name : String
  pub enabled : Bool
  pub expanded : Bool
  pub parameters : List Parameter
  pub parameter_values : JsMap String String

pub record PanelState : Type 0 where
  pub filters : List FilterState
  pub dragged_index : Option ℕ
  pub drag_over_index : Option ℕ

pub data Action : Type 0 where
  init : List FilterState → Action
  toggle_card : ℕ → Action
  set_enabled : ℕ → Bool → Action
  set_parameter : String → String → String → Action
  reorder : ℕ → ℕ → Action
  drag_start drag_enter : ℕ → Action
  drag_end : Action

-- filters[index] = change(filter), unless there is no such filter
unfoldable pub change_at : ℕ → (FilterState → FilterState) → List FilterState → List FilterState
change_at i f [] = []
change_at zero f (x ∷ xs) = f x ∷ xs
change_at (suc i) f (x ∷ xs) = x ∷ change_at i f xs

abbrev pub toggled : FilterState → FilterState
toggled f = record f {
  expanded = not f.expanded;
  enabled = if not f.expanded then true else f.enabled;
}

abbrev pub with_enabled : Bool → FilterState → FilterState
with_enabled enabled f = record f {
  enabled = enabled;
  expanded = if enabled then f.expanded else false;
}

abbrev pub with_parameter : String → String → String → FilterState → FilterState
with_parameter filter_id param_id value f =
    if string_key.same f.id filter_id
    then record f { parameter_values = put param_id value f.parameter_values }
    else f

-- filters.splice(from, 1): what is left
unfoldable pub remove_at {ℓ} : {A : Type ℓ} → ℕ → List A → List A
remove_at i [] = []
remove_at zero (x ∷ xs) = xs
remove_at (suc i) (x ∷ xs) = x ∷ remove_at i xs

-- filters.splice(to, 0, moved); past the end it appends
unfoldable pub insert_at {ℓ} : {A : Type ℓ} → ℕ → A → List A → List A
insert_at zero y xs = y ∷ xs
insert_at (suc i) y [] = y ∷ []
insert_at (suc i) y (x ∷ xs) = x ∷ insert_at i y xs

-- The filters with the moved one at its new place.
unfoldable pub reorder_moved : ℕ → ℕ → Option FilterState → PanelState → Option PanelState
unfolding remove_at insert_at
reorder_moved from to none s = none
reorder_moved from to (some moved) s = some (record {
  filters = insert_at to moved (remove_at from s.filters);
  dragged_index = none;
  drag_over_index = none;
})

unfoldable pub filter_panel_reducer : PanelState → Action → Option PanelState
unfolding change_at reorder_moved
filter_panel_reducer s (init filters) =
    some (record { filters = filters; dragged_index = none; drag_over_index = none })
filter_panel_reducer s (toggle_card i) = some (record s { filters = change_at i toggled s.filters })
filter_panel_reducer s (set_enabled i enabled) =
    some (record s { filters = change_at i (with_enabled enabled) s.filters })
filter_panel_reducer s (set_parameter filter_id param_id value) =
    some (record s { filters = map (with_parameter filter_id param_id value) s.filters })
filter_panel_reducer s (reorder from to) = reorder_moved from to (get_elem? s.filters from) s
filter_panel_reducer s (drag_start i) = some (record s { dragged_index = some i })
filter_panel_reducer s (drag_enter i) = some (record s { drag_over_index = some i })
filter_panel_reducer s drag_end = some (record s { dragged_index = none; drag_over_index = none })

-- getActiveFilters
unfoldable pub get_active_filters : List FilterState → List ActiveFilterState
get_active_filters [] = []
get_active_filters (f ∷ fs) =
    let rest = get_active_filters fs in
    if f.enabled then record { id = f.id; parameters = f.parameter_values } ∷ rest else rest

-- The reduce over the parameters; the default value of a parameter without one is ''.
unfoldable pub default_values : List Parameter → JsMap String String → JsMap String String
default_values [] acc = acc
default_values (p ∷ ps) acc = default_values ps (put p.id p.default_value acc)

abbrev pub initial_state : Definition → FilterState
initial_state d = record {
  id = d.id;
  name = d.name;
  enabled = false;
  expanded = false;
  parameters = d.parameters;
  parameter_values = default_values d.parameters [];
}

-- { ...values, ...parameters }
unfoldable pub spread : JsMap String String → JsMap String String → JsMap String String
spread values [] = values
spread values ((k, v) ∷ parameters) = spread (put k v values) parameters

-- The first filter with the id of an active one is enabled, expanded, and gets its parameters.
unfoldable pub activate : ActiveFilterState → List FilterState → List FilterState
unfolding spread
activate a [] = []
activate a (f ∷ fs) =
    let rest = activate a fs in
    if string_key.same f.id a.id
    then record f {
      enabled = true;
      expanded = true;
      parameter_values = spread f.parameter_values a.parameters;
    }
      ∷ fs
    else f ∷ rest

unfoldable pub activate_all : List ActiveFilterState → List FilterState → List FilterState
unfolding activate
activate_all [] fs = fs
activate_all (a ∷ active) fs = activate_all active (activate a fs)

unfoldable pub initial_filter_states : List Definition → List ActiveFilterState → List FilterState
unfolding activate_all
initial_filter_states definitions active = activate_all active (map initial_state definitions)
