-- ===== src/Values/Filters.antt =====
-- The filters that are made of their definitions, in
-- src/front-end/src/domain/value-objects/filter-types.ts. `parse_float` is JavaScript's parseFloat. A label is
-- looked up among the map's own entries.
use learning_cuda.Base.{
  Bool, false, not, ◌||◌, ◌&&◌, Option, none, some, List, [], ◌∷◌, map, String, if◌then◌else◌,
  string_key,
}
use learning_cuda.JsMap.{JsMap, get, put}

pub data FilterParameterType : Type 0 where
  select range number checkbox text : FilterParameterType

pub record FilterOption : Type 0 where
  pub value : String
  pub label : String

pub record FilterParameterConfig (F : Type 0) : Type 0 where
  pub id : String
  pub name : String
  pub type : FilterParameterType
  pub options : List FilterOption
  pub default_value : String
  pub min : Option F
  pub max : Option F
  pub step : Option F
  pub display : Option String

pub record Filter (F : Type 0) : Type 0 where
  pub id : String
  pub name : String
  pub enabled : Bool
  pub expanded : Bool
  pub parameters : List (FilterParameterConfig F)
  pub parameter_values : JsMap String String

-- a || b on strings
unfoldable pub or_else : String → String → String
or_else a b = if string_key.same a "" then b else a

abbrev pub legacy_label_map : JsMap String String
legacy_label_map =
    ("bt601", "ITU-R BT.601 (SDTV)")
    ∷ ("bt709", "ITU-R BT.709 (HDTV)")
    ∷ ("average", "Average")
    ∷ ("lightness", "Lightness")
    ∷ ("luminosity", "Luminosity")
    ∷ ("clamp", "Clamp")
    ∷ ("reflect", "Reflect")
    ∷ ("wrap", "Wrap")
    ∷ []

-- legacyLabelMap[value], with '' for undefined, which || treats alike
unfoldable pub legacy_label : String → String
unfolding get
legacy_label value = elim (get value legacy_label_map) [ none ↦ "" | some label ↦ label ]

-- param.options.find((opt) => opt.value === value)
unfoldable pub find_option : String → List FilterOption → Option FilterOption
find_option value [] = none
find_option value (o ∷ os) =
    let rest = find_option value os in if string_key.same o.value value then some o else rest

unfoldable pub format_parameter_label : {F : Type 0} → FilterParameterConfig F → String → String
unfolding find_option or_else legacy_label
format_parameter_label param value = elim (find_option value param.options) [
  | none ↦ or_else (legacy_label value) value
  | some o ↦ or_else o.label o.value
]

unfoldable pub default_values :
    {F : Type 0} → List (FilterParameterConfig F) → JsMap String String → JsMap String String
default_values [] acc = acc
default_values (p ∷ ps) acc = default_values ps (put p.id p.default_value acc)

unfoldable pub build_filter :
    {F : Type 0} → String → String → List (FilterParameterConfig F) → Filter F
unfolding default_values
build_filter id name parameters = record {
  id = id;
  name = name;
  enabled = false;
  expanded = false;
  parameters = parameters;
  parameter_values = default_values parameters [];
}

-- Legacy definitions
pub record LegacyParameter : Type 0 where
  pub id : String
  pub name : String
  pub type : String
  pub options : List String
  pub default_value : String

unfoldable pub map_legacy_parameter_type : String → FilterParameterType
map_legacy_parameter_type type =
    if string_key.same type "select"
    then select
    else if string_key.same type "range" || string_key.same type "slider"
    then range
    else if string_key.same type "number"
    then number
    else if string_key.same type "checkbox"
    then checkbox
    else text

unfoldable pub build_legacy_options : List String → List FilterOption
unfolding or_else legacy_label
build_legacy_options [] = []
build_legacy_options (value ∷ values) =
    record { value = value; label = or_else (legacy_label value) value }
    ∷ build_legacy_options values

unfoldable pub legacy_parameter : {F : Type 0} → LegacyParameter → FilterParameterConfig F
unfolding map_legacy_parameter_type build_legacy_options
legacy_parameter p = record {
  id = p.id;
  name = p.name;
  type = map_legacy_parameter_type p.type;
  options = build_legacy_options p.options;
  default_value = p.default_value;
  min = none;
  max = none;
  step = none;
  display = none;
}

unfoldable pub create_filter_from_definition :
    {F : Type 0} → String → String → List LegacyParameter → Filter F
unfolding legacy_parameter build_filter
create_filter_from_definition id name parameters =
    build_filter id name (map legacy_parameter parameters)

-- Generic definitions
pub data GenericParameterType : Type 0 where
  unspecified select_type range_type number_type checkbox_type text_type : GenericParameterType

pub record GenericOption : Type 0 where
  pub value : String
  pub label : String

pub record GenericParameter : Type 0 where
  pub id : String
  pub name : String
  pub type : GenericParameterType
  pub options : List GenericOption
  pub default_value : String
  pub metadata : JsMap String String

abbrev pub map_generic_parameter_type : GenericParameterType → FilterParameterType
map_generic_parameter_type select_type = select
map_generic_parameter_type range_type = range
map_generic_parameter_type number_type = number
map_generic_parameter_type checkbox_type = checkbox
map_generic_parameter_type text_type = text
map_generic_parameter_type unspecified = text

-- The callback of the map in mapGenericOptions
unfoldable pub map_option : GenericOption → FilterOption
unfolding or_else legacy_label
map_option o =
    let value = or_else o.value (or_else o.label "") in
    let label = or_else o.label (or_else (legacy_label value) (or_else value o.value)) in
    record { value = or_else value (or_else label ""); label = or_else label (or_else value "") }

abbrev pub is_filled : String → Bool
is_filled s = not (string_key.same s "")

unfoldable pub map_generic_options : List GenericOption → List FilterOption
unfolding map_option
map_generic_options [] = []
map_generic_options (o ∷ os) =
    let rest = map_generic_options os in
    let mapped = map_option o in
    if is_filled mapped.value && is_filled mapped.label then mapped ∷ rest else rest

-- metadata.key !== undefined ? parseFloat(metadata.key) : undefined
abbrev pub parsed : {F : Type 0} → (String → F) → Option String → Option F
parsed parse_float none = none
parsed parse_float (some s) = some (parse_float s)

unfoldable pub map_generic_parameter :
    {F : Type 0} → (String → F) → GenericParameter → FilterParameterConfig F
unfolding map_generic_options get
map_generic_parameter parse_float p = record {
  id = p.id;
  name = p.name;
  type = map_generic_parameter_type p.type;
  options = map_generic_options p.options;
  default_value = p.default_value;
  min = parsed parse_float (get "min" p.metadata);
  max = parsed parse_float (get "max" p.metadata);
  step = parsed parse_float (get "step" p.metadata);
  display = get "display" p.metadata;
}

unfoldable pub create_filter_from_generic_definition :
    {F : Type 0} → (String → F) → String → String → List GenericParameter → Filter F
unfolding map_generic_parameter build_filter
create_filter_from_generic_definition parse_float id name parameters =
    build_filter id name (map (map_generic_parameter parse_float) parameters)
