-- ===== src/FrameTransport/Filters.antt =====
-- The filters of a frame, as they are sent: `serializeValue` and `toGenericFilterSelections` of
-- src/front-end/src/infrastructure/transport/webrtc-frame-transport.ts.
use text.Mathlib.Text.{◌==◌ as str_eq}
use text.Mathlib.TextEquality.{eq_iff}
use learning_cuda.Base.{
  ◌≡◌, ◌≢◌, refl, ap, Bool, List, [], ◌∷◌, map, String, if◌then◌else◌, All, inl, inr, Bool-cases,
}

-- A value of a parameter; numbers and objects come as the text that String(value) gives.
pub data Value : Type 0 where
  missing : Value
  boolean : Bool → Value
  rendered : String → Value

pub data ParameterValue : Type 0 where
  single : Value → ParameterValue
  many : List Value → ParameterValue

pub record Filter : Type 0 where
  pub id : String
  pub parameters : List (String × ParameterValue)

pub record ParameterSelection : Type 0 where
  pub parameter_id : String
  pub values : List String

pub record FilterSelection : Type 0 where
  pub filter_id : String
  pub parameters : List ParameterSelection

unfoldable pub serialize_value : Value → String
serialize_value missing = ""
serialize_value (boolean b) = if b then "true" else "false"
serialize_value (rendered s) = s

-- .map((entry) => serializeValue(entry)).filter((entry) => entry !== '')
unfoldable pub serialized : List Value → List String
unfolding serialize_value
serialized [] = []
serialized (v ∷ vs) =
    let rest = serialized vs in
    if str_eq (serialize_value v) "" then rest else serialize_value v ∷ rest

abbrev pub values_of : ParameterValue → List String
values_of (single v) = serialized (v ∷ [])
values_of (many vs) = serialized vs

-- A parameter without a value is left out.
abbrev pub keep_parameter : String → List String → List ParameterSelection → List ParameterSelection
keep_parameter id [] rest = rest
keep_parameter id (v ∷ vs) rest = record { parameter_id = id; values = v ∷ vs } ∷ rest

unfoldable pub select_parameters : List (String × ParameterValue) → List ParameterSelection
unfolding serialized
select_parameters [] = []
select_parameters ((id, v) ∷ ps) = keep_parameter id (values_of v) (select_parameters ps)

unfoldable pub to_generic_filter_selections : List Filter → List FilterSelection
unfolding select_parameters
to_generic_filter_selections [] = []
to_generic_filter_selections (f ∷ fs) =
    record { filter_id = f.id; parameters = select_parameters f.parameters }
    ∷ to_generic_filter_selections fs

-- A parameter has a value, and no value is empty.
abbrev pub HasValues : ParameterSelection → Type 0
HasValues p = (p.values ≢ []) × All (λ v. v ≢ "") p.values

serialized-nonempty : (vs : List Value) → All (λ v. v ≢ "") (serialized vs)
unfolding serialized
serialized-nonempty [] = tt
serialized-nonempty (v ∷ vs) = elim (Bool-cases (str_eq (serialize_value v) "")) [
  | inl blank ↦ rw blank (serialized-nonempty vs)
  | inr filled ↦
      rw filled (λ e. cc ((eq_iff (serialize_value v) "").1 e, filled), serialized-nonempty vs)
]

keep_parameter-HasValues :
    (id : String) (vs : List String) (rest : List ParameterSelection)
    → All (λ v. v ≢ "") vs
    → All HasValues rest
    → All HasValues (keep_parameter id vs rest)
keep_parameter-HasValues id [] rest a h = h
keep_parameter-HasValues id (v ∷ vs) rest a h = ((λ e. cc (e), a), h)

values_of-nonempty : (v : ParameterValue) → All (λ s. s ≢ "") (values_of v)
values_of-nonempty (single v) = serialized-nonempty (v ∷ [])
values_of-nonempty (many vs) = serialized-nonempty vs

select_parameters-HasValues :
    (ps : List (String × ParameterValue)) → All HasValues (select_parameters ps)
unfolding select_parameters
select_parameters-HasValues [] = tt
select_parameters-HasValues ((id, v) ∷ ps) =
    keep_parameter-HasValues id (values_of v) (select_parameters ps) (values_of-nonempty v)
      (select_parameters-HasValues ps)

-- Every filter is sent, under its id and in its place; and each parameter that is sent with one has at
-- least one value, and no empty value.
pub filters_sent :
    (fs : List Filter)
    → (map (λ (f : FilterSelection). f.filter_id) (to_generic_filter_selections fs)
        ≡ map (λ (f : Filter). f.id) fs)
      × All (λ (f : FilterSelection). All HasValues f.parameters) (to_generic_filter_selections fs)
unfolding to_generic_filter_selections
filters_sent [] = (refl, tt)
filters_sent (f ∷ fs) =
    let (same, rest) = filters_sent fs in
    (ap (◌∷◌ f.id) same, (select_parameters-HasValues f.parameters, rest))
