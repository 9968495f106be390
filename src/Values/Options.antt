-- ===== src/Values/Options.antt =====
-- Which options of a generic definition stay, in
-- src/front-end/src/domain/value-objects/filter-types.ts.
use learning_cuda.Values.Filters.{
  FilterOption, GenericOption, is_filled, legacy_label, map_generic_options, map_option, or_else,
}
use learning_cuda.Base.{
  suc, ◌≡◌, refl, sym, ap, subst, ◌∙◌, Bool, true, false, ◌||◌, ◌&&◌, List, [], ◌∷◌, String,
  if◌then◌else◌, string_key, All, length, inl, inr, Bool-cases,
}
use learning_cuda.JsMap.{get}

-- Whether an option has a value or a label.
abbrev pub is_named : GenericOption → Bool
is_named o = is_filled o.value || is_filled o.label

abbrev pub named_options : List GenericOption → List GenericOption
named_options [] = []
named_options (o ∷ os) = let rest = named_options os in if is_named o then o ∷ rest else rest

-- An option has a value and a label.
abbrev pub IsFilled : FilterOption → Type 0
IsFilled o = (is_filled o.value ≡ true) × (is_filled o.label ≡ true)

is_filled-or_else : (a b : String) → is_filled (or_else a b) ≡ (is_filled a || is_filled b)
unfolding or_else
is_filled-or_else a b = elim (Bool-cases (string_key.same a "")) [
  | inl blank ↦ rw blank refl
  | inr filled ↦ simp (filled) refl
]

is_filled-legacy_label : (v : String) → is_filled v ≡ false → is_filled (legacy_label v) ≡ false
unfolding legacy_label get
is_filled-legacy_label v blank = elim (Bool-cases (string_key.same v "")) [
  | inl e ↦
      subst (λ w. is_filled (legacy_label w) ≡ false) (sym ((string_key.same_iff v "").0 e)) refl
  | inr e ↦ cc (e, blank)
]

fill :
    (a b : String) {x y : Bool}
    → is_filled a ≡ x
    → is_filled b ≡ y
    → is_filled (or_else a b) ≡ (x || y)
fill a b {x} {y} p q = is_filled-or_else a b ∙ ap (λ c. c || is_filled b) p ∙ ap (λ c. x || c) q

-- A label that is looked up is only there where the value is.
label_needs_value :
    (x y l : Bool)
    → ((x || (y || false)) ≡ false → l ≡ false)
    → let v = x || (y || false) in
      ((v || ((y || (l || (v || x))) || false)) ≡ (x || y))
      × (((y || (l || (v || x))) || (v || false)) ≡ (x || y))
label_needs_value true true l h = (refl, refl)
label_needs_value true false true h = (refl, refl)
label_needs_value true false false h = (refl, refl)
label_needs_value false true l h = (refl, refl)
label_needs_value false false true h = cc (h refl)
label_needs_value false false false h = (refl, refl)

mapped-filled :
    (o : GenericOption)
    → (is_filled (map_option o).value ≡ is_named o) × (is_filled (map_option o).label ≡ is_named o)
unfolding map_option
mapped-filled o =
    let x = is_filled o.value in
    let y = is_filled o.label in
    let value = or_else o.value (or_else o.label "") in
    let v : is_filled value ≡ (x || (y || false)) =
      fill o.value (or_else o.label "") refl (fill o.label "" refl refl) in
    let legacy = is_filled-legacy_label value in
    let shown = or_else (legacy_label value) (or_else value o.value) in
    let label =
      fill o.label shown refl
        (fill (legacy_label value) (or_else value o.value) refl (fill value o.value v refl)) in
    let label_text = or_else o.label shown in
    let (as_value, as_label) =
      label_needs_value x y (is_filled (legacy_label value)) (λ e. legacy (v ∙ e)) in
    (
      fill value (or_else label_text "") v (fill label_text "" label refl) ∙ as_value,
      fill label_text (or_else value "") label (fill value "" v refl) ∙ as_label,
    )

-- An option of a generic definition stays exactly where it has a value or a label, and every option that
-- stays has both.
pub kept_options_have_text :
    (os : List GenericOption)
    → All IsFilled (map_generic_options os)
      × (length (map_generic_options os) ≡ length (named_options os))
unfolding map_generic_options
kept_options_have_text [] = (tt, refl)
kept_options_have_text (o ∷ os) =
    by_name (is_named o) (mapped-filled o).0 (mapped-filled o).1 (kept_options_have_text os)
  where
    by_name :
        (named : Bool)
        → is_filled (map_option o).value ≡ named
        → is_filled (map_option o).label ≡ named
        → All IsFilled (map_generic_options os)
          × (length (map_generic_options os) ≡ length (named_options os))
        → All IsFilled (
            if is_filled (map_option o).value && is_filled (map_option o).label
            then map_option o ∷ map_generic_options os
            else map_generic_options os)
          × (length (
                if is_filled (map_option o).value && is_filled (map_option o).label
                then map_option o ∷ map_generic_options os
                else map_generic_options os)
              ≡ length (if named then o ∷ named_options os else named_options os))
    by_name true v l rest = rw (v, l) (((v, l), rest.0), ap suc rest.1)
    by_name false v l rest = rw v rest
