-- ===== src/Panel/Invariant.antt =====
-- What stays true of the panel of filters over any events
-- (src/front-end/src/presentation/components/filters/FilterPanel.tsx).
use learning_cuda.Base.{
  ℕ, ◌<◌, ◌≡◌, refl, sym, subst, true, false, Option, none, some, List, [], ◌∷◌, String, map,
  length, get_elem?, arith, inl, inr, All, Bool-cases, ◌==◌, string_key,
}
use learning_cuda.Grid.{ActiveFilterState}
use learning_cuda.Panel.{
  Definition, FilterState, change_at, toggled, with_enabled, with_parameter, remove_at,
  reorder_moved, filter_panel_reducer, initial_state, activate_all, initial_filter_states,
}
use learning_cuda.Panel.Drag.{
  Panel, new_panel, with_state, dispatch, on_definitions, handle_drag_start, handle_drag_end,
  handle_drag_leave, drop_from, handle_drop, Event, receives, toggles, enables, changes_parameter,
  starts_drag, enters, drops, ends_drag, leaves, step, run, and_then, ids_of,
}
use learning_cuda.Panel.Moves.{get_elem?-ne-none}
use learning_cuda.Panel.Tidy.{
  IsTidy, toggled-IsTidy, with_enabled-IsTidy, with_parameter-IsTidy, change_at-IsTidy, map-IsTidy,
  length-change_at, length-map, remove_at-IsTidy, insert_at-IsTidy, get-IsTidy, initial-IsTidy,
  activate_all-IsTidy,
}

-- The card that is held is one of the n cards.
abbrev pub HeldIn : ℕ → Option ℕ → Type 0
HeldIn n none = Unit
HeldIn n (some i) = i < n

pub record Sound (p : Panel) : Type 0 where
  pub tidy : All IsTidy p.state.filters
  pub held : HeldIn (length p.state.filters) p.dragged_index_ref

-- No array got an undefined entry, and the panel is sound.
abbrev pub Fine : Option Panel → Type 0
Fine none = ⊥
Fine (some p) = Sound p

abbrev pub IfAny : Option Panel → (Panel → Type 0) → Type 0
IfAny none K = Unit
IfAny (some p) K = K p

same_length : (n m : ℕ) (o : Option ℕ) → n ≡ m → HeldIn m o → HeldIn n o
same_length n m none e h = tt
same_length n m (some i) e h = omega (arith, e, h)

change_at-Sound :
    (p : Panel) (i : ℕ) (g : FilterState → FilterState)
    → ((f : FilterState) → IsTidy f → IsTidy (g f))
    → Sound p
    → Sound (record p { state = record p.state { filters = change_at i g p.state.filters } })
change_at-Sound p i g keeps v = record {
  tidy = change_at-IsTidy g keeps i p.state.filters v.tidy;
  held =
      same_length (length (change_at i g p.state.filters)) (length p.state.filters)
        p.dragged_index_ref (length-change_at i g p.state.filters) v.held;
}

-- The drag indices of the state are free.
indices-Sound :
    (p : Panel) (dragged over : Option ℕ)
    → Sound p
    → Sound
        (record p { state = record p.state { dragged_index = dragged; drag_over_index = over } })
indices-Sound p dragged over v = record { tidy = v.tidy; held = v.held }

let_go : (p : Panel) → Sound p → Sound (record p { dragged_index_ref = none })
let_go p v = record { tidy = v.tidy; held = tt }

reorder-Fine :
    (p : Panel) (from to : ℕ) (found : Option FilterState)
    → get_elem? p.state.filters from ≡ found
    → from < length p.state.filters
    → All IsTidy p.state.filters
    → Fine
        (with_state (reorder_moved from to found p.state) (record p { dragged_index_ref = none }))
unfolding with_state reorder_moved
reorder-Fine p from to none e h a = absurd (get_elem?-ne-none p.state.filters from h e)
reorder-Fine p from to (some f) e h a = record {
  tidy =
      insert_at-IsTidy to f (remove_at from p.state.filters) (get-IsTidy from f p.state.filters a e)
        (remove_at-IsTidy from p.state.filters a);
  held = tt;
}

-- A drop, with the reference already cleared.
drop_from-Fine :
    (p : Panel) (o : Option ℕ) (to : ℕ)
    → HeldIn (length p.state.filters) o
    → Sound p
    → Fine (drop_from o to (record p { dragged_index_ref = none }))
unfolding drop_from dispatch filter_panel_reducer with_state
drop_from-Fine p none to h v =
    indices-Sound (record p { dragged_index_ref = none }) none none (let_go p v)
drop_from-Fine p (some from) to h v = elim (Bool-cases (from == to)) [
  | inl same ↦
      rw same (indices-Sound (record p { dragged_index_ref = none }) none none (let_go p v))
  | inr ne ↦ rw ne (reorder-Fine p from to (get_elem? p.state.filters from) refl h v.tidy)
]

module _ (join : List String → String) (active : List ActiveFilterState) where
  -- A drag starts at a card that is there, and no new definitions come during a drag.
  abbrev pub IsFitting : Panel → Event → Type 0
  IsFitting p (starts_drag i) = i < length p.state.filters
  IsFitting p (receives definitions) = p.dragged_index_ref ≡ none
  IsFitting p e = Unit

  abbrev pub AreFitting : Panel → List Event → Type 0
  AreFitting p [] = Unit
  AreFitting p (e ∷ es) = IsFitting p e × IfAny (step join active p e) (λ p'. AreFitting p' es)

  on_definitions-Fine :
      (p : Panel) (definitions : List Definition)
      → p.dragged_index_ref ≡ none
      → Sound p
      → Fine (on_definitions join active definitions p)
  unfolding on_definitions initial_filter_states
  on_definitions-Fine p definitions idle v =
      let filters = activate_all active (map initial_state definitions) in
      elim (Bool-cases (string_key.same p.filter_ids_key (join (ids_of definitions)))) [
        | inl same ↦ simp (same) v
        | inr new ↦ simp (new) (record {
          tidy =
              activate_all-IsTidy active (map initial_state definitions)
                (initial-IsTidy definitions);
          held = subst (HeldIn (length filters)) (sym idle) tt;
        })
      ]

  step-Fine : (p : Panel) (e : Event) → IsFitting p e → Sound p → Fine (step join active p e)
  unfolding step dispatch with_state filter_panel_reducer handle_drag_start handle_drag_end
      handle_drag_leave handle_drop
  step-Fine p (receives definitions) fit v = on_definitions-Fine p definitions fit v
  step-Fine p (toggles i) fit v = change_at-Sound p i toggled toggled-IsTidy v
  step-Fine p (enables i b) fit v = change_at-Sound p i (with_enabled b) (with_enabled-IsTidy b) v
  step-Fine p (changes_parameter i k w) fit v = record {
    tidy = map-IsTidy (with_parameter i k w) (with_parameter-IsTidy i k w) p.state.filters v.tidy;
    held =
        same_length (length (map (with_parameter i k w) p.state.filters)) (length p.state.filters)
          p.dragged_index_ref (length-map (with_parameter i k w) p.state.filters) v.held;
  }
  step-Fine p (starts_drag i) fit v = record { tidy = v.tidy; held = fit }
  step-Fine p (enters i) fit v = indices-Sound p p.state.dragged_index (some i) v
  step-Fine p (drops to) fit v = drop_from-Fine p p.dragged_index_ref to v.held v
  step-Fine p ends_drag fit v =
      indices-Sound (record p { dragged_index_ref = none }) none none (let_go p v)
  step-Fine p (leaves true) fit v = v
  step-Fine p (leaves false) fit v = indices-Sound p none none v

  then-Fine :
      (o : Option Panel) (K : Panel → Type 0) (k : Panel → Option Panel)
      → Fine o
      → IfAny o K
      → ((p : Panel) → Sound p → K p → Fine (k p))
      → Fine (and_then o k)
  then-Fine none K k f i h = absurd f
  then-Fine (some p) K k f i h = h p f i

  run-Fine_from :
      (p : Panel) (es : List Event) → AreFitting p es → Sound p → Fine (run join active p es)
  unfolding run
  run-Fine_from p [] fit v = v
  run-Fine_from p (e ∷ es) fit v =
      then-Fine (step join active p e) (λ p'. AreFitting p' es) (λ p'. run join active p' es)
        (step-Fine p e fit.0 v) fit.1 (λ p' v' fit'. run-Fine_from p' es fit' v')

  -- Whatever the user toggles, enables, edits, drags and drops, where a drag starts at a card that is
  -- there and no new definitions arrive during it: no array gets an undefined entry, every expanded card
  -- is enabled, and a card that is held is one of the cards.
  pub run-Fine : (es : List Event) → AreFitting new_panel es → Fine (run join active new_panel es)
  unfolding new_panel
  run-Fine es fit = run-Fine_from new_panel es fit (record { tidy = tt; held = tt })
