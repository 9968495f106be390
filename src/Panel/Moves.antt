-- ===== src/Panel/Moves.antt =====
-- Where a dragged filter ends up.
use learning_cuda.Base.{
  map, String, string_key, inl, inr, Bool-cases, ℕ, zero, suc, ◌≤◌, ◌<◌, ◌≡◌, ◌≢◌, refl, ap, ◌∙◌,
  Option, none, some, List, [], ◌∷◌, length, get_elem?, arith, false, ◌==◌, if◌then◌else◌,
}
use learning_cuda.Panel.{
  Definition, activate, activate_all, initial_state, initial_filter_states, FilterState, remove_at,
  insert_at, reorder_moved, reorder, drag_end, filter_panel_reducer,
}
use learning_cuda.Grid.{ActiveFilterState}
use learning_cuda.Panel.Drag.{
  Panel, on_definitions, ids_of, and_then, handle_drop, drop_from, dispatch, with_state,
}

module _ {ℓ} {A : Type ℓ} where
  length-remove_at :
      (i : ℕ) (xs : List A) → i < length xs → suc (length (remove_at i xs)) ≡ length xs
  unfolding remove_at
  length-remove_at i [] h = absurd (omega (arith, h))
  length-remove_at zero (x ∷ xs) h = refl
  length-remove_at (suc i) (x ∷ xs) h = ap suc (length-remove_at i xs (omega (arith, h)))

  pub length-insert_at : (i : ℕ) (y : A) (xs : List A) → length (insert_at i y xs) ≡ suc (length xs)
  unfolding insert_at
  length-insert_at zero y xs = refl
  length-insert_at (suc i) y [] = refl
  length-insert_at (suc i) y (x ∷ xs) = ap suc (length-insert_at i y xs)

  remove_at-insert_at :
      (i : ℕ) (y : A) (xs : List A) → i ≤ length xs → remove_at i (insert_at i y xs) ≡ xs
  unfolding remove_at insert_at
  remove_at-insert_at zero y xs h = refl
  remove_at-insert_at (suc i) y [] h = absurd (omega (arith, h))
  remove_at-insert_at (suc i) y (x ∷ xs) h =
      ap (◌∷◌ x) (remove_at-insert_at i y xs (omega (arith, h)))

  get_elem?-insert_at :
      (i : ℕ) (y : A) (xs : List A) → i ≤ length xs → get_elem? (insert_at i y xs) i ≡ some y
  unfolding insert_at
  get_elem?-insert_at zero y xs h = refl
  get_elem?-insert_at (suc i) y [] h = absurd (omega (arith, h))
  get_elem?-insert_at (suc i) y (x ∷ xs) h = get_elem?-insert_at i y xs (omega (arith, h))

  pub get_elem?-lt : (xs : List A) (i : ℕ) (x : A) → get_elem? xs i ≡ some x → i < length xs
  get_elem?-lt [] i x e = cc (e)
  get_elem?-lt (y ∷ xs) zero x e = omega arith
  get_elem?-lt (y ∷ xs) (suc i) x e = omega (arith, get_elem?-lt xs i x e)

  pub get_elem?-ne-none : (xs : List A) (i : ℕ) → i < length xs → get_elem? xs i ≢ none
  get_elem?-ne-none [] i h e = absurd (omega (arith, h))
  get_elem?-ne-none (x ∷ xs) zero h e = cc (e)
  get_elem?-ne-none (x ∷ xs) (suc i) h e = get_elem?-ne-none xs i (omega (arith, h)) e

  pub get_elem?-beyond : (xs : List A) (i : ℕ) → length xs ≤ i → get_elem? xs i ≡ none
  get_elem?-beyond [] i h = refl
  get_elem?-beyond (x ∷ xs) zero h = absurd (omega (arith, h))
  get_elem?-beyond (x ∷ xs) (suc i) h = get_elem?-beyond xs i (omega (arith, h))

-- The filters after a move.
abbrev pub moved : ℕ → ℕ → FilterState → List FilterState → List FilterState
moved from to f fs = insert_at to f (remove_at from fs)

ne_test : (from to : ℕ) → from ≢ to → (from == to) ≡ false
ne_test from to ne = ground arith

-- A drop on another card is the reducer's move.
pub handle_drop_ne :
    (p : Panel) (from to : ℕ) (found : Option FilterState)
    → p.dragged_index_ref ≡ some from
    → from ≢ to
    → get_elem? p.state.filters from ≡ found
    → handle_drop to p
      ≡ with_state (reorder_moved from to found p.state) (record p { dragged_index_ref = none })
unfolding handle_drop drop_from dispatch filter_panel_reducer
handle_drop_ne p from to found held ne e =
    let q = record p { dragged_index_ref = none } in
    ap (λ o. drop_from o to q) held
    ∙ ap (λ b. if b then dispatch drag_end q else dispatch (reorder from to) q) (ne_test from to ne)
    ∙ ap (λ o. with_state (reorder_moved from to o p.state) q) e

-- A filter that is dropped on another card of the panel takes the place of that card, as many filters are
-- there as before, and without it the others stand in their old order; the drag is over.
pub drop_moves :
    (p : Panel) (from to : ℕ) (f : FilterState)
    → p.dragged_index_ref ≡ some from
    → from ≢ to
    → get_elem? p.state.filters from ≡ some f
    → to < length p.state.filters
    → let after = moved from to f p.state.filters in
      (handle_drop to p
        ≡ some (record p {
          state = record { filters = after; dragged_index = none; drag_over_index = none };
          dragged_index_ref = none;
        }))
      × (get_elem? after to ≡ some f)
      × (remove_at to after ≡ remove_at from p.state.filters)
      × (length after ≡ length p.state.filters)
unfolding with_state reorder_moved
drop_moves p from to f held ne found inside =
    let left = remove_at from p.state.filters in
    let shorter =
      length-remove_at from p.state.filters (get_elem?-lt p.state.filters from f found) in
    (
      handle_drop_ne p from to (some f) held ne found,
      get_elem?-insert_at to f left (omega (arith, shorter, inside)),
      remove_at-insert_at to f left (omega (arith, shorter, inside)),
      length-insert_at to f left ∙ shorter,
    )

length-activate :
    (a : ActiveFilterState) (fs : List FilterState) → length (activate a fs) ≡ length fs
unfolding activate
length-activate a [] = refl
length-activate a (f ∷ fs) = elim (Bool-cases (string_key.same f.id a.id)) [
  | inl hit ↦ simp (hit) refl
  | inr miss ↦ simp (miss) (ap suc (length-activate a fs))
]

length-initial :
    (active : List ActiveFilterState) (fs : List FilterState)
    → length (activate_all active fs) ≡ length fs
unfolding activate_all
length-initial [] fs = refl
length-initial (a ∷ active) fs = length-initial active (activate a fs) ∙ length-activate a fs

drop_beyond :
    (p : Panel) (from to : ℕ)
    → p.dragged_index_ref ≡ some from
    → from ≢ to
    → length p.state.filters ≤ from
    → handle_drop to p ≡ none
unfolding with_state reorder_moved
drop_beyond p from to held ne short =
    handle_drop_ne p from to none held ne (get_elem?-beyond p.state.filters from short)

-- The reference to the dragged card outlives a new list of filter definitions: where one arrives that is
-- too short for the dragged card, a drop on another card leaves an undefined entry among the filters.
pub drop_after_shrinking :
    (join : List String → String) (active : List ActiveFilterState) (definitions : List Definition)
    (p : Panel) (from to : ℕ)
    → string_key.same p.filter_ids_key (join (ids_of definitions)) ≡ false
    → p.dragged_index_ref ≡ some from
    → from ≢ to
    → length definitions ≤ from
    → and_then (on_definitions join active definitions p) (handle_drop to) ≡ none
unfolding on_definitions dispatch with_state filter_panel_reducer initial_filter_states
drop_after_shrinking join active definitions p from to new held ne short = rw new (
    drop_beyond _ from to held ne (
      omega (
        arith,
        short,
        length-initial active (map initial_state definitions),
        length-map initial_state definitions,
      )))
  where
    length-map :
        (f : Definition → FilterState) (ds : List Definition) → length (map f ds) ≡ length ds
    length-map f [] = refl
    length-map f (d ∷ ds) = ap suc (length-map f ds)
