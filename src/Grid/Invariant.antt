-- ===== src/Grid/Invariant.antt =====
-- What stays true of the grid over any events of
-- src/front-end/src/presentation/components/video/VideoGridHost.tsx.
use learning_cuda.Base.{
  ℕ, suc, ◌≤◌, ◌<◌, ◌≡◌, ◌≢◌, refl, sym, ap, subst, ◌∙◌, inl, inr, Bool, true, false, Option, none,
  some, List, [], ◌∷◌, ◌++◌, String, string_key, arith, All, length, leb, length-append,
  if◌then◌else◌, Bool-cases,
}
use learning_cuda.JsMap.Order.{Absent, Distinct, Distinct-concat}
use learning_cuda.Grid.{
  GridSource, Action, update_source, filter_out, changed, source_id, grid_source_reducer,
  find_source,
}
use learning_cuda.Grid.Ids.{unique_id, unique_id-injective}
use learning_cuda.Grid.Build.{InputSource, Text, Selected, build_source, pick_default_source}
use learning_cuda.Grid.Reducer.{ids, IsUpdate, changed-identity, reducer-update, ids-update_where}
use learning_cuda.Grid.Host.{
  Host, Effect, closing, new_host, max_sources, first_id, is_selected, dispatch, remove_source_by,
  build_and_add, on_add_source, add_picked, on_default_picked, on_ready, on_select_source,
  on_close_source, on_change_image_request, with_image, change_image, on_select_image, Event, adds,
  readies, picks_default, selects, closes, requests_image, selects_image, tells, step, run,
}
use learning_cuda.Grid.Present.{
  Present, SelectedOf, Present-concat, Present-last, Present-filter_out, ids-concat,
  Distinct-filter_out, All-filter_out, length-filter_out, first_id-SelectedOf, All-concat,
  length-update_where, All-update_where, SelectedOf-update_where,
}

-- The source has one of the numbers given out so far, and its id was made of it.
abbrev pub IsNumbered : ℕ → GridSource → Type 0
IsNumbered next s = (s.number < next) × (i : String) × (s.id ≡ unique_id i s.number)

pub record Sound (h : Host) : Type 0 where
  pub unique : Distinct (ids h.sources)
  pub numbered : All (IsNumbered h.next_number) h.sources
  pub bounded : length h.sources ≤ max_sources
  pub selection : SelectedOf h.selected_source_id h.sources

more_numbers : (n : ℕ) (ss : List GridSource) → All (IsNumbered n) ss → All (IsNumbered (suc n)) ss
more_numbers n [] a = tt
more_numbers n (s ∷ ss) a = ((omega (arith, a.0.0), a.0.1, a.0.2), more_numbers n ss a.1)

update-Sound : (a : Action) (h : Host) → IsUpdate a → Sound h → Sound (dispatch a h)
unfolding dispatch
update-Sound a h u v =
    let keeps = λ (s : GridSource). (changed-identity a u s).0 in
    let same = λ (s : GridSource). (changed-identity a u s).1 in
    let id = source_id a in
    rw (reducer-update a h.sources u) (record {
      unique = subst Distinct (sym (ids-update_where id (changed a) keeps h.sources)) v.unique;
      numbered =
          All-update_where id (changed a) (IsNumbered h.next_number)
            (λ s p. (
              subst (λ n. n < h.next_number) (sym (same s)) p.0,
              p.1,
              keeps s ∙ p.2 ∙ ap (unique_id p.1) (sym (same s)),
            ))
            h.sources v.numbered;
      bounded = omega (arith, length-update_where id (changed a) h.sources, v.bounded);
      selection =
          SelectedOf-update_where id (changed a) keeps h.selected_source_id h.sources v.selection;
    })

remove_selection :
    (id : String) (o : Option String) (ss : List GridSource)
    → SelectedOf o ss
    → SelectedOf (if is_selected id o then first_id (filter_out id ss) else o) (filter_out id ss)
unfolding is_selected filter_out
remove_selection id none ss e = ap (filter_out id) e
remove_selection id (some j) ss p = elim (Bool-cases (string_key.same j id)) [
  | inl hit ↦ rw hit (first_id-SelectedOf (filter_out id ss))
  | inr miss ↦
      rw miss (Present-filter_out id j ss (λ e. cc ((string_key.same_iff j id).1 (sym e), miss)) p)
]

remove-Sound : (id : String) (h : Host) → Sound h → Sound (remove_source_by id h)
unfolding remove_source_by dispatch grid_source_reducer
remove-Sound id h v = record {
  unique = Distinct-filter_out id h.sources v.unique;
  numbered = All-filter_out (IsNumbered h.next_number) id h.sources v.numbered;
  bounded = omega (arith, length-filter_out id h.sources, v.bounded);
  selection = remove_selection id h.selected_source_id h.sources v.selection;
}

-- The other fields are free.
others-Sound :
    (h : Host) (pending : Option String) (started : Bool) (effects : List Effect)
    → Sound h
    → Sound (record h {
      pending_image_change = pending;
      default_source_initialized = started;
      effects = effects;
    })
others-Sound h pending started effects v = record {
  unique = v.unique;
  numbered = v.numbered;
  bounded = v.bounded;
  selection = v.selection;
}

module _ (t : Text) (d : Selected) where
  new_Absent :
      (i : String) (n : ℕ) (ss : List GridSource)
      → All (IsNumbered n) ss
      → Absent (unique_id i n) (ids ss)
  new_Absent i n [] a = tt
  new_Absent i n (s ∷ ss) a = (
    λ e. omega (arith, a.0.0, unique_id-injective a.0.1 i s.number n (sym a.0.2 ∙ e)),
    new_Absent i n ss a.1,
  )

  add_selection :
      (chosen : Bool) (o : Option String) (s : GridSource) (ss : List GridSource)
      → SelectedOf o ss
      → (chosen ≡ false → ss ≢ [])
      → SelectedOf (if chosen then some s.id else o) (ss ++ s ∷ [])
  add_selection true o s ss p ne = Present-last s ss
  add_selection false none s ss e ne = absurd (ne refl e)
  add_selection false (some j) s ss p ne = Present-concat j s ss p

  add-Sound :
      (chosen : Bool) (i : InputSource) (h : Host)
      → length h.sources < max_sources
      → (chosen ≡ false → h.sources ≢ [])
      → Sound h
      → Sound (build_and_add t d chosen i h)
  unfolding build_and_add dispatch grid_source_reducer build_source
  add-Sound chosen i h room ne v =
      let s = build_source t d h.next_number i in
      record {
        unique = subst Distinct (sym (ids-concat h.sources s)) (
            Distinct-concat s.id (ids h.sources) v.unique
              (new_Absent i.id h.next_number h.sources v.numbered));
        numbered =
            All-concat (IsNumbered (suc h.next_number)) h.sources s
              (more_numbers h.next_number h.sources v.numbered) (omega arith, i.id, refl);
        bounded = omega (arith, length-append h.sources (s ∷ []), room);
        selection = add_selection chosen h.selected_source_id s h.sources v.selection ne;
      }

  Sound-if : (b : Bool) (x y : Host) → Sound x → Sound y → Sound (if b then x else y)
  Sound-if true x y p q = p
  Sound-if false x y p q = q

  not_empty : (ss : List GridSource) → leb (length ss) 0 ≡ false → ss ≢ []
  not_empty ss e q = cc (ap (λ l. leb (length l) 0) q, e)

  on_add_source-Sound : (i : InputSource) (h : Host) → Sound h → Sound (on_add_source t d i h)
  unfolding on_add_source
  on_add_source-Sound i h v = elim (Bool-cases (leb max_sources (length h.sources))) [
    | inl full ↦ rw full (others-Sound h h.pending_image_change h.default_source_initialized _ v)
    | inr room ↦
        rw room (add-Sound (leb (length h.sources) 0) i h (ground arith) (not_empty h.sources) v)
  ]

  add_picked-Sound : (o : Option InputSource) (h : Host) → Sound h → Sound (add_picked t d o h)
  unfolding add_picked
  add_picked-Sound none h v = v
  add_picked-Sound (some i) h v = elim (Bool-cases (leb (length h.sources) 0)) [
    | inl empty ↦ rw empty (add-Sound true i h (ground arith) (λ e. absurd (cc (e))) v)
    | inr some_there ↦ rw some_there v
  ]

  -- The user selects a source that is shown, and callbacks only update sources.
  abbrev pub AreFitting : Host → List Event → Type 0
  AreFitting h [] = Unit
  AreFitting h (selects id ∷ es) = Present id h.sources × AreFitting (step t d h (selects id)) es
  AreFitting h (tells a ∷ es) = IsUpdate a × AreFitting (step t d h (tells a)) es
  AreFitting h (e ∷ es) = AreFitting (step t d h e) es

  on_ready-Sound : (h : Host) → Sound h → Sound (on_ready h)
  unfolding on_ready
  on_ready-Sound h v = Sound-if h.default_source_initialized h _ v (
      Sound-if (leb (length h.sources) 0) (record h { default_source_initialized = true }) h
        (others-Sound h h.pending_image_change true h.effects v) v)

  change_image-Sound :
      (path : String) (o : Option String) (h : Host) → Sound h → Sound (change_image path o h)
  unfolding change_image
  change_image-Sound path none h v = v
  change_image-Sound path (some id) h v =
      update-Sound (update_source id (with_image path)) h (λ s. (refl, refl)) v

  on_select_image-Sound : (path : String) (h : Host) → Sound h → Sound (on_select_image path h)
  unfolding on_select_image
  on_select_image-Sound path h v =
      let h' = change_image path h.pending_image_change h in
      others-Sound h' none h'.default_source_initialized h'.effects
        (change_image-Sound path h.pending_image_change h v)

  on_close_source-Sound : (id : String) (h : Host) → Sound h → Sound (on_close_source id h)
  unfolding on_close_source
  on_close_source-Sound id h v =
      remove-Sound id (record h { effects = closing (find_source id h.sources) h.effects })
        (others-Sound h h.pending_image_change h.default_source_initialized _ v)

  run-Sound_from : (h : Host) (es : List Event) → AreFitting h es → Sound h → Sound (run t d h es)
  unfolding run step
  run-Sound_from h [] fit v = v
  run-Sound_from h (adds i ∷ es) fit v =
      run-Sound_from (on_add_source t d i h) es fit (on_add_source-Sound i h v)
  run-Sound_from h (readies ∷ es) fit v = run-Sound_from (on_ready h) es fit (on_ready-Sound h v)
  run-Sound_from h (picks_default usable sources ∷ es) fit v =
      run-Sound_from (on_default_picked t d usable sources h) es fit
        (add_picked-Sound (pick_default_source usable sources) h v)
  run-Sound_from h (selects id ∷ es) fit v =
      run-Sound_from (on_select_source id h) es fit.1 (record {
        unique = v.unique;
        numbered = v.numbered;
        bounded = v.bounded;
        selection = fit.0;
      })
  run-Sound_from h (closes id ∷ es) fit v =
      run-Sound_from (on_close_source id h) es fit (on_close_source-Sound id h v)
  run-Sound_from h (requests_image id ∷ es) fit v =
      run-Sound_from (on_change_image_request id h) es fit
        (others-Sound h (some id) h.default_source_initialized h.effects v)
  run-Sound_from h (selects_image path ∷ es) fit v =
      run-Sound_from (on_select_image path h) es fit (on_select_image-Sound path h v)
  run-Sound_from h (tells a ∷ es) fit v =
      run-Sound_from (dispatch a h) es fit.1 (update-Sound a h fit.0 v)

  -- Whatever is added, picked by default, selected, closed or told of a source, where the user selects a
  -- shown source: no two sources have the same id, each id is an input's id, a dash and a number that was
  -- given out, there are nine sources at most, and one of them is selected unless there is none.
  pub run_keeps_grid : (es : List Event) → AreFitting new_host es → Sound (run t d new_host es)
  unfolding new_host
  run_keeps_grid es fit =
      run-Sound_from new_host es fit
        (record { unique = tt; numbered = tt; bounded = omega arith; selection = refl })
