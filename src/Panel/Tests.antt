-- ===== src/Panel/Tests.antt =====
-- The theorems about the panel of filters at a concrete list of them.
use learning_cuda.Base.{ℕ, ◌≡◌, refl, none, some, List, [], ◌∷◌, String, length, get_elem?, arith}
use learning_cuda.Panel.{Definition, FilterState, initial_state, remove_at}
use learning_cuda.Panel.Drag.{
  Panel, new_panel, handle_drop, on_definitions, and_then, Event, receives, toggles, starts_drag,
  enters, drops, step, run,
}
use learning_cuda.Panel.Moves.{moved, drop_moves, drop_after_shrinking}
use learning_cuda.Panel.Invariant.{Fine, run-Fine}

abbrev blur : Definition
blur = record {
  id = "blur";
  name = "Blur";
  parameters = record { id = "radius"; default_value = "3" } ∷ [];
}

abbrev edges : Definition
edges = record { id = "edges"; name = "Edges"; parameters = [] }

abbrev gray : Definition
gray = record { id = "gray"; name = "Gray"; parameters = [] }

abbrev three_filters : List FilterState
three_filters = initial_state blur ∷ initial_state edges ∷ initial_state gray ∷ []

-- The panel with some filters, the first card held.
abbrev holding : List FilterState → ℕ → Panel
holding filters i = record {
  state = record { filters = filters; dragged_index = some i; drag_over_index = none };
  dragged_index_ref = some i;
  filter_ids_key = "blur,edges,gray";
}

drop_moves_example :
    let p = holding three_filters 0 in
    let after = moved 0 2 (initial_state blur) three_filters in
    (handle_drop 2 p
      ≡ some (record p {
        state = record { filters = after; dragged_index = none; drag_over_index = none };
        dragged_index_ref = none;
      }))
    × (get_elem? after 2 ≡ some (initial_state blur))
    × (remove_at 2 after ≡ remove_at 0 three_filters)
    × (length after ≡ length three_filters)
drop_moves_example =
    drop_moves (holding three_filters 0) 0 2 (initial_state blur) refl (omega arith) refl
      (omega arith)

abbrev joined : List String → String
joined [] = ""
joined (x ∷ xs) = x

-- The third of three cards is held when a single definition arrives.
drop_after_shrinking_example :
    and_then (on_definitions joined [] (edges ∷ []) (holding three_filters 2)) (handle_drop 0)
    ≡ none
drop_after_shrinking_example =
    drop_after_shrinking joined [] (edges ∷ []) (holding three_filters 2) 2 0 refl refl
      (omega arith) (omega arith)

-- The filters come in, the second card is opened and then dragged to the first place.
abbrev a_drag : List Event
a_drag = receives (blur ∷ edges ∷ gray ∷ []) ∷ toggles 1 ∷ starts_drag 1 ∷ enters 0 ∷ drops 0 ∷ []

run-Fine_example : Fine (run joined [] new_panel a_drag)
unfolding new_panel step
run-Fine_example = run-Fine joined [] a_drag (refl, (tt, (omega arith, (tt, (tt, tt)))))
