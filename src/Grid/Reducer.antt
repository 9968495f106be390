-- ===== src/Grid/Reducer.antt =====
-- What the reducer leaves alone.
use learning_cuda.Base.{
  ◌≡◌, ◌≢◌, refl, sym, ap, ap₂, Bool, ◌∙◌, true, false, Option, some, List, [], ◌∷◌, String,
  string_key, if◌then◌else◌,
}
use learning_cuda.JsMap.Laws.{same_ne}
use learning_cuda.Grid.{
  GridSource, Action, add_source, remove_source, update_source, set_connected, set_remote_stream,
  set_session, set_current_image, set_detections, set_source_fps, set_source_resolution,
  set_source_metrics, sync_filters, update_where, changed, source_id, grid_source_reducer,
  find_source,
}

abbrev pub ids : List GridSource → List String
ids [] = []
ids (s ∷ ss) = s.id ∷ ids ss

-- The actions that neither add nor remove a source, and do not change an id or a number.
abbrev pub IsUpdate : Action → Type 0
IsUpdate (add_source s) = ⊥
IsUpdate (remove_source id) = ⊥
IsUpdate (update_source id f) = (s : GridSource) → ((f s).id ≡ s.id) × ((f s).number ≡ s.number)
IsUpdate _ = Unit

pub changed-identity :
    (a : Action)
    → IsUpdate a
    → (s : GridSource) → ((changed a s).id ≡ s.id) × ((changed a s).number ≡ s.number)
changed-identity (add_source s') u s = absurd u
changed-identity (remove_source id) u s = absurd u
changed-identity (update_source id f) u s = u s
changed-identity (set_connected id c) u s = (refl, refl)
changed-identity (set_remote_stream id stream) u s = (refl, refl)
changed-identity (set_session id session mode) u s = (refl, refl)
changed-identity (set_current_image id src) u s = (refl, refl)
changed-identity (set_detections id found width height) u s = (refl, refl)
changed-identity (set_source_fps id fps) u s = (refl, refl)
changed-identity (set_source_resolution id width height) u s = (refl, refl)
changed-identity (set_source_metrics id metrics) u s = (refl, refl)
changed-identity (sync_filters id filters resolution accelerator) u s = (refl, refl)

pub reducer-update :
    (a : Action) (ss : List GridSource)
    → IsUpdate a
    → grid_source_reducer ss a ≡ update_where (source_id a) (changed a) ss
unfolding grid_source_reducer
reducer-update (add_source s) ss u = absurd u
reducer-update (remove_source id) ss u = absurd u
reducer-update (update_source id f) ss u = refl
reducer-update (set_connected id c) ss u = refl
reducer-update (set_remote_stream id stream) ss u = refl
reducer-update (set_session id session mode) ss u = refl
reducer-update (set_current_image id src) ss u = refl
reducer-update (set_detections id found width height) ss u = refl
reducer-update (set_source_fps id fps) ss u = refl
reducer-update (set_source_resolution id width height) ss u = refl
reducer-update (set_source_metrics id metrics) ss u = refl
reducer-update (sync_filters id filters resolution accelerator) ss u = refl

module _ (id : String) (f : GridSource → GridSource)
    (keeps : (s : GridSource) → (f s).id ≡ s.id) where
  ids_head :
      (b : Bool) (s : GridSource) (l l' : List String)
      → l ≡ l'
      → (if b then f s else s).id ∷ l ≡ s.id ∷ l'
  ids_head true s l l' e = ap₂ ◌∷◌ (keeps s) e
  ids_head false s l l' e = ap (◌∷◌ s.id) e

  pub ids-update_where : (ss : List GridSource) → ids (update_where id f ss) ≡ ids ss
  unfolding update_where
  ids-update_where [] = refl
  ids-update_where (s ∷ ss) =
      ids_head (string_key.same s.id id) s (ids (update_where id f ss)) (ids ss)
        (ids-update_where ss)

  find_head :
      (b : Bool) (x : GridSource) (us : List GridSource) (j : String)
      → find_source j ((if b then f x else x) ∷ us)
        ≡ (if string_key.same x.id j then some (if b then f x else x) else find_source j us)
  unfolding find_source
  find_head true x us j =
      ap (λ i. if string_key.same i j then some (f x) else find_source j us) (keeps x)
  find_head false x us j = refl

  hit :
      (b : Bool) (x s : GridSource) (r r' : Option GridSource)
      → (r ≡ some s → r' ≡ some (f s))
      → (if b then some x else r) ≡ some s
      → (if b then some (if b then f x else x) else r') ≡ some (f s)
  hit true x s r r' h e = cc (e)
  hit false x s r r' h e = h e

  miss :
      (b k : Bool) (x : GridSource) (r r' : Option GridSource)
      → (k ≡ true → b ≡ false)
      → r ≡ r'
      → (if k then some (if b then f x else x) else r) ≡ (if k then some x else r')
  miss b true x r r' h e = ap (λ c. some (if c then f x else x)) (h refl)
  miss b false x r r' h e = e

  pub find-update_where_self :
      (s : GridSource) (ss : List GridSource)
      → find_source id ss ≡ some s
      → find_source id (update_where id f ss) ≡ some (f s)
  unfolding update_where find_source
  find-update_where_self s [] g = cc (g)
  find-update_where_self s (x ∷ ss) g =
      find_head (string_key.same x.id id) x (update_where id f ss) id
      ∙ hit (string_key.same x.id id) x s (find_source id ss)
          (find_source id (update_where id f ss)) (find-update_where_self s ss) g

  pub find-update_where_ne :
      (j : String) (ss : List GridSource)
      → id ≢ j
      → find_source j (update_where id f ss) ≡ find_source j ss
  unfolding update_where find_source
  find-update_where_ne j [] ne = refl
  find-update_where_ne j (x ∷ ss) ne =
      find_head (string_key.same x.id id) x (update_where id f ss) j
      ∙ miss (string_key.same x.id id) (string_key.same x.id j) x
          (find_source j (update_where id f ss)) (find_source j ss)
          (λ e. same_ne x.id id (λ q. ne (sym q ∙ (string_key.same_iff x.id j).0 e)))
          (find-update_where_ne j ss ne)

-- A message for one source, of whatever kind, changes what it names in that source alone: the other
-- sources are found as they were, and which sources there are, and their order, stay the same.
pub update_touches_one :
    (a : Action) (ss : List GridSource) (s : GridSource)
    → IsUpdate a
    → find_source (source_id a) ss ≡ some s
    → (ids (grid_source_reducer ss a) ≡ ids ss)
      × (find_source (source_id a) (grid_source_reducer ss a) ≡ some (changed a s))
      × ((j : String)
          → source_id a ≢ j
          → find_source j (grid_source_reducer ss a) ≡ find_source j ss)
update_touches_one a ss s u g =
    let keeps = λ (x : GridSource). (changed-identity a u x).0 in
    rw (reducer-update a ss u) (
      ids-update_where (source_id a) (changed a) keeps ss,
      find-update_where_self (source_id a) (changed a) keeps s ss g,
      λ j ne. find-update_where_ne (source_id a) (changed a) keeps j ss ne,
    )
