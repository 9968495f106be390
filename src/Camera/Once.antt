-- ===== src/Camera/Once.antt =====
-- How often `createCameraSession` of src/front-end/src/presentation/hooks/useCameraTransport.ts asks for a
-- session.
use learning_cuda.Base.{
  ℕ, suc, ◌+◌, ◌≡◌, ◌≢◌, refl, sym, ap, subst, ◌∙◌, Bool, true, false, Option, none, some, List, [],
  ◌∷◌, String, Result, ok, err, string_key, if◌then◌else◌, arith, inl, inr, Bool-cases,
}
use learning_cuda.JsMap.{get, put, remove}
use learning_cuda.JsMap.Laws.{get-put_self, get-put_ne, get-remove_self, get-remove_ne}
use learning_cuda.Grid.{GridSource, find_source}
use learning_cuda.Camera.{
  Effect, creates_session, listens_detections, listens_stats, replaces_track, Camera, new_camera,
  is_there, begin_creation, create_camera_session, unless_waiting, Created, when, use_session,
  take_session, end_creation, on_session, on_remote_stream, replace_track, replace_for,
  replace_camera_stream, Event, creates, settles, streams, replaces, renders, step, run,
}

-- How often a session was asked for, for one source.
abbrev pub asked : String → List Effect → ℕ
asked id [] = 0
asked id (creates_session j ∷ effects) =
    if string_key.same j id then suc (asked id effects) else asked id effects
asked id (e ∷ effects) = asked id effects

-- How often a call for the source settled.
abbrev pub settled : String → List Event → ℕ
settled id [] = 0
settled id (settles j r ∷ es) = if string_key.same j id then suc (settled id es) else settled id es
settled id (e ∷ es) = settled id es

-- 1 while a call for a source waits, and 0 otherwise.
abbrev pub one_if : Option GridSource → ℕ
one_if none = 0
one_if (some s) = 1

abbrev pub waiting : String → Camera → ℕ
waiting id c = one_if (get id c.creating)

-- A call of createSession settles only while it waits.
abbrev pub AreFitting : Camera → List Event → Type 0
AreFitting c [] = Unit
AreFitting c (settles id r ∷ es) = (waiting id c ≡ 1) × AreFitting (step c (settles id r)) es
AreFitting c (e ∷ es) = AreFitting (step c e) es

shift : (b : Bool) (n k : ℕ) → (if b then suc n else n) + k ≡ n + (if b then suc k else k)
shift true n k = omega arith
shift false n k = refl

module _ (id : String) where
  abbrev Counts : ℕ → Camera → Type 0
  Counts n c = asked id c.effects ≡ n + waiting id c

  not_same : (j : String) → string_key.same j id ≡ false → j ≢ id
  not_same j miss e = cc (miss, (string_key.same_iff j id).1 e)

  begun :
      (same : Bool) (j : String) (s : GridSource) (c : Camera) (n : ℕ)
      → string_key.same j id ≡ same
      → get j c.creating ≡ none
      → Counts n c
      → (if same then suc (asked id c.effects) else asked id c.effects)
        ≡ n + one_if (get id (put j s c.creating))
  begun true j s c n hit free v =
      let e = (string_key.same_iff j id).0 hit in
      let before = ap one_if (subst (λ k. get k c.creating ≡ none) e free) in
      let after = ap one_if (
        subst (λ k. get id (put k s c.creating) ≡ some s) (sym e) (get-put_self id s c.creating)) in
      omega (arith, v, before, after)
  begun false j s c n miss free v =
      let other = not_same j miss in
      v ∙ ap (λ o. n + one_if o) (sym (get-put_ne j id s c.creating other))

  begin_creation-Counts :
      (j : String) (found : Option GridSource) (c : Camera) (n : ℕ)
      → get j c.creating ≡ none
      → Counts n c
      → Counts n (begin_creation j found c)
  unfolding begin_creation
  begin_creation-Counts j none c n free v = v
  begin_creation-Counts j (some s) c n free v = elim (Bool-cases (is_there s.session_id)) [
    | inl there ↦ simp (there) v
    | inr fresh ↦ simp (fresh) (begun (string_key.same j id) j s c n refl free v)
  ]

  create-Counts :
      (j : String) (c : Camera) (n : ℕ) → Counts n c → Counts n (create_camera_session j c)
  unfolding create_camera_session
  create-Counts j c n v = by_call (get j c.creating) refl
    where
      by_call :
          (o : Option GridSource)
          → get j c.creating ≡ o
          → Counts n (unless_waiting o (begin_creation j (find_source j c.sources) c) c)
      by_call none free = begin_creation-Counts j (find_source j c.sources) c n free v
      by_call (some s) busy = v

  asked-when :
      (b : Bool) (e : Effect) (effects : List Effect)
      → asked id (e ∷ effects) ≡ asked id effects
      → asked id (when b e effects) ≡ asked id effects
  asked-when true e effects same = same
  asked-when false e effects same = refl

  asked-take_session :
      (j : String) (source : GridSource) (r : Result String Created) (c : Camera)
      → asked id (take_session j source r c).effects ≡ asked id c.effects
  unfolding take_session use_session
  asked-take_session j source (ok n) c =
      asked-when n.has_stats (listens_stats j n.session) _ refl
      ∙ asked-when n.has_detection (listens_detections j n.session) _ refl
  asked-take_session j source (err message) c = refl

  ended :
      (same : Bool) (j : String) (c : Camera) (n : ℕ)
      → string_key.same j id ≡ same
      → waiting j c ≡ 1
      → Counts n c
      → asked id c.effects ≡ (if same then suc n else n) + one_if (get id (remove j c.creating))
  ended true j c n hit busy v =
      let e = (string_key.same_iff j id).0 hit in
      let before = subst (λ k. waiting k c ≡ 1) e busy in
      let after = ap one_if (
        subst (λ k. get id (remove k c.creating) ≡ none) (sym e) (get-remove_self id c.creating)) in
      omega (arith, v, before, after)
  ended false j c n miss busy v =
      v ∙ ap (λ o. n + one_if o) (sym (get-remove_ne j id c.creating (not_same j miss)))

  settle-Counts :
      (j : String) (r : Result String Created) (c : Camera) (n : ℕ)
      → waiting j c ≡ 1
      → Counts n c
      → Counts (if string_key.same j id then suc n else n) (on_session j r c)
  unfolding on_session end_creation
  settle-Counts j r c n busy v = by_call (get j c.creating) busy
    where
      by_call :
          (o : Option GridSource)
          → one_if o ≡ 1
          → Counts (if string_key.same j id then suc n else n) (end_creation j o r c)
      by_call none one = absurd (omega (arith, one))
      by_call (some source) one =
          asked-take_session j source r c ∙ ended (string_key.same j id) j c n refl busy v

  asked-replace_track :
      (session : Option String) (track : Option ℕ) (effects : List Effect)
      → asked id (replace_track session track effects) ≡ asked id effects
  asked-replace_track none track effects = refl
  asked-replace_track (some session) none effects = refl
  asked-replace_track (some session) (some track) effects =
      asked-when (is_there (some session)) (replaces_track session track) effects refl

  replace-Counts :
      (found : Option GridSource) (track : Option ℕ) (c : Camera) (n : ℕ)
      → Counts n c
      → Counts n (replace_for found track c)
  replace-Counts none track c n v = v
  replace-Counts (some s) track c n v = asked-replace_track s.session_id track c.effects ∙ v

  run-Counts :
      (c : Camera) (es : List Event) (n : ℕ)
      → AreFitting c es
      → Counts n c
      → Counts (n + settled id es) (run c es)
  unfolding run step on_remote_stream replace_camera_stream
  run-Counts c [] n fit v = omega (arith, v)
  run-Counts c (creates j ∷ es) n fit v =
      run-Counts (create_camera_session j c) es n fit (create-Counts j c n v)
  run-Counts c (settles j r ∷ es) n fit v =
      run-Counts (on_session j r c) es (if string_key.same j id then suc n else n) fit.1
        (settle-Counts j r c n fit.0 v)
      ∙ ap (λ k. k + waiting id (run (on_session j r c) es))
          (shift (string_key.same j id) n (settled id es))
  run-Counts c (streams j stream ∷ es) n fit v = run-Counts (on_remote_stream j stream c) es n fit v
  run-Counts c (replaces j track ∷ es) n fit v =
      run-Counts (replace_camera_stream j track c) es n fit
        (replace-Counts (find_source j c.sources) track c n v)
  run-Counts c (renders sources ∷ es) n fit v =
      run-Counts (record c { sources = sources }) es n fit v

-- However calls, answers, streams and renderings follow one another, where only calls that wait are
-- answered: for each source, a session was asked for exactly as often as a call for it settled, and once
-- more while a call waits. So no second session is asked for before the first is there or failed.
pub asked_one_at_a_time :
    (id : String) (es : List Event)
    → AreFitting new_camera es
    → asked id (run new_camera es).effects ≡ settled id es + waiting id (run new_camera es)
unfolding new_camera get
asked_one_at_a_time id es fit = run-Counts id new_camera es 0 fit refl ∙ omega arith
