-- ===== src/Hooks/AsyncGrpc.antt =====
-- `useAsyncGRPC` of src/front-end/src/presentation/hooks/useAsyncGRPC.ts. A request and its abort
-- controller are named by the request's number.
use learning_cuda.Base.{
  ℕ, suc, ◌≤◌, ◌≡◌, ◌≢◌, refl, sym, ap, subst, ◌∙◌, Bool, true, false, not, ◌||◌, Option, none,
  some, List, [], ◌∷◌, String, Result, ok, err, ◌==◌, if◌then◌else◌, arith, All, inl, inr,
  Bool-cases, ==_iff,
}

-- requestGenRef.current, the aborted controllers, and the state of the hook.
pub record Async (T : Type 0) : Type 0 where
  pub request_gen : ℕ
  pub aborted : List ℕ
  pub value : Option T
  pub loading : Bool
  pub error : Option String

unfoldable pub contains : ℕ → List ℕ → Bool
contains n [] = false
contains n (m ∷ ms) = m == n || contains n ms

-- A request, the end of the hook, or what a request's promise settles with.
pub data Event (T : Type 0) : Type 0 where
  refetches unmounts : Event T
  answers : ℕ → Result String T → Event T

not_contained : (n : ℕ) (seen : List ℕ) → All (λ m. m ≤ n) seen → contains (suc n) seen ≡ false
unfolding contains
not_contained n [] a = refl
not_contained n (m ∷ seen) a = ground (arith, not_contained n seen a.1)

still_past : (n : ℕ) (seen : List ℕ) → All (λ m. m ≤ n) seen → All (λ m. m ≤ suc n) seen
still_past n [] a = tt
still_past n (m ∷ seen) a = (omega (arith, a.0), still_past n seen a.1)

module _ {T : Type 0} where
  unfoldable pub new_async : Async T
  new_async = record { request_gen = 0; aborted = []; value = none; loading = true; error = none }

  -- abortRef.current?.abort(): the controller of the latest request, where there is one
  unfoldable pub abort_current : Async T → Async T
  abort_current s =
      if s.request_gen == 0 then s else record s { aborted = s.request_gen ∷ s.aborted }

  unfoldable pub refetch : Async T → Async T
  unfolding abort_current
  refetch s = record (abort_current s) {
    request_gen = suc s.request_gen;
    loading = true;
    error = none;
  }

  -- setData or setError, unless the request was aborted or is not the latest.
  unfoldable pub take_answer : ℕ → Result String T → Async T → Async T
  take_answer gen (ok result) s = record s { value = some result }
  take_answer gen (err message) s = record s { error = some message }

  -- The `finally`, with whether the request is the latest.
  unfoldable pub finish : Bool → Async T → Async T
  finish true s = record s { loading = false }
  finish false s = s

  -- A request's promise settles.
  unfoldable pub on_answer : ℕ → Result String T → Async T → Async T
  unfolding take_answer contains finish
  on_answer gen r s =
      finish (gen == s.request_gen)
        (if contains gen s.aborted || not (gen == s.request_gen) then s else take_answer gen r s)

  unfoldable pub step : Async T → Event T → Async T
  unfolding refetch abort_current on_answer
  step s refetches = refetch s
  step s unmounts = abort_current s
  step s (answers gen r) = on_answer gen r s

  unfoldable pub run : Async T → List (Event T) → Async T
  run s [] = s
  run s (e ∷ es) = run (step s e) es

  -- The requests that were answered, the last one first.
  abbrev pub answered : List ℕ → List (Event T) → List ℕ
  answered seen [] = seen
  answered seen (answers gen r ∷ es) = answered (gen ∷ seen) es
  answered seen (e ∷ es) = answered seen es

  -- Only requests that were made are answered.
  abbrev pub AreMade : Async T → List (Event T) → Type 0
  AreMade s [] = Unit
  AreMade s (answers gen r ∷ es) = (gen ≤ s.request_gen) × AreMade (step s (answers gen r)) es
  AreMade s (e ∷ es) = AreMade (step s e) es

  -- The hook loads exactly while the latest request has no answer, and shows no error meanwhile.
  pub record Sound (seen : List ℕ) (s : Async T) : Type 0 where
    pub loads : s.loading ≡ not (contains s.request_gen seen)
    pub clean : s.loading ≡ true → s.error ≡ none
    pub past : All (λ n. n ≤ s.request_gen) seen

  refetch-Sound : (seen : List ℕ) (s : Async T) → Sound seen s → Sound seen (refetch s)
  unfolding refetch abort_current
  refetch-Sound seen s v = record {
    loads = sym (ap not (not_contained s.request_gen seen v.past));
    clean = λ e. refl;
    past = still_past s.request_gen seen v.past;
  }

  abort-Sound : (seen : List ℕ) (s : Async T) → Sound seen s → Sound seen (abort_current s)
  unfolding abort_current
  abort-Sound seen s v = elim (Bool-cases (s.request_gen == 0)) [
    | inl first ↦ simp (first) v
    | inr later ↦ simp (later) (record { loads = v.loads; clean = v.clean; past = v.past })
  ]

  taken-gen :
      (b : Bool) (gen : ℕ) (r : Result String T) (s : Async T)
      → (if b then s else take_answer gen r s).request_gen ≡ s.request_gen
  unfolding take_answer
  taken-gen true gen r s = refl
  taken-gen false gen (ok result) s = refl
  taken-gen false gen (err message) s = refl

  latest_answer-Sound :
      (seen : List ℕ) (gen : ℕ) (t : Async T)
      → gen ≡ t.request_gen
      → All (λ n. n ≤ t.request_gen) seen
      → Sound (gen ∷ seen) (finish true t)
  unfolding finish contains
  latest_answer-Sound seen gen t latest past = record {
    loads = ground (arith);
    clean = λ e. cc (e);
    past = (omega (arith, latest), past);
  }

  dropped : (b : Bool) (t s : Async T) → (if b || true then s else t) ≡ s
  dropped true t s = refl
  dropped false t s = refl

  pub stale_answer :
      (gen : ℕ) (r : Result String T) (s : Async T)
      → (gen == s.request_gen) ≡ false
      → on_answer gen r s ≡ s
  unfolding on_answer finish
  stale_answer gen r s old =
      subst (λ b. finish b (if contains gen s.aborted || not b then s else take_answer gen r s) ≡ s)
        (sym old) (dropped (contains gen s.aborted) (take_answer gen r s) s)

  old_answer-Sound :
      (seen : List ℕ) (gen : ℕ) (s : Async T)
      → gen ≤ s.request_gen
      → (gen == s.request_gen) ≡ false
      → Sound seen s
      → Sound (gen ∷ seen) s
  unfolding contains
  old_answer-Sound seen gen s made old v = record {
    loads = v.loads ∙ ap (λ b. not (b || contains s.request_gen seen)) (sym old);
    clean = v.clean;
    past = (made, v.past);
  }

  on_answer-Sound :
      (seen : List ℕ) (gen : ℕ) (r : Result String T) (s : Async T)
      → gen ≤ s.request_gen
      → Sound seen s
      → Sound (gen ∷ seen) (on_answer gen r s)
  unfolding on_answer contains
  on_answer-Sound seen gen r s made v = elim (Bool-cases (gen == s.request_gen)) [
    | inl latest ↦
        let drops = contains gen s.aborted || not (gen == s.request_gen) in
        let t = if drops then s else take_answer gen r s in
        let same = taken-gen drops gen r s in
        subst (λ b. Sound (gen ∷ seen) (finish b t)) (sym latest)
          (latest_answer-Sound seen gen t ((==_iff gen s.request_gen).0 latest ∙ sym same)
            (subst (λ n. All (λ m. m ≤ n) seen) (sym same) v.past))
    | inr old ↦
        subst (Sound (gen ∷ seen)) (sym (stale_answer gen r s old))
          (old_answer-Sound seen gen s made old v)
  ]

  run-Sound_from :
      (seen : List ℕ) (s : Async T) (es : List (Event T))
      → AreMade s es
      → Sound seen s
      → Sound (answered seen es) (run s es)
  unfolding run step
  run-Sound_from seen s [] made v = v
  run-Sound_from seen s (refetches ∷ es) made v =
      run-Sound_from seen (refetch s) es made (refetch-Sound seen s v)
  run-Sound_from seen s (unmounts ∷ es) made v =
      run-Sound_from seen (abort_current s) es made (abort-Sound seen s v)
  run-Sound_from seen s (answers gen r ∷ es) made v =
      run-Sound_from (gen ∷ seen) (on_answer gen r s) es made.1
        (on_answer-Sound seen gen r s made.0 v)

  -- However requests and their answers follow one another, where only requests that were made are
  -- answered: the hook loads exactly while its latest request has no answer, and shows no error meanwhile;
  -- an answer of an earlier request changes nothing.
  pub latest_request_wins :
      (es : List (Event T))
      → AreMade new_async es
      → Sound (answered [] es) (run new_async es)
        × ((gen : ℕ) (r : Result String T)
            → gen ≢ (run new_async es).request_gen
            → on_answer gen r (run new_async es) ≡ run new_async es)
  unfolding new_async contains
  latest_request_wins es made = (
    run-Sound_from [] new_async es made (record { loads = refl; clean = λ e. refl; past = tt }),
    λ gen r ne. stale_answer gen r (run new_async es) (ground arith),
  )
