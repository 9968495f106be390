-- ===== src/ControlChannel/Settled.antt =====
-- What becomes of the requests of a control channel, over all its events
-- (src/front-end/src/infrastructure/transport/control-channel-service.ts).
use learning_cuda.Base.{
  ℕ, suc, ◌+◌, ◌≡◌, ◌≢◌, ◌∙◌, refl, subst, Option, none, some, List, [], ◌∷◌, String, string_key,
  nat_key, arith,
}
use learning_cuda.Pending.{empty_desk}
use learning_cuda.Pending.Invariant.{Inv, IsNew, empty_desk-Inv, register-Inv, expire-Inv}
use learning_cuda.Pending.Accounts.{promises, promises-register, promises-expire}
use learning_cuda.Pending.Ledger
use learning_cuda.Pending.Ledger.{
  Phase, unasked, done, Move, answers, answers_all, Advances, Reach, here, Reach-Advances, answered,
  Reach-trans, not_unasked, Advances-refl, Advances-trans,
}
use learning_cuda.Pending.Refines.{
  phase, Follows, register-Follows, register-waiting, IsNew-unasked, expire-Follows, expire-done,
  fail_all-answers,
}
use learning_cuda.ControlChannel.{
  ControlResponse, Outcome, resolved, closed_before_response, timed_out, Dispatch, Browser, Control,
  new_control, send_request, on_channel_change, close_channel, after_close, Event, asks, changes,
  hears, request_runs_out, chunks_run_out, step, run,
}
use learning_cuda.JsMap.{get}
use learning_cuda.ControlChannel.Keeps.{
  IsSendFailure, on_channel_change-Keeps, hear-Keeps, send_request-Keeps,
}

-- Each new request has an id that no earlier request had.
abbrev pub AreNew : (List ℕ → Option ControlResponse) → Control → List Event → Type 0
AreNew from_binary s [] = Unit
AreNew from_binary s (asks b d ∷ es) =
    IsNew d.request_id s.desk × AreNew from_binary (step from_binary s (asks b d)) es
AreNew from_binary s (e ∷ es) = AreNew from_binary (step from_binary s e) es

-- The requests among the events.
abbrev pub requests : List Event → ℕ
requests [] = 0
requests (asks b d ∷ es) = suc (requests es)
requests (e ∷ es) = requests es

-- The moves of the ledger that an event may make: a request asks its own id, and only its own promise may
-- be rejected, by a send that fails; a change of the channel may reject requests whose send fails, and all
-- that wait where the channel goes without another one; a message resolves ids with their own responses;
-- and a timer rejects the id that it was armed for.
abbrev pub Allowed : Control → Event → Move String Outcome → Type 0
Allowed s (asks b d) (Ledger.asks id) = id ≡ d.request_id
Allowed s (asks b d) (answers id o) = (id ≡ d.request_id) × IsSendFailure o
Allowed s (changes b fallback c) (answers id o) = IsSendFailure o
Allowed s (changes b fallback c) (answers_all o) =
    (c ≡ none) × (fallback ≡ none) × (o ≡ closed_before_response)
Allowed s (hears c buffer) (answers id o) =
    (r : ControlResponse) × ((id ≡ r.request_id) × (o ≡ resolved r))
Allowed s (request_runs_out h) (answers id o) =
    (get h s.desk.timers.armed ≡ some id) × (o ≡ timed_out)
Allowed s e m = ⊥

-- What an event is bound to do, with the phases before it and after it: an id that is asked was unasked and
-- is not so any more; where the channel goes and no other is there, every id that waits is rejected; and the
-- id of a timer that runs out is rejected.
abbrev pub Achieves : Control → Event → (String → Phase Outcome) → (String → Phase Outcome) → Type 0
Achieves s (asks b d) L M = (L d.request_id ≡ unasked) × (M d.request_id ≢ unasked)
Achieves s (changes b none none) L M =
    (c : ℕ) → s.channel ≡ some c → (id : String) → M id ≡ answered closed_before_response (L id)
Achieves s (request_runs_out h) L M =
    (id : String) → get h s.desk.timers.armed ≡ some id → M id ≡ done timed_out
Achieves s e L M = Unit

module _ (from_binary : List ℕ → Option ControlResponse) where
  -- The table stays in order and counts its promises, and the event makes only moves that it may make.
  abbrev StepKeeps : Control → Event → Type 0
  StepKeeps s e =
      let s' = step from_binary s e in
      Inv s'.desk
      × (promises s'.desk ≡ promises s.desk + requests (e ∷ []))
      × Follows (Allowed s e) s.desk s'.desk
      × Achieves s e (phase s.desk) (phase s'.desk)

  asks-Keeps :
      (b : Browser) (d : Dispatch) (s : Control)
      → IsNew d.request_id s.desk
      → Inv s.desk
      → StepKeeps s (asks b d)
  unfolding step
  asks-Keeps b d s new v =
      let id = d.request_id in
      let (v', same, r) =
        send_request-Keeps (Allowed s (asks b d)) b d s (λ o f. (refl, f))
          (register-Inv id s.desk new v) in
      (
        v',
        omega (arith, same, promises-register id s.desk new.0),
        Reach-trans (register-Follows id s.desk refl new) r,
        (
          IsNew-unasked id s.desk new,
          not_unasked (phase (send_request b d s).desk id) (
              subst (λ p. Advances p (phase (send_request b d s).desk id))
                (register-waiting id s.desk) (Reach-Advances r id)),
        ),
      )

  changes-Achieves :
      (b : Browser) (f c : Option ℕ) (s : Control)
      → Inv s.desk
      → Achieves s (changes b f c) (phase s.desk) (phase (on_channel_change b f c s).desk)
  unfolding on_channel_change close_channel after_close
  changes-Achieves b none none s v = λ c open_now id.
      rw (open_now, close_channel) (fail_all-answers closed_before_response s.desk v id)
  changes-Achieves b (some f) none s v = tt
  changes-Achieves b none (some c) s v = tt
  changes-Achieves b (some f) (some c) s v = tt

  step-Keeps :
      (s : Control) (e : Event) → AreNew from_binary s (e ∷ []) → Inv s.desk → StepKeeps s e
  unfolding step
  step-Keeps s (asks b d) new v = asks-Keeps b d s new.0 v
  step-Keeps s (changes b f c) new v =
      let (v', same, r) =
        on_channel_change-Keeps (Allowed s (changes b f c)) b f c s (λ id o i. i)
          (λ p q. (p, q, refl)) v in
      (v', omega (arith, same), r, changes-Achieves b f c s v)
  step-Keeps s (hears c buffer) new v =
      let (v', same, r) =
        hear-Keeps (Allowed s (hears c buffer)) from_binary (λ a. (a, (refl, refl))) c buffer
          s.listeners s v in
      (v', omega (arith, same), r, tt)
  step-Keeps s (request_runs_out h) new v = (
    expire-Inv h timed_out s.desk v,
    omega (arith, promises-expire h timed_out s.desk v),
    expire-Follows h timed_out s.desk (λ id g. (g, refl)) v,
    λ id g. expire-done h timed_out id s.desk g,
  )
  step-Keeps s (chunks_run_out h) new v = (v, omega arith, here, tt)

  head-AreNew :
      (s : Control) (e : Event) (es : List Event)
      → AreNew from_binary s (e ∷ es)
      → AreNew from_binary s (e ∷ [])
  head-AreNew s (asks b d) es new = (new.0, tt)
  head-AreNew s (changes b f c) es new = tt
  head-AreNew s (hears c buffer) es new = tt
  head-AreNew s (request_runs_out h) es new = tt
  head-AreNew s (chunks_run_out h) es new = tt

  tail-AreNew :
      (s : Control) (e : Event) (es : List Event)
      → AreNew from_binary s (e ∷ es)
      → AreNew from_binary (step from_binary s e) es
  tail-AreNew s (asks b d) es new = new.1
  tail-AreNew s (changes b f c) es new = new
  tail-AreNew s (hears c buffer) es new = new
  tail-AreNew s (request_runs_out h) es new = new
  tail-AreNew s (chunks_run_out h) es new = new

  requests_cons :
      (e : Event) (es : List Event) → requests (e ∷ es) ≡ requests (e ∷ []) + requests es
  requests_cons (asks b d) es = omega arith
  requests_cons (changes b f c) es = omega arith
  requests_cons (hears c buffer) es = omega arith
  requests_cons (request_runs_out h) es = omega arith
  requests_cons (chunks_run_out h) es = omega arith

  -- Each event of a run makes the moves that it may make, and achieves what it is bound to.
  abbrev pub Simulates : Control → List Event → Type 0
  Simulates s [] = Unit
  Simulates s (e ∷ es) =
      let s' = step from_binary s e in
      Reach (Allowed s e) (phase s.desk) (phase s'.desk)
      × Achieves s e (phase s.desk) (phase s'.desk)
      × Simulates s' es

  run-Keeps :
      (s : Control) (es : List Event)
      → AreNew from_binary s es
      → Inv s.desk
      → Inv (run from_binary s es).desk
        × (promises (run from_binary s es).desk ≡ promises s.desk + requests es)
        × Simulates s es
        × ((id : String) → Advances (phase s.desk id) (phase (run from_binary s es).desk id))
  unfolding run
  run-Keeps s [] new v = (v, omega arith, tt, λ id. Advances-refl (phase s.desk id))
  run-Keeps s (e ∷ es) new v =
      let s' = step from_binary s e in
      let (v', same, r, did) = step-Keeps s e (head-AreNew s e es new) v in
      let (v'', same', rest, later) = run-Keeps s' es (tail-AreNew s e es new) v' in
      (
        v'',
        omega (arith, same, same', requests_cons e es),
        (r, did, rest),
        λ id.
            Advances-trans (phase s.desk id) (phase s'.desk id)
              (phase (run from_binary s' es).desk id) (Reach-Advances r id) (later id),
      )

  new_control-promises : (n : ℕ) → promises new_control.desk + n ≡ n
  unfolding new_control empty_desk
  new_control-promises n = omega arith

  -- However requests, channel changes, messages and timeouts follow one another, as long as no request
  -- id is used twice: every pending request has an armed timer and every armed timer a pending request,
  -- no promise is settled twice or settled while it is pending, and each request's promise is either
  -- pending or settled.
  pub settled_once :
      (es : List Event)
      → AreNew from_binary new_control es
      → Inv (run from_binary new_control es).desk
        × (promises (run from_binary new_control es).desk ≡ requests es)
  unfolding new_control
  settled_once es new =
      let (v, same, moves, later) = run-Keeps new_control es new empty_desk-Inv in
      (v, same ∙ new_control-promises (requests es))

  -- From a state whose table is in order, whatever new requests, channel changes, messages and timeouts
  -- follow, no promise goes back: one that was settled keeps its outcome, and one that waits is not
  -- forgotten.
  pub outcomes_are_final :
      (s : Control) (es : List Event)
      → AreNew from_binary s es
      → Inv s.desk
      → (id : String) → Advances (phase s.desk id) (phase (run from_binary s es).desk id)
  outcomes_are_final s es new v = (run-Keeps s es new v).3
