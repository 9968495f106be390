-- ===== src/Hooks/HealthPoll/Intervals.antt =====
-- The interval of `useHealthMonitor`, and the answers that come too late
-- (src/front-end/src/presentation/hooks/useHealthMonitor.ts).
use learning_cuda.Base.{
  ℕ, ◌≡◌, ◌≢◌, refl, sym, ap, subst, ◌∙◌, Bool, true, false, not, ◌||◌, ◌&&◌, Option, none, some,
  List, [], ◌∷◌, String, Result, ok, err, ◌==◌, if◌then◌else◌, nat_key, arith, inl, inr, Bool-cases,
}
use learning_cuda.JsMap.{JsMap, put, remove, has}
use learning_cuda.JsMap.Laws.{same_refl}
use learning_cuda.Timers.{Timers, idle, set_timer, clear_timer}
use learning_cuda.Hooks.AsyncGrpc.{contains}
use learning_cuda.Hooks.HealthPoll.{
  Poll, new_poll, abort_current, check, take_answer, finish, on_answer, clear_handle, clear_polling,
  set_polling, start_polling, mount, unmount, on_visibility_change, change_visibility, on_interval,
  Event, mounts, unmounts, becomes_visible, becomes_hidden, fires, answers, step, run, AreFitting,
}

abbrev entry : Option ℕ → JsMap ℕ Bool
entry none = []
entry (some h) = (h, true) ∷ []

-- The armed intervals are the one that the hook holds, and it holds one exactly while it is mounted and
-- the page is visible.
pub record Sound (s : Poll) : Type 0 where
  pub armed : s.timers.armed ≡ entry s.interval
  pub off : (s.mounted && s.visible) ≡ false → s.interval ≡ none
  pub on : (s.mounted && s.visible) ≡ true → s.interval ≢ none

-- A state that differs elsewhere only.
abbrev SameIntervals : Poll → Poll → Type 0
SameIntervals s t =
    (t.timers ≡ s.timers)
    × (t.interval ≡ s.interval)
    × (t.mounted ≡ s.mounted)
    × (t.visible ≡ s.visible)

same-Sound : (s t : Poll) → SameIntervals s t → Sound s → Sound t
same-Sound s t e v = record {
  armed = ap (λ x. x.armed) e.0 ∙ v.armed ∙ ap entry (sym e.1);
  off = λ h. e.1 ∙ v.off (sym (both s t e) ∙ h);
  on = λ h q. v.on (sym (both s t e) ∙ h) (sym e.1 ∙ q);
}
  where
    both : (s t : Poll) → SameIntervals s t → (t.mounted && t.visible) ≡ (s.mounted && s.visible)
    both s t e = ground (arith)

cleared : (o : Option ℕ) (t : Timers Bool) → t.armed ≡ entry o → (clear_handle o t).armed ≡ []
unfolding clear_handle clear_timer remove
cleared none t e = e
cleared (some h) t e = ap (remove h) e ∙ ap (λ b. if b then [] else (h, true) ∷ []) (same_refl h)

both_true : (a b : Bool) → a ≡ true → b ≡ true → (a && b) ≢ false
both_true a b p q h = cc (ap (λ x. x && b) p, q, h)

set_polling-Sound :
    (s : Poll) → s.timers.armed ≡ [] → s.mounted ≡ true → s.visible ≡ true → Sound (set_polling s)
unfolding set_polling set_timer put
set_polling-Sound s e m v = record {
  armed = ap (put s.timers.next true) e;
  off = λ h. absurd (both_true s.mounted s.visible m v h);
  on = λ h q. cc (q);
}

start-Sound :
    (s : Poll)
    → s.timers.armed ≡ entry s.interval
    → s.mounted ≡ true
    → s.visible ≡ true
    → Sound (start_polling s)
unfolding start_polling clear_polling
start-Sound s e m v =
    let c = clear_polling s in
    subst Sound (sym (ap (λ b. if b then set_polling c else c) v))
      (set_polling-Sound c (cleared s.interval s.timers e) m v)

-- No interval is held where the hook is not mounted or the page is hidden.
clear-Sound :
    (s : Poll)
    → s.timers.armed ≡ entry s.interval
    → (s.mounted && s.visible) ≡ false
    → Sound (clear_polling s)
unfolding clear_polling
clear-Sound s e idle_now = record {
  armed = cleared s.interval s.timers e;
  off = λ h. refl;
  on = λ h. absurd (cc (h, idle_now));
}

check-Same : (s : Poll) → SameIntervals s (check s)
unfolding check abort_current
check-Same s = (refl, refl, refl, refl)

abort-Same : (s : Poll) → SameIntervals s (abort_current s)
unfolding abort_current
abort-Same s = (refl, refl, refl, refl)

mount-Sound : (s : Poll) → s.mounted ≡ false → Sound s → Sound (mount s)
unfolding mount check abort_current
mount-Sound s m v = elim (Bool-cases s.visible) [
  | inl shown ↦
      subst Sound
        (sym (
          ap
            (λ b.
              if b
              then start_polling (check (record s { mounted = true }))
              else record s { mounted = true })
            shown))
        (start-Sound (check (record s { mounted = true })) v.armed refl shown)
  | inr hidden ↦
      subst Sound
        (sym (
          ap
            (λ b.
              if b
              then start_polling (check (record s { mounted = true }))
              else record s { mounted = true })
            hidden))
        (record {
          armed = v.armed;
          off = λ h. v.off (ap (λ b. b && s.visible) m);
          on = λ h. absurd (cc (h, hidden));
        })
]

unmount-Sound : (s : Poll) → Sound s → Sound (unmount s)
unfolding unmount
unmount-Sound s v =
    same-Sound (clear_polling (record s { mounted = false })) _
      (abort-Same (clear_polling (record s { mounted = false })))
      (clear-Sound (record s { mounted = false }) v.armed refl)

and_false : (b : Bool) → (b && false) ≡ false
and_false true = refl
and_false false = refl

-- The three outcomes of a change of visibility.
visibility-Sound :
    (visible mounted : Bool) (s : Poll)
    → s.mounted ≡ mounted
    → Sound s
    → Sound (change_visibility visible s)
unfolding change_visibility on_visibility_change
visibility-Sound true true s m v =
    let changed = record s { visible = true } in
    subst Sound (sym (ap (λ b. if b then on_visibility_change changed else changed) m))
      (start-Sound (check changed) v.armed m refl)
visibility-Sound false true s m v =
    let changed = record s { visible = false } in
    subst Sound (sym (ap (λ b. if b then on_visibility_change changed else changed) m)) (
      same-Sound (clear_polling changed) (abort_current (clear_polling changed))
        (abort-Same (clear_polling changed)) (clear-Sound changed v.armed (and_false s.mounted)))
visibility-Sound visible false s m v =
    let changed = record s { visible = visible } in
    subst Sound (sym (ap (λ b. if b then on_visibility_change changed else changed) m)) (record {
      armed = v.armed;
      off = λ h. v.off (ap (λ b. b && s.visible) m);
      on = λ h. absurd (cc (sym h ∙ ap (λ b. b && visible) m));
    })

finish-Same : (b : Bool) (s t : Poll) → SameIntervals s t → SameIntervals s (finish b t)
unfolding finish
finish-Same true s t e = e
finish-Same false s t e = e

taken-Same :
    (b : Bool) (now : ℕ) (r : Result String ℕ) (s : Poll)
    → SameIntervals s (if b then s else take_answer now r s)
unfolding take_answer
taken-Same true now r s = (refl, refl, refl, refl)
taken-Same false now (ok status) s = (refl, refl, refl, refl)
taken-Same false now (err message) s = (refl, refl, refl, refl)

answer-Same :
    (now gen : ℕ) (r : Result String ℕ) (s : Poll) → SameIntervals s (on_answer now gen r s)
unfolding on_answer
answer-Same now gen r s =
    let latest = (gen == s.request_gen) && s.mounted in
    finish-Same latest s _ (taken-Same (contains gen s.aborted || not latest) now r s)

interval-Sound : (h : ℕ) (s : Poll) → Sound s → Sound (on_interval h s)
unfolding on_interval
interval-Sound h s v = one (has h s.timers.armed)
  where
    one : (b : Bool) → Sound (if b then check s else s)
    one true = same-Sound s (check s) (check-Same s) v
    one false = v

run-Sound_from : (s : Poll) (es : List Event) → AreFitting s es → Sound s → Sound (run s es)
unfolding run step
run-Sound_from s [] fit v = v
run-Sound_from s (mounts ∷ es) fit v = run-Sound_from (mount s) es fit.1 (mount-Sound s fit.0 v)
run-Sound_from s (unmounts ∷ es) fit v = run-Sound_from (unmount s) es fit (unmount-Sound s v)
run-Sound_from s (becomes_visible ∷ es) fit v =
    run-Sound_from (change_visibility true s) es fit (visibility-Sound true s.mounted s refl v)
run-Sound_from s (becomes_hidden ∷ es) fit v =
    run-Sound_from (change_visibility false s) es fit (visibility-Sound false s.mounted s refl v)
run-Sound_from s (fires h ∷ es) fit v =
    run-Sound_from (on_interval h s) es fit (interval-Sound h s v)
run-Sound_from s (answers now gen r ∷ es) fit v =
    run-Sound_from (on_answer now gen r s) es fit
      (same-Sound s (on_answer now gen r s) (answer-Same now gen r s) v)

dropped : (b : Bool) (t s : Poll) → (if b || true then s else t) ≡ s
dropped true t s = refl
dropped false t s = refl

late_answer :
    (now gen : ℕ) (r : Result String ℕ) (s : Poll)
    → ((gen == s.request_gen) && s.mounted) ≡ false
    → on_answer now gen r s ≡ s
unfolding on_answer finish
late_answer now gen r s late =
    subst (λ b. finish b (if contains gen s.aborted || not b then s else take_answer now r s) ≡ s)
      (sym late) (dropped (contains gen s.aborted) (take_answer now r s) s)

-- However the hook is mounted and unmounted, the page shown and hidden, and requests are made and
-- answered, where it is mounted again only after its end: the only interval that is armed is the one that
-- the hook holds, and it holds one exactly while it is mounted and the page is visible. And an answer
-- that is not the latest request's, or that comes after the end, changes nothing.
pub polls_while_shown :
    (es : List Event)
    → AreFitting new_poll es
    → Sound (run new_poll es)
      × ((now gen : ℕ) (r : Result String ℕ)
          → ((gen == (run new_poll es).request_gen) && (run new_poll es).mounted) ≡ false
          → on_answer now gen r (run new_poll es) ≡ run new_poll es)
unfolding new_poll idle
polls_while_shown es fit = (
  run-Sound_from new_poll es fit (record { armed = refl; off = λ h. refl; on = λ h. cc (h) }),
  λ now gen r late. late_answer now gen r (run new_poll es) late,
)
