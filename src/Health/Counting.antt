-- ===== src/Health/Counting.antt =====
-- A round of rapid checks that fail one after the other.
use learning_cuda.Base.{
  ℕ, suc, ◌<◌, ◌≡◌, sym, ap, subst, subst₂, ◌∙◌, true, false, some, List, [], ◌∷◌, arith, nat_key,
}
use learning_cuda.JsMap.Laws.{get-put_self}
use learning_cuda.Timers.{set_timer, clear_timer}
use learning_cuda.Health.{
  rapid_timeout, rapid, unhealthy, Check, Monitor, perform_health_check, perform_rapid_check,
  start_rapid_checks, rapid_answer, answer_to, settle, take_check, on_tick, Event, answers, ticks,
  step, run, rapid_checks_count, not_false,
}

-- A rapid check is under way, before the checks of `rest`; k of its round have failed; and an alarm
-- is due once they all fail.
abbrev pub IsCounting : ℕ → ℕ → List Check → Monitor → Type 0
IsCounting k alarms rest m =
    (m.is_monitoring ≡ true)
    × (m.on_unhealthy_callback ≡ true)
    × (not_false m.last_health_status ≡ true)
    × (m.rapid_check_count ≡ k)
    × (m.alarms ≡ alarms)
    × (m.checks ≡ record { caller = rapid; asked = true } ∷ rest)

perform_rapid_check-IsCounting :
    (m : Monitor)
    → m.is_monitoring ≡ true
    → m.on_unhealthy_callback ≡ true
    → not_false m.last_health_status ≡ true
    → IsCounting m.rapid_check_count m.alarms m.checks (perform_rapid_check m)
unfolding perform_rapid_check perform_health_check
perform_rapid_check-IsCounting m on there up = ground arith

pub start_rapid_checks-IsCounting :
    (m : Monitor)
    → m.is_monitoring ≡ true
    → m.on_unhealthy_callback ≡ true
    → not_false m.last_health_status ≡ true
    → IsCounting 0 m.alarms m.checks (start_rapid_checks m)
unfolding start_rapid_checks
start_rapid_checks-IsCounting m on there up = perform_rapid_check-IsCounting _ on there up

-- The round goes on: the failure is counted, and the timeout of the next check is armed.
abbrev waiting : List Check → Monitor → Monitor
waiting rest m = record m {
  checks = rest;
  rapid_check_count = suc m.rapid_check_count;
  rapid_check_timeout = some m.timers.next;
  timers = set_timer rapid_timeout m.timers;
}

rapid_answer-waiting :
    (m : Monitor) (rest : List Check)
    → suc m.rapid_check_count < rapid_checks_count
    → rapid_answer false false (record m { checks = rest }) ≡ waiting rest m
unfolding rapid_answer
rapid_answer-waiting m rest few = ground arith

fails_step :
    (m : Monitor) (rest : List Check)
    → suc m.rapid_check_count < rapid_checks_count
    → m.checks ≡ record { caller = rapid; asked = true } ∷ rest
    → step m (answers 0 unhealthy false) ≡ waiting rest m
unfolding step settle answer_to
fails_step m rest few e =
    subst (λ cs. settle (take_check 0 cs) unhealthy false m ≡ waiting rest m) (sym e)
      (rapid_answer-waiting m rest few)

-- The timeout has fired, and is no longer armed.
abbrev retrying : List Check → Monitor → Monitor
retrying rest m = record (waiting rest m) {
  timers = clear_timer m.timers.next (set_timer rapid_timeout m.timers);
}

tick_step :
    (m : Monitor) (rest : List Check)
    → step (waiting rest m) (ticks m.timers.next) ≡ perform_rapid_check (retrying rest m)
unfolding step on_tick set_timer
tick_step m rest =
    ap (λ found. on_tick m.timers.next found (waiting rest m))
      (get-put_self m.timers.next rapid_timeout m.timers.armed)

-- A failed rapid check, and the timeout before the next one.
abbrev pub fails_once : Monitor → List Event
fails_once m = answers 0 unhealthy false ∷ ticks m.timers.next ∷ []

pub fails_once-IsCounting :
    (k alarms : ℕ) (rest : List Check) (m : Monitor)
    → suc k < rapid_checks_count
    → IsCounting k alarms rest m
    → IsCounting (suc k) alarms rest (run m (fails_once m))
unfolding run
fails_once-IsCounting k alarms rest m few (on, there, up, count, same, e) =
    let more = subst (λ n. suc n < rapid_checks_count) (sym count) few in
    subst (IsCounting (suc k) alarms rest)
      (sym (ap (λ n. step n (ticks m.timers.next)) (fails_step m rest more e) ∙ tick_step m rest))
      (subst₂ (λ n a. IsCounting n a rest (perform_rapid_check (retrying rest m))) (ap suc count)
        same (perform_rapid_check-IsCounting (retrying rest m) on there up))
