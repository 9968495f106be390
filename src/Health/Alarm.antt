-- ===== src/Health/Alarm.antt =====
-- When the monitor raises the alarm, and when it stays silent.
use learning_cuda.Health.Counting.{
  IsCounting, start_rapid_checks-IsCounting, fails_once, fails_once-IsCounting,
}
use learning_cuda.Base.{
  ℕ, zero, suc, ◌<◌, ◌≡◌, ◌≢◌, refl, sym, subst, subst₂, ◌∙◌, ◌⊎◌, Bool, true, false, Option, none,
  some, List, [], ◌∷◌, arith, nat_key,
}
use learning_cuda.JsMap.{get}
use learning_cuda.Health.{
  Tick, poll_interval, rapid_timeout, Caller, initial, poll, rapid, Reply, unhealthy, Check,
  Monitor, perform_health_check, start_healthy_polling, perform_rapid_check, start_rapid_checks,
  start_monitoring, stop_monitoring, give_up, rapid_answer, answer_to, settle, take_check, on_tick,
  checked, Event, starts, stops, answers, ticks, step, run, rapid_checks_count, not_false,
}

-- What the user notices: the alarms so far, and the status of the last one.
abbrev SameStatus : Monitor → Monitor → Type 0
SameStatus m n = (n.alarms ≡ m.alarms) × (n.last_health_status ≡ m.last_health_status)

start_rapid_checks-SameStatus : (m : Monitor) → SameStatus m (start_rapid_checks m)
unfolding start_rapid_checks perform_rapid_check perform_health_check
start_rapid_checks-SameStatus m = ground arith

start_monitoring-SameStatus :
    (a b : Bool) (m : Monitor) → m.is_monitoring ≡ true → SameStatus m (start_monitoring a b m)
unfolding start_monitoring
start_monitoring-SameStatus a b m on = ground arith

stop_monitoring-SameStatus : (m : Monitor) → SameStatus m (stop_monitoring m)
unfolding stop_monitoring
stop_monitoring-SameStatus m = ground arith

on_tick-SameStatus : (h : ℕ) (found : Option Tick) (m : Monitor) → SameStatus m (on_tick h found m)
unfolding on_tick perform_rapid_check perform_health_check
on_tick-SameStatus h none m = (refl, refl)
on_tick-SameStatus h (some poll_interval) m = (refl, refl)
on_tick-SameStatus h (some rapid_timeout) m = ground arith

-- A failed rapid check while the last status is false: no alarm, and the status stays false.
rapid_fails-SameStatus :
    (modal : Bool) (m : Monitor)
    → m.last_health_status ≡ some false
    → SameStatus m (rapid_answer false modal m)
unfolding rapid_answer give_up start_healthy_polling
rapid_fails-SameStatus modal m down = ground arith

-- The check answered is one of the interval, or it fails.
abbrev pub NoRecovery : Option (Check × List Check) → Reply → Type 0
NoRecovery none reply = Unit
NoRecovery (some (c, rest)) reply = (c.caller ≡ poll) ⊎ (checked c reply ≡ false)

answer_to-SameStatus :
    (caller : Caller) (ok modal : Bool) (m : Monitor)
    → m.last_health_status ≡ some false
    → (caller ≡ poll) ⊎ (ok ≡ false)
    → SameStatus m (answer_to caller ok modal m)
unfolding answer_to
answer_to-SameStatus initial true modal m down h = ground arith
answer_to-SameStatus initial false modal m down h = start_rapid_checks-SameStatus m
answer_to-SameStatus poll true modal m down h = (refl, refl)
answer_to-SameStatus poll false modal m down h = start_rapid_checks-SameStatus m
answer_to-SameStatus rapid true modal m down h = ground arith
answer_to-SameStatus rapid false modal m down h = rapid_fails-SameStatus modal m down

settle-SameStatus :
    (found : Option (Check × List Check)) (reply : Reply) (modal : Bool) (m : Monitor)
    → m.last_health_status ≡ some false
    → NoRecovery found reply
    → SameStatus m (settle found reply modal m)
unfolding settle
settle-SameStatus none reply modal m down h = (refl, refl)
settle-SameStatus (some (c, rest)) reply modal m down h =
    answer_to-SameStatus c.caller (checked c reply) modal (record m { checks = rest }) down h

-- No restart, and no healthy answer but to the checks of the interval.
abbrev pub IsQuiet : Monitor → Event → Type 0
IsQuiet m (starts a b) = m.is_monitoring ≡ true
IsQuiet m stops = Unit
IsQuiet m (answers i reply modal) = NoRecovery (take_check i m.checks) reply
IsQuiet m (ticks h) = Unit

abbrev pub AreQuiet : Monitor → List Event → Type 0
AreQuiet m [] = Unit
AreQuiet m (e ∷ es) = IsQuiet m e × AreQuiet (step m e) es

step-SameStatus :
    (m : Monitor) (e : Event)
    → m.last_health_status ≡ some false
    → IsQuiet m e
    → SameStatus m (step m e)
unfolding step
step-SameStatus m (starts a b) down q = start_monitoring-SameStatus a b m q
step-SameStatus m stops down q = stop_monitoring-SameStatus m
step-SameStatus m (answers i reply modal) down q =
    settle-SameStatus (take_check i m.checks) reply modal m down q
step-SameStatus m (ticks h) down q = on_tick-SameStatus h (get h m.timers.armed) m

-- Once the last status is false, no run of failures raises another alarm, as long as no restart and no
-- rapid or initial check with a healthy answer comes between: healthy answers to the checks of the
-- polling interval, however many, do not count as a recovery.
pub no_second_alarm :
    (m : Monitor) (es : List Event)
    → m.last_health_status ≡ some false
    → AreQuiet m es
    → ((run m es).alarms ≡ m.alarms) × ((run m es).last_health_status ≡ some false)
unfolding run
no_second_alarm m [] down q = (refl, down)
no_second_alarm m (e ∷ es) down q =
    let (same, status) = step-SameStatus m e down q.0 in
    let (later, still) = no_second_alarm (step m e) es (status ∙ down) q.1 in (later ∙ same, still)

-- One more alarm than before, the status is false, and the healthy polling is on again.
abbrev pub HasAlarmed : ℕ → Monitor → Type 0
HasAlarmed alarms m =
    (m.alarms ≡ suc alarms) × (m.last_health_status ≡ some false) × (m.polling_interval ≢ none)

rapid_answer-HasAlarmed :
    (m : Monitor)
    → m.on_unhealthy_callback ≡ true
    → not_false m.last_health_status ≡ true
    → m.rapid_check_count ≡ 2
    → HasAlarmed m.alarms (rapid_answer false false m)
unfolding rapid_answer give_up start_healthy_polling
rapid_answer-HasAlarmed m there up count = ground arith

last_fails :
    (alarms : ℕ) (rest : List Check) (m : Monitor)
    → IsCounting 2 alarms rest m
    → HasAlarmed alarms (step m (answers 0 unhealthy false))
unfolding step settle answer_to
last_fails alarms rest m (on, there, up, count, same, e) =
    subst₂ (λ a cs. HasAlarmed a (settle (take_check 0 cs) unhealthy false m)) same (sym e)
      (rapid_answer-HasAlarmed (record m { checks = rest }) there up count)

-- The monitor after the interval's check fails, and after one more rapid check fails.
abbrev pub outage : ℕ → Monitor → Monitor
outage zero m = m
outage (suc k) m = let before = outage k m in run before (fails_once before)

outage-IsCounting :
    (k alarms : ℕ) (rest : List Check) (m : Monitor)
    → k < rapid_checks_count
    → IsCounting 0 alarms rest m
    → IsCounting k alarms rest (outage k m)
outage-IsCounting zero alarms rest m few c = c
outage-IsCounting (suc k) alarms rest m few c =
    fails_once-IsCounting k alarms rest (outage k m) few
      (outage-IsCounting k alarms rest m (omega arith) c)

poll_fails-IsCounting :
    (m : Monitor) (i : ℕ) (rest : List Check)
    → m.is_monitoring ≡ true
    → m.on_unhealthy_callback ≡ true
    → not_false m.last_health_status ≡ true
    → take_check i m.checks ≡ some (record { caller = poll; asked = true }, rest)
    → IsCounting 0 m.alarms rest (step m (answers i unhealthy false))
unfolding step settle answer_to
poll_fails-IsCounting m i rest on there up e =
    subst (λ found. IsCounting 0 m.alarms rest (settle found unhealthy false m)) (sym e)
      (start_rapid_checks-IsCounting (record m { checks = rest }) on there up)

-- The monitor runs with a callback, its last status is not false, and the modal is closed. A check of
-- the interval fails, and so do the three rapid checks of the round, with the timeouts between them:
-- after two of them there is no alarm yet, and after the third there is one more alarm, the status is
-- false, and the healthy polling is on again.
pub three_strikes :
    (m : Monitor) (i : ℕ) (rest : List Check)
    → m.is_monitoring ≡ true
    → m.on_unhealthy_callback ≡ true
    → not_false m.last_health_status ≡ true
    → take_check i m.checks ≡ some (record { caller = poll; asked = true }, rest)
    → let m' = outage 2 (step m (answers i unhealthy false)) in
      (m'.alarms ≡ m.alarms) × HasAlarmed m.alarms (step m' (answers 0 unhealthy false))
three_strikes m i rest on there up e =
    let c =
      outage-IsCounting 2 m.alarms rest (step m (answers i unhealthy false)) (omega arith)
        (poll_fails-IsCounting m i rest on there up e) in
    (c.4, last_fails m.alarms rest (outage 2 (step m (answers i unhealthy false))) c)
