-- ===== src/Health/Stopping.antt =====
-- `stopMonitoring`, and the answers that come after it.
use learning_cuda.Base.{
  ℕ, ◌≡◌, ◌≢◌, refl, sym, ap, subst, ◌∙◌, Bool, true, false, none, some, List, [], ◌∷◌, arith,
  nat_key,
}
use learning_cuda.JsMap.Laws.{get-put_self}
use learning_cuda.Timers.{Timers, set_timer}
use learning_cuda.Health.{
  Tick, poll_interval, initial, healthy, Check, Monitor, start_healthy_polling, stop_monitoring,
  answer_to, settle, take_check, stops, answers, step, run,
}
use learning_cuda.Health.Polling.{cleared, stop_monitoring_on}
use learning_cuda.Health.Tracks.{Inv, Tracked, Armed}

stop_monitoring-off :
    (m : Monitor)
    → ((stop_monitoring m).is_monitoring ≡ false) × ((stop_monitoring m).checks ≡ m.checks)
unfolding stop_monitoring
stop_monitoring-off m = ground arith

-- Stopping a running monitor leaves no interval armed.
pub stop_clears :
    (m : Monitor)
    → Inv m
    → m.is_monitoring ≡ true
    → Tracked none (step m stops).timers.armed × ((step m stops).is_monitoring ≡ false)
unfolding step
stop_clears m v on = (
  subst (Tracked none) (sym (ap (λ (t : Timers Tick). t.armed) ((stop_monitoring_on m on).1)))
      ((cleared m v).no_interval),
  (stop_monitoring-off m).0,
)

-- What an answer to the initial check does, whether the monitor runs or not.
start_healthy_polling-armed :
    (m : Monitor)
    → ((start_healthy_polling m).is_monitoring ≡ m.is_monitoring)
      × ((start_healthy_polling m).polling_interval ≢ none)
      × Armed (start_healthy_polling m).polling_interval (start_healthy_polling m).timers.armed
unfolding start_healthy_polling set_timer
start_healthy_polling-armed m = (refl, λ e. ground arith, get-put_self _ poll_interval _)

-- The monitor does not run, and its interval is armed.
abbrev pub IsLeftOver : Monitor → Type 0
IsLeftOver m =
    (m.is_monitoring ≡ false)
    × (m.polling_interval ≢ none)
    × Armed m.polling_interval m.timers.armed

settle_initial :
    (m : Monitor) (modal : Bool) (rest : List Check)
    → m.is_monitoring ≡ false
    → IsLeftOver (settle (some (record { caller = initial; asked = true }, rest)) healthy modal m)
unfolding settle answer_to
settle_initial m modal rest off =
    let (same, h, armed) =
      start_healthy_polling-armed (record m { checks = rest; last_health_status = some true }) in
    (same ∙ off, h, armed)

-- An initial check that is asked while the monitor runs, and answered healthy after `stopMonitoring`,
-- arms the interval again, although the monitor does not run.
pub late_answer_rearms :
    (m : Monitor) (i : ℕ) (modal : Bool) (rest : List Check)
    → take_check i m.checks ≡ some (record { caller = initial; asked = true }, rest)
    → IsLeftOver (run m (stops ∷ answers i healthy modal ∷ []))
unfolding run step
late_answer_rearms m i modal rest e =
    let (off, same) = stop_monitoring-off m in
    subst (λ found. IsLeftOver (settle found healthy modal (stop_monitoring m)))
      (sym (ap (take_check i) same ∙ e)) (settle_initial (stop_monitoring m) modal rest off)
