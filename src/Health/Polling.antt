-- ===== src/Health/Polling.antt =====
-- The interval of the healthy polling, over all events of the monitor
-- (src/front-end/src/infrastructure/external/accelerator-health-monitor.ts).
use learning_cuda.Health.Tracks.{
  Tracked, Tracks, Inv, Tracked-remove, Tracked-remove_field, Tracked-concat, Tracked-concat_poll,
  Armed-remove, Armed-put, fresh-Absent, fresh-remove, fresh-put,
}
use learning_cuda.Base.{
  ℕ, suc, ◌<◌, ◌≡◌, refl, sym, subst₂, inl, inr, Bool, true, false, ◌&&◌, Option, none, some, List,
  [], ◌∷◌, arith, nat_key, All, Bool-cases, leb,
}
use learning_cuda.JsMap.{get, keys}
use learning_cuda.JsMap.Laws.{get-put_self}
use learning_cuda.JsMap.Order.{put-Absent}
use learning_cuda.Timers.{Timers, idle, set_timer, clear_timer}
use learning_cuda.Health.{
  Tick, poll_interval, rapid_timeout, Caller, initial, poll, rapid, Reply, Check, Monitor,
  clear_handle, perform_health_check, start_healthy_polling, perform_rapid_check,
  start_rapid_checks, start_monitoring, stop_monitoring, give_up, rapid_answer, answer_to, settle,
  take_check, on_tick, checked, Event, starts, stops, answers, ticks, step, run, new_monitor,
  rapid_checks_count,
}

-- No interval is armed, and handles are still fresh.
pub record Cleared (t : Timers Tick) : Type 0 where
  pub no_interval : Tracked none t.armed
  pub fresh : All (λ h. h < t.next) (keys t.armed)

clear_handle-Cleared : (o : Option ℕ) (t : Timers Tick) → Cleared t → Cleared (clear_handle o t)
unfolding clear_handle clear_timer
clear_handle-Cleared none t c = c
clear_handle-Cleared (some h) t c = record {
  no_interval = Tracked-remove none h t.armed c.no_interval;
  fresh = fresh-remove t.next h t.armed c.fresh;
}

clear_interval-Cleared :
    (field : Option ℕ) (t : Timers Tick)
    → Tracked field t.armed
    → All (λ h. h < t.next) (keys t.armed)
    → Cleared (clear_handle field t)
unfolding clear_handle clear_timer
clear_interval-Cleared none t k f = record { no_interval = k; fresh = f }
clear_interval-Cleared (some h) t k f = record {
  no_interval = Tracked-remove_field h t.armed k;
  fresh = fresh-remove t.next h t.armed f;
}

module _ (m : Monitor) (v : Inv m) where
  pub cleared :
      Cleared (clear_handle m.rapid_check_timeout (clear_handle m.polling_interval m.timers))
  cleared =
      clear_handle-Cleared m.rapid_check_timeout _
        (clear_interval-Cleared m.polling_interval m.timers v.tracked v.fresh)

  start_healthy_polling-Inv : Inv (start_healthy_polling m)
  unfolding start_healthy_polling set_timer
  start_healthy_polling-Inv =
      let t = clear_handle m.rapid_check_timeout (clear_handle m.polling_interval m.timers) in
      let c = cleared in
      record {
        tracked =
            rw (put-Absent t.next poll_interval t.armed (fresh-Absent t.next t.armed c.fresh))
              (Tracked-concat_poll t.next t.armed c.no_interval);
        present = get-put_self t.next poll_interval t.armed;
        fresh = fresh-put t.next poll_interval t.armed c.fresh;
      }

  -- Events that leave the timers alone.
  same_timers-Inv :
      (n : Monitor) → n.polling_interval ≡ m.polling_interval → n.timers ≡ m.timers → Inv n
  same_timers-Inv n p t = subst₂ Tracks (sym p) (sym t) v

  set_rapid_timeout-Inv : Tracks m.polling_interval (set_timer rapid_timeout m.timers)
  unfolding set_timer
  set_rapid_timeout-Inv =
      let t = m.timers in
      let unused = fresh-Absent t.next t.armed v.fresh in
      record {
        tracked =
            rw (put-Absent t.next rapid_timeout t.armed unused)
              (Tracked-concat m.polling_interval t.next t.armed v.tracked);
        present = Armed-put m.polling_interval t.next rapid_timeout t.armed unused v.present;
        fresh = fresh-put t.next rapid_timeout t.armed v.fresh;
      }

perform_rapid_check-timers :
    (m : Monitor)
    → ((perform_rapid_check m).polling_interval ≡ m.polling_interval)
      × ((perform_rapid_check m).timers ≡ m.timers)
unfolding perform_rapid_check
perform_rapid_check-timers m = ground arith

perform_rapid_check-Inv : (m : Monitor) → Inv m → Inv (perform_rapid_check m)
perform_rapid_check-Inv m v =
    let (p, t) = perform_rapid_check-timers m in same_timers-Inv m v (perform_rapid_check m) p t

start_rapid_checks-Inv : (m : Monitor) → Inv m → Inv (start_rapid_checks m)
unfolding start_rapid_checks
start_rapid_checks-Inv m v =
    let c = cleared m v in
    perform_rapid_check-Inv _ (record { tracked = c.no_interval; present = tt; fresh = c.fresh })

start_monitoring-Inv : (a b : Bool) (m : Monitor) → Inv m → Inv (start_monitoring a b m)
unfolding start_monitoring
start_monitoring-Inv a b m v =
    same_timers-Inv m v (start_monitoring a b m) (ground arith) (ground arith)

pub stop_monitoring_on :
    (m : Monitor)
    → m.is_monitoring ≡ true
    → ((stop_monitoring m).polling_interval ≡ none)
      × ((stop_monitoring m).timers
          ≡ clear_handle m.rapid_check_timeout (clear_handle m.polling_interval m.timers))
unfolding stop_monitoring
stop_monitoring_on m on = ground arith

stop_monitoring_off :
    (m : Monitor)
    → m.is_monitoring ≡ false
    → ((stop_monitoring m).polling_interval ≡ m.polling_interval)
      × ((stop_monitoring m).timers ≡ m.timers)
unfolding stop_monitoring
stop_monitoring_off m off = ground arith

stop_monitoring-Inv : (m : Monitor) → Inv m → Inv (stop_monitoring m)
stop_monitoring-Inv m v = elim (Bool-cases m.is_monitoring) [
  | inl on ↦
      let (p, t) = stop_monitoring_on m on in
      let c = cleared m v in
      subst₂ Tracks (sym p) (sym t)
        (record { tracked = c.no_interval; present = tt; fresh = c.fresh })
  | inr off ↦ let (p, t) = stop_monitoring_off m off in same_timers-Inv m v (stop_monitoring m) p t
]

give_up-Inv : (modal : Bool) (m : Monitor) → Inv m → Inv (give_up modal m)
unfolding give_up
give_up-Inv modal m v = elim (Bool-cases (m.modal_open_callback && modal)) [
  | inl open_now ↦ rw (open_now, give_up) (start_healthy_polling-Inv m v)
  | inr closed ↦ rw (closed, give_up) (start_healthy_polling-Inv m v)
]

rapid_answer-Inv : (ok modal : Bool) (m : Monitor) → Inv m → Inv (rapid_answer ok modal m)
unfolding rapid_answer
rapid_answer-Inv true modal m v = start_healthy_polling-Inv m v
rapid_answer-Inv false modal m v =
    elim (Bool-cases (leb rapid_checks_count (suc m.rapid_check_count))) [
      | inl last ↦
          rw (last, rapid_answer)
            (give_up-Inv modal (record m { rapid_check_count = suc m.rapid_check_count }) v)
      | inr more ↦ rw (more, rapid_answer) (set_rapid_timeout-Inv m v)
    ]

answer_to-Inv :
    (caller : Caller) (ok modal : Bool) (m : Monitor) → Inv m → Inv (answer_to caller ok modal m)
unfolding answer_to
answer_to-Inv initial true modal m v = start_healthy_polling-Inv m v
answer_to-Inv initial false modal m v = start_rapid_checks-Inv m v
answer_to-Inv poll true modal m v = v
answer_to-Inv poll false modal m v = start_rapid_checks-Inv m v
answer_to-Inv rapid ok modal m v = rapid_answer-Inv ok modal m v

settle-Inv :
    (found : Option (Check × List Check)) (reply : Reply) (modal : Bool) (m : Monitor)
    → Inv m
    → Inv (settle found reply modal m)
unfolding settle
settle-Inv none reply modal m v = v
settle-Inv (some (c, rest)) reply modal m v =
    answer_to-Inv c.caller (checked c reply) modal (record m { checks = rest }) v

on_tick-Inv :
    (h : ℕ) (found : Option Tick) (m : Monitor)
    → Inv m
    → get h m.timers.armed ≡ found
    → Inv (on_tick h found m)
unfolding on_tick perform_health_check clear_timer
on_tick-Inv h none m v e = v
on_tick-Inv h (some poll_interval) m v e = v
on_tick-Inv h (some rapid_timeout) m v e = perform_rapid_check-Inv _ (record {
  tracked = Tracked-remove m.polling_interval h m.timers.armed v.tracked;
  present = Armed-remove m.polling_interval h m.timers.armed e v.present;
  fresh = fresh-remove m.timers.next h m.timers.armed v.fresh;
})

step-Inv : (m : Monitor) (e : Event) → Inv m → Inv (step m e)
unfolding step
step-Inv m (starts a b) v = start_monitoring-Inv a b m v
step-Inv m stops v = stop_monitoring-Inv m v
step-Inv m (answers i reply modal) v = settle-Inv (take_check i m.checks) reply modal m v
step-Inv m (ticks h) v = on_tick-Inv h (get h m.timers.armed) m v refl

pub run-Inv_from : (m : Monitor) (es : List Event) → Inv m → Inv (run m es)
unfolding run
run-Inv_from m [] v = v
run-Inv_from m (e ∷ es) v = run-Inv_from (step m e) es (step-Inv m e v)

new_monitor-Inv : Inv new_monitor
unfolding new_monitor idle
new_monitor-Inv = record { tracked = tt; present = tt; fresh = tt }

-- Whatever the order of calls, ticks and answers, overlapping checks included: an armed interval is
-- the one that `pollingInterval` holds, and the one that it holds is armed.
pub one_interval : (es : List Event) → Inv (run new_monitor es)
one_interval es = run-Inv_from new_monitor es new_monitor-Inv
