-- ===== src/Health/Tests.antt =====
-- The monitor's theorems at concrete inputs.
use learning_cuda.JsMap.{put}
use learning_cuda.JsMap.{get}
use learning_cuda.Base.{◌≡◌, refl, inl, inr, true, false, some, List, [], ◌∷◌, nat_key}
use learning_cuda.JsMap.{remove}
use learning_cuda.Health.{
  healthy, unhealthy, Monitor, Event, starts, stops, answers, ticks, step, run, new_monitor,
}
use learning_cuda.Health.Polling.{one_interval}
use learning_cuda.Health.Tracks.{Inv}
use learning_cuda.Health.Alarm.{no_second_alarm, three_strikes, outage, HasAlarmed}
use learning_cuda.Health.Stopping.{IsLeftOver, late_answer_rearms}

-- The monitor has started, and its initial check is under way.
abbrev started : Monitor
started = run new_monitor (starts true true ∷ [])

-- The initial check was healthy, and the interval has ticked once.
abbrev polled : Monitor
polled = run new_monitor (starts true true ∷ answers 0 healthy false ∷ ticks 1 ∷ [])

-- The interval's check and the rapid checks have failed.
abbrev alarmed : Monitor
alarmed = step (outage 2 (step polled (answers 0 unhealthy false))) (answers 0 unhealthy false)

-- A second outage after a healthy answer to a check of the interval.
abbrev second_outage : List Event
second_outage =
    ticks 4
    ∷ answers 0 healthy false
    ∷ ticks 4
    ∷ answers 0 unhealthy false
    ∷ answers 0 unhealthy false
    ∷ ticks 5
    ∷ answers 0 unhealthy false
    ∷ ticks 6
    ∷ answers 0 unhealthy false
    ∷ []

one_interval_example : Inv (run new_monitor (starts true true ∷ answers 0 healthy false ∷ []))
one_interval_example = one_interval (starts true true ∷ answers 0 healthy false ∷ [])

three_strikes_example :
    let m' = outage 2 (step polled (answers 0 unhealthy false)) in
    (m'.alarms ≡ polled.alarms) × HasAlarmed polled.alarms (step m' (answers 0 unhealthy false))
unfolding run step get new_monitor put
three_strikes_example = three_strikes polled 0 [] refl refl refl refl

no_second_alarm_example :
    ((run alarmed second_outage).alarms ≡ alarmed.alarms)
    × ((run alarmed second_outage).last_health_status ≡ some false)
unfolding step run get new_monitor put remove
no_second_alarm_example =
    no_second_alarm alarmed second_outage refl
      (tt, (inl refl, (tt, (inr refl, (inr refl, (tt, (inr refl, (tt, (inr refl, tt)))))))))

late_answer_rearms_example : IsLeftOver (run started (stops ∷ answers 0 healthy false ∷ []))
unfolding run step new_monitor
late_answer_rearms_example = late_answer_rearms started 0 false [] refl
