-- ===== src/Health.antt =====
-- src/front-end/src/infrastructure/external/accelerator-health-monitor.ts: the monitor that polls the
-- accelerator and opens a modal when it is down. A check is asynchronous: it is asked in one event
-- and answered in a later one, in any order. Logging and spans are left out.
pub mod Counting
pub mod Tracks
pub mod Polling
pub mod Alarm
pub mod Stopping
mod Tests
use learning_cuda.Base.{
  ℕ, zero, suc, ◌+◌, Bool, true, false, ◌&&◌, not, Option, none, some, List, [], ◌∷◌, leb,
  if◌then◌else◌, nat_key,
}
use learning_cuda.JsMap.{get}
use learning_cuda.Timers.{Timers, idle, set_timer, clear_timer}

abbrev pub rapid_checks_count : ℕ
rapid_checks_count = 3

-- What an armed timer of the monitor is: the interval of the healthy polling, or the timeout before
-- the next rapid check.
pub data Tick : Type 0 where
  poll_interval rapid_timeout : Tick

-- Where a check's answer goes: to `performInitialCheck`, to the interval's `then`, or to
-- `performRapidCheck`.
pub data Caller : Type 0 where
  initial poll rapid : Caller

-- AcceleratorHealthStatus, or the call of `checkAcceleratorHealth` throws.
pub data Reply : Type 0 where
  unspecified healthy unhealthy call_failed : Reply

-- A call of `performHealthCheck` that has not been answered. Called while the monitor does not run,
-- it answers false and asks nobody.
pub record Check : Type 0 where
  pub caller : Caller
  pub asked : Bool

pub record Monitor : Type 0 where
  pub polling_interval : Option ℕ
  pub rapid_check_timeout : Option ℕ
  pub is_monitoring : Bool
  pub last_health_status : Option Bool
  -- whether the callbacks are there
  pub on_unhealthy_callback : Bool
  pub modal_open_callback : Bool
  pub rapid_check_count : ℕ
  pub is_in_rapid_check_mode : Bool
  -- the browser's timers, the checks under way, and how often onUnhealthyCallback was called
  pub timers : Timers Tick
  pub checks : List Check
  pub alarms : ℕ

-- clearInterval and clearTimeout of a handle field that may be null
unfoldable pub clear_handle : Option ℕ → Timers Tick → Timers Tick
unfolding clear_timer
clear_handle none t = t
clear_handle (some h) t = clear_timer h t

-- performHealthCheck, up to its first await
unfoldable pub perform_health_check : Caller → Monitor → Monitor
perform_health_check caller m = record m {
  checks = record { caller = caller; asked = m.is_monitoring } ∷ m.checks;
}

unfoldable pub start_healthy_polling : Monitor → Monitor
unfolding clear_handle set_timer
start_healthy_polling m =
    let cleared = clear_handle m.rapid_check_timeout (clear_handle m.polling_interval m.timers) in
    record m {
      polling_interval = some cleared.next;
      rapid_check_timeout = none;
      is_in_rapid_check_mode = false;
      rapid_check_count = 0;
      timers = set_timer poll_interval cleared;
    }

unfoldable pub perform_rapid_check : Monitor → Monitor
unfolding perform_health_check
perform_rapid_check m = if m.is_monitoring then perform_health_check rapid m else m

unfoldable pub start_rapid_checks : Monitor → Monitor
unfolding clear_handle perform_rapid_check
start_rapid_checks m = perform_rapid_check (record m {
  polling_interval = none;
  rapid_check_timeout = none;
  is_in_rapid_check_mode = true;
  rapid_check_count = 0;
  timers = clear_handle m.rapid_check_timeout (clear_handle m.polling_interval m.timers);
})

unfoldable pub start_monitoring : Bool → Bool → Monitor → Monitor
unfolding perform_health_check
start_monitoring on_unhealthy is_modal_open m =
    if m.is_monitoring
    then m
    else perform_health_check initial (record m {
      on_unhealthy_callback = on_unhealthy;
      modal_open_callback = is_modal_open;
      is_monitoring = true;
      last_health_status = none;
      rapid_check_count = 0;
      is_in_rapid_check_mode = false;
    })

unfoldable pub stop_monitoring : Monitor → Monitor
unfolding clear_handle
stop_monitoring m = if not m.is_monitoring then m else record m {
  timers = clear_handle m.rapid_check_timeout (clear_handle m.polling_interval m.timers);
  polling_interval = none;
  rapid_check_timeout = none;
  is_monitoring = false;
}

-- this.lastHealthStatus !== false
abbrev pub not_false : Option Bool → Bool
not_false (some false) = false
not_false _ = true

-- The last rapid check has failed. `modal` is what modalOpenCallback returns.
unfoldable pub give_up : Bool → Monitor → Monitor
unfolding start_healthy_polling
give_up modal m =
    if m.modal_open_callback && modal
    then start_healthy_polling m
    else start_healthy_polling (record m {
      alarms =
          if not_false m.last_health_status && m.on_unhealthy_callback
          then suc m.alarms
          else m.alarms;
      last_health_status = some false;
    })

-- The continuation of a rapid check.
unfoldable pub rapid_answer : Bool → Bool → Monitor → Monitor
unfolding start_healthy_polling set_timer give_up
rapid_answer true modal m = start_healthy_polling (record m { last_health_status = some true })
rapid_answer false modal m =
    let counted = record m { rapid_check_count = suc m.rapid_check_count } in
    if leb rapid_checks_count counted.rapid_check_count
    then give_up modal counted
    else record counted {
      rapid_check_timeout = some m.timers.next;
      timers = set_timer rapid_timeout m.timers;
    }

-- The continuation of a check, by its caller.
unfoldable pub answer_to : Caller → Bool → Bool → Monitor → Monitor
unfolding start_healthy_polling start_rapid_checks rapid_answer
answer_to initial true modal m = start_healthy_polling (record m { last_health_status = some true })
answer_to initial false modal m = start_rapid_checks m
answer_to poll true modal m = m
answer_to poll false modal m = start_rapid_checks m
answer_to rapid is_healthy modal m = rapid_answer is_healthy modal m

-- response.status === AcceleratorHealthStatus.HEALTHY; a call that throws is caught as false
abbrev pub is_healthy : Reply → Bool
is_healthy healthy = true
is_healthy _ = false

abbrev pub checked : Check → Reply → Bool
checked c reply = c.asked && is_healthy reply

-- The i-th check, and the others.
abbrev pub take_check : ℕ → List Check → Option (Check × List Check)
take_check i [] = none
take_check zero (c ∷ cs) = some (c, cs)
take_check (suc i) (c ∷ cs) = elim (take_check i cs) [
  | none ↦ none
  | some (found, rest) ↦ some (found, c ∷ rest)
]

unfoldable pub settle : Option (Check × List Check) → Reply → Bool → Monitor → Monitor
unfolding answer_to
settle none reply modal m = m
settle (some (c, rest)) reply modal m =
    answer_to c.caller (checked c reply) modal (record m { checks = rest })

-- A timer of the monitor fires: the interval stays armed, the timeout does not.
unfoldable pub on_tick : ℕ → Option Tick → Monitor → Monitor
unfolding perform_health_check perform_rapid_check clear_timer
on_tick h none m = m
on_tick h (some poll_interval) m = perform_health_check poll m
on_tick h (some rapid_timeout) m =
    perform_rapid_check (record m { timers = clear_timer h m.timers })

pub data Event : Type 0 where
  starts : Bool → Bool → Event
  stops : Event
  -- the i-th check under way is answered; the last field is what modalOpenCallback would return
  answers : ℕ → Reply → Bool → Event
  ticks : ℕ → Event

unfoldable pub step : Monitor → Event → Monitor
unfolding start_monitoring stop_monitoring settle on_tick
step m (starts on_unhealthy is_modal_open) = start_monitoring on_unhealthy is_modal_open m
step m stops = stop_monitoring m
step m (answers i reply modal) = settle (take_check i m.checks) reply modal m
step m (ticks h) = on_tick h (get h m.timers.armed) m

unfoldable pub run : Monitor → List Event → Monitor
run m [] = m
run m (e ∷ es) = run (step m e) es

unfoldable pub new_monitor : Monitor
unfolding idle
new_monitor = record {
  polling_interval = none;
  rapid_check_timeout = none;
  is_monitoring = false;
  last_health_status = none;
  on_unhealthy_callback = false;
  modal_open_callback = false;
  rapid_check_count = 0;
  is_in_rapid_check_mode = false;
  timers = idle;
  checks = [];
  alarms = 0;
}
