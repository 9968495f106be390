-- ===== src/Sessions/Heartbeat/Intervals.antt =====
-- The heartbeat intervals: the table and the browser's armed intervals.
use learning_cuda.Base.{
  ℕ, ◌≤◌, ◌≡◌, refl, Option, none, some, List, [], ◌∷◌, String, string_key, nat_key, inl, inr,
  Option-cases, arith,
}
use learning_cuda.JsMap.{JsMap, get, put, remove, has}
use learning_cuda.JsMap.Laws.{get-put, get-remove}
use learning_cuda.JsMap.Inverse.{LeadsBack, put-LeadsBack, remove-LeadsBack}
use learning_cuda.Timers.{Timers, idle, set_timer, clear_timer}
use learning_cuda.Sessions.{Service, new_service}
use learning_cuda.Sessions.Cleanup.{cleanup_session, forget, stop_interval}
use learning_cuda.Sessions.Heartbeat.{
  Browser, start_heartbeat, start_heartbeat_on, stop_heartbeat, heartbeat_tick, session_closed,
  without_sessions,
}
use learning_cuda.Sessions.Creation.{Platform, Options, create_session}
use learning_cuda.Sessions.Heartbeat.Elsewhere.{create_session-Same, heartbeat_tick-Same}

-- The table leads to the armed intervals, and these lead back to it; handles are fresh.
pub record Matched (table : JsMap String ℕ) (t : Timers String) : Type 0 where
  pub armed : LeadsBack table t.armed
  pub owned : LeadsBack t.armed table
  pub fresh : (h : ℕ) → t.next ≤ h → get h t.armed ≡ none

abbrev pub Intervals : Service → Type 0
Intervals s = Matched s.heartbeat_timers s.timers

put-Matched :
    (id : String) (table : JsMap String ℕ) (t : Timers String)
    → get id table ≡ none
    → Matched table t
    → Matched (put id t.next table) (set_timer id t)
unfolding set_timer
put-Matched id table t new v = record {
  armed = put-LeadsBack id t.next table t.armed (v.fresh t.next (omega arith)) v.armed;
  owned = put-LeadsBack t.next id t.armed table new v.owned;
  fresh = λ h q. ground (arith, get-put t.next h id t.armed, v.fresh h);
}

remove-Matched :
    (id : String) (h : ℕ) (table : JsMap String ℕ) (t : Timers String)
    → get id table ≡ some h
    → Matched table t
    → Matched (remove id table) (clear_timer h t)
unfolding clear_timer
remove-Matched id h table t there v = record {
  armed = remove-LeadsBack id h table t.armed (v.armed id h there) v.armed;
  owned = remove-LeadsBack h id t.armed table there v.owned;
  fresh = λ i q. ground (arith, get-remove h i t.armed, v.fresh i);
}

forget-Matched :
    (id : String) (table : JsMap String ℕ) (t : Timers String)
    → Matched table t
    → Matched (forget id table) (stop_interval (get id table) t)
unfolding forget
forget-Matched id table t v = elim (Option-cases (get id table)) [
  | inl absent ↦ rw (absent, forget) v
  | inr (h, there) ↦ rw (there, forget) (remove-Matched id h table t there v)
]

-- What happens to the heartbeats: sessions are created, with their data channels; heartbeats are started,
-- their intervals fire, and they are stopped; sessions are closed and cleaned up.
pub data Event : Type 0 where
  creates : Platform → String → String → Options → Event
  starts stops : Browser → String → Event
  fires : Browser → ℕ → Event
  closes cleans : String → Event

-- The callback of an interval that is armed
abbrev pub on_interval : Browser → Option String → Service → Service
on_interval b none s = s
on_interval b (some id) s = heartbeat_tick b id s

unfoldable pub step : Service → Event → Service
unfolding start_heartbeat stop_heartbeat cleanup_session create_session heartbeat_tick
    session_closed get
step s (creates p id source_id o) = (create_session p id source_id o s).0
step s (starts b id) = start_heartbeat b id s
step s (stops b id) = stop_heartbeat b id s
step s (fires b h) = on_interval b (get h s.timers.armed) s
step s (closes id) = session_closed id s
step s (cleans id) = cleanup_session id s

unfoldable pub run : Service → List Event → Service
unfolding step
run s [] = s
run s (e ∷ es) = run (step s e) es

start_heartbeat_on-Intervals :
    (b : Browser) (id : String) (c : Option ℕ) (s : Service)
    → Intervals s
    → Intervals (start_heartbeat_on b id c s)
unfolding start_heartbeat_on has
start_heartbeat_on-Intervals b id none s v = v
start_heartbeat_on-Intervals b id (some c) s v = elim (Option-cases (get id s.heartbeat_timers)) [
  | inl absent ↦ rw (absent, has) (put-Matched id s.heartbeat_timers s.timers absent v)
  | inr (h, there) ↦ rw (there, has) v
]

session_closed-Intervals :
    (id : String) (s : Service) → Intervals s → Intervals (session_closed id s)
unfolding session_closed without_sessions cleanup_session
session_closed-Intervals id s v = forget-Matched id s.heartbeat_timers s.timers v

on_interval-Intervals :
    (b : Browser) (armed : Option String) (s : Service)
    → Intervals s
    → Intervals (on_interval b armed s)
on_interval-Intervals b none s v = v
on_interval-Intervals b (some id) s v = heartbeat_tick-Same b id s Matched v

step-Intervals : (s : Service) (e : Event) → Intervals s → Intervals (step s e)
unfolding step start_heartbeat stop_heartbeat cleanup_session
step-Intervals s (creates p id source_id o) v = create_session-Same p id source_id o s Matched v
step-Intervals s (starts b id) v = start_heartbeat_on-Intervals b id (get id s.data_channels) s v
step-Intervals s (stops b id) v = forget-Matched id s.heartbeat_timers s.timers v
step-Intervals s (fires b h) v = on_interval-Intervals b (get h s.timers.armed) s v
step-Intervals s (closes id) v = session_closed-Intervals id s v
step-Intervals s (cleans id) v = forget-Matched id s.heartbeat_timers s.timers v

run-Intervals_from : (s : Service) (es : List Event) → Intervals s → Intervals (run s es)
unfolding run
run-Intervals_from s [] v = v
run-Intervals_from s (e ∷ es) v = run-Intervals_from (step s e) es (step-Intervals s e v)

-- However sessions are created, heartbeats started, fired and stopped, and sessions closed and cleaned up:
-- each heartbeat interval in the table is armed, and each armed interval is the one that the table holds
-- for its session.
pub run-Intervals : (es : List Event) → Intervals (run new_service es)
unfolding new_service idle get
run-Intervals es =
    run-Intervals_from new_service es
      (record { armed = λ k l q. cc (q); owned = λ k l q. cc (q); fresh = λ h q. refl })
