-- ===== src/Sessions/Heartbeat.antt =====
-- The heartbeat of a session and the reconnect that it triggers, in
-- src/front-end/src/infrastructure/connection/webrtc-service.ts. Times are milliseconds; a difference of
-- times that would be negative is 0 here, and is under every threshold either way.
pub mod Elsewhere
pub mod Intervals
pub mod Degraded
use learning_cuda.Base.{
  ℕ, zero, suc, ◌+◌, ◌-◌, ◌≤◌, ◌<◌, ◌≡◌, ◌≢◌, refl, sym, ap, subst, ◌∙◌, Bool, true, false, ◌&&◌,
  not, Option, none, some, List, [], ◌∷◌, String, if◌then◌else◌, Key, string_key, nat_key, ltb, leb,
  inl, inr, Bool-cases, arith,
}
use learning_cuda.JsMap.{JsMap, get, put, remove, has}
use learning_cuda.JsMap.Laws.{get-put_self}
use learning_cuda.Timers.{Timers, set_timer, clear_timer}
use learning_cuda.Sessions.{
  ConnectionState, connected, disconnected, ReadyState, is_open, Effect, send_buffer,
  close_session_request, Service,
}
use learning_cuda.Sessions.Cleanup.{cleanup_session, forget, stop_interval}

abbrev pub default_heartbeat_interval_ms : ℕ
default_heartbeat_interval_ms = 10000

abbrev pub heartbeat_stale_threshold_ms : ℕ
heartbeat_stale_threshold_ms = 15000

abbrev pub heartbeat_max_consecutive_failures : ℕ
heartbeat_max_consecutive_failures = 3

-- The browser during an event: Date.now(), the channels' states, and whether `send` throws.
pub record Browser : Type 0 where
  pub now : ℕ
  pub ready_state : ℕ → ReadyState
  pub send_throws : ℕ → Bool

-- map.get(id) ?? 0
unfoldable pub get_or_0 : String → JsMap String ℕ → ℕ
get_or_0 id m = elim (get id m) [ none ↦ 0 | some n ↦ n ]

-- closeSession, up to its await
unfoldable pub close_session : String → Service → Service
close_session id s = record s {
  last_request = some "CloseSession";
  effects = close_session_request id ∷ s.effects;
}

-- if (this.sessions.size === 0) this.connectionState = 'disconnected'
unfoldable pub without_sessions : Service → Service
without_sessions s = record s {
  connection_state = elim s.sessions [ [] ↦ disconnected | x ∷ xs ↦ s.connection_state ];
}

-- closeSession's `finally`
unfoldable pub session_closed : String → Service → Service
unfolding cleanup_session without_sessions
session_closed id s = without_sessions (cleanup_session id s)

unfoldable pub trigger_reconnect : String → Service → Service
unfolding close_session
trigger_reconnect id s =
    if has id s.reconnecting_sessions
    then s
    else close_session id (record s { reconnecting_sessions = put id true s.reconnecting_sessions })

-- The reconnect's `finally`
unfoldable pub reconnect_done : String → Service → Service
reconnect_done id s = record s { reconnecting_sessions = remove id s.reconnecting_sessions }

abbrev pub heartbeat_sent : Browser → String → ℕ → Service → Service
heartbeat_sent b id c s = record s {
  last_heartbeat_sent_at = put id b.now s.last_heartbeat_sent_at;
  heartbeat_consecutive_failures = put id 0 s.heartbeat_consecutive_failures;
  effects = send_buffer c ∷ s.effects;
}

abbrev pub heartbeat_failed : String → Service → Service
heartbeat_failed id s = record s {
  heartbeat_consecutive_failures =
      put id (get_or_0 id s.heartbeat_consecutive_failures + 1) s.heartbeat_consecutive_failures;
}

unfoldable pub send_heartbeat_on : Browser → String → Option ℕ → Service → Service
unfolding get_or_0
send_heartbeat_on b id none s = s
send_heartbeat_on b id (some c) s =
    if not (is_open (b.ready_state c))
    then s
    else if b.send_throws c
    then heartbeat_failed id s
    else heartbeat_sent b id c s

unfoldable pub send_heartbeat : Browser → String → Service → Service
unfolding send_heartbeat_on
send_heartbeat b id s = send_heartbeat_on b id (get id s.data_channels) s

-- The health check, with the numbers that it reads first: it resends where the acknowledgement is old.
unfoldable pub judge : Browser → String → ℕ → ℕ → ℕ → Service → Service
unfolding send_heartbeat trigger_reconnect
judge b id last_sent_at last_ack_at failures s =
    let resent =
      if ltb 0 last_ack_at && ltb default_heartbeat_interval_ms (b.now - last_ack_at)
      then send_heartbeat b id s
      else s in
    if leb heartbeat_max_consecutive_failures failures
    then trigger_reconnect id resent
    else if ltb 0 last_sent_at && ltb heartbeat_stale_threshold_ms (b.now - last_sent_at)
    then trigger_reconnect id resent
    else resent

unfoldable pub evaluate_heartbeat_health : Browser → String → Service → Service
unfolding judge
evaluate_heartbeat_health b id s =
    judge b id (get_or_0 id s.last_heartbeat_sent_at) (get_or_0 id s.last_heartbeat_ack_at)
      (get_or_0 id s.heartbeat_consecutive_failures) s

-- The callback of the interval.
unfoldable pub heartbeat_tick : Browser → String → Service → Service
unfolding evaluate_heartbeat_health
heartbeat_tick b id s = evaluate_heartbeat_health b id (send_heartbeat b id s)

abbrev pub heartbeat_started : Browser → String → ℕ → Service → Service
heartbeat_started b id c s = record s {
  connection_state = if is_open (b.ready_state c) then connected else s.connection_state;
  last_request = if is_open (b.ready_state c) then some "Data channel ready" else s.last_request;
  heartbeat_timers = put id s.timers.next s.heartbeat_timers;
  timers = set_timer id s.timers;
  last_heartbeat_ack_at = put id b.now s.last_heartbeat_ack_at;
}

unfoldable pub start_heartbeat_on : Browser → String → Option ℕ → Service → Service
start_heartbeat_on b id none s = s
start_heartbeat_on b id (some c) s =
    if has id s.heartbeat_timers then s else heartbeat_started b id c s

unfoldable pub start_heartbeat : Browser → String → Service → Service
unfolding start_heartbeat_on
start_heartbeat b id s = start_heartbeat_on b id (get id s.data_channels) s

abbrev pub channel_is_open : Browser → Option ℕ → Bool
channel_is_open b none = false
channel_is_open b (some c) = is_open (b.ready_state c)

unfoldable pub stop_heartbeat : Browser → String → Service → Service
unfolding forget
stop_heartbeat b id s = record s {
  heartbeat_timers = forget id s.heartbeat_timers;
  timers = stop_interval (get id s.heartbeat_timers) s.timers;
  connection_state =
      if has id s.sessions && not (channel_is_open b (get id s.data_channels))
      then disconnected
      else s.connection_state;
}
