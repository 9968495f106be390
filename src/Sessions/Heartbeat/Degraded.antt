-- ===== src/Sessions/Heartbeat/Degraded.antt =====
-- When a heartbeat leads to a reconnect, and when it does not.
use learning_cuda.Base.{
  ℕ, ◌+◌, ◌-◌, ◌≤◌, ◌≡◌, refl, sym, ap, subst, ◌∙◌, Bool, true, false, ◌&&◌, some, ◌∷◌, String,
  if◌then◌else◌, string_key, nat_key, ltb, leb, arith,
}
use learning_cuda.JsMap.{JsMap, get, put, has}
use learning_cuda.JsMap.Laws.{get-put_self}
use learning_cuda.Sessions.{is_open, send_buffer, close_session_request, Service}
use learning_cuda.Sessions.Heartbeat.{
  Browser, get_or_0, close_session, trigger_reconnect, heartbeat_sent, heartbeat_failed,
  send_heartbeat_on, send_heartbeat, judge, evaluate_heartbeat_health, heartbeat_tick,
  default_heartbeat_interval_ms, heartbeat_max_consecutive_failures,
}

get_or_0-put : (id : String) (n : ℕ) (m : JsMap String ℕ) → get_or_0 id (put id n m) ≡ n
unfolding get_or_0
get_or_0-put id n m = rw (get-put_self id n m, get_or_0) refl

send_fails :
    (b : Browser) (id : String) (c : ℕ) (s : Service)
    → get id s.data_channels ≡ some c
    → is_open (b.ready_state c) ≡ true
    → b.send_throws c ≡ true
    → send_heartbeat b id s ≡ heartbeat_failed id s
unfolding send_heartbeat
send_fails b id c s there up throws = rw (there, send_heartbeat_on, up, throws) refl

send_succeeds :
    (b : Browser) (id : String) (c : ℕ) (s : Service)
    → get id s.data_channels ≡ some c
    → is_open (b.ready_state c) ≡ true
    → b.send_throws c ≡ false
    → send_heartbeat b id s ≡ heartbeat_sent b id c s
unfolding send_heartbeat
send_succeeds b id c s there up throws = rw (there, send_heartbeat_on, up, throws) refl

has-put_self : (id : String) (m : JsMap String Bool) → has id (put id true m) ≡ true
unfolding has
has-put_self id m = rw (get-put_self id true m, has) refl

-- A close was requested, and a reconnect is under way.
abbrev pub Reconnects : String → Service → Service → Type 0
Reconnects id s s' =
    (has id s'.reconnecting_sessions ≡ true) × (s'.effects ≡ close_session_request id ∷ s.effects)

trigger_reconnect-Reconnects :
    (id : String) (s : Service)
    → has id s.reconnecting_sessions ≡ false
    → Reconnects id s (trigger_reconnect id s)
unfolding trigger_reconnect close_session
trigger_reconnect-Reconnects id s idle_now =
    rw idle_now (has-put_self id s.reconnecting_sessions, refl)

-- A service in which neither the set nor the requests have changed.
abbrev SameRequests : Service → Service → Type 0
SameRequests s r = (r.reconnecting_sessions ≡ s.reconnecting_sessions) × (r.effects ≡ s.effects)

SameRequests-Reconnects :
    (id : String) (s r : Service)
    → SameRequests s r
    → has id s.reconnecting_sessions ≡ false
    → Reconnects id s (trigger_reconnect id r)
SameRequests-Reconnects id s r (same, told) idle_now =
    let (marked, asked) = trigger_reconnect-Reconnects id r (ap (has id) same ∙ idle_now) in
    (marked, asked ∙ ap (◌∷◌ (close_session_request id)) told)

SameRequests-if :
    (t : Bool) (s x : Service) → SameRequests s x → SameRequests s (if t then x else s)
SameRequests-if true s x q = q
SameRequests-if false s x q = (refl, refl)

-- Where every send fails, a resend changes neither the set nor the requests.
judge-Reconnects :
    (b : Browser) (id : String) (sent ack failures : ℕ) (s : Service)
    → SameRequests s (send_heartbeat b id s)
    → has id s.reconnecting_sessions ≡ false
    → heartbeat_max_consecutive_failures ≤ failures
    → Reconnects id s (judge b id sent ack failures s)
unfolding judge
judge-Reconnects b id sent ack failures s quiet idle_now enough =
    let old = ltb 0 ack && ltb default_heartbeat_interval_ms (b.now - ack) in
    let reached : leb heartbeat_max_consecutive_failures failures ≡ true = ground (arith, enough) in
    rw reached (
      SameRequests-Reconnects id s (if old then send_heartbeat b id s else s)
        (SameRequests-if old s (send_heartbeat b id s) quiet) idle_now)

judge_calm :
    (b : Browser) (id : String) (sent ack failures : ℕ) (s : Service)
    → b.now ≤ ack + default_heartbeat_interval_ms
    → failures ≡ 0
    → sent ≡ b.now
    → judge b id sent ack failures s ≡ s
unfolding judge
judge_calm b id sent ack failures s fresh none_failed now = ground arith

-- On an open channel whose sends throw, the tick after two failures in a row requests the close of the
-- session, once, and marks it as reconnecting.
pub third_failure-Reconnects :
    (b : Browser) (id : String) (c : ℕ) (s : Service)
    → get id s.data_channels ≡ some c
    → is_open (b.ready_state c) ≡ true
    → b.send_throws c ≡ true
    → 2 ≤ get_or_0 id s.heartbeat_consecutive_failures
    → has id s.reconnecting_sessions ≡ false
    → Reconnects id s (heartbeat_tick b id s)
unfolding heartbeat_tick evaluate_heartbeat_health
third_failure-Reconnects b id c s there up throws two idle_now =
    let s' = heartbeat_failed id s in
    let failing = send_fails b id c s' there up throws in
    let count =
      get_or_0-put id (get_or_0 id s.heartbeat_consecutive_failures + 1)
        s.heartbeat_consecutive_failures in
    subst (λ x. Reconnects id s (evaluate_heartbeat_health b id x))
      (sym (send_fails b id c s there up throws))
      (judge-Reconnects b id (get_or_0 id s'.last_heartbeat_sent_at)
        (get_or_0 id s'.last_heartbeat_ack_at) (get_or_0 id s'.heartbeat_consecutive_failures) s'
        (
          ap (λ (x : Service). x.reconnecting_sessions) failing,
          ap (λ (x : Service). x.effects) failing,
        )
        idle_now (omega (arith, count)))

-- On an open channel whose sends do not throw, with an acknowledgement that is
-- not old, a tick sends one heartbeat, resets the failures to 0 and triggers no reconnect.
pub healthy_tick :
    (b : Browser) (id : String) (c : ℕ) (s : Service)
    → get id s.data_channels ≡ some c
    → is_open (b.ready_state c) ≡ true
    → b.send_throws c ≡ false
    → b.now ≤ get_or_0 id s.last_heartbeat_ack_at + default_heartbeat_interval_ms
    → let s' = heartbeat_tick b id s in
      (get_or_0 id s'.heartbeat_consecutive_failures ≡ 0)
      × (s'.reconnecting_sessions ≡ s.reconnecting_sessions)
      × (s'.effects ≡ send_buffer c ∷ s.effects)
unfolding heartbeat_tick evaluate_heartbeat_health
healthy_tick b id c s there up fine fresh =
    let s' = heartbeat_sent b id c s in
    let count = get_or_0-put id 0 s.heartbeat_consecutive_failures in
    let calm =
      ap (evaluate_heartbeat_health b id) (send_succeeds b id c s there up fine)
      ∙ judge_calm b id (get_or_0 id s'.last_heartbeat_sent_at)
          (get_or_0 id s'.last_heartbeat_ack_at) (get_or_0 id s'.heartbeat_consecutive_failures) s'
          fresh count (get_or_0-put id b.now s.last_heartbeat_sent_at) in
    (
      ap (λ (x : Service). get_or_0 id x.heartbeat_consecutive_failures) calm ∙ count,
      ap (λ (x : Service). x.reconnecting_sessions) calm,
      ap (λ (x : Service). x.effects) calm,
    )
