-- ===== src/Sessions/Heartbeat/Elsewhere.antt =====
-- Creating a session, and the tick of a heartbeat, against the intervals
-- (src/front-end/src/infrastructure/connection/webrtc-service.ts).
use learning_cuda.Base.{
  ℕ, ◌-◌, ◌&&◌, Bool, true, false, not, Option, none, some, String, ok, err, if◌then◌else◌, ltb,
  leb, string_key,
}
use learning_cuda.JsMap.{JsMap, get, put, has}
use learning_cuda.Timers.{Timers}
use learning_cuda.Sessions.{Service, is_open, Mode}
use learning_cuda.Sessions.Creation.{
  Platform, Options, not_supported, not_initialized, blank_source, create_peer_connection,
  create_data_channel, has_media, with_handler, add_session, add_control_channel,
  add_detection_channel, add_channels, open_channels, is_blank, create_with_peer, create_session,
}
use learning_cuda.Sessions.Heartbeat.{
  Browser, close_session, trigger_reconnect, get_or_0, send_heartbeat_on, send_heartbeat, judge,
  evaluate_heartbeat_health, heartbeat_tick, heartbeat_failed, heartbeat_sent,
  default_heartbeat_interval_ms, heartbeat_max_consecutive_failures, heartbeat_stale_threshold_ms,
}

-- What holds of the table of intervals and of the armed timers still holds.
abbrev pub Same : Service → Service → Type 1
Same s s' =
    (P : JsMap String ℕ → Timers String → Type 0)
    → P s.heartbeat_timers s.timers
    → P s'.heartbeat_timers s'.timers

Same-if : (c : Bool) (s x y : Service) → Same s x → Same s y → Same s (if c then x else y)
Same-if true s x y p q = p
Same-if false s x y p q = q

with_handler-Same : (id : String) (h : Option ℕ) (s : Service) → Same s (with_handler id h s)
with_handler-Same id none s P v = v
with_handler-Same id (some f) s P v = v

add_session-Same :
    (id source_id : String) (o : Options) (peer : ℕ) (s : Service)
    → Same s (add_session id source_id o peer s)
unfolding add_session
add_session-Same id source_id o peer s P v = with_handler-Same id o.on_remote_stream _ P v

add_control_channel-Same :
    (p : Platform) (id : String) (c : Option ℕ) (s : Service)
    → Same s (add_control_channel p id c s)
unfolding add_control_channel
add_control_channel-Same p id none s P v = v
add_control_channel-Same p id (some c) s P v = v

add_detection_channel-Same :
    (id : String) (c : Option ℕ) (s : Service) → Same s (add_detection_channel id c s)
unfolding add_detection_channel
add_detection_channel-Same id none s P v = v
add_detection_channel-Same id (some c) s P v = v

add_channels-Same :
    (p : Platform) (id : String) (mode : Mode) (c : ℕ) (s : Service)
    → Same s (add_channels p id mode c s)
unfolding add_channels
add_channels-Same p id mode c s P v =
    let opened = record s { data_channels = put id c s.data_channels } in
    let controlled = add_control_channel p id (create_data_channel p "control") opened in
    let kept = add_control_channel-Same p id (create_data_channel p "control") opened P v in
    Same-if (has_media mode) controlled
      (add_detection_channel id (create_data_channel p "detections") controlled) controlled
      (add_detection_channel-Same id (create_data_channel p "detections") controlled) (λ Q w. w) P
      kept

open_channels-Same :
    (p : Platform) (id : String) (mode : Mode) (peer : ℕ) (c : Option ℕ) (s : Service)
    → Same s (open_channels p id mode peer c s).0
unfolding open_channels
open_channels-Same p id mode peer none s P v = v
open_channels-Same p id mode peer (some c) s P v = add_channels-Same p id mode c s P v

create_with_peer-Same :
    (p : Platform) (id source_id : String) (o : Options) (peer : Option ℕ) (s : Service)
    → Same s (create_with_peer p id source_id o peer s).0
unfolding create_with_peer
create_with_peer-Same p id source_id o none s P v = v
create_with_peer-Same p id source_id o (some peer) s P v = by_channel o.use_data_channel
  where
    by_channel :
        (wanted : Bool)
        → let added = add_session id source_id o peer s in
          let made =
            (if wanted
              then open_channels p id o.mode peer (create_data_channel p "process-image") added
              else (added, ok tt)) in
          P made.0.heartbeat_timers made.0.timers
    by_channel true =
        open_channels-Same p id o.mode peer (create_data_channel p "process-image")
          (add_session id source_id o peer s) P (add_session-Same id source_id o peer s P v)
    by_channel false = add_session-Same id source_id o peer s P v

pub create_session-Same :
    (p : Platform) (id source_id : String) (o : Options) (s : Service)
    → Same s (create_session p id source_id o s).0
unfolding create_session
create_session-Same p id source_id o s P v =
    by_checks p.is_supported p.is_initialized (is_blank p source_id)
  where
    by_checks :
        (supported initialized blank : Bool)
        → let made =
            (if not supported
              then (s, err not_supported)
              else if not initialized
              then (s, err not_initialized)
              else if blank
              then (s, err blank_source)
              else create_with_peer p id (p.trim source_id) o (create_peer_connection p) s) in
          P made.0.heartbeat_timers made.0.timers
    by_checks false initialized blank = v
    by_checks true false blank = v
    by_checks true true true = v
    by_checks true true false =
        create_with_peer-Same p id (p.trim source_id) o (create_peer_connection p) s P v

send_heartbeat_on-Same :
    (b : Browser) (id : String) (c : Option ℕ) (s : Service) → Same s (send_heartbeat_on b id c s)
unfolding send_heartbeat_on
send_heartbeat_on-Same b id none s = λ P v. v
send_heartbeat_on-Same b id (some c) s =
    Same-if (not (is_open (b.ready_state c))) s s _ (λ P v. v)
      (Same-if (b.send_throws c) s (heartbeat_failed id s) (heartbeat_sent b id c s) (λ P v. v)
        (λ P v. v))

send_heartbeat-Same : (b : Browser) (id : String) (s : Service) → Same s (send_heartbeat b id s)
unfolding send_heartbeat
send_heartbeat-Same b id s = send_heartbeat_on-Same b id (get id s.data_channels) s

trigger_reconnect-Same : (id : String) (s : Service) → Same s (trigger_reconnect id s)
unfolding trigger_reconnect close_session
trigger_reconnect-Same id s = Same-if (has id s.reconnecting_sessions) s s _ (λ P v. v) (λ P v. v)

judge-Same :
    (b : Browser) (id : String) (last_sent_at last_ack_at failures : ℕ) (s : Service)
    → Same s (judge b id last_sent_at last_ack_at failures s)
unfolding judge
judge-Same b id last_sent_at last_ack_at failures s P v =
    let resent =
      if ltb 0 last_ack_at && ltb default_heartbeat_interval_ms (b.now - last_ack_at)
      then send_heartbeat b id s
      else s in
    let kept =
      Same-if (ltb 0 last_ack_at && ltb default_heartbeat_interval_ms (b.now - last_ack_at)) s
        (send_heartbeat b id s) s (send_heartbeat-Same b id s) (λ Q w. w) P v in
    Same-if (leb heartbeat_max_consecutive_failures failures) resent (trigger_reconnect id resent)
      (if ltb 0 last_sent_at && ltb heartbeat_stale_threshold_ms (b.now - last_sent_at)
        then trigger_reconnect id resent
        else resent)
      (trigger_reconnect-Same id resent)
      (Same-if (ltb 0 last_sent_at && ltb heartbeat_stale_threshold_ms (b.now - last_sent_at))
        resent (trigger_reconnect id resent) resent (trigger_reconnect-Same id resent) (λ Q w. w))
      P kept

pub heartbeat_tick-Same : (b : Browser) (id : String) (s : Service) → Same s (heartbeat_tick b id s)
unfolding heartbeat_tick evaluate_heartbeat_health
heartbeat_tick-Same b id s P v =
    let sent = send_heartbeat b id s in
    judge-Same b id (get_or_0 id sent.last_heartbeat_sent_at)
      (get_or_0 id sent.last_heartbeat_ack_at) (get_or_0 id sent.heartbeat_consecutive_failures)
      sent P (send_heartbeat-Same b id s P v)
