-- ===== src/Sessions/Cleanup.antt =====
-- `cleanupSession` of src/front-end/src/infrastructure/connection/webrtc-service.ts: what is left of a
-- session, and what is kept of the others.
use learning_cuda.Base.{
  ℕ, ◌≡◌, ◌≢◌, refl, Bool, Option, none, some, List, ◌∷◌, String, string_key, nat_key, inl, inr,
  Option-cases,
}
use learning_cuda.JsMap.{JsMap, get, remove}
use learning_cuda.JsMap.Laws.{get-remove_self, get-remove_ne}
use learning_cuda.Timers.{Timers, clear_timer}
use learning_cuda.Sessions.{
  Session, Effect, close_peer, close_channel, abort, control_changed, Service,
}

-- const x = map.get(id); if (x) { …; map.delete(id); }
unfoldable pub forget {ℓ} : {V : Type ℓ} → String → JsMap String V → JsMap String V
forget id m = elim (get id m) [ none ↦ m | some v ↦ remove id m ]

abbrev pub stop_interval : Option ℕ → Timers String → Timers String
stop_interval none t = t
stop_interval (some h) t = clear_timer h t

-- The effects of what is found: the call that is made on it.
abbrev pub tell : (ℕ → Effect) → Option ℕ → List Effect → List Effect
tell call none effects = effects
tell call (some x) effects = call x ∷ effects

-- The control channel is closed, and the listeners are told that there is none.
abbrev pub tell_listeners : String → Option ℕ → List Effect → List Effect
tell_listeners id none effects = effects
tell_listeners id (some c) effects = control_changed id none ∷ close_channel c ∷ effects

unfoldable pub cleanup_session : String → Service → Service
unfolding forget
cleanup_session id s = record s {
  sessions = remove id s.sessions;
  heartbeat_timers = forget id s.heartbeat_timers;
  timers = stop_interval (get id s.heartbeat_timers) s.timers;
  pending_ice_candidates = remove id s.pending_ice_candidates;
  session_negotiated = remove id s.session_negotiated;
  last_heartbeat_sent_at = remove id s.last_heartbeat_sent_at;
  last_heartbeat_ack_at = remove id s.last_heartbeat_ack_at;
  heartbeat_consecutive_failures = remove id s.heartbeat_consecutive_failures;
  reconnecting_sessions = remove id s.reconnecting_sessions;
  poll_controllers = forget id s.poll_controllers;
  poll_cursors = remove id s.poll_cursors;
  peer_connections = forget id s.peer_connections;
  data_channels = forget id s.data_channels;
  detection_channels = forget id s.detection_channels;
  stats_channels = forget id s.stats_channels;
  control_channels = forget id s.control_channels;
  remote_streams = remove id s.remote_streams;
  remote_stream_handlers = remove id s.remote_stream_handlers;
  effects = tell_listeners id (get id s.control_channels) (
      tell close_channel (get id s.stats_channels) (
        tell close_channel (get id s.detection_channels) (
          tell close_channel (get id s.data_channels) (
            tell close_peer (get id s.peer_connections)
              (tell abort (get id s.poll_controllers) s.effects)))));
}

-- What the service holds of one session.
pub record View : Type 0 where
  pub session : Option Session
  pub peer_connection : Option ℕ
  pub data_channel : Option ℕ
  pub detection_channel : Option ℕ
  pub stats_channel : Option ℕ
  pub control_channel : Option ℕ
  pub remote_stream_handler : Option ℕ
  pub remote_stream : Option ℕ
  pub poll_controller : Option ℕ
  pub poll_cursor : Option ℕ
  pub ice_candidates : Option (List String)
  pub negotiated : Option Bool
  pub heartbeat_timer : Option ℕ
  pub sent_at : Option ℕ
  pub ack_at : Option ℕ
  pub failures : Option ℕ
  pub reconnecting : Option Bool

unfoldable pub view : String → Service → View
view id s = record {
  session = get id s.sessions;
  peer_connection = get id s.peer_connections;
  data_channel = get id s.data_channels;
  detection_channel = get id s.detection_channels;
  stats_channel = get id s.stats_channels;
  control_channel = get id s.control_channels;
  remote_stream_handler = get id s.remote_stream_handlers;
  remote_stream = get id s.remote_streams;
  poll_controller = get id s.poll_controllers;
  poll_cursor = get id s.poll_cursors;
  ice_candidates = get id s.pending_ice_candidates;
  negotiated = get id s.session_negotiated;
  heartbeat_timer = get id s.heartbeat_timers;
  sent_at = get id s.last_heartbeat_sent_at;
  ack_at = get id s.last_heartbeat_ack_at;
  failures = get id s.heartbeat_consecutive_failures;
  reconnecting = get id s.reconnecting_sessions;
}

unfoldable pub empty_view : View
empty_view = record {
  session = none;
  peer_connection = none;
  data_channel = none;
  detection_channel = none;
  stats_channel = none;
  control_channel = none;
  remote_stream_handler = none;
  remote_stream = none;
  poll_controller = none;
  poll_cursor = none;
  ice_candidates = none;
  negotiated = none;
  heartbeat_timer = none;
  sent_at = none;
  ack_at = none;
  failures = none;
  reconnecting = none;
}

module _ {ℓ} {V : Type ℓ} where
  get-forget_self : (id : String) (m : JsMap String V) → get id (forget id m) ≡ none
  unfolding forget
  get-forget_self id m = elim (Option-cases (get id m)) [
    | inl absent ↦ rw (absent, forget) absent
    | inr (v, there) ↦ rw (there, forget) (get-remove_self id m)
  ]

  get-forget_ne : (id j : String) (m : JsMap String V) → id ≢ j → get j (forget id m) ≡ get j m
  unfolding forget
  get-forget_ne id j m ne = elim (Option-cases (get id m)) [
    | inl absent ↦ rw (absent, forget) refl
    | inr (v, there) ↦ rw (there, forget) (get-remove_ne id j m ne)
  ]

-- `cleanupSession` leaves nothing of its session in any of the 17 tables, and leaves what they hold of
-- every other session as it was.
pub cleanup_forgets_session :
    (id : String) (s : Service)
    → (view id (cleanup_session id s) ≡ empty_view)
      × ((other : String) → id ≢ other → view other (cleanup_session id s) ≡ view other s)
unfolding view cleanup_session empty_view
cleanup_forgets_session id s = (
  simp (get-forget_self, get-remove_self) refl,
  λ other ne. simp (get-forget_ne, get-remove_ne, ne) refl,
)
