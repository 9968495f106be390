-- ===== src/Sessions/Status.antt =====
-- The connection status, the channels that callers ask for, and the handlers that set the status, in
-- src/front-end/src/infrastructure/connection/webrtc-service.ts.
use learning_cuda.Base.{
  ℕ, ◌≡◌, ◌≢◌, refl, ◌↔◌, ◌⊎◌, Bool, true, false, not, ◌||◌, Option, none, some, List, [], ◌∷◌,
  String, if◌then◌else◌, string_key, inl, inr, Bool-cases, arith, All,
}
use learning_cuda.JsMap.{JsMap, get, put, has, values}
use learning_cuda.Sessions.{
  ConnectionState, connected, disconnected, connecting, error, ReadyState, channel_closed, is_open,
  is_connecting, Session, give_stream, Service,
}
use learning_cuda.Sessions.Heartbeat.{Browser, start_heartbeat, trigger_reconnect}

-- channels.some((channel) => …)
unfoldable pub any : (ℕ → Bool) → List ℕ → Bool
any p [] = false
any p (c ∷ cs) = p c || any p cs

abbrev pub is_empty {ℓ} : {A : Type ℓ} → List A → Bool
is_empty [] = true
is_empty (x ∷ xs) = false

abbrev is_error : ConnectionState → Bool
is_error error = true
is_error _ = false

abbrev is_connected : ConnectionState → Bool
is_connected connected = true
is_connected _ = false

-- The tests of getConnectionStatus, in their order.
unfoldable status_of : ConnectionState → Bool → Bool → Bool → ConnectionState
status_of last opens tries has_sessions =
    if is_error last
    then error
    else if is_connected last
    then connected
    else if opens
    then connected
    else if tries || has_sessions
    then connecting
    else disconnected

-- getConnectionStatus's state
unfoldable pub get_connection_status : (ℕ → ReadyState) → Service → ConnectionState
unfolding status_of any
get_connection_status ready_state s =
    status_of s.connection_state (any (λ c. is_open (ready_state c)) (values s.data_channels))
      (any (λ c. is_connecting (ready_state c)) (values s.data_channels))
      (not (is_empty s.sessions))

unfoldable pub first_open : (ℕ → ReadyState) → List ℕ → Option ℕ
first_open ready_state [] = none
first_open ready_state (c ∷ cs) =
    let rest = first_open ready_state cs in if is_open (ready_state c) then some c else rest

unfoldable pub get_any_open_control_data_channel : (ℕ → ReadyState) → Service → Option ℕ
unfolding first_open
get_any_open_control_data_channel ready_state s = first_open ready_state (values s.control_channels)

unfoldable pub is_data_channel_open : (ℕ → ReadyState) → String → Service → Bool
is_data_channel_open ready_state id s = elim (get id s.data_channels) [
  | none ↦ false
  | some c ↦ is_open (ready_state c)
]

abbrev pub with_stats : String → Option ℕ → Service → Service × Option ℕ
with_stats id none s = (s, none)
with_stats id (some c) s = (record s { stats_channels = put id c s.stats_channels }, some c)

-- ensureStatsDataChannel; `created` is what createDataChannel gives
unfoldable pub ensure_stats_data_channel : Option ℕ → String → Service → Service × Option ℕ
ensure_stats_data_channel created id s = elim (get id s.stats_channels) [
  | some c ↦ (s, some c)
  | none ↦ if has id s.peer_connections then with_stats id created s else (s, none)
]

-- dataChannel.onopen, after the wait for SCTP
unfoldable pub on_data_channel_ready : Browser → String → ℕ → Service → Service
unfolding start_heartbeat
on_data_channel_ready b id c s =
    if is_open (b.ready_state c)
    then start_heartbeat b id
        (record s { connection_state = connected; last_request = some "Data channel ready" })
    else s

-- dataChannel.onmessage
unfoldable pub on_data_channel_message : Browser → String → Bool → Service → Service
on_data_channel_message b id is_text s = record s {
  last_heartbeat_ack_at = put id b.now s.last_heartbeat_ack_at;
  connection_state = connected;
  last_request = some (if is_text then "Data channel message" else "Binary frame received");
}

abbrev pub is_closed : ReadyState → Bool
is_closed channel_closed = true
is_closed _ = false

-- dataChannel.onerror
unfoldable pub on_data_channel_error : Browser → String → ℕ → Service → Service
unfolding trigger_reconnect
on_data_channel_error b id c s =
    if is_closed (b.ready_state c)
    then trigger_reconnect id (record s { connection_state = disconnected })
    else s

-- dataChannel.onclose
unfoldable pub on_data_channel_close : String → Service → Service
unfolding trigger_reconnect
on_data_channel_close id s =
    let s' = record s { connection_state = disconnected } in
    if has id s.sessions then trigger_reconnect id s' else s'

-- peerConnection.ontrack
unfoldable pub on_remote_track : String → ℕ → Service → Service
on_remote_track id stream s = record s {
  remote_streams = put id stream s.remote_streams;
  effects = elim (get id s.remote_stream_handlers) [
    | none ↦ s.effects
    | some f ↦ give_stream stream ∷ s.effects
  ];
  connection_state = connected;
  last_request = some "Remote media track";
}

-- RTCPeerConnection.connectionState and iceConnectionState
pub data PeerState : Type 0 where
  peer_new peer_connecting peer_connected peer_completed peer_disconnected peer_failed peer_closed :
      PeerState

unfoldable pub on_connection_state_change : PeerState → Service → Service
on_connection_state_change peer_connected s = record s { connection_state = connected }
on_connection_state_change peer_failed s = record s { connection_state = error }
on_connection_state_change peer_disconnected s = record s { connection_state = disconnected }
on_connection_state_change peer_closed s = record s { connection_state = disconnected }
on_connection_state_change _ s = s

unfoldable pub on_ice_connection_state_change : PeerState → Service → Service
on_ice_connection_state_change peer_failed s = record s { connection_state = error }
on_ice_connection_state_change peer_disconnected s = record s { connection_state = disconnected }
on_ice_connection_state_change peer_closed s = record s { connection_state = disconnected }
on_ice_connection_state_change _ s = s

first_open-found :
    (ready_state : ℕ → ReadyState) (cs : List ℕ) (c : ℕ)
    → first_open ready_state cs ≡ some c
    → (is_open (ready_state c) ≡ true) × (any (λ x. is_open (ready_state x)) cs ≡ true)
unfolding first_open any
first_open-found ready_state [] c h = cc (h)
first_open-found ready_state (x ∷ xs) c h = ground (arith, first_open-found ready_state xs c)

first_open-none :
    (ready_state : ℕ → ReadyState) (cs : List ℕ)
    → first_open ready_state cs ≡ none
    → All (λ c. is_open (ready_state c) ≡ false) cs
unfolding first_open
first_open-none ready_state [] h = tt
first_open-none ready_state (x ∷ xs) h = elim (Bool-cases (is_open (ready_state x))) [
  | inl up ↦ ground (arith)
  | inr down ↦ (down, first_open-none ready_state xs (ground (arith)))
]

-- The control channel that is handed out is open; and where none is handed out, none in the table is
-- open.
pub any_open_control_channel :
    (ready_state : ℕ → ReadyState) (s : Service)
    → ((c : ℕ)
        → get_any_open_control_data_channel ready_state s ≡ some c
        → is_open (ready_state c) ≡ true)
      × (get_any_open_control_data_channel ready_state s ≡ none
          → All (λ c. is_open (ready_state c) ≡ false) (values s.control_channels))
unfolding get_any_open_control_data_channel
any_open_control_channel ready_state s = (
  λ c h. (first_open-found ready_state (values s.control_channels) c h).0,
  first_open-none ready_state (values s.control_channels),
)

status_connected :
    (last : ConnectionState) (opens tries has_sessions : Bool)
    → last ≢ error
    → (status_of last opens tries has_sessions ≡ connected) ↔ ((last ≡ connected) ⊎ (opens ≡ true))
unfolding status_of
status_connected connected opens tries has_sessions fine = (λ e. inl refl, λ e. refl)
status_connected error opens tries has_sessions fine = absurd (fine refl)
status_connected disconnected opens tries has_sessions fine = ground arith
status_connected connecting opens tries has_sessions fine = ground arith

status_disconnected :
    (last : ConnectionState) (opens tries : Bool) (sessions : JsMap String Session)
    → last ≢ error
    → (status_of last opens tries (not (is_empty sessions)) ≡ disconnected)
      ↔ ((last ≢ connected) × (opens ≡ false) × (tries ≡ false) × (sessions ≡ []))
unfolding status_of
status_disconnected connected opens tries sessions fine = (λ e. cc (e), λ e. absurd (e.0 refl))
status_disconnected error opens tries sessions fine = absurd (fine refl)
status_disconnected disconnected opens tries sessions fine = ground arith
status_disconnected connecting opens tries sessions fine = ground arith

-- Without an error, the status is connected exactly where the last event said so or a data channel is
-- open; and it is disconnected exactly where neither holds, no data channel is connecting and there is
-- no session.
pub connection_status :
    (ready_state : ℕ → ReadyState) (s : Service)
    → s.connection_state ≢ error
    → let opens = any (λ c. is_open (ready_state c)) (values s.data_channels) in
      let tries = any (λ c. is_connecting (ready_state c)) (values s.data_channels) in
      ((get_connection_status ready_state s ≡ connected)
        ↔ ((s.connection_state ≡ connected) ⊎ (opens ≡ true)))
      × ((get_connection_status ready_state s ≡ disconnected) ↔ (
          (s.connection_state ≢ connected) × (opens ≡ false) × (tries ≡ false) × (s.sessions ≡ [])))
unfolding get_connection_status
connection_status ready_state s fine =
    let last = s.connection_state in
    let opens = any (λ c. is_open (ready_state c)) (values s.data_channels) in
    let tries = any (λ c. is_connecting (ready_state c)) (values s.data_channels) in
    (
      status_connected last opens tries (not (is_empty s.sessions)) fine,
      status_disconnected last opens tries s.sessions fine,
    )
