-- ===== src/Sessions/Ready.antt =====
-- `waitForTransportReady` of src/front-end/src/infrastructure/connection/webrtc-service.ts, which waits for
-- the data channel and then, for what is left of its time, for SCTP; and the wait for the gathering of ICE
-- candidates.
use learning_cuda.Base.{
  ℕ, ◌-◌, ◌≡◌, ◌≢◌, refl, Bool, true, false, Option, none, some, List, [], ◌∷◌, String,
  if◌then◌else◌, string_key,
}
use learning_cuda.JsMap.{get}
use learning_cuda.Sessions.{ReadyState, Service}
use learning_cuda.Sessions.Waits.{
  Look, Waited, still_waiting, resolved, rejected, wait_for_sctp_connected, Outlasts,
  sctp_wait_ends, OpenWait, waiting, opened, OpenEvent, begin_wait, wait_for_data_channel_open,
}

pub data ReadyError : Type 0 where
  wait_failed : OpenWait → ReadyError
  data_channel_not_found peer_connection_not_found peer_ended : ReadyError

-- The promise of waitForTransportReady.
pub data Ready : Type 0 where
  pending : Ready
  ready : ℕ → Ready
  failed : ReadyError → Ready

-- The checks before the look at `tick`: no transport, or one that is connected, resolves at once.
unfoldable pub begin_sctp_wait : Option Bool → ℕ → List Look → Waited
unfolding wait_for_sctp_connected
begin_sctp_wait none timeout_ms looks = resolved
begin_sctp_wait (some true) timeout_ms looks = resolved
begin_sctp_wait (some false) timeout_ms looks = wait_for_sctp_connected timeout_ms looks

abbrev pub after_sctp : ℕ → Waited → Ready
after_sctp c still_waiting = pending
after_sctp c resolved = ready c
after_sctp c rejected = failed peer_ended

-- What happens during the wait: the data channel's state at its start, its events, the tables and the
-- time when it has opened, and what is seen of SCTP.
pub record Wait : Type 0 where
  pub ready_state : Option ReadyState
  pub events : List OpenEvent
  pub after : Service
  pub elapsed : ℕ
  pub sctp : Option Bool
  pub looks : List Look

unfoldable pub with_channel : ℕ → Wait → Option ℕ → Option ℕ → Ready
unfolding begin_sctp_wait
with_channel timeout_ms w none peer = failed data_channel_not_found
with_channel timeout_ms w (some c) none = failed peer_connection_not_found
with_channel timeout_ms w (some c) (some peer) =
    after_sctp c (begin_sctp_wait w.sctp (timeout_ms - w.elapsed) w.looks)

unfoldable pub after_open : String → ℕ → Wait → OpenWait → Ready
unfolding with_channel
after_open id timeout_ms w waiting = pending
after_open id timeout_ms w opened =
    with_channel timeout_ms w (get id w.after.data_channels) (get id w.after.peer_connections)
after_open id timeout_ms w other = failed (wait_failed other)

unfoldable pub wait_for_transport_ready : String → ℕ → Wait → Ready
unfolding after_open wait_for_data_channel_open begin_wait
wait_for_transport_ready id timeout_ms w =
    after_open id timeout_ms w (wait_for_data_channel_open (begin_wait w.ready_state) w.events)

begin_sctp_wait-ends :
    (sctp : Option Bool) (timeout_ms : ℕ) (looks : List Look)
    → Outlasts timeout_ms looks
    → begin_sctp_wait sctp timeout_ms looks ≢ still_waiting
unfolding begin_sctp_wait
begin_sctp_wait-ends none timeout_ms looks late = λ e. cc (e)
begin_sctp_wait-ends (some true) timeout_ms looks late = λ e. cc (e)
begin_sctp_wait-ends (some false) timeout_ms looks late = sctp_wait_ends timeout_ms looks late

after_sctp-settled : (c : ℕ) (w : Waited) → w ≢ still_waiting → after_sctp c w ≢ pending
after_sctp-settled c still_waiting h = absurd (h refl)
after_sctp-settled c resolved h = λ e. cc (e)
after_sctp-settled c rejected h = λ e. cc (e)

with_channel-settled :
    (timeout_ms : ℕ) (w : Wait) (c peer : Option ℕ)
    → Outlasts (timeout_ms - w.elapsed) w.looks
    → with_channel timeout_ms w c peer ≢ pending
unfolding with_channel
with_channel-settled timeout_ms w none peer late = λ e. cc (e)
with_channel-settled timeout_ms w (some c) none late = λ e. cc (e)
with_channel-settled timeout_ms w (some c) (some peer) late =
    after_sctp-settled c (begin_sctp_wait w.sctp (timeout_ms - w.elapsed) w.looks)
      (begin_sctp_wait-ends w.sctp (timeout_ms - w.elapsed) w.looks late)

after_open-settled :
    (id : String) (timeout_ms : ℕ) (w : Wait) (o : OpenWait)
    → o ≢ waiting
    → Outlasts (timeout_ms - w.elapsed) w.looks
    → after_open id timeout_ms w o ≢ pending
unfolding after_open
after_open-settled id timeout_ms w waiting h late = absurd (h refl)
after_open-settled id timeout_ms w opened h late =
    with_channel-settled timeout_ms w (get id w.after.data_channels)
      (get id w.after.peer_connections) late
after_open-settled id timeout_ms w OpenWait.not_found h late = λ e. cc (e)
after_open-settled id timeout_ms w OpenWait.already_closed h late = λ e. cc (e)
after_open-settled id timeout_ms w OpenWait.closed_while_waiting h late = λ e. cc (e)
after_open-settled id timeout_ms w OpenWait.not_open_after_event h late = λ e. cc (e)
after_open-settled id timeout_ms w OpenWait.open_timeout h late = λ e. cc (e)

after_sctp-ready : (c c' : ℕ) (w : Waited) → after_sctp c w ≡ ready c' → c ≡ c'
after_sctp-ready c c' still_waiting e = cc (e)
after_sctp-ready c c' resolved e = cc (e)
after_sctp-ready c c' rejected e = cc (e)

with_channel-ready :
    (timeout_ms : ℕ) (w : Wait) (c : ℕ) (channel peer : Option ℕ)
    → with_channel timeout_ms w channel peer ≡ ready c
    → (channel ≡ some c) × (peer ≢ none)
unfolding with_channel
with_channel-ready timeout_ms w c none peer e = cc (e)
with_channel-ready timeout_ms w c (some c') none e = cc (e)
with_channel-ready timeout_ms w c (some c') (some peer) e =
    let same = after_sctp-ready c' c (begin_sctp_wait w.sctp (timeout_ms - w.elapsed) w.looks) e in
    (cc (same), λ q. cc (q))

after_open-ready :
    (id : String) (timeout_ms : ℕ) (w : Wait) (o : OpenWait) (c : ℕ)
    → after_open id timeout_ms w o ≡ ready c
    → (o ≡ opened)
      × (get id w.after.data_channels ≡ some c)
      × (get id w.after.peer_connections ≢ none)
unfolding after_open
after_open-ready id timeout_ms w waiting c e = cc (e)
after_open-ready id timeout_ms w opened c e =
    let (channel, peer) =
      with_channel-ready timeout_ms w c (get id w.after.data_channels)
        (get id w.after.peer_connections) e in
    (refl, channel, peer)
after_open-ready id timeout_ms w OpenWait.not_found c e = cc (e)
after_open-ready id timeout_ms w OpenWait.already_closed c e = cc (e)
after_open-ready id timeout_ms w OpenWait.closed_while_waiting c e = cc (e)
after_open-ready id timeout_ms w OpenWait.not_open_after_event c e = cc (e)
after_open-ready id timeout_ms w OpenWait.open_timeout c e = cc (e)

-- Once the wait for the data channel is settled, and a look at SCTP came at or after the end of the time
-- that was left, the wait for the transport is over. And it gives a channel only where the data channel
-- had opened, and then the one that the table holds, with a peer connection beside it.
pub transport_wait_ends :
    (id : String) (timeout_ms : ℕ) (w : Wait)
    → wait_for_data_channel_open (begin_wait w.ready_state) w.events ≢ waiting
    → Outlasts (timeout_ms - w.elapsed) w.looks
    → (wait_for_transport_ready id timeout_ms w ≢ pending)
      × ((c : ℕ)
          → wait_for_transport_ready id timeout_ms w ≡ ready c
          → (wait_for_data_channel_open (begin_wait w.ready_state) w.events ≡ opened)
            × (get id w.after.data_channels ≡ some c)
            × (get id w.after.peer_connections ≢ none))
unfolding wait_for_transport_ready
transport_wait_ends id timeout_ms w settled late =
    let o = wait_for_data_channel_open (begin_wait w.ready_state) w.events in
    (after_open-settled id timeout_ms w o settled late, after_open-ready id timeout_ms w o)

-- waitForIceGatheringComplete: pending, with its listener and its timer, or resolved.
pub data Gathering : Type 0 where
  gathering gathered : Gathering

-- A change of the gathering state, and whether it is 'complete' now; or the timer.
pub data GatheringEvent : Type 0 where
  state_changes : Bool → GatheringEvent
  time_is_over : GatheringEvent

unfoldable pub begin_gathering : Bool → Gathering
begin_gathering complete = if complete then gathered else gathering

unfoldable pub on_gathering_event : Gathering → GatheringEvent → Gathering
on_gathering_event gathered e = gathered
on_gathering_event gathering (state_changes complete) = if complete then gathered else gathering
on_gathering_event gathering time_is_over = gathered

unfoldable pub wait_for_ice_gathering_complete : Gathering → List GatheringEvent → Gathering
unfolding on_gathering_event
wait_for_ice_gathering_complete g [] = g
wait_for_ice_gathering_complete g (e ∷ es) =
    wait_for_ice_gathering_complete (on_gathering_event g e) es
