-- ===== src/Wiring.antt =====
-- Where the sessions of src/front-end/src/infrastructure/connection/webrtc-service.ts and the control
-- channel of src/front-end/src/infrastructure/transport/control-channel-service.ts meet: the listener that
-- the one calls with every change of a session's control channel is the other's `onChannelChange`, which
-- asks the first for another open channel.
mod Tests
use learning_cuda.Base.{
  ℕ, ◌≡◌, ◌≢◌, refl, sym, ap, subst, ◌∙◌, Bool, true, false, Option, none, some, List, [], ◌∷◌,
  String, string_key, nat_key, inl, inr, All, Option-cases, if◌then◌else◌, arith, Bool-cases,
}
use learning_cuda.JsMap.{JsMap, get, remove, values, keys}
use learning_cuda.JsMap.Order.{Distinct}
use learning_cuda.JsMap.Laws.{get-remove_self, get-remove_ne}
use learning_cuda.Pending.Invariant.{Inv}
use learning_cuda.ControlChannel
use learning_cuda.ControlChannel.{Control, closed_before_response, on_channel_change}
use learning_cuda.ControlChannel.Closing.{close_rejects_all}
use learning_cuda.Sessions.{ReadyState, is_open, Effect, control_changed, Service}
use learning_cuda.Sessions.Status.{first_open, get_any_open_control_data_channel}
use learning_cuda.Sessions.Cleanup.{forget, cleanup_session}

-- The browser's states of the channels, as both services see them.
pub record Channels : Type 0 where
  pub ready_state : ℕ → ReadyState
  pub send_throws : ℕ → List ℕ → Bool

abbrev pub browser_of : Channels → ControlChannel.Browser
browser_of ch = record { is_open = λ c. is_open (ch.ready_state c); send_throws = ch.send_throws }

-- The control channel's listener is called.
unfoldable pub on_control_changed : Channels → Service → Option ℕ → Control → Control
unfolding on_channel_change get_any_open_control_data_channel
on_control_changed ch s channel control =
    on_channel_change (browser_of ch) (get_any_open_control_data_channel ch.ready_state s) channel
      control

-- The listeners hear that the session has no control channel any more, where it had one.
unfoldable pub tell_control : Channels → Service → Option ℕ → Control → Control
unfolding on_control_changed
tell_control ch s none control = control
tell_control ch s (some c) control = on_control_changed ch s none control

-- A session is cleaned up; its listeners hear of it where it had a control channel.
unfoldable pub close_and_tell : Channels → String → Service → Control → Service × Control
unfolding cleanup_session tell_control
close_and_tell ch id s control =
    let s' = cleanup_session id s in (s', tell_control ch s' (get id s.control_channels) control)

first_open-none_open :
    (ready_state : ℕ → ReadyState) (cs : List ℕ)
    → All (λ c. is_open (ready_state c) ≡ false) cs
    → first_open ready_state cs ≡ none
unfolding first_open
first_open-none_open ready_state [] a = refl
first_open-none_open ready_state (c ∷ cs) a = rw a.0 (first_open-none_open ready_state cs a.1)

-- The control channels of all sessions but one are not open.
abbrev pub OthersClosed : (ℕ → ReadyState) → String → JsMap String ℕ → Type 0
OthersClosed ready_state id [] = Unit
OthersClosed ready_state id ((j, c) ∷ m) =
    (id ≢ j → is_open (ready_state c) ≡ false) × OthersClosed ready_state id m

closed_values :
    (ready_state : ℕ → ReadyState) (id : String) (m : JsMap String ℕ)
    → OthersClosed ready_state id m
    → All (λ c. is_open (ready_state c) ≡ false) (values (remove id m))
unfolding remove
closed_values ready_state id [] a = tt
closed_values ready_state id ((j, c) ∷ m) a = elim (Bool-cases (string_key.same j id)) [
  | inl hit ↦ rw hit (closed_values ready_state id m a.1)
  | inr miss ↦ rw miss (
    a.0 (λ q. cc ((string_key.same_iff j id).1 (sym q), miss)),
    closed_values ready_state id m a.1,
  )
]

no_fallback :
    (ch : Channels) (id : String) (c : ℕ) (s : Service)
    → get id s.control_channels ≡ some c
    → OthersClosed ch.ready_state id s.control_channels
    → get_any_open_control_data_channel ch.ready_state (cleanup_session id s) ≡ none
unfolding get_any_open_control_data_channel cleanup_session forget
no_fallback ch id c s there others =
    rw (there, forget)
      (first_open-none_open ch.ready_state (values (remove id s.control_channels))
        (closed_values ch.ready_state id s.control_channels others))

-- A control channel service that gave up: what it has left, after the state with the pending requests.
abbrev pub GaveUp : Control → Control → Type 0
GaveUp before after =
    (after.channel ≡ none)
    × (after.queue ≡ [])
    × (after.desk.pending ≡ [])
    × ((h : ℕ) (request : String) → get h after.desk.timers.armed ≢ some request)
    × ((request : String) (h : ℕ)
        → get request before.desk.pending ≡ some h
        → get request after.desk.settled ≡ some closed_before_response)

-- When a session with a control channel is cleaned up and no other session's control channel is open,
-- the control channel service, if it has a channel, drops it: nothing stays in its queue, no request
-- is pending, no timer of one is armed, and every request that was pending is rejected.
pub last_session_rejects :
    (ch : Channels) (id : String) (c current : ℕ) (s : Service) (control : Control)
    → get id s.control_channels ≡ some c
    → OthersClosed ch.ready_state id s.control_channels
    → control.channel ≡ some current
    → Inv control.desk
    → GaveUp control (close_and_tell ch id s control).1
unfolding close_and_tell tell_control on_control_changed
last_session_rejects ch id c current s control there others open_now v =
    subst (GaveUp control)
      (sym (
        ap (λ o. tell_control ch (cleanup_session id s) o control) there
        ∙ ap (λ f. on_channel_change (browser_of ch) f none control)
            (no_fallback ch id c s there others)))
      (close_rejects_all (browser_of ch) current control open_now v)
