-- ===== src/Sessions/Waits.antt =====
-- The waits of src/front-end/src/infrastructure/connection/webrtc-service.ts: for the SCTP transport, which
-- is looked at again and again, and for a data channel to open, which is told by events.
use learning_cuda.Base.{
  ℕ, ◌≤◌, ◌≡◌, ◌≢◌, refl, sym, subst, ◌⊎◌, inl, inr, Bool, Option, none, some, List, [], ◌∷◌,
  if◌then◌else◌, leb, arith,
}
use learning_cuda.Sessions.{
  ReadyState, channel_connecting, channel_open, channel_closing, channel_closed, is_open,
}

-- What one look at the peer connection finds, and how long the wait has lasted then.
pub record Look : Type 0 where
  -- connectionState is 'closed' or 'failed'
  pub peer_ended : Bool
  -- sctp.state === 'connected'
  pub sctp_connected : Bool
  pub elapsed : ℕ

pub data Waited : Type 0 where
  still_waiting resolved rejected : Waited

-- One look; it waits on where nothing is decided.
unfoldable pub tick : ℕ → Look → Waited
tick timeout_ms l =
    if l.peer_ended
    then rejected
    else if l.sctp_connected
    then resolved
    else if leb timeout_ms l.elapsed
    then resolved
    else still_waiting

abbrev pub first_decided : Waited → Waited → Waited
first_decided still_waiting later = later
first_decided resolved later = resolved
first_decided rejected later = rejected

-- The looks, one after the other, up to the first that decides.
unfoldable pub wait_for_sctp_connected : ℕ → List Look → Waited
unfolding tick
wait_for_sctp_connected timeout_ms [] = still_waiting
wait_for_sctp_connected timeout_ms (l ∷ ls) =
    first_decided (tick timeout_ms l) (wait_for_sctp_connected timeout_ms ls)

-- One of the looks comes at or after the timeout.
abbrev pub Outlasts : ℕ → List Look → Type 0
Outlasts timeout_ms [] = ⊥
Outlasts timeout_ms (l ∷ ls) = (timeout_ms ≤ l.elapsed) ⊎ Outlasts timeout_ms ls

late_look : (timeout_ms : ℕ) (l : Look) → timeout_ms ≤ l.elapsed → tick timeout_ms l ≢ still_waiting
unfolding tick
late_look timeout_ms l late = ground arith

decided_stays : (w later : Waited) → w ≢ still_waiting → first_decided w later ≢ still_waiting
decided_stays still_waiting later h = absurd (h refl)
decided_stays resolved later h = λ e. cc (e)
decided_stays rejected later h = λ e. cc (e)

later_decides : (w later : Waited) → later ≢ still_waiting → first_decided w later ≢ still_waiting
later_decides still_waiting later h = h
later_decides resolved later h = λ e. cc (e)
later_decides rejected later h = λ e. cc (e)

-- The wait for SCTP ends with the first look at or after the timeout, if not before.
pub sctp_wait_ends :
    (timeout_ms : ℕ) (ls : List Look)
    → Outlasts timeout_ms ls
    → wait_for_sctp_connected timeout_ms ls ≢ still_waiting
unfolding wait_for_sctp_connected
sctp_wait_ends timeout_ms [] late = absurd late
sctp_wait_ends timeout_ms (l ∷ ls) (inl late) =
    decided_stays (tick timeout_ms l) (wait_for_sctp_connected timeout_ms ls)
      (late_look timeout_ms l late)
sctp_wait_ends timeout_ms (l ∷ ls) (inr late) =
    later_decides (tick timeout_ms l) (wait_for_sctp_connected timeout_ms ls)
      (sctp_wait_ends timeout_ms ls late)

-- waitForDataChannelOpen: what the promise is, and while it is pending, the timer and the listeners.
pub data OpenWait : Type 0 where
  waiting opened not_found already_closed closed_while_waiting not_open_after_event open_timeout :
      OpenWait

pub data OpenEvent : Type 0 where
  open_event : ReadyState → OpenEvent
  close_event timeout_event : OpenEvent

unfoldable pub begin_wait : Option ReadyState → OpenWait
begin_wait none = not_found
begin_wait (some channel_open) = opened
begin_wait (some channel_closing) = already_closed
begin_wait (some channel_closed) = already_closed
begin_wait (some channel_connecting) = waiting

-- An event of a pending wait; afterwards its timer and its listeners are gone.
unfoldable pub on_wait_event : OpenEvent → OpenWait
on_wait_event (open_event ready_state) =
    if is_open ready_state then opened else not_open_after_event
on_wait_event close_event = closed_while_waiting
on_wait_event timeout_event = open_timeout

unfoldable pub wait_step : OpenWait → OpenEvent → OpenWait
unfolding on_wait_event
wait_step waiting e = on_wait_event e
wait_step w e = w

unfoldable pub wait_for_data_channel_open : OpenWait → List OpenEvent → OpenWait
unfolding wait_step
wait_for_data_channel_open w [] = w
wait_for_data_channel_open w (e ∷ es) = wait_for_data_channel_open (wait_step w e) es

settled_step : (w : OpenWait) (e : OpenEvent) → w ≢ waiting → wait_step w e ≡ w
unfolding wait_step
settled_step waiting e h = absurd (h refl)
settled_step opened e h = refl
settled_step not_found e h = refl
settled_step already_closed e h = refl
settled_step closed_while_waiting e h = refl
settled_step not_open_after_event e h = refl
settled_step open_timeout e h = refl

settled_stays :
    (w : OpenWait) (es : List OpenEvent) → w ≢ waiting → wait_for_data_channel_open w es ≡ w
unfolding wait_for_data_channel_open
settled_stays w [] h = refl
settled_stays w (e ∷ es) h =
    subst (λ x. wait_for_data_channel_open x es ≡ w) (sym (settled_step w e h))
      (settled_stays w es h)

event_settles : (e : OpenEvent) → on_wait_event e ≢ waiting
unfolding on_wait_event
event_settles (open_event r) = ground arith
event_settles close_event = λ e. cc (e)
event_settles timeout_event = λ e. cc (e)

step_settles : (w : OpenWait) (e : OpenEvent) → wait_step w e ≢ waiting
unfolding wait_step
step_settles waiting e = event_settles e
step_settles opened e = λ h. cc (h)
step_settles not_found e = λ h. cc (h)
step_settles already_closed e = λ h. cc (h)
step_settles closed_while_waiting e = λ h. cc (h)
step_settles not_open_after_event e = λ h. cc (h)
step_settles open_timeout e = λ h. cc (h)

-- The wait for a data channel is settled by the first event, if not at once, and no later event, the
-- timeout among them, changes what it was settled with.
pub first_event_settles :
    (start : Option ReadyState) (e : OpenEvent) (es : List OpenEvent)
    → let first = wait_for_data_channel_open (begin_wait start) (e ∷ []) in
      (first ≢ waiting) × (wait_for_data_channel_open (begin_wait start) (e ∷ es) ≡ first)
unfolding wait_for_data_channel_open
first_event_settles start e es =
    let done = step_settles (begin_wait start) e in
    (done, settled_stays (wait_step (begin_wait start) e) es done)
