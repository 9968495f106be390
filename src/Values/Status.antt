-- ===== src/Values/Status.antt =====
-- `ConnectionStatus` and `ConnectionInfo` of
-- src/front-end/src/domain/value-objects/connection-status.ts and connection-info.ts. A date is the number
-- of milliseconds that getTime gives.
use learning_cuda.Base.{
  ℕ, suc, ◌+◌, ◌-◌, ◌*◌, ◌/◌, ◌≤◌, ◌<◌, ◌≡◌, ◌↔◌, refl, ap, Bool, true, false, ◌&&◌, Option, none,
  some, String, if◌then◌else◌, string_key, ◌==◌, ==_iff, ltb, arith, inl, inr, Bool-cases,
}

pub data ConnectionState : Type 0 where
  connected disconnected connecting error : ConnectionState

pub record ConnectionStatus : Type 0 where
  pub state : ConnectionState
  pub last_request : Option String
  pub last_request_time : Option ℕ

unfoldable pub update_last_request : String → ℕ → ConnectionStatus → ConnectionStatus
update_last_request request now s = record s {
  last_request = some request;
  last_request_time = some now;
}

unfoldable pub update_state : ConnectionState → ConnectionStatus → ConnectionStatus
update_state new_state s = record s { state = new_state }

-- === of two states
unfoldable pub same_state : ConnectionState → ConnectionState → Bool
same_state connected connected = true
same_state disconnected disconnected = true
same_state connecting connecting = true
same_state error error = true
same_state a b = false

abbrev pub create : ConnectionState → Option String → Option ℕ → ConnectionStatus
create state last_request last_request_time = record {
  state = state;
  last_request = last_request;
  last_request_time = last_request_time;
}

-- '' and null show as 'N/A'
unfoldable pub get_last_request_display : ConnectionStatus → String
get_last_request_display s = elim s.last_request [
  | none ↦ "N/A"
  | some request ↦ if string_key.same request "" then "N/A" else request
]

abbrev pub is_connected : ConnectionStatus → Bool
is_connected s = same_state s.state connected

abbrev pub is_disconnected : ConnectionStatus → Bool
is_disconnected s = same_state s.state disconnected

abbrev pub is_connecting : ConnectionStatus → Bool
is_connecting s = same_state s.state connecting

abbrev pub has_error : ConnectionStatus → Bool
has_error s = same_state s.state error

-- === of what may be null or undefined
abbrev pub same_text : Option String → Option String → Bool
same_text none none = true
same_text (some a) (some b) = string_key.same a b
same_text a b = false

abbrev pub same_time : Option ℕ → Option ℕ → Bool
same_time none none = true
same_time (some a) (some b) = a == b
same_time a b = false

unfoldable pub equals : ConnectionStatus → ConnectionStatus → Bool
unfolding same_state
equals a b =
    same_state a.state b.state
    && (same_text a.last_request b.last_request
        && same_time a.last_request_time b.last_request_time)

same_state_iff : (a b : ConnectionState) → (same_state a b ≡ true) ↔ (a ≡ b)
unfolding same_state
same_state_iff connected connected = (λ e. refl, λ e. refl)
same_state_iff connected disconnected = (λ e. cc (e), λ e. cc (e))
same_state_iff connected connecting = (λ e. cc (e), λ e. cc (e))
same_state_iff connected error = (λ e. cc (e), λ e. cc (e))
same_state_iff disconnected connected = (λ e. cc (e), λ e. cc (e))
same_state_iff disconnected disconnected = (λ e. refl, λ e. refl)
same_state_iff disconnected connecting = (λ e. cc (e), λ e. cc (e))
same_state_iff disconnected error = (λ e. cc (e), λ e. cc (e))
same_state_iff connecting connected = (λ e. cc (e), λ e. cc (e))
same_state_iff connecting disconnected = (λ e. cc (e), λ e. cc (e))
same_state_iff connecting connecting = (λ e. refl, λ e. refl)
same_state_iff connecting error = (λ e. cc (e), λ e. cc (e))
same_state_iff error connected = (λ e. cc (e), λ e. cc (e))
same_state_iff error disconnected = (λ e. cc (e), λ e. cc (e))
same_state_iff error connecting = (λ e. cc (e), λ e. cc (e))
same_state_iff error error = (λ e. refl, λ e. refl)

same_text_iff : (a b : Option String) → (same_text a b ≡ true) ↔ (a ≡ b)
same_text_iff none none = (λ e. refl, λ e. refl)
same_text_iff none (some b) = (λ e. cc (e), λ e. cc (e))
same_text_iff (some a) none = (λ e. cc (e), λ e. cc (e))
same_text_iff (some a) (some b) =
    (λ e. ap some ((string_key.same_iff a b).0 e), λ e. (string_key.same_iff a b).1 (cc (e)))

same_time_iff : (a b : Option ℕ) → (same_time a b ≡ true) ↔ (a ≡ b)
same_time_iff none none = (λ e. refl, λ e. refl)
same_time_iff none (some b) = (λ e. cc (e), λ e. cc (e))
same_time_iff (some a) none = (λ e. cc (e), λ e. cc (e))
same_time_iff (some a) (some b) = (λ e. ap some ((==_iff a b).0 e), λ e. (==_iff a b).1 (cc (e)))

and_true : (a b : Bool) → (a && b) ≡ true → (a ≡ true) × (b ≡ true)
and_true true b e = (refl, e)
and_true false b e = cc (e)

and_intro : {a b : Bool} → a ≡ true → b ≡ true → (a && b) ≡ true
and_intro s t = rw (s, t) refl

-- Two connection statuses are equal for `equals` exactly where they have the same state, last request and
-- time of it.
pub equals_iff : (a b : ConnectionStatus) → (equals a b ≡ true) ↔ (a ≡ b)
unfolding equals
equals_iff a b = (
  λ e.
      let (s, r) = and_true (same_state a.state b.state) _ e in
      let (t, u) = and_true (same_text a.last_request b.last_request) _ r in
      let states = (same_state_iff a.state b.state).0 s in
      let requests = (same_text_iff a.last_request b.last_request).0 t in
      let times = (same_time_iff a.last_request_time b.last_request_time).0 u in
      λ i. record { state = states i; last_request = requests i; last_request_time = times i },
  λ e. and_intro ((same_state_iff a.state b.state).1 (ap (λ (s : ConnectionStatus). s.state) e)) (
      and_intro
        ((same_text_iff a.last_request b.last_request).1
          (ap (λ (s : ConnectionStatus). s.last_request) e))
        ((same_time_iff a.last_request_time b.last_request_time).1
          (ap (λ (s : ConnectionStatus). s.last_request_time) e))),
)

-- What getLastRequestTimeDisplay shows, with its unit; 'N/A' without a time, and a negative number of
-- seconds where the clock was set back since then.
pub data Shown : Type 0 where
  not_available : Shown
  seconds minutes hours minus_seconds : ℕ → Shown

unfoldable pub show_seconds : ℕ → Shown
show_seconds s =
    let m = s / 60 in if ltb s 60 then seconds s else if ltb m 60 then minutes m else hours (m / 60)

unfoldable pub get_last_request_time_display : ℕ → ConnectionStatus → Shown
unfolding show_seconds
get_last_request_time_display now s = elim s.last_request_time [
  | none ↦ not_available
  | some time ↦
      if ltb now time
      then minus_seconds ((time - now + 999) / 1000)
      else show_seconds ((now - time) / 1000)
]

-- A shown time covers the milliseconds since then: so many whole units, and not one more.
abbrev pub Covers : ℕ → Shown → Type 0
Covers diff not_available = ⊥
Covers diff (minus_seconds n) = ⊥
Covers diff (seconds n) = (n < 60) × (n * 1000 ≤ diff) × (diff < suc n * 1000)
Covers diff (minutes n) = (n < 60) × (1 ≤ n) × (n * 60000 ≤ diff) × (diff < suc n * 60000)
Covers diff (hours n) = (1 ≤ n) × (n * 3600000 ≤ diff) × (diff < suc n * 3600000)

show_seconds-Covers : (diff : ℕ) → Covers diff (show_seconds (diff / 1000))
unfolding show_seconds
show_seconds-Covers diff = elim (Bool-cases (ltb (diff / 1000) 60)) [
  | inl few ↦ rw few (ground arith, omega arith, omega arith)
  | inr more ↦ elim (Bool-cases (ltb (diff / 1000 / 60) 60)) [
    | inl some_minutes ↦
        rw (more, some_minutes) (ground arith, ground arith, omega arith, omega arith)
    | inr many ↦ rw (more, many) (ground arith, omega arith, omega arith)
  ]
]

-- The time since the last request is shown in seconds below a minute, in minutes below an hour and in
-- hours from then on, as the whole units that have passed.
pub shown_time-Covers :
    (now time : ℕ) (s : ConnectionStatus)
    → s.last_request_time ≡ some time
    → time ≤ now
    → Covers (now - time) (get_last_request_time_display now s)
unfolding get_last_request_time_display
shown_time-Covers now time s e past = rw (e, not_before) (show_seconds-Covers (now - time))
  where
    not_before : ltb now time ≡ false
    not_before = ground (arith, past)

-- ConnectionInfo
pub data ConnectionType : Type 0 where
  transport grpc webrtc : ConnectionType

pub record ConnectionInfo : Type 0 where
  pub type : ConnectionType
  pub status : ConnectionStatus
  pub label : String

-- === of two types
unfoldable pub same_type : ConnectionType → ConnectionType → Bool
same_type transport transport = true
same_type grpc grpc = true
same_type webrtc webrtc = true
same_type a b = false

unfoldable pub create_info : ConnectionType → ConnectionStatus → String → Option ConnectionInfo
create_info type status label =
    if string_key.same label ""
    then none
    else some (record { type = type; status = status; label = label })

unfoldable pub update_status : ConnectionStatus → ConnectionInfo → Option ConnectionInfo
unfolding create_info
update_status new_status i = create_info i.type new_status i.label

unfoldable pub equals_info : ConnectionInfo → ConnectionInfo → Bool
unfolding equals same_type
equals_info a b =
    same_type a.type b.type && (equals a.status b.status && string_key.same a.label b.label)

unfoldable pub get_state_display : ConnectionState → String
get_state_display connected = "Connected"
get_state_display disconnected = "Disconnected"
get_state_display connecting = "Connecting..."
get_state_display error = "Error"

unfoldable pub get_state_color : ConnectionState → String
get_state_color connected = "#66ff66"
get_state_color disconnected = "#ff6666"
get_state_color connecting = "#ffaa00"
get_state_color error = "#ff6666"
