-- ===== src/Hooks/HealthPoll.antt =====
-- `useHealthMonitor` of src/front-end/src/presentation/hooks/useHealthMonitor.ts: its check, and the interval
-- that polls while the page is visible. A request and its abort controller are named by the request's
-- number.
pub mod Intervals
use learning_cuda.Base.{
  ℕ, zero, suc, ◌≡◌, ◌≢◌, ◌⊎◌, refl, sym, ap, subst, ◌∙◌, Bool, true, false, not, ◌||◌, ◌&&◌,
  Option, none, some, List, [], ◌∷◌, String, Result, ok, err, ◌==◌, ==_iff, if◌then◌else◌, nat_key,
  arith, inl, inr, Bool-cases, Option-cases,
}
use learning_cuda.JsMap.{JsMap, get, put, remove, has}
use learning_cuda.JsMap.Laws.{same_refl}
use learning_cuda.Timers.{Timers, idle, set_timer, clear_timer}
use learning_cuda.Hooks.AsyncGrpc.{contains}

pub record Poll : Type 0 where
  -- the state of the hook; a response is its status
  pub response : Option ℕ
  pub loading : Bool
  pub error : Option String
  pub last_checked : Option ℕ
  -- the references
  pub aborted : List ℕ
  pub request_gen : ℕ
  pub interval : Option ℕ
  -- mountedRef, which is also whether the effect has its listener
  pub mounted : Bool
  -- document.visibilityState === 'visible', and the browser's intervals
  pub visible : Bool
  pub timers : Timers Bool

unfoldable pub new_poll : Poll
unfolding idle
new_poll = record {
  response = none;
  loading = false;
  error = none;
  last_checked = none;
  aborted = [];
  request_gen = 0;
  interval = none;
  mounted = false;
  visible = true;
  timers = idle;
}

-- AcceleratorHealthStatus.HEALTHY is 1
unfoldable pub is_healthy : Poll → Bool
is_healthy s = elim s.response [ none ↦ false | some status ↦ status == 1 ]

-- abortRef.current?.abort()
unfoldable pub abort_current : Poll → Poll
abort_current s = record s { aborted = s.request_gen ∷ s.aborted }

unfoldable pub check : Poll → Poll
unfolding abort_current
check s = record (abort_current s) { request_gen = suc s.request_gen; loading = true; error = none }

unfoldable pub take_answer : ℕ → Result String ℕ → Poll → Poll
take_answer now (ok status) s = record s { response = some status; last_checked = some now }
take_answer now (err message) s = record s { error = some message }

-- The `finally`, with whether the request is the latest and the hook is mounted.
unfoldable pub finish : Bool → Poll → Poll
finish true s = record s { loading = false }
finish false s = s

unfoldable pub on_answer : ℕ → ℕ → Result String ℕ → Poll → Poll
unfolding take_answer finish
on_answer now gen r s =
    let latest = gen == s.request_gen in
    finish (latest && s.mounted)
      (if contains gen s.aborted || not (latest && s.mounted) then s else take_answer now r s)

unfoldable pub clear_handle : Option ℕ → Timers Bool → Timers Bool
clear_handle none t = t
clear_handle (some h) t = clear_timer h t

unfoldable pub clear_polling : Poll → Poll
unfolding clear_handle
clear_polling s = record s { interval = none; timers = clear_handle s.interval s.timers }

unfoldable pub set_polling : Poll → Poll
unfolding set_timer
set_polling s = record s { interval = some s.timers.next; timers = set_timer true s.timers }

unfoldable pub start_polling : Poll → Poll
unfolding clear_polling set_polling
start_polling s =
    let cleared = clear_polling s in if s.visible then set_polling cleared else cleared

unfoldable pub mount : Poll → Poll
unfolding check start_polling
mount s =
    let mounted = record s { mounted = true } in
    if s.visible then start_polling (check mounted) else mounted

unfoldable pub unmount : Poll → Poll
unfolding clear_polling abort_current
unmount s = abort_current (clear_polling (record s { mounted = false }))

unfoldable pub on_visibility_change : Poll → Poll
unfolding clear_polling abort_current check start_polling
on_visibility_change s =
    if s.visible then start_polling (check s) else abort_current (clear_polling s)

-- The page becomes visible or hidden; the listener is there while the hook is mounted.
unfoldable pub change_visibility : Bool → Poll → Poll
unfolding on_visibility_change
change_visibility visible s =
    let changed = record s { visible = visible } in
    if s.mounted then on_visibility_change changed else changed

-- An interval fires, where it is armed.
unfoldable pub on_interval : ℕ → Poll → Poll
unfolding check
on_interval h s = if has h s.timers.armed then check s else s

pub data Event : Type 0 where
  mounts unmounts : Event
  becomes_visible becomes_hidden : Event
  fires : ℕ → Event
  answers : ℕ → ℕ → Result String ℕ → Event

unfoldable pub step : Poll → Event → Poll
unfolding mount unmount change_visibility on_interval on_answer
step s mounts = mount s
step s unmounts = unmount s
step s becomes_visible = change_visibility true s
step s becomes_hidden = change_visibility false s
step s (fires h) = on_interval h s
step s (answers now gen r) = on_answer now gen r s

unfoldable pub run : Poll → List Event → Poll
unfolding step
run s [] = s
run s (e ∷ es) = run (step s e) es

-- The effect runs again only after its cleanup.
abbrev pub AreFitting : Poll → List Event → Type 0
AreFitting s [] = Unit
AreFitting s (mounts ∷ es) = (s.mounted ≡ false) × AreFitting (step s mounts) es
AreFitting s (e ∷ es) = AreFitting (step s e) es
