-- ===== src/Hooks/Toasts.antt =====
-- The toasts of src/front-end/src/presentation/context/toast-context.tsx. The id of a toast, which is made of
-- the time and of a random number, is an argument.
pub mod Lasting
use learning_cuda.Base.{
  ℕ, ◌-◌, List, [], ◌∷◌, ◌++◌, String, Bool, false, ◌||◌, if◌then◌else◌, string_key, ltb, length,
  drop,
}
use learning_cuda.JsMap.Order.{splice_out}

pub data Kind : Type 0 where
  success failure warning info : Kind

pub record ToastItem : Type 0 where
  pub id : String
  pub kind : Kind
  pub title : String
  pub message : String

-- The toasts that are shown, and the ids of those that an armed timer will remove.
pub record Toasts : Type 0 where
  pub shown : List ToastItem
  pub timers : List String

-- A duration as it is passed: left out, null, or a number of milliseconds.
pub data Duration : Type 0 where
  left_out null : Duration
  ms : ℕ → Duration

-- .slice(-5)
unfoldable pub last_five : List ToastItem → List ToastItem
last_five ts = drop (length ts - 5) ts

-- A default parameter takes the place of what is left out, but not of null.
abbrev pub or_default : Duration → Duration → Duration
or_default left_out default_value = default_value
or_default null default_value = null
or_default (ms n) default_value = ms n

-- duration !== null && duration > 0, and the timer that is set then
abbrev pub with_timer : String → Duration → List String → List String
with_timer id (ms n) timers = if ltb 0 n then id ∷ timers else timers
with_timer id d timers = timers

unfoldable pub push_toast : ToastItem → Duration → Toasts → Toasts
unfolding last_five
push_toast t duration s = record {
  shown = last_five (s.shown ++ t ∷ []);
  timers = with_timer t.id (or_default duration (ms 7000)) s.timers;
}

abbrev is_armed : String → List String → Bool
is_armed id [] = false
is_armed id (j ∷ ids) = string_key.same j id || is_armed id ids

-- success, error, warning and info of createToastApi
unfoldable pub call_api : ToastItem → Duration → Toasts → Toasts
unfolding push_toast
call_api t duration s = push_toast t (or_default duration null) s

-- current.filter((item) => item.id !== id)
unfoldable pub without_toast : String → List ToastItem → List ToastItem
without_toast id [] = []
without_toast id (t ∷ ts) =
    let rest = without_toast id ts in if string_key.same t.id id then rest else t ∷ rest

unfoldable pub dismiss_toast : String → Toasts → Toasts
unfolding without_toast
dismiss_toast id s = record s { shown = without_toast id s.shown }

-- The handler of the timer that was set for a toast; a handle that is not armed does nothing.
unfoldable pub expire_toast : String → Toasts → Toasts
unfolding splice_out without_toast
expire_toast id s =
    if is_armed id s.timers
    then record { shown = without_toast id s.shown; timers = splice_out id s.timers }
    else s

-- Calls of the four methods, clicks on a toast, and timers that run out.
pub data Event : Type 0 where
  calls : ToastItem → Duration → Event
  clicks fires : String → Event

unfoldable pub step : Toasts → Event → Toasts
unfolding call_api dismiss_toast expire_toast
step s (calls t duration) = call_api t duration s
step s (clicks id) = dismiss_toast id s
step s (fires id) = expire_toast id s

unfoldable pub run : Toasts → List Event → Toasts
unfolding step
run s [] = s
run s (e ∷ es) = run (step s e) es

abbrev pub no_toasts : Toasts
no_toasts = record { shown = []; timers = [] }
