-- ===== src/Hooks/Tests.antt =====
-- The theorems about the hooks and the toasts at concrete events.
use learning_cuda.Base.{
  ℕ, ◌≡◌, ◌≢◌, ◌≤◌, refl, false, ◌&&◌, some, List, [], ◌∷◌, String, ok, ◌==◌, ◌++◌, arith,
  string_key, length, Result,
}
use learning_cuda.Hooks.AsyncGrpc
use learning_cuda.Hooks.AsyncGrpc.{latest_request_wins}
use learning_cuda.Hooks.HealthPoll.{
  Event, mounts, becomes_hidden, becomes_visible, fires, answers, unmounts, new_poll, run,
  on_answer,
}
use learning_cuda.Hooks.HealthPoll.Intervals.{Sound, polls_while_shown}
use learning_cuda.Hooks.Toasts
use learning_cuda.JsMap.Order.{splice_out}
use learning_cuda.Hooks.Toasts.{ToastItem}
use learning_cuda.Hooks.Toasts.Lasting.{Shown, toasts_never_expire}

-- A second request is made before the first is answered, and only the second answer is taken.
abbrev two_requests : List (AsyncGrpc.Event ℕ)
two_requests =
    AsyncGrpc.refetches
    ∷ AsyncGrpc.refetches
    ∷ AsyncGrpc.answers 2 (ok 7)
    ∷ AsyncGrpc.answers 1 (ok 5)
    ∷ []

second_answer : (AsyncGrpc.run AsyncGrpc.new_async two_requests).value ≡ some 7
unfolding AsyncGrpc.run AsyncGrpc.step AsyncGrpc.new_async
second_answer = refl

latest_request_wins_example :
    AsyncGrpc.Sound
      (AsyncGrpc.answered [] two_requests)
      (AsyncGrpc.run AsyncGrpc.new_async two_requests)
    × ((gen : ℕ) (r : Result String ℕ)
        → gen ≢ (AsyncGrpc.run AsyncGrpc.new_async two_requests).request_gen
        → AsyncGrpc.on_answer gen r (AsyncGrpc.run AsyncGrpc.new_async two_requests)
          ≡ AsyncGrpc.run AsyncGrpc.new_async two_requests)
unfolding AsyncGrpc.new_async AsyncGrpc.step
latest_request_wins_example = latest_request_wins two_requests (omega arith, (omega arith, tt))

abbrev a_visit : List Event
a_visit = mounts ∷ answers 5 1 (ok 1) ∷ becomes_hidden ∷ becomes_visible ∷ fires 2 ∷ unmounts ∷ []

polls_while_shown_example :
    Sound (run new_poll a_visit)
    × ((now gen : ℕ) (r : Result String ℕ)
        → ((gen == (run new_poll a_visit).request_gen) && (run new_poll a_visit).mounted) ≡ false
        → on_answer now gen r (run new_poll a_visit) ≡ run new_poll a_visit)
unfolding new_poll
polls_while_shown_example = polls_while_shown a_visit (refl, tt)

abbrev saved : ToastItem
saved = record { id = "toast-1"; kind = Toasts.success; title = "Saved"; message = "" }

abbrev failed : ToastItem
failed = record { id = "toast-2"; kind = Toasts.failure; title = "Failed"; message = "" }

-- Another toast disappears after its five seconds, and the timer that `saved` never had does nothing.
abbrev later : List Toasts.Event
later = Toasts.fires "toast-2" ∷ Toasts.fires "toast-1" ∷ []

only_the_other_expires :
    (Toasts.run Toasts.no_toasts
      (Toasts.calls failed (Toasts.ms 5000) ∷ Toasts.calls saved Toasts.left_out ∷ later)).shown
    ≡ saved ∷ []
unfolding Toasts.run splice_out
only_the_other_expires = refl

toasts_never_expire_example :
    Shown saved
      (Toasts.run Toasts.no_toasts (
        (Toasts.calls failed (Toasts.ms 5000) ∷ [])
        ++ Toasts.calls saved Toasts.left_out ∷ later)).shown
    × (length
          (Toasts.run Toasts.no_toasts (
            (Toasts.calls failed (Toasts.ms 5000) ∷ [])
            ++ Toasts.calls saved Toasts.left_out ∷ later)).shown
        ≤ 5)
toasts_never_expire_example =
    toasts_never_expire saved (Toasts.calls failed (Toasts.ms 5000) ∷ []) later
      (λ e. absurd (cc ((string_key.same_iff "toast-2" "toast-1").1 e)), tt) tt tt (omega arith)
