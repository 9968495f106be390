-- ===== src/Timers.antt =====
-- The browser's timers (`setTimeout`, `setInterval`): the handles given out so far, and the armed
-- timers with what each of them is for.
use learning_cuda.Base.{ℕ, suc, nat_key, []}
use learning_cuda.JsMap.{JsMap, put, remove}

pub record Timers {ℓ} (A : Type ℓ) : Type ℓ where
  pub next : ℕ
  pub armed : JsMap ℕ A

module _ {ℓ} {A : Type ℓ} where
  -- Handles are positive, so a handle counts as true in a condition.
  unfoldable pub idle : Timers A
  idle = record { next = 1; armed = [] }

  unfoldable pub set_timer : A → Timers A → Timers A
  set_timer a t = record { next = suc t.next; armed = put t.next a t.armed }

  unfoldable pub clear_timer : ℕ → Timers A → Timers A
  clear_timer h t = record t { armed = remove h t.armed }
