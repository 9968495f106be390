-- ===== src/Pending.antt =====
-- The table of requests that wait for an answer, which the control channel and the frame transport
-- both keep: `pending` of src/front-end/src/infrastructure/transport/control-channel-service.ts and
-- `pendingResponses` of src/front-end/src/infrastructure/transport/webrtc-frame-transport.ts. A promise
-- is its request id, and the calls of its `resolve` and `reject` are logged.
pub mod Invariant
pub mod Accounts
pub mod Known
pub mod Failed
pub mod Ledger
pub mod Refines
use learning_cuda.Base.{ℕ, zero, suc, ◌+◌, Option, none, some, List, [], ◌∷◌, Key, nat_key}
use learning_cuda.JsMap.{JsMap, get, put, remove}
use learning_cuda.Timers.{Timers, idle, set_timer, clear_timer}

pub record Desk (K : Type 0) (R : Type 0) : Type 0 where
  -- the timer of each request
  pub pending : JsMap K ℕ
  -- what the armed timers are for
  pub timers : Timers K
  -- the calls of `resolve` and `reject`, the last one first
  pub settled : List (K × R)

-- The loop over the entries: clearTimeout(entry.timer), entry.reject(error)
unfoldable pub clear_all : {K : Type 0} → JsMap K ℕ → Timers K → Timers K
clear_all [] t = t
clear_all ((k, timer) ∷ m) t = clear_all m (clear_timer timer t)

unfoldable pub log_all : {K R : Type 0} → R → JsMap K ℕ → List (K × R) → List (K × R)
log_all r [] log = log
log_all r ((k, timer) ∷ m) log = log_all r m ((k, r) ∷ log)

module _ {K R : Type 0} ⦃e : Key K⦄ where
  unfoldable pub empty_desk : Desk K R
  unfolding idle
  empty_desk = record { pending = []; timers = idle; settled = [] }

  -- setTimeout, and pending.set(id, { resolve, reject, timer })
  unfoldable pub register : K → Desk K R → Desk K R
  unfolding set_timer
  register k d = record d { pending = put k d.timers.next d.pending; timers = set_timer k d.timers }

  -- An entry is settled: its timer is cleared, it leaves the table, and its promise gets the outcome.
  unfoldable pub settle_entry : K → R → Option ℕ → Desk K R → Desk K R
  settle_entry k r none d = d
  settle_entry k r (some timer) d = record {
    pending = remove k d.pending;
    timers = clear_timer timer d.timers;
    settled = (k, r) ∷ d.settled;
  }

  -- The lookup of an id, and its entry settled where it is there.
  unfoldable pub settle : K → R → Desk K R → Desk K R
  unfolding settle_entry
  settle k r d = settle_entry k r (get k d.pending) d

  -- A timer's callback: it deletes the id, and rejects.
  unfoldable pub expire_armed : ℕ → R → Option K → Desk K R → Desk K R
  expire_armed h r none d = d
  expire_armed h r (some k) d = record {
    pending = remove k d.pending;
    timers = clear_timer h d.timers;
    settled = (k, r) ∷ d.settled;
  }

  unfoldable pub expire : ℕ → R → Desk K R → Desk K R
  unfolding expire_armed
  expire h r d = expire_armed h r (get h d.timers.armed) d

  unfoldable pub fail_all : R → Desk K R → Desk K R
  unfolding clear_all log_all
  fail_all r d = record {
    pending = [];
    timers = clear_all d.pending d.timers;
    settled = log_all r d.pending d.settled;
  }
