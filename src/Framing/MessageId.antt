-- ===== src/Framing/MessageId.antt =====
-- `nextMessageId` of src/front-end/src/infrastructure/transport/data-channel-framing.ts: the counter
-- that numbers the messages of one page.
use learning_cuda.Base.{ℕ, zero, suc, ◌+◌, ◌%◌, ◌^◌, ◌<◌, ◌≡◌, ◌≢◌, arith}

-- (_nextMessageId + 1) >>> 0: the new value of the counter, which is also the result.
unfoldable pub next_message_id : ℕ → ℕ
next_message_id last = (last + 1) % 2 ^ 32

-- The counter after n more calls.
pub after_calls : ℕ → ℕ → ℕ
after_calls zero last = last
after_calls (suc n) last = next_message_id (after_calls n last)

after_calls-mod : (n last : ℕ) → last < 2 ^ 32 → after_calls n last ≡ (last + n) % 2 ^ 32
unfolding after_calls next_message_id
after_calls-mod zero last h = omega arith
after_calls-mod (suc n) last h = omega (arith, after_calls-mod n last h)

-- A call returns a uint32, and two calls with fewer than 2 ^ 32 calls between them return two
-- different message ids.
pub message_ids_differ :
    (last m n : ℕ)
    → last < 2 ^ 32
    → m < n
    → n < m + 2 ^ 32
    → (after_calls m last < 2 ^ 32) × (after_calls m last ≢ after_calls n last)
message_ids_differ last m n h lo hi = (
  omega (arith, after_calls-mod m last h),
  λ e. omega (arith, e, after_calls-mod m last h, after_calls-mod n last h),
)
