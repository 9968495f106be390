-- ===== src/Framing/Reassembler/Invariant.antt =====
-- The invariant of the reassembler, over its map, its order list, its timers and the chunks of each message.
pub mod Opening
pub mod Slots
pub mod Close
pub mod Steps
use learning_cuda.Base.{ℕ, suc, ◌≤◌, ◌<◌, ◌≡◌, Option, none, some, List, [], ◌∷◌, length, All}
use learning_cuda.JsMap.{keys, values}
use learning_cuda.JsMap.Order.{Distinct}
use learning_cuda.Framing.Envelope.{max_chunks}
use learning_cuda.Framing.Reassembler.{InFlightMessage, Reassembler, max_in_flight_messages}
use learning_cuda.Framing.Reassembler.Lookup.{timer_entries}

-- The number of slots that are not null.
abbrev pub filled {ℓ} : {A : Type ℓ} → List (Option A) → ℕ
filled [] = 0
filled (none ∷ xs) = filled xs
filled (some x ∷ xs) = suc (filled xs)

-- A message in flight: `received` counts its chunks, and at least one is missing.
pub record IsOpen (msg : InFlightMessage) : Type 0 where
  pub slots : length msg.chunks ≡ msg.chunk_count
  pub counted : msg.received ≡ filled msg.chunks
  pub partial : msg.received < msg.chunk_count
  pub few : msg.chunk_count ≤ max_chunks

pub record Inv (r : Reassembler) : Type 0 where
  pub order : keys r.in_flight ≡ r.in_flight_order
  pub distinct : Distinct r.in_flight_order
  pub bounded : length r.in_flight_order ≤ max_in_flight_messages
  -- the armed timers are those of the messages in flight
  pub armed : r.timers.armed ≡ timer_entries r.in_flight
  pub handles : Distinct (keys r.timers.armed)
  pub fresh : All (λ h. h < r.timers.next) (keys r.timers.armed)
  pub entries : All IsOpen (values r.in_flight)
