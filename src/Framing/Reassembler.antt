-- ===== src/Framing/Reassembler.antt =====
-- `ChunkReassembler` of src/front-end/src/infrastructure/transport/data-channel-framing.ts. The map
-- entry that `msg` aliases is written back under its key; a timer's callback is the message id that
-- it closes over.
pub mod Holding
pub mod Lookup
pub mod Invariant
pub mod Reachable
pub mod Delivery
pub mod Untouched
pub mod Parts
pub mod Soundness
use learning_cuda.Base.{
  ℕ, suc, ◌+◌, Bool, not, Option, none, some, List, [], ◌∷◌, ◌++◌, ltb, leb, ◌==◌, if◌then◌else◌,
  nat_key, length, get_elem?, set, replicate,
}
use learning_cuda.JsMap.{JsMap, get, put, remove}
use learning_cuda.JsMap.Order.{splice_out}
use learning_cuda.Timers.{Timers, idle, set_timer, clear_timer}
use learning_cuda.Framing.Envelope.{Chunk, read_chunk}

abbrev pub max_in_flight_messages : ℕ
max_in_flight_messages = 16

pub record InFlightMessage : Type 0 where
  pub chunks : List (Option (List ℕ))
  pub chunk_count : ℕ
  pub received : ℕ
  pub timer : ℕ

pub record Reassembler : Type 0 where
  pub in_flight : JsMap ℕ InFlightMessage
  -- oldest first
  pub in_flight_order : List ℕ
  pub timers : Timers ℕ

unfoldable pub new_reassembler : Reassembler
unfolding idle
new_reassembler = record { in_flight = []; in_flight_order = []; timers = idle }

-- What `pushChunk` does: it returns null or a message, or throws at the `c!` of a null chunk.
pub data Pushed : Type 0 where
  incomplete : Pushed
  assembled : List ℕ → Pushed
  type_error : Pushed

-- clearTimeout(evicted.timer); this.inFlight.delete(oldest), where the entry is there
evict_entry : ℕ → Option InFlightMessage → Reassembler → Reassembler
evict_entry oldest none r = r
evict_entry oldest (some evicted) r = record r {
  in_flight = remove oldest r.in_flight;
  timers = clear_timer evicted.timer r.timers;
}

evict_first : List ℕ → Reassembler → Reassembler
evict_first [] r = r
evict_first (oldest ∷ rest) r =
    evict_entry oldest (get oldest r.in_flight) (record r { in_flight_order = rest })

-- The oldest message makes room where MAX_IN_FLIGHT_MESSAGES are in flight.
unfoldable pub make_room : Reassembler → Reassembler
unfolding evict_first evict_entry
make_room r =
    if leb max_in_flight_messages (length r.in_flight_order)
    then evict_first r.in_flight_order r
    else r

-- A message with no chunk yet, and its timer.
unfoldable pub new_message : Chunk → Reassembler → InFlightMessage
new_message c r = record {
  chunks = replicate c.chunk_count none;
  chunk_count = c.chunk_count;
  received = 0;
  timer = r.timers.next;
}

unfoldable pub open_message : Chunk → Reassembler → Reassembler
unfolding new_message set_timer
open_message c r = record {
  in_flight = put c.message_id (new_message c r) r.in_flight;
  in_flight_order = r.in_flight_order ++ c.message_id ∷ [];
  timers = set_timer c.message_id r.timers;
}

-- The loop that copies the chunks, one after the other, into the result.
unfoldable pub copy_chunks : List ℕ → List (Option (List ℕ)) → Pushed
copy_chunks out [] = assembled out
copy_chunks out (none ∷ rest) = type_error
copy_chunks out (some c ∷ rest) = copy_chunks (out ++ c) rest

-- The last chunk of a message is in: its timer and its entry go, and its bytes are the result.
unfoldable pub complete : ℕ → InFlightMessage → Reassembler → Reassembler × Pushed
unfolding clear_timer copy_chunks
complete message_id msg r = (
  record {
    in_flight = remove message_id r.in_flight;
    in_flight_order = splice_out message_id r.in_flight_order;
    timers = clear_timer msg.timer r.timers;
  },
  copy_chunks [] msg.chunks,
)

-- msg.chunks[chunkIndex] = …; msg.received++
unfoldable pub with_chunk : Chunk → InFlightMessage → InFlightMessage
with_chunk c msg = record msg {
  chunks = set msg.chunks c.chunk_index (some c.payload);
  received = suc msg.received;
}

-- The entry after the write, and whether the message is whole.
unfoldable pub settle_message : ℕ → InFlightMessage → Reassembler → Reassembler × Pushed
settle_message message_id msg r =
    let r' = record r { in_flight = put message_id msg r.in_flight } in
    if ltb msg.received msg.chunk_count then (r', incomplete) else complete message_id msg r'

unfoldable pub store_chunk : Chunk → InFlightMessage → Reassembler → Reassembler × Pushed
store_chunk c msg r = settle_message c.message_id (with_chunk c msg) r

-- A slot that is not null has its chunk already; a slot out of range is undefined, which is not null.
unfoldable pub fill_slot :
    Option (Option (List ℕ)) → Chunk → InFlightMessage → Reassembler → Reassembler × Pushed
fill_slot (some none) c msg r = store_chunk c msg r
fill_slot (some (some old)) c msg r = (r, incomplete)
fill_slot none c msg r = (r, incomplete)

unfoldable pub add_chunk : Chunk → InFlightMessage → Reassembler → Reassembler × Pushed
unfolding fill_slot
add_chunk c msg r =
    if not (msg.chunk_count == c.chunk_count)
    then (r, incomplete)
    else fill_slot (get_elem? msg.chunks c.chunk_index) c msg r

-- The message of the chunk, opened where it is not in flight.
unfoldable pub accept_chunk : Chunk → Option InFlightMessage → Reassembler → Reassembler × Pushed
accept_chunk c (some msg) r = add_chunk c msg r
accept_chunk c none r =
    let room = make_room r in add_chunk c (new_message c room) (open_message c room)

unfoldable pub push_read : Option Chunk → Reassembler → Reassembler × Pushed
push_read none r = (r, incomplete)
push_read (some c) r = accept_chunk c (get c.message_id r.in_flight) r

unfoldable pub push_chunk : Reassembler → List ℕ → Reassembler × Pushed
unfolding push_read accept_chunk
push_chunk r buffer = push_read (read_chunk buffer) r

-- The callback of a message's timer.
time_out : ℕ → Option InFlightMessage → Reassembler → Reassembler
time_out message_id none r = r
time_out message_id (some m) r = record r {
  in_flight = remove message_id r.in_flight;
  in_flight_order = splice_out message_id r.in_flight_order;
}

fire_armed : ℕ → Option ℕ → Reassembler → Reassembler
fire_armed handle none r = r
fire_armed handle (some message_id) r =
    time_out message_id (get message_id r.in_flight)
      (record r { timers = clear_timer handle r.timers })

-- CHUNK_ASSEMBLY_TIMEOUT_MS after it was set, an armed timer runs its callback, once.
unfoldable pub fire_timer : Reassembler → ℕ → Reassembler
unfolding fire_armed time_out
fire_timer r handle = fire_armed handle (get handle r.timers.armed) r
