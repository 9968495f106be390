-- ===== src/Framing/Reassembler/Invariant/Steps.antt =====
-- Every part of `pushChunk`, the callback of a timer, and the invariant.
use learning_cuda.Framing.Reassembler.Invariant.Opening.{make_room-Inv, open_message-Inv}
use learning_cuda.Base.{
  ℕ, ◌≤◌, ◌<◌, ◌≡◌, ◌≢◌, refl, sym, ◌∙◌, inl, inr, Option, none, some, List, [], ◌∷◌, arith, ltb,
  ◌==◌, nat_key, Bool-cases, Option-cases, length, length-set, get_elem?,
}
use learning_cuda.JsMap.{get, put}
use learning_cuda.JsMap.Laws.{get-put_self, get-remove}
use learning_cuda.JsMap.Order.{keys-put_old, remove-put}
use learning_cuda.JsMap.Values.{All-get, All-put}
use learning_cuda.Timers.{clear_timer}
use learning_cuda.Framing.Envelope.{Chunk, max_chunks, read_chunk}
use learning_cuda.Framing.Envelope.RoundTrip.{read_chunk_bounds}
use learning_cuda.Framing.Reassembler.{
  InFlightMessage, Reassembler, Pushed, type_error, evict_first, evict_entry, make_room,
  new_message, open_message, complete, with_chunk, settle_message, store_chunk, fill_slot,
  add_chunk, accept_chunk, push_read, push_chunk, fire_timer, fire_armed, time_out,
}
use learning_cuda.Framing.Reassembler.Lookup.{timer_entries-put_old, find_timer}
use learning_cuda.Framing.Reassembler.Invariant.{filled, IsOpen, Inv}
use learning_cuda.Framing.Reassembler.Invariant.Slots.{
  filled-set, filled-le-length, copy_chunks_full,
}
use learning_cuda.Framing.Reassembler.Invariant.Close.{without_message-Inv}

-- The reassembler is left in order, and nothing is thrown.
abbrev pub Keeps : Reassembler × Pushed → Type 0
Keeps (r, p) = Inv r × (p ≢ type_error)

module _ (c : Chunk) (msg : InFlightMessage) (r : Reassembler) (v : Inv r)
    (found : get c.message_id r.in_flight ≡ some msg) where
  found-IsOpen : IsOpen msg
  found-IsOpen = All-get IsOpen c.message_id msg r.in_flight v.entries found

  complete_lem :
      (msg' : InFlightMessage)
      → msg'.timer ≡ msg.timer
      → filled msg'.chunks ≡ length msg'.chunks
      → let r' = record r { in_flight = put c.message_id msg' r.in_flight } in
        Inv (complete c.message_id msg' r').0 × ((complete c.message_id msg' r').1 ≢ type_error)
  unfolding complete clear_timer
  complete_lem msg' same full = (
    rw (remove-put c.message_id msg' r.in_flight, same)
        (without_message-Inv r v c.message_id msg found),
    copy_chunks_full [] msg'.chunks full,
  )

  still_open :
      (msg' : InFlightMessage)
      → msg'.timer ≡ msg.timer
      → IsOpen msg'
      → Inv (record r { in_flight = put c.message_id msg' r.in_flight })
  still_open msg' same o = record {
    order = keys-put_old c.message_id msg' msg r.in_flight found ∙ v.order;
    distinct = v.distinct;
    bounded = v.bounded;
    armed = v.armed ∙ sym (timer_entries-put_old c.message_id msg' msg r.in_flight found same);
    handles = v.handles;
    fresh = v.fresh;
    entries = All-put IsOpen c.message_id msg' r.in_flight o v.entries;
  }

  store_chunk-Keeps : get_elem? msg.chunks c.chunk_index ≡ some none → Keeps (store_chunk c msg r)
  unfolding store_chunk settle_message with_chunk
  store_chunk-Keeps empty =
      let msg' = with_chunk c msg in
      let o = found-IsOpen in
      let grows = filled-set msg.chunks c.chunk_index c.payload empty in
      let same = length-set msg.chunks c.chunk_index (some c.payload) in
      elim (Bool-cases (ltb msg'.received msg'.chunk_count)) [
        | inl more ↦
            rw (more, settle_message)
              (
                still_open msg' refl (record {
                  slots = same ∙ o.slots;
                  counted = omega (arith, o.counted, grows);
                  partial = ground (arith, more);
                  few = o.few;
                }),
                λ e. cc,
              )
        | inr last ↦
            rw (last, settle_message)
              (complete_lem msg' refl (
                ground (
                  arith,
                  o.slots,
                  o.counted,
                  o.partial,
                  grows,
                  same,
                  filled-le-length msg'.chunks,
                )))
      ]

  fill_slot-Keeps :
      (slot : Option (Option (List ℕ)))
      → get_elem? msg.chunks c.chunk_index ≡ slot
      → Keeps (fill_slot slot c msg r)
  unfolding fill_slot
  fill_slot-Keeps (some none) e = store_chunk-Keeps e
  fill_slot-Keeps (some (some old)) e = (v, λ p. cc)
  fill_slot-Keeps none e = (v, λ p. cc)

  add_chunk-Keeps : Keeps (add_chunk c msg r)
  unfolding add_chunk
  add_chunk-Keeps = elim (Bool-cases (msg.chunk_count == c.chunk_count)) [
    | inl same ↦ rw (same, add_chunk) (fill_slot-Keeps (get_elem? msg.chunks c.chunk_index) refl)
    | inr other ↦ rw (other, add_chunk) (v, λ p. cc)
  ]

get-evict_first :
    (k : ℕ) (o : List ℕ) (r : Reassembler)
    → get k r.in_flight ≡ none
    → get k (evict_first o r).in_flight ≡ none
unfolding evict_first evict_entry
get-evict_first k [] r h = h
get-evict_first k (oldest ∷ rest) r h = elim (Option-cases (get oldest r.in_flight)) [
  | inl e ↦ rw e h
  | inr (msg, e) ↦ rw e (ground (arith, get-remove oldest k r.in_flight))
]

get-make_room :
    (k : ℕ) (r : Reassembler) → get k r.in_flight ≡ none → get k (make_room r).in_flight ≡ none
unfolding make_room
get-make_room k r h = ground (arith, get-evict_first k r.in_flight_order r)

accept_chunk-Keeps :
    (c : Chunk) (found : Option InFlightMessage) (r : Reassembler)
    → Inv r
    → get c.message_id r.in_flight ≡ found
    → c.chunk_index < c.chunk_count
    → c.chunk_count ≤ max_chunks
    → Keeps (accept_chunk c found r)
unfolding accept_chunk open_message
accept_chunk-Keeps c (some msg) r v e hi hn = add_chunk-Keeps c msg r v e
accept_chunk-Keeps c none r v e hi hn =
    let room = make_room r in
    let (kept, has_room) = make_room-Inv r v in
    add_chunk-Keeps c (new_message c room) (open_message c room)
      (open_message-Inv c room kept has_room (get-make_room c.message_id r e) hi hn)
      (get-put_self c.message_id (new_message c room) room.in_flight)

push_read-Keeps :
    (buffer : List ℕ) (read : Option Chunk) (r : Reassembler)
    → Inv r
    → read_chunk buffer ≡ read
    → Keeps (push_read read r)
unfolding push_read
push_read-Keeps buffer none r v e = (v, λ p. cc)
push_read-Keeps buffer (some c) r v e =
    let (hi, hn) = read_chunk_bounds buffer c e in
    accept_chunk-Keeps c (get c.message_id r.in_flight) r v refl hi hn

pub push_chunk-Keeps : (r : Reassembler) (buffer : List ℕ) → Inv r → Keeps (push_chunk r buffer)
unfolding push_chunk
push_chunk-Keeps r buffer v = push_read-Keeps buffer (read_chunk buffer) r v refl

fire_armed-Inv :
    (r : Reassembler) (handle : ℕ) (armed : Option ℕ)
    → Inv r
    → get handle r.timers.armed ≡ armed
    → Inv (fire_armed handle armed r)
unfolding fire_armed time_out clear_timer
fire_armed-Inv r handle none v e = v
fire_armed-Inv r handle (some k) v e =
    let (msg, found, same) =
      find_timer handle k r.in_flight (rw v.order v.distinct) (rw (← v.armed) e) in
    rw (found, ← same) (without_message-Inv r v k msg found)

pub fire_timer-Inv : (r : Reassembler) (handle : ℕ) → Inv r → Inv (fire_timer r handle)
unfolding fire_timer
fire_timer-Inv r handle v = fire_armed-Inv r handle (get handle r.timers.armed) v refl
