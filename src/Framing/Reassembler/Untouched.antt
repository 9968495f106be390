-- ===== src/Framing/Reassembler/Untouched.antt =====
-- What the traffic of other messages does to the entry of one message id.
use learning_cuda.Base.{
  ℕ, ◌≡◌, ◌≢◌, refl, ◌∙◌, ◌⊎◌, inl, inr, Option, none, some, List, [], ◌∷◌, arith, Bool-cases,
  Option-cases, nat_key, length, get_elem?, ltb, ◌==◌, leb,
}
use learning_cuda.JsMap.{get, put}
use learning_cuda.JsMap.Laws.{get-remove, get-put_ne, get-remove_ne}
use learning_cuda.Framing.Envelope.{Chunk}
use learning_cuda.Framing.Reassembler.{
  InFlightMessage, Reassembler, make_room, evict_first, evict_entry, new_message, open_message,
  complete, with_chunk, settle_message, store_chunk, fill_slot, add_chunk, accept_chunk, fire_timer,
  fire_armed, time_out,
}

-- A chunk of another message leaves the entry of `id` alone, or takes it out to make room.
module _ (id : ℕ) where
  get-complete :
      (k : ℕ) (msg : InFlightMessage) (r : Reassembler)
      → k ≢ id
      → get id (complete k msg r).0.in_flight ≡ get id r.in_flight
  unfolding complete
  get-complete k msg r h = get-remove_ne k id r.in_flight h

  get-settle_message :
      (k : ℕ) (msg : InFlightMessage) (r : Reassembler)
      → k ≢ id
      → get id (settle_message k msg r).0.in_flight ≡ get id r.in_flight
  unfolding settle_message
  get-settle_message k msg r h =
      let r' = record r { in_flight = put k msg r.in_flight } in
      let kept = get-put_ne k id msg r.in_flight h in
      elim (Bool-cases (ltb msg.received msg.chunk_count)) [
        | inl more ↦ rw (more, settle_message) kept
        | inr last ↦ rw (last, settle_message) (get-complete k msg r' h ∙ kept)
      ]

  get-fill_slot :
      (slot : Option (Option (List ℕ))) (c : Chunk) (msg : InFlightMessage) (r : Reassembler)
      → c.message_id ≢ id
      → get id (fill_slot slot c msg r).0.in_flight ≡ get id r.in_flight
  unfolding fill_slot store_chunk
  get-fill_slot (some none) c msg r h = get-settle_message c.message_id (with_chunk c msg) r h
  get-fill_slot (some (some old)) c msg r h = refl
  get-fill_slot none c msg r h = refl

  get-add_chunk :
      (c : Chunk) (msg : InFlightMessage) (r : Reassembler)
      → c.message_id ≢ id
      → get id (add_chunk c msg r).0.in_flight ≡ get id r.in_flight
  unfolding add_chunk
  get-add_chunk c msg r h = elim (Bool-cases (msg.chunk_count == c.chunk_count)) [
    | inl same ↦ rw (same, add_chunk) (get-fill_slot (get_elem? msg.chunks c.chunk_index) c msg r h)
    | inr other ↦ rw (other, add_chunk)
  ]

  get-evict_first :
      (o : List ℕ) (r : Reassembler)
      → (get id (evict_first o r).in_flight ≡ get id r.in_flight)
        ⊎ (get id (evict_first o r).in_flight ≡ none)
  unfolding evict_first evict_entry
  get-evict_first [] r = inl refl
  get-evict_first (oldest ∷ rest) r = elim (Option-cases (get oldest r.in_flight)) [
    | inl e ↦ inl (rw e refl)
    | inr (msg, e) ↦ rw e (ground (arith, get-remove oldest id r.in_flight))
  ]

  get-make_room :
      (r : Reassembler)
      → (get id (make_room r).in_flight ≡ get id r.in_flight)
        ⊎ (get id (make_room r).in_flight ≡ none)
  unfolding make_room
  get-make_room r = elim (Bool-cases (leb 16 (length r.in_flight_order))) [
    | inl full ↦ rw (full, make_room) (get-evict_first r.in_flight_order r)
    | inr free ↦ rw (free, make_room) (inl refl)
  ]

  pub get-accept_chunk :
      (c : Chunk) (found : Option InFlightMessage) (r : Reassembler)
      → c.message_id ≢ id
      → (get id (accept_chunk c found r).0.in_flight ≡ get id r.in_flight)
        ⊎ (get id (accept_chunk c found r).0.in_flight ≡ none)
  unfolding accept_chunk open_message
  get-accept_chunk c (some msg) r h = inl (get-add_chunk c msg r h)
  get-accept_chunk c none r h =
      let room = make_room r in
      let kept =
        get-add_chunk c (new_message c room) (open_message c room) h
        ∙ get-put_ne c.message_id id (new_message c room) room.in_flight h in
      elim (get-make_room r) [ inl e ↦ inl (kept ∙ e) | inr e ↦ inr (kept ∙ e) ]

  get-time_out :
      (k : ℕ) (found : Option InFlightMessage) (r : Reassembler)
      → (get id (time_out k found r).in_flight ≡ get id r.in_flight)
        ⊎ (get id (time_out k found r).in_flight ≡ none)
  unfolding time_out
  get-time_out k none r = inl refl
  get-time_out k (some m) r = ground (arith, get-remove k id r.in_flight)

  pub get-fire_timer :
      (handle : ℕ) (r : Reassembler)
      → (get id (fire_timer r handle).in_flight ≡ get id r.in_flight)
        ⊎ (get id (fire_timer r handle).in_flight ≡ none)
  unfolding fire_timer fire_armed
  get-fire_timer handle r = elim (Option-cases (get handle r.timers.armed)) [
    | inl e ↦ rw (e, fire_armed) (inl refl)
    | inr (k, e) ↦ rw (e, fire_armed) (get-time_out k (get k r.in_flight) _)
  ]
