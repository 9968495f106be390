-- ===== src/Framing/Reassembler/Parts.antt =====
-- Entries that hold slices of one payload.
use mathlib.Core.List.{flatten}
use learning_cuda.Base.{
  ℕ, zero, suc, ◌+◌, ◌≤◌, ◌≡◌, refl, ap, subst, ◌∙◌, inl, inr, Option, none, some, List, [], ◌∷◌,
  ◌++◌, append_assoc, append-nil, arith, Bool-cases, nat_key, length, length-replicate, length-set,
  get_elem?, set, replicate, ltb, ◌==◌,
}
use learning_cuda.JsMap.{get, put}
use learning_cuda.JsMap.Laws.{get-put_self, get-remove_self}
use learning_cuda.Framing.Envelope.{Chunk, max_message_bytes}
use learning_cuda.Framing.Pack.{slice_at, chunk_count_of}
use learning_cuda.Framing.Pack.Slices.{slices_from, flatten-slices_from, chunk_count_bounds}
use learning_cuda.Framing.Reassembler.{
  InFlightMessage, Reassembler, Pushed, assembled, make_room, new_message, open_message,
  copy_chunks, complete, with_chunk, settle_message, store_chunk, fill_slot, add_chunk,
  accept_chunk,
}

-- The slots from index i on hold nothing but the slices of the payload.
abbrev pub HoldsSlices : List ℕ → ℕ → List (Option (List ℕ)) → Type 0
HoldsSlices payload i [] = Unit
HoldsSlices payload i (none ∷ xs) = HoldsSlices payload (i + 1) xs
HoldsSlices payload i (some s ∷ xs) = (s ≡ slice_at payload i) × HoldsSlices payload (i + 1) xs

HoldsSlices-replicate : (payload : List ℕ) (i n : ℕ) → HoldsSlices payload i (replicate n none)
HoldsSlices-replicate payload i zero = tt
HoldsSlices-replicate payload i (suc n) = HoldsSlices-replicate payload (i + 1) n

HoldsSlices-set :
    (payload : List ℕ) (i j : ℕ) (xs : List (Option (List ℕ)))
    → HoldsSlices payload i xs
    → HoldsSlices payload i (set xs j (some (slice_at payload (i + j))))
HoldsSlices-set payload i j [] h = tt
HoldsSlices-set payload i zero (none ∷ xs) h = (ap (slice_at payload) (omega arith), h)
HoldsSlices-set payload i zero (some s ∷ xs) h = (ap (slice_at payload) (omega arith), h.1)
HoldsSlices-set payload i (suc j) (none ∷ xs) h =
    subst (λ k. HoldsSlices payload (i + 1) (set xs j (some (slice_at payload k)))) (shift i j)
      (HoldsSlices-set payload (i + 1) j xs h)
  where
    shift : (i j : ℕ) → i + 1 + j ≡ i + suc j
    shift i j = omega arith
HoldsSlices-set payload i (suc j) (some s ∷ xs) h = (
  h.0,
  subst (λ k. HoldsSlices payload (i + 1) (set xs j (some (slice_at payload k)))) (shift i j)
      (HoldsSlices-set payload (i + 1) j xs h.1),
)
  where
    shift : (i j : ℕ) → i + 1 + j ≡ i + suc j
    shift i j = omega arith

-- Copying such slots, if no slot is null, copies the slices.
copy_chunks-HoldsSlices :
    (payload out : List ℕ) (i : ℕ) (xs : List (Option (List ℕ))) (result : List ℕ)
    → HoldsSlices payload i xs
    → copy_chunks out xs ≡ assembled result
    → result ≡ out ++ flatten (slices_from (length xs) i payload)
unfolding copy_chunks slices_from flatten
copy_chunks-HoldsSlices payload out i [] result h e = ground (arith, append-nil out)
copy_chunks-HoldsSlices payload out i (none ∷ xs) result h e = cc
copy_chunks-HoldsSlices payload out i (some s ∷ xs) result h e =
    let rest = flatten (slices_from (length xs) (i + 1) payload) in
    copy_chunks-HoldsSlices payload (out ++ s) (i + 1) xs result h.1 e
    ∙ append_assoc out s rest
    ∙ ap (λ x. out ++ (x ++ rest)) h.0

-- A message in flight under the id: as many slots as the payload has slices, and only those in them.
pub record IsPartOf (payload : List ℕ) (msg : InFlightMessage) : Type 0 where
  pub count : msg.chunk_count ≡ chunk_count_of payload
  pub slots : length msg.chunks ≡ chunk_count_of payload
  pub holds : HoldsSlices payload 0 msg.chunks

abbrev pub EntryIsPartOf : List ℕ → Option InFlightMessage → Type 0
EntryIsPartOf payload none = Unit
EntryIsPartOf payload (some msg) = IsPartOf payload msg

-- The results that are allowed.
abbrev pub OnlyPayload : List ℕ → Pushed → Type 0
OnlyPayload payload p = (result : List ℕ) → p ≡ assembled result → result ≡ payload

module _ (id : ℕ) (payload : List ℕ) (fits : length payload ≤ max_message_bytes) where
  -- The entry of the id is sound, and so is the result.
  abbrev pub Sound : Reassembler × Pushed → Type 0
  Sound (r, p) = EntryIsPartOf payload (get id r.in_flight) × OnlyPayload payload p

  abbrev pub own : ℕ → Chunk
  own i = record {
    message_id = id;
    chunk_index = i;
    chunk_count = chunk_count_of payload;
    payload = slice_at payload i;
  }

  all_slices : flatten (slices_from (chunk_count_of payload) 0 payload) ≡ payload
  all_slices =
      let (_, _, enough) = chunk_count_bounds payload fits in
      flatten-slices_from (chunk_count_of payload) 0 payload (omega (arith, enough))

  complete-Sound :
      (msg : InFlightMessage) (r : Reassembler) → IsPartOf payload msg → Sound (complete id msg r)
  unfolding complete
  complete-Sound msg r m = (
    rw (get-remove_self id r.in_flight) tt,
    λ result e.
        copy_chunks-HoldsSlices payload [] 0 msg.chunks result m.holds e
        ∙ ap (λ k. flatten (slices_from k 0 payload)) m.slots
        ∙ all_slices,
  )

  settle_message-Sound :
      (msg : InFlightMessage) (r : Reassembler)
      → IsPartOf payload msg
      → Sound (settle_message id msg r)
  unfolding settle_message
  settle_message-Sound msg r m =
      let r' = record r { in_flight = put id msg r.in_flight } in
      elim (Bool-cases (ltb msg.received msg.chunk_count)) [
        | inl more ↦
            rw (more, settle_message) (rw (get-put_self id msg r.in_flight) m, λ result e. cc)
        | inr last ↦ rw (last, settle_message) (complete-Sound msg r' m)
      ]

  with_chunk-IsPartOf :
      (i : ℕ) (msg : InFlightMessage)
      → IsPartOf payload msg
      → IsPartOf payload (with_chunk (own i) msg)
  unfolding with_chunk
  with_chunk-IsPartOf i msg m = record {
    count = m.count;
    slots = length-set msg.chunks i (some (slice_at payload i)) ∙ m.slots;
    holds =
        subst (λ k. HoldsSlices payload 0 (set msg.chunks i (some (slice_at payload k))))
          (zero_plus i) (HoldsSlices-set payload 0 i msg.chunks m.holds);
  }
    where
      zero_plus : (i : ℕ) → 0 + i ≡ i
      zero_plus i = omega arith

  fill_slot-Sound :
      (slot : Option (Option (List ℕ))) (i : ℕ) (msg : InFlightMessage) (r : Reassembler)
      → get id r.in_flight ≡ some msg
      → IsPartOf payload msg
      → Sound (fill_slot slot (own i) msg r)
  unfolding fill_slot store_chunk
  fill_slot-Sound (some none) i msg r found m =
      settle_message-Sound (with_chunk (own i) msg) r (with_chunk-IsPartOf i msg m)
  fill_slot-Sound (some (some old)) i msg r found m = (rw found m, λ result e. cc)
  fill_slot-Sound none i msg r found m = (rw found m, λ result e. cc)

  add_chunk-Sound :
      (i : ℕ) (msg : InFlightMessage) (r : Reassembler)
      → get id r.in_flight ≡ some msg
      → IsPartOf payload msg
      → Sound (add_chunk (own i) msg r)
  unfolding add_chunk
  add_chunk-Sound i msg r found m = elim (Bool-cases (msg.chunk_count == chunk_count_of payload)) [
    | inl same ↦ rw (same, add_chunk) (fill_slot-Sound (get_elem? msg.chunks i) i msg r found m)
    | inr other ↦ rw (other, add_chunk) (rw found m, λ result e. cc)
  ]

  new_message-IsPartOf : (i : ℕ) (r : Reassembler) → IsPartOf payload (new_message (own i) r)
  unfolding new_message
  new_message-IsPartOf i r = record {
    count = refl;
    slots = length-replicate (chunk_count_of payload) none;
    holds = HoldsSlices-replicate payload 0 (chunk_count_of payload);
  }

  pub accept_chunk-Sound :
      (i : ℕ) (found : Option InFlightMessage) (r : Reassembler)
      → get id r.in_flight ≡ found
      → EntryIsPartOf payload found
      → Sound (accept_chunk (own i) found r)
  unfolding accept_chunk open_message
  accept_chunk-Sound i (some msg) r e m = add_chunk-Sound i msg r e m
  accept_chunk-Sound i none r e m =
      let room = make_room r in
      let msg = new_message (own i) room in
      add_chunk-Sound i msg (open_message (own i) room) (get-put_self id msg room.in_flight)
        (new_message-IsPartOf i room)
