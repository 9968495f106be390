-- ===== src/Framing/Reassembler/Holding.antt =====
-- A message whose first chunks have arrived, and what the next one does to it.
use mathlib.Core.List.{flatten}
use learning_cuda.Base.{
  ℕ, suc, ◌+◌, ◌≡◌, refl, sym, ap, ◌∙◌, Option, none, some, List, [], ◌∷◌, ◌++◌, map, append_assoc,
  append-nil, arith, nat_key, length, length-append, get_elem?, set, replicate, ltb, ◌==◌, ==_iff,
  lt→ltb, true, false,
}
use learning_cuda.JsMap.{get, put}
use learning_cuda.JsMap.Laws.{get-remove_self}
use learning_cuda.Framing.Envelope.{Chunk}
use learning_cuda.Framing.Reassembler.{
  InFlightMessage, Reassembler, incomplete, assembled, new_message, copy_chunks, complete,
  with_chunk, settle_message, store_chunk, fill_slot, add_chunk,
}

-- A message whose first chunks are `done`, with k chunks to come.
abbrev pub holding : List (List ℕ) → ℕ → ℕ → InFlightMessage
holding done k t = record {
  chunks = map some done ++ replicate k none;
  chunk_count = length done + k;
  received = length done;
  timer = t;
}

next_slot :
    (done : List (List ℕ)) (xs : List (Option (List ℕ)))
    → get_elem? (map some done ++ none ∷ xs) (length done) ≡ some none
next_slot [] xs = refl
next_slot (d ∷ done) xs = next_slot done xs

set_next :
    (done : List (List ℕ)) (s : List ℕ) (xs : List (Option (List ℕ)))
    → set (map some done ++ none ∷ xs) (length done) (some s) ≡ map some (done ++ s ∷ []) ++ xs
set_next [] s xs = refl
set_next (d ∷ done) s xs = ap (◌∷◌ (some d)) (set_next done s xs)

copy_chunks-map :
    (out : List ℕ) (xs : List (List ℕ))
    → copy_chunks out (map some xs) ≡ assembled (out ++ flatten xs)
unfolding copy_chunks flatten
copy_chunks-map out [] = ap assembled (sym (append-nil out))
copy_chunks-map out (x ∷ xs) =
    copy_chunks-map (out ++ x) xs ∙ ap assembled (append_assoc out x (flatten xs))

pub flatten-concat :
    (done : List (List ℕ)) (s : List ℕ) → flatten (done ++ s ∷ []) ≡ flatten done ++ s
unfolding flatten
flatten-concat [] s = append-nil s
flatten-concat (d ∷ done) s =
    ap (◌++◌ d) (flatten-concat done s) ∙ sym (append_assoc d (flatten done) s)

module _ (c : Chunk) (done : List (List ℕ)) (next : c.chunk_index ≡ length done) where
  with_chunk-holding :
      (k t : ℕ) → with_chunk c (holding done (suc k) t) ≡ holding (done ++ c.payload ∷ []) k t
  unfolding with_chunk
  with_chunk-holding k t =
      λ i. record { chunks = slots i; chunk_count = count i; received = received i; timer = t }
    where
      slots :
          set (map some done ++ none ∷ replicate k none) c.chunk_index (some c.payload)
          ≡ map some (done ++ c.payload ∷ []) ++ replicate k none
      slots = rw next (set_next done c.payload (replicate k none))

      count : length done + suc k ≡ length (done ++ c.payload ∷ []) + k
      count = omega (arith, length-append done (c.payload ∷ []))

      received : suc (length done) ≡ length (done ++ c.payload ∷ [])
      received = omega (arith, length-append done (c.payload ∷ []))

  -- A chunk in order is stored.
  pub add_chunk_next :
      (k t : ℕ) (r : Reassembler)
      → c.chunk_count ≡ length done + suc k
      → add_chunk c (holding done (suc k) t) r ≡ store_chunk c (holding done (suc k) t) r
  unfolding add_chunk fill_slot
  add_chunk_next k t r total =
      let same : ((length done + suc k) == c.chunk_count) ≡ true = (==_iff _ _).1 (sym total) in
      let empty : get_elem? (map some done ++ none ∷ replicate k none) c.chunk_index ≡ some none =
        rw next (next_slot done (replicate k none)) in
      rw (same, empty, add_chunk)

  pub store_chunk_more :
      (k t : ℕ) (r : Reassembler)
      → store_chunk c (holding done (suc (suc k)) t) r ≡ (
        record r {
          in_flight = put c.message_id (holding (done ++ c.payload ∷ []) (suc k) t) r.in_flight;
        },
        incomplete,
      )
  unfolding store_chunk settle_message
  store_chunk_more k t r =
      let more : ltb (length (done ++ c.payload ∷ [])) (length (done ++ c.payload ∷ []) + suc k)
          ≡ true =
        lt→ltb _ _ (omega arith) in
      rw (with_chunk-holding (suc k) t) (rw (more, settle_message))

  pub store_chunk_last :
      (t : ℕ) (r : Reassembler)
      → (get c.message_id (store_chunk c (holding done 1 t) r).0.in_flight ≡ none)
        × ((store_chunk c (holding done 1 t) r).1 ≡ assembled (flatten (done ++ c.payload ∷ [])))
  unfolding store_chunk settle_message complete
  store_chunk_last t r =
      let last : ltb (length (done ++ c.payload ∷ [])) (length (done ++ c.payload ∷ []) + 0)
          ≡ false =
        ground arith in
      rw (with_chunk-holding 0 t) (
        rw (last, settle_message)
          (
            get-remove_self c.message_id _,
            rw (append-nil (map some (done ++ c.payload ∷ [])))
                (copy_chunks-map [] (done ++ c.payload ∷ [])),
          ))

pub new_message-holding :
    (c : Chunk) (r : Reassembler) → new_message c r ≡ holding [] c.chunk_count r.timers.next
unfolding new_message
new_message-holding c r = λ i. record {
  chunks = replicate c.chunk_count none;
  chunk_count = count i;
  received = 0;
  timer = r.timers.next;
}
  where
    count : c.chunk_count ≡ 0 + c.chunk_count
    count = omega arith
