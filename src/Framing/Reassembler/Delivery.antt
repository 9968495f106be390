-- ===== src/Framing/Reassembler/Delivery.antt =====
-- Chunks that arrive in order.
use learning_cuda.Framing.Reassembler.Holding.{
  holding, flatten-concat, add_chunk_next, store_chunk_more, store_chunk_last, new_message-holding,
}
use mathlib.Core.List.{flatten}
use learning_cuda.Base.{
  ℕ, zero, suc, ◌+◌, ◌-◌, ◌^◌, ◌≤◌, ◌<◌, ◌≡◌, refl, sym, ap, ap₂, subst, ◌∙◌, none, some, List, [],
  ◌∷◌, ◌++◌, append_assoc, append-nil, arith, ok, nat_key, length, length-append, replicate,
}
use learning_cuda.JsMap.{get, put}
use learning_cuda.JsMap.Laws.{get-put_self}
use learning_cuda.Framing.Envelope.{Chunk, read_chunk, write_chunk, max_chunks}
use learning_cuda.Framing.Envelope.RoundTrip.{read_chunk-write_chunk}
use learning_cuda.Framing.Pack.{pack_message, pack_chunks, slice_at, chunk_count_of}
use learning_cuda.Framing.Pack.Slices.{
  slices_from, flatten-slices_from, length-slice_at, chunk_count_bounds, pack_message_chunks,
  length-pack_chunks,
}
use learning_cuda.Framing.Reassembler.{
  InFlightMessage, Reassembler, Pushed, incomplete, assembled, make_room, open_message, add_chunk,
  accept_chunk, push_chunk,
}

-- The message ports push one buffer after the other; the results are kept.
unfoldable pub push_all : Reassembler → List (List ℕ) → Reassembler × List Pushed
push_all r [] = (r, [])
push_all r (buffer ∷ buffers) =
    let (r', result) = push_chunk r buffer in
    let (last, results) = push_all r' buffers in (last, result ∷ results)

pub push_all_cons :
    (r r' : Reassembler) (buffer : List ℕ) (buffers : List (List ℕ)) (p : Pushed)
    → push_chunk r buffer ≡ (r', p)
    → push_all r (buffer ∷ buffers) ≡ ((push_all r' buffers).0, p ∷ (push_all r' buffers).1)
unfolding push_all
push_all_cons r r' buffer buffers p e =
    ap (λ (q : Reassembler × Pushed). ((push_all q.0 buffers).0, q.1 ∷ (push_all q.0 buffers).1)) e

push_all_one :
    (r : Reassembler) (buffer : List ℕ) (q : Reassembler × Pushed)
    → push_chunk r buffer ≡ q
    → push_all r (buffer ∷ []) ≡ (q.0, q.1 ∷ [])
unfolding push_all
push_all_one r buffer q e = ap (λ (q : Reassembler × Pushed). (q.0, q.1 ∷ [])) e

-- The message is no longer in flight, and these were the results.
abbrev pub Delivered : ℕ → Reassembler × List Pushed → List Pushed → Type 0
Delivered id (r, results) expected = (get id r.in_flight ≡ none) × (results ≡ expected)

module _ (id : ℕ) (payload : List ℕ) (n : ℕ) (id_fits : id < 2 ^ 32) (few : n ≤ max_chunks) where
  -- What the receiver reads of chunk i.
  abbrev own_chunk : ℕ → Chunk
  own_chunk i = record {
    message_id = id;
    chunk_index = i;
    chunk_count = n;
    payload = slice_at payload i;
  }

  read_own :
      (i : ℕ) → i < n → read_chunk (write_chunk id i n (slice_at payload i)) ≡ some (own_chunk i)
  read_own i h =
      read_chunk-write_chunk id i n (slice_at payload i) id_fits h few (length-slice_at payload i)

  push_own :
      (i : ℕ) (msg : InFlightMessage) (r : Reassembler)
      → i < n
      → get id r.in_flight ≡ some msg
      → push_chunk r (write_chunk id i n (slice_at payload i)) ≡ add_chunk (own_chunk i) msg r
  unfolding push_chunk
  push_own i msg r h found = rw (read_own i h) (rw (found, accept_chunk))

  push_first :
      (r : Reassembler)
      → 0 < n
      → get id r.in_flight ≡ none
      → let room = make_room r in
        push_chunk r (write_chunk id 0 n (slice_at payload 0))
        ≡ add_chunk (own_chunk 0) (holding [] n room.timers.next) (open_message (own_chunk 0) room)
  unfolding push_chunk
  push_first r h gone =
      let room = make_room r in
      rw (read_own 0 h) (
        rw (gone, accept_chunk)
          (ap (λ msg. add_chunk (own_chunk 0) msg (open_message (own_chunk 0) room))
            (new_message-holding (own_chunk 0) room)))

  -- The chunks from i on arrive while the slices before i are held: what `add_chunk` makes of
  -- chunk i is given, and the later chunks find the entry that it leaves.
  deliver_rest :
      (k i t : ℕ) (done : List (List ℕ)) (r held : Reassembler)
      → push_chunk r (write_chunk id i n (slice_at payload i))
        ≡ add_chunk (own_chunk i) (holding done (suc k) t) held
      → i ≡ length done
      → n ≡ i + suc k
      → Delivered id (push_all r (pack_chunks (suc k) i id n payload)) (
          replicate k incomplete
          ++ assembled (flatten done ++ flatten (slices_from (suc k) i payload)) ∷ [])
  unfolding pack_chunks slices_from flatten
  deliver_rest zero i t done r held first e total =
      let c = own_chunk i in
      let stored = first ∙ add_chunk_next c done e 0 t held (rw (← e) total) in
      let (gone, whole) = store_chunk_last c done e t held in
      let expected = assembled (flatten done ++ (c.payload ++ [])) ∷ [] in
      subst (λ q. Delivered id q expected) (sym (push_all_one r _ _ stored))
        (
          gone,
          ap (λ p. p ∷ [])
              (whole
                ∙ ap assembled (
                    flatten-concat done c.payload
                    ∙ ap (◌++◌ (flatten done)) (sym (append-nil c.payload)))),
        )
  deliver_rest (suc k) i t done r held first e total =
      let c = own_chunk i in
      let done' : List (List ℕ) = done ++ c.payload ∷ [] in
      let r' : Reassembler = record held {
        in_flight = put id (holding done' (suc k) t) held.in_flight;
      } in
      let stored =
        first
        ∙ add_chunk_next c done e (suc k) t held (rw (← e) total)
        ∙ store_chunk_more c done e k t held in
      let (gone, results) =
        deliver_rest k (i + 1) t done' r' r'
          (push_own (i + 1) (holding done' (suc k) t) r' (omega arith)
            (get-put_self id (holding done' (suc k) t) held.in_flight))
          (omega (arith, length-append done (c.payload ∷ []))) (omega arith) in
      let rest = flatten (slices_from (suc k) (i + 1) payload) in
      let regrouped : flatten done' ++ rest ≡ flatten done ++ (c.payload ++ rest) =
        ap (λ xs. xs ++ rest) (flatten-concat done c.payload)
        ∙ append_assoc (flatten done) c.payload rest in
      let expected =
        incomplete
        ∷ (replicate k incomplete ++ assembled (flatten done ++ (c.payload ++ rest)) ∷ []) in
      subst (λ q. Delivered id q expected) (sym (push_all_cons r r' _ _ incomplete stored))
        (
          gone,
          ap (◌∷◌ incomplete)
              (results ∙ ap (λ xs. replicate k incomplete ++ assembled xs ∷ []) regrouped),
        )

-- Whatever else is in flight: where the message id is not, the buffers of `packMessage`, pushed in
-- their order, give null for every buffer but the last, and for the last exactly the payload; and
-- the message is no longer in flight then.
pub delivers :
    (r : Reassembler) (id : ℕ) (payload : List ℕ) (chunks : List (List ℕ))
    → id < 2 ^ 32
    → get id r.in_flight ≡ none
    → pack_message id payload ≡ ok chunks
    → Delivered id
        (push_all r chunks)
        (replicate (length chunks - 1) incomplete ++ assembled payload ∷ [])
unfolding flatten
delivers r id payload chunks id_fits gone packed =
    let (fits, made) = pack_message_chunks id payload chunks packed in
    let n : ℕ = chunk_count_of payload in
    let (some_chunk, few, enough) = chunk_count_bounds payload fits in
    let m : ℕ = n - 1 in
    let split : n ≡ suc m = omega arith in
    let room = make_room r in
    let c : Chunk = own_chunk id payload n id_fits few 0 in
    let first =
      push_first id payload n id_fits few r (omega arith) gone
      ∙ ap (λ k. add_chunk c (holding [] k room.timers.next) (open_message c room)) split in
    let (out, results) =
      deliver_rest id payload n id_fits few m 0 room.timers.next [] r (open_message c room) first
        refl (omega arith) in
    let whole : flatten (slices_from (suc m) 0 payload) ≡ payload =
      flatten-slices_from (suc m) 0 payload (omega (arith, enough)) in
    let count : length chunks - 1 ≡ m =
      omega (arith, ap length made, length-pack_chunks n 0 id n payload) in
    let cut : chunks ≡ pack_chunks (suc m) 0 id n payload =
      made ∙ ap (λ k. pack_chunks k 0 id n payload) split in
    subst
      (λ cs.
        Delivered id (push_all r cs)
          (replicate (length chunks - 1) incomplete ++ assembled payload ∷ []))
      (sym cut)
      (out, results ∙ ap₂ (λ k xs. replicate k incomplete ++ assembled xs ∷ []) (sym count) whole)
