-- ===== src/Framing/Reassembler/Soundness.antt =====
-- What comes out under a message id: chunks in any order, repeated or lost, between chunks of other
-- messages, evictions and timeouts.
use learning_cuda.Base.{
  ℕ, ◌^◌, ◌≤◌, ◌<◌, ◌≡◌, ◌≢◌, refl, sym, subst, ◌⊎◌, inl, inr, Option, none, some, List, nat_key,
  length,
}
use learning_cuda.JsMap.{get}
use learning_cuda.Framing.Envelope.{Chunk, read_chunk, write_chunk, max_message_bytes}
use learning_cuda.Framing.Envelope.RoundTrip.{read_chunk-write_chunk}
use learning_cuda.Framing.Pack.{slice_at, chunk_count_of}
use learning_cuda.Framing.Pack.Slices.{length-slice_at, chunk_count_bounds}
use learning_cuda.Framing.Reassembler.Untouched.{get-accept_chunk, get-fire_timer}
use learning_cuda.Framing.Reassembler.Parts.{EntryIsPartOf, Sound, accept_chunk-Sound}
use learning_cuda.Framing.Reassembler.{
  InFlightMessage, Reassembler, assembled, push_read, push_chunk, fire_timer,
}

-- What may arrive: chunks of the message, chunks of other messages, and buffers that are dropped.
pub data Traffic (id : ℕ) (payload : List ℕ) (buffer : List ℕ) : Type 0 where
  own_chunk :
      (i : ℕ)
      → i < chunk_count_of payload
      → buffer ≡ write_chunk id i (chunk_count_of payload) (slice_at payload i)
      → Traffic id payload buffer
  other_chunk :
      (c : Chunk) → read_chunk buffer ≡ some c → c.message_id ≢ id → Traffic id payload buffer
  dropped : read_chunk buffer ≡ none → Traffic id payload buffer

-- The states that a reassembler reaches from r through such traffic and through timeouts.
pub data History (id : ℕ) (payload : List ℕ) (r : Reassembler) : Reassembler → Type 0 where
  start : History id payload r r
  heard :
      {s : Reassembler} (buffer : List ℕ)
      → History id payload r s
      → Traffic id payload buffer
      → History id payload r (push_chunk s buffer).0
  timed_out :
      {s : Reassembler} (handle : ℕ)
      → History id payload r s
      → History id payload r (fire_timer s handle)

module _ (id : ℕ) (payload : List ℕ) (fits : length payload ≤ max_message_bytes)
    (id_fits : id < 2 ^ 32) where
  push_own-Sound :
      (i : ℕ) (r : Reassembler)
      → i < chunk_count_of payload
      → EntryIsPartOf payload (get id r.in_flight)
      → Sound id payload fits
          (push_chunk r (write_chunk id i (chunk_count_of payload) (slice_at payload i)))
  unfolding push_chunk
  push_own-Sound i r h m =
      let (_, few, _) = chunk_count_bounds payload fits in
      rw
        (
          read_chunk-write_chunk id i (chunk_count_of payload) (slice_at payload i) id_fits h few
              (length-slice_at payload i),
          push_read,
        )
        (accept_chunk-Sound id payload fits i (get id r.in_flight) r refl m)

  kept_or_gone :
      (before after : Option InFlightMessage)
      → (after ≡ before) ⊎ (after ≡ none)
      → EntryIsPartOf payload before
      → EntryIsPartOf payload after
  kept_or_gone before after (inl e) m = subst (EntryIsPartOf payload) (sym e) m
  kept_or_gone before after (inr e) m = subst (EntryIsPartOf payload) (sym e) tt

  push_chunk-EntryIsPartOf :
      (buffer : List ℕ) (r : Reassembler)
      → Traffic id payload buffer
      → EntryIsPartOf payload (get id r.in_flight)
      → EntryIsPartOf payload (get id (push_chunk r buffer).0.in_flight)
  unfolding push_chunk
  push_chunk-EntryIsPartOf buffer r (own_chunk i h e) m = rw e ((push_own-Sound i r h m).0)
  push_chunk-EntryIsPartOf buffer r (other_chunk c e h) m =
      rw (e, push_read)
        (kept_or_gone (get id r.in_flight) _
          (get-accept_chunk id c (get c.message_id r.in_flight) r h) m)
  push_chunk-EntryIsPartOf buffer r (dropped e) m = rw (e, push_read) m

  History-EntryIsPartOf :
      {r s : Reassembler}
      → get id r.in_flight ≡ none
      → History id payload r s
      → EntryIsPartOf payload (get id s.in_flight)
  History-EntryIsPartOf gone start = rw gone tt
  History-EntryIsPartOf gone (heard {s = s} buffer h t) =
      push_chunk-EntryIsPartOf buffer s t (History-EntryIsPartOf gone h)
  History-EntryIsPartOf gone (timed_out {s = s} handle h) =
      kept_or_gone (get id s.in_flight) _ (get-fire_timer id handle s)
        (History-EntryIsPartOf gone h)

-- From a reassembler without the message id: whatever chunks of the message arrived before, in which
-- order and how often, whatever else arrived between them, and whichever timers ran out, when a chunk
-- of the message makes `pushChunk` return a message, it is the payload that was packed.
pub returns_payload :
    (id : ℕ) (payload : List ℕ) (r s : Reassembler) (i : ℕ) (result : List ℕ)
    → length payload ≤ max_message_bytes
    → id < 2 ^ 32
    → get id r.in_flight ≡ none
    → History id payload r s
    → i < chunk_count_of payload
    → (push_chunk s (write_chunk id i (chunk_count_of payload) (slice_at payload i))).1
      ≡ assembled result
    → result ≡ payload
returns_payload id payload r s i result fits id_fits gone h hi e =
    (push_own-Sound id payload fits id_fits i s hi
        (History-EntryIsPartOf id payload fits id_fits gone h)).1
      result e
