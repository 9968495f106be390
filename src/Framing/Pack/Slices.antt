-- ===== src/Framing/Pack/Slices.antt =====
-- The slices that `packMessage` cuts, and their sizes
-- (src/front-end/src/infrastructure/transport/data-channel-framing.ts).
use mathlib.Core.List.{flatten}
use learning_cuda.Base.{
  ℕ, zero, suc, ◌+◌, ◌*◌, ◌≤◌, ◌<◌, ◌≡◌, refl, sym, ap, ◌∙◌, List, [], ◌∷◌, ◌++◌, arith, length,
  take, drop, take-append-drop, drop_all, length-take, All, ok, err, ◌↔◌,
}
use learning_cuda.Framing.Envelope.{chunk_payload_max, max_message_bytes, max_chunks}
use learning_cuda.Framing.Envelope.RoundTrip.{length-write_chunk}
use learning_cuda.Framing.Pack.{
  message_too_large, slice_at, chunk_count_of, pack_chunks, pack_message,
}

suc-add : (m n : ℕ) → suc (m + n) ≡ suc m + n
suc-add m n = omega arith

drop-drop {ℓ} : {A : Type ℓ} (m n : ℕ) (xs : List A) → drop n (drop m xs) ≡ drop (m + n) xs
drop-drop zero n xs = ap (λ k. drop k xs) (omega arith)
drop-drop (suc m) n [] = drop_all n [] (omega arith) ∙ sym (drop_all (suc m + n) [] (omega arith))
drop-drop (suc m) n (x ∷ xs) = drop-drop m n xs ∙ ap (λ k. drop k (x ∷ xs)) (suc-add m n)

-- A slice and what follows it.
slice_at-append-drop :
    (payload : List ℕ) (i : ℕ)
    → slice_at payload i ++ drop ((i + 1) * chunk_payload_max) payload
      ≡ drop (i * chunk_payload_max) payload
unfolding slice_at
slice_at-append-drop payload i =
    ap (◌++◌ (take chunk_payload_max (drop (i * chunk_payload_max) payload))) (
      ap (λ k. drop k payload) (omega arith)
      ∙ sym (drop-drop (i * chunk_payload_max) chunk_payload_max payload))
    ∙ take-append-drop chunk_payload_max (drop (i * chunk_payload_max) payload)

-- The slices from index i on.
unfoldable pub slices_from : ℕ → ℕ → List ℕ → List (List ℕ)
slices_from zero i payload = []
slices_from (suc rounds) i payload = slice_at payload i ∷ slices_from rounds (i + 1) payload

-- Enough slices make up what is left of the payload.
pub flatten-slices_from :
    (rounds i : ℕ) (payload : List ℕ)
    → length payload ≤ (i + rounds) * chunk_payload_max
    → flatten (slices_from rounds i payload) ≡ drop (i * chunk_payload_max) payload
unfolding slices_from flatten
flatten-slices_from zero i payload h = sym (drop_all (i * chunk_payload_max) payload (omega arith))
flatten-slices_from (suc rounds) i payload h =
    ap (◌++◌ (slice_at payload i)) (flatten-slices_from rounds (i + 1) payload (omega arith))
    ∙ slice_at-append-drop payload i

pub length-slice_at : (payload : List ℕ) (i : ℕ) → length (slice_at payload i) ≤ chunk_payload_max
unfolding slice_at
length-slice_at payload i =
    omega (arith, length-take chunk_payload_max (drop (i * chunk_payload_max) payload))

pub chunk_count_bounds :
    (payload : List ℕ)
    → length payload ≤ max_message_bytes
    → (1 ≤ chunk_count_of payload)
      × (chunk_count_of payload ≤ max_chunks)
      × (length payload ≤ chunk_count_of payload * chunk_payload_max)
unfolding chunk_count_of
chunk_count_bounds payload h = ground arith

-- `packMessage` refuses exactly the payloads over 16 MiB.
pub pack_message_fails_iff :
    (message_id : ℕ) (payload : List ℕ)
    → (pack_message message_id payload ≡ err (message_too_large (length payload)))
      ↔ (max_message_bytes < length payload)
unfolding pack_message
pack_message_fails_iff message_id payload = ground arith

pub pack_message_chunks :
    (message_id : ℕ) (payload : List ℕ) (chunks : List (List ℕ))
    → pack_message message_id payload ≡ ok chunks
    → (length payload ≤ max_message_bytes)
      × (chunks
          ≡ pack_chunks (chunk_count_of payload) 0 message_id (chunk_count_of payload) payload)
unfolding pack_message
pack_message_chunks message_id payload chunks h = ground arith

abbrev pub FitsChannel : List ℕ → Type 0
FitsChannel buffer = length buffer ≤ 65536

pack_chunks-FitsChannel :
    (rounds i message_id chunk_count : ℕ) (payload : List ℕ)
    → All FitsChannel (pack_chunks rounds i message_id chunk_count payload)
unfolding pack_chunks
pack_chunks-FitsChannel zero i message_id chunk_count payload = tt
pack_chunks-FitsChannel (suc rounds) i message_id chunk_count payload = (
  omega (
    arith,
    length-write_chunk message_id i chunk_count (slice_at payload i),
    length-slice_at payload i,
  ),
  pack_chunks-FitsChannel rounds (i + 1) message_id chunk_count payload,
)

pub length-pack_chunks :
    (rounds i message_id chunk_count : ℕ) (payload : List ℕ)
    → length (pack_chunks rounds i message_id chunk_count payload) ≡ rounds
unfolding pack_chunks
length-pack_chunks zero i message_id chunk_count payload = refl
length-pack_chunks (suc rounds) i message_id chunk_count payload =
    ap suc (length-pack_chunks rounds (i + 1) message_id chunk_count payload)

-- The buffers that `packMessage` returns are 1 to 257, each of at most 65536 bytes.
pub pack_message_bounds :
    (message_id : ℕ) (payload : List ℕ) (chunks : List (List ℕ))
    → pack_message message_id payload ≡ ok chunks
    → (1 ≤ length chunks) × (length chunks ≤ 257) × All FitsChannel chunks
pack_message_bounds message_id payload chunks h =
    let (fits, e) = pack_message_chunks message_id payload chunks h in
    let n : ℕ = chunk_count_of payload in
    let (lo, hi, _) = chunk_count_bounds payload fits in
    let len = length-pack_chunks n 0 message_id n payload in
    rw e (
      omega (arith, lo, len),
      omega (arith, hi, len),
      pack_chunks-FitsChannel n 0 message_id n payload,
    )
