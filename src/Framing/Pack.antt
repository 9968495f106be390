-- ===== src/Framing/Pack.antt =====
-- `packMessage` of src/front-end/src/infrastructure/transport/data-channel-framing.ts.
pub mod Slices
use learning_cuda.Base.{
  ℕ, zero, suc, ◌+◌, ◌-◌, ◌*◌, ◌/◌, List, [], ◌∷◌, ltb, ◌==◌, if◌then◌else◌, length, take, drop,
  Result, ok, err,
}
use learning_cuda.Framing.Envelope.{chunk_payload_max, max_message_bytes, write_chunk}

-- The error that `packMessage` throws: the message is larger than MAX_MESSAGE_BYTES.
pub data PackError : Type 0 where
  message_too_large : ℕ → PackError

-- payload.subarray(start, start + CHUNK_PAYLOAD_MAX) for start = i * CHUNK_PAYLOAD_MAX; `subarray`
-- stops at the end of the payload.
unfoldable pub slice_at : List ℕ → ℕ → List ℕ
slice_at payload i = take chunk_payload_max (drop (i * chunk_payload_max) payload)

-- payload.byteLength === 0 ? 1 : Math.ceil(payload.byteLength / CHUNK_PAYLOAD_MAX)
unfoldable pub chunk_count_of : List ℕ → ℕ
chunk_count_of payload =
    if length payload == 0 then 1 else (length payload + chunk_payload_max - 1) / chunk_payload_max

-- The loop, with the rounds that are left and the index of the next chunk.
unfoldable pub pack_chunks : ℕ → ℕ → ℕ → ℕ → List ℕ → List (List ℕ)
pack_chunks zero i message_id chunk_count payload = []
pack_chunks (suc rounds) i message_id chunk_count payload =
    write_chunk message_id i chunk_count (slice_at payload i)
    ∷ pack_chunks rounds (i + 1) message_id chunk_count payload

unfoldable pub pack_message : ℕ → List ℕ → Result PackError (List (List ℕ))
pack_message message_id payload =
    let chunk_count = chunk_count_of payload in
    if ltb max_message_bytes (length payload)
    then err (message_too_large (length payload))
    else ok (pack_chunks chunk_count 0 message_id chunk_count payload)
