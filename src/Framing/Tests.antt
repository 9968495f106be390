-- ===== src/Framing/Tests.antt =====
-- The framing theorems at concrete inputs.
use learning_cuda.Base.{ℕ, ◌≤◌, ◌≡◌, ◌≢◌, refl, List, [], ◌∷◌, ok, arith, nat_key, All}
use learning_cuda.JsMap.{get}
use learning_cuda.Framing.Envelope.{read_chunk, write_chunk, write_header, le_bytes}
use learning_cuda.Framing.Pack.{pack_message, pack_chunks, slice_at, chunk_count_of}
use learning_cuda.Framing.Pack.Slices.{FitsChannel, pack_message_bounds}
use learning_cuda.Framing.Reassembler.{
  new_reassembler, push_chunk, add_chunk, new_message, store_chunk, settle_message, with_chunk,
  complete, assembled, type_error,
}
use learning_cuda.Framing.Reassembler.Invariant.{Inv}
use learning_cuda.Framing.Reassembler.Reachable.{
  arrives, runs_out, run, run-Inv, push_chunk-ne-type_error,
}
use learning_cuda.Framing.Reassembler.Delivery.{push_all, Delivered, delivers}
use learning_cuda.Framing.Reassembler.Soundness.{start, returns_payload}

abbrev payload : List ℕ
payload = 10 ∷ 20 ∷ 30 ∷ []

abbrev buffer : List ℕ
buffer = write_chunk 7 0 1 payload

pack_payload : pack_message 7 payload ≡ ok (buffer ∷ [])
unfolding pack_message pack_chunks chunk_count_of slice_at
pack_payload = refl

push_buffer : (push_chunk new_reassembler buffer).1 ≡ assembled payload
unfolding push_chunk new_reassembler read_chunk write_chunk write_header le_bytes get add_chunk
    new_message store_chunk settle_message with_chunk complete
push_buffer = refl

pack_message_bounds_example : (1 ≤ 1) × (1 ≤ 257) × All FitsChannel (buffer ∷ [])
pack_message_bounds_example = pack_message_bounds 7 payload (buffer ∷ []) pack_payload

delivers_example : Delivered 7 (push_all new_reassembler (buffer ∷ [])) (assembled payload ∷ [])
unfolding new_reassembler get
delivers_example = delivers new_reassembler 7 payload (buffer ∷ []) (omega arith) refl pack_payload

run-Inv_example : Inv (run new_reassembler (arrives buffer ∷ runs_out 1 ∷ []))
run-Inv_example = run-Inv (arrives buffer ∷ runs_out 1 ∷ [])

push_chunk-ne-type_error_example :
    (push_chunk (run new_reassembler (arrives buffer ∷ [])) buffer).1 ≢ type_error
push_chunk-ne-type_error_example = push_chunk-ne-type_error (arrives buffer ∷ []) buffer

returns_payload_example : payload ≡ payload
unfolding new_reassembler get chunk_count_of slice_at
returns_payload_example =
    returns_payload 7 payload new_reassembler new_reassembler 0 payload (omega arith) (omega arith)
      refl start (omega arith) push_buffer
