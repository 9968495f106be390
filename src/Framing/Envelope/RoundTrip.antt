-- ===== src/Framing/Envelope/RoundTrip.antt =====
-- Reading back a chunk that was written.
use native.Mathlib.Nat.{pow-suc}
use learning_cuda.Base.{
  ◌∙◌, get_or, ℕ, zero, suc, ◌+◌, ◌/◌, ◌^◌, ◌≤◌, ◌<◌, ◌≡◌, refl, some, List, ◌++◌, arith, length,
  take, drop, take_all, true,
}
use learning_cuda.Framing.Envelope.{
  le_bytes, le_value, write_header, write_chunk, Chunk, has_magic, check_header, read_chunk,
  chunk_payload_max, max_chunks, header_size, version,
}

-- A number that fits the bytes it is written to is read back, whatever follows.
pub le_value-le_bytes :
    (k v : ℕ) (rest : List ℕ) → v < 256 ^ k → le_value k (le_bytes k v ++ rest) ≡ v
unfolding le_value le_bytes
le_value-le_bytes zero v rest h = omega arith
le_value-le_bytes (suc k) v rest h =
    omega (arith, pow-suc 256 k, le_value-le_bytes k (v / 256) rest (omega (arith, pow-suc 256 k)))

-- The numbers of the header, read back from their offsets.
header_fields :
    (id i n len : ℕ) (slice : List ℕ)
    → id < 2 ^ 32
    → i < 2 ^ 16
    → n < 2 ^ 16
    → len < 2 ^ 32
    → let bytes = write_header id i n len ++ slice in
      (le_value 4 (drop 5 bytes) ≡ id)
      × (le_value 2 (drop 9 bytes) ≡ i)
      × (le_value 2 (drop 11 bytes) ≡ n)
      × (le_value 4 (drop 13 bytes) ≡ len)
unfolding write_header le_bytes le_value
header_fields id i n len slice hid hi hn hlen = (omega arith, omega arith, omega arith, omega arith)

pub length-write_chunk :
    (id i n : ℕ) (slice : List ℕ) → length (write_chunk id i n slice) ≡ header_size + length slice
unfolding write_chunk write_header le_bytes
length-write_chunk id i n slice = omega arith

-- The four range checks pass.
check_header_passes :
    (buffer : List ℕ) (id i n len : ℕ)
    → i < n
    → n ≤ max_chunks
    → header_size + len ≤ length buffer
    → check_header buffer id i n len
      ≡ some (record {
        message_id = id;
        chunk_index = i;
        chunk_count = n;
        payload = take len (drop header_size buffer);
      })
unfolding check_header
check_header_passes buffer id i n len hi hn hl = ground arith

-- The checks on the first five bytes pass.
read_chunk_passes :
    (buffer : List ℕ)
    → header_size ≤ length buffer
    → has_magic buffer ≡ true
    → get_or buffer 4 0 ≡ version
    → read_chunk buffer
      ≡ check_header buffer
          (le_value 4 (drop 5 buffer))
          (le_value 2 (drop 9 buffer))
          (le_value 2 (drop 11 buffer))
          (le_value 4 (drop 13 buffer))
unfolding read_chunk
read_chunk_passes buffer hl hm hv = ground arith

-- The envelope that `packMessage` writes is the one that `pushChunk` reads: a chunk whose numbers
-- are in range passes every check, and its four parts come back unchanged.
pub read_chunk-write_chunk :
    (id i n : ℕ) (slice : List ℕ)
    → id < 2 ^ 32
    → i < n
    → n ≤ max_chunks
    → length slice ≤ chunk_payload_max
    → read_chunk (write_chunk id i n slice)
      ≡ some (record { message_id = id; chunk_index = i; chunk_count = n; payload = slice })
unfolding write_chunk write_header le_bytes has_magic
read_chunk-write_chunk id i n slice hid hi hn hs =
    let bytes : List ℕ = write_chunk id i n slice in
    let (f_id, f_i, f_n, f_len) =
      header_fields id i n (length slice) slice hid (omega arith) (omega arith) (omega arith) in
    read_chunk_passes bytes (omega arith) refl refl
    ∙ rw (f_id, f_i, f_n, f_len)
        (rw (check_header_passes bytes id i n (length slice) hi hn (omega arith))
          (rw (take_all (length slice) slice (omega arith)) refl))

-- What the checks of the header leave.
pub read_chunk_bounds :
    (buffer : List ℕ) (c : Chunk)
    → read_chunk buffer ≡ some c
    → (c.chunk_index < c.chunk_count) × (c.chunk_count ≤ max_chunks)
unfolding read_chunk
read_chunk_bounds buffer c h = ground arith
