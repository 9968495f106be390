-- ===== src/Framing/Envelope.antt =====
-- The envelope of one chunk: 17 header bytes, little-endian, and the payload
-- (src/front-end/src/infrastructure/transport/data-channel-framing.ts). A buffer is the list of its
-- bytes.
pub mod RoundTrip
use learning_cuda.Base.{
  ℕ, zero, suc, ◌+◌, ◌-◌, ◌*◌, ◌/◌, ◌%◌, Bool, ◌&&◌, ◌||◌, not, Option, none, some, List, [], ◌∷◌,
  ◌++◌, ltb, leb, ◌==◌, if◌then◌else◌, length, get_or, take, drop,
}

abbrev pub magic_0 : ℕ
magic_0 = 0x43

abbrev pub magic_1 : ℕ
magic_1 = 0x4b

abbrev pub magic_2 : ℕ
magic_2 = 0x44

abbrev pub magic_3 : ℕ
magic_3 = 0x43

abbrev pub version : ℕ
version = 1

abbrev pub header_size : ℕ
header_size = 17

abbrev pub chunk_payload_max : ℕ
chunk_payload_max = 65519

abbrev pub max_message_bytes : ℕ
max_message_bytes = 16 * 1024 * 1024

-- Math.ceil(MAX_MESSAGE_BYTES / CHUNK_PAYLOAD_MAX)
abbrev pub max_chunks : ℕ
max_chunks = (max_message_bytes + chunk_payload_max - 1) / chunk_payload_max

-- DataView's setUint8, setUint16 and setUint32 with littleEndian: the low k bytes of the value.
unfoldable pub le_bytes : ℕ → ℕ → List ℕ
le_bytes zero v = []
le_bytes (suc k) v = (v % 256) ∷ le_bytes k (v / 256)

-- DataView's getUint8, getUint16 and getUint32 with littleEndian.
unfoldable pub le_value : ℕ → List ℕ → ℕ
le_value zero bytes = 0
le_value (suc k) [] = 0
le_value (suc k) (b ∷ bytes) = b + 256 * le_value k bytes

-- The 17 header bytes, in the order of their offsets.
unfoldable pub write_header : ℕ → ℕ → ℕ → ℕ → List ℕ
write_header message_id i chunk_count payload_len =
    magic_0
    ∷ magic_1
    ∷ magic_2
    ∷ magic_3
    ∷ version
    ∷ (le_bytes 4 message_id
        ++ (le_bytes 2 i ++ (le_bytes 2 chunk_count ++ le_bytes 4 payload_len)))

-- One chunk of `packMessage`: the header, then the slice.
unfoldable pub write_chunk : ℕ → ℕ → ℕ → List ℕ → List ℕ
write_chunk message_id i chunk_count slice =
    write_header message_id i chunk_count (length slice) ++ slice

-- What `pushChunk` reads from a buffer that passes its checks.
pub record Chunk : Type 0 where
  pub message_id : ℕ
  pub chunk_index : ℕ
  pub chunk_count : ℕ
  -- new Uint8Array(buffer, HEADER_SIZE, payloadLen)
  pub payload : List ℕ

has_magic : List ℕ → Bool
has_magic bytes =
    get_or bytes 0 0 == magic_0
    && get_or bytes 1 0 == magic_1
    && get_or bytes 2 0 == magic_2
    && get_or bytes 3 0 == magic_3

-- The checks on the four numbers of the header, in the order of the code; `none` is a dropped chunk.
check_header : List ℕ → ℕ → ℕ → ℕ → ℕ → Option Chunk
check_header buffer message_id chunk_index chunk_count payload_len =
    if ltb chunk_count 1 || ltb max_chunks chunk_count
    then none
    else if ltb (length buffer) (header_size + payload_len)
    then none
    else if leb chunk_count chunk_index
    then none
    else some (record {
      message_id = message_id;
      chunk_index = chunk_index;
      chunk_count = chunk_count;
      payload = take payload_len (drop header_size buffer);
    })

-- The first part of `pushChunk`, up to its last check on the header.
unfoldable pub read_chunk : List ℕ → Option Chunk
unfolding has_magic check_header le_value
read_chunk buffer =
    if ltb (length buffer) header_size
    then none
    else if not (has_magic buffer)
    then none
    else if not (get_or buffer 4 0 == version)
    then none
    else check_header buffer (le_value 4 (drop 5 buffer)) (le_value 2 (drop 9 buffer))
        (le_value 2 (drop 11 buffer)) (le_value 4 (drop 13 buffer))
