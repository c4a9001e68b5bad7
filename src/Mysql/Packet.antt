-- ===== src/Mysql/Packet.antt =====
-- rbdc-mysql/src/protocol/packet.rs: a payload is sent as packets of at most 0xFF_FF_FF bytes, each
-- behind a header of its length and a sequence number.
pub mod Frames
use Prim.Native.Nat.{min}
use rbdc.Base.{
  ℕ, zero, suc, ◌+◌, ◌-◌, ◌/◌, ◌%◌, ◌^◌, List, [], ◌∷◌, ◌++◌, leb, if◌then◌else◌, Bytes, length,
  take, drop, set, overwrite, replicate, le_bytes,
}

abbrev pub max_chunk : ℕ
max_chunk = 0xFF_FF_FF

-- The closure `next_header`: the bytes, and the next sequence number.
unfoldable pub next_header : ℕ → ℕ → Bytes × ℕ
next_header len sequence_id = (set (le_bytes 4 len) 3 sequence_id, (sequence_id + 1) % 2 ^ 8)

-- The loop over `chunks_exact(0xFF_FF_FF)`, by the number of chunks left, and the remainder.
write_chunks : ℕ → Bytes → Bytes → ℕ → Bytes × ℕ
unfolding next_header
write_chunks zero remainder buf sequence_id =
    let (header, next) = next_header (length remainder % 2 ^ 32) sequence_id in
    ((buf ++ header) ++ remainder, next)
write_chunks (suc k) rest buf sequence_id =
    let chunk = take max_chunk rest in
    let (header, next) = next_header (length chunk % 2 ^ 32) sequence_id in
    write_chunks k (drop max_chunk rest) ((buf ++ header) ++ chunk) next

split_rest : Bytes → ℕ → Bytes → ℕ → Bytes × ℕ
unfolding write_chunks
split_rest buf at rest sequence_id =
    write_chunks (length rest / max_chunk) rest (take at buf) sequence_id

-- The payload writes itself at the end of the buffer.
unfoldable pub encode_with : (Bytes → Bytes) → Bytes → ℕ → Bytes × ℕ
unfolding next_header split_rest
encode_with payload buf sequence_id =
    let offset = length buf in
    let reserved = payload (buf ++ replicate 4 0) in
    let len = length reserved - offset - 4 in
    let (header, next) = next_header (min len max_chunk) sequence_id in
    let written = overwrite offset header reserved in
    let at = offset + 4 + max_chunk in
    if leb max_chunk len then split_rest written at (drop at written) next else (written, next)
