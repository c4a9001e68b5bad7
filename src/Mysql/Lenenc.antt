-- ===== src/Mysql/Lenenc.antt =====
-- rbdc-mysql/src/io/buf.rs and buf_mut.rs: length-encoded integers, texts and byte sequences.
pub mod Laws
use rbdc.Base.{
  ℕ, ◌+◌, ◌%◌, ◌^◌, List, [], ◌∷◌, ◌++◌, ltb, ◌==◌, if◌then◌else◌, Bytes, length, take, le_bytes,
  Outcome, ok, err, panic, Reader, pure, ◌>>=◌,
}
use rbdc.Crates.{Crates}
use rbdc.Io.{get_str}

unfoldable pub put_uint_lenenc : Bytes → ℕ → Bytes
put_uint_lenenc buf v =
    if ltb v 251
    then buf ++ v % 2 ^ 8 ∷ []
    else if ltb v 0x1_00_00
    then (buf ++ 0xfc ∷ []) ++ le_bytes 2 (v % 2 ^ 16)
    else if ltb v 0x1_00_00_00
    then (buf ++ 0xfd ∷ []) ++ take 3 (le_bytes 4 (v % 2 ^ 32))
    else (buf ++ 0xfe ∷ []) ++ le_bytes 8 v

-- `v.len() as u64`: a length fits 64 bits.
unfoldable pub put_bytes_lenenc : Bytes → Bytes → Bytes
unfolding put_uint_lenenc
put_bytes_lenenc buf v = put_uint_lenenc buf (length v % 2 ^ 64) ++ v

unfoldable pub put_str_lenenc : Bytes → Bytes → Bytes
unfolding put_bytes_lenenc
put_str_lenenc buf v = put_bytes_lenenc buf v

module _ (c : Crates) where
  open c use {get_uint_le, split_to}

  unfoldable pub get_uint_lenenc : Reader ℕ
  get_uint_lenenc = do
    v ← get_uint_le 1
    (if v == 0xfc
        then get_uint_le 2
        else if v == 0xfd
        then get_uint_le 3
        else if v == 0xfe
        then get_uint_le 8
        else pure v)

  unfoldable pub get_str_lenenc : Reader Bytes
  get_str_lenenc = do size ← get_uint_lenenc; get_str c size

  unfoldable pub get_bytes_lenenc : Reader Bytes
  get_bytes_lenenc = do size ← get_uint_lenenc; split_to size
