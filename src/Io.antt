-- ===== src/Io.antt =====
-- src/io/buf.rs and src/io/buf_mut.rs: reads of raw and NUL-terminated bytes and texts from a
-- buffer, and the write of a NUL-terminated text. A text is the list of its UTF-8 bytes.
pub mod Laws
mod Tests
pub mod Stream
use rbdc.Base.{
  ℕ, ◌+◌, Option, none, some, List, [], ◌∷◌, ◌++◌, ltb, if◌then◌else◌, Bytes, length, take, Error,
  protocol, Outcome, ok, err, panic, and_then, Reader, pure, fail, ◌>>=◌, ◌>>◌,
}
use rbdc.Base.Utf8.{is_utf8}
use rbdc.Crates.{Crates}

-- `&bs[..n]`
abbrev pub index_to : ℕ → Bytes → Outcome Bytes
index_to n bs = if ltb (length bs) n then panic else ok (take n bs)

-- `from_utf8(bytes)`, with the error as the source converts it
unfoldable pub from_utf8 : Bytes → Outcome Bytes
from_utf8 bs = if is_utf8 bs then ok bs else err (protocol "{}" bs)

module _ (c : Crates) where
  open c use {memchr, slice_to, advance}

  unfoldable pub get_bytes_nul : Reader Bytes
  get_bytes_nul bs = elim (memchr 0 bs) [
    | none ↦ err (protocol "expected NUL in byte sequence" [])
    | some nul ↦
        and_then (slice_to nul bs) λ v. and_then (advance (nul + 1) bs) λ (_, rest). ok (v, rest)
  ]

  unfoldable pub get_bytes : ℕ → Reader Bytes
  get_bytes n bs = and_then (slice_to n bs) λ v. and_then (advance n bs) λ (_, rest). ok (v, rest)

  unfoldable pub get_str_nul : Reader Bytes
  unfolding get_bytes_nul
  get_str_nul bs = and_then (get_bytes_nul bs) λ (v, rest). and_then (from_utf8 v) λ s. ok (s, rest)

  unfoldable pub get_str : ℕ → Reader Bytes
  get_str n bs =
      and_then (index_to n bs)
        λ v. and_then (from_utf8 v) λ s. and_then (advance n bs) λ (_, rest). ok (s, rest)

unfoldable pub put_str_nul : Bytes → Bytes → Bytes
put_str_nul buf s = (buf ++ s) ++ 0 ∷ []
