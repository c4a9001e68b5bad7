-- ===== src/Postgres/Io/Laws.antt =====
-- The prefix of a message is the length that its reader takes.
use native.Mathlib.Nat.{mod-eq_of_lt}
use rbdc.Base.{
  ℕ, ◌+◌, ◌-◌, ◌^◌, ◌<◌, ◌≡◌, refl, ◌++◌, append_assoc, arith, Bytes, length, length-append,
  replicate, overwrite, be_bytes, length-be_bytes, take-append, drop-append, drop_behind, ok,
}
use rbdc.Crates.{Crates, Documented}
use rbdc.Io.Laws.{get_uint-be_bytes}
use rbdc.Postgres.Io.{put_length_prefixed}

-- The parts of the buffer after the prefix was written into the reserved space.
prefix_written :
    (buf p h : Bytes)
    → length h ≡ 4
    → overwrite (length buf) h ((buf ++ replicate 4 0) ++ p) ≡ buf ++ (h ++ p)
unfolding overwrite
prefix_written buf p h e =
    rw
      (
        e,
        append_assoc buf (replicate 4 0) p,
        take-append (length buf) buf (replicate 4 0 ++ p) refl,
        drop_behind 4 buf (replicate 4 0 ++ p),
        drop-append 4 (replicate {A = ℕ} 4 0) p refl,
      )
      (append_assoc buf h p)

-- A body that is appended to the buffer is written behind its length, which counts itself.
pub put_length_prefixed-body :
    (f : Bytes → Bytes) (p buf : Bytes)
    → ((b : Bytes) → f b ≡ b ++ p)
    → length p + 4 < 2 ^ 32
    → put_length_prefixed f buf ≡ buf ++ (be_bytes 4 (length p + 4) ++ p)
unfolding put_length_prefixed
put_length_prefixed-body f p buf h lt =
    let n : length ((buf ++ replicate 4 0) ++ p) - length buf ≡ length p + 4 =
      omega (
        arith,
        length-append (buf ++ replicate 4 0) p,
        length-append buf (replicate {A = ℕ} 4 0),
      ) in
    rw (h (buf ++ replicate 4 0), n, mod-eq_of_lt lt)
      (prefix_written buf p (be_bytes 4 (length p + 4)) (length-be_bytes 4 (length p + 4)))

module _ (c : Crates) (d : Documented c) where
  -- A body shorter than 2^31 - 4 bytes, which is appended to the buffer, is written behind what the
  -- buffer held as its length, read back as a number that counts its own four bytes, and the body.
  pub get_uint-put_length_prefixed :
      (f : Bytes → Bytes) (p buf rest : Bytes)
      → ((b : Bytes) → f b ≡ b ++ p)
      → length p + 4 < 2 ^ 31
      → (message : Bytes) × (put_length_prefixed f buf ≡ buf ++ message)
        × (c.get_uint 4 (message ++ rest) ≡ ok (length p + 4, p ++ rest))
  get_uint-put_length_prefixed f p buf rest h lt = (
    be_bytes 4 (length p + 4) ++ p,
    put_length_prefixed-body f p buf h (omega arith),
    rw (append_assoc (be_bytes 4 (length p + 4)) p rest)
        (get_uint-be_bytes c d 4 (length p + 4) (p ++ rest) (omega arith)),
  )
