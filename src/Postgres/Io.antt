-- ===== src/Postgres/Io.antt =====
-- rbdc-pg/src/io/buf_mut.rs: what the messages of the driver are written with. The closure that
-- writes a body is a function on the buffer.
pub mod Laws
use rbdc.Base.{
  ℕ, zero, suc, ◌+◌, ◌-◌, ◌/◌, ◌%◌, ◌^◌, List, [], ◌∷◌, ◌++◌, Option, none, some, Bytes, length,
  replicate, overwrite, be_bytes, ltb, if◌then◌else◌,
}

-- `(self.len() - offset) as i32`, as its bits.
unfoldable pub put_length_prefixed : (Bytes → Bytes) → Bytes → Bytes
put_length_prefixed f buf =
    let offset = length buf in
    let written = f (buf ++ replicate 4 0) in
    overwrite offset (be_bytes 4 ((length written - offset) % 2 ^ 32)) written

-- `format` of the crate itoa is a parameter.
module _ (format : ℕ → Bytes) where
  -- `rbdc_s_` and the id
  unfoldable pub put_statement_name : ℕ → Bytes → Bytes
  put_statement_name id buf =
      ((buf ++ b'r' ∷ b'b' ∷ b'd' ∷ b'c' ∷ b'_' ∷ b's' ∷ b'_' ∷ []) ++ format id) ++ 0 ∷ []

  -- `rbdc_p_` and the id, or the empty name
  unfoldable pub put_portal_name : Option ℕ → Bytes → Bytes
  put_portal_name none buf = buf ++ 0 ∷ []
  put_portal_name (some id) buf =
      ((buf ++ b'r' ∷ b'b' ∷ b'd' ∷ b'c' ∷ b'_' ∷ b'p' ∷ b'_' ∷ []) ++ format id) ++ 0 ∷ []
