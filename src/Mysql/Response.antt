-- ===== src/Mysql/Response.antt =====
-- rbdc-mysql/src/protocol/response: the OK, EOF and ERR packets that a server answers with.
pub mod Laws
use rbdc.Base.{
  ℕ, Bool, not, ◌&&◌, List, [], ◌∷◌, Option, none, some, ◌==◌, if◌then◌else◌, Bytes, length, Error,
  protocol, Outcome, ok, err, panic, Reader, pure, fail, ◌>>=◌, ◌>>◌, value_of,
}
use rbdc.Crates.{Crates}
use rbdc.Io.{get_str}
use rbdc.Mysql.Capabilities
use rbdc.Mysql.Lenenc.{get_uint_lenenc}
use rbdc.Mysql.Status

pub record OkPacket : Type 0 where
  pub affected_rows : ℕ
  pub last_insert_id : ℕ
  pub status : ℕ
  pub warnings : ℕ

pub record EofPacket : Type 0 where
  pub warnings : ℕ
  pub status : ℕ

pub record ErrPacket : Type 0 where
  pub error_code : ℕ
  pub sql_state : Option Bytes
  pub error_message : Bytes

module _ (c : Crates) where
  open c use {get_uint_le, advance, contains, from_bits_truncate}

  ok_reader : Reader OkPacket
  ok_reader = do
    header ← get_uint_le 1
    (if not (header == 0) && not (header == 0xfe)
        then fail (protocol "expected 0x00 or 0xfe (OK_Packet) but found 0x{:02x}" (header ∷ []))
        else do
          affected_rows ← get_uint_lenenc c
          last_insert_id ← get_uint_lenenc c
          status ← get_uint_le 2
          warnings ← get_uint_le 2
          pure (record {
            affected_rows = affected_rows;
            last_insert_id = last_insert_id;
            status = from_bits_truncate Status.all status;
            warnings = warnings;
          }))

  unfoldable pub decode_ok : Bytes → Outcome OkPacket
  unfolding ok_reader
  decode_ok buf = value_of (ok_reader buf)

  eof_reader : Reader EofPacket
  eof_reader = do
    header ← get_uint_le 1
    (if not (header == 0xfe)
        then fail (protocol "expected 0xfe (EOF_Packet) but found 0x{:x}" (header ∷ []))
        else do
          warnings ← get_uint_le 2
          status ← get_uint_le 2
          pure (record { warnings = warnings; status = from_bits_truncate Status.all status }))

  unfoldable pub decode_eof : Bytes → Outcome EofPacket
  unfolding eof_reader
  decode_eof buf = value_of (eof_reader buf)

  -- If the next byte is '#' then there is a SQL state.
  sql_state_after : Bytes → Reader (Option Bytes)
  sql_state_after [] = pure none
  sql_state_after (b ∷ _) =
      if b == 0x23 then (do advance 1; state ← get_str c 5; pure (some state)) else pure none

  err_reader : ℕ → Reader ErrPacket
  unfolding sql_state_after
  err_reader capabilities = do
    header ← get_uint_le 1
    (if not (header == 0xff)
        then fail (protocol "expected 0xff (ERR_Packet) but found 0x{:x}" (header ∷ []))
        else do
          error_code ← get_uint_le 2
          sql_state ← (λ bs.
              (if contains capabilities Capabilities.protocol_41
                  then sql_state_after bs
                  else pure none)
                bs)
          error_message ← (λ bs. get_str c (length bs) bs)
          pure (record {
            error_code = error_code;
            sql_state = sql_state;
            error_message = error_message;
          }))

  unfoldable pub decode_err : ℕ → Bytes → Outcome ErrPacket
  unfolding err_reader
  decode_err capabilities buf = value_of (err_reader capabilities buf)

  -- `Packet::eof`: since 5.7 the server may send an OK packet in its place.
  eof_of_ok : Outcome OkPacket → Outcome EofPacket
  eof_of_ok (ok p) = ok (record { warnings = p.warnings; status = p.status })
  eof_of_ok (err e) = err e
  eof_of_ok panic = panic

  unfoldable pub packet_eof : ℕ → Bytes → Outcome EofPacket
  unfolding decode_ok decode_eof eof_of_ok
  packet_eof capabilities buf =
      if contains capabilities Capabilities.deprecate_eof
      then eof_of_ok (decode_ok buf)
      else decode_eof buf
