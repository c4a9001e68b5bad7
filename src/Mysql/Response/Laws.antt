-- ===== src/Mysql/Response/Laws.antt =====
-- What the decoders of the server's answers return on packets laid out as the protocol says.
use rbdc.Base.{
  ℕ, ◌^◌, ◌<◌, ◌≡◌, refl, sym, true, false, [], ◌∷◌, ◌++◌, append-nil, arith, none, some, Bytes,
  length, le_bytes, ok, err, ◌≢◌, ◌⊎◌, protocol,
}
use rbdc.Base.Utf8.{is_utf8}
use rbdc.Crates.{Crates, Documented}
use rbdc.Io.Laws.{get_uint_le-le_bytes, get_str-append, advance-append}
use rbdc.Mysql.Capabilities
use rbdc.Mysql.Lenenc.{put_uint_lenenc}
use rbdc.Mysql.Lenenc.Laws.{get_uint_lenenc-put_uint_lenenc, one_byte}
use rbdc.Mysql.Response.{decode_ok, decode_err}
use rbdc.Mysql.Status

-- The layout of an OK packet: its header, two length-encoded integers, and two integers of 16 bits.
abbrev pub ok_layout : ℕ → ℕ → ℕ → ℕ → ℕ → Bytes → Bytes
ok_layout header rows id status warnings rest =
    header ∷ put_uint_lenenc [] rows
    ++ (put_uint_lenenc [] id ++ (le_bytes 2 status ++ (le_bytes 2 warnings ++ rest)))

module _ (c : Crates) (d : Documented c) where
  -- An OK packet with either header and with fields that fit their widths is read as these fields,
  -- the status as the flags that the driver knows, whatever follows them.
  pub decode_ok-layout :
      (header rows id status warnings : ℕ) (rest : Bytes)
      → (header ≡ 0) ⊎ (header ≡ 0xfe)
      → rows < 2 ^ 64
      → id < 2 ^ 64
      → status < 2 ^ 16
      → warnings < 2 ^ 16
      → decode_ok c (ok_layout header rows id status warnings rest)
        ≡ ok (record {
          affected_rows = rows;
          last_insert_id = id;
          status = c.from_bits_truncate Status.all status;
          warnings = warnings;
        })
  unfolding decode_ok
  decode_ok-layout header rows id status warnings rest k hr hi hs hw = ground (
    arith,
    one_byte c d header (
        put_uint_lenenc [] rows
        ++ (put_uint_lenenc [] id ++ (le_bytes 2 status ++ (le_bytes 2 warnings ++ rest)))),
    get_uint_lenenc-put_uint_lenenc c d rows
        (put_uint_lenenc [] id ++ (le_bytes 2 status ++ (le_bytes 2 warnings ++ rest))) hr,
    get_uint_lenenc-put_uint_lenenc c d id (le_bytes 2 status ++ (le_bytes 2 warnings ++ rest)) hi,
    get_uint_le-le_bytes c d 2 status (le_bytes 2 warnings ++ rest) hs,
    get_uint_le-le_bytes c d 2 warnings rest hw,
  )

  -- Any other header is an error.
  pub decode_ok-header :
      (header : ℕ) (rest : Bytes)
      → header < 256
      → header ≢ 0
      → header ≢ 0xfe
      → decode_ok c (header ∷ rest)
        ≡ err (protocol "expected 0x00 or 0xfe (OK_Packet) but found 0x{:02x}" (header ∷ []))
  unfolding decode_ok
  decode_ok-header header rest h zero_not fe_not = ground (arith, one_byte c d header rest h)

  -- With the 4.1 protocol an error packet that has a '#' behind its number is read as its number, the
  -- five characters of its SQL state and the rest as the message, if both are in UTF-8.
  pub decode_err-state :
      (capabilities code : ℕ) (state message : Bytes)
      → c.contains capabilities Capabilities.protocol_41 ≡ true
      → code < 2 ^ 16
      → length state ≡ 5
      → is_utf8 state ≡ true
      → is_utf8 message ≡ true
      → decode_err c capabilities (0xff ∷ le_bytes 2 code ++ (0x23 ∷ state ++ message))
        ≡ ok (record { error_code = code; sql_state = some state; error_message = message })
  unfolding decode_err
  decode_err-state capabilities code state message p41 hc hs us um = ground (
    arith,
    one_byte c d 0xff (le_bytes 2 code ++ (0x23 ∷ state ++ message)) (omega arith),
    get_uint_le-le_bytes c d 2 code (0x23 ∷ state ++ message) hc,
    advance-append c d 1 (0x23 ∷ []) (state ++ message) refl,
    get_str-append c d 5 state message (sym hs) us,
    rw (append-nil message) at (get_str-append c d (length message) message [] refl um),
  )

  -- An error packet with a message in UTF-8 that is empty or does not begin with '#', or that comes
  -- over the older protocol, is read as its number and this message, without a SQL state.
  pub decode_err-plain :
      (capabilities code : ℕ) (message : Bytes)
      → code < 2 ^ 16
      → is_utf8 message ≡ true
      → (message ≡ [])
        ⊎ ((b : ℕ) × (bs : Bytes) × (message ≡ b ∷ bs) × (b ≢ 0x23))
        ⊎ (c.contains capabilities Capabilities.protocol_41 ≡ false)
      → decode_err c capabilities (0xff ∷ le_bytes 2 code ++ message)
        ≡ ok (record { error_code = code; sql_state = none; error_message = message })
  unfolding decode_err
  decode_err-plain capabilities code message hc um k = ground (
    arith,
    one_byte c d 0xff (le_bytes 2 code ++ message) (omega arith),
    get_uint_le-le_bytes c d 2 code message hc,
    rw (append-nil message) at (get_str-append c d (length message) message [] refl um),
  )
