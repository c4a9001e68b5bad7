-- ===== src/Mysql/Stream.antt =====
-- rbdc-mysql/src/connection/stream.rs: the connection's stream of packets. Its methods are actions on
-- the state; what was changed before an error stays changed.
pub mod Receive
pub mod Spends
pub mod Parts
pub mod Wait
pub mod Drain
use rbdc.Base.{
  ℕ, zero, suc, ◌+◌, ◌-◌, ◌%◌, ◌^◌, Bool, true, false, not, ◌&&◌, ◌||◌, List, [], ◌∷◌, ◌++◌, Option,
  none, some, ltb, ◌==◌, if◌then◌else◌, Bytes, length, Error, protocol, database, io, Outcome, ok,
  err, panic, value_of,
}
use rbdc.Crates.{Crates}
use rbdc.Io.Stream.{arriving, BufStream, Delivery, arrives, breaks, read_raw, write_with, flush}
use rbdc.Mysql.Capabilities
use rbdc.Mysql.Collation.{CharSet, Collation}
use rbdc.Mysql.Lenenc.{get_uint_lenenc}
use rbdc.Mysql.Packet.{encode_with, max_chunk}
use rbdc.Mysql.Response.{
  OkPacket, EofPacket, ErrPacket, decode_ok, decode_eof, decode_err, packet_eof,
}
use rbdc.Mysql.Status

-- What the connection still waits for: a result set, or a row within one.
pub data Waiting : Type 0 where
  result row : Waiting

pub record MySqlStream : Type 0 where
  pub stream : BufStream
  pub server_version : ℕ × ℕ × ℕ
  pub capabilities : ℕ
  pub sequence_id : ℕ
  pub waiting : List Waiting
  pub charset : CharSet
  pub collation : Collation

abbrev pub Exec : Type 0 → Type 0
Exec A = MySqlStream → Outcome A × MySqlStream

abbrev pub pure : {A : Type 0} → A → Exec A
pure a s = (ok a, s)

abbrev pub lift : {A : Type 0} → Outcome A → Exec A
lift r s = (r, s)

abbrev continue : {A B : Type 0} → Outcome A → (A → Exec B) → Exec B
continue (ok a) f s = f a s
continue (err e) f s = (err e, s)
continue panic f s = (panic, s)

infixl 5 ◌>>=◌ ◌>>◌
abbrev pub ◌>>=◌ : {A B : Type 0} → Exec A → (A → Exec B) → Exec B
◌>>=◌ m f s = let (r, s') = m s in continue r f s'

abbrev pub ◌>>◌ : {A B : Type 0} → Exec A → Exec B → Exec B
m >> k = m >>= λ _. k

abbrev on_stream : {A : Type 0} → (BufStream → Outcome A × BufStream) → Exec A
on_stream f s = let (r, stream) = f s.stream in (r, record s { stream = stream })

-- `self.stream.read(n)`
abbrev read : ℕ → Exec Bytes
read n = on_stream (read_raw n)

abbrev pop_front : List Waiting → List Waiting
pop_front [] = []
pop_front (w ∷ ws) = ws

unfoldable pub write_packet : (Bytes → Bytes) → MySqlStream → MySqlStream
write_packet payload s =
    let (wbuf, next) = encode_with payload s.stream.wbuf s.sequence_id in
    record s { stream = write_with (λ _. wbuf) s.stream; sequence_id = next }

unfoldable pub send_packet : (Bytes → Bytes) → Exec (Unit {0})
unfolding write_packet
send_packet payload s = on_stream flush (write_packet payload (record s { sequence_id = 0 }))

module _ (c : Crates) where
  open c use {get_uint_le, contains}

  -- The header of a packet: its size; the sequence number is taken over.
  header_fields : Bytes → Outcome (ℕ × ℕ)
  header_fields header = elim (get_uint_le 3 header) [
    | ok (packet_size, rest) ↦ elim (get_uint_le 1 rest) [
      | ok (sequence_id, _) ↦ ok (packet_size, sequence_id)
      | err e ↦ err e
      | panic ↦ panic
    ]
    | err e ↦ err e
    | panic ↦ panic
  ]

  pub recv_part : Exec Bytes
  unfolding header_fields
  recv_part = do
    header ← read 4
    fields ← lift (header_fields header)
    (λ s. (ok tt, record s { sequence_id = (fields.1 + 1) % 2 ^ 8 }))
    read fields.0

  -- `while last_read == 0xFF_FF_FF`
  recv_more : ℕ → ℕ → Bytes → Exec Bytes
  recv_more zero last_read final_payload = lift (err (io "fuel"))
  recv_more (suc fuel) last_read final_payload =
      if last_read == max_chunk
      then (do part ← recv_part; recv_more fuel (length part) (final_payload ++ part))
      else pure final_payload

  pub recv_payload : Exec Bytes
  recv_payload = do
    payload ← recv_part
    (if ltb (length payload) max_chunk
        then pure payload
        else (λ s. recv_more (suc (suc (arriving s.stream.socket))) max_chunk payload s))

  -- A payload that begins with 0xff is the server's error; any other is the packet.
  server_error : Outcome ErrPacket → Outcome Bytes
  server_error (ok p) = err (database p.error_code p.sql_state p.error_message)
  server_error (err e) = err e
  server_error panic = panic

  check_payload : Bytes → Exec Bytes
  unfolding server_error
  check_payload [] s = (err (protocol "Packet empty" []), s)
  check_payload (b ∷ bs) s =
      if b == 0xff
      then (
        server_error (decode_err c s.capabilities (b ∷ bs)),
        record s { waiting = pop_front s.waiting },
      )
      else (ok (b ∷ bs), s)

  pub recv_packet : Exec Bytes
  unfolding check_payload
  recv_packet = do payload ← recv_payload; check_payload payload

  pub recv_ok : Exec OkPacket
  recv_ok = do packet ← recv_packet; lift (decode_ok c packet)

  -- `self.recv()` at `EofPacket`, which `Decode` reads whatever the capabilities are
  pub maybe_recv_eof : Exec (Option EofPacket)
  maybe_recv_eof s =
      if contains s.capabilities Capabilities.deprecate_eof
      then (ok none, s)
      else (recv_packet >>= λ packet. lift (decode_eof c packet) >>= λ eof. pure (some eof)) s

  -- `for _ in 0..num_columns`
  skip_packets : ℕ → Exec (Unit {0})
  skip_packets zero = pure tt
  skip_packets (suc n) = do recv_packet; skip_packets n

  skip_result_metadata : Bytes → Exec (Unit {0})
  unfolding skip_packets maybe_recv_eof
  skip_result_metadata packet = do
    num_columns ← lift (value_of (get_uint_lenenc c packet))
    skip_packets num_columns
    maybe_recv_eof
    pure tt

  abbrev set_front : Waiting → List Waiting → List Waiting
  set_front w [] = []
  set_front w (_ ∷ ws) = w ∷ ws

  -- `packet.len() < 9` with the header 0xfe: the end of the rows
  unfoldable pub is_eof : Bytes → Bool
  is_eof [] = false
  is_eof (b ∷ bs) = b == 0xfe && ltb (length (b ∷ bs)) 9

  is_ok_or_err : Bytes → Bool
  is_ok_or_err [] = false
  is_ok_or_err (b ∷ bs) = b == 0x00 || b == 0xff

  -- One round of the loop while the front waits for a row, and one while it waits for a result.
  pub row_round : Exec (Unit {0})
  unfolding is_eof
  row_round = do
    packet ← recv_packet
    (if is_eof packet
        then (λ s.
            (lift (packet_eof c s.capabilities packet) >>= λ eof t. (
              ok tt,
              record t {
                waiting =
                    if contains eof.status Status.server_more_results_exists
                    then set_front result t.waiting
                    else pop_front t.waiting;
              },
            ))
              s)
        else pure tt)

  pub result_round : Exec (Unit {0})
  unfolding is_ok_or_err skip_result_metadata
  result_round = do
    packet ← recv_packet
    (if is_ok_or_err packet
        then (lift (decode_ok c packet) >>= λ p t. (
          ok tt,
          record t {
            waiting =
                if contains p.status Status.server_more_results_exists
                then t.waiting
                else pop_front t.waiting;
          },
        ))
        else (λ s. skip_result_metadata packet (record s { waiting = set_front row s.waiting })))

  -- One round of the three nested loops, as the front of the queue says, and `again`; none if the
  -- queue is empty.
  wait_round : List Waiting → Exec (Unit {0}) → Exec (Unit {0})
  unfolding row_round result_round
  wait_round [] again = pure tt
  wait_round (row ∷ ws) again = do row_round; again
  wait_round (result ∷ ws) again = do result_round; again

  pub wait_loop : ℕ → Exec (Unit {0})
  wait_loop zero s = (err (io "fuel"), s)
  wait_loop (suc fuel) s = wait_round s.waiting (wait_loop fuel) s

  is_empty : Bytes → Bool
  is_empty [] = true
  is_empty (b ∷ bs) = false

  pub wait_until_ready : Exec (Unit {0})
  unfolding wait_loop wait_round is_empty
  wait_until_ready s =
      ((if is_empty s.stream.wbuf then pure tt else on_stream flush) >>= λ _ t.
      wait_loop (suc (arriving t.stream.socket)) t)
        s
