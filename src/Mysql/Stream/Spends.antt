-- ===== src/Mysql/Stream/Spends.antt =====
-- The bytes that the methods of rbdc-mysql/src/connection/stream.rs take from the socket.
use rbdc.Base.{
  ℕ, zero, suc, ◌+◌, ◌%◌, ◌^◌, ◌≤◌, Bool, true, false, [], ◌∷◌, ◌++◌, Bytes, length, ltb, ◌==◌,
  if◌then◌else◌, arith, Outcome, ok, err, panic, Option, none, some, value_of,
}
use rbdc.Crates.{Crates}
use rbdc.Io.Stream.{arriving, read_raw, BufStream}
use rbdc.Io.Stream.Reads.Spent.{Took, read_raw-Took}
use rbdc.Mysql.Capabilities
use rbdc.Mysql.Lenenc.{get_uint_lenenc}
use rbdc.Mysql.Packet.{max_chunk}
use rbdc.Mysql.Response.{EofPacket, decode_ok, decode_eof, decode_err, packet_eof}
use rbdc.Mysql.Stream.{
  MySqlStream, row, Exec, header_fields, pure, lift, continue, ◌>>=◌, read, recv_part, recv_more,
  recv_payload, check_payload, recv_packet, maybe_recv_eof, skip_packets, skip_result_metadata,
  row_round, result_round, is_eof, is_ok_or_err, set_front, pop_front, server_error,
}

-- At least `n` bytes of `total` were taken from the socket, if there was no error.
abbrev pub Spent : {A : Type 0} → ℕ → ℕ → Outcome A × MySqlStream → Type 0
Spent n total (ok a, s) = arriving s.stream.socket + n ≤ total
Spent n total (err e, s) = Unit
Spent n total (panic, s) = Unit

abbrev pub Spends : {A : Type 0} → ℕ → Exec A → Type 0
Spends n m = (s : MySqlStream) → Spent n (arriving s.stream.socket) (m s)

Spent-le :
    {A : Type 0} (n k total : ℕ) (r : Outcome A × MySqlStream)
    → k ≤ n
    → Spent n total r
    → Spent k total r
Spent-le n k total (ok a, s) le h = omega arith
Spent-le n k total (err e, s) le h = tt
Spent-le n k total (panic, s) le h = tt

Spent-trans :
    {A : Type 0} (n k total t : ℕ) (r : Outcome A × MySqlStream)
    → t + n ≤ total
    → Spent k t r
    → Spent (n + k) total r
Spent-trans n k total t (ok a, s) le h = omega arith
Spent-trans n k total t (err e, s) le h = tt
Spent-trans n k total t (panic, s) le h = tt

continue-Spent :
    {A B : Type 0} (n k total : ℕ) (r : Outcome A × MySqlStream) (f : A → Exec B)
    → Spent n total r
    → ((a : A) → Spends k (f a))
    → Spent (n + k) total (continue r.0 f r.1)
continue-Spent n k total (ok a, s) f h g =
    Spent-trans n k total (arriving s.stream.socket) (f a s) h (g a s)
continue-Spent n k total (err e, s) f h g = tt
continue-Spent n k total (panic, s) f h g = tt

bind-Spends :
    {A B : Type 0} (n k : ℕ) (m : Exec A) (f : A → Exec B)
    → Spends n m
    → ((a : A) → Spends k (f a))
    → Spends (n + k) (m >>= f)
bind-Spends n k m f h g s = continue-Spent n k (arriving s.stream.socket) (m s) f (h s) g

pure-Spends : {A : Type 0} (a : A) → Spends 0 (pure a)
pure-Spends a s = omega arith

lift-Spends : {A : Type 0} (r : Outcome A) → Spends 0 (lift r)
lift-Spends (ok a) s = omega arith
lift-Spends (err e) s = tt
lift-Spends panic s = tt

took :
    (n total : ℕ) (s : MySqlStream) (r : Outcome Bytes × BufStream)
    → Took total n r
    → Spent n total (r.0, record s { stream = r.1 })
took n total s (ok bs, t) h = omega arith
took n total s (err e, t) h = tt
took n total s (panic, t) h = tt

at_least : {A : Type 0} (n k : ℕ) (m : Exec A) → k ≤ n → Spends n m → Spends k m
at_least n k m le h s = Spent-le n k (arriving s.stream.socket) (m s) le (h s)

Spent-if :
    {A : Type 0} (n total : ℕ) (b : Bool) (x y : Outcome A × MySqlStream)
    → Spent n total x
    → Spent n total y
    → Spent n total (if b then x else y)
Spent-if n total true x y h k = h
Spent-if n total false x y h k = k

if-Spends :
    {A : Type 0} (n : ℕ) (b : Bool) (x y : Exec A)
    → Spends n x
    → Spends n y
    → Spends n (if b then x else y)
if-Spends n true x y h k = h
if-Spends n false x y h k = k

read-Spends : (n : ℕ) → Spends n (read n)
read-Spends n s =
    took n (arriving s.stream.socket) s (read_raw n s.stream) (read_raw-Took n s.stream)

module _ (c : Crates) where
  pub recv_part-Spends : Spends 4 (recv_part c)
  unfolding recv_part
  recv_part-Spends = bind-Spends 4 0 (read 4) _ (read-Spends 4) (λ header.
      bind-Spends 0 0 (lift (header_fields c header)) _ (lift-Spends (header_fields c header))
        (λ fields s.
          Spent-le fields.0 0 (arriving s.stream.socket)
            (read fields.0 (record s { sequence_id = (fields.1 + 1) % 2 ^ 8 })) (omega arith)
            (read-Spends fields.0 (record s { sequence_id = (fields.1 + 1) % 2 ^ 8 }))))

  recv_more-Spends : (fuel last_read : ℕ) (p : Bytes) → Spends 0 (recv_more c fuel last_read p)
  unfolding recv_more
  recv_more-Spends zero last_read p s = tt
  recv_more-Spends (suc fuel) last_read p s =
      if-Spends 0 (last_read == max_chunk)
        (recv_part c >>= λ part. recv_more c fuel (length part) (p ++ part)) (pure p)
        (bind-Spends 0 0 (recv_part c) _ (at_least 4 0 (recv_part c) (omega arith) recv_part-Spends)
          (λ part. recv_more-Spends fuel (length part) (p ++ part)))
        (pure-Spends p) s

  recv_payload-Spends : Spends 4 (recv_payload c)
  unfolding recv_payload
  recv_payload-Spends = bind-Spends 4 0 (recv_part c) _ recv_part-Spends (λ payload.
      if-Spends 0 (ltb (length payload) max_chunk) (pure payload) _ (pure-Spends payload)
        (λ s. recv_more-Spends (suc (suc (arriving s.stream.socket))) max_chunk payload s))

  check_payload-Spends : (payload : Bytes) → Spends 0 (check_payload c payload)
  unfolding check_payload
  check_payload-Spends [] s = tt
  check_payload-Spends (b ∷ bs) s =
      Spent-if 0 (arriving s.stream.socket) (b == 0xff) _ _
        (lift-Spends (server_error c (decode_err c s.capabilities (b ∷ bs)))
          (record s { waiting = pop_front s.waiting }))
        (pure-Spends (b ∷ bs) s)

  recv_packet-Spends : Spends 4 (recv_packet c)
  unfolding recv_packet
  recv_packet-Spends =
      bind-Spends 4 0 (recv_payload c) (check_payload c) recv_payload-Spends check_payload-Spends

  some_packet-Spends : Spends 0 (recv_packet c)
  some_packet-Spends = at_least 4 0 (recv_packet c) (omega arith) recv_packet-Spends

  skip_packets-Spends : (n : ℕ) → Spends 0 (skip_packets c n)
  unfolding skip_packets
  skip_packets-Spends zero = pure-Spends tt
  skip_packets-Spends (suc n) =
      bind-Spends 0 0 (recv_packet c) (λ _. skip_packets c n) some_packet-Spends
        (λ _. skip_packets-Spends n)

  maybe_recv_eof-Spends : Spends 0 (maybe_recv_eof c)
  unfolding maybe_recv_eof
  maybe_recv_eof-Spends s =
      Spent-if 0 (arriving s.stream.socket) (c.contains s.capabilities Capabilities.deprecate_eof) _
        _ (pure-Spends {A = Option EofPacket} none s)
        (bind-Spends 0 0 (recv_packet c) _ some_packet-Spends
          (λ packet.
            bind-Spends 0 0 (lift (decode_eof c packet)) _ (lift-Spends (decode_eof c packet))
              (λ eof. pure-Spends (some eof)))
          s)

  skip_result_metadata-Spends : (packet : Bytes) → Spends 0 (skip_result_metadata c packet)
  unfolding skip_result_metadata
  skip_result_metadata-Spends packet =
      bind-Spends 0 0 (lift (value_of (get_uint_lenenc c packet))) _
        (lift-Spends (value_of (get_uint_lenenc c packet)))
        (λ n.
          bind-Spends 0 0 (skip_packets c n) _ (skip_packets-Spends n)
            (λ _. bind-Spends 0 0 (maybe_recv_eof c) _ maybe_recv_eof-Spends (λ _. pure-Spends tt)))

  pub row_round-Spends : Spends 4 (row_round c)
  unfolding row_round
  row_round-Spends = bind-Spends 4 0 (recv_packet c) _ recv_packet-Spends (λ packet.
      if-Spends 0 (is_eof c packet) _ (pure tt)
        (λ s.
          bind-Spends 0 0 (lift (packet_eof c s.capabilities packet)) _
            (lift-Spends (packet_eof c s.capabilities packet)) (λ eof t. omega arith) s)
        (pure-Spends tt))

  pub result_round-Spends : Spends 4 (result_round c)
  unfolding result_round
  result_round-Spends = bind-Spends 4 0 (recv_packet c) _ recv_packet-Spends (λ packet.
      if-Spends 0 (is_ok_or_err c packet) _ _
        (bind-Spends 0 0 (lift (decode_ok c packet)) _ (lift-Spends (decode_ok c packet))
          (λ p t. omega arith))
        (λ s.
          skip_result_metadata-Spends packet (record s { waiting = set_front c row s.waiting })))
