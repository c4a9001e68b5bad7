-- ===== src/Mysql/Stream/Receive.antt =====
-- `recv_packet` reads back what `write_packet` writes.
use rbdc.Base.{
  ℕ, zero, suc, ◌+◌, ◌*◌, ◌/◌, ◌%◌, ◌^◌, ◌≤◌, ◌<◌, ◌≡◌, refl, ap, sym, ◌∙◌, List, [], ◌∷◌, ◌++◌,
  append_assoc, arith, Bytes, length, take, drop, length-append, length-take, length-drop,
  take-append, drop-append, ok, subst, ◌≢◌, take-append-drop,
}
use rbdc.Crates.{Crates, Documented}
use rbdc.Io.Laws.{get_uint_le-le_bytes}
use rbdc.Io.Stream.{arriving, Delivery}
use rbdc.Io.Stream.Reads.{Holds, after_read, read_raw_lem}
use rbdc.Io.Stream.Reads.Spent.{arriving-Delivers}
use rbdc.Mysql.Lenenc.Laws.{one_byte}
use rbdc.Mysql.Packet.{max_chunk, encode_with}
use rbdc.Mysql.Packet.Frames.{header, frames, next_seq, encode_with-frames}
use rbdc.Mysql.Stream.{
  MySqlStream, Exec, header_fields, recv_part, recv_more, recv_payload, recv_packet, read,
}

-- The state after packets were received: the socket has moved on, and the sequence number is taken over.
abbrev pub received : MySqlStream → List Delivery → ℕ → MySqlStream
received s left seq = record s { stream = after_read s.stream left; sequence_id = seq }

-- A read of the first part of what the stream holds.
read-append :
    (n : ℕ) (bs rest : Bytes) (s : MySqlStream)
    → length bs ≡ n
    → Holds (bs ++ rest) s.stream
    → (left : List Delivery) × (read n s ≡ (ok bs, record s { stream = after_read s.stream left }))
      × Holds rest (after_read s.stream left)
read-append n bs rest s e h =
    let (left, r, held) =
      read_raw_lem n (bs ++ rest) s.stream h (omega (arith, length-append bs rest)) in
    (
      left,
      rw (r, take-append n bs rest (sym e)),
      subst (λ x. Holds x (after_read s.stream left)) (drop-append n bs rest (sym e)) held,
    )

module _ (c : Crates) (d : Documented c) where
  header_fields-header :
      (n seq : ℕ) → n < 2 ^ 24 → seq < 256 → header_fields c (header n seq) ≡ ok (n, seq)
  unfolding header_fields
  header_fields-header n seq hn hs =
      ground (arith, get_uint_le-le_bytes c d 3 n (seq ∷ []) hn, one_byte c d seq [] hs)

  -- One packet.
  recv_part_lem :
      (n seq : ℕ) (p rest : Bytes) (s : MySqlStream)
      → n < 2 ^ 24
      → seq < 256
      → length p ≡ n
      → Holds (header n seq ++ (p ++ rest)) s.stream
      → (left : List Delivery) × (recv_part c s ≡ (ok p, received s left ((seq + 1) % 256)))
        × Holds rest (after_read s.stream left)
  recv_part_lem n seq p rest s hn hs e h =
      let (left1, r1, held1) = read-append 4 (header n seq) (p ++ rest) s refl h in
      let (left2, r2, held2) = read-append n p rest (received s left1 ((seq + 1) % 256)) e held1 in
      (left2, unfold recv_part in ground (arith, r1, r2, header_fields-header n seq hn hs), held2)

  -- The state after one more packet, seen by the next.
  abbrev pub Received : Exec Bytes → Bytes → ℕ → Bytes → MySqlStream → Type 0
  Received m p seq rest s =
      (left : List Delivery) × (m s ≡ (ok p, received s left seq))
      × Holds rest (after_read s.stream left)

  recv_more-stops :
      (fuel n : ℕ) (acc : Bytes) (s : MySqlStream)
      → n < max_chunk
      → recv_more c (suc fuel) n acc s ≡ (ok acc, s)
  unfolding recv_more
  recv_more-stops fuel n acc s h = ground arith

  recv_more-step :
      (fuel n : ℕ) (acc p : Bytes) (s t u : MySqlStream) (q : Bytes)
      → length p ≡ n
      → recv_part c s ≡ (ok p, t)
      → recv_more c fuel n (acc ++ p) t ≡ (ok q, u)
      → recv_more c (suc fuel) max_chunk acc s ≡ (ok q, u)
  unfolding recv_more
  recv_more-step fuel n acc p s t u q len e k = ground (arith, e, k)

  joined :
      (fuel next last : ℕ) (acc chunk tail rest : Bytes) (s : MySqlStream) (left : List Delivery)
      → length chunk ≡ max_chunk
      → recv_part c s ≡ (ok chunk, received s left next)
      → Received
          (recv_more c fuel max_chunk (acc ++ chunk))
          ((acc ++ chunk) ++ tail)
          last
          rest
          (received s left next)
      → Received (recv_more c (suc fuel) max_chunk acc) (acc ++ (chunk ++ tail)) last rest s
  joined fuel next last acc chunk tail rest s left full r (left2, e, held) = (
    left2,
    recv_more-step fuel max_chunk acc chunk s _ _ _ full r e
        ∙ ap (λ x. (ok x, received s left2 last)) (append_assoc acc chunk tail),
    held,
  )

  first_frame :
      (k seq : ℕ) (p rest : Bytes) (s : MySqlStream)
      → Holds (frames (suc k) seq p ++ rest) s.stream
      → Holds
          (header max_chunk seq
            ++ (take max_chunk p ++ (frames k ((seq + 1) % 256) (drop max_chunk p) ++ rest)))
          s.stream
  unfolding frames
  first_frame k seq p rest s =
      subst (λ x. Holds (header max_chunk seq ++ x) s.stream)
        (append_assoc (take max_chunk p) (frames k ((seq + 1) % 256) (drop max_chunk p)) rest)

  -- The packets behind a full one are joined to what came before.
  recv_more_lem :
      (k fuel seq : ℕ) (acc p rest : Bytes) (s : MySqlStream)
      → seq < 256
      → k * max_chunk ≤ length p
      → length p < (k + 1) * max_chunk
      → k + 2 ≤ fuel
      → Holds (frames k seq p ++ rest) s.stream
      → Received (recv_more c fuel max_chunk acc) (acc ++ p) (next_seq k seq) rest s
  unfolding frames next_seq
  recv_more_lem k zero seq acc p rest s hs lo hi hf h = absurd (omega arith)
  recv_more_lem k (suc zero) seq acc p rest s hs lo hi hf h = absurd (omega arith)
  recv_more_lem zero (suc (suc fuel)) seq acc p rest s hs lo hi hf h =
      let (left, r, held) = recv_part_lem (length p) seq p rest s (omega arith) hs refl h in
      (
        left,
        recv_more-step (suc fuel) (length p) acc p s _ _ (acc ++ p) refl r
            (recv_more-stops fuel (length p) (acc ++ p) _ (omega arith)),
        held,
      )
  recv_more_lem (suc k) (suc (suc fuel)) seq acc p rest s hs lo hi hf h =
      let chunk = take max_chunk p in
      let next : ℕ = (seq + 1) % 256 in
      let full : length chunk ≡ max_chunk = omega (arith, length-take max_chunk p) in
      let more = frames k next (drop max_chunk p) in
      let (left, r, held) =
        recv_part_lem max_chunk seq chunk (more ++ rest) s (omega arith) hs full
          (first_frame k seq p rest s h) in
      subst
        (λ x.
          Received (recv_more c (suc (suc fuel)) max_chunk acc) (acc ++ x) (next_seq k next) rest s)
        (take-append-drop max_chunk p)
        (joined (suc fuel) next (next_seq k next) acc chunk (drop max_chunk p) rest s left full r (
          recv_more_lem k (suc fuel) next (acc ++ chunk) (drop max_chunk p) rest
            (received s left next) (omega arith) (omega (arith, length-drop max_chunk p))
            (omega (arith, length-drop max_chunk p)) (omega arith) held))

  frames_long : (k seq : ℕ) (p : Bytes) → k ≤ length (frames k seq p)
  unfolding frames
  frames_long zero seq p = omega arith
  frames_long (suc k) seq p = omega (
    arith,
    frames_long k ((seq + 1) % 256) (drop max_chunk p),
    length-append (header max_chunk seq ++ take max_chunk p)
        (frames k ((seq + 1) % 256) (drop max_chunk p)),
    length-append (header max_chunk seq) (take max_chunk p),
  )

  recv_packet-passes :
      (b : ℕ) (bs : Bytes) (s t : MySqlStream)
      → b ≢ 0xff
      → recv_payload c s ≡ (ok (b ∷ bs), t)
      → recv_packet c s ≡ (ok (b ∷ bs), t)
  unfolding recv_packet
  recv_packet-passes b bs s t h e = ground (arith, e)

  recv_payload-short :
      (p : Bytes) (s t : MySqlStream)
      → length p < max_chunk
      → recv_part c s ≡ (ok p, t)
      → recv_payload c s ≡ (ok p, t)
  unfolding recv_payload
  recv_payload-short p s t h e = ground (arith, e)

  recv_payload-long :
      (p : Bytes) (s t : MySqlStream)
      → length p ≡ max_chunk
      → recv_part c s ≡ (ok p, t)
      → recv_payload c s ≡ recv_more c (suc (suc (arriving t.stream.socket))) max_chunk p t
  unfolding recv_payload
  recv_payload-long p s t h e = ground (arith, e)

  -- The packets of a payload are received as the payload. The fuel is enough, since every packet
  -- takes bytes from the socket.
  pub recv_payload-frames :
      (k seq : ℕ) (p rest : Bytes) (s : MySqlStream)
      → seq < 256
      → k * max_chunk ≤ length p
      → length p < (k + 1) * max_chunk
      → Holds (frames k seq p ++ rest) s.stream
      → Received (recv_payload c) p (next_seq k seq) rest s
  unfolding frames next_seq
  recv_payload-frames zero seq p rest s hs lo hi h =
      let (left, r, held) = recv_part_lem (length p) seq p rest s (omega arith) hs refl h in
      (left, recv_payload-short p s _ (omega arith) r, held)
  recv_payload-frames (suc k) seq p rest s hs lo hi h =
      let chunk = take max_chunk p in
      let next : ℕ = (seq + 1) % 256 in
      let full : length chunk ≡ max_chunk = omega (arith, length-take max_chunk p) in
      let more = frames k next (drop max_chunk p) in
      let (left, r, held) =
        recv_part_lem max_chunk seq chunk (more ++ rest) s (omega arith) hs full
          (first_frame k seq p rest s h) in
      let (left2, e, held2) =
        recv_more_lem k (suc (suc (arriving left))) next chunk (drop max_chunk p) rest
          (received s left next) (omega arith) (omega (arith, length-drop max_chunk p))
          (omega (arith, length-drop max_chunk p))
          (omega (
            arith,
            frames_long k next (drop max_chunk p),
            length-append more rest,
            arriving-Delivers (more ++ rest) left held.delivers,
          ))
          held in
      (
        left2,
        recv_payload-long chunk s _ full r
            ∙ e
            ∙ ap (λ x. (ok x, received s left2 (next_seq k next))) (take-append-drop max_chunk p),
        held2,
      )

  -- A packet that is no error is received as it was divided.
  pub recv_packet-frames :
      (k seq b : ℕ) (bs rest : Bytes) (s : MySqlStream)
      → b ≢ 0xff
      → seq < 256
      → k * max_chunk ≤ length (b ∷ bs)
      → length (b ∷ bs) < (k + 1) * max_chunk
      → Holds (frames k seq (b ∷ bs) ++ rest) s.stream
      → Received (recv_packet c) (b ∷ bs) (next_seq k seq) rest s
  recv_packet-frames k seq b bs rest s ne hs lo hi h =
      let (left, r, held) = recv_payload-frames k seq (b ∷ bs) rest s hs lo hi h in
      (left, recv_packet-passes b bs s _ ne r, held)

  -- A payload that is not empty and does not begin with 0xff, however long it is, comes out of
  -- `recv_packet` as it went into `encode_with`: behind its packets the stream holds what follows
  -- them, and the sequence number is the one that the writer came to.
  pub recv_packet-encode_with :
      (payload : Bytes → Bytes) (b : ℕ) (bs rest : Bytes) (seq : ℕ) (s : MySqlStream)
      → ((buf : Bytes) → payload buf ≡ buf ++ b ∷ bs)
      → b ≢ 0xff
      → seq < 256
      → Holds ((encode_with payload [] seq).0 ++ rest) s.stream
      → (left : List Delivery) × (recv_packet c s ≡ (
        ok (b ∷ bs),
        record s {
          stream = after_read s.stream left;
          sequence_id = (encode_with payload [] seq).1;
        },
      ))
        × Holds rest (after_read s.stream left)
  recv_packet-encode_with payload b bs rest seq s app ne hs h =
      let e = encode_with-frames payload (b ∷ bs) [] seq app in
      let k : ℕ = length (b ∷ bs) / max_chunk in
      let (left, r, held) =
        recv_payload-frames k seq (b ∷ bs) rest s hs (omega arith) (omega arith)
          (subst (λ w. Holds (w.0 ++ rest) s.stream) e h) in
      (
        left,
        recv_packet-passes b bs s _ ne (r ∙ ap (λ w. (ok (b ∷ bs), received s left w.1)) (sym e)),
        held,
      )
