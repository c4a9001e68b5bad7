-- ===== src/Mysql/Stream/Drain.antt =====
-- `wait_until_ready` of rbdc-mysql/src/connection/stream.rs reads the rest of a result set.
use rbdc.Base.{
  ℕ, zero, suc, ◌+◌, ◌/◌, ◌%◌, ◌≤◌, ◌<◌, ◌≡◌, refl, ap, ◌∙◌, ◌≢◌, true, false, List, [], ◌∷◌, ◌++◌,
  append_assoc, Bytes, length, All, arith, ok, subst,
}
use rbdc.Crates.{Crates, Documented}
use rbdc.Io.Stream.{Delivery, arriving}
use rbdc.Io.Stream.Reads.{Holds, after_read}
use rbdc.Mysql.Packet.{max_chunk}
use rbdc.Mysql.Packet.Frames.{frames, next_seq}
use rbdc.Mysql.Response.{EofPacket, packet_eof}
use rbdc.Mysql.Status
use rbdc.Mysql.Stream.{
  MySqlStream, Waiting, row, continue, recv_packet, row_round, wait_round, wait_loop,
  wait_until_ready, is_eof, is_empty, pop_front,
}
use rbdc.Mysql.Stream.Receive.{received, recv_packet-frames}
use rbdc.Mysql.Stream.Wait.{wait_loop_steady}

abbrev full_chunks : Bytes → ℕ
full_chunks p = length p / max_chunk

-- The packets that a server sends for some payloads, and one more, with their sequence numbers.
unfoldable pub answer : ℕ → List Bytes → Bytes → Bytes
answer seq [] last = frames (full_chunks last) seq last
answer seq (p ∷ ps) last =
    frames (full_chunks p) seq p ++ answer (next_seq (full_chunks p) seq) ps last

next_seq_lt : (k seq : ℕ) → next_seq k seq < 256
unfolding next_seq
next_seq_lt zero seq = omega arith
next_seq_lt (suc k) seq = next_seq_lt k ((seq + 1) % 256)

module _ (c : Crates) where
  -- A packet that is neither an error nor the end of the rows.
  abbrev pub IsRow : Bytes → Type 0
  IsRow [] = true ≡ false
  IsRow (b ∷ bs) = (b ≢ 0xff) × (is_eof c (b ∷ bs) ≡ false)

  -- The end of the rows, without more results behind it.
  abbrev pub IsLast : ℕ → Bytes → Type 0
  IsLast capabilities [] = true ≡ false
  IsLast capabilities (b ∷ bs) =
      (b ≢ 0xff)
      × (is_eof c (b ∷ bs) ≡ true)
      × ((e : EofPacket) × (packet_eof c capabilities (b ∷ bs) ≡ ok e)
          × (c.contains e.status Status.server_more_results_exists ≡ false))

abbrev pub ended : MySqlStream → List Delivery → ℕ → MySqlStream
ended s left seq = record s { stream = after_read s.stream left; sequence_id = seq; waiting = [] }

module _ (c : Crates) (d : Documented c) where
  row_passes :
      (p : Bytes) (s t : MySqlStream)
      → is_eof c p ≡ false
      → recv_packet c s ≡ (ok p, t)
      → row_round c s ≡ (ok tt, t)
  unfolding row_round
  row_passes p s t e r = rw (r, e) refl

  last_pops :
      (p : Bytes) (s t : MySqlStream) (eof : EofPacket)
      → is_eof c p ≡ true
      → packet_eof c t.capabilities p ≡ ok eof
      → c.contains eof.status Status.server_more_results_exists ≡ false
      → recv_packet c s ≡ (ok p, t)
      → row_round c s ≡ (ok tt, record t { waiting = pop_front t.waiting })
  unfolding row_round
  last_pops p s t eof e q m r = rw (r, e, q, m) refl

  one_round :
      (n : ℕ) (ws : List Waiting) (s t : MySqlStream)
      → s.waiting ≡ row ∷ ws
      → row_round c s ≡ (ok tt, t)
      → wait_loop c (suc n) s ≡ wait_loop c n t
  unfolding wait_loop wait_round
  one_round n ws s t w r =
      ap (λ x. wait_round c x (wait_loop c n) s) w
      ∙ ap (λ x. continue x.0 (λ _. wait_loop c n) x.1) r

  no_round : (n : ℕ) (s : MySqlStream) → s.waiting ≡ [] → wait_loop c (suc n) s ≡ (ok tt, s)
  unfolding wait_loop wait_round
  no_round n s w = ap (λ x. wait_round c x (wait_loop c n) s) w

  Ends : ℕ → MySqlStream → Bytes → Type 0
  Ends n s rest =
      (left : List Delivery) × (q : ℕ) × (wait_loop c n s ≡ (ok tt, ended s left q))
      × Holds rest (after_read s.stream left)

  last-Ends :
      (n seq b : ℕ) (bs rest : Bytes) (s : MySqlStream)
      → seq < 256
      → IsLast c s.capabilities (b ∷ bs)
      → s.waiting ≡ row ∷ []
      → Holds (frames (full_chunks (b ∷ bs)) seq (b ∷ bs) ++ rest) s.stream
      → Ends (suc (suc n)) s rest
  unfolding Ends
  last-Ends n seq b bs rest s hs (ne, e, (eof, q, m)) w h =
      let (left, r, held) =
        recv_packet-frames c d (full_chunks (b ∷ bs)) seq b bs rest s ne hs (omega arith)
          (omega arith) h in
      (
        left,
        next_seq (full_chunks (b ∷ bs)) seq,
        one_round (suc n) [] s _ w (last_pops (b ∷ bs) s _ eof e q m r)
            ∙ no_round n _ (ap pop_front w)
            ∙ ap
                (λ x. (
                  ok tt,
                  record s {
                    stream = after_read s.stream left;
                    sequence_id = next_seq (full_chunks (b ∷ bs)) seq;
                    waiting = pop_front x;
                  },
                ))
                w,
        held,
      )

  rows_end :
      (rows : List Bytes) (last : Bytes) (n seq : ℕ) (rest : Bytes) (s : MySqlStream)
      → seq < 256
      → length rows + 2 ≤ n
      → All (IsRow c) rows
      → IsLast c s.capabilities last
      → s.waiting ≡ row ∷ []
      → Holds (answer seq rows last ++ rest) s.stream
      → Ends n s rest
  unfolding Ends answer
  rows_end [] [] n seq rest s hs hn rs l w h = ground (arith, l)
  rows_end [] (b ∷ bs) (suc (suc n)) seq rest s hs hn rs l w h =
      last-Ends n seq b bs rest s hs l w h
  rows_end rows last zero seq rest s hs hn rs l w h = absurd (omega arith)
  rows_end rows last (suc zero) seq rest s hs hn rs l w h = absurd (omega arith)
  rows_end ([] ∷ rows) last (suc (suc n)) seq rest s hs hn (r, rs) l w h = ground (arith, r)
  rows_end ((b ∷ bs) ∷ rows) last (suc (suc n)) seq rest s hs hn ((ne, e), rs) l w h =
      let k = full_chunks (b ∷ bs) in
      let (left, r, held) =
        recv_packet-frames c d k seq b bs (answer (next_seq k seq) rows last ++ rest) s ne hs
          (omega arith) (omega arith)
          (subst (λ x. Holds x s.stream)
            (append_assoc (frames k seq (b ∷ bs)) (answer (next_seq k seq) rows last) rest) h) in
      let (left2, q, r2, held2) =
        rows_end rows last (suc n) (next_seq k seq) rest (received s left (next_seq k seq))
          (next_seq_lt k seq) (omega arith) rs l w held in
      (left2, q, one_round (suc n) [] s _ w (row_passes (b ∷ bs) s _ e r) ∙ r2, held2)

  -- With nothing to flush the rounds start.
  starts :
      (s : MySqlStream)
      → s.stream.wbuf ≡ []
      → wait_until_ready c s ≡ wait_loop c (suc (arriving s.stream.socket)) s
  unfolding wait_until_ready is_empty
  starts s e = rw e refl

  -- A connection that has nothing to flush and still waits for the rows of one result set, of which the socket delivers some
  -- rows and the end of the rows, without more results, becomes ready: the wait succeeds, nothing is
  -- left to wait for, and the stream holds what follows the result set.
  pub wait_until_ready-answer :
      (rows : List Bytes) (last rest : Bytes) (seq : ℕ) (s : MySqlStream)
      → seq < 256
      → All (IsRow c) rows
      → IsLast c s.capabilities last
      → s.waiting ≡ row ∷ []
      → s.stream.wbuf ≡ []
      → Holds (answer seq rows last ++ rest) s.stream
      → (left : List Delivery) × (q : ℕ) × (wait_until_ready c s ≡ (ok tt, ended s left q))
        × Holds rest (after_read s.stream left)
  unfolding Ends
  wait_until_ready-answer rows last rest seq s hs rs l w empty h =
      let enough : ℕ = suc (arriving s.stream.socket) + (length rows + 2) in
      let (left, q, r, held) = rows_end rows last enough seq rest s hs (omega arith) rs l w h in
      (
        left,
        q,
        starts s empty
            ∙ wait_loop_steady c (suc (arriving s.stream.socket)) enough s (omega arith)
                (omega arith)
            ∙ r,
        held,
      )
