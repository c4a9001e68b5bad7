-- ===== src/Io/Stream/Reads.antt =====
-- `read_raw` of src/io/buf_stream.rs against the bytes that the socket delivers.
pub mod Short
pub mod Spent
use rbdc.Base.{
  ℕ, zero, suc, ◌+◌, ◌-◌, ◌≤◌, ◌<◌, ◌≡◌, refl, ap, sym, ◌∙◌, ◌≢◌, inl, inr, true, false, List, [],
  ◌∷◌, ◌++◌, subst, append_assoc, append-nil, arith, ltb, Bytes, length, take, drop, overwrite,
  replicate, length-append, length-take, length-drop, length-replicate, take-append, Bool-cases,
  ltb→lt, le→leb, Error, io, String, ok, err, take_all, drop_all, take_inside, take_behind,
  drop_inside, drop_behind, drop-replicate,
}
use native.Mathlib.Nat.{sub_self, sub-zero}
use rbdc.Io.Stream.{
  Delivery, arrives, breaks, BufStream, BufTruncator, read_loop, read_raw, reserve, truncated,
  filled, is_full, done, split, aborted,
}

-- The socket delivers these bytes, without an error and without its end between them.
abbrev pub Delivers : Bytes → List Delivery → Type 0
Delivers bytes [] = bytes ≡ []
Delivers bytes (breaks m ∷ socket) = bytes ≡ []
Delivers bytes (arrives bs ∷ socket) =
    (more : Bytes) × (bytes ≡ bs ++ more) × (bs ≢ []) × Delivers more socket

-- The buffer while it is read into: what came, and zeros in the free part.
abbrev pub partial : Bytes → ℕ → BufTruncator
partial got k = record { buf = got ++ replicate k 0; filled_len = length got }

reserve_lem :
    (got : Bytes) (k : ℕ)
    → reserve k (record { buf = got; filled_len = length got }) ≡ partial got k
unfolding reserve
reserve_lem got k = rw (take_all (length got) got (omega arith))

module _ (got : Bytes) (k : ℕ) where
  length-partial : length (got ++ replicate k 0) ≡ length got + k
  length-partial = omega (arith, length-append got (replicate k 0), length-replicate {A = ℕ} k 0)

  space_partial : length (got ++ replicate k 0) - length got ≡ k
  space_partial = omega (arith, length-partial)

  is_full-zero : k ≡ 0 → is_full (partial got k) ≡ true
  unfolding is_full
  is_full-zero e = le→leb _ _ (omega (arith, length-partial))

  is_full-pos : 0 < k → is_full (partial got k) ≡ false
  unfolding is_full
  is_full-pos h = ground (arith, length-partial)

  filled-buffer :
      (n : ℕ) (bs : Bytes)
      → length (take n bs) ≡ n
      → overwrite (length got) (take n bs) (got ++ replicate k 0)
        ≡ (got ++ take n bs) ++ replicate (k - n) 0
  unfolding overwrite
  filled-buffer n bs e = rw (
    e,
    take-append (length got) got (replicate k 0) refl,
    drop_behind n got (replicate k 0),
    drop-replicate {A = ℕ} n k 0,
  )

  filled_lem :
      (n : ℕ) (bs : Bytes)
      → length (take n bs) ≡ n
      → filled n bs (partial got k) ≡ partial (got ++ take n bs) (k - n)
  unfolding filled
  filled_lem n bs e = λ i. record { buf = filled-buffer n bs e i; filled_len = len i }
    where
      len : length got + n ≡ length (got ++ take n bs)
      len = omega (arith, length-append got (take n bs))

-- What the loop comes to: the buffer is full, and the socket holds the rest.
abbrev Fills : Bytes → ℕ → Bytes → List Delivery → Type 0
Fills got k bytes socket =
    (left : List Delivery) × (read_loop (partial got k) socket
      ≡ (ok tt, partial (got ++ take k bytes) 0, left))
    × Delivers (drop k bytes) left

loop_stops :
    (got : Bytes) (socket : List Delivery)
    → read_loop (partial got 0) socket ≡ (ok tt, partial got 0, socket)
unfolding read_loop
loop_stops got [] = rw (is_full-zero got 0 refl)
loop_stops got (breaks m ∷ socket) = rw (is_full-zero got 0 refl)
loop_stops got (arrives bs ∷ socket) = rw (is_full-zero got 0 refl)

nonempty : (bs : Bytes) → bs ≢ [] → 0 < length bs
nonempty [] h = absurd (h refl)
nonempty (b ∷ bs) h = omega arith

-- A delivery that fits is taken whole.
loop_takes :
    (got bs : Bytes) (k : ℕ) (socket : List Delivery)
    → bs ≢ []
    → length bs ≤ k
    → read_loop (partial got k) (arrives bs ∷ socket)
      ≡ read_loop (partial (got ++ bs) (k - length bs)) socket
unfolding read_loop
loop_takes got bs k socket ne h =
    let pos : 0 < length bs = nonempty bs ne in
    let all : take (length bs) bs ≡ bs = take_all (length bs) bs (omega arith) in
    let into : filled (length bs) bs (partial got k) ≡ partial (got ++ bs) (k - length bs) =
      filled_lem got k (length bs) bs (ap length all)
      ∙ ap (λ x. partial (got ++ x) (k - length bs)) all in
    ground (arith, is_full-pos got k, length-partial got k, into)

-- A longer one is cut.
loop_cuts :
    (got bs : Bytes) (k : ℕ) (socket : List Delivery)
    → 0 < k
    → k < length bs
    → read_loop (partial got k) (arrives bs ∷ socket)
      ≡ (ok tt, partial (got ++ take k bs) 0, arrives (drop k bs) ∷ socket)
unfolding read_loop
loop_cuts got bs k socket pos h =
    let into = filled_lem got k k bs (omega (arith, length-take k bs)) in
    rw (space_partial got k) (ground (arith, is_full-pos got k, into, sub_self k))

zero-Fills :
    (got bytes : Bytes) (socket : List Delivery) → Delivers bytes socket → Fills got 0 bytes socket
unfolding take drop
zero-Fills got bytes socket del = (
  socket,
  loop_stops got socket ∙ ap (λ x. (ok tt, partial x 0, socket)) (sym (append-nil got)),
  del,
)

cut-Fills :
    (got bs more : Bytes) (k : ℕ) (socket : List Delivery)
    → 0 < k
    → k < length bs
    → Delivers more socket
    → Fills got k (bs ++ more) (arrives bs ∷ socket)
cut-Fills got bs more k socket pos h del = (
  arrives (drop k bs) ∷ socket,
  rw (take_inside k bs more (omega arith)) (loop_cuts got bs k socket pos h),
  (more, drop_inside k bs more (omega arith), left_over, del),
)
  where
    left_over : drop k bs ≢ []
    left_over e = omega (arith, ap length e, length-drop k bs)

take-Fills :
    (got bs more : Bytes) (k : ℕ) (socket : List Delivery)
    → bs ≢ []
    → Fills (got ++ bs) k more socket
    → Fills got (length bs + k) (bs ++ more) (arrives bs ∷ socket)
take-Fills got bs more k socket ne (left, e, del) = (
  left,
  rw (take_behind k bs more) (
      loop_takes got bs (length bs + k) socket ne (omega arith)
      ∙ rw (rest_of k) (e ∙ rw (append_assoc got bs (take k more)))),
  rw (drop_behind k bs more) del,
)
  where
    rest_of : (k : ℕ) → length bs + k - length bs ≡ k
    rest_of k = omega arith

-- While enough bytes come, the loop fills the buffer with them and leaves the others in the socket.
loop-Fills :
    (got bytes : Bytes) (k : ℕ) (socket : List Delivery)
    → Delivers bytes socket
    → k ≤ length bytes
    → Fills got k bytes socket
loop-Fills got bytes zero socket del h = zero-Fills got bytes socket del
loop-Fills got bytes (suc k) [] del h = absurd (omega (arith, ap length del))
loop-Fills got bytes (suc k) (breaks m ∷ socket) del h = absurd (omega (arith, ap length del))
loop-Fills got bytes (suc k) (arrives bs ∷ socket) (more, e, ne, del) h =
    rw e (elim (Bool-cases (ltb (suc k) (length bs))) [
      | inl long ↦ cut-Fills got bs more (suc k) socket (omega arith) (ltb→lt _ _ long) del
      | inr short ↦
          let le : length bs ≤ suc k = ground arith in
          let len : length bytes ≡ length bs + length more = ap length e ∙ length-append bs more in
          let whole : suc k ≡ length bs + (suc k - length bs) = omega arith in
          subst (λ n. Fills got n (bs ++ more) (arrives bs ∷ socket)) (sym whole)
            (take-Fills got bs more (suc k - length bs) socket ne
              (loop-Fills (got ++ bs) more (suc k - length bs) socket del (omega arith)))
    ])

read_raw-eq :
    (cnt : ℕ) (s : BufStream)
    → read_raw cnt s ≡ split cnt (done s (read_loop (partial s.rbuf cnt) s.socket))
unfolding read_raw
read_raw-eq cnt s = ap (λ b. split cnt (done s (read_loop b s.socket))) (reserve_lem s.rbuf cnt)

truncated-partial : (got : Bytes) (k : ℕ) → truncated (partial got k) ≡ got
unfolding truncated
truncated-partial got k = take-append (length got) got (replicate k 0) refl

-- `read_raw` takes `cnt` bytes from the socket, also where the read buffer already holds some, and
-- returns the first `cnt` of both together.
pub read_raw_general :
    (cnt : ℕ) (bytes : Bytes) (s : BufStream)
    → Delivers bytes s.socket
    → cnt ≤ length bytes
    → (left : List Delivery) × (read_raw cnt s ≡ (
      ok (take cnt (s.rbuf ++ take cnt bytes)),
      record s { socket = left; rbuf = drop cnt (s.rbuf ++ take cnt bytes) },
    ))
      × Delivers (drop cnt bytes) left
read_raw_general cnt bytes s del h =
    let (left, e, rest) = loop-Fills s.rbuf bytes cnt s.socket del h in
    (left, rw (read_raw-eq cnt s, e, truncated-partial (s.rbuf ++ take cnt bytes) 0), rest)

-- The stream holds these bytes: nothing is left in the read buffer, and the socket delivers them.
pub record Holds (bytes : Bytes) (s : BufStream) : Type 0 where
  pub clean : s.rbuf ≡ []
  pub delivers : Delivers bytes s.socket

-- The state that a read leaves: only the socket has changed.
abbrev pub after_read : BufStream → List Delivery → BufStream
after_read s left = record s { socket = left; rbuf = [] }

-- If the read buffer is empty and at least `cnt` bytes come, however the socket cuts them, `read_raw` returns exactly the first
-- `cnt` of them, and the stream holds the others. Nothing else in it changes.
pub read_raw_lem :
    (cnt : ℕ) (bytes : Bytes) (s : BufStream)
    → Holds bytes s
    → cnt ≤ length bytes
    → (left : List Delivery) × (read_raw cnt s ≡ (ok (take cnt bytes), after_read s left))
      × Holds (drop cnt bytes) (after_read s left)
read_raw_lem cnt bytes s holds h =
    let (left, e, rest) = read_raw_general cnt bytes s holds.delivers h in
    let len : length (take cnt bytes) ≡ cnt = omega (arith, length-take cnt bytes) in
    (
      left,
      e
          ∙ rw (
            holds.clean,
            take_all cnt (take cnt bytes) (omega arith),
            drop_all cnt (take cnt bytes) (omega arith),
          ),
      record { clean = refl; delivers = rest },
    )
